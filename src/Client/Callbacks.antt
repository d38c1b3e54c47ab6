-- ===== src/Client/Callbacks.antt =====
-- From a subscription that succeeds to the callback that was given for it.
use rbuscore.Base.{
  ℕ, ◌+◌, ◌^◌, ◌<◌, ◌≡◌, refl, sym, subst, false, Option, some, none, List, map, length, All, Name,
  IsText, strlen, strcmp_eq, strcmp_eq_refl,
}
use mathlib.Core.Option.{some-injective}
use rbuscore.Rt.Vector.{Vector, IsVector, list_vector, vector-eq}
use rbuscore.Rt.Msgpack.{IsMsgpack, InRange}
use rbuscore.Keyed.{find_first-update_first, find_first-append_new}
use rbuscore.Message.{Message, init, to_bytes}
use rbuscore.Message.RoundTrip.{Value, item, expected, write_all, read_all, wires}
use rbuscore.Message.Meta.{meta_limit}
use rbuscore.Core.Types.{RbusError, ClientEvent, ClientSubscription, Header}
use rbuscore.Core.State.{Bus}
use rbuscore.Core.Env.{Env}
use rbuscore.Server.PublishLaws.{message}
use rbuscore.Client.Valid.{ValidTable, object_key, subscription_of, event_of}
use rbuscore.Client.Table.{insert_event}
use rbuscore.Client.TableCases.{pushed, single, insert_cases}
use rbuscore.Client.TableLaws.{event_of-insert_event}
use rbuscore.Client.Subscribe.{subscribe_to_event_timeout}
use rbuscore.Client.SubscribeCases.{Subscribed, subscribe_cases}
use rbuscore.Client.SubscribeLaws.{subscribe_to_event_timeout-ValidTable}
use rbuscore.Client.Receive.{master_event_callback}
use rbuscore.Client.EventMeta.{section}
use rbuscore.Client.Delivery.{master_event_callback-publish_event}

-- An event that is entered makes no subscription but that to its object.
subscription_of-insert_event :
    (env : Env) (object other : Name) (e : ClientEvent) (subs : List ClientSubscription)
    → ValidTable env subs
    → strcmp_eq object other ≡ false
    → subscription_of other subs ≡ none
    → subscription_of other (insert_event list_vector env object e subs) ≡ none
subscription_of-insert_event env object other e subs h apart absent =
    insert_cases env object (λ subs'. subscription_of other subs' ≡ none) e subs h
      (λ sub found.
        rw (find_first-update_first object_key other object (pushed e) subs (λ x. refl), apart)
          absent)
      λ missing.
        rw (find_first-append_new object_key other subs (single object e) missing, apart) absent

contradicted : {e : ClientEvent} {o : Option ClientEvent} → o ≡ none → o ≡ some e → ⊥
contradicted p q = cc

module _ (env : Env) (object event : Name) (callback : ℕ) (user_data : ℕ) where
  abbrev new : ClientEvent
  new = record { name = event; callback = callback; user_data = user_data }

  -- The table has the event, and no subscription under the event's name.
  abbrev Entered : List ClientSubscription → Type 0
  Entered subs =
      (strlen object < env.max_object_name_length)
      × (event_of object event subs ≡ some new)
      × (subscription_of event subs ≡ none)

  entered_lem :
      (payload : Option Message) (timeout : ℕ) (s : Bus env.World)
      → s.master_event_callback ≡ none
      → ValidTable env s.event_subscriptions
      → event_of object event s.event_subscriptions ≡ none
      → subscription_of event s.event_subscriptions ≡ none
      → strcmp_eq object event ≡ false
      → let (answer, s') =
          subscribe_to_event_timeout list_vector env
            (some object)
            (some event)
            (some callback)
            payload
            user_data
            timeout
            s in
        Subscribed env answer → Entered s'.event_subscriptions
  entered_lem payload t s unset h fresh unnamed apart =
      subscribe_cases env (λ answer subs. Subscribed env answer → Entered subs) (some object)
        (some event) (some callback) payload user_data t s unset h
        (λ answer bad good. absurd (bad good))
        (λ o e f old called ne given there good.
          let same : object ≡ o = some-injective object o called in
          let alike : event ≡ e = some-injective event e ne in
          absurd (contradicted {e = old} fresh (rw (same, alike) there)))
        λ o e f r called ne given so se fine absent good.
          let same : object ≡ o = some-injective object o called in
          let alike : event ≡ e = some-injective event e ne in
          let this : callback ≡ f = some-injective callback f given in
          rw (← same, ← alike, ← this)
            (
              rw same so,
              rw (
                event_of-insert_event env object new s.event_subscriptions object event h fresh,
                strcmp_eq_refl object,
                strcmp_eq_refl event,
              ),
              subscription_of-insert_event env object event new s.event_subscriptions h apart
                  unnamed,
            )

-- A subscriber whose subscription succeeds hears of the event: when the message that a provider
-- publishes for the event of the object arrives next, rbuscore calls the callback that was given to
-- rbus_subscribeToEventTimeout, with the data that was given, and the values that the publisher had
-- written are read from the message that it gets, in order. The subscription is new, no object of the
-- table is named like the event, no master handler is set, the table is well-formed, and the names
-- and the message are below the largest sizes.
pub master_event_callback-subscribe_to_event_timeout :
    (v : Vector) (env : Env) (h : IsMsgpack env.msgpack) (object event : Name)
    (callback user_data timeout : ℕ) (payload : Option Message) (values : List Value) (hdr : Header)
    (s : Bus env.World)
    → IsVector v
    → s.master_event_callback ≡ none
    → ValidTable env s.event_subscriptions
    → event_of object event s.event_subscriptions ≡ none
    → subscription_of event s.event_subscriptions ≡ none
    → strcmp_eq object event ≡ false
    → Subscribed env
        (subscribe_to_event_timeout v env
          (some object)
          (some event)
          (some callback)
          payload
          user_data
          timeout
          s).0
    → hdr.reply_topic ≡ object
    → IsText event
    → length event + 1 < 2 ^ 31
    → length object + 1 < 2 ^ 31
    → All (λ x. InRange (item x)) values
    → length (wires env.msgpack h values) < meta_limit
    → length (wires env.msgpack h values)
        + length (wires env.msgpack h (section event object 0))
        + 5
      < 2 ^ 32
    → let (_, s') =
        subscribe_to_event_timeout v env
          (some object)
          (some event)
          (some callback)
          payload
          user_data
          timeout
          s in
      let (data_bytes, n) =
        to_bytes (message env object (some event) (write_all env.msgpack values init)) in
      (msg : Message) × (master_event_callback v env hdr data_bytes s' ≡ (
        some tt,
        (env.call_event callback object
            (some event)
            msg
            user_data
            (record s' { locked = false })).1,
      ))
      × (read_all env.msgpack values msg ≡ map (λ x. some (expected x)) values)
master_event_callback-subscribe_to_event_timeout v env h object event callback user_data timeout
      payload values hdr s iv unset valid fresh unnamed apart good from text event_short
      object_short ranged small total =
    let subs_after : Vector → List ClientSubscription = λ k.
      (subscribe_to_event_timeout k env (some object) (some event) (some callback) payload user_data
        timeout s).1.event_subscriptions in
    let answer_of : Vector → Option (RbusError × Option ℕ) = λ k.
      (subscribe_to_event_timeout k env (some object) (some event) (some callback) payload user_data
        timeout s).0 in
    let (short, there, nobody) =
      subst (λ k. Entered env object event callback user_data (subs_after k)) (sym (vector-eq v iv))
        (entered_lem env object event callback user_data payload timeout s unset valid fresh unnamed
          apart (subst (λ k. Subscribed env (answer_of k)) (vector-eq v iv) good)) in
    master_event_callback-publish_event v env h object event values hdr
      (subscribe_to_event_timeout v env (some object) (some event) (some callback) payload user_data
        timeout s).1
      (new env object event callback user_data) iv
      (subscribe_to_event_timeout-ValidTable v env (some object) (some event) (some callback)
        payload user_data timeout s iv unset valid)
      there nobody from short text event_short object_short ranged small total
