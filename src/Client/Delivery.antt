-- ===== src/Client/Delivery.antt =====
-- From a published event to the callback of a subscriber.
use rbuscore.Base.{
  ℕ, subst, ◌+◌, ◌^◌, ◌<◌, ◌≡◌, ap, ◌∙◌, false, Bool-cases, inl, inr, Option, some, none, List, [],
  ◌∷◌, ◌++◌, append_assoc, map, arith, leb, length, All, Name, IsText, strlen, strcmp_eq,
  strncmp_eq-strcmp_eq,
}
use rbuscore.Rt.Vector.{Vector, IsVector, list_vector, vector-eq}
use rbuscore.Rt.Msgpack.{IsMsgpack, InRange}
use rbuscore.Message.{Message, init, from_bytes, to_bytes}
use rbuscore.Message.RoundTrip.{
  Value, item, expected, write_all, read_all, wires, write_all_lem, read_all_lem,
}
use rbuscore.Message.Meta.{meta_limit, trailer}
use rbuscore.Remote.Replies.{sent_bytes}
use rbuscore.Core.Types.{ClientEvent, ClientSubscription, Header}
use rbuscore.Core.State.{Bus, ◌>>=◌}
use rbuscore.Core.Env.{Env}
use rbuscore.Server.PublishLaws.{message}
use rbuscore.Client.Valid.{ValidTable, event_of, subscription_of, event_in, find_client_event_lem}
use rbuscore.Client.Receive.{
  find_receiver, takes_from, offer_to_master, find_named, receive_event, get_event_meta,
  master_event_callback,
}
use rbuscore.Client.EventMeta.{section, get_event_meta-set_event_meta, length-set_event_meta}

no_subscription :
    (sub : ClientSubscription) → ◌≡◌ {A = Option ClientSubscription} (some sub) none → ⊥
no_subscription sub e = cc

module _ (env : Env) where
  -- The subscription to an event of the sender is found, unless an object is named like the event.
  find_receiver_lem :
      (sender event_name : Name) (subs : List ClientSubscription) (e : ClientEvent)
      → ValidTable env subs
      → subscription_of event_name subs ≡ none
      → event_of sender event_name subs ≡ some e
      → find_receiver list_vector env sender (some event_name) subs ≡ some (some e)
  unfolding find_receiver takes_from find_named
  find_receiver_lem sender event [] e h unnamed there = cc
  find_receiver_lem sender event (sub ∷ subs) e h unnamed there =
      let valid : ValidTable env subs = record {
        subs_valid = h.subs_valid.1;
        subs_short = h.subs_short.1;
        subs_distinct = h.subs_distinct.1;
      } in
      let by_object =
        strncmp_eq-strcmp_eq env.max_object_name_length sub.object sender h.subs_short.0 in
      let by_event =
        strncmp_eq-strcmp_eq env.max_object_name_length sub.object event h.subs_short.0 in
      elim (Bool-cases (strcmp_eq sub.object sender)) [
        | inl same ↦
            let found : event_in event sub ≡ some e = rw same at there in
            rw
              (
                find_receiver,
                takes_from,
                by_object,
                same,
                find_client_event_lem env sub h.subs_valid.0 event,
              )
              (rw found)
        | inr other ↦ elim (Bool-cases (strcmp_eq sub.object event)) [
          | inl clash ↦ absurd (no_subscription sub (rw clash at unnamed))
          | inr apart ↦
              rw (find_receiver, takes_from, by_object, other, by_event, apart)
                (find_receiver_lem sender event subs e valid (rw apart at unnamed)
                  (rw other at there))
        ]
      ]

  -- What the subscriber's callback gets of a message.
  abbrev pub received : IsMsgpack env.msgpack → Name → Name → Message → Message
  received h object_name event_name out = record {
    sbuf = sent_bytes env.msgpack h out (section event_name object_name 0);
    read_offset = 0;
    meta_offset = 0;
  }

  -- A message whose section is read, for a subscription that is found.
  called_lem :
      (hdr : Header) (data_bytes : List ℕ) (event_name : Name) (msg : Message) (e : ClientEvent)
      (s : Bus env.World)
      → leb env.max_object_name_length (strlen hdr.reply_topic) ≡ false
      → get_event_meta env.msgpack (from_bytes env.msgpack data_bytes (length data_bytes))
        ≡ (msg, some (some event_name, 0))
      → find_receiver list_vector env hdr.reply_topic (some event_name) s.event_subscriptions
        ≡ some (some e)
      → master_event_callback list_vector env hdr data_bytes s ≡ (
        some tt,
        (env.call_event e.callback hdr.reply_topic
            (some event_name)
            msg
            e.user_data
            (record s { locked = false })).1,
      )
  unfolding master_event_callback receive_event offer_to_master
  called_lem hdr bytes event msg e s fine meta found =
      rw (master_event_callback, fine, meta)
        (rw (receive_event, ◌>>=◌, found)
          (ap
            (λ m. (
              some tt,
              (env.call_event e.callback hdr.reply_topic (some event) m e.user_data
                  (record s { locked = false })).1,
            ))
            (ap (λ p. p.0) meta)))

-- An event that rbus_publishEvent sends reaches the subscriber: when the message for an event of an
-- object arrives, with the object as its sender, the callback that the subscriber has for that event
-- of that object is called, and the values that the publisher had written are read from the message
-- that it gets, in order. The table of subscriptions is well-formed and has no object with the name of
-- the event, the names are text below the largest name, and the message is below the largest sizes.
pub master_event_callback-publish_event :
    (v : Vector) (env : Env) (h : IsMsgpack env.msgpack) (object_name event_name : Name)
    (values : List Value) (hdr : Header) (s : Bus env.World) (e : ClientEvent)
    → IsVector v
    → ValidTable env s.event_subscriptions
    → event_of object_name event_name s.event_subscriptions ≡ some e
    → subscription_of event_name s.event_subscriptions ≡ none
    → hdr.reply_topic ≡ object_name
    → strlen object_name < env.max_object_name_length
    → IsText event_name
    → length event_name + 1 < 2 ^ 31
    → length object_name + 1 < 2 ^ 31
    → All (λ x. InRange (item x)) values
    → length (wires env.msgpack h values) < meta_limit
    → length (wires env.msgpack h values)
        + length (wires env.msgpack h (section event_name object_name 0))
        + 5
      < 2 ^ 32
    → let out = write_all env.msgpack values init in
      let (data_bytes, n) = to_bytes (message env object_name (some event_name) out) in
      (msg : Message) × (master_event_callback v env hdr data_bytes s ≡ (
        some tt,
        (env.call_event e.callback object_name
            (some event_name)
            msg
            e.user_data
            (record s { locked = false })).1,
      ))
      × (read_all env.msgpack values msg ≡ map (λ x. some (expected x)) values)
master_event_callback-publish_event v env h object event values hdr s e iv valid there unnamed from
      short text event_short object_short ranged small total =
    let written = write_all_lem env.msgpack h values init ranged in
    let out : Message = record init { sbuf = wires env.msgpack h values } in
    let (data_bytes, n) = to_bytes (message env object (some event) out) in
    let kept =
      length-set_event_meta env.msgpack h event object 0 out text event_short object_short
        (omega arith) small total in
    let meta =
      subst
        (λ k.
          get_event_meta env.msgpack (from_bytes env.msgpack data_bytes k)
          ≡ (received env h object event out, some (some event, 0)))
        kept
        (get_event_meta-set_event_meta env.msgpack h event object 0 out text event_short
          object_short (omega arith) small total) in
    let fine : leb env.max_object_name_length (strlen object) ≡ false = ground arith in
    (
      received env h object event out,
      rw (written, vector-eq v iv)
          (called_lem env hdr data_bytes event (received env h object event out) e s
              (ap (λ o. leb env.max_object_name_length (strlen o)) from ∙ fine) meta
              (ap (λ o. find_receiver list_vector env o (some event) s.event_subscriptions) from
                ∙ find_receiver_lem env object event s.event_subscriptions e valid unnamed there)
            ∙ ap
                (λ o. (
                  some tt,
                  (env.call_event e.callback o (some event) (received env h object event out)
                      e.user_data (record s { locked = false })).1,
                ))
                from),
      rw append_assoc (
          read_all_lem env.msgpack h values []
            (wires env.msgpack h (section event object 0) ++ trailer (length out.sbuf)) 0 ranged),
    )
