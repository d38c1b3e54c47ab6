-- ===== src/Client/SubscribeLaws.antt =====
-- What rbus_subscribeToEventTimeout does to the table of subscriptions.
use rbuscore.Base.{
  ℕ, ◌≡◌, refl, ◌&&◌, Bool-cases, ◌⊎◌, inl, inr, Option, none, some, List, if◌then◌else◌, Name,
  strcmp_eq, strcmp_eq→eq,
}
use rbuscore.Rt.Vector.{Vector, IsVector, list_vector, vector-eq}
use rbuscore.Message.{Message}
use rbuscore.Core.Types.{success, ClientEvent, ClientSubscription}
use rbuscore.Core.State.{Bus}
use rbuscore.Core.Env.{Env}
use rbuscore.Client.Valid.{ValidTable, event_of}
use rbuscore.Client.Table.{insert_event}
use rbuscore.Client.TableCases.{insert_event-ValidTable}
use rbuscore.Client.TableLaws.{event_of-insert_event}
use rbuscore.Client.Subscribe.{or_event, subscribe_to_event_timeout}
use rbuscore.Client.SubscribeCases.{Subscribed, subscribe_cases}

-- An event that is there stays; otherwise the new one takes its place.
abbrev pub kept_or : Option ClientEvent → ClientEvent → Option ClientEvent
kept_or none new = some new
kept_or (some old) new = some old

-- The event of a name of an object, after one has been entered or was there.
abbrev pub Shows :
    Name
    → Name
    → ClientEvent
    → Name
    → Name
    → List ClientSubscription
    → List ClientSubscription
    → Type 0
Shows object_name event_name new object event before after = event_of object event after ≡ (
    if strcmp_eq object_name object && strcmp_eq event_name event
    then kept_or (event_of object event before) new
    else event_of object event before)

Shows-old :
    (o e : Name) (new old : ClientEvent) (object event : Name) (subs : List ClientSubscription)
    → event_of o e subs ≡ some old
    → Shows o e new object event subs subs
Shows-old o e new old object event subs there = elim (Bool-cases (strcmp_eq o object)) [
  | inr other ↦ rw other
  | inl same ↦ elim (Bool-cases (strcmp_eq e event)) [
    | inr other ↦ rw (same, other)
    | inl alike ↦
        rw (same, alike) (rw (← strcmp_eq→eq o object same, ← strcmp_eq→eq e event alike, there))
  ]
]

Shows-new :
    (env : Env) (o : Name) (new : ClientEvent) (object event : Name)
    (subs : List ClientSubscription)
    → ValidTable env subs
    → event_of o new.name subs ≡ none
    → Shows o new.name new object event subs (insert_event list_vector env o new subs)
Shows-new env o new object event subs h fresh =
    rw (event_of-insert_event env o new subs object event h fresh)
      (elim (Bool-cases (strcmp_eq o object)) [
        | inr other ↦ rw other
        | inl same ↦ elim (Bool-cases (strcmp_eq new.name event)) [
          | inr other ↦ rw (same, other)
          | inl alike ↦
              rw (same, alike)
                (rw (← strcmp_eq→eq o object same, ← strcmp_eq→eq new.name event alike, fresh))
        ]
      ])

-- rbus_subscribeToEventTimeout keeps the table of subscriptions well-formed: names within their limit,
-- no object and no event of an object twice, and no object without an event. No master handler is
-- set, and the vectors are as documented.
pub subscribe_to_event_timeout-ValidTable :
    (v : Vector) (env : Env) (object_name event_name : Option Name) (callback : Option ℕ)
    (payload : Option Message) (user_data timeout : ℕ) (s : Bus env.World)
    → IsVector v
    → s.master_event_callback ≡ none
    → ValidTable env s.event_subscriptions
    → let (answer, s') =
        subscribe_to_event_timeout v env object_name event_name callback payload user_data timeout
          s in
      ValidTable env s'.event_subscriptions
subscribe_to_event_timeout-ValidTable v env on en cb payload ud t s iv unset h =
    rw (vector-eq v iv) (
      subscribe_cases env (λ answer subs. ValidTable env subs) on en cb payload ud t s unset h
        (λ answer bad. h) (λ o e f old called ne given there. h)
        λ o e f r called ne given so se fine fresh.
          insert_event-ValidTable env o (record { name = e; callback = f; user_data = ud })
            s.event_subscriptions h so se fresh)

-- What rbus_subscribeToEventTimeout does to a well-formed table of subscriptions: after a subscription
-- that succeeds the table has the event with the given callback, or as it was if it was there; all
-- other events are as they were. One that fails, be it by its arguments, a missing connection or the
-- provider's answer, leaves exactly the table of before. No master handler is set.
pub event_of-subscribe_to_event_timeout :
    (v : Vector) (env : Env) (object_name event_name : Option Name) (callback : Option ℕ)
    (payload : Option Message) (user_data timeout : ℕ) (s : Bus env.World) (object event : Name)
    → IsVector v
    → s.master_event_callback ≡ none
    → ValidTable env s.event_subscriptions
    → let (answer, s') =
        subscribe_to_event_timeout v env object_name event_name callback payload user_data timeout
          s in
      (Subscribed env answer
        × ((o e : Name) × (f : ℕ) × (or_event object_name event_name ≡ some o)
            × (event_name ≡ some e)
            × (callback ≡ some f)
            × Shows o e
                (record { name = e; callback = f; user_data = user_data })
                object
                event
                s.event_subscriptions
                s'.event_subscriptions))
      ⊎ ((¬ Subscribed env answer) × (s'.event_subscriptions ≡ s.event_subscriptions))
event_of-subscribe_to_event_timeout v env on en cb payload ud t s object event iv unset h =
    rw (vector-eq v iv) (
      subscribe_cases env
        (λ answer subs.
          (Subscribed env answer
            × ((o e : Name) × (f : ℕ) × (or_event on en ≡ some o)
                × (en ≡ some e)
                × (cb ≡ some f)
                × Shows o e (record { name = e; callback = f; user_data = ud }) object event
                    s.event_subscriptions subs))
          ⊎ ((¬ Subscribed env answer) × (subs ≡ s.event_subscriptions)))
        on en cb payload ud t s unset h (λ answer bad. inr (bad, refl))
        (λ o e f old called ne given there. inl (
          ((success, none), refl, refl),
          (
            o,
            e,
            f,
            called,
            ne,
            given,
            Shows-old o e _ old object event s.event_subscriptions there,
          ),
        ))
        λ o e f r called ne given so se fine fresh. inl (
          (r, refl, fine),
          (
            o,
            e,
            f,
            called,
            ne,
            given,
            Shows-new env o (record { name = e; callback = f; user_data = ud }) object event
                s.event_subscriptions h fresh,
          ),
        ))
