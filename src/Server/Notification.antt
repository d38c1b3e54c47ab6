-- ===== src/Server/Notification.antt =====
-- From a subscription request to the events that follow it.
use rbuscore.Base.{
  ℕ, ◌<◌, ◌≡◌, ◌≢◌, sym, subst, ◌∙◌, true, Option-cases, inl, inr, Option, none, some, List, ◌&&◌,
  if◌then◌else◌, arith, Name, strlen, strcmp_eq, strcmp_eq_refl,
}
use mathlib.Core.Option.{some-injective}
use rbuscore.Rt.Vector.{Vector, IsVector, any_item}
use rbuscore.Keyed.{mapped}
use rbuscore.Message.{Message}
use rbuscore.Core.Types.{success, Event, Object}
use rbuscore.Core.State.{Bus}
use rbuscore.Core.Env.{Env}
use rbuscore.Server.Events.{server_object_subscription_handler}
use rbuscore.Server.Publish.{publish_event}
use rbuscore.Server.PublishLaws.{delivered, message, publish_event-delivered}
use rbuscore.Server.Valid.{ValidRegistry, object_of, event_of}
use rbuscore.Server.EventCases.{with_listener, is_listener, any_item-with_listener}
use rbuscore.Server.EventSteps.{Undisturbing}
use rbuscore.Server.EventLaws.{
  event_of-server_object_subscription_handler, server_object_subscription_handler-ValidRegistry,
}

no_event : {e : Event} → ◌≡◌ {A = Option Event} none (some e) → ⊥
no_event e = cc

-- The event is there with the subscriber among its listeners.
pub Listening : Name → Name → Name → List Object → Type 0
Listening obj event subscriber os =
    (e : Event) × (event_of obj event os ≡ some e)
    × (any_item (is_listener subscriber) e.listeners ≡ true)

listening_lem :
    (obj event subscriber : Name) (os os' : List Object)
    → event_of obj event os ≢ none
    → event_of obj event os' ≡ (
        if strcmp_eq obj obj && strcmp_eq event event
        then mapped (with_listener true subscriber) (event_of obj event os)
        else event_of obj event os)
    → Listening obj event subscriber os'
unfolding Listening
listening_lem obj event sub os os' there now = elim (Option-cases (event_of obj event os)) [
  | inl missing ↦ absurd (there missing)
  | inr (e, found) ↦ (
    with_listener true sub e,
    rw (strcmp_eq_refl obj, strcmp_eq_refl event, found) at now,
    any_item-with_listener sub e,
  )
]

-- An event that is published reaches those who listen to it.
pub publish_event-Listening :
    (v : Vector) (env : Env) (obj event subscriber : Name) (c : ℕ) (out : Message)
    (s : Bus env.World)
    → IsVector v
    → ValidRegistry env s.server_objects
    → s.connection ≡ some c
    → Listening obj event subscriber s.server_objects
    → let (ret, s') = publish_event v env obj (some event) out s in
      (ret ≡ success)
      × ((listeners : List Name) × (any_item (is_listener subscriber) listeners ≡ true)
          × (s'.world ≡ delivered env c (message env obj (some event) out) obj listeners s.world))
unfolding Listening
publish_event-Listening v env obj event sub c out s iv valid connected (e, entered, listening) =
    elim (publish_event-delivered v env c obj (some event) out s iv connected valid) [
      | inl (e', present, once, sent, world) ↦
          let same : e ≡ e' = some-injective e e' (sym entered ∙ present) in
          (
            sent,
            (
              e'.listeners,
              subst (λ k. any_item (is_listener sub) k.listeners ≡ true) same listening,
              world,
            ),
          )
      | inr unknown ↦ absurd (no_event (sym unknown.0 ∙ entered))
    ]

-- A subscriber listens to an event after its request for it, if the object has the event and no
-- handler of its own.
pub server_object_subscription_handler-Listening :
    (v : Vector) (env : Env) (obj event subscriber : Name) (payload : Option Message) (o : Object)
    (s : Bus env.World)
    → IsVector v
    → Undisturbing env
    → ValidRegistry env s.server_objects
    → object_of obj s.server_objects ≡ some o
    → o.subscribe_handler_override ≡ none
    → strlen subscriber < env.max_object_name_length
    → strlen event < env.max_object_name_length
    → event_of obj event s.server_objects ≢ none
    → let (ret, s') =
        server_object_subscription_handler v env obj event subscriber true payload s in
      Listening obj event subscriber s'.server_objects
server_object_subscription_handler-Listening v env obj event sub payload o s iv quiet h found unset
      short short' there =
    elim (event_of-server_object_subscription_handler v env obj event sub true payload o s obj event
      iv quiet h found unset short short') [
        | inr refused ↦ absurd (there refused.1)
        | inl (fine, known, now) ↦ listening_lem obj event sub s.server_objects _ known now
      ]

-- A subscriber whose request a provider has accepted gets the events that the provider publishes
-- next: rbus_publishEvent succeeds, and sends the message to listeners of which the subscriber is one.
-- The registry is well-formed, the object has no handler of its own for such requests, the names are
-- short enough, the callbacks for subscriptions leave the registered objects alone, and the bus is
-- connected after the request.
pub publish_event-server_object_subscription_handler :
    (v : Vector) (env : Env) (obj event subscriber : Name) (payload : Option Message) (o : Object)
    (s : Bus env.World) (c : ℕ) (out : Message)
    → IsVector v
    → Undisturbing env
    → ValidRegistry env s.server_objects
    → object_of obj s.server_objects ≡ some o
    → o.subscribe_handler_override ≡ none
    → strlen subscriber < env.max_object_name_length
    → strlen event < env.max_object_name_length
    → (server_object_subscription_handler v env obj event subscriber true payload s).0 ≡ success
    → (server_object_subscription_handler v env obj event subscriber true payload s).1.connection
      ≡ some c
    → let s' = (server_object_subscription_handler v env obj event subscriber true payload s).1 in
      let (ret, s'') = publish_event v env obj (some event) out s' in
      (ret ≡ success)
      × ((listeners : List Name) × (any_item (is_listener subscriber) listeners ≡ true)
          × (s''.world ≡ delivered env c (message env obj (some event) out) obj listeners s'.world))
publish_event-server_object_subscription_handler v env obj event sub payload o s c out iv quiet h
      found unset short short' accepted connected =
    let s' = (server_object_subscription_handler v env obj event sub true payload s).1 in
    let valid : ValidRegistry env s'.server_objects =
      server_object_subscription_handler-ValidRegistry v env obj event sub true payload s iv quiet
        h in
    let there : event_of obj event s.server_objects ≢ none =
      elim (event_of-server_object_subscription_handler v env obj event sub true payload o s obj
        event iv quiet h found unset short short') [
          | inr refused ↦ absurd (omega (arith, accepted, refused.0))
          | inl (fine, known, now) ↦ known
        ] in
    publish_event-Listening v env obj event sub c out s' iv valid connected (
      server_object_subscription_handler-Listening v env obj event sub payload o s iv quiet h found
        unset short short' there)
