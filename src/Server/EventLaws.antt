-- ===== src/Server/EventLaws.antt =====
-- What a subscription request does to the events of the provider.
use rbuscore.Base.{
  ◌<◌, ◌≡◌, ◌≢◌, ◌⊎◌, refl, Bool, inl, inr, ◌&&◌, Option, none, some, if◌then◌else◌, Name, strlen,
  strcmp_eq,
}
use rbuscore.Rt.Vector.{Vector, IsVector, vector-eq}
use rbuscore.Keyed.{mapped}
use rbuscore.Message.{Message}
use rbuscore.Core.Types.{success, error_unsupported_event, Object}
use rbuscore.Core.State.{Bus}
use rbuscore.Core.Env.{Env}
use rbuscore.Server.Events.{server_object_subscription_handler}
use rbuscore.Server.Valid.{ValidRegistry, object_of, event_of}
use rbuscore.Server.EventCases.{
  with_listener, with_listener_name, with_listener_object, unchanged_lem, event_of-changed,
  changed-ValidRegistry, with_listener-Distinct,
}
use rbuscore.Server.EventSteps.{Undisturbing, handler_cases}
use rbuscore.Server.SubscriptionSteps.{subscription_cases}

-- What a subscription request does to the events of a provider, on a well-formed registry, for an
-- object without a handler of its own for such requests: if the object has the event, it succeeds,
-- and the subscriber is put behind the listeners of that event, unless it is one, or taken out of
-- them; otherwise it fails. All other events, and all events where it fails, are as they were. The
-- names are short enough, and the callbacks for subscriptions leave the registered objects alone.
pub event_of-server_object_subscription_handler :
    (v : Vector) (env : Env) (obj event subscriber : Name) (added : Bool) (payload : Option Message)
    (o : Object) (s : Bus env.World) (x y : Name)
    → IsVector v
    → Undisturbing env
    → ValidRegistry env s.server_objects
    → object_of obj s.server_objects ≡ some o
    → o.subscribe_handler_override ≡ none
    → strlen subscriber < env.max_object_name_length
    → strlen event < env.max_object_name_length
    → let (ret, s') =
        server_object_subscription_handler v env obj event subscriber added payload s in
      ((ret ≡ success)
        × (event_of obj event s.server_objects ≢ none)
        × (event_of x y s'.server_objects ≡ (
            if strcmp_eq obj x && strcmp_eq event y
            then mapped (with_listener added subscriber) (event_of x y s.server_objects)
            else event_of x y s.server_objects)))
      ⊎ ((ret ≡ error_unsupported_event)
          × (event_of obj event s.server_objects ≡ none)
          × (event_of x y s'.server_objects ≡ event_of x y s.server_objects))
event_of-server_object_subscription_handler v env obj event sub added payload o s x y iv quiet h
      found unset short short' =
    rw (vector-eq v iv) (
      handler_cases env quiet
        (λ ret os.
          ((ret ≡ success)
            × (event_of obj event s.server_objects ≢ none)
            × (event_of x y os ≡ (
                if strcmp_eq obj x && strcmp_eq event y
                then mapped (with_listener added sub) (event_of x y s.server_objects)
                else event_of x y s.server_objects)))
          ⊎ ((ret ≡ error_unsupported_event)
              × (event_of obj event s.server_objects ≡ none)
              × (event_of x y os ≡ event_of x y s.server_objects)))
        obj event sub added payload o s h found unset short short'
        (λ absent. inr (refl, rw (found, absent), refl))
        (λ e there kept. inl (
          refl,
          rw (found, there) (λ q. cc),
          unchanged_lem (with_listener added sub) s.server_objects obj event x y e
              (rw (found, there)) kept,
        ))
        λ e there. inl (
          refl,
          rw (found, there) (λ q. cc),
          event_of-changed env obj event (with_listener added sub) (with_listener_name added sub)
              s.server_objects x y h,
        ))

-- A subscription request keeps the registry well-formed, whatever its arguments: no listener is
-- entered twice. The callbacks for subscriptions leave the registered objects alone.
pub server_object_subscription_handler-ValidRegistry :
    (v : Vector) (env : Env) (obj event subscriber : Name) (added : Bool) (payload : Option Message)
    (s : Bus env.World)
    → IsVector v
    → Undisturbing env
    → ValidRegistry env s.server_objects
    → ValidRegistry env
        (server_object_subscription_handler v env obj event subscriber added payload
          s).1.server_objects
server_object_subscription_handler-ValidRegistry v env obj event sub added payload s iv quiet h =
    rw (vector-eq v iv) (
      subscription_cases env quiet (λ ret os. ValidRegistry env os) obj event sub added payload s h
        (λ ret. h)
        λ o e found there.
          changed-ValidRegistry env obj event (with_listener added sub)
            (with_listener_name added sub) s.server_objects o (with_listener_object added sub)
            (with_listener-Distinct sub added) found h)
