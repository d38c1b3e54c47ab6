-- ===== src/Server/EventTests.antt =====
-- The theorems on subscription requests at a concrete bus.
use rbuscore.Base.{◌≡◌, ◌≢◌, ◌⊎◌, refl, true, none, some, [], ◌∷◌, codes, arith, strcmp_eq}
use rbuscore.Rt.Vector.{list_vector, list_vector-IsVector}
use rbuscore.Core.Types.{success, error_unsupported_event}
use rbuscore.Core.Example.{example_env, lamp, lamp_bus}
use rbuscore.Server.Valid.{event_of}
use rbuscore.Server.Tests.{lamp_bus-ValidRegistry}
use rbuscore.Server.Events.{server_object_subscription_handler}
use rbuscore.Server.EventSteps.{Undisturbing}
use rbuscore.Server.EventLaws.{event_of-server_object_subscription_handler}

pub quiet_callbacks : Undisturbing example_env
quiet_callbacks f object event listener added payload user_data s = refl

event_of-server_object_subscription_handler_example :
    let (ret, s') =
      server_object_subscription_handler list_vector example_env
        (codes "lamp")
        (codes "lit")
        (codes "panel")
        true
        none
        lamp_bus in
    ((ret ≡ success)
      × (event_of (codes "lamp") (codes "lit") lamp_bus.server_objects ≢ none)
      × (event_of (codes "lamp") (codes "lit") s'.server_objects
          ≡ some (record {
            name = codes "lit";
            object = codes "lamp";
            listeners = codes "hall" ∷ codes "panel" ∷ [];
            sub_callback = some 5;
            sub_data = 0;
          })))
    ⊎ ((ret ≡ error_unsupported_event)
        × (event_of (codes "lamp") (codes "lit") lamp_bus.server_objects ≡ none)
        × (event_of (codes "lamp") (codes "lit") s'.server_objects
            ≡ event_of (codes "lamp") (codes "lit") lamp_bus.server_objects))
unfolding strcmp_eq
event_of-server_object_subscription_handler_example =
    event_of-server_object_subscription_handler list_vector example_env (codes "lamp") (codes "lit")
      (codes "panel") true none lamp lamp_bus (codes "lamp") (codes "lit") list_vector-IsVector
      quiet_callbacks lamp_bus-ValidRegistry refl refl (omega arith) (omega arith)
