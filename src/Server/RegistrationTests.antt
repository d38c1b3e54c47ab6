-- ===== src/Server/RegistrationTests.antt =====
-- The theorems on the registration of events at concrete buses, and on sequences of calls.
use rbuscore.Base.{
  ℕ, zero, suc, ◌≤◌, ◌≡◌, refl, ◌≢◌, ◌⊎◌, ◌↔◌, ◌&&◌, if◌then◌else◌, true, false, none, some, List,
  [], ◌∷◌, All, codes, arith, length, Name, strcmp_eq,
}
use rbuscore.Rt.Vector.{list_vector, list_vector-IsVector}
use rbuscore.Keyed.{named, Distinct, Bounded}
use rbuscore.Core.Types.{
  success, max_method_name_length, method_unsubscribe, Callback, UserData, Method, Object,
}
use rbuscore.Core.State.{Bus}
use rbuscore.Core.Example.{example_env, lamp, lamp_bus, bus_with, World}
use rbuscore.Server.Registration.{register_event, register_subscribe_handler}
use rbuscore.Server.Valid.{ValidRegistry, method_key, method_of, event_of}
use rbuscore.Server.Handlers.{CanDispatch}
use rbuscore.Server.RegistrationSteps.{new_event, Reaches}
use rbuscore.Server.RegistrationLaws.{or_new, event_of-register_event}
use rbuscore.Server.HandlerLaws.{HasSet, object_of-register_subscribe_handler}
use rbuscore.Server.HandlerGap.{register_event-register_event}
use rbuscore.Server.Registry.{Command, Run, view, execute_all}
use rbuscore.Server.Refinement.{execute_all-Run, execute_all-ValidRegistry}
use rbuscore.Server.Tests.{lamp_bus-ValidRegistry}
use rbuscore.Server.EventTests.{quiet_callbacks}

event_of-register_event_example :
    let (ret, s') =
      register_event list_vector example_env
        (some (codes "lamp"))
        (some (codes "dim"))
        (some 6)
        0
        lamp_bus in
    ((name : Name) × ((o : Object) × Reaches example_env
          (some (codes "lamp"))
          (some (codes "dim"))
          lamp_bus
          name
          o
        × ((ret ≡ success) ↔ CanDispatch o)
        × (event_of (codes "lamp") (codes "lit") s'.server_objects ≡ (
            if strcmp_eq name (codes "lamp") && strcmp_eq (codes "dim") (codes "lit")
            then or_new
                (new_event (codes "dim") name (some 6) 0)
                (event_of (codes "lamp") (codes "lit") lamp_bus.server_objects)
            else event_of (codes "lamp") (codes "lit") lamp_bus.server_objects))))
    ⊎ ((ret ≢ success)
        × ((name : Name) (o : Object)
            → ¬ Reaches example_env (some (codes "lamp")) (some (codes "dim")) lamp_bus name o)
        × (s'.server_objects ≡ lamp_bus.server_objects))
event_of-register_event_example =
    event_of-register_event list_vector example_env (some (codes "lamp")) (some (codes "dim"))
      (some 6) 0 lamp_bus (codes "lamp") (codes "lit") list_vector-IsVector lamp_bus-ValidRegistry

object_of-register_subscribe_handler_example :
    let (ret, s') =
      register_subscribe_handler list_vector example_env
        (some (codes "lamp"))
        (some 9)
        0
        lamp_bus in
    HasSet
      (some (codes "lamp"))
      (some 9)
      0
      (codes "lamp")
      lamp_bus.server_objects
      ret
      s'.server_objects
object_of-register_subscribe_handler_example =
    object_of-register_subscribe_handler list_vector example_env (some (codes "lamp")) (some 9) 0
      lamp_bus (codes "lamp") list_vector-IsVector lamp_bus-ValidRegistry

-- The lamp gets a method and an event, to which "panel" listens; then it is taken away.
abbrev turn_off : List Command
turn_off =
    Command.add_method (codes "lamp") (codes "off") (Callback.app 4) (UserData.app_data 0)
    ∷ Command.add_method (codes "lamp") (codes "off") (Callback.app 9) (UserData.app_data 0)
    ∷ Command.add_event (codes "lamp") (some (codes "dim")) none 0
    ∷ Command.change_listener (codes "lamp") (codes "dim") (codes "panel") true none
    ∷ Command.remove_event (codes "lamp") (some (codes "lit"))
    ∷ Command.remove_object (codes "lamp")
    ∷ Command.remove_method (codes "lamp") (codes "off")
    ∷ []

execute_all-Run_example :
    Run
      (view lamp_bus.server_objects)
      (execute_all list_vector example_env turn_off lamp_bus).0
      (view (execute_all list_vector example_env turn_off lamp_bus).1.server_objects)
execute_all-Run_example =
    execute_all-Run list_vector example_env turn_off lamp_bus list_vector-IsVector quiet_callbacks
      lamp_bus-ValidRegistry

execute_all-ValidRegistry_example :
    ValidRegistry example_env
      (execute_all list_vector example_env turn_off lamp_bus).1.server_objects
execute_all-ValidRegistry_example =
    execute_all-ValidRegistry list_vector example_env turn_off lamp_bus list_vector-IsVector
      quiet_callbacks lamp_bus-ValidRegistry

-- Methods whose names are single characters.
numbered : ℕ → List Method
numbered zero = []
numbered (suc n) =
    record { name = suc n ∷ []; callback = Callback.app 3; user_data = UserData.app_data 0 }
    ∷ numbered n

length_numbered : (n : ℕ) → length (numbered n) ≡ n
unfolding numbered
length_numbered zero = refl
length_numbered (suc n) = omega (arith, length_numbered n)

numbered_other : (n m : ℕ) → m ≤ n → All (λ y. named method_key (suc n ∷ []) y ≡ false) (numbered m)
unfolding numbered strcmp_eq
numbered_other n zero h = tt
numbered_other n (suc m) h = (ground arith, numbered_other n m (omega arith))

numbered-Distinct : (n : ℕ) → Distinct method_key (numbered n)
unfolding numbered
numbered-Distinct zero = tt
numbered-Distinct (suc n) = (numbered_other n n (omega arith), numbered-Distinct n)

numbered-Bounded : (n : ℕ) → Bounded method_key max_method_name_length (numbered n)
unfolding numbered
numbered-Bounded zero = tt
numbered-Bounded (suc n) = (omega arith, numbered-Bounded n)

-- The lamp with 31 methods.
busy_lamp : Object
busy_lamp = record lamp { methods = numbered 31 }

busy_bus : Bus World
busy_bus = bus_with (busy_lamp ∷ []) []

busy_bus-ValidRegistry : ValidRegistry example_env busy_bus.server_objects
unfolding busy_bus busy_lamp strcmp_eq
busy_bus-ValidRegistry = record {
  objects_valid = (
    record {
      name_short = omega arith;
      methods_short = numbered-Bounded 31;
      methods_distinct = numbered-Distinct 31;
      methods_few = omega (arith, length_numbered 31);
      events_short = omega arith;
      events_distinct = (tt, tt);
      events_owned = (refl, tt);
      listeners_distinct = ((tt, tt), tt);
    },
    tt,
  );
  objects_short = omega arith;
  objects_distinct = (tt, tt);
}

-- The bus when the first call has changed its objects.
busy_bus_then : Bus World
busy_bus_then = record busy_bus {
  server_objects =
      (register_event list_vector example_env (some (codes "lamp")) (some (codes "dim")) none 0
        busy_bus).1.server_objects;
}

register_event-register_event_example :
    let (ret, _) =
      register_event list_vector example_env
        (some (codes "lamp"))
        (some (codes "dim"))
        none
        0
        busy_bus in
    let (ret', s') =
      register_event list_vector example_env
        (some (codes "lamp"))
        (some (codes "dim"))
        none
        0
        busy_bus_then in
    (ret ≢ success)
    × (ret' ≡ success)
    × (method_of (codes "lamp") method_unsubscribe s'.server_objects ≡ none)
unfolding busy_bus_then busy_bus busy_lamp numbered strcmp_eq
register_event-register_event_example =
    register_event-register_event list_vector example_env (some (codes "lamp")) (some (codes "dim"))
      none 0 (codes "lamp") busy_lamp busy_bus busy_bus_then list_vector-IsVector
      busy_bus-ValidRegistry (refl, (λ e. cc), omega arith, refl) (refl, refl, refl, refl) refl
      (λ e. cc)
