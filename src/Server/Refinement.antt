-- ===== src/Server/Refinement.antt =====
-- The functions that change the registered objects keep what the registry promises.
use rbuscore.Base.{some, List, [], ◌∷◌}
use rbuscore.Rt.Vector.{Vector, IsVector, list_vector, list_vector-IsVector, vector-eq}
use rbuscore.Core.State.{Bus}
use rbuscore.Core.Env.{Env}
use rbuscore.Server.Valid.{ValidRegistry}
use rbuscore.Server.ObjectLaws.{register_obj-ValidRegistry, unregister_obj-ValidRegistry}
use rbuscore.Server.MethodLaws.{register_method-ValidRegistry}
use rbuscore.Server.RemovalLaws.{unregister_method-ValidRegistry}
use rbuscore.Server.RegistrationLaws.{register_event-ValidRegistry}
use rbuscore.Server.UnregistrationLaws.{unregister_event-ValidRegistry}
use rbuscore.Server.HandlerLaws.{register_subscribe_handler-ValidRegistry}
use rbuscore.Server.EventSteps.{Undisturbing}
use rbuscore.Server.EventLaws.{server_object_subscription_handler-ValidRegistry}
use rbuscore.Server.Registry.{Command, Run, done, next, view, execute, execute_all}
use rbuscore.Server.CallSteps.{execute-Permits}

module _ (env : Env) where
  execute-ValidRegistry :
      (c : Command) (s : Bus env.World)
      → Undisturbing env
      → ValidRegistry env s.server_objects
      → ValidRegistry env (execute list_vector env c s).1.server_objects
  unfolding execute
  execute-ValidRegistry (Command.add_object name cb ud) s quiet h =
      register_obj-ValidRegistry list_vector env (some name) cb ud s list_vector-IsVector h
  execute-ValidRegistry (Command.remove_object name) s quiet h =
      unregister_obj-ValidRegistry list_vector env (some name) s list_vector-IsVector h
  execute-ValidRegistry (Command.add_method object name cb ud) s quiet h =
      register_method-ValidRegistry list_vector env object name cb ud s list_vector-IsVector h
  execute-ValidRegistry (Command.remove_method object name) s quiet h =
      unregister_method-ValidRegistry list_vector env object name s list_vector-IsVector h
  execute-ValidRegistry (Command.add_event object name cb ud) s quiet h =
      register_event-ValidRegistry list_vector env (some object) name cb ud s list_vector-IsVector h
  execute-ValidRegistry (Command.remove_event object name) s quiet h =
      unregister_event-ValidRegistry list_vector env object name s list_vector-IsVector h
  execute-ValidRegistry (Command.set_handler object cb ud) s quiet h =
      register_subscribe_handler-ValidRegistry list_vector env (some object) (some cb) ud s
        list_vector-IsVector h
  execute-ValidRegistry (Command.change_listener object event listener added payload) s quiet h =
      server_object_subscription_handler-ValidRegistry list_vector env object event listener added
        payload s list_vector-IsVector quiet h

  execute_all_list :
      (cs : List Command) (s : Bus env.World)
      → Undisturbing env
      → ValidRegistry env s.server_objects
      → let (results, s') = execute_all list_vector env cs s in
        Run (view s.server_objects) results (view s'.server_objects)
  unfolding execute_all
  execute_all_list [] s quiet h = done
  execute_all_list (c ∷ cs) s quiet h =
      next c (execute list_vector env c s).0 (execute-Permits env c s quiet h) (
        execute_all_list cs (execute list_vector env c s).1 quiet
          (execute-ValidRegistry c s quiet h))

  all_list-ValidRegistry :
      (cs : List Command) (s : Bus env.World)
      → Undisturbing env
      → ValidRegistry env s.server_objects
      → ValidRegistry env (execute_all list_vector env cs s).1.server_objects
  unfolding execute_all
  all_list-ValidRegistry [] s quiet h = h
  all_list-ValidRegistry (c ∷ cs) s quiet h =
      all_list-ValidRegistry cs (execute list_vector env c s).1 quiet
        (execute-ValidRegistry c s quiet h)

-- Any sequence of calls that register and unregister objects, methods, events and the handlers of
-- subscriptions, and of requests of subscribers, on a well-formed registry, is a run of the abstract
-- registry, with the results that the calls return. A call that registers or unregisters an object or
-- a method, or unregisters an event, succeeds only where the abstract registry allows it and then
-- changes exactly what it is to change, or it fails and changes nothing; a request of a subscriber
-- changes the listeners of its event and succeeds, or changes nothing. A call that registers an event
-- or a handler fails and changes nothing, or it finds its object: then the event is registered,
-- whatever the call returns, and the call succeeds exactly where the object is marked as taking
-- subscription requests, has the method _subscribe, or has room for the methods _subscribe and
-- _unsubscribe, and no _unsubscribe yet. Only such a call gives an object these two methods of the
-- library: both and the mark where it succeeds, the first alone only where it fails, or none. The
-- objects with their marks and numbers of methods, the methods, events and listeners at the end are
-- those of the abstract registry. The callbacks for subscriptions leave the registered objects alone.
pub execute_all-Run :
    (v : Vector) (env : Env) (commands : List Command) (s : Bus env.World)
    → IsVector v
    → Undisturbing env
    → ValidRegistry env s.server_objects
    → let (results, s') = execute_all v env commands s in
      Run (view s.server_objects) results (view s'.server_objects)
execute_all-Run v env commands s iv quiet h =
    rw (vector-eq v iv) (execute_all_list env commands s quiet h)

-- Any sequence of calls that register and unregister objects, methods, events and the handlers of
-- subscriptions, and of requests of subscribers, failures included, keeps the registry well-formed:
-- every name within its limit, no object, method, event or listener twice, no more than 32 methods on
-- an object, and every event with the object that holds it. The vectors are as documented, and the
-- callbacks for subscriptions leave the registered objects alone.
pub execute_all-ValidRegistry :
    (v : Vector) (env : Env) (commands : List Command) (s : Bus env.World)
    → IsVector v
    → Undisturbing env
    → ValidRegistry env s.server_objects
    → ValidRegistry env (execute_all v env commands s).1.server_objects
execute_all-ValidRegistry v env commands s iv quiet h =
    rw (vector-eq v iv) (all_list-ValidRegistry env commands s quiet h)
