-- ===== src/Server/Tests.antt =====
-- The theorems on objects, methods and events at a concrete bus, and runs of the operations.
use rbuscore.Base.{
  ◌==◌, ◌≡◌, refl, ◌≢◌, ◌⊎◌, ◌↔◌, ◌&&◌, if◌then◌else◌, none, some, codes, arith, strcmp_eq,
  strncmp_eq, true, [],
}
use rbuscore.Rt.Vector.{list_vector, list_vector-IsVector}
use rbuscore.Core.Types.{Event, error_invalid_param, success, Callback, UserData, Request}
use rbuscore.Core.Example.{example_env, lamp, lamp_bus}
use rbuscore.Server.Objects.{
  register_obj, unregister_obj, register_new_obj, remove_obj, get_object, name_is_bad,
  object_matches, server_object_create,
}
use rbuscore.Server.Methods.{register_method}
use rbuscore.Server.Valid.{event_of, listener_key, ValidObject, ValidRegistry, method_of}
use rbuscore.Server.PublishLaws.{delivered, message, publish_event-delivered}
use rbuscore.Server.Publish.{publish_event}
use rbuscore.Server.Dispatch.{on_message}
use rbuscore.Server.QueueSteps.{Undisturbed}
use rbuscore.Server.QueueLaws.{dispatched, left, on_message-dispatch_method_call}
use rbuscore.Keyed.{Distinct}
use rbuscore.Message.{init}
use rbuscore.Server.MethodLaws.{CanRegister, method_of-register_method, register_method-success}
use rbuscore.Server.ObjectLaws.{unregister_obj-register_obj}

lamp-ValidObject : ValidObject example_env lamp
unfolding strcmp_eq
lamp-ValidObject = record {
  name_short = omega arith;
  methods_short = omega arith;
  methods_distinct = (tt, tt);
  methods_few = omega arith;
  events_short = omega arith;
  events_distinct = (tt, tt);
  events_owned = (refl, tt);
  listeners_distinct = ((tt, tt), tt);
}

pub lamp_bus-ValidRegistry : ValidRegistry example_env lamp_bus.server_objects
lamp_bus-ValidRegistry = record {
  objects_valid = (lamp-ValidObject, tt);
  objects_short = omega arith;
  objects_distinct = (tt, tt);
}

method_of-register_method_example :
    let (ret, s') =
      register_method list_vector example_env
        (codes "lamp")
        (codes "off")
        (Callback.app 4)
        (UserData.app_data 0)
        lamp_bus in
    ((ret ≡ success)
      × (method_of (codes "lamp") (codes "off") s'.server_objects ≡ (
          if strcmp_eq (codes "lamp") (codes "lamp") && strcmp_eq (codes "off") (codes "off")
          then some (record {
            name = codes "off";
            callback = Callback.app 4;
            user_data = UserData.app_data 0;
          })
          else method_of (codes "lamp") (codes "off") lamp_bus.server_objects)))
    ⊎ ((ret ≢ success) × (s'.server_objects ≡ lamp_bus.server_objects))
method_of-register_method_example =
    method_of-register_method list_vector example_env (codes "lamp") (codes "off") (Callback.app 4)
      (UserData.app_data 0) lamp_bus (codes "lamp") (codes "off") list_vector-IsVector
      lamp_bus-ValidRegistry

register_method-success_example :
    ((register_method list_vector example_env
        (codes "lamp")
        (codes "off")
        (Callback.app 4)
        (UserData.app_data 0)
        lamp_bus).0
      ≡ success)
    ↔ CanRegister example_env
        (codes "lamp")
        (codes "off")
        (Callback.app 4)
        (UserData.app_data 0)
        lamp_bus.server_objects
register_method-success_example =
    register_method-success list_vector example_env (codes "lamp") (codes "off") (Callback.app 4)
      (UserData.app_data 0) lamp_bus list_vector-IsVector lamp_bus-ValidRegistry

unregister_obj-register_obj_example :
    (unregister_obj list_vector example_env
      (some (codes "fan"))
      (register_obj list_vector example_env (some (codes "fan")) 8 0 lamp_bus).1).1.server_objects
    ≡ lamp_bus.server_objects
unfolding register_obj unregister_obj register_new_obj remove_obj get_object name_is_bad
    object_matches server_object_create strncmp_eq
unregister_obj-register_obj_example =
    unregister_obj-register_obj list_vector example_env (codes "fan") 8 0 lamp_bus
      list_vector-IsVector lamp_bus-ValidRegistry refl refl

publish_event-delivered_example :
    let (ret, s') =
      publish_event list_vector example_env (codes "lamp") (some (codes "lit")) init lamp_bus in
    ((e : Event) × (event_of (codes "lamp") (codes "lit") lamp_bus.server_objects ≡ some e)
      × Distinct listener_key e.listeners
      × (ret ≡ success)
      × (s'.world
          ≡ delivered example_env 1
              (message example_env (codes "lamp") (some (codes "lit")) init)
              (codes "lamp")
              e.listeners
              lamp_bus.world))
    ⊎ ((event_of (codes "lamp") (codes "lit") lamp_bus.server_objects ≡ none)
        × (ret ≡ error_invalid_param)
        × (s'.world ≡ lamp_bus.world))
publish_event-delivered_example =
    publish_event-delivered list_vector example_env 1 (codes "lamp") (some (codes "lit")) init
      lamp_bus list_vector-IsVector refl lamp_bus-ValidRegistry

example_env-Undisturbed : Undisturbed example_env
example_env-Undisturbed = record {
  call_method_keeps = λ f topic method m d hdr s. refl;
  call_subscribe_keeps = λ f object event listener added payload d s. refl;
}

abbrev request : Request
request = record {
  hdr = record { topic = codes "lamp"; reply_topic = codes "inbox"; is_request = true };
  msg = init;
  obj = codes "lamp";
}

on_message-dispatch_method_call_example :
    let s' = (on_message list_vector example_env 2 request.hdr [] (codes "lamp") lamp_bus).1 in
    (s' ≡ (
      if lamp_bus.stack_counter == 0
      then left (dispatched example_env request.hdr [] (codes "lamp") lamp_bus list_vector)
      else lamp_bus))
    × (s'.queued_requests ≡ none)
on_message-dispatch_method_call_example =
    on_message-dispatch_method_call list_vector example_env 2 request.hdr [] (codes "lamp") lamp_bus
      list_vector-IsVector example_env-Undisturbed refl
