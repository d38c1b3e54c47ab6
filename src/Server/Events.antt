-- ===== src/Server/Events.antt =====
-- The events of a registered object and who listens to them: the server_event functions,
-- server_object_subscription_handler and subscription_handler.
use rbuscore.Base.{
  ℕ, Bool, true, false, ◌||◌, Option, none, some, leb, ◌==◌, if◌then◌else◌, update_first, Name,
  strlen, strncmp_eq, c_string,
}
use rbuscore.Rt.Vector.{Vector}
use rbuscore.Message.{Message, init, set_int32, get_string, get_int32, get_message}
use rbuscore.Core.Types.{
  RbusError, success, error_general, error_invalid_param, error_unsupported_event,
  subscribe_not_handled, max_method_name_length, method_subscribe, default_event, Event, Object,
}
use rbuscore.Core.State.{Action, return, ◌>>=◌, ◌>>◌}
use rbuscore.Core.Env.{Env}
use rbuscore.Server.Objects.{get_object, modify_object}

-- A NULL event name stands for the default event.
abbrev pub or_default : Option Name → Name
or_default none = default_event
or_default (some name) = name

-- `int has_payload = 0`, set by a getter that succeeds.
abbrev pub is_set : Option ℕ → Bool
is_set none = false
is_set (some w) = if w == 0 then false else true

module _ (env : Env) where
  -- server_event_compare gives 0
  unfoldable pub event_matches : Name → Event → Bool
  event_matches name e = strncmp_eq env.max_object_name_length e.name name

module _ (v : Vector) where
  -- server_event_create
  unfoldable pub server_event_create : Name → Name → Option ℕ → ℕ → Event
  server_event_create name obj sub_callback sub_data = record {
    name = name;
    object = obj;
    listeners = v.create Name;
    sub_callback = sub_callback;
    sub_data = sub_data;
  }

  unfoldable pub has_listener : Name → Event → Bool
  has_listener listener e = v.has_item Name (λ x. v.compare_string x listener) e.listeners

  unfoldable pub push_listener : Name → Event → Event
  push_listener listener e = record e { listeners = v.push_back Name e.listeners listener }

  unfoldable pub drop_listener : Name → Event → Event
  drop_listener listener e = record e {
    listeners = v.remove_item Name (λ x. v.compare_string x listener) e.listeners;
  }

module _ (v : Vector) (env : Env) where
  unfoldable pub find_event : Name → Object → Option Event
  find_event name o = v.find Event (event_matches env name) o.subscriptions

  -- A write through the pointer to an event of an object.
  unfoldable pub modify_event : Name → Name → (Event → Event) → Action env.World (Unit {0})
  modify_event object_name event_name f = modify_object env object_name λ o. record o {
    subscriptions = update_first (event_matches env event_name) f o.subscriptions;
  }

  -- `if(event->sub_callback) event->sub_callback(...)`
  unfoldable pub notify : Event → Name → Bool → Action env.World (Unit {0})
  notify e listener added = elim e.sub_callback [
    | none ↦ return tt
    | some f ↦ do env.call_subscribe f e.object e.name listener added none e.sub_data; return tt
  ]

  -- server_event_addListener; its callers have checked that `listener` is not NULL.
  unfoldable pub server_event_add_listener : Event → Name → Action env.World (Unit {0})
  server_event_add_listener e listener =
      if has_listener v listener e
      then return tt
      else (do modify_event e.object e.name (push_listener v listener); notify e listener true)

  -- server_event_removeListener
  unfoldable pub server_event_remove_listener : Event → Name → Action env.World (Unit {0})
  server_event_remove_listener e listener =
      if has_listener v listener e
      then (do modify_event e.object e.name (drop_listener v listener); notify e listener false)
      else return tt

  -- The part of server_object_subscription_handler that uses the object's own events.
  unfoldable pub built_in_handler : Name → Name → Name → Bool → Action env.World RbusError
  built_in_handler obj event subscriber added = do
    o ← get_object v env obj
    elim o [
      | none ↦ return error_general
      | some o ↦ elim (find_event event o) [
        | none ↦ return error_unsupported_event
        | some e ↦ do
          if added
              then server_event_add_listener e subscriber
              else server_event_remove_listener e subscriber
          return success
      ]
    ]

  -- The part behind the checks of the names: the override first, if there is one. The object is
  -- named by its pointer; the pointer of an object that is gone is not followed.
  unfoldable pub handle_subscription :
      Name → Name → Name → Bool → Option Message → Object → Action env.World RbusError
  handle_subscription obj event subscriber added payload o = elim o.subscribe_handler_override [
    | none ↦ built_in_handler obj event subscriber added
    | some f ↦ do
      ret ← env.call_subscribe f o.name event subscriber added payload o.subscribe_handler_data
      if ret == subscribe_not_handled
          then built_in_handler obj event subscriber added
          else return ret
  ]

  -- server_object_subscription_handler
  unfoldable pub server_object_subscription_handler :
      Name → Name → Name → Bool → Option Message → Action env.World RbusError
  server_object_subscription_handler obj event subscriber added payload =
      if leb env.max_object_name_length (strlen subscriber)
        || leb env.max_object_name_length (strlen event)
      then return error_invalid_param
      else (do
        o ← get_object v env obj
        elim o [
          | none ↦ return error_general
          | some o ↦ handle_subscription obj event subscriber added payload o
        ])

  -- The payload of a subscription request, behind its two names.
  unfoldable pub get_payload : Message → Option Message
  get_payload m =
      let (m', has_payload) = get_int32 env.msgpack m in
      if is_set has_payload then (get_message env.msgpack m').1 else none

  -- subscription_handler: the response. With a name missing it is an empty message.
  unfoldable pub subscription_handler : Name → Message → Name → Action env.World (Option Message)
  subscription_handler method_name request obj =
      let (m, event_name) = get_string env.msgpack request in
      let (m', sender) = get_string env.msgpack m in
      elim event_name [
        | none ↦ return (some init)
        | some e ↦ elim sender [
          | none ↦ return (some init)
          | some s ↦ do
            ret ←
                server_object_subscription_handler obj (c_string e) (c_string s)
                  (strncmp_eq max_method_name_length method_name method_subscribe) (get_payload m')
            return (some (set_int32 env.msgpack ret init).0)
        ]
      ]
