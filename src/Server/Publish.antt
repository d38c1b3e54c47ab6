-- ===== src/Server/Publish.antt =====
-- Events sent to listeners: rbus_publishEvent and rbus_publishSubscriberEvent.
use rbuscore.Base.{ℕ, Option, none, some, List, [], ◌∷◌, leb, if◌then◌else◌, Name, strnlen}
use rbuscore.Rt.Msgpack.{Msgpack}
use rbuscore.Rt.Vector.{Vector}
use rbuscore.Message.{
  Message, set_string, set_int32, begin_meta_section_write, end_meta_section_write,
}
use rbuscore.Core.Types.{RbusError, success, error_invalid_param, error_invalid_state}
use rbuscore.Core.State.{Action, return, lock, unlock, ◌>>=◌, ◌>>◌}
use rbuscore.Core.Env.{Env}
use rbuscore.Remote.{send_message}
use rbuscore.Server.Objects.{get_object}
use rbuscore.Server.Events.{or_default, find_event}

-- The meta section of an event: its name, its object, and whether it is an event of rbus 2.0.
unfoldable pub set_event_meta : Msgpack → Name → Name → ℕ → Message → Message
set_event_meta mp event_name object_name is_rbus out =
    let m = (set_string mp (some event_name) (begin_meta_section_write mp out)).0 in
    let m' = (set_string mp (some object_name) m).0 in
    end_meta_section_write mp (set_int32 mp is_rbus m').0

module _ (env : Env) where
  -- The loop over the listeners; a failure to send is logged and nothing else.
  unfoldable pub send_to_all : Message → Name → List Name → Action env.World (Unit {0})
  send_to_all out object_name [] = return tt
  send_to_all out object_name (listener ∷ rest) = do
    send_message env out listener object_name
    send_to_all out object_name rest

module _ (v : Vector) (env : Env) where
  -- The part of rbus_publishEvent behind the checks.
  unfoldable pub publish_to_listeners : Name → Name → Message → Action env.World RbusError
  publish_to_listeners object_name event_name out = do
    lock
    obj ← get_object v env object_name
    ret ← elim obj [
      | none ↦ return error_invalid_param
      | some o ↦ elim (find_event v env event_name o) [
        | none ↦ return error_invalid_param
        | some e ↦ do send_to_all env out object_name e.listeners; return success
      ]
    ]
    unlock
    return ret

  -- rbus_publishEvent
  unfoldable pub publish_event : Name → Option Name → Message → Action env.World RbusError
  publish_event object_name event_name out s = elim s.connection [
    | none ↦ (error_invalid_state, s)
    | some c ↦
        if leb env.max_object_name_length (strnlen object_name env.max_object_name_length)
        then (error_invalid_param, s)
        else publish_to_listeners object_name (or_default event_name)
            (set_event_meta env.msgpack (or_default event_name) object_name 0 out) s
  ]

  -- rbus_publishSubscriberEvent: it sends also where the object is not registered.
  unfoldable pub publish_subscriber_event :
      Name → Option Name → Name → Message → Action env.World RbusError
  publish_subscriber_event object_name event_name listener out =
      if leb env.max_object_name_length (strnlen object_name env.max_object_name_length)
      then return error_invalid_param
      else (do
        let message = set_event_meta env.msgpack (or_default event_name) object_name 1 out
        lock
        obj ← get_object v env object_name
        send_message env message listener object_name
        unlock
        return (elim obj [ none ↦ error_invalid_param | some o ↦ success ]))
