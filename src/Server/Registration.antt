-- ===== src/Server/Registration.antt =====
-- The registration of events: install_subscription_handlers, rbus_registerEvent,
-- rbus_unregisterEvent and rbus_registerSubscribeHandler.
use rbuscore.Base.{ℕ, true, Option, none, some, leb, ◌==◌, if◌then◌else◌, Name, strnlen}
use rbuscore.Rt.Vector.{Vector}
use rbuscore.Core.Types.{
  RbusError, success, error_invalid_param, error_invalid_state, method_subscribe,
  method_unsubscribe, Callback, UserData, Event, Object,
}
use rbuscore.Core.State.{Action, return, lock, unlock, ◌>>=◌, ◌>>◌}
use rbuscore.Core.Env.{Env}
use rbuscore.Server.Objects.{get_object, modify_object}
use rbuscore.Server.Methods.{find_method, register_method}
use rbuscore.Server.Events.{or_default, event_matches, find_event, server_event_create}

module _ (v : Vector) (env : Env) where
  -- install_subscription_handlers; rbus_registerMethod takes and releases the mutex on its own.
  unfoldable pub install_subscription_handlers : Name → Object → Action env.World RbusError
  install_subscription_handlers obj o = elim (find_method v method_subscribe o) [
    | some m ↦ return success
    | none ↦ do
      ret ←
          register_method v env obj method_subscribe Callback.subscription_handler
            (UserData.object obj)
      if ret == success
          then (do
            ret ←
                register_method v env obj method_unsubscribe Callback.subscription_handler
                  (UserData.object obj)
            if ret == success
                then (do
                  modify_object env obj (λ o. record o { process_event_subscriptions = true })
                  return ret)
                else return ret)
          else return ret
  ]

  -- `if(!obj->process_event_subscriptions) ret = install_subscription_handlers(obj)`
  unfoldable pub ensure_handlers : Name → Action env.World RbusError
  ensure_handlers name = do
    obj ← get_object v env name
    elim obj [
      | none ↦ return success
      | some o ↦
          if o.process_event_subscriptions
          then return success
          else install_subscription_handlers o.name o
    ]

  -- The part of rbus_registerEvent behind the checks.
  unfoldable pub register_event_on : Name → Name → Option ℕ → ℕ → Action env.World RbusError
  register_event_on name event callback user_data = do
    lock
    obj ← get_object v env name
    ret ← elim obj [
      | none ↦ return error_invalid_param
      | some o ↦ do
        elim (find_event v env event o) [
          | some e ↦ return tt
          | none ↦ modify_object env name λ o. record o {
            subscriptions =
                v.push_back Event o.subscriptions
                  (server_event_create v event o.name callback user_data);
          }
        ]
        ensure_handlers name
    ]
    unlock
    return ret

  -- rbus_registerEvent
  unfoldable pub register_event :
      Option Name → Option Name → Option ℕ → ℕ → Action env.World RbusError
  register_event object_name event_name callback user_data s = elim s.connection [
    | none ↦ (error_invalid_state, s)
    | some c ↦ elim object_name [
      | none ↦ (error_invalid_param, s)
      | some name ↦
          let event = or_default event_name in
          if leb env.max_object_name_length (strnlen event env.max_object_name_length)
          then (error_invalid_param, s)
          else register_event_on name event callback user_data s
    ]
  ]

  -- rbus_unregisterEvent
  unfoldable pub unregister_event : Name → Option Name → Action env.World RbusError
  unregister_event name event_name = do
    lock
    obj ← get_object v env name
    ret ← elim obj [
      | none ↦ return error_invalid_param
      | some o ↦ elim (find_event v env (or_default event_name) o) [
        | none ↦ return error_invalid_param
        | some e ↦ do
          modify_object env name λ o. record o {
            subscriptions =
                v.remove_item Event (event_matches env (or_default event_name)) o.subscriptions;
          }
          return success
      ]
    ]
    unlock
    return ret

  -- The part of rbus_registerSubscribeHandler behind the checks.
  unfoldable pub set_subscribe_handler : Name → ℕ → ℕ → Action env.World RbusError
  set_subscribe_handler name callback user_data = do
    lock
    obj ← get_object v env name
    ret ← elim obj [
      | none ↦ return error_invalid_param
      | some o ↦ do
        modify_object env name λ o. record o {
          subscribe_handler_override = some callback;
          subscribe_handler_data = user_data;
        }
        ensure_handlers name
    ]
    unlock
    return ret

  -- rbus_registerSubscribeHandler
  unfoldable pub register_subscribe_handler :
      Option Name → Option ℕ → ℕ → Action env.World RbusError
  register_subscribe_handler object_name callback user_data = elim object_name [
    | none ↦ return error_invalid_param
    | some name ↦ elim callback [
      | none ↦ return error_invalid_param
      | some f ↦ set_subscribe_handler name f user_data
    ]
  ]
