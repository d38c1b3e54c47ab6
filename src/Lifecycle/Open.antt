-- ===== src/Lifecycle/Open.antt =====
-- perform_init, perform_cleanup, rbus_openBrokerConnection2, rbus_openBrokerConnection and
-- rbus_closeBrokerConnection.
use rbuscore.Base.{
  ℕ, Bool, true, false, Option, none, some, List, [], ◌∷◌, ◌++◌, if◌then◌else◌, Name, codes,
}
use rbuscore.Rt.Vector.{Vector}
use rbuscore.Core.Types.{
  RbusError, is_ok, success, error_general, error_invalid_param, error_invalid_state, Object,
  ClientEvent, ClientSubscription,
}
use rbuscore.Core.State.{Action, return, gets, modify, lock, unlock, ◌>>=◌, ◌>>◌}
use rbuscore.Core.Env.{Env, outside}
use rbuscore.Client.Request.{send_subscription_request}
use rbuscore.Lifecycle.Config.{configure_router_address}

-- `rbuscore_bus_status_t`
pub data BusStatus : Type 0 where
  enabled enabled_pending disabled_pending disabled : BusStatus

module _ (env : Env) where
  -- rbuscore_checkBusStatus, for a build with RBUS_ALWAYS_ON or without
  unfoldable pub check_bus_status : Bool → Action env.World BusStatus
  check_bus_status always_on s =
      if always_on
      then (BusStatus.enabled, s)
      else if env.disable_file_exists s.world
      then (BusStatus.disabled, s)
      else (BusStatus.enabled, s)

  -- The inner loop of perform_cleanup.
  unfoldable pub cancel_events : Name → List ClientEvent → Action env.World (Unit {0})
  cancel_events object_name [] = return tt
  cancel_events object_name (e ∷ es) = do
    send_subscription_request env object_name e.name false none 0
    cancel_events object_name es

  -- The outer loop of perform_cleanup.
  unfoldable pub cancel_subscriptions : List ClientSubscription → Action env.World (Unit {0})
  cancel_subscriptions [] = return tt
  cancel_subscriptions (sub ∷ subs) = do
    cancel_events sub.object sub.events
    cancel_subscriptions subs

  -- The part of rbus_closeBrokerConnection behind perform_cleanup.
  unfoldable pub destroy_connection : ℕ → Action env.World RbusError
  destroy_connection c = do
    err ← outside (env.destroy (some c))
    if is_ok err
        then (do
          modify (λ s. record s { connection = none })
          unlock
          modify (λ s. record s { mutex_init = false })
          return success)
        else return error_general

module _ (v : Vector) (env : Env) where
  -- perform_init
  unfoldable pub perform_init : Action env.World (Unit {0})
  perform_init = modify (λ s. record s {
    server_objects = v.create Object;
    event_subscriptions = v.create ClientSubscription;
  })

  -- perform_cleanup; a vector that has been destroyed reads as an empty one.
  unfoldable pub perform_cleanup : Action env.World (Unit {0})
  perform_cleanup = do
    lock
    modify (λ s. record s { server_objects = [] })
    subs ← gets (λ s. s.event_subscriptions)
    unlock
    cancel_subscriptions env subs
    lock
    modify (λ s. record s { event_subscriptions = [] })
    unlock

  -- The broker's address: the one that is given, or the configured one.
  unfoldable pub choose_address : Option Name → Action env.World Name
  choose_address (some address) s = (address, s)
  choose_address none s =
      let address = configure_router_address (env.read_config s.world) s.daemon_address in
      (address, record s { daemon_address = address })

  -- The part of rbus_openBrokerConnection2 behind the checks: the mutex is held.
  unfoldable pub create_connection : Name → Option Name → Action env.World RbusError
  create_connection component_name broker_address = do
    address ← choose_address broker_address
    perform_init
    (result, handle) ← outside (env.create (codes "rbus." ++ component_name) address)
    if is_ok result
        then (do modify (λ s. record s { connection = some handle }); unlock; return success)
        else (do
          modify (λ s. record s { connection = none })
          perform_cleanup
          unlock
          return error_general)

  -- rbus_openBrokerConnection2
  unfoldable pub open_broker_connection2 : Option Name → Option Name → Action env.World RbusError
  open_broker_connection2 none broker_address s = (error_invalid_param, s)
  open_broker_connection2 (some component_name) broker_address s =
      (do
        modify (λ s. record s { mutex_init = true })
        lock
        connection ← gets (λ s. s.connection)
        elim connection [
          | some c ↦ do unlock; return success
          | none ↦ create_connection component_name broker_address
        ])
        s

  -- rbus_openBrokerConnection: the source compares the function `rbuscore_checkBusStatus` itself,
  -- not a call of it, with RBUSCORE_DISABLED, so that branch is never taken.
  unfoldable pub open_broker_connection : Option Name → Action env.World RbusError
  open_broker_connection component_name = open_broker_connection2 component_name none

  -- rbus_closeBrokerConnection
  unfoldable pub close_broker_connection : Action env.World RbusError
  close_broker_connection = do
    lock
    connection ← gets (λ s. s.connection)
    elim connection [
      | none ↦ return error_invalid_state
      | some c ↦ do perform_cleanup; destroy_connection env c
    ]
