-- ===== src/Client/Subscribe.antt =====
-- rbus_subscribeToEvent, rbus_subscribeToEventTimeout, rbus_unsubscribeFromEvent and
-- rbus_registerMasterEventHandler. A result `none` stands for a read through a NULL pointer.
use rbuscore.Base.{
  ℕ, Bool, true, false, Option, none, some, leb, ◌==◌, if◌then◌else◌, Name, strnlen,
}
use rbuscore.Rt.Vector.{Vector}
use rbuscore.Message.{Message}
use rbuscore.Core.Types.{RbusError, success, error_invalid_param, error_invalid_state}
use rbuscore.Core.State.{Action, return, gets, modify, lock, unlock, ◌>>=◌, ◌>>◌}
use rbuscore.Core.Env.{Env, outside}
use rbuscore.Server.Events.{or_default}
use rbuscore.Client.Table.{insert_event, subscribed, remove_subscription_callback}
use rbuscore.Client.Request.{send_subscription_request}

-- The event name stands for a missing object name.
abbrev pub or_event : Option Name → Option Name → Option Name
or_event none event_name = event_name
or_event (some name) event_name = some name

abbrev pub is_none {ℓ} : {A : Type ℓ} → Option A → Bool
is_none none = true
is_none (some a) = false

-- `g_run_event_client_dispatch`: the listener for events is installed once.
unfoldable pub start_dispatch : (env : Env) → Action env.World (Unit {0})
start_dispatch env s =
    if s.run_event_client_dispatch
    then (tt, s)
    else (let (err, s') = outside (env.add_default_listener s.connection) s in
        (tt, record s' { run_event_client_dispatch = true }))

module _ (v : Vector) (env : Env) where
  -- The request of a subscription that has been entered, and its removal where the request fails.
  unfoldable pub request_or_undo :
      Name → Name → Option Message → ℕ → Action env.World (RbusError × Option ℕ)
  request_or_undo object_name event_name payload timeout = do
    (ret, provider_error) ←
        send_subscription_request env object_name event_name true payload timeout
    no_master ← gets (λ s. is_none s.master_event_callback)
    if ret == success
        then return (ret, provider_error)
        else if no_master
        then (do
          lock
          remove_subscription_callback v env object_name event_name
          unlock
          return (ret, provider_error))
        else return (ret, provider_error)

  -- The part of rbus_subscribeToEventInternal behind the checks.
  unfoldable pub subscribe_checked :
      Name → Name → ℕ → Option Message → ℕ → ℕ → Action env.World (RbusError × Option ℕ)
  subscribe_checked object_name event_name callback payload user_data timeout = do
    lock
    start_dispatch env
    no_master ← gets (λ s. is_none s.master_event_callback)
    subs ← gets (λ s. s.event_subscriptions)
    if no_master
        then elim (subscribed v env object_name event_name subs) [
          | some e ↦ do unlock; return (success, none)
          | none ↦ do
            modify (λ s. record s {
              event_subscriptions =
                  insert_event v env object_name
                    (record { name = event_name; callback = callback; user_data = user_data }) subs;
            })
            unlock
            request_or_undo object_name event_name payload timeout
        ]
        else (do unlock; request_or_undo object_name event_name payload timeout)

  -- The checks of the two names. The length of the event's name is taken before a NULL is replaced.
  unfoldable pub subscribe_named :
      Name
      → Option Name
      → ℕ
      → Option Message
      → ℕ
      → ℕ
      → Action env.World (Option (RbusError × Option ℕ))
  subscribe_named object_name event_name callback payload user_data timeout =
      if leb env.max_object_name_length (strnlen object_name env.max_object_name_length)
      then return (some (error_invalid_param, none))
      else elim event_name [
        | none ↦ return none
        | some event ↦
            if leb env.max_object_name_length (strnlen event env.max_object_name_length)
            then return (some (error_invalid_param, none))
            else (do
              answer ← subscribe_checked object_name event callback payload user_data timeout
              return (some answer))
      ]

  -- rbus_subscribeToEventInternal, and so rbus_subscribeToEventTimeout: the result, and
  -- `*providerError` where it is written.
  unfoldable pub subscribe_to_event_timeout :
      Option Name
      → Option Name
      → Option ℕ
      → Option Message
      → ℕ
      → ℕ
      → Action env.World (Option (RbusError × Option ℕ))
  subscribe_to_event_timeout object_name event_name callback payload user_data timeout s =
      elim s.connection [
        | none ↦ (some (error_invalid_state, none), s)
        | some c ↦ elim (or_event object_name event_name) [
          | none ↦ (some (error_invalid_param, none), s)
          | some object ↦ elim callback [
            | none ↦ (some (error_invalid_param, none), s)
            | some f ↦ subscribe_named object event_name f payload user_data timeout s
          ]
        ]
      ]

  -- rbus_subscribeToEvent
  unfoldable pub subscribe_to_event :
      Option Name
      → Option Name
      → Option ℕ
      → Option Message
      → ℕ
      → Action env.World (Option (RbusError × Option ℕ))
  subscribe_to_event object_name event_name callback payload user_data =
      subscribe_to_event_timeout object_name event_name callback payload user_data 0

  -- The part of rbus_unsubscribeFromEvent behind the checks.
  unfoldable pub unsubscribe_checked : Name → Name → Option Message → Action env.World RbusError
  unsubscribe_checked object_name event_name payload = do
    no_master ← gets (λ s. is_none s.master_event_callback)
    if no_master then remove_subscription_callback v env object_name event_name else return success
    (ret, provider_error) ← send_subscription_request env object_name event_name false payload 0
    return ret

  -- rbus_unsubscribeFromEvent
  unfoldable pub unsubscribe_from_event :
      Option Name → Option Name → Option Message → Action env.World RbusError
  unsubscribe_from_event object_name event_name payload = elim (or_event object_name event_name) [
    | none ↦ return error_invalid_param
    | some object ↦
        if leb env.max_object_name_length (strnlen object env.max_object_name_length)
        then return error_invalid_param
        else unsubscribe_checked object (or_default event_name) payload
  ]

-- rbus_registerMasterEventHandler
unfoldable pub register_master_event_handler : {W : Type 0} → Option ℕ → ℕ → Action W RbusError
register_master_event_handler callback user_data s =
    (success, record s { master_event_callback = callback; master_event_user_data = user_data })
