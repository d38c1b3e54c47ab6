-- ===== src/Client/Request.antt =====
-- The request for a subscription: send_subscription_request.
use rbuscore.Base.{ℕ, ◌^◌, Bool, ◌||◌, Option, none, some, leb, ◌==◌, if◌then◌else◌, Name}
use rbuscore.Rt.Msgpack.{Msgpack}
use rbuscore.Message.{Message, init, set_string, set_int32, set_message, get_int32}
use rbuscore.Core.Types.{
  RbusError, success, error_general, error_malformed_response, error_destination_unreachable,
  error_remote_end_failed_to_respond, fire_and_forget, method_subscribe, method_unsubscribe,
}
use rbuscore.Core.State.{Action, return, gets, ◌>>=◌}
use rbuscore.Core.Env.{Env}
use rbuscore.Remote.{invoke_remote_method}

-- `if(payload) rbusMessage_SetMessage(request, payload)`
abbrev pub add_payload : Msgpack → Option Message → Message → Message
add_payload mp none m = m
add_payload mp (some p) m = (set_message mp p m).0

-- `payload ? 1 : 0`
abbrev pub has_payload : Option Message → ℕ
has_payload none = 0
has_payload (some p) = 1

-- `if(timeout_ms <= 0) timeout_ms = TIMEOUT_VALUE_FIRE_AND_FORGET`, on the int's pattern
abbrev pub timeout_or_default : ℕ → ℕ
timeout_or_default t = if t == 0 || leb (2 ^ 31) t then fire_and_forget else t

-- The request: the event, this end's address, and the payload.
unfoldable pub subscription_request : Msgpack → Name → Option Name → Option Message → Message
subscription_request mp event_name address payload =
    let named = (set_string mp (some event_name) init).0 in
    let addressed = (set_string mp address named).0 in
    add_payload mp payload (set_int32 mp (has_payload payload) addressed).0

-- What the provider answered: the result, and the provider's error if there is one.
abbrev pub provider_result : Option ℕ → RbusError × Option ℕ
provider_result none = (error_malformed_response, none)
provider_result (some result) =
    if result == success then (success, none) else (error_general, some result)

-- How a request that got no answer is reported.
abbrev pub request_failure : RbusError → RbusError
request_failure ret =
    if ret == error_destination_unreachable
    then error_destination_unreachable
    else error_remote_end_failed_to_respond

abbrev pub read_answer : Msgpack → RbusError → Option Message → RbusError × Option ℕ
read_answer mp ret none = (request_failure ret, none)
read_answer mp ret (some response) =
    if ret == success
    then provider_result (get_int32 mp response).1
    else (request_failure ret, none)

-- send_subscription_request: the result, and `*providerError` where it is written.
unfoldable pub send_subscription_request :
    (env : Env) → Name → Name → Bool → Option Message → ℕ → Action env.World (RbusError × Option ℕ)
send_subscription_request env object_name event_name activate payload timeout = do
  address ← gets (λ s. env.return_address s.connection s.world)
  (ret, response) ←
      invoke_remote_method env object_name
        (if activate then method_subscribe else method_unsubscribe)
        (some (subscription_request env.msgpack event_name address payload))
        (timeout_or_default timeout)
  return (read_answer env.msgpack ret response)
