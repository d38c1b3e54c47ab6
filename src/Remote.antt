-- ===== src/Remote.antt =====
-- The messages of rbus_core.c to and from the rest of the bus: requests, responses, direct messages.
pub mod Replies
pub mod Answers
pub mod AnswerLaws
pub mod Tests
use rbuscore.Base.{
  ℕ, Option, none, some, List, length, leb, ◌==◌, if◌then◌else◌, Name, strnlen, strncmp_eq,
  c_string,
}
use rbuscore.Message.{
  Message, init, from_bytes, to_bytes, set_string, set_int32, get_string, get_int32,
  begin_meta_section_write, end_meta_section_write, begin_meta_section_read, end_meta_section_read,
}
use rbuscore.Rt.Msgpack.{Msgpack}
use rbuscore.Core.Types.{
  RbusError, RtError, is_ok, success, error_general, error_invalid_param, error_invalid_state,
  error_remote_timed_out, error_malformed_response, error_unsupported_method,
  error_destination_unreachable, max_method_name_length, fire_and_forget, method_response,
  method_setparametervalues, method_getparametervalues, Header,
}
use rbuscore.Core.State.{Action, return, ◌>>=◌}
use rbuscore.Core.Env.{Env}

-- set_message_method
unfoldable pub set_message_method : Msgpack → Name → Message → Message
set_message_method mp method msg =
    end_meta_section_write mp (set_string mp (some method) (begin_meta_section_write mp msg)).0

-- The string at a pointer that a getter returned.
abbrev pub as_name : Option (List ℕ) → Option Name
as_name none = none
as_name (some s) = some (c_string s)

-- The method that a message names in its meta section, NULL if there is none; the message after.
unfoldable pub get_message_method : Msgpack → Message → Message × Option Name
get_message_method mp msg =
    let (m, s) = get_string mp (begin_meta_section_read mp msg) in
    (end_meta_section_read mp m, as_name s)

-- translate_rt_error
abbrev pub translate_rt_error : RtError → RbusError
translate_rt_error err = if is_ok err then success else error_general

-- How rbus_invokeRemoteMethod reports a request that failed.
abbrev pub translate_request_error : RtError → RbusError
translate_request_error RtError.object_no_longer_available = error_destination_unreachable
translate_request_error RtError.timeout = error_remote_timed_out
translate_request_error _ = error_general

-- `if(NULL == out) rbusMessage_Init(&out)`
abbrev pub or_new : Option Message → Message
or_new none = init
or_new (some m) = m

-- The result that a reply carries, or that it carries none.
abbrev pub or_malformed : Option ℕ → RbusError
or_malformed none = error_malformed_response
or_malformed (some result) = result

-- Whether a reply is one: its method is METHOD_RESPONSE.
abbrev pub check_response : Option Name → RbusError
check_response none = error_malformed_response
check_response (some method) =
    if strncmp_eq max_method_name_length method_response method
    then success
    else error_malformed_response

module _ (env : Env) where
  -- rbus_sendRequest: the error, and the reply if there is no error.
  unfoldable pub send_request : Message → Name → ℕ → Action env.World (RtError × Option Message)
  send_request req topic timeout s =
      let (data_bytes, n) = to_bytes req in
      let ((err, rsp), w) =
        env.send_binary_request s.connection data_bytes n topic timeout s.world in
      (
        (err, if is_ok err then some (from_bytes env.msgpack rsp (length rsp)) else none),
        record s { world = w },
      )

  -- The part of rbus_invokeRemoteMethod behind rbus_sendRequest: the result and `*in`.
  unfoldable pub receive_response : RtError × Option Message → RbusError × Option Message
  receive_response (err, none) = (translate_request_error err, none)
  receive_response (err, some rsp) =
      let (rsp', method) = get_message_method env.msgpack rsp in
      let ret = check_response method in (ret, if ret == success then some rsp' else none)

  -- rbus_invokeRemoteMethod: the result and `*in`.
  unfoldable pub invoke_remote_method :
      Name → Name → Option Message → ℕ → Action env.World (RbusError × Option Message)
  invoke_remote_method object_name method out timeout s = elim s.connection [
    | none ↦ ((error_invalid_state, none), s)
    | some c ↦
        if leb env.max_object_name_length (strnlen object_name env.max_object_name_length)
        then ((error_invalid_param, none), s)
        else (do
          let request = set_message_method env.msgpack method (or_new out)
          reply ← send_request request object_name timeout
          return (receive_response reply))
            s
  ]

  -- The result that `*in` carries where the call succeeded.
  abbrev pub result_of : RbusError → Option Message → RbusError
  result_of ret none = ret
  result_of ret (some rsp) = or_malformed (get_int32 env.msgpack rsp).1

  -- `*in` after the result has been read.
  abbrev pub after_result : Option Message → Option Message
  after_result none = none
  after_result (some rsp) = some (get_int32 env.msgpack rsp).0

  -- `*response` is released unless the call succeeded.
  abbrev pub kept : RbusError → Option Message → RbusError × Option Message
  kept ret response = (ret, if ret == success then response else none)

  -- `if(NULL == response)`: an answer that says that the method is not supported.
  abbrev pub or_unsupported : Option Message → Message
  or_unsupported none = (set_int32 env.msgpack error_unsupported_method init).0
  or_unsupported (some m) = m

  -- rbus_pushObj
  unfoldable pub push_obj : Name → Message → ℕ → Action env.World RbusError
  push_obj object_name message timeout = do
    (ret, response) ←
        invoke_remote_method object_name method_setparametervalues (some message) timeout
    if ret == success then return (result_of ret response) else return ret

  -- rbus_pushObjNoAck
  unfoldable pub push_obj_no_ack : Name → Message → Action env.World RbusError
  push_obj_no_ack object_name message = push_obj object_name message fire_and_forget

  -- rbus_pullObj: the result and `*response`
  unfoldable pub pull_obj : Name → ℕ → Action env.World (RbusError × Option Message)
  pull_obj object_name timeout = do
    (ret, response) ← invoke_remote_method object_name method_getparametervalues none timeout
    if ret == success
        then return (kept (result_of ret response) (after_result response))
        else return (ret, response)

  -- rbus_sendMessage
  unfoldable pub send_message : Message → Name → Name → Action env.World RbusError
  send_message msg destination sender s = elim s.connection [
    | none ↦ (error_invalid_state, s)
    | some c ↦
        let (data_bytes, n) = to_bytes msg in
        let (err, w) =
          env.send_binary_direct s.connection data_bytes n destination sender s.world in
        (translate_rt_error err, record s { world = w })
  ]

  -- rbus_sendResponse
  unfoldable pub send_response : Header → Option Message → Action env.World RbusError
  send_response hdr response s =
      if hdr.is_request
      then (let message =
            set_message_method env.msgpack method_response (or_unsupported response) in
          let (data_bytes, n) = to_bytes message in
          let (err, w) =
            env.send_binary_response s.connection hdr data_bytes n fire_and_forget s.world in
          (translate_rt_error err, record s { world = w }))
      else (success, s)
