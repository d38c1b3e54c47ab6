-- ===== src/Client/Exchange.antt =====
-- A subscription from both sides: the request of send_subscription_request at the provider's
-- dispatch_method_call, and the provider's answer at the subscriber.
use rbuscore.Base.{
  ℕ, ◌+◌, ◌^◌, ◌<◌, ◌≡◌, ap, ◌∙◌, Bool, true, false, Option, none, some, List, [], ◌∷◌, arith, ltb,
  length, ◌==◌, if◌then◌else◌, Name, IsText, strlen,
}
use rbuscore.Rt.Msgpack.{IsMsgpack}
use rbuscore.Rt.Vector.{Vector, IsVector, list_vector, vector-eq, find_first}
use rbuscore.Keyed.{named, All-find_first}
use rbuscore.Message.{Message, init, set_int32}
use rbuscore.Message.Reading.{arrived}
use rbuscore.Message.RoundTrip.{Value, wires, write, write_all}
use rbuscore.Message.Meta.{meta_limit}
use rbuscore.Core.Types.{success, error_general, fire_and_forget, Method, Object, Header}
use rbuscore.Core.State.{Bus, ◌>>=◌}
use rbuscore.Core.Env.{Env}
use rbuscore.Remote.{set_message_method, get_message_method, send_response}
use rbuscore.Remote.Replies.{get_message_method-set_message_method}
use rbuscore.Remote.Answers.{
  Outcome, Fits, Answered, answer_bytes, invoke_lem, answer_kept, result_lem,
}
use rbuscore.Server.Objects.{get_object}
use rbuscore.Server.Methods.{find_method}
use rbuscore.Server.Events.{server_object_subscription_handler}
use rbuscore.Server.Dispatch.{dispatch_method_call, handler_of, invoke}
use rbuscore.Server.Valid.{
  method_key, ValidObject, ValidRegistry, object_of, method_in, object_found, method_found,
}
use rbuscore.Server.Handlers.{with_handler_method}
use rbuscore.Client.Request.{
  subscription_request, send_subscription_request, timeout_or_default, read_answer, provider_result,
}
use rbuscore.Client.RequestReading.{
  request_method, unread, request_values, PayloadFits, subscription_request_lem, incoming,
  subscription_handler-subscription_request,
}

nonempty :
    {A : Type 0} (p : A → Bool) (xs : List A) (x : A)
    → find_first p xs ≡ some x
    → ltb 0 (length xs) ≡ true
nonempty p [] x e = cc
nonempty p (y ∷ xs) x e = ground arith

handler_of_lem :
    (env : Env) (name : Name) (o : Object) (m : Method)
    → ValidObject env o
    → method_in name o ≡ some m
    → handler_of list_vector env (some name) o ≡ some (name, m)
unfolding handler_of find_method
handler_of_lem env name o m v there =
    rw (nonempty (named method_key name) o.methods m there, method_found env name o v ∙ there)

-- A request that names a method of its object is answered with what the method's handler leaves.
dispatch_method :
    (env : Env) (msg msg' : Message) (name object : Name) (o : Object) (m : Method) (hdr : Header)
    (s : Bus env.World)
    → ValidRegistry env s.server_objects
    → object_of object s.server_objects ≡ some o
    → method_in name o ≡ some m
    → get_message_method env.msgpack msg ≡ (msg', some name)
    → dispatch_method_call list_vector env msg hdr object s ≡ (
        let ((ret, response), s') =
          invoke list_vector env m hdr name msg' (record s { locked = false }) in
        (tt, (send_response env hdr response s').1))
unfolding dispatch_method_call get_object
dispatch_method env msg msg' name object o m hdr s valid found there read =
    let looked_up = object_found env object s.server_objects valid ∙ found in
    let handler =
      handler_of_lem env name o m (All-find_first _ _ s.server_objects o found valid.objects_valid)
        there in
    rw (dispatch_method_call, ◌>>=◌, get_object, looked_up) (rw read (rw handler (rw read)))

-- The names and the payload are as a message can hold them, and the request is below the largest
-- sizes.
abbrev pub RequestFits :
    (env : Env) → IsMsgpack env.msgpack → Name → Name → Bool → Option Message → Type 0
RequestFits env h event address activate payload =
    IsText event
    × IsText address
    × (length event + 1 < 2 ^ 31)
    × (length address + 1 < 2 ^ 31)
    × PayloadFits payload
    × (length (wires env.msgpack h (request_values event address payload)) < meta_limit)
    × (length (wires env.msgpack h (request_values event address payload))
          + length (wires env.msgpack h (Value.string (some (request_method activate)) ∷ []))
          + 5
        < 2 ^ 32)

-- The bytes of a request, as a message that arrives.
abbrev pub request : (env : Env) → Name → Name → Bool → Option Message → Message
request env event address activate payload = arrived env.msgpack (
    set_message_method env.msgpack (request_method activate)
      (subscription_request env.msgpack event (some address) payload))

request_method-IsText : (activate : Bool) → IsText (request_method activate)
request_method-IsText true = ground arith
request_method-IsText false = ground arith

request_method_short : (activate : Bool) → length (request_method activate) + 1 < 2 ^ 31
request_method_short true = omega arith
request_method_short false = omega arith

module _ (env : Env) (h : IsMsgpack env.msgpack) (event address : Name) (activate : Bool)
    (payload : Option Message) (fits : RequestFits env h event address activate payload) where
  received : get_message_method env.msgpack (request env event address activate payload) ≡ (
    incoming env.msgpack h event address payload (request_method activate),
    some (request_method activate),
  )
  received =
      ap
        (λ m.
          get_message_method env.msgpack
            (arrived env.msgpack (set_message_method env.msgpack (request_method activate) m)))
        (subscription_request_lem env.msgpack h event address payload fits.2 fits.3 fits.4)
      ∙ get_message_method-set_message_method env.msgpack h (request_method activate)
          (record init { sbuf = wires env.msgpack h (request_values event address payload) })
          (request_method-IsText activate) (request_method_short activate) (fits.5) (fits.6)

  dispatch_list :
      (object : Name) (o : Object) (hdr : Header) (s : Bus env.World)
      → ValidRegistry env s.server_objects
      → object_of object s.server_objects ≡ some o
      → method_in (request_method activate) o
        ≡ some (with_handler_method env object (request_method activate))
      → dispatch_method_call list_vector env
          (request env event address activate payload)
          hdr
          object
          s
        ≡ (let (ret, s') =
              server_object_subscription_handler list_vector env object event address activate
                (unread payload)
                (record s { locked = false }) in
            (tt, (send_response env hdr (some (set_int32 env.msgpack ret init).0) s').1))
  unfolding invoke
  dispatch_list object o hdr s valid found there =
      dispatch_method env (request env event address activate payload)
        (incoming env.msgpack h event address payload (request_method activate))
        (request_method activate) object o
        (with_handler_method env object (request_method activate)) hdr s valid found there received
      ∙ ap (λ (response, s'). (tt, (send_response env hdr response s').1))
          (subscription_handler-subscription_request list_vector env h object event address activate
            payload (record s { locked = false }) fits.0 fits.1 fits.2 fits.3 fits.4)

-- A subscription request that arrives at a provider is what the subscriber asked for: dispatching the
-- bytes of send_subscription_request's message puts the address that the subscriber gave in or out of
-- the listeners of its event, by server_object_subscription_handler with the subscriber's payload,
-- and sends the result of that as the response. The object is registered, in a well-formed registry,
-- with the library's handler under the method of the request; names are without NUL, and the message
-- is below the largest sizes.
pub dispatch_method_call-subscription_request :
    (v : Vector) (env : Env) (h : IsMsgpack env.msgpack) (event address : Name) (activate : Bool)
    (payload : Option Message) (object : Name) (o : Object) (hdr : Header) (s : Bus env.World)
    → IsVector v
    → ValidRegistry env s.server_objects
    → RequestFits env h event address activate payload
    → object_of object s.server_objects ≡ some o
    → method_in (request_method activate) o
      ≡ some (with_handler_method env object (request_method activate))
    → dispatch_method_call v env (request env event address activate payload) hdr object s ≡ (
        let (ret, s') =
          server_object_subscription_handler v env object event address activate
            (unread payload)
            (record s { locked = false }) in
        (tt, (send_response env hdr (some (set_int32 env.msgpack ret init).0) s').1))
dispatch_method_call-subscription_request v env h event address activate payload object o hdr s iv
      valid fits found there =
    rw (vector-eq v iv)
      (dispatch_list env h event address activate payload fits object o hdr s valid found there)

-- The provider's answer to a subscription request is what send_subscription_request reports: success
-- where the provider's handler returned success, and otherwise RTMESSAGE_BUS_ERROR_GENERAL together
-- with the provider's own error. The response that the provider sends for a result is the one that
-- the connection hands to the subscriber; the subscriber is connected and has an address, the
-- object's name is not too long, and the response is below the largest sizes.
pub send_subscription_request-send_response :
    (env : Env) (h : IsMsgpack env.msgpack) (event address object : Name) (activate : Bool)
    (payload : Option Message) (timeout ret c : ℕ) (hdr : Header) (provider client : Bus env.World)
    (w : env.World)
    → Fits env h (some (ret, []))
    → hdr.is_request ≡ true
    → client.connection ≡ some c
    → strlen object < env.max_object_name_length
    → env.return_address client.connection client.world ≡ some address
    → Answered env c
        (request_method activate)
        (subscription_request env.msgpack event (some address) payload)
        object
        (timeout_or_default timeout)
        (answer_bytes env (some (ret, [])))
        client.world
        w
    → ((send_response env hdr (some (set_int32 env.msgpack ret init).0) provider).1.world
        ≡ (env.send_binary_response provider.connection hdr
            (answer_bytes env (some (ret, [])))
            (length (answer_bytes env (some (ret, []))))
            fire_and_forget
            provider.world).1)
      × (send_subscription_request env object event activate payload timeout client ≡ (
        if ret == success then (success, none) else (error_general, some ret),
        record client { world = w },
      ))
unfolding send_subscription_request send_response write write_all
send_subscription_request-send_response env h event address object activate payload timeout ret c
      hdr provider client w fits asked connected short addressed answered =
    let message = subscription_request env.msgpack event (some address) payload in
    let answer : Outcome = some (ret, []) in
    (
      rw asked (
          ap
            (λ n.
              (env.send_binary_response provider.connection (record hdr { is_request = true })
                (answer_bytes env answer) n fire_and_forget provider.world).1)
            (answer_kept env h answer fits)),
      rw (send_subscription_request, addressed)
          (ap (λ ((r, response), s'). (read_answer env.msgpack r response, s'))
              (invoke_lem env h answer c (request_method activate) (some message) object
                (timeout_or_default timeout) client w connected fits short answered)
            ∙ ap (λ p. (provider_result p.1, record client { world = w }))
                (result_lem env h answer fits)),
    )
