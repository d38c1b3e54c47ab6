-- ===== src/Client/Published.antt =====
-- From the bytes of a subscription request to the events that follow it.
use rbuscore.Base.{
  ℕ, ◌<◌, ◌≡◌, ◌≢◌, ap, subst, sym, ◌∙◌, true, false, Bool-cases, inl, inr, Option, some, none,
  List, Name, strlen,
}
use rbuscore.Rt.Msgpack.{IsMsgpack}
use rbuscore.Rt.Vector.{Vector, IsVector, any_item}
use rbuscore.Message.{Message, init, set_int32}
use rbuscore.Core.Types.{success, Object, Header}
use rbuscore.Core.State.{Bus}
use rbuscore.Core.Env.{Env}
use rbuscore.Remote.{send_response}
use rbuscore.Server.Dispatch.{dispatch_method_call}
use rbuscore.Server.Events.{server_object_subscription_handler}
use rbuscore.Server.Publish.{publish_event}
use rbuscore.Server.PublishLaws.{delivered, message}
use rbuscore.Server.Valid.{ValidRegistry, object_of, method_in, event_of}
use rbuscore.Server.Handlers.{with_handler_method}
use rbuscore.Server.EventCases.{is_listener}
use rbuscore.Server.EventSteps.{Undisturbing}
use rbuscore.Server.EventLaws.{server_object_subscription_handler-ValidRegistry}
use rbuscore.Server.Notification.{
  Listening, server_object_subscription_handler-Listening, publish_event-Listening,
}
use rbuscore.Client.RequestReading.{request_method, unread}
use rbuscore.Client.Exchange.{RequestFits, request, dispatch_method_call-subscription_request}

send_response-objects :
    (env : Env) (hdr : Header) (response : Option Message) (s : Bus env.World)
    → (send_response env hdr response s).1.server_objects ≡ s.server_objects
unfolding send_response
send_response-objects env hdr response s = elim (Bool-cases hdr.is_request) [
  | inl asked ↦ rw asked
  | inr told ↦ rw told
]

-- A subscriber whose request arrives at a provider gets the events that the provider publishes next:
-- rbus_publishEvent succeeds, and sends the message to listeners of which the address in the request
-- is one. The object is registered, in a well-formed registry, with the library's handler under
-- _subscribe and no handler of the application, and has the event; the names are without NUL and
-- short enough, the request is below the largest sizes, the callbacks for subscriptions leave the
-- registered objects alone, and the bus is connected after the request.
pub publish_event-dispatch_method_call :
    (v : Vector) (env : Env) (h : IsMsgpack env.msgpack) (event address : Name)
    (payload : Option Message) (object : Name) (o : Object) (hdr : Header) (s : Bus env.World)
    (c : ℕ) (out : Message)
    → IsVector v
    → Undisturbing env
    → ValidRegistry env s.server_objects
    → RequestFits env h event address true payload
    → object_of object s.server_objects ≡ some o
    → method_in (request_method true) o
      ≡ some (with_handler_method env object (request_method true))
    → o.subscribe_handler_override ≡ none
    → event_of object event s.server_objects ≢ none
    → strlen address < env.max_object_name_length
    → strlen event < env.max_object_name_length
    → (dispatch_method_call v env
        (request env event address true payload)
        hdr
        object
        s).1.connection
      ≡ some c
    → let (_, s') =
        dispatch_method_call v env (request env event address true payload) hdr object s in
      let (ret, s'') = publish_event v env object (some event) out s' in
      (ret ≡ success)
      × ((listeners : List Name) × (any_item (is_listener address) listeners ≡ true)
          × (s''.world
              ≡ delivered env c (message env object (some event) out) object listeners s'.world))
publish_event-dispatch_method_call v env h event address payload object o hdr s c out iv quiet valid
      fits found there unset known short short' connected =
    let s0 : Bus env.World = record s { locked = false } in
    let handled =
      server_object_subscription_handler v env object event address true (unread payload) s0 in
    let s' = (dispatch_method_call v env (request env event address true payload) hdr object s).1 in
    let same : s'.server_objects ≡ handled.1.server_objects =
      ap (λ r. r.1.server_objects)
        (dispatch_method_call-subscription_request v env h event address true payload object o hdr s
          iv valid fits found there)
      ∙ send_response-objects env hdr (some (set_int32 env.msgpack handled.0 init).0) handled.1 in
    let valid' =
      server_object_subscription_handler-ValidRegistry v env object event address true
        (unread payload) s0 iv quiet valid in
    let listening =
      server_object_subscription_handler-Listening v env object event address (unread payload) o s0
        iv quiet valid found unset short short' known in
    publish_event-Listening v env object event address c out s' iv
      (subst (ValidRegistry env) (sym same) valid') connected
      (subst (Listening object event address) (sym same) listening)
