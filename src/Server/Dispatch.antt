-- ===== src/Server/Dispatch.antt =====
-- Requests that come in: dispatch_method_call and onMessage.
use rbuscore.Base.{
  ℕ, zero, suc, ◌+◌, ◌-◌, true, Option, none, some, List, [], ltb, ◌==◌, if◌then◌else◌, Name,
  length,
}
use rbuscore.Rt.Vector.{Vector}
use rbuscore.Message.{Message, from_bytes}
use rbuscore.Core.Types.{success_async, Callback, UserData, Method, Object, Header, Request}
use rbuscore.Core.State.{Action, return, gets, modify, lock, unlock, ◌>>=◌, ◌>>◌}
use rbuscore.Core.Env.{Env}
use rbuscore.Remote.{get_message_method, send_response}
use rbuscore.Server.Objects.{get_object}
use rbuscore.Server.Methods.{find_method}
use rbuscore.Server.Events.{subscription_handler}

-- `g_queued_requests` as rtVector_Size and rtVector_At see it: a vector that was never created is
-- read as one without items.
abbrev pub queue_of : Option (List Request) → List Request
queue_of none = []
queue_of (some queue) = queue

module _ (v : Vector) (env : Env) where
  -- A call through the pointer of a registered method.
  unfoldable pub invoke : Method → Header → Name → Message → Action env.World (ℕ × Option Message)
  invoke m hdr method_name msg = elim m.callback [
    | Callback.app f ↦ env.call_method f hdr.topic (some method_name) msg m.user_data hdr
    | Callback.subscription_handler ↦ elim m.user_data [
      | UserData.app_data d ↦ return (0, none)
      | UserData.object o ↦ do
        response ← subscription_handler v env method_name msg o
        return (0, response)
    ]
  ]

  -- The method that handles a request: none where the object has no methods, where the request
  -- names none, or where the object does not have the named one.
  unfoldable pub handler_of : Option Name → Object → Option (Name × Method)
  handler_of none o = none
  handler_of (some name) o =
      if ltb 0 (v.size Method o.methods)
      then elim (find_method v name o) [ none ↦ none | some m ↦ some (name, m) ]
      else none

  -- The call of `obj->callback`, which may answer later.
  unfoldable pub call_default :
      Message → Header → Option Name → Object → Action env.World (Unit {0})
  call_default msg hdr method_name o = do
    (ret, response) ←
        env.call_method o.callback hdr.topic method_name msg (UserData.app_data o.user_data) hdr
    if ret == success_async then return tt else (do send_response env hdr response; return tt)

  -- dispatch_method_call; the pointer of an object that is gone is not followed.
  unfoldable pub dispatch_method_call : Message → Header → Name → Action env.World (Unit {0})
  dispatch_method_call msg hdr obj = do
    let (msg', method_name) = get_message_method env.msgpack msg
    lock
    object ← get_object v env obj
    unlock
    elim object [
      | none ↦ return tt
      | some o ↦ elim (handler_of method_name o) [
        | none ↦ call_default msg' hdr method_name o
        | some (name, m) ↦ do
          (ret, response) ← invoke m hdr name msg'
          send_response env hdr response
          return tt
      ]
    ]

  -- rtVector_PushBack on it: the pointer is passed by value, so a NULL stays one.
  abbrev pub push_request : Request → Option (List Request) → Option (List Request)
  push_request req none = none
  push_request req (some queue) = some (v.push_back Request queue req)

  -- rtVector_RemoveItem of its first item.
  abbrev pub remove_request : Option (List Request) → Option (List Request)
  remove_request none = none
  remove_request (some queue) = some (v.remove_item Request (λ _. true) queue)

  -- The loop of onMessage that consumes the queue, with fuel for its rounds.
  unfoldable pub drain : ℕ → Action env.World (Unit {0})
  drain zero s = (tt, s)
  drain (suc fuel) s = elim (v.at Request (queue_of s.queued_requests) 0) [
    | none ↦ (tt, s)
    | some req ↦
        let (_, s') = dispatch_method_call req.msg req.hdr req.obj s in
        drain fuel (record s' { queued_requests = remove_request s'.queued_requests })
  ]

  -- onMessage: a message that comes in while another is handled is queued.
  unfoldable pub on_message : ℕ → Header → List ℕ → Name → Action env.World (Unit {0})
  on_message fuel hdr data_bytes obj = do
    let msg = from_bytes env.msgpack data_bytes (length data_bytes)
    modify (λ s. record s { stack_counter = s.stack_counter + 1 })
    depth ← gets (λ s. s.stack_counter)
    if depth == 1
        then dispatch_method_call msg hdr obj
        else modify (λ s. record s {
          queued_requests =
              push_request (record { hdr = hdr; msg = msg; obj = obj }) s.queued_requests;
        })
    depth ← gets (λ s. s.stack_counter)
    if depth == 1 then drain fuel else return tt
    modify (λ s. record s { stack_counter = s.stack_counter - 1 })
