-- ===== src/Session/Manager.antt =====
-- The handlers of session_manager.c. An int is its 32-bit pattern. Each handler gives its response
-- and the state after; the printed lines are not modelled.
use rbuscore.Base.{
  ℕ, ◌+◌, ◌%◌, ◌^◌, Option, none, some, List, [], ◌∷◌, ◌==◌, if◌then◌else◌, Name, codes,
}
use rbuscore.Rt.Msgpack.{Msgpack}
use rbuscore.Rt.Vector.{Vector}
use rbuscore.Message.{Message, init, set_int32, get_int32}
use rbuscore.Core.Types.{RbusError, success, error_invalid_param, error_invalid_state, TableEntry}
use rbuscore.Core.State.{Action, ◌>>=◌}
use rbuscore.Core.Env.{Env}
use rbuscore.Server.Objects.{register_obj}
use rbuscore.Server.Methods.{register_method_table}

-- g_counter and g_current_session_id
pub record Sessions : Type 0 where
  pub counter : ℕ
  pub current_session_id : ℕ

-- The state before the first request.
abbrev pub start : Sessions
start = record { counter = 0; current_session_id = 0 }

-- `++g_counter`
abbrev pub next_id : ℕ → ℕ
next_id counter = (counter + 1) % 2 ^ 32

-- The decision of request_session_id: the result, the number that follows it, and the state.
unfoldable pub request_session : Sessions → (RbusError × Option ℕ) × Sessions
request_session s =
    if s.current_session_id == 0
    then (let id = next_id s.counter in
        ((success, some id), record { counter = id; current_session_id = id }))
    else ((error_invalid_state, none), s)

-- The decision of end_session, on the number that was read from the request.
unfoldable pub end_session_of : Option ℕ → Sessions → RbusError × Sessions
end_session_of none s = (error_invalid_param, s)
end_session_of (some id) s =
    if id == s.current_session_id
    then (success, record s { current_session_id = 0 })
    else (error_invalid_state, s)

module _ (mp : Msgpack) where
  -- A response: the result, and the session's number where there is one.
  unfoldable pub response : RbusError × Option ℕ → Message
  response (ret, none) = (set_int32 mp ret init).0
  response (ret, some id) = (set_int32 mp id (set_int32 mp ret init).0).0

  -- request_session_id
  unfoldable pub request_session_id : Sessions → Message × Sessions
  request_session_id s = let (answer, s') = request_session s in (response answer, s')

  -- get_session_id
  unfoldable pub get_session_id : Sessions → Message × Sessions
  get_session_id s = (response (success, some s.current_session_id), s)

  -- end_session
  unfoldable pub end_session : Message → Sessions → Message × Sessions
  end_session request s =
      let (ret, s') = end_session_of (get_int32 mp request).1 s in (response (ret, none), s')

-- RBUS_SMGR_DESTINATION_NAME and the methods' names of rbus_session_mgr.h
abbrev pub destination_name : Name
destination_name = codes "_rbus_session_mgr"

-- The method table of `main`; the handlers are numbered in its order, from 1.
abbrev pub table : List TableEntry
table =
    record { method = codes "get_curr_s"; user_data = 0; callback = 1 }
    ∷ record { method = codes "req_new_s"; user_data = 0; callback = 2 }
    ∷ record { method = codes "end_of_s"; user_data = 0; callback = 3 }
    ∷ []

-- The registration in `main`, once the connection is open. Handler 0 is `callback`.
unfoldable pub register_manager : (v : Vector) (env : Env) → Action env.World RbusError
register_manager v env = do
  ret ← register_obj v env (some destination_name) 0 0
  register_method_table v env destination_name table
