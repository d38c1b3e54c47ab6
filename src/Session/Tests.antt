-- ===== src/Session/Tests.antt =====
-- The session manager's theorems at concrete histories.
use rbuscore.Base.{ℕ, ◌≡◌, refl, some, List, [], ◌∷◌, arith, length}
use mathlib.Core.Option.{some-injective}
use rbuscore.Rt.Msgpack.Plain.{plain, plain-IsMsgpack, wire}
use rbuscore.Message.{Message, init, set_int32, get_int32}
use rbuscore.Session.Manager.{
  Sessions, start, request_session_id, request_session, end_session, end_session_of,
}
use rbuscore.Core.Types.{success}
use rbuscore.Message.Reading.{arrived}
use rbuscore.Session.Exchange.{two_numbers, end_request, end_session-request_session_id}
use rbuscore.Session.Renewal.{run-end_session}
use rbuscore.Session.Steps.{Call, handle, run, granted, count_from, granted-start, run-active}

abbrev end_message : ℕ → Message
end_message id = (set_int32 plain id init).0

-- A request, one that comes too early, the end of the first session, and another request.
abbrev history : List Call
history = Call.request_new ∷ Call.request_new ∷ Call.end_of (end_message 1) ∷ Call.request_new ∷ []

granted_two : granted plain history start ≡ 1 ∷ 2 ∷ []
unfolding granted handle request_session_id request_session end_session end_session_of set_int32
    get_int32 plain wire
granted_two = refl

granted-start_example :
    granted plain history start ≡ count_from 0 (length (granted plain history start))
granted-start_example = granted-start plain history (omega arith)

abbrev active : Sessions
active = record { counter = 3; current_session_id = 3 }

-- Calls that leave session 3 alone.
abbrev others : List Call
others = Call.request_new ∷ Call.end_of (end_message 2) ∷ Call.get_current ∷ []

run-active_example : (run plain others active ≡ active) × (granted plain others active ≡ [])
unfolding set_int32 get_int32 plain wire
run-active_example =
    run-active plain others active (λ e. omega arith) (omega arith)
      ((λ e. omega arith), ((λ e. omega (arith, some-injective 2 3 e)), ((λ e. omega arith), tt)))

end_session-request_session_id_example :
    let (answer, s') = request_session_id plain start in
    let (ret, id) = two_numbers plain (arrived plain answer) in
    let (answer', s'') = end_session plain (arrived plain (end_request plain id)) s' in
    (ret ≡ some success)
    × (id ≡ some 1)
    × (s'.current_session_id ≡ 1)
    × ((get_int32 plain (arrived plain answer')).1 ≡ some success)
    × (s'' ≡ record { counter = 1; current_session_id = 0 })
end_session-request_session_id_example =
    end_session-request_session_id plain plain-IsMsgpack start refl (omega arith)

run-end_session_example :
    (granted plain (Call.end_of (end_message 3) ∷ Call.request_new ∷ []) active ≡ 4 ∷ [])
    × (run plain (Call.end_of (end_message 3) ∷ Call.request_new ∷ []) active
        ≡ record { counter = 4; current_session_id = 4 })
unfolding set_int32 get_int32 plain wire
run-end_session_example = run-end_session plain (end_message 3) active refl (omega arith)
