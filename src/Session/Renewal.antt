-- ===== src/Session/Renewal.antt =====
-- A session that ends makes way for the next one.
use rbuscore.Base.{◌+◌, ◌^◌, ◌<◌, ◌≡◌, refl, some, [], ◌∷◌}
use rbuscore.Rt.Msgpack.{Msgpack}
use rbuscore.Message.{Message, get_int32}
use rbuscore.Session.Manager.{Sessions, end_session, request_session_id}
use rbuscore.Session.Steps.{Call, handle, run, granted, with_grant, request_cases, end_cases}

-- Whoever holds the active session can always make way for another: after a call of end_session with
-- its number the next call of request_session_id is granted the number that follows the counter, and
-- that session is then the active one. The counter does not overflow.
pub run-end_session :
    (mp : Msgpack) (request : Message) (s : Sessions)
    → (get_int32 mp request).1 ≡ some s.current_session_id
    → s.counter + 1 < 2 ^ 32
    → let calls = Call.end_of request ∷ Call.request_new ∷ [] in
      (granted mp calls s ≡ (s.counter + 1) ∷ [])
      × (run mp calls s ≡ record { counter = s.counter + 1; current_session_id = s.counter + 1 })
unfolding run granted handle end_session request_session_id
run-end_session mp request s holds lt =
    end_cases
      (λ (ret, s').
        (granted mp (Call.request_new ∷ []) s' ≡ (s.counter + 1) ∷ [])
        × (run mp (Call.request_new ∷ []) s'
            ≡ record { counter = s.counter + 1; current_session_id = s.counter + 1 }))
      (get_int32 mp request).1 s (λ ret bad other. absurd (other holds))
      λ same.
        request_cases
          (λ (r, s').
            (with_grant mp r.1 [] ≡ (s.counter + 1) ∷ [])
            × (s' ≡ record { counter = s.counter + 1; current_session_id = s.counter + 1 }))
          (record s { current_session_id = 0 }) lt (λ busy. absurd (busy refl))
          (λ free. (refl, refl))
