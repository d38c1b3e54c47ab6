-- ===== src/Session/Steps.antt =====
-- Histories of calls to the handlers of rbus-core/session_manager/session_manager.c.
use rbuscore.Base.{
  ℕ, zero, suc, ◌+◌, ◌^◌, ◌<◌, ◌≤◌, ◌≡◌, refl, ap, ◌⊎◌, inl, inr, ◌≢◌, Bool-cases, Option, none,
  some, List, [], ◌∷◌, ◌==◌, arith, length, All,
}
use rbuscore.Rt.Msgpack.{Msgpack}
use rbuscore.Message.{Message, get_int32}
use rbuscore.Core.Types.{success, error_invalid_state}
use rbuscore.Session.Manager.{
  Sessions, start, next_id, request_session, end_session_of, request_session_id, get_session_id,
  end_session,
}

-- A request to the session manager.
pub data Call : Type 0 where
  request_new get_current : Call
  end_of : Message → Call

module _ (mp : Msgpack) where
  -- The handler of the call, as the method table chooses it.
  unfoldable pub handle : Call → Sessions → Message × Sessions
  handle Call.request_new s = request_session_id mp s
  handle Call.get_current s = get_session_id mp s
  handle (Call.end_of m) s = end_session mp m s

  unfoldable pub run : List Call → Sessions → Sessions
  run [] s = s
  run (c ∷ cs) s = run cs (handle c s).1

  -- The number that a call is granted.
  abbrev pub grant : Call → Sessions → Option ℕ
  grant Call.request_new s = (request_session s).0.1
  grant Call.get_current s = none
  grant (Call.end_of m) s = none

  abbrev pub with_grant : Option ℕ → List ℕ → List ℕ
  with_grant none ids = ids
  with_grant (some id) ids = id ∷ ids

  -- The numbers that the calls of a history are granted, in order.
  unfoldable pub granted : List Call → Sessions → List ℕ
  granted [] s = []
  granted (c ∷ cs) s = with_grant (grant c s) (granted cs (handle c s).1)

  -- The call ends the session of a number.
  abbrev pub Ends : ℕ → Call → Type 0
  Ends id Call.request_new = ◌≡◌ {A = ℕ} 0 1
  Ends id Call.get_current = ◌≡◌ {A = ℕ} 0 1
  Ends id (Call.end_of m) = (get_int32 mp m).1 ≡ some id

-- n numbers that follow k
abbrev pub count_from : ℕ → ℕ → List ℕ
count_from k zero = []
count_from k (suc n) = (k + 1) ∷ count_from (k + 1) n

pub request_cases {κ} :
    (P : (ℕ × Option ℕ) × Sessions → Type κ) (s : Sessions)
    → s.counter + 1 < 2 ^ 32
    → (s.current_session_id ≢ 0 → P ((error_invalid_state, none), s))
    → (s.current_session_id ≡ 0
        → P (
          (success, some (s.counter + 1)),
          record { counter = s.counter + 1; current_session_id = s.counter + 1 },
        ))
    → P (request_session s)
unfolding request_session
request_cases P s lt refused given =
    let e : next_id s.counter ≡ s.counter + 1 = omega arith in
    elim (Bool-cases (s.current_session_id == 0)) [
      | inl free ↦ rw (free, e) (given (ground arith))
      | inr busy ↦ rw busy (refused (ground arith))
    ]

pub end_cases {κ} :
    (P : ℕ × Sessions → Type κ) (id : Option ℕ) (s : Sessions)
    → ((ret : ℕ) → ret ≢ success → id ≢ some s.current_session_id → P (ret, s))
    → (id ≡ some s.current_session_id → P (success, record s { current_session_id = 0 }))
    → P (end_session_of id s)
unfolding end_session_of
end_cases P none s refused ended = refused 2 (λ e. omega arith) (λ e. cc)
end_cases P (some id) s refused ended = elim (Bool-cases (id == s.current_session_id)) [
  | inl same ↦ rw same (ended (ap some (ground arith)))
  | inr other ↦ rw other (refused 4 (λ e. omega arith) (λ e. ground arith))
]

module _ (mp : Msgpack) where
  -- What one call does to the counter, and what it is granted.
  handle_cases {κ} :
      (P : Option ℕ → Sessions → Type κ) (c : Call) (s : Sessions)
      → s.counter + 1 < 2 ^ 32
      → ((id : ℕ)
          → (id ≡ 0) ⊎ (id ≡ s.current_session_id)
          → P none (record s { current_session_id = id }))
      → (s.current_session_id ≡ 0
          → P
              (some (s.counter + 1))
              (record { counter = s.counter + 1; current_session_id = s.counter + 1 }))
      → P (grant mp c s) (handle mp c s).1
  unfolding handle request_session_id get_session_id end_session
  handle_cases P Call.request_new s lt kept given =
      request_cases (λ r. P r.0.1 r.1) s (omega arith) (λ e. kept s.current_session_id (inr refl))
        given
  handle_cases P Call.get_current s lt kept given = kept s.current_session_id (inr refl)
  handle_cases P (Call.end_of m) s lt kept given =
      end_cases (λ r. P none r.1) (get_int32 mp m).1 s
        (λ ret e o. kept s.current_session_id (inr refl)) (λ e. kept 0 (inl refl))

  granted_lem :
      (cs : List Call) (s : Sessions)
      → s.counter + length cs < 2 ^ 31
      → granted mp cs s ≡ count_from s.counter (length (granted mp cs s))
  unfolding granted
  granted_lem [] s lt = refl
  granted_lem (c ∷ cs) s lt =
      handle_cases
        (λ g s'.
          with_grant mp g (granted mp cs s')
          ≡ count_from s.counter (length (with_grant mp g (granted mp cs s'))))
        c s (omega arith)
        (λ id e. granted_lem cs (record s { current_session_id = id }) (omega arith))
        λ free. ap (◌∷◌ (s.counter + 1)) (
          granted_lem cs (record { counter = s.counter + 1; current_session_id = s.counter + 1 })
            (omega arith))

  handle_active :
      (c : Call) (s : Sessions)
      → s.current_session_id ≢ 0
      → s.counter + 1 < 2 ^ 32
      → ¬ Ends mp s.current_session_id c
      → (grant mp c s ≡ none) × ((handle mp c s).1 ≡ s)
  unfolding handle request_session_id get_session_id end_session
  handle_active Call.request_new s active lt h =
      request_cases (λ r. (r.0.1 ≡ none) × (r.1 ≡ s)) s lt (λ e. (refl, refl))
        (λ free. absurd (active free))
  handle_active Call.get_current s active lt h = (refl, refl)
  handle_active (Call.end_of m) s active lt h =
      end_cases (λ r. (◌≡◌ {A = Option ℕ} none none) × (r.1 ≡ s)) (get_int32 mp m).1 s
        (λ ret e o. (refl, refl)) (λ e. absurd (h e))

-- The numbers that request_session_id hands out in any sequence of calls from the start are 1, 2, 3
-- and so on, in order: none is skipped, and none is given twice. There are fewer than 2^31 calls, so
-- the counter, an int, does not overflow.
pub granted-start :
    (mp : Msgpack) (calls : List Call)
    → length calls < 2 ^ 31
    → granted mp calls start ≡ count_from 0 (length (granted mp calls start))
granted-start mp calls lt = granted_lem mp calls start (omega arith)

-- While a session is active, calls that do not carry its number to end_session change nothing and
-- are granted no session: there is one session at a time.
pub run-active :
    (mp : Msgpack) (calls : List Call) (s : Sessions)
    → s.current_session_id ≢ 0
    → s.counter + 1 < 2 ^ 32
    → All (λ c. ¬ Ends mp s.current_session_id c) calls
    → (run mp calls s ≡ s) × (granted mp calls s ≡ [])
unfolding run granted
run-active mp [] s active lt h = (refl, refl)
run-active mp (c ∷ cs) s active lt h =
    let (none_given, kept) = handle_active mp c s active lt h.0 in
    rw (none_given, kept) (run-active mp cs s active lt h.1)

-- The states that the session manager reaches from its start.
pub data Reachable (mp : Msgpack) : Sessions → ℕ → Type 0 where
  at_start : Reachable mp start 0
  after :
      {s : Sessions} {n : ℕ} (c : Call) → Reachable mp s n → Reachable mp (handle mp c s).1 (suc n)

-- In every state that fewer than 2^31 calls lead to from the start, no session is active or the
-- active one has the number that was given out last, and the counter has not passed the number of
-- calls, so that the next `++g_counter` does not overflow.
pub Reachable-counter :
    (mp : Msgpack) {s : Sessions} {n : ℕ}
    → Reachable mp s n
    → n < 2 ^ 31
    → (s.counter ≤ n) × ((s.current_session_id ≡ 0) ⊎ (s.current_session_id ≡ s.counter))
Reachable-counter mp at_start lt = (omega arith, inl refl)
Reachable-counter mp (after {s} {n} c r) lt =
    let (few, known) = Reachable-counter mp r (omega arith) in
    handle_cases mp
      (λ g s'.
        (s'.counter ≤ suc n) × ((s'.current_session_id ≡ 0) ⊎ (s'.current_session_id ≡ s'.counter)))
      c s (omega arith) (λ id e. (omega arith, ground (arith, e, known)))
      (λ free. (omega arith, inr refl))
