-- ===== src/Session/Exchange.antt =====
-- A client's exchange with the session manager: it gets a session and ends it, by messages.
use rbuscore.Base.{
  ℕ, ◌+◌, ◌%◌, length-append, ◌^◌, ◌<◌, ◌≡◌, refl, ap, ◌∙◌, ◌++◌, append-nil, Option, some, none,
  [], arith, length, take_all,
}
use rbuscore.Rt.Msgpack.{Msgpack, IsMsgpack, Item}
use rbuscore.Message.{Message, init, from_bytes, set_int32, get_int32}
use rbuscore.Message.Reading.{arrived, get_int32_lem}
use rbuscore.Core.Types.{success}
use rbuscore.Session.Manager.{Sessions, response, end_session_of, request_session_id, end_session}
use rbuscore.Session.Steps.{request_cases, end_cases}

-- The two numbers at the start of a message.
abbrev pub two_numbers : Msgpack → Message → Option ℕ × Option ℕ
two_numbers mp m = let (m', a) = get_int32 mp m in (a, (get_int32 mp m').1)

-- The request to end the session of a number that was received.
abbrev pub end_request : Msgpack → Option ℕ → Message
end_request mp none = init
end_request mp (some id) = (set_int32 mp id init).0

module _ (mp : Msgpack) (h : IsMsgpack mp) where
  one_number : (a : ℕ) → a < 2 ^ 32 → (get_int32 mp (arrived mp (set_int32 mp a init).0)).1 ≡ some a
  unfolding set_int32 from_bytes
  one_number a lt =
      let wa = h.wire (Item.int32 a) in
      let kept : length wa % 2 ^ 32 ≡ length wa = omega (arith, h.wire-int32_short a) in
      rw (h.pack_int32_lem, kept, h.sbuffer_write_lem, take_all wa)
        (rw (← append-nil (h.wire (Item.int32 a)))
          (ap (λ r. r.1) (get_int32_lem mp h a 0 [] [] lt)))

  two_numbers_lem :
      (a b : ℕ)
      → a < 2 ^ 32
      → b < 2 ^ 32
      → two_numbers mp (arrived mp (set_int32 mp b (set_int32 mp a init).0).0) ≡ (some a, some b)
  unfolding set_int32 from_bytes
  two_numbers_lem a b la lb =
      let wa = h.wire (Item.int32 a) in
      let wb = h.wire (Item.int32 b) in
      let z : 0 + length wa ≡ length wa = omega arith in
      let kept : length (wa ++ wb) % 2 ^ 32 ≡ length (wa ++ wb) =
        omega (arith, h.wire-int32_short a, h.wire-int32_short b, length-append wa wb) in
      rw (h.pack_int32_lem, h.pack_int32_lem, kept, h.sbuffer_write_lem, take_all (wa ++ wb))
        (rw (get_int32_lem mp h a 0 [] wb la) (
          ap (λ r. (some a, r))
            (rw (z, ← append-nil wb) (ap (λ r. r.1) (get_int32_lem mp h b 0 wa [] lb)))))

  -- The end of the session n, once its number has been read from the request.
  ended :
      (n : ℕ) (id : Option ℕ)
      → id ≡ some n
      → let (ret, s) = end_session_of id (record { counter = n; current_session_id = n }) in
        ((get_int32 mp (arrived mp (response mp (ret, none)))).1 ≡ some success)
        × (s ≡ record { counter = n; current_session_id = 0 })
  unfolding response
  ended n id e =
      end_cases
        (λ (ret, s).
          ((get_int32 mp (arrived mp (response mp (ret, none)))).1 ≡ some success)
          × (s ≡ record { counter = n; current_session_id = 0 }))
        id (record { counter = n; current_session_id = n }) (λ ret f other. absurd (other e))
        (λ same. (one_number success (omega arith), refl))

  -- The exchange behind the first response, by the two numbers in it.
  answered :
      (n : ℕ) (numbers : Option ℕ × Option ℕ)
      → n < 2 ^ 31
      → numbers ≡ (some success, some n)
      → let (answer, s) =
          end_session mp
            (arrived mp (end_request mp numbers.1))
            (record { counter = n; current_session_id = n }) in
        (numbers.0 ≡ some success)
        × (numbers.1 ≡ some n)
        × (n ≡ n)
        × ((get_int32 mp (arrived mp answer)).1 ≡ some success)
        × (s ≡ record { counter = n; current_session_id = 0 })
  unfolding end_session
  answered n numbers lt e =
      let id : numbers.1 ≡ some n = ap (λ p. p.1) e in
      let (reported, over) = ended n (get_int32 mp (arrived mp (end_request mp numbers.1))).1 (
        ap (λ o. (get_int32 mp (arrived mp (end_request mp o))).1) id
        ∙ one_number n (omega arith)) in
      (ap (λ p. p.0) e, id, refl, reported, over)

-- A client that gets a session with request_session_id, and sends the number in the response to
-- end_session, reads success in both responses and the number that follows the counter in the first;
-- the session of that number is active between the calls, and none is behind them. No session is
-- active before, and the counter does not overflow.
pub end_session-request_session_id :
    (mp : Msgpack) (h : IsMsgpack mp) (s : Sessions)
    → s.current_session_id ≡ 0
    → s.counter + 1 < 2 ^ 31
    → let (answer, s') = request_session_id mp s in
      let (ret, id) = two_numbers mp (arrived mp answer) in
      let (answer', s'') = end_session mp (arrived mp (end_request mp id)) s' in
      (ret ≡ some success)
      × (id ≡ some (s.counter + 1))
      × (s'.current_session_id ≡ s.counter + 1)
      × ((get_int32 mp (arrived mp answer')).1 ≡ some success)
      × (s'' ≡ record { counter = s.counter + 1; current_session_id = 0 })
unfolding request_session_id response
end_session-request_session_id mp h s free lt =
    request_cases
      (λ (r, s').
        let (ret, id) = two_numbers mp (arrived mp (response mp r)) in
        let (answer', s'') = end_session mp (arrived mp (end_request mp id)) s' in
        (ret ≡ some success)
        × (id ≡ some (s.counter + 1))
        × (s'.current_session_id ≡ s.counter + 1)
        × ((get_int32 mp (arrived mp answer')).1 ≡ some success)
        × (s'' ≡ record { counter = s.counter + 1; current_session_id = 0 }))
      s (omega arith) (λ busy. absurd (busy free))
      (λ e.
        answered mp h (s.counter + 1)
          (two_numbers mp (arrived mp (response mp (success, some (s.counter + 1))))) lt
          (two_numbers_lem mp h success (s.counter + 1) (omega arith) (omega arith)))
