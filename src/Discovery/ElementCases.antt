-- ===== src/Discovery/ElementCases.antt =====
-- How the gathering of rbus_discoverElementsObjects can end.
use rbuscore.Base.{
  ℕ, zero, suc, ◌+◌, ◌*◌, ◌%◌, ◌^◌, ◌≤◌, ◌<◌, ◌≡◌, ap, Bool, true, false, Bool-cases, Option-cases,
  inl, inr, Option, none, some, List, [], ◌∷◌, ◌++◌, arith, length, length-append, length-take_le,
  take, ltb, All, Name,
}
use rbuscore.Keyed.{All-append_one}
use rbuscore.Rt.Router.{Router, IsRouter}
use rbuscore.Core.Env.{Env}
use rbuscore.Discovery.Arrays.{bytes, rounds}
use rbuscore.Discovery.Elements.{Gathering, and_then, gather_items, make_room, gather_elements}

true_or : {b : Bool} → b ≡ true → b ≡ false → ⊥
true_or p q = cc

module _ (env : Env) (r : Router env) (ok : IsRouter env r) (msg : r.Msg) where
  -- No name is longer than the largest.
  abbrev pub Short : List Name → Type 0
  Short = All λ name. length name ≤ env.max_object_name_length

  -- With room for a name in every round the inner loop writes nowhere else, and appends at most as
  -- many names as it has rounds.
  items_cases {κ} :
      (P : Gathering → Type κ) (n room : ℕ) (names : List Name) (w : env.World)
      → (length names + n) * 8 ≤ room
      → Short names
      → P Gathering.failed
      → ((names' : List Name)
          → length names' ≤ length names + n
          → Short names'
          → P (Gathering.gathered (some room) names'))
      → P (gather_items env r msg n room names w).0
  unfolding gather_items
  items_cases P zero room names w fits short failed made = made names (omega arith) short
  items_cases P (suc n) room names w fits short failed made =
      elim (Option-cases (r.get_string_item msg r.discovery_items (length names))) [
        | inl missing ↦ rw (gather_items, missing) failed
        | inr ([], there) ↦
            rw (gather_items, there)
              (items_cases P n room names w (omega arith) short failed
                (λ names' few. made names' (omega arith)))
        | inr (c ∷ cs, there) ↦
            let copy = r.strndup (c ∷ cs) env.max_object_name_length w in
            let inside : ltb room ((length names + 1) * 8) ≡ false = ground arith in
            rw (gather_items, there, inside)
              (elim (ok.strndup_lem (c ∷ cs) env.max_object_name_length w) [
                | inl null ↦ rw null failed
                | inr made_copy ↦
                    let name = take env.max_object_name_length (c ∷ cs) in
                    let longer : length (names ++ (name ∷ [])) ≡ length names + 1 =
                      length-append names (name ∷ []) in
                    rw made_copy (
                      items_cases P n room (names ++ (name ∷ [])) copy.1 (omega (arith, longer))
                        (All-append_one _ names name short
                          (length-take_le env.max_object_name_length (c ∷ cs)))
                        failed (λ names' few. made names' (omega (arith, longer))))
              ])
      ]

  -- Where the outer loop stands: nothing yet, or an array that holds the names.
  abbrev pub Stands : ℕ → Option ℕ → List Name → Type 0
  Stands more none names = names ≡ []
  Stands more (some room) names =
      (more < 2 ^ 31) × (length names < 2 ^ 31) × (length names * 8 ≤ room)

  -- More room is had for every round that follows, or the call fails.
  room_cases {κ} :
      (P : (Bool × ℕ) → Type κ) (more : ℕ) (room : Option ℕ) (names : List Name) (w : env.World)
      → more < 2 ^ 32
      → Stands more room names
      → ((size : ℕ) → P (false, size))
      → ((size : ℕ)
          → more < 2 ^ 31
          → length names + more < 2 ^ 31
          → (length names + more) * 8 ≤ size
          → P (true, size))
      → P (make_room env r room names more w).0
  unfolding make_room
  room_cases P more none names w lt stands failed made =
      elim (Bool-cases (r.try_malloc (bytes more) w).0) [
        | inr full ↦ rw full (failed (bytes more))
        | inl there ↦ elim (Bool-cases (ltb (bytes more) (2 ^ 63))) [
          | inr huge ↦ absurd (true_or there (ok.try_malloc_huge (bytes more) w (ground arith)))
          | inl fits ↦
              let small : more < 2 ^ 31 = ground arith in
              let empty : length names ≡ 0 = ap length stands in
              rw there (made (bytes more) small (omega (arith, empty)) (ground (arith, empty)))
        ]
      ]
  room_cases P more (some room) names w lt (small, few, fits) failed made =
      let size = bytes ((length names + more) % 2 ^ 32) in
      elim (Bool-cases (r.try_realloc size w).0) [
        | inr full ↦ rw full (failed size)
        | inl there ↦ elim (Bool-cases (ltb size (2 ^ 63))) [
          | inr huge ↦ absurd (true_or there (ok.try_realloc_huge size w (ground arith)))
          | inl fits ↦
              let below : length names + more < 2 ^ 31 = ground arith in
              rw there (made size small below (ground arith))
        ]
      ]

  pub elements_cases {κ} :
      (P : Gathering → Type κ) (more n : ℕ) (room : Option ℕ) (names : List Name) (w : env.World)
      → more < 2 ^ 32
      → r.get_int32 msg r.discovery_count ≡ some more
      → Stands more room names
      → Short names
      → P Gathering.failed
      → ((room' : Option ℕ) (names' : List Name)
          → Stands more room' names'
          → Short names'
          → P (Gathering.gathered room' names'))
      → P (gather_elements env r msg n room names w).0
  unfolding gather_elements
  elements_cases P more zero room names w lt e stands short failed made =
      made room names stands short
  elements_cases P more (suc n) room names w lt e stands short failed made =
      let v = (make_room env r room names more w).1 in
      let rest = gather_elements env r msg n in
      let next : ℕ → Gathering × env.World =
        λ size. and_then (gather_items env r msg (rounds more) size names v) rest in
      rw (gather_elements, e)
        (room_cases
          (λ (there, size).
            P
              (elim there as (λ b. Gathering × env.World) [
                | false ↦ (Gathering.failed, v)
                | true ↦ next size
              ]).0)
          more room names w lt stands (λ size. failed)
          λ size small few fits.
            let all : rounds more ≡ more = ground arith in
            let u = (gather_items env r msg (rounds more) size names v).1 in
            items_cases (λ g. P (and_then (g, u) rest).0) (rounds more) size names v
              (omega (arith, all)) short failed
              (λ names' len short'.
                elements_cases P more n (some size) names' u lt e
                  (small, omega (arith, all), omega (arith, all)) short' failed made))
