-- ===== src/Discovery/ArrayLaws.antt =====
-- What the discovery functions hand out, by the router's answer.
use rbuscore.Base.{
  ℕ, zero, suc, ◌+◌, ◌-◌, ◌*◌, ◌/◌, ◌^◌, ◌≤◌, ◌<◌, ◌≡◌, refl, subst, sym, ap, ◌∙◌, false,
  Bool-cases, Option-cases, inl, inr, Option, none, some, List, [], ◌∷◌, map, append-nil, arith,
  length, length-take_le, take, get_elem?, ltb, All, Name,
}
use rbuscore.Rt.Router.{Router, IsRouter, Roomy, Carries}
use rbuscore.Core.Types.{RbusError, success, error_general, error_insufficient_memory}
use rbuscore.Core.State.{Bus}
use rbuscore.Core.Env.{Env}
use rbuscore.Discovery.Arrays.{
  Entry, Array, Found, bytes, rounds, filled, prepend, copy_items, fill_array,
}

-- The copy that strndup makes of a name.
abbrev pub copied : Env → Name → Name
copied env = take env.max_object_name_length

-- All that a discovery can hand out: success, the number, and the names.
abbrev pub handed : List Name → Found
handed names = record {
  ret = success;
  count = some (length names);
  array = some (Array.entries (map Entry.text names));
}

pub length-map : (f : Name → Name) (names : List Name) → length (map f names) ≡ length names
length-map f [] = refl
length-map f (n ∷ names) = ap suc (length-map f names)

filled_all : (names : List Name) → filled names (length names) ≡ map Entry.text names
filled_all names =
    let e : length names - length names ≡ 0 = omega arith in
    rw e (append-nil (map Entry.text names))

-- An array of n entries takes eight bytes each, and as many are in it.
pub bytes_lem : (n : ℕ) → n < 2 ^ 31 → (bytes n ≡ n * 8) × (bytes n / 8 ≡ n) × (rounds n ≡ n)
bytes_lem n lt = ground arith

module _ (env : Env) (r : Router env) (msg : r.Msg) where
  copy_items_lem :
      (room : Roomy env r) (names : List Name) (i : ℕ) (w : env.World)
      → ((j : ℕ) → r.get_string_item msg r.discovery_items (i + j) ≡ get_elem? names j)
      → (copy_items env r msg (length names) i w).0 ≡ some (map (copied env) names)
  unfolding copy_items
  copy_items_lem room [] i w at = refl
  copy_items_lem room (n ∷ names) i w at =
      let here : r.get_string_item msg r.discovery_items i ≡ some n =
        ap (r.get_string_item msg r.discovery_items) (omega arith) ∙ at 0 in
      let later : (j : ℕ)
          → r.get_string_item msg r.discovery_items (i + 1 + j) ≡ get_elem? names j =
        λ j. ap (r.get_string_item msg r.discovery_items) (omega arith) ∙ at (suc j) in
      let w' = (r.strndup n env.max_object_name_length w).1 in
      rw (copy_items, here)
        (rw (room.strndup_lem n env.max_object_name_length w)
          (rw (copy_items_lem room names (i + 1) w' later)))

  at_zero :
      (names : List Name)
      → Carries env r msg names
      → (j : ℕ) → r.get_string_item msg r.discovery_items (0 + j) ≡ get_elem? names j
  at_zero names carried j =
      ap (r.get_string_item msg r.discovery_items) (omega arith) ∙ carried.listed j

  -- With memory at hand the array holds a copy of each name of the answer.
  pub fill_lem :
      (room : Roomy env r) (names : List Name) (s : Bus env.World)
      → Carries env r msg names
      → length names < 2 ^ 31
      → (fill_array env r msg (length names) (length names) s).0
        ≡ some (success, some (Array.entries (map Entry.text (map (copied env) names))))
  unfolding fill_array
  fill_lem room names s carried lt =
      let (size, entries, loops) = bytes_lem (length names) lt in
      let fits : ltb (bytes (length names)) (bytes (length names)) ≡ false = ground arith in
      let n = bytes (length names) in
      let whole : filled (map (copied env) names) (n / 8)
          ≡ map Entry.text (map (copied env) names) =
        ap (filled (map (copied env) names)) (entries ∙ sym (length-map (copied env) names))
        ∙ filled_all (map (copied env) names) in
      rw (room.try_malloc_lem n s.world (omega (arith, size)), fits, loops)
        (rw (copy_items_lem room names 0 (r.try_malloc n s.world).1 (at_zero names carried))
          (ap (λ es. some (success, some (Array.entries es))) whole))

  -- Copies that are made are as many as were asked for, and none is too long.
  copy_cases {κ} :
      (ok : IsRouter env r) (P : Option (List Name) → Type κ) (n i : ℕ) (w : env.World)
      → P none
      → ((names : List Name)
          → length names ≡ n
          → All (λ x. length x ≤ env.max_object_name_length) names
          → P (some names))
      → P (copy_items env r msg n i w).0
  unfolding copy_items
  copy_cases ok P zero i w failed made = made [] refl tt
  copy_cases ok P (suc n) i w failed made =
      elim (Option-cases (r.get_string_item msg r.discovery_items i)) [
        | inl missing ↦ rw (copy_items, missing) failed
        | inr (value, there) ↦
            let copy = r.strndup value env.max_object_name_length w in
            rw (copy_items, there)
              (elim (ok.strndup_lem value env.max_object_name_length w) [
                | inl null ↦ rw null failed
                | inr copied ↦ rw copied (
                    copy_cases ok (λ o. P (prepend (take env.max_object_name_length value) o)) n
                      (i + 1) copy.1 failed
                      (λ names e short.
                        made (take env.max_object_name_length value ∷ names) (ap suc e)
                          (length-take_le env.max_object_name_length value, short)))
              ])
      ]

  fill_cases_small {κ} :
      (ok : IsRouter env r) (P : Option (RbusError × Option Array) → Type κ) (n : ℕ)
      (s : Bus env.World)
      → n < 2 ^ 31
      → P (some (error_insufficient_memory, none))
      → P (some (error_general, some Array.released))
      → ((names : List Name)
          → length names ≡ n
          → All (λ x. length x ≤ env.max_object_name_length) names
          → P (some (success, some (Array.entries (map Entry.text names)))))
      → P (fill_array env r msg n n s).0
  unfolding fill_array
  fill_cases_small ok P n s lt refused failed made =
      let (size, entries, loops) = bytes_lem n lt in
      let room : ltb (bytes n) (bytes n) ≡ false = ground arith in
      elim (Bool-cases (r.try_malloc (bytes n) s.world).0) [
        | inr none_left ↦ rw none_left refused
        | inl there ↦
            rw (there, room, loops)
              (copy_cases ok
                (λ names. P (elim names [
                  | none ↦ some (error_general, some Array.released)
                  | some names ↦ some (success, some (Array.entries (filled names (bytes n / 8))))
                ]))
                n 0 (r.try_malloc (bytes n) s.world).1 failed
                λ names e short.
                  let whole : filled names (bytes n / 8) ≡ map Entry.text names =
                    ap (filled names) (entries ∙ sym e) ∙ filled_all names in
                  subst (λ es. P (some (success, some (Array.entries es)))) (sym whole)
                    (made names e short))
      ]

  -- The ends of the block that fills an array of the size of its answer.
  pub fill_cases {κ} :
      (ok : IsRouter env r) (P : Option (RbusError × Option Array) → Type κ) (n : ℕ)
      (s : Bus env.World)
      → n < 2 ^ 32
      → P (some (error_insufficient_memory, none))
      → P (some (error_general, some Array.released))
      → ((names : List Name)
          → length names ≡ n
          → All (λ x. length x ≤ env.max_object_name_length) names
          → P (some (success, some (Array.entries (map Entry.text names)))))
      → P (fill_array env r msg n n s).0
  unfolding fill_array
  fill_cases ok P n s lt refused failed made = elim (Bool-cases (ltb n (2 ^ 31))) [
    | inl small ↦ fill_cases_small ok P n s (ground arith) refused failed made
    | inr negative ↦
        let huge : 2 ^ 63 ≤ bytes n = ground arith in
        rw (ok.try_malloc_huge (bytes n) s.world huge) refused
  ]

  -- An answer without its first item leaves a released array.
  pub fill_broken :
      (n : ℕ) (s : Bus env.World)
      → Roomy env r
      → r.get_string_item msg r.discovery_items 0 ≡ none
      → suc n < 2 ^ 31
      → (fill_array env r msg (suc n) (suc n) s).0 ≡ some (error_general, some Array.released)
  unfolding fill_array copy_items
  fill_broken n s room broken lt =
      let (size, entries, loops) = bytes_lem (suc n) lt in
      let fits : ltb (bytes (suc n)) (bytes (suc n)) ≡ false = ground arith in
      rw (room.try_malloc_lem (bytes (suc n)) s.world (omega (arith, size)), fits, loops)
        (rw (copy_items, broken))
