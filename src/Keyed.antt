-- ===== src/Keyed.antt =====
-- Lists of items that are found by a name: the vectors of objects, methods and events. The source
-- compares names up to a limit; on stored names below the limit this is equality, and the first item
-- of a name is the only one.
mod Items
use rbuscore.Base.{
  ℕ, ◌<◌, ◌≡◌, refl, ap, subst, inl, inr, Bool, false, none, some, List, [], ◌∷◌, ◌++◌, arith,
  if◌then◌else◌, Bool-cases, All, update_first, Name, strlen, strncmp_eq, strcmp_eq,
  strncmp_eq-strcmp_eq, strcmp_eq_refl, strcmp_eq→eq, strcmp_eq_comm, strcmp_eq_iff,
}
use rbuscore.Rt.Vector.{find_first, remove_first}
pub use Items.*

module _ {A : Type 0} (key : A → Name) where
  -- The item has the name.
  abbrev pub named : Name → A → Bool
  named n x = strcmp_eq (key x) n

  -- No two items have one name.
  abbrev pub Distinct : List A → Type 0
  Distinct [] = Unit
  Distinct (x ∷ xs) = All (λ y. named (key x) y ≡ false) xs × Distinct xs

  abbrev pub Bounded : ℕ → List A → Type 0
  Bounded n = All λ x. strlen (key x) < n

  pub find_first-Bounded :
      (l : ℕ) (n : Name) (xs : List A)
      → Bounded l xs
      → find_first (λ x. strncmp_eq l (key x) n) xs ≡ find_first (named n) xs
  find_first-Bounded l n [] h = refl
  find_first-Bounded l n (x ∷ xs) h =
      rw (strncmp_eq-strcmp_eq l (key x) n h.0, find_first-Bounded l n xs h.1)

  pub remove_first-Bounded :
      (l : ℕ) (n : Name) (xs : List A)
      → Bounded l xs
      → remove_first (λ x. strncmp_eq l (key x) n) xs ≡ remove_first (named n) xs
  remove_first-Bounded l n [] h = refl
  remove_first-Bounded l n (x ∷ xs) h =
      rw (strncmp_eq-strcmp_eq l (key x) n h.0, remove_first-Bounded l n xs h.1)

  pub update_first-Bounded :
      (l : ℕ) (n : Name) (f : A → A) (xs : List A)
      → Bounded l xs
      → update_first (λ x. strncmp_eq l (key x) n) f xs ≡ update_first (named n) f xs
  update_first-Bounded l n f [] h = refl
  update_first-Bounded l n f (x ∷ xs) h =
      rw (strncmp_eq-strcmp_eq l (key x) n h.0, update_first-Bounded l n f xs h.1)

  -- A change that keeps names shows under its own name, and under no other.
  pub find_first-update_first :
      (m n : Name) (f : A → A) (xs : List A)
      → ((x : A) → key (f x) ≡ key x)
      → find_first (named m) (update_first (named n) f xs)
        ≡ (if strcmp_eq n m then mapped f (find_first (named m) xs) else find_first (named m) xs)
  find_first-update_first m n f [] k = ground arith
  find_first-update_first m n f (x ∷ xs) k = ground (
    arith,
    k x,
    strcmp_eq_iff (key x) n,
    strcmp_eq_iff (key x) m,
    strcmp_eq_iff n m,
    find_first-update_first m n f xs k,
  )

  pub find_first-none :
      (n : Name) (xs : List A) → All (λ y. named n y ≡ false) xs → find_first (named n) xs ≡ none
  find_first-none n [] h = refl
  find_first-none n (x ∷ xs) h = rw (h.0, find_first) (find_first-none n xs h.1)

  -- Nothing is left under a name that is removed, and other names keep theirs.
  pub find_first-remove_first :
      (m n : Name) (xs : List A)
      → Distinct xs
      → find_first (named m) (remove_first (named n) xs)
        ≡ (if strcmp_eq n m then none else find_first (named m) xs)
  find_first-remove_first m n [] d = ground arith
  find_first-remove_first m n (x ∷ xs) d = elim (Bool-cases (strcmp_eq (key x) n)) [
    | inl e ↦
        rw (e, remove_first)
          (rw (← strcmp_eq→eq (key x) n e) (elim (Bool-cases (strcmp_eq (key x) m)) [
            | inl t ↦ rw t (rw (← strcmp_eq→eq (key x) m t) (find_first-none (key x) xs d.0))
            | inr t ↦ rw t
          ]))
    | inr e ↦
        rw (e, remove_first)
          (ground (
            arith,
            strcmp_eq_iff (key x) n,
            strcmp_eq_iff (key x) m,
            strcmp_eq_iff n m,
            find_first-remove_first m n xs d.1,
          ))
  ]

  -- An item under a new name is found under it, and the others under theirs.
  pub find_first-append_new :
      (m : Name) (xs : List A) (x : A)
      → find_first (named (key x)) xs ≡ none
      → find_first (named m) (xs ++ (x ∷ []))
        ≡ (if strcmp_eq (key x) m then some x else find_first (named m) xs)
  find_first-append_new m xs x fresh =
      rw (find_first-append_one (named m) xs x) (elim (Bool-cases (strcmp_eq (key x) m)) [
        | inl same ↦
            let absent : find_first (named m) xs ≡ none =
              subst (λ n. find_first (named n) xs ≡ none) (strcmp_eq→eq (key x) m same) fresh in
            rw (absent, same)
        | inr other ↦ rw other (ground arith)
      ])

  -- Removing what was appended under a new name gives the list back.
  pub remove_first-append_new :
      (xs : List A) (x : A)
      → find_first (named (key x)) xs ≡ none
      → remove_first (named (key x)) (xs ++ (x ∷ [])) ≡ xs
  remove_first-append_new [] x fresh = rw (strcmp_eq_refl (key x))
  remove_first-append_new (y ∷ xs) x fresh = elim (Bool-cases (strcmp_eq (key y) (key x))) [
    | inl same ↦ ground arith
    | inr other ↦ rw other (ap (◌∷◌ y) (remove_first-append_new xs x (ground arith)))
  ]

  pub Distinct-append_one :
      (xs : List A) (x : A)
      → Distinct xs
      → find_first (named (key x)) xs ≡ none
      → Distinct (xs ++ (x ∷ []))
  Distinct-append_one [] x d e = (tt, tt)
  Distinct-append_one (y ∷ xs) x d e = (
    All-append_one _ xs x d.0 (ground (arith, strcmp_eq_comm (key x) (key y))),
    Distinct-append_one xs x d.1 (ground arith),
  )

  pub Distinct-remove_first :
      (p : A → Bool) (xs : List A) → Distinct xs → Distinct (remove_first p xs)
  Distinct-remove_first p [] d = tt
  Distinct-remove_first p (x ∷ xs) d = elim (Bool-cases (p x)) [
    | inl e ↦ rw (e, remove_first) d.1
    | inr e ↦ rw (e, remove_first) (All-remove_first _ p xs d.0, Distinct-remove_first p xs d.1)
  ]

  pub Distinct-update_first :
      (p : A → Bool) (f : A → A) (xs : List A)
      → ((x : A) → key (f x) ≡ key x)
      → Distinct xs
      → Distinct (update_first p f xs)
  Distinct-update_first p f [] k d = tt
  Distinct-update_first p f (x ∷ xs) k d = elim (Bool-cases (p x)) [
    | inl e ↦ rw (e, update_first) (rw (k x) d.0, d.1)
    | inr e ↦
        rw (e, update_first)
          (update_first-All _ p f xs (λ y h. rw (k y) h) d.0, Distinct-update_first p f xs k d.1)
  ]
