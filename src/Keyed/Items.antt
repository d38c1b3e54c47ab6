-- ===== src/Keyed/Items.antt =====
-- The first item of a list that passes a test: looking it up, changing it and removing it.
use rbuscore.Base.{
  ◌≤◌, ◌≡◌, refl, ap, ◌⊎◌, inl, inr, Bool, true, false, Option, none, some, List, [], ◌∷◌, ◌++◌,
  arith, if◌then◌else◌, Bool-cases, All, update_first, length,
}
use rbuscore.Rt.Vector.{find_first, remove_first}

module _ {A : Type 0} where
  pub All-append_one {κ} :
      (P : A → Type κ) (xs : List A) (x : A) → All P xs → P x → All P (xs ++ (x ∷ []))
  All-append_one P [] x h p = (p, tt)
  All-append_one P (y ∷ xs) x h p = (h.0, All-append_one P xs x h.1 p)

  pub All-remove_first {κ} :
      (P : A → Type κ) (p : A → Bool) (xs : List A) → All P xs → All P (remove_first p xs)
  All-remove_first P p [] h = tt
  All-remove_first P p (x ∷ xs) h = elim (Bool-cases (p x)) [
    | inl e ↦ rw (e, remove_first) h.1
    | inr e ↦ rw (e, remove_first) (h.0, All-remove_first P p xs h.1)
  ]

  pub find_first-cons :
      (p : A → Bool) (y : A) (xs : List A) (x : A)
      → find_first p (y ∷ xs) ≡ some x
      → ((p y ≡ true) × (y ≡ x)) ⊎ ((p y ≡ false) × (find_first p xs ≡ some x))
  find_first-cons p y xs x e = ground arith

  -- A change of the item that was found keeps a property of all items.
  pub All-update_first {κ} :
      (P : A → Type κ) (p : A → Bool) (f : A → A) (xs : List A) (x : A)
      → find_first p xs ≡ some x
      → P (f x)
      → All P xs
      → All P (update_first p f xs)
  All-update_first P p f [] x e q h = tt
  All-update_first P p f (y ∷ xs) x e q h = elim (find_first-cons p y xs x e) [
    | inl (t, same) ↦ rw (t, update_first) (rw same q, h.1)
    | inr (t, later) ↦ rw (t, update_first) (h.0, All-update_first P p f xs x later q h.1)
  ]

  pub update_first-All {κ} :
      (P : A → Type κ) (p : A → Bool) (f : A → A) (xs : List A)
      → ((x : A) → P x → P (f x))
      → All P xs
      → All P (update_first p f xs)
  update_first-All P p f [] k h = tt
  update_first-All P p f (x ∷ xs) k h = elim (Bool-cases (p x)) [
    | inl e ↦ rw (e, update_first) (k x h.0, h.1)
    | inr e ↦ rw (e, update_first) (h.0, update_first-All P p f xs k h.1)
  ]

  pub All-find_first {κ} :
      (P : A → Type κ) (p : A → Bool) (xs : List A) (x : A)
      → find_first p xs ≡ some x
      → All P xs
      → P x
  All-find_first P p [] x e h = cc
  All-find_first P p (y ∷ xs) x e h = elim (find_first-cons p y xs x e) [
    | inl (t, same) ↦ rw same at h.0
    | inr (t, later) ↦ All-find_first P p xs x later h.1
  ]

  pub find_first_passes :
      (p : A → Bool) (xs : List A) (x : A) → find_first p xs ≡ some x → p x ≡ true
  find_first_passes p [] x e = cc
  find_first_passes p (y ∷ xs) x e = ground (arith, find_first_passes p xs x)

  pub find_first-append_one :
      (p : A → Bool) (xs : List A) (x : A)
      → find_first p (xs ++ (x ∷ []))
        ≡ (elim (find_first p xs) [ some y ↦ some y | none ↦ if p x then some x else none ])
  find_first-append_one p [] x = refl
  find_first-append_one p (y ∷ xs) x = ground (arith, find_first-append_one p xs x)

  pub length-remove_first : (p : A → Bool) (xs : List A) → length (remove_first p xs) ≤ length xs
  length-remove_first p [] = omega arith
  length-remove_first p (x ∷ xs) = ground (arith, length-remove_first p xs)

  -- Two changes that agree on the item that was found have one result.
  pub update_first_agree :
      (p : A → Bool) (f g : A → A) (xs : List A) (x : A)
      → find_first p xs ≡ some x
      → f x ≡ g x
      → update_first p f xs ≡ update_first p g xs
  update_first_agree p f g [] x e same = refl
  update_first_agree p f g (y ∷ xs) x e same = elim (find_first-cons p y xs x e) [
    | inl (hit, there) ↦ rw (hit, there, same)
    | inr (miss, later) ↦ rw miss (ap (◌∷◌ y) (update_first_agree p f g xs x later same))
  ]

  -- A change of the item that was found, and a change back.
  pub update_first-update_first :
      (p : A → Bool) (f g : A → A) (xs : List A)
      → ((x : A) → p (f x) ≡ p x)
      → ((x : A) → find_first p xs ≡ some x → g (f x) ≡ x)
      → update_first p g (update_first p f xs) ≡ xs
  update_first-update_first p f g [] k e = refl
  update_first-update_first p f g (x ∷ xs) k e = elim (Bool-cases (p x)) [
    | inl t ↦ rw (t, update_first) (rw (k x, t) (rw (e x (rw t))))
    | inr t ↦
        rw (t, update_first)
          (rw t (ap (◌∷◌ x) (update_first-update_first p f g xs k (λ y q. e y (rw t q)))))
  ]

  -- Two changes of the first item that passes a test are one.
  pub update_first_twice :
      (p : A → Bool) (f g : A → A) (xs : List A)
      → ((x : A) → p (f x) ≡ p x)
      → update_first p g (update_first p f xs) ≡ update_first p (λ x. g (f x)) xs
  update_first_twice p f g [] k = refl
  update_first_twice p f g (x ∷ xs) k = elim (Bool-cases (p x)) [
    | inl t ↦ rw (t, update_first) (rw (k x, t))
    | inr t ↦ rw (t, update_first) (rw t (ap (◌∷◌ x) (update_first_twice p f g xs k)))
  ]

  abbrev pub mapped : (A → A) → Option A → Option A
  mapped f none = none
  mapped f (some x) = some (f x)
