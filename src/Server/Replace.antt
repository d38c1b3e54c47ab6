-- ===== src/Server/Replace.antt =====
-- Writing one object of a well-formed registry, by what can be found afterwards.
use rbuscore.Base.{
  ◌≡◌, refl, ap, subst, sym, ◌∙◌, Bool, Bool-cases, inl, inr, some, List, [], ◌∷◌, if◌then◌else◌,
  update_first, Name, strcmp_eq, strcmp_eq→eq, strcmp_eq_refl,
}
use rbuscore.Rt.Vector.{find_first}
use rbuscore.Keyed.{
  named, find_first_passes, find_first-cons, update_first_agree, find_first-update_first,
  update_first_twice,
}
use rbuscore.Core.Types.{Object}
use rbuscore.Core.Env.{Env}
use rbuscore.Server.Objects.{object_matches}
use rbuscore.Server.Valid.{
  ValidObject, ValidRegistry, object_key, object_of, method_in, method_of, event_in, event_of,
  objects_updated, update-ValidRegistry,
}

-- The first object of the name replaced by another one, which takes its name.
abbrev pub replace : Name → Object → List Object → List Object
replace n o = update_first (named object_key n) λ x. record o { name = x.name }

unchanged :
    (p : Object → Bool) (os : List Object) {o : Object}
    → find_first p os ≡ some o
    → update_first p (λ x. record o { name = x.name }) os ≡ os
unchanged p [] found = refl
unchanged p (x ∷ os) {o} found = elim (find_first-cons p x os o found) [
  | inl (hit, same) ↦ rw (hit, same)
  | inr (miss, later) ↦ rw miss (ap (◌∷◌ x) (unchanged p os later))
]

-- A later write wins.
pub replace-replace :
    (n : Name) (o o' : Object) (os : List Object) → replace n o' (replace n o os) ≡ replace n o' os
replace-replace n o o' os =
    update_first_twice (named object_key n) (λ x. record o { name = x.name })
      (λ x. record o' { name = x.name }) os (λ x. refl)

module _ (n : Name) (os : List Object) (o : Object) (found : object_of n os ≡ some o) where
  pub object_name_lem : o.name ≡ n
  object_name_lem = strcmp_eq→eq o.name n (find_first_passes (named object_key n) os o found)

  -- A change of the object that was found writes one object.
  pub update-replace :
      (env : Env) (f : Object → Object)
      → ValidRegistry env os
      → (f o).name ≡ o.name
      → update_first (object_matches env n) f os ≡ replace n (f o) os
  update-replace env f h same =
      objects_updated env n os h f
      ∙ update_first_agree (named object_key n) f (λ x. record (f o) { name = x.name }) os o found
          (ap (λ k. record (f o) { name = k }) same)

  -- Writing back what was found changes nothing.
  pub replace_self : replace n o os ≡ os
  replace_self = unchanged (named object_key n) os found

  module _ (o' : Object) (same : o'.name ≡ o.name) where
    pub object_of-replace :
        (x : Name)
        → object_of x (replace n o' os) ≡ (if strcmp_eq n x then some o' else object_of x os)
    object_of-replace x =
        find_first-update_first object_key x n (λ k. record o' { name = k.name }) os (λ k. refl)
        ∙ elim (Bool-cases (strcmp_eq n x)) [
          | inr other ↦ rw other
          | inl this ↦
              rw (this, ← strcmp_eq→eq n x this, found)
                (ap (λ k. some (record o' { name = k })) (sym same))
        ]

    pub method_of-replace :
        (x y : Name)
        → method_of x y (replace n o' os)
          ≡ (if strcmp_eq n x then method_in y o' else method_of x y os)
    method_of-replace x y =
        rw (object_of-replace x) (elim (Bool-cases (strcmp_eq n x)) [ inl e ↦ rw e | inr e ↦ rw e ])

    pub event_of-replace :
        (x y : Name)
        → event_of x y (replace n o' os)
          ≡ (if strcmp_eq n x then event_in y o' else event_of x y os)
    event_of-replace x y =
        rw (object_of-replace x) (elim (Bool-cases (strcmp_eq n x)) [ inl e ↦ rw e | inr e ↦ rw e ])

    pub replace-ValidRegistry :
        (env : Env)
        → ValidRegistry env os
        → ValidObject env o'
        → ValidRegistry env (replace n o' os)
    replace-ValidRegistry env h v =
        update-ValidRegistry env n os h (λ x. record o' { name = x.name }) o found (λ x. refl)
          (subst (ValidObject env) (ap (λ k. record o' { name = k }) same) v)

    -- The registry that holds the new object, under whatever name it stands.
    pub stored :
        (env : Env) (os' : List Object)
        → ValidRegistry env os
        → ValidObject env o'
        → os' ≡ replace n o' os
        → ValidRegistry env os' × (object_of n os' ≡ some o')
    stored env os' h v now =
        rw now (replace-ValidRegistry env h v, rw (object_of-replace n, strcmp_eq_refl n))
