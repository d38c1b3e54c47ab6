-- ===== src/Server/ReplaceViews.antt =====
-- What one object written anew, with handlers that it may have got, does to the abstract registry.
use rbuscore.Base.{
  ◌+◌, ◌≡◌, ◌≢◌, ◌∙◌, subst, arith, length, length-append, strcmp_eq_refl, refl, ap, inl, inr, true,
  Bool-cases, none, some, List, [], ◌∷◌, Name, strcmp_eq, strcmp_eq→eq, if◌then◌else◌,
}
use rbuscore.Rt.Vector.{find_first}
use rbuscore.Keyed.{mapped, named, find_first-append_new}
use rbuscore.Core.Types.{Object}
use rbuscore.Core.Env.{Env}
use rbuscore.Server.Valid.{method_key, event_key, object_of, method_in, method_of, event_of}
use rbuscore.Server.Replace.{replace, object_of-replace, method_of-replace, event_of-replace}
use rbuscore.Core.Types.{RbusError, method_subscribe, method_unsubscribe}
use rbuscore.Server.Outcome.{Outcome, outcome-Grows}
use rbuscore.Server.Handlers.{
  Grows, with_handler, with_handlers, with_handler_method, with_handler_found,
}
use rbuscore.Server.Registry.{KeepsMethods, Gains, more, both_more, is_there, standing_at, view}

module _ (env : Env) (n : Name) where
  one_more :
      (method : Name) (o : Object)
      → standing_at (some (with_handler env n method o)) ≡ mapped more (standing_at (some o))
  one_more method o =
      ap (λ k. some (o.process_event_subscriptions, k))
        (length-append o.methods (with_handler_method env n method ∷ []))

  two_more :
      (o : Object)
      → standing_at (some (with_handlers env n o)) ≡ mapped both_more (standing_at (some o))
  two_more o =
      let once = with_handler env n method_subscribe o in
      let count : length (with_handlers env n o).methods ≡ length o.methods + 2 = omega (
        arith,
        length-append o.methods (with_handler_method env n method_subscribe ∷ []),
        length-append once.methods (with_handler_method env n method_unsubscribe ∷ []),
      ) in
      ap (λ k. some (true, k)) count

  with_handlers_unsubscribe :
      (o : Object)
      → method_in method_unsubscribe (with_handler env n method_subscribe o) ≡ none
      → method_in method_unsubscribe (with_handlers env n o) ≢ none
  with_handlers_unsubscribe o fresh =
      rw
        (
          find_first-append_new method_key method_unsubscribe
              (with_handler env n method_subscribe o).methods
              (with_handler_method env n method_unsubscribe) fresh,
          strcmp_eq_refl method_unsubscribe,
        )
        (λ e. cc)

  with_handlers_subscribe :
      (o : Object)
      → method_in method_subscribe o ≡ none
      → method_in method_unsubscribe (with_handler env n method_subscribe o) ≡ none
      → method_in method_subscribe (with_handlers env n o) ≢ none
  unfolding strcmp_eq
  with_handlers_subscribe o first fresh =
      rw
        (find_first-append_new method_key method_subscribe
          (with_handler env n method_subscribe o).methods
          (with_handler_method env n method_unsubscribe) fresh)
        (with_handler_found env n o first)

-- One object written anew, with the methods that it had and those that it may get.
module _ (env : Env) (n : Name) (os : List Object) (o o' : Object) (found : object_of n os ≡ some o)
    (same : o'.name ≡ o.name) where
  pub has-replace :
      (x : Name) → is_there (object_of x (replace n o' os)) ≡ is_there (object_of x os)
  has-replace x = rw (object_of-replace n os o found o' same x) (elim (Bool-cases (strcmp_eq n x)) [
    | inr other ↦ rw other
    | inl this ↦ rw (this, ← strcmp_eq→eq n x this, found)
  ])

  pub methods-replace :
      ((y : Name) → Grows env n y (method_in y o) (method_in y o'))
      → KeepsMethods n (view os) (view (replace n o' os))
  methods-replace grows x y =
      rw (method_of-replace n os o found o' same x y) (elim (Bool-cases (strcmp_eq n x)) [
        | inr other ↦ rw other (inl refl)
        | inl this ↦
            rw (this, ← strcmp_eq→eq n x this, found)
              (elim (grows y) [
                | inl kept ↦ inl kept
                | inr (fresh, handler, now) ↦ inr (refl, handler, fresh, now)
              ])
      ])

  pub methods_kept-replace :
      ((y : Name) → method_in y o' ≡ method_in y o)
      → (x y : Name) → method_of x y (replace n o' os) ≡ method_of x y os
  methods_kept-replace methods x y =
      rw (method_of-replace n os o found o' same x y) (elim (Bool-cases (strcmp_eq n x)) [
        | inr other ↦ rw other
        | inl this ↦ rw (this, ← strcmp_eq→eq n x this, found) (methods y)
      ])

  pub standing-replace :
      (x : Name)
      → standing_at (object_of x (replace n o' os))
        ≡ (if strcmp_eq n x then standing_at (some o') else standing_at (object_of x os))
  standing-replace x =
      rw (object_of-replace n os o found o' same x)
        (elim (Bool-cases (strcmp_eq n x)) [ inr other ↦ rw other | inl this ↦ rw this ])

  pub standing_kept :
      standing_at (some o') ≡ standing_at (some o)
      → (x : Name) → standing_at (object_of x (replace n o' os)) ≡ standing_at (object_of x os)
  standing_kept kept x =
      rw (object_of-replace n os o found o' same x) (elim (Bool-cases (strcmp_eq n x)) [
        | inr other ↦ rw other
        | inl this ↦ rw (this, ← strcmp_eq→eq n x this, found) kept
      ])

  own_method : (y : Name) → method_in y o' ≢ none → (view (replace n o' os)).method n y ≢ none
  own_method y there = rw (method_of-replace n os o found o' same n y) (rw (strcmp_eq_refl n) there)

  -- What the outcome of ensure_handlers does to the methods.
  pub replace-Gains :
      (o1 : Object) {ret : RbusError}
      → ((y : Name) → method_in y o1 ≡ method_in y o)
      → standing_at (some o1) ≡ standing_at (some o)
      → Outcome env n o1 ret o'
      → Gains n ret (view os) (view (replace n o' os)) (standing_at (some o'))
  replace-Gains o1 methods standing out =
      let grown = methods-replace λ y.
        subst (λ m. Grows env n y m (method_in y o')) (methods y) (outcome-Grows env n out y) in
      let before : standing_at (some o1) ≡ (view os).standing n = rw found standing in
      elim out [
        | inl (good, ready, now) ↦ inl (
          methods_kept-replace (λ y. ap (method_in y) now ∙ methods y),
          ap (λ k. standing_at (some k)) now ∙ before,
        )
        | inr (inl (bad, can, full, now)) ↦ inl (
          methods_kept-replace (λ y. ap (method_in y) now ∙ methods y),
          ap (λ k. standing_at (some k)) now ∙ before,
        )
        | inr (inr (inl (bad, can, room, now))) ↦ inr (
          grown,
          own_method method_subscribe (rw now (with_handler_found env n o1 room.2)),
          inl (
            bad,
            ap (λ k. standing_at (some k)) now
                ∙ one_more env n method_subscribe o1
                ∙ ap (mapped more) before,
          ),
        )
        | inr (inr (inr (good, room, room', now))) ↦ inr (
          grown,
          own_method method_subscribe (rw now (with_handlers_subscribe env n o1 room.2 room'.2)),
          inr (
            good,
            own_method method_unsubscribe (rw now (with_handlers_unsubscribe env n o1 room'.2)),
            ap (λ k. standing_at (some k)) now ∙ two_more env n o1 ∙ ap (mapped both_more) before,
          ),
        )
      ]

  pub events-replace :
      o'.subscriptions ≡ o.subscriptions
      → (x y : Name) → event_of x y (replace n o' os) ≡ event_of x y os
  events-replace events x y =
      rw (event_of-replace n os o found o' same x y) (elim (Bool-cases (strcmp_eq n x)) [
        | inr other ↦ rw other
        | inl this ↦
            rw (this, ← strcmp_eq→eq n x this, found) (ap (find_first (named event_key y)) events)
      ])
