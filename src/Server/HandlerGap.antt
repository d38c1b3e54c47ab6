-- ===== src/Server/HandlerGap.antt =====
-- rbus_registerEvent on an object with room for one of the two handlers.
use rbuscore.Base.{
  ℕ, ◌+◌, ◌≡◌, ◌≢◌, inl, inr, ap, sym, subst, ◌∙◌, false, Option, none, some, [], ◌∷◌, Option-cases,
  arith, length, length-append, Name, strcmp_eq_refl,
}
use mathlib.Core.Option.{some-injective}
use rbuscore.Rt.Vector.{Vector, IsVector, list_vector, list_vector-IsVector, vector-eq}
use rbuscore.Core.Types.{
  RbusError, success, max_supported_methods, method_subscribe, method_unsubscribe, Object,
}
use rbuscore.Core.State.{Bus}
use rbuscore.Core.Env.{Env}
use rbuscore.Server.Events.{or_default}
use rbuscore.Server.Registration.{register_event}
use rbuscore.Server.Valid.{ValidRegistry, object_of, method_in, method_of, event_in}
use rbuscore.Server.Replace.{replace, object_of-replace, method_of-replace}
use rbuscore.Server.Handlers.{
  with_handler, with_handler_method, with_handler_found, with_handler_other,
}
use rbuscore.Server.Outcome.{Outcome}
use rbuscore.Server.RegistrationSteps.{with_event, with_event_name, Reaches, register_event_cases}
use rbuscore.Server.RegistrationLaws.{method_in-with_event, register_event-ValidRegistry}

-- The object has room for one method, and neither handler.
abbrev pub HasGap : Object → Type 0
HasGap o =
    (o.process_event_subscriptions ≡ false)
    × (method_in method_subscribe o ≡ none)
    × (method_in method_unsubscribe o ≡ none)
    × (length o.methods + 1 ≡ max_supported_methods)

-- With the first handler on it, an object looks as if it took subscription requests.
gap_after :
    (env : Env) (name : Name) (o : Object)
    → HasGap o
    → (method_in method_subscribe (with_handler env name method_subscribe o) ≢ none)
      × (method_in method_unsubscribe (with_handler env name method_subscribe o) ≡ none)
gap_after env name o gap =
    (with_handler_found env name o gap.1, with_handler_other env name o gap.1 ∙ gap.2)

-- The only end for an object with a gap.
gap_outcome :
    (env : Env) (name : Name) (o o' : Object) (ret : RbusError)
    → HasGap o
    → Outcome env name o ret o'
    → (ret ≢ success) × (o' ≡ with_handler env name method_subscribe o)
gap_outcome env name o o' ret gap (inl (good, ready, same)) =
    absurd (elim ready [ inl set ↦ cc (gap.0) | inr there ↦ there gap.1 ])
gap_outcome env name o o' ret gap (inr (inl (bad, can, full, same))) =
    absurd (full (omega arith, omega (arith, gap.3), gap.1))
gap_outcome env name o o' ret gap (inr (inr (inl (bad, can, room, same)))) = (bad, same)
gap_outcome env name o o' ret gap (inr (inr (inr (good, room, room', same)))) = absurd (
    omega (
      arith,
      room'.1,
      gap.3,
      length-append o.methods (with_handler_method env name method_subscribe ∷ []),
    ))

-- The only end for an object that looks ready.
ready_outcome :
    (env : Env) (name : Name) (o o' : Object) (ret : RbusError)
    → method_in method_subscribe o ≢ none
    → Outcome env name o ret o'
    → (ret ≡ success) × (o' ≡ o)
ready_outcome env name o o' ret there (inl (good, ready, same)) = (good, same)
ready_outcome env name o o' ret there (inr (inl (bad, can, full, same))) =
    absurd (can (inl (inr there)))
ready_outcome env name o o' ret there (inr (inr (inl (bad, can, room, same)))) =
    absurd (there room.2)
ready_outcome env name o o' ret there (inr (inr (inr (good, room, room', same)))) =
    absurd (there room.2)

with_event_gap :
    (event : Name) (callback : Option ℕ) (user_data : ℕ) (o : Object)
    → HasGap o
    → HasGap (with_event event callback user_data o)
with_event_gap event cb ud o gap = elim (Option-cases (event_in event o)) [
  | inl fresh ↦ rw fresh gap
  | inr (e, there) ↦ rw there gap
]

module _ (env : Env) (object_name event_name : Option Name) (callback : Option ℕ) (user_data : ℕ)
    (name : Name) (o : Object) (s : Bus env.World) (h : ValidRegistry env s.server_objects)
    (reached : Reaches env object_name event_name s name o) (gap : HasGap o) where
  -- The object with the event and one handler.
  abbrev halfway : Object
  halfway =
      with_handler env name method_subscribe
        (with_event (or_default event_name) callback user_data o)

  first_call :
      let (ret, s') = register_event list_vector env object_name event_name callback user_data s in
      (ret ≢ success) × (s'.server_objects ≡ replace name halfway s.server_objects)
  first_call =
      register_event_cases env object_name event_name callback user_data
        (λ ret os. (ret ≢ success) × (os ≡ replace name halfway s.server_objects)) s h
        (λ ret bad unreached. absurd (unreached name o reached))
        λ n k o' ret r out.
          let same : name ≡ n = some-injective name n (sym reached.0 ∙ r.0) in
          let this : k ≡ o =
            some-injective k o
              (sym r.3 ∙ ap (λ i. object_of i s.server_objects) (sym same) ∙ reached.3) in
          let (bad, now) =
            gap_outcome env n (with_event (or_default event_name) callback user_data k) o' ret
              (with_event_gap (or_default event_name) callback user_data k
                (subst HasGap (sym this) gap))
              out in
          (bad, rw (now, this, ← same))

  module _ (s1 : Bus env.World) (now : s1.server_objects ≡ replace name halfway s.server_objects)
      (valid : ValidRegistry env s1.server_objects) (connected : s1.connection ≢ none) where
    after_gap :
        (method_in method_subscribe halfway ≢ none) × (method_in method_unsubscribe halfway ≡ none)
    after_gap =
        gap_after env name (with_event (or_default event_name) callback user_data o)
          (with_event_gap (or_default event_name) callback user_data o gap)

    found_halfway : object_of name s1.server_objects ≡ some halfway
    found_halfway = rw now (
        rw (
          object_of-replace name s.server_objects o reached.3 halfway
              (with_event_name (or_default event_name) callback user_data o) name,
          strcmp_eq_refl name,
        ))

    no_second_handler :
        (o' : Object)
        → o' ≡ with_event (or_default event_name) callback user_data halfway
        → method_of name method_unsubscribe (replace name o' s1.server_objects) ≡ none
    no_second_handler o' same =
        rw
          (
            method_of-replace name s1.server_objects halfway found_halfway o'
                (ap (λ k. k.name) same
                  ∙ with_event_name (or_default event_name) callback user_data halfway)
                name method_unsubscribe,
            strcmp_eq_refl name,
          )
          (ap (method_in method_unsubscribe) same
            ∙ method_in-with_event (or_default event_name) callback user_data halfway
                method_unsubscribe
            ∙ after_gap.1)

    second_call :
        let (ret, s') =
          register_event list_vector env object_name event_name callback user_data s1 in
        (ret ≡ success) × (method_of name method_unsubscribe s'.server_objects ≡ none)
    second_call =
        register_event_cases env object_name event_name callback user_data
          (λ ret os. (ret ≡ success) × (method_of name method_unsubscribe os ≡ none)) s1 valid
          (λ ret bad unreached.
            absurd (unreached name halfway (reached.0, connected, reached.2, found_halfway)))
          λ n k o' ret r out.
            let same : name ≡ n = some-injective name n (sym reached.0 ∙ r.0) in
            let this : k ≡ halfway =
              some-injective k halfway
                (sym r.3 ∙ ap (λ i. object_of i s1.server_objects) (sym same) ∙ found_halfway) in
            let (good, end) =
              ready_outcome env n (with_event (or_default event_name) callback user_data k) o' ret
                (λ e. after_gap.0 (
                  ap (method_in method_subscribe) (sym this)
                  ∙ sym (
                      method_in-with_event (or_default event_name) callback user_data k
                        method_subscribe)
                  ∙ e))
                out in
            (
              good,
              ap (λ i. method_of name method_unsubscribe (replace i o' s1.server_objects))
                    (sym same)
                  ∙ no_second_handler o'
                      (end ∙ ap (with_event (or_default event_name) callback user_data) this),
            )

-- On an object with 31 methods, neither handler among them, that is not marked as taking subscription
-- requests, the first rbus_registerEvent fails and the second one succeeds, while the object still
-- has no method _unsubscribe. The bus is connected and the registered objects are as the first call
-- left them when the second one is made; the registry is well-formed, and the call gets past the
-- checks of its arguments.
pub register_event-register_event :
    (v : Vector) (env : Env) (object_name event_name : Option Name) (callback : Option ℕ)
    (user_data : ℕ) (name : Name) (o : Object) (s s1 : Bus env.World)
    → IsVector v
    → ValidRegistry env s.server_objects
    → Reaches env object_name event_name s name o
    → HasGap o
    → s1.server_objects
      ≡ (register_event v env object_name event_name callback user_data s).1.server_objects
    → s1.connection ≢ none
    → let (ret, _) = register_event v env object_name event_name callback user_data s in
      let (ret', s') = register_event v env object_name event_name callback user_data s1 in
      (ret ≢ success)
      × (ret' ≡ success)
      × (method_of name method_unsubscribe s'.server_objects ≡ none)
register_event-register_event v env on en cb ud name o s s1 iv h reached gap left connected =
    let (bad, now) = first_call env on en cb ud name o s h reached gap in
    let left' : s1.server_objects
        ≡ (register_event list_vector env on en cb ud s).1.server_objects =
      left ∙ ap (λ v. (register_event v env on en cb ud s).1.server_objects) (vector-eq v iv) in
    let valid =
      subst (ValidRegistry env) (sym left')
        (register_event-ValidRegistry list_vector env on en cb ud s list_vector-IsVector h) in
    let (good, gone) =
      second_call env on en cb ud name o s h reached gap s1 (left' ∙ now) valid connected in
    rw (vector-eq v iv) (bad, good, gone)
