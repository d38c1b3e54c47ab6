-- ===== src/Server/InstallSteps.antt =====
-- The abstract registry permits what the registration of an event or of a handler does.
use rbuscore.Base.{◌≡◌, ◌↔◌, List, Option-cases, ℕ, refl, inl, inr, Option, some, Name}
use mathlib.Core.Option.{some-injective}
use rbuscore.Rt.Vector.{list_vector}
use rbuscore.Core.Types.{RbusError, success, method_subscribe, method_unsubscribe, Object}
use rbuscore.Server.Handlers.{CanDispatch}
use rbuscore.Server.RegistrationSteps.{with_event, register_event_cases}
use rbuscore.Core.State.{Bus}
use rbuscore.Core.Env.{Env}
use rbuscore.Server.Events.{or_default}
use rbuscore.Server.Valid.{object_of, event_in, ValidRegistry}
use rbuscore.Server.Outcome.{outcome_kept, outcome_success}
use rbuscore.Server.RegistrationLaws.{
  same_name, event_of-registered, method_in-with_event, with_event-CanDispatch,
}
use rbuscore.Server.HandlerLaws.{register_subscribe_handler_cases}
use rbuscore.Server.ReplaceViews.{has-replace, replace-Gains, standing-replace, events-replace}
use rbuscore.Server.Registry.{Takes, standing_at, Command, Permits, view, execute}

with_event-standing :
    (event : Name) (callback : Option ℕ) (user_data : ℕ) (o : Object)
    → standing_at (some (with_event event callback user_data o)) ≡ standing_at (some o)
with_event-standing event callback user_data o = elim (Option-cases (event_in event o)) [
  | inl fresh ↦ rw fresh
  | inr (e, there) ↦ rw there
]

chain : {A B C : Type 0} → (A ↔ B) → (B ↔ C) → A ↔ C
chain (f, g) (h, k) = (λ a. h (f a), λ c. g (k c))

module _ (env : Env) where
  -- An object can take subscription requests as its standing and its methods tell.
  takes_lem :
      (n : Name) (ret : RbusError) (o : Object) (os : List Object)
      → object_of n os ≡ some o
      → ((ret ≡ success) ↔ CanDispatch o)
      → (ret ≡ success)
        ↔ Takes
            ((view os).standing n)
            ((view os).method n method_subscribe)
            ((view os).method n method_unsubscribe)
  takes_lem n ret o os found same = rw found same

  pub add_event-Permits :
      (name : Name) (event_name : Option Name) (callback : Option ℕ) (user_data : ℕ)
      (s : Bus env.World)
      → ValidRegistry env s.server_objects
      → let c = Command.add_event name event_name callback user_data in
        let (ret, s') = execute list_vector env c s in
        Permits c ret (view s.server_objects) (view s'.server_objects)
  unfolding execute
  add_event-Permits name en cb ud s h =
      register_event_cases env (some name) en cb ud
        (λ ret os. Permits (Command.add_event name en cb ud) ret (view s.server_objects) (view os))
        s h (λ ret bad unreached. inr (bad, λ x y. (refl, refl, refl, refl)))
        λ n o o' ret r out.
          let kept = same_name env (or_default en) n cb ud o o' s.server_objects r.3 out in
          let named = method_in-with_event (or_default en) cb ud o in
          rw (some-injective name n r.0) (
            inl (
              rw (r.3),
              takes_lem n ret o s.server_objects r.3 (
                  chain (outcome_success env n out)
                    (with_event-CanDispatch (or_default en) cb ud o)),
              (
                standing_at (some o'),
                replace-Gains env n s.server_objects o o' r.3 kept
                    (with_event (or_default en) cb ud o) named
                    (with_event-standing (or_default en) cb ud o) out,
                λ x y. (
                  has-replace env n s.server_objects o o' r.3 kept x,
                  event_of-registered env (or_default en) n cb ud o o' s.server_objects r.3 out x y,
                  standing-replace env n s.server_objects o o' r.3 kept x,
                ),
              ),
            ))

  pub set_handler-Permits :
      (name : Name) (callback user_data : ℕ) (s : Bus env.World)
      → ValidRegistry env s.server_objects
      → let c = Command.set_handler name callback user_data in
        let (ret, s') = execute list_vector env c s in
        Permits c ret (view s.server_objects) (view s'.server_objects)
  unfolding execute
  set_handler-Permits name cb ud s h =
      register_subscribe_handler_cases env (some name) (some cb) ud
        (λ ret os. Permits (Command.set_handler name cb ud) ret (view s.server_objects) (view os)) s
        h (λ ret bad unset. inr (bad, λ x y. (refl, refl, refl, refl)))
        λ n f o o' ret r out.
          let (kept, events) = outcome_kept env n out in
          rw (some-injective name n r.0) (
            inl (
              rw (r.2),
              takes_lem n ret o s.server_objects r.2 (outcome_success env n out),
              (
                standing_at (some o'),
                replace-Gains env n s.server_objects o o' r.2 kept
                    (record o { subscribe_handler_override = some f; subscribe_handler_data = ud })
                    (λ y. refl) refl out,
                λ x y. (
                  has-replace env n s.server_objects o o' r.2 kept x,
                  events-replace env n s.server_objects o o' r.2 kept events x y,
                  standing-replace env n s.server_objects o o' r.2 kept x,
                ),
              ),
            ))
