-- ===== src/Server/CallSteps.antt =====
-- The abstract registry permits what each call does to the registered objects.
use rbuscore.Base.{
  ◌-◌, ◌<◌, ◌≡◌, ◌∙◌, ap, Bool, [], ◌∷◌, List, arith, length, length-append, refl, inl, inr, some,
}
use mathlib.Core.Option.{some-injective}
use rbuscore.Rt.Vector.{list_vector}
use rbuscore.Rt.Vector.{find_first, remove_first}
use rbuscore.Keyed.{find_first-cons, All-find_first}
use rbuscore.Core.State.{Bus}
use rbuscore.Core.Env.{Env}
use rbuscore.Server.Events.{or_default}
use rbuscore.Server.Methods.{method_matches}
use rbuscore.Server.Valid.{method_found, ValidRegistry, method_at, event_at, objects_updated}
use rbuscore.Server.ObjectCases.{register_obj_cases, unregister_obj_cases}
use rbuscore.Server.MethodLaws.{new_method, register_cases, appended, method_of-appended}
use rbuscore.Server.RemovalLaws.{unregister_cases, dropped, method_of-dropped}
use rbuscore.Server.UnregistrationLaws.{without, event_of-without, unregister_event_cases}
use rbuscore.Server.EventCases.{with_listener, with_listener_name, changed, event_of-changed}
use rbuscore.Server.EventSteps.{Undisturbing}
use rbuscore.Server.SubscriptionSteps.{subscription_cases}
use rbuscore.Server.Views.{
  view-append_new, view-remove_first, seen-update_first, standing-update_first,
}
use rbuscore.Server.ReplaceViews.{has-replace, standing_kept, methods_kept-replace}
use rbuscore.Server.Registry.{more, less, standing_at, Command, Permits, is_there, view, execute}
use rbuscore.Server.InstallSteps.{add_event-Permits, set_handler-Permits}

found_some :
    {A : Type 0} (p : A → Bool) (xs : List A) (x : A) → find_first p xs ≡ some x → 0 < length xs
found_some p [] x e = cc
found_some p (y ∷ xs) x e = omega arith

length-dropped :
    {A : Type 0} (p : A → Bool) (xs : List A) (x : A)
    → find_first p xs ≡ some x
    → length (remove_first p xs) ≡ length xs - 1
length-dropped p [] x e = refl
length-dropped p (y ∷ xs) x e = elim (find_first-cons p y xs x e) [
  | inl (hit, same) ↦ rw hit (omega arith)
  | inr (miss, later) ↦
      rw miss (omega (arith, length-dropped p xs x later, found_some p xs x later))
]

module _ (env : Env) where
  -- What any one call does is what the abstract registry permits.
  pub execute-Permits :
      (c : Command) (s : Bus env.World)
      → Undisturbing env
      → ValidRegistry env s.server_objects
      → let (ret, s') = execute list_vector env c s in
        Permits c ret (view s.server_objects) (view s'.server_objects)
  unfolding execute
  execute-Permits (Command.add_object name cb ud) s quiet h =
      register_obj_cases env (some name) cb ud
        (λ ret os. Permits (Command.add_object name cb ud) ret (view s.server_objects) (view os)) s
        h (λ ret bad. inr (bad, λ x y. (refl, refl, refl, refl)))
        λ n given short fresh.
          rw (some-injective name n given)
            (inl (refl, rw fresh, view-append_new n cb ud s.server_objects fresh))
  execute-Permits (Command.remove_object name) s quiet h =
      unregister_obj_cases env
        (λ ret os. Permits (Command.remove_object name) ret (view s.server_objects) (view os))
        (some name) s h (λ ret bad. inr (bad, λ x y. (refl, refl, refl, refl)))
        λ n o given found.
          rw (some-injective name n given)
            (inl (refl, rw found, view-remove_first n s.server_objects h.objects_distinct))
  execute-Permits (Command.add_method object name cb ud) s quiet h =
      register_cases env object name cb ud
        (λ ret os.
          Permits (Command.add_method object name cb ud) ret (view s.server_objects) (view os))
        s h (λ ret bad can. inr (bad, λ x y. (refl, refl, refl, refl)))
        λ o found short room fresh.
          let f = appended env object name cb ud in
          inl (
            refl,
            (rw found, rw found fresh),
            λ x y. (
              seen-update_first is_there object x f s.server_objects (λ k. refl) (λ k. refl),
              method_of-appended env object name cb ud s.server_objects o x y found fresh,
              seen-update_first (event_at y) object x f s.server_objects (λ k. refl) (λ k. refl),
              standing-update_first object x f more s.server_objects o found (λ k. refl)
                  (ap (λ k. some (o.process_event_subscriptions, k))
                    (length-append o.methods (new_method env object name cb ud ∷ []))),
            ),
          )
  execute-Permits (Command.remove_method object name) s quiet h =
      unregister_cases env object name
        (λ ret os.
          Permits (Command.remove_method object name) ret (view s.server_objects) (view os))
        s h (λ ret bad missing. inr (bad, λ x y. (refl, refl, refl, refl)))
        λ o m found present.
          let f = dropped env object name in
          inl (
            refl,
            rw (found, present) (λ e. cc),
            λ x y. (
              seen-update_first is_there object x f s.server_objects (λ k. refl) (λ k. refl),
              method_of-dropped env object name s.server_objects o x y found
                  (All-find_first _ _ s.server_objects o found h.objects_valid),
              seen-update_first (event_at y) object x f s.server_objects (λ k. refl) (λ k. refl),
              standing-update_first object x f less s.server_objects o found (λ k. refl)
                  (ap (λ k. some (o.process_event_subscriptions, k))
                    (length-dropped (method_matches name) o.methods m (
                      method_found env name o
                        (All-find_first _ _ s.server_objects o found h.objects_valid)
                      ∙ present))),
            ),
          )
  execute-Permits (Command.add_event object name cb ud) s quiet h =
      add_event-Permits env object name cb ud s h
  execute-Permits (Command.set_handler object cb ud) s quiet h =
      set_handler-Permits env object cb ud s h
  execute-Permits (Command.remove_event object name) s quiet h =
      unregister_event_cases env object name
        (λ ret os. Permits (Command.remove_event object name) ret (view s.server_objects) (view os))
        s h (λ ret bad missing. inr (bad, λ x y. (refl, refl, refl, refl)))
        λ o e found present.
          let o' = without env (or_default name) o in
          inl (
            refl,
            rw (found, present) (λ e. cc),
            λ x y. (
              has-replace env object s.server_objects o o' found refl x,
              methods_kept-replace env object s.server_objects o o' found refl (λ k. refl) x y,
              event_of-without env (or_default name) object o s.server_objects found
                  (All-find_first _ _ s.server_objects o found h.objects_valid) x y,
              standing_kept env object s.server_objects o o' found refl refl x,
            ),
          )
  execute-Permits (Command.change_listener object event listener added payload) s quiet h =
      subscription_cases env quiet
        (λ ret os.
          Permits (Command.change_listener object event listener added payload) ret
            (view s.server_objects) (view os))
        object event listener added payload s h (λ ret. inr (λ x y. (refl, refl, refl, refl)))
        λ o e found present.
          let f = changed env event (with_listener added listener) in
          inl (
            refl,
            rw (found, present) (λ e. cc),
            λ x y. (
              rw (objects_updated env object s.server_objects h f)
                  (seen-update_first is_there object x f s.server_objects (λ k. refl) (λ k. refl)),
              rw (objects_updated env object s.server_objects h f) (
                  seen-update_first (method_at y) object x f s.server_objects (λ k. refl)
                    (λ k. refl)),
              event_of-changed env object event (with_listener added listener)
                  (with_listener_name added listener) s.server_objects x y h,
              rw (objects_updated env object s.server_objects h f) (
                  seen-update_first standing_at object x f s.server_objects (λ k. refl)
                    (λ k. refl)),
            ),
          )
