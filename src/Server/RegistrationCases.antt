-- ===== src/Server/RegistrationCases.antt =====
-- The cases of install_subscription_handlers.
use rbuscore.Base.{
  ◌≡◌, refl, ◌≢◌, inl, inr, ap, subst, subst₂, sym, ◌∙◌, Bool, true, false, Bool-cases,
  Option-cases, none, some, List, ◌==◌, if◌then◌else◌, Name,
}
use rbuscore.Rt.Vector.{list_vector, find_first}
use rbuscore.Keyed.{All-find_first}
use rbuscore.Core.Types.{
  RbusError, success, method_subscribe, method_unsubscribe, Callback, UserData, Method, Object,
}
use rbuscore.Core.State.{Bus, Action, return, ◌>>=◌, ◌>>◌}
use rbuscore.Core.Env.{Env}
use rbuscore.Server.Objects.{get_object, modify_object}
use rbuscore.Server.Methods.{register_method, find_method, method_matches}
use rbuscore.Server.Registration.{install_subscription_handlers, ensure_handlers}
use rbuscore.Server.Valid.{
  ValidObject, ValidRegistry, object_of, method_in, object_found, method_found,
}
use rbuscore.Server.Replace.{replace, replace-replace, object_name_lem, update-replace, stored}
use rbuscore.Server.Handlers.{
  HasRoom, with_handler, with_handlers, IsReady, CanDispatch, no_first_room, no_second_room,
  handled,
}
use rbuscore.Server.HandlerSteps.{handler_lem, after_success}

module _ (env : Env) (object : Name) where
  abbrev add : Name → Action env.World RbusError
  add method =
      register_method list_vector env object method Callback.subscription_handler
        (UserData.object object)

  -- What install_subscription_handlers does behind each of its two registrations.
  mark : RbusError → Action env.World RbusError
  mark ret = do
    modify_object env object (λ o. record o { process_event_subscriptions = true })
    return ret

  second : RbusError → Action env.World RbusError
  unfolding mark
  second first = do
    ret ←
        register_method list_vector env object method_unsubscribe Callback.subscription_handler
          (UserData.object object)
    if ret == success then mark ret else return ret

  -- How the object of the name ends: as it was, with one handler, or with both.
  module _ {κ} (P : RbusError → List Object → Type κ) (o : Object) (s : Bus env.World)
      (h : ValidRegistry env s.server_objects) (found : object_of object s.server_objects ≡ some o)
      (refused : (ret : RbusError)
        → ret ≢ success
        → method_in method_subscribe o ≡ none
        → ¬ HasRoom method_subscribe o
        → P ret s.server_objects)
      (half : (ret : RbusError)
        → ret ≢ success
        → HasRoom method_subscribe o
        → ¬ HasRoom method_unsubscribe (with_handler env object method_subscribe o)
        → P ret (replace object (with_handler env object method_subscribe o) s.server_objects))
      (both : HasRoom method_subscribe o
        → HasRoom method_unsubscribe (with_handler env object method_subscribe o)
        → P success (replace object (with_handlers env object o) s.server_objects)) where
    abbrev once : Object
    once = with_handler env object method_subscribe o

    abbrev twice : Object
    twice = with_handler env object method_unsubscribe once

    valid_here : ValidObject env o
    valid_here = All-find_first _ _ s.server_objects o found h.objects_valid

    looked_up :
        find_first (method_matches method_subscribe) o.methods ≡ method_in method_subscribe o
    looked_up = method_found env method_subscribe o valid_here

    -- The registrations of both handlers and the mark together write one object.
    marked :
        (s1 s2 : Bus env.World)
        → ValidRegistry env s1.server_objects
        → object_of object s1.server_objects ≡ some once
        → s1.server_objects ≡ replace object once s.server_objects
        → HasRoom method_subscribe o
        → HasRoom method_unsubscribe once
        → s2.server_objects ≡ replace object twice s1.server_objects
        → (mark success s2).1.server_objects
          ≡ replace object (with_handlers env object o) s.server_objects
    unfolding mark modify_object
    marked s1 s2 valid there now room room' now' =
        let (valid', there') =
          stored object s1.server_objects once there twice refl env s2.server_objects valid
            (handled env object method_unsubscribe once
              (handled env object method_subscribe o valid_here room) room')
            now' in
        update-replace object s2.server_objects twice there' env
          (λ o. record o { process_event_subscriptions = true }) valid' refl
        ∙ ap (replace object (with_handlers env object o)) now'
        ∙ replace-replace object twice (with_handlers env object o) s1.server_objects
        ∙ ap (replace object (with_handlers env object o)) now
        ∙ replace-replace object once (with_handlers env object o) s.server_objects

    second_cases :
        (s1 : Bus env.World)
        → s1.server_objects
          ≡ replace object (with_handler env object method_subscribe o) s.server_objects
        → HasRoom method_subscribe o
        → (first : RbusError) → let (ret, s') = second first s1 in P ret s'.server_objects
    unfolding second mark modify_object
    second_cases s1 now room first =
        let (valid, there) =
          stored object s.server_objects o found (with_handler env object method_subscribe o) refl
            env s1.server_objects h (handled env object method_subscribe o (valid_here) room) now in
        after_success env object P (add method_unsubscribe) mark s1
          (λ bad. elim (handler_lem env object method_unsubscribe _ s1 valid there) [
            | inl (e, full, kept) ↦ subst (P _) (sym (kept ∙ now)) (half _ bad room full)
            | inr (good, room', now') ↦ absurd (bad good)
          ])
          (λ good. elim (handler_lem env object method_unsubscribe _ s1 valid there) [
            | inl (e, full, kept) ↦ absurd (e good)
            | inr (e, room', now') ↦
                subst₂ P (sym good)
                  (sym (marked s1 (add method_unsubscribe s1).1 valid there now room room' now'))
                  (both room room')
          ])

    install_cases :
        ((m : Method) → method_in method_subscribe o ≡ some m → P success s.server_objects)
        → let (ret, s') = install_subscription_handlers list_vector env object o s in
          P ret s'.server_objects
    unfolding install_subscription_handlers find_method second mark
    install_cases there = elim (Option-cases (method_in method_subscribe o)) [
      | inr (m, present) ↦ rw (install_subscription_handlers, looked_up ∙ present) (there m present)
      | inl absent ↦
          rw (install_subscription_handlers, looked_up ∙ absent)
            (after_success env object P (add method_subscribe) second s
              (λ bad. elim (handler_lem env object method_subscribe o s h found) [
                | inl (e, full, kept) ↦ subst (P _) (sym kept) (refused _ bad absent full)
                | inr (good, room', now') ↦ absurd (bad good)
              ])
              (λ good. elim (handler_lem env object method_subscribe o s h found) [
                | inl (e, full, kept) ↦ absurd (e good)
                | inr (e, room, now) ↦
                    second_cases (add method_subscribe s).1 now room (add method_subscribe s).0
              ]))
    ]

  -- The test and the name as they are stored in the object.
  chosen {κ} :
      (P : RbusError → List Object → Type κ) (o : Object) (s : Bus env.World) (set : Bool)
      (name : Name)
      → o.process_event_subscriptions ≡ set
      → o.name ≡ name
      → let (ret, s') =
          (if set then return success else install_subscription_handlers list_vector env name o)
            s in
        P ret s'.server_objects
        → let (ret, s') =
            (if o.process_event_subscriptions
                then return success
                else install_subscription_handlers list_vector env o.name o)
              s in
          P ret s'.server_objects
  chosen P o s set name e called =
      subst₂
        (λ set name.
          let (ret, s') =
            (if set then return success else install_subscription_handlers list_vector env name o)
              s in
          P ret s'.server_objects)
        (sym e) (sym called)

  -- The handlers are installed where the object does not process subscriptions yet.
  pub ensure_cases {κ} :
      (P : RbusError → List Object → Type κ) (o : Object) (s : Bus env.World)
      → ValidRegistry env s.server_objects
      → object_of object s.server_objects ≡ some o
      → (IsReady o → P success s.server_objects)
      → ((ret : RbusError)
          → ret ≢ success
          → ¬ CanDispatch o
          → ¬ HasRoom method_subscribe o
          → P ret s.server_objects)
      → ((ret : RbusError)
          → ret ≢ success
          → HasRoom method_subscribe o
          → ¬ CanDispatch o
          → P ret (replace object (with_handler env object method_subscribe o) s.server_objects))
      → (HasRoom method_subscribe o
          → HasRoom method_unsubscribe (with_handler env object method_subscribe o)
          → P success (replace object (with_handlers env object o) s.server_objects))
      → let (ret, s') = ensure_handlers list_vector env object s in P ret s'.server_objects
  unfolding ensure_handlers get_object
  ensure_cases P o s h found kept refused half both =
      rw (ensure_handlers, ◌>>=◌, get_object, object_found env object s.server_objects h ∙ found)
        (elim (Bool-cases o.process_event_subscriptions) [
          | inl set ↦ chosen P o s true o.name set refl (kept (inl set))
          | inr unset ↦
              chosen P o s false object unset (object_name_lem object s.server_objects o found) (
                install_cases P o s h found
                  (λ ret bad absent full. refused ret bad (no_first_room o unset absent full) full)
                  (λ ret bad room full.
                    half ret bad room (no_second_room env object o unset room full))
                  both (λ m there. kept (inr (λ e. cc))))
        ])
