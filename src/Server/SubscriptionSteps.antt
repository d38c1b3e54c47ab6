-- ===== src/Server/SubscriptionSteps.antt =====
-- How server_object_subscription_handler can end for any object, registered or not.
use rbuscore.Base.{
  ◌≡◌, ap, subst, ◌∙◌, Bool, Bool-cases, Option-cases, inl, inr, Option, some, List, update_first,
  Name, strlen, leb, sym, ◌||◌, ◌==◌,
}
use rbuscore.Rt.Vector.{list_vector}
use rbuscore.Message.{Message}
use rbuscore.Core.Types.{RbusError, success, subscribe_not_handled, Event, Object}
use rbuscore.Core.State.{Bus, ◌>>=◌}
use rbuscore.Core.Env.{Env}
use rbuscore.Server.Objects.{object_matches, get_object}
use rbuscore.Server.Events.{handle_subscription, server_object_subscription_handler}
use rbuscore.Server.Valid.{ValidRegistry, object_of, event_in, object_found}
use rbuscore.Server.EventCases.{with_listener, changed}
use rbuscore.Server.EventSteps.{Undisturbing, built_in_cases}

module _ (env : Env) (quiet : Undisturbing env) where
  -- The part behind the checks of the names: the override may decide, and changes no object.
  decided_cases {κ} :
      (P : RbusError → List Object → Type κ) (obj event subscriber : Name) (added : Bool)
      (payload : Option Message) (o : Object) (s : Bus env.World)
      → ValidRegistry env s.server_objects
      → object_of obj s.server_objects ≡ some o
      → ((ret : RbusError) → P ret s.server_objects)
      → ((e : Event)
          → event_in event o ≡ some e
          → P success (
              update_first
                (object_matches env obj)
                (changed env event (with_listener added subscriber))
                s.server_objects))
      → let (ret, s') =
          handle_subscription list_vector env obj event subscriber added payload o s in
        P ret s'.server_objects
  unfolding handle_subscription
  decided_cases P obj event sub added payload o s h found kept new =
      elim (Option-cases o.subscribe_handler_override) [
        | inl unset ↦
            rw (handle_subscription, unset)
              (built_in_cases env quiet P obj event sub added o s h found (λ e. kept 10)
                (λ e p q. kept 0) new)
        | inr (f, set) ↦
            let called =
              env.call_subscribe f o.name event sub added payload o.subscribe_handler_data s in
            let still : called.1.server_objects ≡ s.server_objects =
              quiet f o.name event sub added payload o.subscribe_handler_data s in
            rw (handle_subscription, set, ◌>>=◌)
              (elim (Bool-cases (called.0 == subscribe_not_handled)) [
                | inr mine ↦ rw mine (subst (P _) (sym still) (kept _))
                | inl passed ↦ rw passed (
                    built_in_cases env quiet P obj event sub added o called.1
                      (subst (ValidRegistry env) (sym still) h) (ap (object_of obj) still ∙ found)
                      (λ e. subst (P _) (sym still) (kept 10))
                      (λ e p q. subst (P _) (sym still) (kept 0))
                      λ e p.
                        subst
                          (λ os. P success (
                            update_first (object_matches env obj)
                              (changed env event (with_listener added sub)) os))
                          (sym still) (new e p))
              ])
      ]

  -- The ends of server_object_subscription_handler in general: the objects stay as they are, or the
  -- event of a registered object has its listeners changed.
  pub subscription_cases {κ} :
      (P : RbusError → List Object → Type κ) (obj event subscriber : Name) (added : Bool)
      (payload : Option Message) (s : Bus env.World)
      → ValidRegistry env s.server_objects
      → ((ret : RbusError) → P ret s.server_objects)
      → ((o : Object) (e : Event)
          → object_of obj s.server_objects ≡ some o
          → event_in event o ≡ some e
          → P success (
              update_first
                (object_matches env obj)
                (changed env event (with_listener added subscriber))
                s.server_objects))
      → let (ret, s') =
          server_object_subscription_handler list_vector env obj event subscriber added payload s in
        P ret s'.server_objects
  unfolding server_object_subscription_handler handle_subscription get_object
  subscription_cases P obj event sub added payload s h kept new =
      elim (Bool-cases (
        leb env.max_object_name_length (strlen sub)
        || leb env.max_object_name_length (strlen event))) [
          | inl long ↦ rw (server_object_subscription_handler, long) (kept 2)
          | inr fits ↦
              rw (server_object_subscription_handler, fits)
                (elim (Option-cases (object_of obj s.server_objects)) [
                  | inl missing ↦
                      rw (◌>>=◌, get_object, object_found env obj s.server_objects h ∙ missing)
                        (kept 1)
                  | inr (o, found) ↦
                      rw (◌>>=◌, get_object, object_found env obj s.server_objects h ∙ found)
                        (decided_cases P obj event sub added payload o s h found kept
                          (λ e. new o e found))
                ])
        ]
