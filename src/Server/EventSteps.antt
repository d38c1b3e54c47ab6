-- ===== src/Server/EventSteps.antt =====
-- How server_object_subscription_handler can end for an object that is registered.
use rbuscore.Base.{
  ℕ, ◌<◌, ◌≡◌, ap, subst, ◌∙◌, Bool, true, false, Bool-cases, Option-cases, inl, inr, Option, none,
  some, List, update_first, if◌then◌else◌, arith, Name, strlen, strcmp_eq→eq, leb,
}
use rbuscore.Rt.Vector.{list_vector, any_item, find_first}
use rbuscore.Keyed.{named, All-find_first, update_first_agree, find_first_passes}
use rbuscore.Message.{Message}
use rbuscore.Core.Types.{RbusError, success, error_unsupported_event, Event, Object}
use rbuscore.Core.State.{Bus, return, ◌>>=◌, ◌>>◌}
use rbuscore.Core.Env.{Env}
use rbuscore.Server.Objects.{object_matches, get_object, modify_object}
use rbuscore.Server.Events.{
  event_matches, find_event, has_listener, push_listener, drop_listener, modify_event, notify,
  server_event_add_listener, server_event_remove_listener, built_in_handler, handle_subscription,
  server_object_subscription_handler,
}
use rbuscore.Server.Valid.{
  ValidRegistry, object_key, event_key, object_of, event_in, object_found, event_found,
}
use rbuscore.Server.EventCases.{
  with_listener, changed, is_listener, with_listener-there, with_listener-absent,
}

-- The callbacks for subscriptions leave the registered objects alone.
abbrev pub Undisturbing : Env → Type 0
Undisturbing env =
    (f : ℕ) (object event listener : Name) (added : Bool) (payload : Option Message) (user_data : ℕ)
    (s : Bus env.World)
    → (env.call_subscribe f object event listener added payload user_data s).1.server_objects
      ≡ s.server_objects

module _ (env : Env) (quiet : Undisturbing env) where
  notify-objects :
      (e : Event) (listener : Name) (added : Bool) (s : Bus env.World)
      → (notify list_vector env e listener added s).1.server_objects ≡ s.server_objects
  unfolding notify
  notify-objects e l added s = elim (Option-cases e.sub_callback) [
    | inl unset ↦ rw (unset, notify)
    | inr (f, set) ↦
        rw (set, notify, ◌>>=◌, ◌>>◌) (quiet f e.object e.name l added none e.sub_data s)
  ]

  -- server_event_addListener or server_event_removeListener, by the flag.
  abbrev change_listener : Bool → Event → Name → Bus env.World → Bus env.World
  change_listener true e listener s = (server_event_add_listener list_vector env e listener s).1
  change_listener false e listener s = (server_event_remove_listener list_vector env e listener s).1

  -- Changes that agree on the event that is found.
  changed_agree :
      (f g : Event → Event) (n m : Name) (os : List Object) (o : Object) (e : Event)
      → find_first (object_matches env n) os ≡ some o
      → find_first (event_matches env m) o.subscriptions ≡ some e
      → f e ≡ g e
      → update_first (object_matches env n) (changed env m f) os
        ≡ update_first (object_matches env n) (changed env m g) os
  changed_agree f g n m os o e found there same =
      update_first_agree (object_matches env n) (changed env m f) (changed env m g) os o found (
        ap (λ es. record o { subscriptions = es })
          (update_first_agree (event_matches env m) f g o.subscriptions e there same))

  -- The event of a well-formed registry with the listener put in or taken out.
  change_cases {κ} :
      (P : List Object → Type κ) (added : Bool) (o : Object) (e : Event) (listener : Name)
      (s : Bus env.World)
      → find_first (object_matches env e.object) s.server_objects ≡ some o
      → find_first (event_matches env e.name) o.subscriptions ≡ some e
      → (with_listener added listener e ≡ e → P s.server_objects)
      → P (
          update_first
            (object_matches env e.object)
            (changed env e.name (with_listener added listener))
            s.server_objects)
      → P (change_listener added e listener s).server_objects
  unfolding server_event_add_listener server_event_remove_listener modify_event modify_object
      has_listener push_listener drop_listener
  change_cases P true o e l s found there same new =
      elim (Bool-cases (any_item (is_listener l) e.listeners)) [
        | inl listening ↦ rw (change_listener, listening) (same (with_listener-there l e listening))
        | inr absent ↦
            rw (change_listener, absent, notify-objects e l true _)
              (subst P
                (changed_agree (with_listener true l) (push_listener list_vector l) e.object e.name
                  s.server_objects o e found there (rw absent))
                new)
      ]
  change_cases P false o e l s found there same new =
      elim (Bool-cases (any_item (is_listener l) e.listeners)) [
        | inr absent ↦ rw (change_listener, absent) (same (with_listener-absent l e absent))
        | inl listening ↦ rw (change_listener, listening, notify-objects e l false _) new
      ]

  finished {κ} :
      (P : RbusError → List Object → Type κ) (added : Bool) (e : Event) (listener : Name)
      (s : Bus env.World)
      → P success (change_listener added e listener s).server_objects
      → let (ret, s') =
          ((if added
                then server_event_add_listener list_vector env e listener
                else server_event_remove_listener list_vector env e listener)
              >> return success)
            s in
        P ret s'.server_objects
  finished P true e l s p = p
  finished P false e l s p = p

  -- The ends of the part of server_object_subscription_handler that uses the object's own events.
  pub built_in_cases {κ} :
      (P : RbusError → List Object → Type κ) (obj event subscriber : Name) (added : Bool)
      (o : Object) (s : Bus env.World)
      → ValidRegistry env s.server_objects
      → object_of obj s.server_objects ≡ some o
      → (event_in event o ≡ none → P error_unsupported_event s.server_objects)
      → ((e : Event)
          → event_in event o ≡ some e
          → with_listener added subscriber e ≡ e
          → P success s.server_objects)
      → ((e : Event)
          → event_in event o ≡ some e
          → P success (
              update_first
                (object_matches env obj)
                (changed env event (with_listener added subscriber))
                s.server_objects))
      → let (ret, s') = built_in_handler list_vector env obj event subscriber added s in
        P ret s'.server_objects
  unfolding built_in_handler get_object find_event
  built_in_cases P obj event sub added o s h found unsupported same new =
      let there = object_found env obj s.server_objects h ∙ found in
      let valid = All-find_first _ _ _ o found h.objects_valid in
      let looked_up = event_found env event o valid in
      rw (built_in_handler, ◌>>=◌, get_object, there)
        (elim (Option-cases (event_in event o)) [
          | inl absent ↦ rw (looked_up ∙ absent) (unsupported absent)
          | inr (e, present) ↦
              let called : e.name ≡ event =
                strcmp_eq→eq e.name event
                  (find_first_passes (named event_key event) o.subscriptions e present) in
              let owner : e.object ≡ obj =
                All-find_first _ _ o.subscriptions e present valid.events_owned
                ∙ strcmp_eq→eq o.name obj
                    (find_first_passes (named object_key obj) s.server_objects o found) in
              rw (looked_up ∙ present) (
                finished P added e sub s (
                  change_cases (P success) added o e sub s (rw owner there)
                    (ap (λ n. find_first (event_matches env n) o.subscriptions) called
                      ∙ (looked_up ∙ present))
                    (same e present) (rw (owner, called) (new e present))))
        ])

  -- The ends of server_object_subscription_handler for an object without an override.
  pub handler_cases {κ} :
      (P : RbusError → List Object → Type κ) (obj event subscriber : Name) (added : Bool)
      (payload : Option Message) (o : Object) (s : Bus env.World)
      → ValidRegistry env s.server_objects
      → object_of obj s.server_objects ≡ some o
      → o.subscribe_handler_override ≡ none
      → strlen subscriber < env.max_object_name_length
      → strlen event < env.max_object_name_length
      → (event_in event o ≡ none → P error_unsupported_event s.server_objects)
      → ((e : Event)
          → event_in event o ≡ some e
          → with_listener added subscriber e ≡ e
          → P success s.server_objects)
      → ((e : Event)
          → event_in event o ≡ some e
          → P success (
              update_first
                (object_matches env obj)
                (changed env event (with_listener added subscriber))
                s.server_objects))
      → let (ret, s') =
          server_object_subscription_handler list_vector env obj event subscriber added payload s in
        P ret s'.server_objects
  unfolding server_object_subscription_handler handle_subscription get_object
  handler_cases P obj event sub added payload o s h found unset short short' unsupported same new =
      let subscriber_fits : leb env.max_object_name_length (strlen sub) ≡ false = ground arith in
      let event_fits : leb env.max_object_name_length (strlen event) ≡ false = ground arith in
      rw
        (
          subscriber_fits,
          event_fits,
          ◌>>=◌,
          get_object,
          object_found env obj s.server_objects h ∙ found,
        )
        (rw (handle_subscription, unset)
          (built_in_cases P obj event sub added o s h found unsupported same new))
