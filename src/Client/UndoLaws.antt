-- ===== src/Client/UndoLaws.antt =====
-- An event that is entered in the table of subscriptions and taken out again.
use rbuscore.Base.{
  ◌<◌, ◌≡◌, refl, ap, ◌∙◌, sym, Option, none, some, List, [], ◌∷◌, ◌++◌, arith, update_first,
  length, Name, strlen, strcmp_eq_refl,
}
use mathlib.Core.Option.{some-injective}
use rbuscore.Rt.Vector.{list_vector}
use rbuscore.Keyed.{
  named, find_first-update_first, update_first-update_first, find_first-append_new,
  remove_first-append_new, All-find_first,
}
use rbuscore.Core.Types.{ClientEvent, ClientSubscription}
use rbuscore.Core.Env.{Env}
use rbuscore.Client.Table.{drop_client_event, insert_event, remove_event}
use rbuscore.Client.Valid.{
  ValidTable, object_key, event_key, subscription_of, event_in, event_of, drop_client_event_lem,
  push-ValidSubscription,
}
use rbuscore.Client.TableCases.{
  pushed, single, dropped, insert_cases, remove_cases, entered_old, entered_new,
}

none_or : {o : Option ClientEvent} {e : ClientEvent} → o ≡ none → o ≡ some e → ⊥
none_or a b = cc

module _ (env : Env) (object_name : Name) where
  dropped-pushed :
      (e : ClientEvent) (sub : ClientSubscription)
      → event_in e.name sub ≡ none
      → dropped e.name (pushed e sub) ≡ sub
  dropped-pushed e sub fresh =
      ap (λ es. record sub { events = es }) (remove_first-append_new event_key sub.events e fresh)

  pushed_found :
      (e : ClientEvent) (sub : ClientSubscription)
      → event_in e.name sub ≡ none
      → event_in e.name (pushed e sub) ≡ some e
  pushed_found e sub fresh =
      rw (find_first-append_new event_key e.name sub.events e fresh) (rw (strcmp_eq_refl e.name))

  subscription_of-pushed :
      (e : ClientEvent) (subs : List ClientSubscription) (sub : ClientSubscription)
      → subscription_of object_name subs ≡ some sub
      → subscription_of object_name (update_first (named object_key object_name) (pushed e) subs)
        ≡ some (pushed e sub)
  subscription_of-pushed e subs sub found =
      rw (find_first-update_first object_key object_name object_name (pushed e) subs (λ x. refl))
        (rw (strcmp_eq_refl object_name, found))

  -- Taken out again, an event leaves the subscription that it was added to.
  removed_old :
      (e : ClientEvent) (subs : List ClientSubscription) (sub : ClientSubscription)
      → ValidTable env subs
      → strlen e.name < env.max_object_name_length
      → event_of object_name e.name subs ≡ none
      → subscription_of object_name subs ≡ some sub
      → remove_event list_vector env object_name e.name
          (update_first (named object_key object_name) (pushed e) subs)
        ≡ subs
  unfolding drop_client_event
  removed_old e subs sub h short fresh found =
      let subs' = update_first (named object_key object_name) (pushed e) subs in
      let valid = All-find_first _ _ _ sub found h.subs_valid in
      let absent : event_in e.name sub ≡ none = rw found at fresh in
      let there = subscription_of-pushed e subs sub found in
      remove_cases env object_name (λ subs''. subs'' ≡ subs) e.name subs'
        (entered_old env object_name e subs sub h short fresh found)
        (λ gone. absurd (none_or (rw there at gone) (pushed_found e sub absent)))
        (λ sub' found' none_left.
          let same : sub' ≡ pushed e sub =
            some-injective sub' (pushed e sub) (sym found' ∙ there) in
          let kept : length (dropped e.name sub').events ≡ length sub.events =
            ap (λ x. length (dropped e.name x).events) same
            ∙ ap (λ x. length x.events) (dropped-pushed e sub absent) in
          absurd (omega (arith, kept, none_left, valid.events_some)))
        (λ sub' found' some_left.
          update_first-update_first (named object_key object_name) (pushed e)
            (drop_client_event list_vector env e.name) subs (λ x. refl)
            (λ x found''.
              let same : x ≡ sub = some-injective x sub (sym found'' ∙ found) in
              rw same (
                drop_client_event_lem env (pushed e sub)
                  (push-ValidSubscription env sub valid e short absent) e.name
                ∙ dropped-pushed e sub absent)))

  -- Taken out again, an event leaves no subscription that it began.
  removed_new :
      (e : ClientEvent) (subs : List ClientSubscription)
      → ValidTable env subs
      → strlen object_name < env.max_object_name_length
      → strlen e.name < env.max_object_name_length
      → subscription_of object_name subs ≡ none
      → remove_event list_vector env object_name e.name (subs ++ (single object_name e ∷ [])) ≡ subs
  removed_new e subs h named_short short missing =
      let subs' = subs ++ (single object_name e ∷ []) in
      let there : subscription_of object_name subs' ≡ some (single object_name e) =
        rw (find_first-append_new object_key object_name subs (single object_name e) missing)
          (rw (strcmp_eq_refl object_name)) in
      let own : event_in e.name (single object_name e) ≡ some e = rw (strcmp_eq_refl e.name) in
      remove_cases env object_name (λ subs''. subs'' ≡ subs) e.name subs'
        (entered_new env object_name e subs h named_short short missing)
        (λ gone. absurd (none_or (rw there at gone) own))
        (λ sub' found' none_left.
          remove_first-append_new object_key subs (single object_name e) missing)
        (λ sub' found' some_left.
          let same : sub' ≡ single object_name e =
            some-injective sub' (single object_name e) (sym found' ∙ there) in
          let empty : length (dropped e.name (single object_name e)).events ≡ 0 =
            rw (strcmp_eq_refl e.name) in
          absurd (omega (arith, some_left, ap (λ x. length (dropped e.name x).events) same, empty)))

  -- Taking out a new event gives the table of before.
  pub remove_event-insert_event :
      (e : ClientEvent) (subs : List ClientSubscription)
      → ValidTable env subs
      → strlen object_name < env.max_object_name_length
      → strlen e.name < env.max_object_name_length
      → event_of object_name e.name subs ≡ none
      → remove_event list_vector env object_name e.name
          (insert_event list_vector env object_name e subs)
        ≡ subs
  remove_event-insert_event e subs h named_short short fresh =
      insert_cases env object_name
        (λ subs'. remove_event list_vector env object_name e.name subs' ≡ subs) e subs h
        (λ sub found. removed_old e subs sub h short fresh found)
        (λ missing. removed_new e subs h named_short short missing)
