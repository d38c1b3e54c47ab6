-- ===== src/Client/TableLaws.antt =====
-- The effect of events entered in the table of subscriptions and taken out of it.
use rbuscore.Base.{
  ◌≡◌, refl, ◌∙◌, sym, ◌&&◌, Bool-cases, inl, inr, none, some, List, [], ◌∷◌, arith, length,
  if◌then◌else◌, Name, strcmp_eq, strcmp_eq→eq, false,
}
use rbuscore.Rt.Vector.{list_vector, find_first}
use rbuscore.Keyed.{
  named, find_first-update_first, find_first-append_new, All-find_first, find_first-remove_first,
}
use rbuscore.Core.Types.{ClientEvent, ClientSubscription}
use rbuscore.Core.Env.{Env}
use rbuscore.Client.Table.{drop_client_event, insert_event, remove_event}
use rbuscore.Client.Valid.{
  ValidSubscription, ValidTable, object_key, event_key, event_in, event_of, drop_client_event_lem,
}
use rbuscore.Client.TableCases.{pushed, single, dropped, insert_cases, remove_cases}

module _ (env : Env) (object_name : Name) where
  -- A new event shows under its object and its name, and nothing else changes.
  pub event_of-insert_event :
      (e : ClientEvent) (subs : List ClientSubscription) (object event : Name)
      → ValidTable env subs
      → event_of object_name e.name subs ≡ none
      → event_of object event (insert_event list_vector env object_name e subs) ≡ (
          if strcmp_eq object_name object && strcmp_eq e.name event
          then some e
          else event_of object event subs)
  event_of-insert_event e subs object event h fresh =
      insert_cases env object_name
        (λ subs'. event_of object event subs' ≡ (
          if strcmp_eq object_name object && strcmp_eq e.name event
          then some e
          else event_of object event subs))
        e subs h
        (λ sub found.
          rw (find_first-update_first object_key object object_name (pushed e) subs (λ x. refl))
            (elim (Bool-cases (strcmp_eq object_name object)) [
              | inr other ↦ rw other
              | inl same ↦
                  rw (same, ← strcmp_eq→eq object_name object same, found)
                    (find_first-append_new event_key event sub.events e (rw found at fresh))
            ]))
        (λ missing.
          rw (find_first-append_new object_key object subs (single object_name e) missing)
            (elim (Bool-cases (strcmp_eq object_name object)) [
              | inr other ↦ rw other
              | inl same ↦ rw (same, ← strcmp_eq→eq object_name object same, missing) refl
            ]))

  keeps_object :
      (event_name : Name) (sub : ClientSubscription)
      → (drop_client_event list_vector env event_name sub).object ≡ sub.object
  unfolding drop_client_event
  keeps_object event_name sub = refl

  find_first-nil :
      (event : Name) (es : List ClientEvent)
      → length es ≡ 0
      → find_first (named event_key event) es ≡ none
  find_first-nil event [] e = refl
  find_first-nil event (x ∷ es) e = absurd (omega (arith, e))

  only-none :
      (event_name event : Name) (sub : ClientSubscription)
      → ValidSubscription env sub
      → length (dropped event_name sub).events ≡ 0
      → strcmp_eq event_name event ≡ false
      → event_in event sub ≡ none
  only-none event_name event sub valid none_left other =
      let kept : event_in event (dropped event_name sub) ≡ event_in event sub =
        rw (find_first-remove_first event_key event event_name sub.events valid.events_distinct)
          (rw other) in
      sym kept ∙ find_first-nil event (dropped event_name sub).events none_left

  -- An event that is taken out no longer shows, and nothing else changes.
  pub event_of-remove_event :
      (event_name : Name) (subs : List ClientSubscription) (object event : Name)
      → ValidTable env subs
      → event_of object event (remove_event list_vector env object_name event_name subs) ≡ (
          if strcmp_eq object_name object && strcmp_eq event_name event
          then none
          else event_of object event subs)
  event_of-remove_event event_name subs object event h =
      remove_cases env object_name
        (λ subs'. event_of object event subs' ≡ (
          if strcmp_eq object_name object && strcmp_eq event_name event
          then none
          else event_of object event subs))
        event_name subs h
        (λ absent. elim (Bool-cases (strcmp_eq object_name object)) [
          | inr other ↦ rw other
          | inl same ↦ elim (Bool-cases (strcmp_eq event_name event)) [
            | inr other ↦ rw (same, other)
            | inl alike ↦
                rw (same, alike)
                  (rw (
                    ← strcmp_eq→eq object_name object same,
                    ← strcmp_eq→eq event_name event alike,
                    absent,
                  ))
          ]
        ])
        (λ sub found none_left.
          let valid = All-find_first _ _ _ sub found h.subs_valid in
          rw (find_first-remove_first object_key object object_name subs h.subs_distinct)
            (elim (Bool-cases (strcmp_eq object_name object)) [
              | inr other ↦ rw other
              | inl same ↦ elim (Bool-cases (strcmp_eq event_name event)) [
                | inl alike ↦ rw (same, alike)
                | inr differs ↦
                    rw (same, differs, ← strcmp_eq→eq object_name object same, found)
                      (sym (only-none event_name event sub valid none_left differs))
              ]
            ]))
        (λ sub found some_left.
          let valid = All-find_first _ _ _ sub found h.subs_valid in
          rw
            (find_first-update_first object_key object object_name
              (drop_client_event list_vector env event_name) subs (λ x. keeps_object event_name x))
            (elim (Bool-cases (strcmp_eq object_name object)) [
              | inr other ↦ rw other
              | inl same ↦
                  rw (same, ← strcmp_eq→eq object_name object same, found)
                    (rw (drop_client_event_lem env sub valid event_name) (
                      find_first-remove_first event_key event event_name sub.events
                        valid.events_distinct))
            ]))
