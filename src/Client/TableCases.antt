-- ===== src/Client/TableCases.antt =====
-- Events entered in the table of subscriptions and taken out of it: the cases, and that the table
-- stays well-formed.
use rbuscore.Base.{
  ◌≤◌, ◌<◌, ◌≡◌, refl, Bool-cases, Option-cases, inl, inr, none, some, List, [], ◌∷◌, ◌++◌, arith,
  update_first, length, ◌==◌, Name, strlen,
}
use rbuscore.Rt.Vector.{remove_first, list_vector}
use rbuscore.Keyed.{
  named, All-update_first, update_first-All, All-append_one, All-remove_first, All-find_first,
  Distinct-append_one, Distinct-update_first, Distinct-remove_first,
}
use rbuscore.Core.Types.{ClientEvent, ClientSubscription}
use rbuscore.Core.Env.{Env}
use rbuscore.Client.Table.{
  push_client_event, drop_client_event, client_subscription_create, insert_event, remove_event,
}
use rbuscore.Client.Valid.{
  ValidSubscription, ValidTable, object_key, event_key, subscription_of, event_in, event_of,
  find_subscription_lem, subs_updated, subs_removed, find_client_event_lem, drop_client_event_lem,
  push-ValidSubscription,
}

abbrev pub pushed : ClientEvent → ClientSubscription → ClientSubscription
pushed e sub = record sub { events = sub.events ++ (e ∷ []) }

abbrev pub single : Name → ClientEvent → ClientSubscription
single object_name e = record { object = object_name; events = e ∷ [] }

abbrev pub dropped : Name → ClientSubscription → ClientSubscription
dropped event_name sub = record sub {
  events = remove_first (named event_key event_name) sub.events;
}

module _ (env : Env) (object_name : Name) where
  -- A new event is appended to the subscription of its object, or begins one.
  pub insert_cases {κ} :
      (P : List ClientSubscription → Type κ) (e : ClientEvent) (subs : List ClientSubscription)
      → ValidTable env subs
      → ((sub : ClientSubscription)
          → subscription_of object_name subs ≡ some sub
          → P (update_first (named object_key object_name) (pushed e) subs))
      → (subscription_of object_name subs ≡ none → P (subs ++ (single object_name e ∷ [])))
      → P (insert_event list_vector env object_name e subs)
  unfolding insert_event push_client_event client_subscription_create
  insert_cases P e subs h old new =
      rw (insert_event, find_subscription_lem env subs h object_name)
        (elim (Option-cases (subscription_of object_name subs)) [
          | inl missing ↦ rw missing (new missing)
          | inr (sub, found) ↦
              rw found (rw (subs_updated env subs h object_name (pushed e)) (old sub found))
        ])

  -- An event that is there is taken out, and its subscription with it if it was the only one.
  pub remove_cases {κ} :
      (P : List ClientSubscription → Type κ) (event_name : Name) (subs : List ClientSubscription)
      → ValidTable env subs
      → (event_of object_name event_name subs ≡ none → P subs)
      → ((sub : ClientSubscription)
          → subscription_of object_name subs ≡ some sub
          → length (dropped event_name sub).events ≡ 0
          → P (remove_first (named object_key object_name) subs))
      → ((sub : ClientSubscription)
          → subscription_of object_name subs ≡ some sub
          → 1 ≤ length (dropped event_name sub).events
          → P (
              update_first
                (named object_key object_name)
                (drop_client_event list_vector env event_name)
                subs))
      → P (remove_event list_vector env object_name event_name subs)
  unfolding remove_event
  remove_cases P event_name subs h absent last more =
      rw (remove_event, find_subscription_lem env subs h object_name)
        (elim (Option-cases (subscription_of object_name subs)) [
          | inl missing ↦ rw missing (absent (rw missing))
          | inr (sub, found) ↦
              let valid = All-find_first _ _ _ sub found h.subs_valid in
              rw (found, find_client_event_lem env sub valid event_name)
                (elim (Option-cases (event_in event_name sub)) [
                  | inl missing ↦ rw missing (absent (rw found missing))
                  | inr (e, there) ↦
                      rw (there, drop_client_event_lem env sub valid event_name)
                        (elim (Bool-cases (length (dropped event_name sub).events == 0)) [
                          | inl none_left ↦ rw none_left (
                              rw (subs_removed env subs h object_name)
                                (last sub found (ground arith)))
                          | inr some_left ↦ rw some_left (
                              rw
                                (subs_updated env subs h object_name
                                  (drop_client_event list_vector env event_name))
                                (more sub found (ground arith)))
                        ])
                ])
        ])

  pub entered_old :
      (e : ClientEvent) (subs : List ClientSubscription) (sub : ClientSubscription)
      → ValidTable env subs
      → strlen e.name < env.max_object_name_length
      → event_of object_name e.name subs ≡ none
      → subscription_of object_name subs ≡ some sub
      → ValidTable env (update_first (named object_key object_name) (pushed e) subs)
  entered_old e subs sub h short fresh found = record {
    subs_valid =
        All-update_first _ _ (pushed e) subs sub found
          (push-ValidSubscription env sub (All-find_first _ _ _ sub found h.subs_valid) e short
            (rw found at fresh))
          h.subs_valid;
    subs_short = update_first-All _ _ (pushed e) subs (λ x b. b) h.subs_short;
    subs_distinct = Distinct-update_first object_key _ (pushed e) subs (λ x. refl) h.subs_distinct;
  }

  pub single-ValidSubscription :
      (e : ClientEvent)
      → strlen e.name < env.max_object_name_length
      → ValidSubscription env (single object_name e)
  single-ValidSubscription e short = record {
    events_short = (short, tt);
    events_distinct = (tt, tt);
    events_some = omega arith;
  }

  pub entered_new :
      (e : ClientEvent) (subs : List ClientSubscription)
      → ValidTable env subs
      → strlen object_name < env.max_object_name_length
      → strlen e.name < env.max_object_name_length
      → subscription_of object_name subs ≡ none
      → ValidTable env (subs ++ (single object_name e ∷ []))
  entered_new e subs h named_short short missing = record {
    subs_valid = All-append_one _ subs _ h.subs_valid (single-ValidSubscription e short);
    subs_short = All-append_one _ subs _ h.subs_short named_short;
    subs_distinct = Distinct-append_one object_key subs _ h.subs_distinct missing;
  }

  -- A new event of short names keeps the table well-formed.
  pub insert_event-ValidTable :
      (e : ClientEvent) (subs : List ClientSubscription)
      → ValidTable env subs
      → strlen object_name < env.max_object_name_length
      → strlen e.name < env.max_object_name_length
      → event_of object_name e.name subs ≡ none
      → ValidTable env (insert_event list_vector env object_name e subs)
  insert_event-ValidTable e subs h named_short short fresh =
      insert_cases (ValidTable env) e subs h
        (λ sub found. entered_old e subs sub h short fresh found)
        (entered_new e subs h named_short short)

  -- Taking an event out keeps the table well-formed.
  pub remove_event-ValidTable :
      (event_name : Name) (subs : List ClientSubscription)
      → ValidTable env subs
      → ValidTable env (remove_event list_vector env object_name event_name subs)
  unfolding drop_client_event
  remove_event-ValidTable event_name subs h =
      remove_cases (ValidTable env) event_name subs h (λ absent. h)
        (λ sub found none_left. record {
          subs_valid = All-remove_first _ _ subs h.subs_valid;
          subs_short = All-remove_first _ _ subs h.subs_short;
          subs_distinct = Distinct-remove_first object_key _ subs h.subs_distinct;
        })
        λ sub found some_left.
          let valid = All-find_first _ _ _ sub found h.subs_valid in
          record {
            subs_valid =
                All-update_first _ _ (drop_client_event list_vector env event_name) subs sub found
                  (rw (drop_client_event_lem env sub valid event_name) (record {
                    events_short = All-remove_first _ _ sub.events valid.events_short;
                    events_distinct =
                        Distinct-remove_first event_key _ sub.events valid.events_distinct;
                    events_some = some_left;
                  }))
                  h.subs_valid;
            subs_short = update_first-All _ _ _ subs (λ x b. b) h.subs_short;
            subs_distinct = Distinct-update_first object_key _ _ subs (λ x. refl) h.subs_distinct;
          }
