-- ===== src/Server/UnregistrationLaws.antt =====
-- What rbus_unregisterEvent and rbus_registerSubscribeHandler do to the registered objects.
use rbuscore.Base.{
  ◌≡◌, refl, ◌≢◌, ◌⊎◌, inl, inr, subst, sym, ◌∙◌, Bool-cases, Option-cases, Option, none, some,
  List, ◌&&◌, if◌then◌else◌, arith, Name, strcmp_eq, strcmp_eq→eq,
}
use rbuscore.Rt.Vector.{Vector, IsVector, list_vector, vector-eq, remove_first}
use rbuscore.Keyed.{
  All-find_first, All-remove_first, Distinct-remove_first, remove_first-Bounded,
  find_first-remove_first,
}
use rbuscore.Core.Types.{RbusError, success, Event, Object}
use rbuscore.Core.State.{Bus, ◌>>=◌}
use rbuscore.Core.Env.{Env}
use rbuscore.Server.Objects.{get_object, modify_object}
use rbuscore.Server.Events.{or_default, find_event, event_matches}
use rbuscore.Server.Registration.{unregister_event}
use rbuscore.Server.Valid.{
  ValidObject, ValidRegistry, event_key, object_of, event_in, event_of, object_found, event_found,
}
use rbuscore.Server.Replace.{replace, update-replace, event_of-replace, replace-ValidRegistry}

module _ (env : Env) (event : Name) where
  -- The object without its first event that compares equal.
  abbrev pub without : Object → Object
  without o = record o { subscriptions = remove_first (event_matches env event) o.subscriptions }

  without-ValidObject : (o : Object) → ValidObject env o → ValidObject env (without o)
  without-ValidObject o v = record {
    name_short = v.name_short;
    methods_short = v.methods_short;
    methods_distinct = v.methods_distinct;
    methods_few = v.methods_few;
    events_short = All-remove_first _ _ o.subscriptions v.events_short;
    events_distinct = Distinct-remove_first event_key _ o.subscriptions v.events_distinct;
    events_owned = All-remove_first _ _ o.subscriptions v.events_owned;
    listeners_distinct = All-remove_first _ _ o.subscriptions v.listeners_distinct;
  }

  event_in-without :
      (o : Object) (y : Name)
      → ValidObject env o
      → event_in y (without o) ≡ (if strcmp_eq event y then none else event_in y o)
  unfolding event_matches
  event_in-without o y v =
      rw
        (remove_first-Bounded event_key env.max_object_name_length event o.subscriptions
          v.events_short)
        (find_first-remove_first event_key y event o.subscriptions v.events_distinct)

  pub event_of-without :
      (name : Name) (o : Object) (os : List Object)
      → object_of name os ≡ some o
      → ValidObject env o
      → (x y : Name)
      → event_of x y (replace name (without o) os)
        ≡ (if strcmp_eq name x && strcmp_eq event y then none else event_of x y os)
  event_of-without name o os found v x y =
      rw (event_of-replace name os o found (without o) refl x y)
        (elim (Bool-cases (strcmp_eq name x)) [
          | inr other ↦ rw other
          | inl same ↦ rw (same, ← strcmp_eq→eq name x same, found) (event_in-without o y v)
        ])

-- rbus_unregisterEvent removes an event that its object has, or leaves the objects alone.
pub unregister_event_cases {κ} :
    (env : Env) (name : Name) (event_name : Option Name) (P : RbusError → List Object → Type κ)
    (s : Bus env.World)
    → ValidRegistry env s.server_objects
    → ((ret : RbusError)
        → ret ≢ success
        → event_of name (or_default event_name) s.server_objects ≡ none
        → P ret s.server_objects)
    → ((o : Object) (e : Event)
        → object_of name s.server_objects ≡ some o
        → event_in (or_default event_name) o ≡ some e
        → P success (replace name (without env (or_default event_name) o) s.server_objects))
    → let (ret, s') = unregister_event list_vector env name event_name s in P ret s'.server_objects
unfolding unregister_event get_object find_event modify_object
unregister_event_cases env name event_name P s h refused removed =
    elim (Option-cases (object_of name s.server_objects)) [
      | inl missing ↦
          rw
            (
              unregister_event,
              ◌>>=◌,
              get_object,
              object_found env name s.server_objects h ∙ missing,
            )
            (refused 2 (λ e. omega arith) (rw missing))
      | inr (o, found) ↦
          let looked_up =
            event_found env (or_default event_name) o
              (All-find_first _ _ s.server_objects o found h.objects_valid) in
          rw (unregister_event, ◌>>=◌, get_object, object_found env name s.server_objects h ∙ found)
            (elim (Option-cases (event_in (or_default event_name) o)) [
              | inl absent ↦
                  rw (looked_up ∙ absent) (refused 2 (λ e. omega arith) (rw found absent))
              | inr (e, there) ↦ rw (looked_up ∙ there) (
                  subst (P success)
                    (sym (
                      update-replace name s.server_objects o found env
                        (without env (or_default event_name)) h refl))
                    (removed o e found there))
            ])
    ]

-- What rbus_unregisterEvent does to the events that can be found, on a well-formed registry: it
-- succeeds exactly when its object has the event, and then no event is left under the name and all
-- others are as they were; otherwise it leaves the registered objects as they were.
pub event_of-unregister_event :
    (v : Vector) (env : Env) (name : Name) (event_name : Option Name) (s : Bus env.World)
    (x y : Name)
    → IsVector v
    → ValidRegistry env s.server_objects
    → let (ret, s') = unregister_event v env name event_name s in
      ((ret ≡ success)
        × (event_of name (or_default event_name) s.server_objects ≢ none)
        × (event_of x y s'.server_objects ≡ (
            if strcmp_eq name x && strcmp_eq (or_default event_name) y
            then none
            else event_of x y s.server_objects)))
      ⊎ ((ret ≢ success)
          × (event_of name (or_default event_name) s.server_objects ≡ none)
          × (s'.server_objects ≡ s.server_objects))
event_of-unregister_event v env name en s x y iv h = rw (vector-eq v iv) (
    unregister_event_cases env name en
      (λ ret os.
        ((ret ≡ success)
          × (event_of name (or_default en) s.server_objects ≢ none)
          × (event_of x y os ≡ (
              if strcmp_eq name x && strcmp_eq (or_default en) y
              then none
              else event_of x y s.server_objects)))
        ⊎ ((ret ≢ success)
            × (event_of name (or_default en) s.server_objects ≡ none)
            × (os ≡ s.server_objects)))
      s h (λ ret bad absent. inr (bad, absent, refl))
      λ o e found there. inl (
        refl,
        rw (found, there) (λ q. cc),
        event_of-without env (or_default en) name o s.server_objects found
            (All-find_first _ _ s.server_objects o found h.objects_valid) x y,
      ))

-- rbus_unregisterEvent keeps the registry well-formed; the vectors are as documented.
pub unregister_event-ValidRegistry :
    (v : Vector) (env : Env) (name : Name) (event_name : Option Name) (s : Bus env.World)
    → IsVector v
    → ValidRegistry env s.server_objects
    → ValidRegistry env (unregister_event v env name event_name s).1.server_objects
unregister_event-ValidRegistry v env name en s iv h = rw (vector-eq v iv) (
    unregister_event_cases env name en (λ ret os. ValidRegistry env os) s h (λ ret bad absent. h)
      λ o e found there.
        replace-ValidRegistry name s.server_objects o found (without env (or_default en) o) refl env
          h
          (without-ValidObject env (or_default en) o
            (All-find_first _ _ s.server_objects o found h.objects_valid)))
