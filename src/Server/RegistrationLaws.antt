-- ===== src/Server/RegistrationLaws.antt =====
-- What the registration of an event does to the events that can be found.
use rbuscore.Base.{
  ℕ, ◌≡◌, refl, ◌≢◌, ◌⊎◌, ◌↔◌, inl, inr, ap, ◌∙◌, Bool-cases, Option-cases, Option, none, some,
  List, ◌&&◌, if◌then◌else◌, Name, strcmp_eq, strcmp_eq→eq,
}
use rbuscore.Rt.Vector.{Vector, IsVector, vector-eq, find_first}
use rbuscore.Keyed.{named, All-find_first, find_first-append_new}
use rbuscore.Core.Types.{RbusError, success, Event, Object}
use rbuscore.Core.State.{Bus}
use rbuscore.Core.Env.{Env}
use rbuscore.Server.Events.{or_default}
use rbuscore.Server.Registration.{register_event}
use rbuscore.Server.Valid.{ValidRegistry, event_key, method_in, object_of, event_in, event_of}
use rbuscore.Server.Replace.{replace, object_name_lem, event_of-replace, replace-ValidRegistry}
use rbuscore.Server.Handlers.{CanDispatch}
use rbuscore.Server.Outcome.{Outcome, outcome_success, outcome_kept, outcome-ValidObject}
use rbuscore.Server.RegistrationSteps.{
  new_event, with_event, with_event_name, with_event-ValidObject, Reaches, register_event_cases,
}

-- The event that is there already, or else the new one.
abbrev pub or_new : Event → Option Event → Option Event
or_new e none = some e
or_new e (some e') = some e'

module _ (event : Name) (callback : Option ℕ) (user_data : ℕ) where
  event_in-with_event :
      (o : Object) (y : Name)
      → event_in y (with_event event callback user_data o) ≡ (
          if strcmp_eq event y
          then or_new (new_event event o.name callback user_data) (event_in y o)
          else event_in y o)
  event_in-with_event o y = elim (Option-cases (event_in event o)) [
    | inl fresh ↦
        rw
          (
            fresh,
            find_first-append_new event_key y o.subscriptions
                (new_event event o.name callback user_data) fresh,
          )
          (elim (Bool-cases (strcmp_eq event y)) [
            | inl same ↦ rw (same, ← strcmp_eq→eq event y same, fresh)
            | inr other ↦ rw other
          ])
    | inr (e, there) ↦ rw there (elim (Bool-cases (strcmp_eq event y)) [
      | inl same ↦ rw (same, ← strcmp_eq→eq event y same, there)
      | inr other ↦ rw other
    ])
  ]

  pub method_in-with_event :
      (o : Object) (y : Name) → method_in y (with_event event callback user_data o) ≡ method_in y o
  method_in-with_event o y = elim (Option-cases (event_in event o)) [
    | inl fresh ↦ rw fresh
    | inr (e, there) ↦ rw there
  ]

  pub with_event-CanDispatch :
      (o : Object) → CanDispatch (with_event event callback user_data o) ↔ CanDispatch o
  with_event-CanDispatch o = elim (Option-cases (event_in event o)) [
    | inl fresh ↦ rw fresh (λ c. c, λ c. c)
    | inr (e, there) ↦ rw there (λ c. c, λ c. c)
  ]

module _ (env : Env) (event name : Name) (callback : Option ℕ) (user_data : ℕ) (o o' : Object)
    {ret : RbusError} (os : List Object) (found : object_of name os ≡ some o)
    (out : Outcome env name (with_event event callback user_data o) ret o') where
  pub same_name : o'.name ≡ o.name
  same_name = (outcome_kept env name out).0 ∙ with_event_name event callback user_data o

  pub event_of-registered :
      (x y : Name)
      → event_of x y (replace name o' os) ≡ (
          if strcmp_eq name x && strcmp_eq event y
          then or_new (new_event event name callback user_data) (event_of x y os)
          else event_of x y os)
  event_of-registered x y =
      rw (event_of-replace name os o found o' same_name x y) (elim (Bool-cases (strcmp_eq name x)) [
        | inr other ↦ rw other
        | inl same ↦
            rw (same, ← strcmp_eq→eq name x same, found, ← object_name_lem name os o found)
              (ap (find_first (named event_key y)) (outcome_kept env name out).1
                ∙ event_in-with_event event callback user_data o y)
      ])

-- What rbus_registerEvent does to the events that can be found, on a well-formed registry. If the
-- bus is connected, the object is given and registered and the event's name is short enough, the
-- event is there afterwards, with no listeners if it was not there before, all other events are as
-- they were, and the call succeeds exactly when the object takes subscription requests already or
-- has room for the methods _subscribe and _unsubscribe; in all other cases it fails and leaves the
-- registered objects as they were. So an event may be registered by a call that reports a failure.
pub event_of-register_event :
    (v : Vector) (env : Env) (object_name event_name : Option Name) (callback : Option ℕ)
    (user_data : ℕ) (s : Bus env.World) (x y : Name)
    → IsVector v
    → ValidRegistry env s.server_objects
    → let (ret, s') = register_event v env object_name event_name callback user_data s in
      ((name : Name) × ((o : Object) × Reaches env object_name event_name s name o
          × ((ret ≡ success) ↔ CanDispatch o)
          × (event_of x y s'.server_objects ≡ (
              if strcmp_eq name x && strcmp_eq (or_default event_name) y
              then or_new
                  (new_event (or_default event_name) name callback user_data)
                  (event_of x y s.server_objects)
              else event_of x y s.server_objects))))
      ⊎ ((ret ≢ success)
          × ((name : Name) (o : Object) → ¬ Reaches env object_name event_name s name o)
          × (s'.server_objects ≡ s.server_objects))
event_of-register_event v env on en cb ud s x y iv h = rw (vector-eq v iv) (
    register_event_cases env on en cb ud
      (λ ret os.
        ((name : Name) × ((o : Object) × Reaches env on en s name o
            × ((ret ≡ success) ↔ CanDispatch o)
            × (event_of x y os ≡ (
                if strcmp_eq name x && strcmp_eq (or_default en) y
                then or_new (new_event (or_default en) name cb ud) (event_of x y s.server_objects)
                else event_of x y s.server_objects))))
        ⊎ ((ret ≢ success)
            × ((name : Name) (o : Object) → ¬ Reaches env on en s name o)
            × (os ≡ s.server_objects)))
      s h (λ ret bad unreached. inr (bad, unreached, refl))
      λ name o o' ret r out.
        let (here, there) = outcome_success env name out in
        let (down, up) = with_event-CanDispatch (or_default en) cb ud o in
        inl (
          name,
          (
            o,
            r,
            (λ good. down (here good), λ can. there (up can)),
            event_of-registered env (or_default en) name cb ud o o' s.server_objects r.3 out x y,
          ),
        ))

-- rbus_registerEvent keeps the registry well-formed, also where it fails halfway; the vectors are as
-- documented.
pub register_event-ValidRegistry :
    (v : Vector) (env : Env) (object_name event_name : Option Name) (callback : Option ℕ)
    (user_data : ℕ) (s : Bus env.World)
    → IsVector v
    → ValidRegistry env s.server_objects
    → ValidRegistry env
        (register_event v env object_name event_name callback user_data s).1.server_objects
register_event-ValidRegistry v env on en cb ud s iv h = rw (vector-eq v iv) (
    register_event_cases env on en cb ud (λ ret os. ValidRegistry env os) s h
      (λ ret bad unreached. h)
      λ name o o' ret r out.
        replace-ValidRegistry name s.server_objects o r.3 o'
          (same_name env (or_default en) name cb ud o o' s.server_objects r.3 out) env h
          (outcome-ValidObject env name out (
            with_event-ValidObject (or_default en) cb ud env o
              (All-find_first _ _ s.server_objects o r.3 h.objects_valid) r.2)))
