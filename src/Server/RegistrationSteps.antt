-- ===== src/Server/RegistrationSteps.antt =====
-- The cases of rbus_registerEvent.
use rbuscore.Base.{
  ℕ, ◌<◌, ◌≡◌, refl, ◌≢◌, inl, inr, ap, subst, true, sym, ◌∙◌, Bool-cases, Option-cases, Option,
  none, some, List, [], ◌∷◌, ◌++◌, leb, arith, Name, strlen, strnlen, strnlen_limit,
}
use mathlib.Core.Option.{some-injective}
use rbuscore.Rt.Vector.{list_vector, find_first}
use rbuscore.Keyed.{All-find_first, All-append_one, Distinct-append_one}
use rbuscore.Core.Types.{RbusError, success, Event, Object}
use rbuscore.Core.State.{Bus, ◌>>=◌}
use rbuscore.Core.Env.{Env}
use rbuscore.Server.Objects.{get_object, modify_object}
use rbuscore.Server.Events.{event_matches, find_event, server_event_create, or_default}
use rbuscore.Server.Registration.{ensure_handlers, register_event_on, register_event}
use rbuscore.Server.Valid.{
  ValidObject, ValidRegistry, event_key, object_of, event_in, object_found, event_found,
}
use rbuscore.Server.Replace.{replace, replace-replace, replace_self, update-replace, stored}
use rbuscore.Server.Outcome.{Outcome, ensure_outcome}

-- A new event: nobody listens to it yet.
abbrev pub new_event : Name → Name → Option ℕ → ℕ → Event
new_event event object callback user_data = record {
  name = event;
  object = object;
  listeners = [];
  sub_callback = callback;
  sub_data = user_data;
}

module _ (event : Name) (callback : Option ℕ) (user_data : ℕ) where
  abbrev pub pushed : Object → Object
  pushed o = record o {
    subscriptions = o.subscriptions ++ (new_event event o.name callback user_data ∷ []);
  }

  abbrev pub unless_there : Option Event → Object → Object
  unless_there (some e) o = o
  unless_there none o = pushed o

  -- The object with the event: the one that is there already, or the new one.
  abbrev pub with_event : Object → Object
  with_event o = unless_there (event_in event o) o

  pub with_event_name : (o : Object) → (with_event o).name ≡ o.name
  with_event_name o = elim (Option-cases (event_in event o)) [
    | inl fresh ↦ rw fresh
    | inr (e, there) ↦ rw there
  ]

  pub with_event-ValidObject :
      (env : Env) (o : Object)
      → ValidObject env o
      → strlen event < env.max_object_name_length
      → ValidObject env (with_event o)
  with_event-ValidObject env o v short = elim (Option-cases (event_in event o)) [
    | inr (e, there) ↦ rw there v
    | inl fresh ↦ rw fresh (record {
      name_short = v.name_short;
      methods_short = v.methods_short;
      methods_distinct = v.methods_distinct;
      methods_few = v.methods_few;
      events_short = All-append_one _ o.subscriptions _ v.events_short short;
      events_distinct =
          Distinct-append_one event_key o.subscriptions (new_event event o.name callback user_data)
            v.events_distinct fresh;
      events_owned = All-append_one _ o.subscriptions _ v.events_owned refl;
      listeners_distinct = All-append_one _ o.subscriptions _ v.listeners_distinct tt;
    })
  ]

  -- rbus_registerEvent behind its checks, for an object that is registered.
  module _ (env : Env) (object : Name) (o : Object) (s : Bus env.World)
      (h : ValidRegistry env s.server_objects) (found : object_of object s.server_objects ≡ some o)
      (short : strlen event < env.max_object_name_length) where
    valid_here : ValidObject env o
    valid_here = All-find_first _ _ s.server_objects o found h.objects_valid

    looked_up : find_first (event_matches env event) o.subscriptions ≡ event_in event o
    looked_up = event_found env event o valid_here

    ensured :
        (s1 : Bus env.World)
        → s1.server_objects ≡ replace object (with_event o) s.server_objects
        → let (ret, s') = ensure_handlers list_vector env object s1 in
          (o' : Object) × Outcome env object (with_event o) ret o'
          × (s'.server_objects ≡ replace object o' s.server_objects)
    ensured s1 now =
        let (valid, there) =
          stored object s.server_objects o found (with_event o) (with_event_name o) env
            s1.server_objects h (with_event-ValidObject env o valid_here short) now in
        let (o', out, final) = ensure_outcome env object (with_event o) s1 valid there in
        (
          o',
          out,
          final
              ∙ ap (replace object o') now
              ∙ replace-replace object (with_event o) o' s.server_objects,
        )

    register_event_outcome :
        let (ret, s') = register_event_on list_vector env object event callback user_data s in
        (o' : Object) × Outcome env object (with_event o) ret o'
        × (s'.server_objects ≡ replace object o' s.server_objects)
    unfolding register_event_on get_object find_event modify_object server_event_create
    register_event_outcome =
        rw
          (register_event_on, ◌>>=◌, get_object, object_found env object s.server_objects h ∙ found)
          (elim (Option-cases (event_in event o)) [
            | inr (e, there) ↦ rw (looked_up ∙ there) (
                ensured (record s { locked = true })
                  (rw there (sym (replace_self object s.server_objects o found))))
            | inl fresh ↦ rw (looked_up ∙ fresh) (
                ensured (modify_object env object pushed (record s { locked = true })).1
                  (rw fresh (update-replace object s.server_objects o found env pushed h refl)))
          ])

-- The call gets past the checks of rbus_registerEvent, to a registered object.
abbrev pub Reaches :
    (env : Env) → Option Name → Option Name → Bus env.World → Name → Object → Type 0
Reaches env object_name event_name s name o =
    (object_name ≡ some name)
    × (s.connection ≢ none)
    × (strlen (or_default event_name) < env.max_object_name_length)
    × (object_of name s.server_objects ≡ some o)

pub nothing_there :
    (os : List Object) (name n : Name) (o : Object)
    → object_of name os ≡ none
    → n ≡ name
    → object_of n os ≡ some o
    → ⊥
nothing_there os name n o missing same there = cc (subst (λ k. object_of k os ≡ some o) same there)

module _ (env : Env) (object_name event_name : Option Name) (callback : Option ℕ)
    (user_data : ℕ) where
  abbrev pub Unreached : Bus env.World → Type 0
  Unreached s = (name : Name) (o : Object) → ¬ Reaches env object_name event_name s name o

  -- rbus_registerEvent refuses and leaves the objects alone, or writes the object of the name.
  module _ {κ} (P : RbusError → List Object → Type κ) (s : Bus env.World)
      (h : ValidRegistry env s.server_objects)
      (refused : (ret : RbusError) → ret ≢ success → Unreached s → P ret s.server_objects)
      (done : (name : Name) (o o' : Object) (ret : RbusError)
        → Reaches env object_name event_name s name o
        → Outcome env name (with_event (or_default event_name) callback user_data o) ret o'
        → P ret (replace name o' s.server_objects)) where
    on_object :
        (name : Name)
        → object_name ≡ some name
        → s.connection ≢ none
        → strlen (or_default event_name) < env.max_object_name_length
        → let (ret, s') =
            register_event_on list_vector env name (or_default event_name) callback user_data s in
          P ret s'.server_objects
    unfolding register_event_on get_object
    on_object name given connected short = elim (Option-cases (object_of name s.server_objects)) [
      | inl missing ↦
          rw
            (
              register_event_on,
              ◌>>=◌,
              get_object,
              object_found env name s.server_objects h ∙ missing,
            )
            (refused 2 (λ e. omega arith)
              (λ n o r. absurd (
                nothing_there s.server_objects name n o missing
                  (some-injective n name (sym r.0 ∙ given)) r.3)))
      | inr (o, found) ↦
          let (o', out, now) =
            register_event_outcome (or_default event_name) callback user_data env name o s h found
              short in
          subst (P _) (sym now) (done name o o' _ (given, connected, short, found) out)
    ]

    pub register_event_cases :
        let (ret, s') =
          register_event list_vector env object_name event_name callback user_data s in
        P ret s'.server_objects
    unfolding register_event
    register_event_cases = elim (Option-cases s.connection) [
      | inl closed ↦
          rw (closed, register_event) (refused 4 (λ e. omega arith) (λ n o r. r.1 closed))
      | inr (c, connected) ↦
          rw (connected, register_event)
            (elim (Option-cases object_name) [
              | inl missing ↦ rw missing (refused 2 (λ e. omega arith) (λ n o r. cc (r.0)))
              | inr (name, given) ↦
                  rw given
                    (elim (Bool-cases (
                      leb env.max_object_name_length
                        (strnlen (or_default event_name) env.max_object_name_length))) [
                          | inl long ↦ rw long (
                              refused 2 (λ e. omega arith)
                                (λ n o r. ground (
                                  arith,
                                  strnlen_limit (or_default event_name) env.max_object_name_length,
                                  r.2,
                                )))
                          | inr fits ↦ rw fits (
                              on_object name given (λ e. cc)
                                (ground (
                                  arith,
                                  strnlen_limit (or_default event_name) env.max_object_name_length,
                                )))
                        ])
            ])
    ]
