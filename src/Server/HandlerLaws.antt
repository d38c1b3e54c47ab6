-- ===== src/Server/HandlerLaws.antt =====
-- What rbus_registerSubscribeHandler does to the registered objects.
use rbuscore.Base.{
  ℕ, ◌≡◌, refl, ◌≢◌, ◌⊎◌, ◌↔◌, inl, inr, ap, subst, sym, ◌∙◌, true, Option-cases, Option, some,
  List, if◌then◌else◌, arith, Name, strcmp_eq,
}
use mathlib.Core.Option.{some-injective}
use rbuscore.Rt.Vector.{Vector, IsVector, list_vector, vector-eq}
use rbuscore.Keyed.{All-find_first}
use rbuscore.Core.Types.{RbusError, success, Object}
use rbuscore.Core.State.{Bus, ◌>>=◌}
use rbuscore.Core.Env.{Env}
use rbuscore.Server.Objects.{get_object, modify_object}
use rbuscore.Server.Registration.{set_subscribe_handler, register_subscribe_handler}
use rbuscore.Server.Valid.{ValidRegistry, object_of, object_found}
use rbuscore.Server.Replace.{
  replace, update-replace, object_of-replace, replace-ValidRegistry, stored, replace-replace,
}
use rbuscore.Server.Handlers.{CanDispatch, marked-ValidObject}
use rbuscore.Server.RegistrationSteps.{nothing_there}
use rbuscore.Server.Outcome.{
  Outcome, ensure_outcome, outcome_success, outcome_kept, outcome_override, outcome-ValidObject,
}

-- The object with the handler of the application for subscription requests.
abbrev pub overridden : ℕ → ℕ → Object → Object
overridden callback user_data o = record o {
  subscribe_handler_override = some callback;
  subscribe_handler_data = user_data;
}

-- The call has both arguments, and reaches a registered object.
abbrev pub Sets : Option Name → Option ℕ → List Object → Name → ℕ → Object → Type 0
Sets object_name callback os name f o =
    (object_name ≡ some name) × (callback ≡ some f) × (object_of name os ≡ some o)

module _ (env : Env) (object_name : Option Name) (callback : Option ℕ) (user_data : ℕ) where
  -- rbus_registerSubscribeHandler refuses and leaves the objects alone, or writes one object.
  module _ {κ} (P : RbusError → List Object → Type κ) (s : Bus env.World)
      (h : ValidRegistry env s.server_objects)
      (refused : (ret : RbusError)
        → ret ≢ success
        → ((name : Name) (f : ℕ) (o : Object)
            → ¬ Sets object_name callback s.server_objects name f o)
        → P ret s.server_objects)
      (done : (name : Name) (f : ℕ) (o o' : Object) (ret : RbusError)
        → Sets object_name callback s.server_objects name f o
        → Outcome env name (overridden f user_data o) ret o'
        → P ret (replace name o' s.server_objects)) where
    set_cases :
        (name : Name) (f : ℕ)
        → object_name ≡ some name
        → callback ≡ some f
        → let (ret, s') = set_subscribe_handler list_vector env name f user_data s in
          P ret s'.server_objects
    unfolding set_subscribe_handler get_object modify_object
    set_cases name f given set = elim (Option-cases (object_of name s.server_objects)) [
      | inl missing ↦
          rw
            (
              set_subscribe_handler,
              ◌>>=◌,
              get_object,
              object_found env name s.server_objects h ∙ missing,
            )
            (refused 2 (λ e. omega arith)
              (λ n g o r.
                nothing_there s.server_objects name n o missing
                  (some-injective n name (sym r.0 ∙ given)) r.2))
      | inr (o, found) ↦
          rw
            (
              set_subscribe_handler,
              ◌>>=◌,
              get_object,
              object_found env name s.server_objects h ∙ found,
            )
            (let s1 =
                (modify_object env name (overridden f user_data) (record s { locked = true })).1 in
              let now : s1.server_objects
                  ≡ replace name (overridden f user_data o) s.server_objects =
                update-replace name s.server_objects o found env (overridden f user_data) h refl in
              let (valid, there) =
                stored name s.server_objects o found (overridden f user_data o) refl env
                  s1.server_objects h
                  (marked-ValidObject env o o.process_event_subscriptions (some f) user_data
                    (All-find_first _ _ s.server_objects o found h.objects_valid))
                  now in
              let (o', out, final) =
                ensure_outcome env name (overridden f user_data o) s1 valid there in
              subst (P _)
                (sym (
                  final
                  ∙ ap (replace name o') now
                  ∙ replace-replace name (overridden f user_data o) o' s.server_objects))
                (done name f o o' _ (given, set, found) out))
    ]

    pub register_subscribe_handler_cases :
        let (ret, s') =
          register_subscribe_handler list_vector env object_name callback user_data s in
        P ret s'.server_objects
    unfolding register_subscribe_handler
    register_subscribe_handler_cases = elim (Option-cases object_name) [
      | inl missing ↦ rw missing (refused 2 (λ e. omega arith) (λ n g o r. cc (r.0)))
      | inr (name, given) ↦ rw given (elim (Option-cases callback) [
        | inl missing ↦ rw missing (refused 2 (λ e. omega arith) (λ n g o r. cc (r.1)))
        | inr (f, set) ↦ rw set (set_cases name f given set)
      ])
    ]

-- The object of the call has the handler afterwards, or the call fails and nothing changes.
abbrev pub HasSet :
    Option Name → Option ℕ → ℕ → Name → List Object → RbusError → List Object → Type 0
HasSet object_name callback user_data x before ret after =
    ((name : Name) × ((f : ℕ) × ((o : Object) × ((o' : Object) × Sets object_name callback before
              name f o
            × ((ret ≡ success) ↔ CanDispatch o)
            × (o'.subscribe_handler_override ≡ some f)
            × (o'.subscribe_handler_data ≡ user_data)
            × (o'.subscriptions ≡ o.subscriptions)
            × (object_of x after ≡ (if strcmp_eq name x then some o' else object_of x before))))))
    ⊎ ((ret ≢ success)
        × ((name : Name) (f : ℕ) (o : Object) → ¬ Sets object_name callback before name f o)
        × (after ≡ before))

-- What rbus_registerSubscribeHandler does to the registered objects, if they are well-formed: with
-- both arguments given and the object registered, the object has the given handler and data
-- afterwards, and its own events, all other objects are as they were, and the call succeeds exactly
-- when the object takes subscription requests already or has room for the methods _subscribe and
-- _unsubscribe; in all other cases it fails and leaves the registered objects as they were.
pub object_of-register_subscribe_handler :
    (v : Vector) (env : Env) (object_name : Option Name) (callback : Option ℕ) (user_data : ℕ)
    (s : Bus env.World) (x : Name)
    → IsVector v
    → ValidRegistry env s.server_objects
    → let (ret, s') = register_subscribe_handler v env object_name callback user_data s in
      HasSet object_name callback user_data x s.server_objects ret s'.server_objects
object_of-register_subscribe_handler v env on cb ud s x iv h = rw (vector-eq v iv) (
    register_subscribe_handler_cases env on cb ud
      (λ ret os. HasSet on cb ud x s.server_objects ret os) s h
      (λ ret bad unset. inr (bad, unset, refl))
      λ name f o o' ret r out.
        let (handler, handler_data) = outcome_override env name out in
        let (name_same, events) = outcome_kept env name out in
        let found_then = object_of-replace name s.server_objects o r.2 o' name_same x in
        let succeeds = outcome_success env name out in
        inl (name, (f, (o, (o', r, succeeds, handler, handler_data, events, found_then)))))

-- rbus_registerSubscribeHandler keeps the registry well-formed; the vectors are as documented.
pub register_subscribe_handler-ValidRegistry :
    (v : Vector) (env : Env) (object_name : Option Name) (callback : Option ℕ) (user_data : ℕ)
    (s : Bus env.World)
    → IsVector v
    → ValidRegistry env s.server_objects
    → ValidRegistry env
        (register_subscribe_handler v env object_name callback user_data s).1.server_objects
register_subscribe_handler-ValidRegistry v env on cb ud s iv h = rw (vector-eq v iv) (
    register_subscribe_handler_cases env on cb ud (λ ret os. ValidRegistry env os) s h
      (λ ret bad unset. h)
      λ name f o o' ret r out.
        replace-ValidRegistry name s.server_objects o r.2 o' (outcome_kept env name out).0 env h (
          outcome-ValidObject env name out (
            marked-ValidObject env o o.process_event_subscriptions (some f) ud
              (All-find_first _ _ s.server_objects o r.2 h.objects_valid))))
