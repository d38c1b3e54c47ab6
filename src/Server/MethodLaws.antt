-- ===== src/Server/MethodLaws.antt =====
-- Registering and unregistering methods, by their effect on the methods that requests find.
use rbuscore.Base.{
  ◌<◌, ◌≡◌, refl, ◌≢◌, ◌↔◌, ◌⊎◌, inl, inr, ◌&&◌, none, some, List, [], ◌∷◌, ◌++◌, arith,
  if◌then◌else◌, leb, Bool-cases, Option-cases, update_first, length, length-append, Name, strlen,
  strcmp_eq, strcmp_eq→eq,
}
use rbuscore.Rt.Vector.{Vector, IsVector, list_vector, vector-eq}
use rbuscore.Keyed.{
  named, find_first-append_new, All-find_first, All-append_one, Distinct-append_one,
  find_first-update_first,
}
use rbuscore.Core.Types.{
  RbusError, success, max_method_name_length, max_supported_methods, Callback, UserData, Method,
  Object,
}
use rbuscore.Core.State.{Bus}
use rbuscore.Core.Env.{Env}
use rbuscore.Server.Objects.{get_object, modify_object}
use rbuscore.Server.Methods.{register_method, register_method_on, find_method, push_method}
use rbuscore.Server.Valid.{
  ValidObject, ValidRegistry, object_key, method_key, object_of, method_in, method_of, object_found,
  method_found, objects_updated, update-ValidRegistry,
}

module _ (env : Env) (object_name method_name : Name) (handler : Callback)
    (user_data : UserData) where
  abbrev pub new_method : Method
  new_method = record { name = method_name; callback = handler; user_data = user_data }

  abbrev pub appended : Object → Object
  appended o = record o { methods = o.methods ++ (new_method ∷ []) }

  -- The object is registered, has room, and has no method of the name, which is short enough.
  abbrev pub CanRegister : List Object → Type 0
  CanRegister os =
      (o : Object) × (object_of object_name os ≡ some o)
      × (strlen method_name < max_method_name_length)
      × (length o.methods < max_supported_methods)
      × (method_in method_name o ≡ none)

  -- rbus_registerMethod refuses and leaves the objects alone, or appends the method to its object.
  pub register_cases {κ} :
      (P : RbusError → List Object → Type κ) (s : Bus env.World)
      → ValidRegistry env s.server_objects
      → ((ret : RbusError)
          → ret ≢ success
          → ¬ CanRegister s.server_objects
          → P ret s.server_objects)
      → ((o : Object)
          → object_of object_name s.server_objects ≡ some o
          → strlen method_name < max_method_name_length
          → length o.methods < max_supported_methods
          → method_in method_name o ≡ none
          → P success (update_first (named object_key object_name) appended s.server_objects))
      → let (ret, s') =
          register_method list_vector env object_name method_name handler user_data s in
        P ret s'.server_objects
  unfolding register_method register_method_on get_object modify_object find_method push_method
  register_cases P s h refused added =
      elim (Bool-cases (leb max_method_name_length (strlen method_name))) [
        | inl long ↦ rw long (refused 2 (λ e. omega arith) (λ c. absurd (ground (arith, c.2))))
        | inr short ↦
            rw (short, object_found env object_name s.server_objects h)
              (elim (Option-cases (object_of object_name s.server_objects)) [
                | inl missing ↦ rw missing (refused 2 (λ e. omega arith) (λ c. cc (c.1)))
                | inr (o, found) ↦
                    rw found (elim (Bool-cases (leb max_supported_methods (length o.methods))) [
                      | inl full ↦
                          rw full (refused 11 (λ e. omega arith) (λ c. ground (arith, c.1, c.3)))
                      | inr room ↦
                          rw
                            (
                              room,
                              method_found env method_name o
                                  (All-find_first _ _ _ o found h.objects_valid),
                            )
                            (elim (Option-cases (method_in method_name o)) [
                              | inl fresh ↦ rw fresh (
                                  rw (objects_updated env object_name s.server_objects h appended)
                                    (added o found (ground arith) (ground arith) fresh))
                              | inr (m, present) ↦
                                  rw present
                                    (refused 2 (λ e. omega arith) (λ c. ground (arith, c.1, c.4)))
                            ])
                    ])
              ])
      ]

  pub appended-ValidObject :
      (o : Object)
      → ValidObject env o
      → strlen method_name < max_method_name_length
      → length o.methods < max_supported_methods
      → method_in method_name o ≡ none
      → ValidObject env (appended o)
  appended-ValidObject o v short room fresh = record {
    name_short = v.name_short;
    methods_short = All-append_one _ o.methods new_method v.methods_short short;
    methods_distinct = Distinct-append_one method_key o.methods new_method v.methods_distinct fresh;
    methods_few = omega (arith, length-append o.methods (new_method ∷ []));
    events_short = v.events_short;
    events_distinct = v.events_distinct;
    events_owned = v.events_owned;
    listeners_distinct = v.listeners_distinct;
  }

  -- The methods of all objects after the append.
  pub method_of-appended :
      (os : List Object) (o : Object) (object method : Name)
      → object_of object_name os ≡ some o
      → method_in method_name o ≡ none
      → method_of object method (update_first (named object_key object_name) appended os) ≡ (
          if strcmp_eq object_name object && strcmp_eq method_name method
          then some new_method
          else method_of object method os)
  method_of-appended os o object method found fresh =
      rw (find_first-update_first object_key object object_name appended os (λ x. refl))
        (elim (Bool-cases (strcmp_eq object_name object)) [
          | inr other ↦ rw other
          | inl same ↦
              rw (same, ← strcmp_eq→eq object_name object same, found)
                (find_first-append_new method_key method o.methods new_method fresh)
        ])

-- rbus_registerMethod keeps the registry well-formed: every name within its limit, no method twice
-- on an object, and no more than 32 methods on one. The registry before is well-formed, and the
-- vectors are as documented.
pub register_method-ValidRegistry :
    (v : Vector) (env : Env) (object_name method_name : Name) (handler : Callback)
    (user_data : UserData) (s : Bus env.World)
    → IsVector v
    → ValidRegistry env s.server_objects
    → let (ret, s') = register_method v env object_name method_name handler user_data s in
      ValidRegistry env s'.server_objects
register_method-ValidRegistry v env on mn hd ud s iv h = rw (vector-eq v iv) (
    register_cases env on mn hd ud (λ ret os. ValidRegistry env os) s h (λ ret e c. h)
      λ o found short room fresh.
        update-ValidRegistry env on s.server_objects h _ o found (λ x. refl)
          (appended-ValidObject env on mn hd ud o
            (All-find_first _ _ s.server_objects o found h.objects_valid) short room fresh))

-- What rbus_registerMethod does to the methods that requests can reach, on a well-formed registry:
-- a call that returns RTMESSAGE_BUS_SUCCESS makes the method of the given name of the given object
-- the given one, and leaves the methods under all other names as they were; any other call leaves
-- the registered objects as they were.
pub method_of-register_method :
    (v : Vector) (env : Env) (object_name method_name : Name) (handler : Callback)
    (user_data : UserData) (s : Bus env.World) (object method : Name)
    → IsVector v
    → ValidRegistry env s.server_objects
    → let (ret, s') = register_method v env object_name method_name handler user_data s in
      ((ret ≡ success)
        × (method_of object method s'.server_objects ≡ (
            if strcmp_eq object_name object && strcmp_eq method_name method
            then some (record { name = method_name; callback = handler; user_data = user_data })
            else method_of object method s.server_objects)))
      ⊎ ((ret ≢ success) × (s'.server_objects ≡ s.server_objects))
method_of-register_method v env on mn hd ud s object method iv h = rw (vector-eq v iv) (
    register_cases env on mn hd ud
      (λ ret os.
        ((ret ≡ success)
          × (method_of object method os ≡ (
              if strcmp_eq on object && strcmp_eq mn method
              then some (record { name = mn; callback = hd; user_data = ud })
              else method_of object method s.server_objects)))
        ⊎ ((ret ≢ success) × (os ≡ s.server_objects)))
      s h (λ ret e c. inr (e, refl))
      λ o found short room fresh.
        inl (refl, method_of-appended env on mn hd ud s.server_objects o object method found fresh))

-- rbus_registerMethod returns RTMESSAGE_BUS_SUCCESS exactly when, on a well-formed registry, the
-- object is registered, has fewer than 32 methods and none of the given name, and the name has fewer
-- than 64 characters.
pub register_method-success :
    (v : Vector) (env : Env) (object_name method_name : Name) (handler : Callback)
    (user_data : UserData) (s : Bus env.World)
    → IsVector v
    → ValidRegistry env s.server_objects
    → ((register_method v env object_name method_name handler user_data s).0 ≡ success)
      ↔ CanRegister env object_name method_name handler user_data s.server_objects
register_method-success v env on mn hd ud s iv h = rw (vector-eq v iv) (
    register_cases env on mn hd ud
      (λ ret os. (ret ≡ success) ↔ CanRegister env on mn hd ud s.server_objects) s h
      (λ ret e c. (λ r. absurd (e r), λ r. absurd (c r)))
      λ o found short room fresh. (λ r. (o, found, short, room, fresh), λ r. refl))
