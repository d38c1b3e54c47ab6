-- ===== src/Server/RemovalLaws.antt =====
-- Unregistering methods: the inverse of registering them.
use rbuscore.Base.{
  ◌≡◌, refl, ◌≢◌, ◌⊎◌, inl, inr, ◌&&◌, none, some, List, arith, if◌then◌else◌, Bool-cases,
  Option-cases, update_first, Name, strcmp_eq, strcmp_eq→eq,
}
use rbuscore.Rt.Vector.{Vector, IsVector, list_vector, vector-eq, remove_first}
use rbuscore.Keyed.{
  named, All-find_first, All-remove_first, Distinct-remove_first, find_first-update_first,
  find_first-remove_first, remove_first-Bounded, length-remove_first,
}
use rbuscore.Core.Types.{RbusError, success, max_method_name_length, Method, Object}
use rbuscore.Core.State.{Bus}
use rbuscore.Core.Env.{Env}
use rbuscore.Server.Objects.{get_object, modify_object}
use rbuscore.Server.Methods.{
  unregister_method, unregister_method_on, find_method, drop_method, method_matches,
}
use rbuscore.Server.Valid.{
  ValidObject, ValidRegistry, object_key, method_key, object_of, method_in, method_of, object_found,
  method_found, objects_updated, update-ValidRegistry,
}

module _ (env : Env) (object_name method_name : Name) where
  -- The object without its first method that compares equal.
  abbrev pub dropped : Object → Object
  dropped o = record o { methods = remove_first (method_matches method_name) o.methods }

  -- rbus_unregisterMethod removes a method that its object has, or leaves the objects alone.
  pub unregister_cases {κ} :
      (P : RbusError → List Object → Type κ) (s : Bus env.World)
      → ValidRegistry env s.server_objects
      → ((ret : RbusError)
          → ret ≢ success
          → method_of object_name method_name s.server_objects ≡ none
          → P ret s.server_objects)
      → ((o : Object) (m : Method)
          → object_of object_name s.server_objects ≡ some o
          → method_in method_name o ≡ some m
          → P success (update_first (named object_key object_name) dropped s.server_objects))
      → let (ret, s') = unregister_method list_vector env object_name method_name s in
        P ret s'.server_objects
  unfolding unregister_method unregister_method_on get_object modify_object find_method drop_method
  unregister_cases P s h refused removed =
      rw (object_found env object_name s.server_objects h)
        (elim (Option-cases (object_of object_name s.server_objects)) [
          | inl missing ↦ rw missing (refused 2 (λ e. omega arith) (rw missing))
          | inr (o, found) ↦
              let valid = All-find_first _ _ _ o found h.objects_valid in
              rw (found, unregister_method_on, method_found env method_name o valid)
                (elim (Option-cases (method_in method_name o)) [
                  | inl absent ↦ rw absent (refused 1 (λ e. omega arith) (rw found absent))
                  | inr (m, present) ↦ rw present (
                      rw (objects_updated env object_name s.server_objects h dropped)
                        (removed o m found present))
                ])
        ])

  dropped-ValidObject : (o : Object) → ValidObject env o → ValidObject env (dropped o)
  dropped-ValidObject o v = record {
    name_short = v.name_short;
    methods_short = All-remove_first _ _ o.methods v.methods_short;
    methods_distinct = Distinct-remove_first method_key _ o.methods v.methods_distinct;
    methods_few =
        omega (arith, v.methods_few, length-remove_first (method_matches method_name) o.methods);
    events_short = v.events_short;
    events_distinct = v.events_distinct;
    events_owned = v.events_owned;
    listeners_distinct = v.listeners_distinct;
  }

  -- The methods of one object after the removal.
  dropped_method :
      (o : Object) (method : Name)
      → ValidObject env o
      → method_in method (dropped o)
        ≡ (if strcmp_eq method_name method then none else method_in method o)
  unfolding method_matches
  dropped_method o method v =
      rw
        (remove_first-Bounded method_key max_method_name_length method_name o.methods
          v.methods_short)
        (find_first-remove_first method_key method method_name o.methods v.methods_distinct)

  -- The methods of all objects after the removal.
  pub method_of-dropped :
      (os : List Object) (o : Object) (object method : Name)
      → object_of object_name os ≡ some o
      → ValidObject env o
      → method_of object method (update_first (named object_key object_name) dropped os) ≡ (
          if strcmp_eq object_name object && strcmp_eq method_name method
          then none
          else method_of object method os)
  method_of-dropped os o object method found v =
      rw (find_first-update_first object_key object object_name dropped os (λ x. refl))
        (elim (Bool-cases (strcmp_eq object_name object)) [
          | inr other ↦ rw other
          | inl same ↦
              rw (same, ← strcmp_eq→eq object_name object same, found) (dropped_method o method v)
        ])

-- rbus_unregisterMethod keeps the registry well-formed; the vectors are as documented.
pub unregister_method-ValidRegistry :
    (v : Vector) (env : Env) (object_name method_name : Name) (s : Bus env.World)
    → IsVector v
    → ValidRegistry env s.server_objects
    → ValidRegistry env (unregister_method v env object_name method_name s).1.server_objects
unregister_method-ValidRegistry v env on mn s iv h = rw (vector-eq v iv) (
    unregister_cases env on mn (λ ret os. ValidRegistry env os) s h (λ ret e c. h)
      λ o m found present.
        update-ValidRegistry env on s.server_objects h _ o found (λ x. refl)
          (dropped-ValidObject env on mn o
            (All-find_first _ _ s.server_objects o found h.objects_valid)))

-- What rbus_unregisterMethod does on a well-formed registry: it succeeds exactly on a method that
-- requests can reach; that one is then gone, and those under all other names are as they were; where
-- it fails, the registered objects are as they were.
method_of-unregister_method :
    (v : Vector) (env : Env) (object_name method_name : Name) (s : Bus env.World)
    (object method : Name)
    → IsVector v
    → ValidRegistry env s.server_objects
    → let (ret, s') = unregister_method v env object_name method_name s in
      ((ret ≡ success)
        × (method_of object_name method_name s.server_objects ≢ none)
        × (method_of object method s'.server_objects ≡ (
            if strcmp_eq object_name object && strcmp_eq method_name method
            then none
            else method_of object method s.server_objects)))
      ⊎ ((ret ≢ success)
          × (method_of object_name method_name s.server_objects ≡ none)
          × (s'.server_objects ≡ s.server_objects))
method_of-unregister_method v env on mn s object method iv h = rw (vector-eq v iv) (
    unregister_cases env on mn
      (λ ret os.
        ((ret ≡ success)
          × (method_of on mn s.server_objects ≢ none)
          × (method_of object method os ≡ (
              if strcmp_eq on object && strcmp_eq mn method
              then none
              else method_of object method s.server_objects)))
        ⊎ ((ret ≢ success) × (method_of on mn s.server_objects ≡ none) × (os ≡ s.server_objects)))
      s h (λ ret e c. inr (e, c, refl))
      λ o m found present. inl (
        refl,
        rw (found, present) (λ e. cc),
        method_of-dropped env on mn s.server_objects o object method found
            (All-find_first _ _ s.server_objects o found h.objects_valid),
      ))
