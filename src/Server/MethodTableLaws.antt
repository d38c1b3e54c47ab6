-- ===== src/Server/MethodTableLaws.antt =====
-- What rbus_registerMethodTable does to the methods that requests can reach.
use rbuscore.Base.{
  ◌≤◌, ◌+◌, ◌<◌, ◌≡◌, refl, ◌∙◌, ap, Bool-cases, inl, inr, Option, none, some, List, [], ◌∷◌, All,
  arith, length, if◌then◌else◌, Name, strlen, strcmp_eq, strcmp_eq→eq, strcmp_eq_comm,
  strcmp_eq_refl, false, length-append, update_first,
}
use rbuscore.Rt.Vector.{Vector, IsVector, list_vector, list_vector-IsVector, vector-eq, find_first}
use rbuscore.Keyed.{
  named, Distinct, find_first-append_new, find_first-update_first, find_first-none,
}
use rbuscore.Core.Types.{
  RbusError, success, max_method_name_length, max_supported_methods, Callback, UserData, Method,
  Object, TableEntry,
}
use rbuscore.Core.State.{Bus, ◌>>=◌}
use rbuscore.Core.Env.{Env}
use rbuscore.Server.Methods.{register_method, register_method_table}
use rbuscore.Server.Valid.{ValidRegistry, object_key, method_key, object_of, method_in, method_of}
use rbuscore.Server.MethodLaws.{
  register_cases, appended, method_of-appended, register_method-ValidRegistry,
}

abbrev pub entry_key : TableEntry → Name
entry_key e = e.method

-- The method of an entry.
abbrev pub entry : TableEntry → Method
entry e = record {
  name = e.method;
  callback = Callback.app e.callback;
  user_data = UserData.app_data e.user_data;
}

-- The method of a name in the table, or else the one of before.
abbrev pub shown : List TableEntry → Name → Option Method → Option Method
shown es method before = elim (find_first (named entry_key method) es) [
  | some e ↦ some (entry e)
  | none ↦ before
]

-- The names of the table are short enough, apart from each other and new to the object, which has room
-- for all of them.
pub record TableFits (es : List TableEntry) (o : Object) : Type 0 where
  pub names_short : All (λ e. strlen e.method < max_method_name_length) es
  pub names_distinct : Distinct entry_key es
  pub names_new : All (λ e. method_in e.method o ≡ none) es
  pub room : length o.methods + length es ≤ max_supported_methods

shown_first :
    (e : TableEntry) (es : List TableEntry) (method : Name) (before : Option Method)
    → All (λ y. named entry_key e.method y ≡ false) es
    → shown es method (if strcmp_eq e.method method then some (entry e) else before)
      ≡ shown (e ∷ es) method before
shown_first e es method before apart = elim (Bool-cases (strcmp_eq e.method method)) [
  | inr other ↦ rw other (rw (shown, other))
  | inl same ↦
      rw (← strcmp_eq→eq e.method method same)
        (rw (shown, find_first-none entry_key e.method es apart, strcmp_eq_refl e.method))
]

module _ (env : Env) (object_name : Name) (e : TableEntry) where
  abbrev with_entry : Object → Object
  with_entry =
      appended env object_name e.method (Callback.app e.callback) (UserData.app_data e.user_data)

  still_new :
      (es : List TableEntry) (o : Object)
      → method_in e.method o ≡ none
      → All (λ y. named entry_key e.method y ≡ false) es
      → All (λ y. method_in y.method o ≡ none) es
      → All (λ y. method_in y.method (with_entry o) ≡ none) es
  still_new [] o fresh apart new = tt
  still_new (y ∷ es) o fresh apart new = (
    rw (find_first-append_new method_key y.method o.methods (entry e) fresh)
        (rw (strcmp_eq_comm e.method y.method) (rw (apart.0) new.0)),
    still_new es o fresh apart.1 new.1,
  )

  -- The registration of the table's first entry.
  first_lem :
      (es : List TableEntry) (o : Object) (s : Bus env.World)
      → ValidRegistry env s.server_objects
      → object_of object_name s.server_objects ≡ some o
      → TableFits (e ∷ es) o
      → let (ret, s') =
          register_method list_vector env object_name e.method
            (Callback.app e.callback)
            (UserData.app_data e.user_data)
            s in
        (ret ≡ success)
        × (s'.server_objects
            ≡ update_first (named object_key object_name) with_entry s.server_objects)
  first_lem es o s h found fits =
      register_cases env object_name e.method (Callback.app e.callback)
        (UserData.app_data e.user_data)
        (λ ret os.
          (ret ≡ success)
          × (os ≡ update_first (named object_key object_name) with_entry s.server_objects))
        s h
        (λ ret bad can.
          absurd (can (o, found, fits.names_short.0, omega (arith, fits.room), fits.names_new.0)))
        λ o' found' short room fresh. (refl, refl)

  -- The object of the name behind that registration.
  with_entry_found :
      (o : Object) (os : List Object)
      → object_of object_name os ≡ some o
      → object_of object_name (update_first (named object_key object_name) with_entry os)
        ≡ some (with_entry o)
  with_entry_found o os found =
      rw (find_first-update_first object_key object_name object_name with_entry os (λ x. refl))
        (rw (strcmp_eq_refl object_name, found))

  fits_rest :
      (es : List TableEntry) (o : Object) → TableFits (e ∷ es) o → TableFits es (with_entry o)
  fits_rest es o fits = record {
    names_short = fits.names_short.1;
    names_distinct = fits.names_distinct.1;
    names_new = still_new es o fits.names_new.0 fits.names_distinct.0 fits.names_new.1;
    room = omega (arith, fits.room, length-append o.methods (entry e ∷ []));
  }

  -- The methods that are shown after the rest of the table, by those of before.
  shown_rest :
      (es : List TableEntry) (o : Object) (os : List Object) (object method : Name)
      → object_of object_name os ≡ some o
      → TableFits (e ∷ es) o
      → (if strcmp_eq object_name object
          then shown es method
              (method_of object method (update_first (named object_key object_name) with_entry os))
          else method_of object method (update_first (named object_key object_name) with_entry os))
        ≡ (if strcmp_eq object_name object
            then shown (e ∷ es) method (method_of object method os)
            else method_of object method os)
  shown_rest es o os object method found fits =
      rw
        (method_of-appended env object_name e.method (Callback.app e.callback)
          (UserData.app_data e.user_data) os o object method found fits.names_new.0)
        (elim (Bool-cases (strcmp_eq object_name object)) [
          | inr other ↦ rw other
          | inl same ↦
              rw same (shown_first e es method (method_of object method os) fits.names_distinct.0)
        ])

module _ (env : Env) (object_name : Name) where
  -- The methods that requests can reach after the table, by those of before.
  abbrev pub Registered : List TableEntry → RbusError → List Object → List Object → Type 0
  Registered es ret before after =
      (ret ≡ success)
      × ((object method : Name)
          → method_of object method after ≡ (
              if strcmp_eq object_name object
              then shown es method (method_of object method before)
              else method_of object method before))

  table_list :
      (es : List TableEntry) (o : Object) (s : Bus env.World)
      → ValidRegistry env s.server_objects
      → object_of object_name s.server_objects ≡ some o
      → TableFits es o
      → let (ret, s') = register_method_table list_vector env object_name es s in
        Registered es ret s.server_objects s'.server_objects
  unfolding register_method_table
  table_list [] o s h found fits = (refl, λ object method. ground arith)
  table_list (e ∷ es) o s h found fits =
      let s1 =
        (register_method list_vector env object_name e.method (Callback.app e.callback)
          (UserData.app_data e.user_data) s).1 in
      let (fine, now) = first_lem env object_name e es o s h found fits in
      let (good, rest) =
        table_list es (with_entry env object_name e o) s1
          (register_method-ValidRegistry list_vector env object_name e.method
            (Callback.app e.callback) (UserData.app_data e.user_data) s list_vector-IsVector h)
          (ap (object_of object_name) now
            ∙ with_entry_found env object_name e o s.server_objects found)
          (fits_rest env object_name e es o fits) in
      rw (register_method_table, ◌>>=◌, fine)
        (
          good,
          λ object method.
              rest object method
              ∙ rw now
                  (shown_rest env object_name e es o s.server_objects object method found fits),
        )

-- What rbus_registerMethodTable does where the table fits: on a well-formed registry, with the object
-- registered and the names of the table short enough, apart from each other and new to the object,
-- which has room for all of them, the call succeeds; a request for a name of the table then reaches the
-- handler of its entry, and the methods under all other names, and of other objects, are as they were.
pub method_of-register_method_table :
    (v : Vector) (env : Env) (object_name : Name) (es : List TableEntry) (o : Object)
    (s : Bus env.World)
    → IsVector v
    → ValidRegistry env s.server_objects
    → object_of object_name s.server_objects ≡ some o
    → TableFits es o
    → let (ret, s') = register_method_table v env object_name es s in
      Registered env object_name es ret s.server_objects s'.server_objects
method_of-register_method_table v env object_name es o s iv h found fits =
    rw (vector-eq v iv) (table_list env object_name es o s h found fits)
