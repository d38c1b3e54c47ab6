-- ===== src/Server/ObjectCases.antt =====
-- The cases of rbus_registerObj and rbus_unregisterObj.
use rbuscore.Base.{
  ℕ, ◌<◌, ◌≡◌, refl, ◌≢◌, inl, inr, false, ◌||◌, Option, none, some, List, [], ◌∷◌, ◌++◌, arith,
  leb, ◌==◌, Bool-cases, Option-cases, Name, strlen,
}
use rbuscore.Rt.Vector.{list_vector, remove_first}
use rbuscore.Keyed.{named}
use rbuscore.Core.Types.{RbusError, success, is_ok, Object, Listener}
use rbuscore.Core.State.{Bus}
use rbuscore.Core.Env.{Env}
use rbuscore.Server.Objects.{
  get_object, register_obj, register_new_obj, unregister_obj, remove_obj, server_object_create,
  name_is_bad,
}
use rbuscore.Server.Valid.{
  ValidObject, ValidRegistry, object_key, object_of, object_found, objects_removed,
}

-- A new object: no methods, no events, and the application's handler.
abbrev pub new_object : Name → ℕ → ℕ → Object
new_object name handler user_data = record {
  name = name;
  user_data = user_data;
  callback = handler;
  process_event_subscriptions = false;
  methods = [];
  subscriptions = [];
  subscribe_handler_override = none;
  subscribe_handler_data = 0;
}

pub new-ValidObject :
    (env : Env) (name : Name) (handler user_data : ℕ)
    → strlen name < env.max_object_name_length
    → ValidObject env (new_object name handler user_data)
new-ValidObject env name handler user_data short = record {
  name_short = short;
  methods_short = tt;
  methods_distinct = tt;
  methods_few = omega arith;
  events_short = tt;
  events_distinct = tt;
  events_owned = tt;
  listeners_distinct = tt;
}

module _ (env : Env) (object_name : Option Name) (handler user_data : ℕ) where
  register_new_cases {κ} :
      (P : RbusError → List Object → Type κ) (name : Name) (s : Bus env.World)
      → ValidRegistry env s.server_objects
      → ((ret : RbusError) → ret ≢ success → P ret s.server_objects)
      → (object_of name s.server_objects ≡ none
          → P success (s.server_objects ++ (new_object name handler user_data ∷ [])))
      → let (ret, s') = register_new_obj list_vector env name handler user_data s in
        P ret s'.server_objects
  unfolding register_new_obj get_object server_object_create
  register_new_cases P name s h refused added =
      rw (object_found env name s.server_objects h)
        (elim (Option-cases (object_of name s.server_objects)) [
          | inr (o, present) ↦ rw present (refused 2 (λ e. omega arith))
          | inl fresh ↦
              rw fresh
                (elim (Bool-cases (
                  is_ok
                    (env.add_listener s.connection name (Listener.on_message name) s.world).0)) [
                      | inl listening ↦ rw listening (added fresh)
                      | inr deaf ↦ rw deaf (refused 1 (λ e. omega arith))
                    ])
        ])

  -- rbus_registerObj refuses and leaves the objects alone, or appends a new one under a new name.
  pub register_obj_cases {κ} :
      (P : RbusError → List Object → Type κ) (s : Bus env.World)
      → ValidRegistry env s.server_objects
      → ((ret : RbusError) → ret ≢ success → P ret s.server_objects)
      → ((name : Name)
          → object_name ≡ some name
          → strlen name < env.max_object_name_length
          → object_of name s.server_objects ≡ none
          → P success (s.server_objects ++ (new_object name handler user_data ∷ [])))
      → let (ret, s') = register_obj list_vector env object_name handler user_data s in
        P ret s'.server_objects
  unfolding register_obj name_is_bad
  register_obj_cases P s h refused added = elim (Option-cases s.connection) [
    | inl closed ↦ rw (closed, register_obj) (refused 4 (λ e. omega arith))
    | inr (c, open_) ↦
        rw (open_, register_obj)
          (elim (Option-cases object_name) [
            | inl missing ↦ rw missing (refused 2 (λ e. omega arith))
            | inr (name, given) ↦
                rw given
                  (elim (Bool-cases
                    (leb env.max_object_name_length (strlen name) || strlen name == 0)) [
                      | inl bad ↦ rw bad (refused 2 (λ e. omega arith))
                      | inr good ↦ rw good (
                          register_new_cases P name s h refused
                            (λ fresh. added name given (ground arith) fresh))
                    ])
          ])
  ]

module _ (env : Env) where
  remove_obj_cases {κ} :
      (P : RbusError → List Object → Type κ) (name : Name) (s : Bus env.World)
      → ValidRegistry env s.server_objects
      → ((ret : RbusError) → ret ≢ success → P ret s.server_objects)
      → ((o : Object)
          → object_of name s.server_objects ≡ some o
          → P success (remove_first (named object_key name) s.server_objects))
      → let (ret, s') = remove_obj list_vector env name s in P ret s'.server_objects
  unfolding remove_obj get_object
  remove_obj_cases P name s h refused removed =
      elim (Bool-cases (is_ok (env.remove_listener s.connection name s.world).0)) [
        | inr kept ↦ rw kept (refused 1 (λ e. omega arith))
        | inl gone ↦
            rw (gone, object_found env name s.server_objects h)
              (elim (Option-cases (object_of name s.server_objects)) [
                | inl missing ↦ rw missing (refused 1 (λ e. omega arith))
                | inr (o, found) ↦
                    rw found (rw (objects_removed env name s.server_objects h) (removed o found))
              ])
      ]

  pub unregister_obj_cases {κ} :
      (P : RbusError → List Object → Type κ) (object_name : Option Name) (s : Bus env.World)
      → ValidRegistry env s.server_objects
      → ((ret : RbusError) → ret ≢ success → P ret s.server_objects)
      → ((name : Name) (o : Object)
          → object_name ≡ some name
          → object_of name s.server_objects ≡ some o
          → P success (remove_first (named object_key name) s.server_objects))
      → let (ret, s') = unregister_obj list_vector env object_name s in P ret s'.server_objects
  unfolding unregister_obj remove_obj get_object name_is_bad
  unregister_obj_cases P none s h refused removed = refused 2 (λ e. omega arith)
  unregister_obj_cases P (some name) s h refused removed =
      elim (Bool-cases (leb env.max_object_name_length (strlen name) || strlen name == 0)) [
        | inl bad ↦ rw bad (refused 2 (λ e. omega arith))
        | inr good ↦ rw good (remove_obj_cases P name s h refused (λ o. removed name o refl))
      ]
