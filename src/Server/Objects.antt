-- ===== src/Server/Objects.antt =====
-- Registered objects: rbus_registerObj, rbus_unregisterObj, rbus_addElement, rbus_removeElement.
use rbuscore.Base.{
  ℕ, Bool, false, ◌||◌, Option, none, some, leb, ◌==◌, if◌then◌else◌, update_first, Name, strlen,
  strncmp_eq,
}
use rbuscore.Rt.Vector.{Vector}
use rbuscore.Core.Types.{
  RbusError, RtError, is_ok, success, error_general, error_invalid_param, error_invalid_state,
  error_duplicate_entry, Method, Event, Object, Listener,
}
use rbuscore.Core.State.{Action, return, gets, modify, lock, unlock, ◌>>=◌, ◌>>◌}
use rbuscore.Core.Env.{Env, outside}

-- How rbus_addElement reports an error of rtConnection_AddAlias.
abbrev pub translate_alias_error : RtError → RbusError
translate_alias_error RtError.ok = success
translate_alias_error RtError.duplicate_entry = error_duplicate_entry
translate_alias_error _ = error_general

module _ (env : Env) where
  -- server_object_compare gives 0
  unfoldable pub object_matches : Name → Object → Bool
  object_matches name o = strncmp_eq env.max_object_name_length o.name name

  -- A write through the pointer that `get_object` returns.
  unfoldable pub modify_object : Name → (Object → Object) → Action env.World (Unit {0})
  modify_object name f s =
      (tt, record s { server_objects = update_first (object_matches name) f s.server_objects })

  -- A name that is too long, or empty.
  unfoldable pub name_is_bad : Name → Bool
  name_is_bad name = leb env.max_object_name_length (strlen name) || strlen name == 0

module _ (v : Vector) where
  -- server_object_create
  unfoldable pub server_object_create : Name → ℕ → ℕ → Object
  server_object_create name handler user_data = record {
    name = name;
    user_data = user_data;
    callback = handler;
    process_event_subscriptions = false;
    methods = v.create Method;
    subscriptions = v.create Event;
    subscribe_handler_override = none;
    subscribe_handler_data = 0;
  }

module _ (v : Vector) (env : Env) where
  -- get_object
  unfoldable pub get_object : Name → Action env.World (Option Object)
  get_object name s = (v.find Object (object_matches env name) s.server_objects, s)

  -- The part of rbus_registerObj behind the checks of its arguments.
  unfoldable pub register_new_obj : Name → ℕ → ℕ → Action env.World RbusError
  register_new_obj name handler user_data = do
    lock
    obj ← get_object name
    unlock
    elim obj [
      | some o ↦ return error_invalid_param
      | none ↦ do
        connection ← gets (λ s. s.connection)
        err ← outside (env.add_listener connection name (Listener.on_message name))
        if is_ok err
            then (do
              lock
              modify (λ s. record s {
                server_objects =
                    v.push_back Object s.server_objects
                      (server_object_create v name handler user_data);
              })
              unlock
              return success)
            else return error_general
    ]

  -- rbus_registerObj
  unfoldable pub register_obj : Option Name → ℕ → ℕ → Action env.World RbusError
  register_obj object_name handler user_data s = elim s.connection [
    | none ↦ (error_invalid_state, s)
    | some c ↦ elim object_name [
      | none ↦ (error_invalid_param, s)
      | some name ↦
          if name_is_bad env name
          then (error_invalid_param, s)
          else register_new_obj name handler user_data s
    ]
  ]

  -- The part of rbus_unregisterObj behind the checks.
  unfoldable pub remove_obj : Name → Action env.World RbusError
  remove_obj name = do
    connection ← gets (λ s. s.connection)
    err ← outside (env.remove_listener connection name)
    if is_ok err
        then (do
          lock
          obj ← get_object name
          ret ← elim obj [
            | some o ↦ do
              modify (λ s. record s {
                server_objects = v.remove_item Object (object_matches env name) s.server_objects;
              })
              return success
            | none ↦ return error_general
          ]
          unlock
          return ret)
        else return error_general

  -- rbus_unregisterObj
  unfoldable pub unregister_obj : Option Name → Action env.World RbusError
  unregister_obj none s = (error_invalid_param, s)
  unregister_obj (some name) s =
      if name_is_bad env name then (error_invalid_param, s) else remove_obj name s

module _ (env : Env) where
  -- The checks that rbus_addElement and rbus_removeElement share.
  unfoldable pub with_names :
      Option Name
      → Option Name
      → (Name → Name → Action env.World RbusError)
      → Action env.World RbusError
  with_names object_name element act s = elim s.connection [
    | none ↦ (error_invalid_state, s)
    | some c ↦ elim object_name [
      | none ↦ (error_invalid_param, s)
      | some o ↦ elim element [
        | none ↦ (error_invalid_param, s)
        | some e ↦
            if name_is_bad env o || name_is_bad env e then (error_invalid_param, s) else act o e s
      ]
    ]
  ]

  -- rbus_addElement and rbus_addElementEvent
  unfoldable pub add_element : Option Name → Option Name → Action env.World RbusError
  unfolding with_names
  add_element object_name element = with_names object_name element λ o e. do
    connection ← gets (λ s. s.connection)
    err ← outside (env.add_alias connection o e)
    return (translate_alias_error err)

  -- rbus_removeElement
  unfoldable pub remove_element : Option Name → Option Name → Action env.World RbusError
  unfolding with_names
  remove_element object_name element = with_names object_name element λ o e. do
    connection ← gets (λ s. s.connection)
    err ← outside (env.remove_alias connection o e)
    return (if is_ok err then success else error_general)
