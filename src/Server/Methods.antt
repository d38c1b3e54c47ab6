-- ===== src/Server/Methods.antt =====
-- The methods of a registered object: rbus_registerMethod, rbus_unregisterMethod and the tables.
use rbuscore.Base.{
  Bool, Option, none, some, List, [], ◌∷◌, leb, ◌==◌, if◌then◌else◌, Name, strlen, strncmp_eq,
}
use rbuscore.Rt.Vector.{Vector}
use rbuscore.Core.Types.{
  RbusError, success, error_general, error_invalid_param, error_out_of_resources,
  max_method_name_length, max_supported_methods, Callback, UserData, Method, Object, TableEntry,
}
use rbuscore.Core.State.{Action, return, lock, unlock, ◌>>=◌, ◌>>◌}
use rbuscore.Core.Env.{Env}
use rbuscore.Server.Objects.{get_object, modify_object}

-- server_method_compare gives 0
unfoldable pub method_matches : Name → Method → Bool
method_matches name m = strncmp_eq max_method_name_length m.name name

module _ (v : Vector) where
  -- rtVector_Find(obj->methods, name, server_method_compare)
  unfoldable pub find_method : Name → Object → Option Method
  find_method name o = v.find Method (method_matches name) o.methods

  -- server_method_create and rtVector_PushBack
  unfoldable pub push_method : Method → Object → Object
  push_method m o = record o { methods = v.push_back Method o.methods m }

  unfoldable pub drop_method : Name → Object → Object
  drop_method name o = record o { methods = v.remove_item Method (method_matches name) o.methods }

module _ (v : Vector) (env : Env) where
  -- The part of rbus_registerMethod for an object that was found.
  unfoldable pub register_method_on :
      Name → Name → Callback → UserData → Object → Action env.World RbusError
  register_method_on object_name method_name handler user_data o =
      if leb max_supported_methods (v.size Method o.methods)
      then return error_out_of_resources
      else elim (find_method v method_name o) [
        | some m ↦ return error_invalid_param
        | none ↦ do
          modify_object env object_name (
              push_method v
                (record { name = method_name; callback = handler; user_data = user_data }))
          return success
      ]

  -- rbus_registerMethod
  unfoldable pub register_method : Name → Name → Callback → UserData → Action env.World RbusError
  register_method object_name method_name handler user_data =
      if leb max_method_name_length (strlen method_name) then return error_invalid_param else (do
        lock
        obj ← get_object v env object_name
        ret ← elim obj [
          | none ↦ return error_invalid_param
          | some o ↦ register_method_on object_name method_name handler user_data o
        ]
        unlock
        return ret)

  -- The part of rbus_unregisterMethod for an object that was found.
  unfoldable pub unregister_method_on : Name → Name → Object → Action env.World RbusError
  unregister_method_on object_name method_name o = elim (find_method v method_name o) [
    | none ↦ return error_general
    | some m ↦ do modify_object env object_name (drop_method v method_name); return success
  ]

  -- rbus_unregisterMethod
  unfoldable pub unregister_method : Name → Name → Action env.World RbusError
  unregister_method object_name method_name = do
    lock
    obj ← get_object v env object_name
    ret ← elim obj [
      | none ↦ return error_invalid_param
      | some o ↦ unregister_method_on object_name method_name o
    ]
    unlock
    return ret

  -- rbus_registerMethodTable: the first failure ends the loop.
  unfoldable pub register_method_table : Name → List TableEntry → Action env.World RbusError
  register_method_table object_name [] = return success
  register_method_table object_name (e ∷ es) =
      let rest = register_method_table object_name es in
      do
        ret ←
            register_method object_name e.method (Callback.app e.callback)
              (UserData.app_data e.user_data)
        if ret == success then rest else return ret

  -- rbus_unregisterMethodTable
  unfoldable pub unregister_method_table : Name → List TableEntry → Action env.World RbusError
  unregister_method_table object_name [] = return success
  unregister_method_table object_name (e ∷ es) =
      let rest = unregister_method_table object_name es in
      do ret ← unregister_method object_name e.method; if ret == success then rest else return ret
