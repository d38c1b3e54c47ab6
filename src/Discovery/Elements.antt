-- ===== src/Discovery/Elements.antt =====
-- rbus_discoverElementsObjects: the components of several elements, gathered in one array that grows.
-- A result `none` stands for what C leaves undefined: a read past the end of the caller's array or a
-- write past the end of the gathered one.
use rbuscore.Base.{
  ℕ, zero, suc, ◌+◌, ◌*◌, ◌/◌, ◌%◌, ◌^◌, Bool, true, false, Option, none, some, List, [], ◌∷◌, ◌++◌,
  length, ltb, if◌then◌else◌, Name,
}
use rbuscore.Rt.Router.{Router}
use rbuscore.Core.Types.{
  RbusError, is_ok, success, error_general, error_invalid_param, error_malformed_response,
}
use rbuscore.Core.State.{Action, return, ◌>>=◌}
use rbuscore.Core.Env.{Env, outside}
use rbuscore.Discovery.Arrays.{Array, Found, bytes, rounds, filled}
use rbuscore.Discovery.Queries.{is_granted, ask_router}

-- Where the gathering stands: undefined, failed, or the bytes of the array, NULL if there is none yet,
-- and the names in it.
pub data Gathering : Type 0 where
  undefined failed : Gathering
  gathered : Option ℕ → List Name → Gathering

abbrev pub gathered_array : Option ℕ → List Name → Array
gathered_array none names = Array.null
gathered_array (some room) names = Array.entries (filled names (room / 8))

-- The end of the call: the array and its count, or nothing and the count 0.
abbrev pub gathered_found : Gathering → Option Found
gathered_found Gathering.undefined = none
gathered_found Gathering.failed =
    some (record { ret = error_general; count = some 0; array = none })
gathered_found (Gathering.gathered room names) = some (record {
  ret = success;
  count = some (length names);
  array = some (gathered_array room names);
})

-- What follows a step, unless the step ended the call.
abbrev pub and_then :
    {W : Type 0} → Gathering × W → (Option ℕ → List Name → W → Gathering × W) → Gathering × W
and_then (Gathering.undefined, w) rest = (Gathering.undefined, w)
and_then (Gathering.failed, w) rest = (Gathering.failed, w)
and_then (Gathering.gathered room names, w) rest = rest room names w

-- A return before anything is gathered: the count has been set to 0.
abbrev pub none_gathered : RbusError → Option Found
none_gathered ret = some (record { ret = ret; count = some 0; array = none })

module _ (env : Env) (r : Router env) where
  -- The request: the number of elements and as many of the caller's array.
  unfoldable pub add_elements : ℕ → List Name → r.Msg → Option r.Msg
  add_elements zero elements msg = some msg
  add_elements (suc n) [] msg = none
  add_elements (suc n) (e ∷ elements) msg =
      add_elements n elements (r.add_string msg r.discovery_items e)

  -- The inner loop: each round reads the item behind the names that are there, and appends it unless
  -- it is empty.
  unfoldable pub gather_items : r.Msg → ℕ → ℕ → List Name → env.World → Gathering × env.World
  gather_items msg zero room names w = (Gathering.gathered (some room) names, w)
  gather_items msg (suc n) room names w =
      elim (r.get_string_item msg r.discovery_items (length names)) [
        | none ↦ (Gathering.failed, w)
        | some component ↦ elim component [
          | [] ↦ gather_items msg n room names w
          | c ∷ cs ↦ elim (ltb room ((length names + 1) * 8)) [
            | true ↦ (Gathering.undefined, w)
            | false ↦
                let (copy, w') = r.strndup (c ∷ cs) env.max_object_name_length w in
                elim copy [
                  | none ↦ (Gathering.failed, w')
                  | some name ↦ gather_items msg n room (names ++ (name ∷ [])) w'
                ]
          ]
        ]
      ]

  -- rt_try_malloc the first time, rt_try_realloc later: whether it worked, and the bytes.
  unfoldable pub make_room : Option ℕ → List Name → ℕ → env.World → (Bool × ℕ) × env.World
  make_room none names more w =
      let (there, w') = r.try_malloc (bytes more) w in ((there, bytes more), w')
  make_room (some room) names more w =
      let size = bytes ((length names + more) % 2 ^ 32) in
      let (there, w') = r.try_realloc size w in ((there, size), w')

  -- The outer loop, a round for each element.
  unfoldable pub gather_elements :
      r.Msg → ℕ → Option ℕ → List Name → env.World → Gathering × env.World
  gather_elements msg zero room names w = (Gathering.gathered room names, w)
  gather_elements msg (suc n) room names w = elim (r.get_int32 msg r.discovery_count) [
    | none ↦ (Gathering.failed, w)
    | some more ↦
        let ((there, room'), w') = make_room room names more w in
        elim there [
          | false ↦ (Gathering.failed, w')
          | true ↦ and_then (gather_items msg (rounds more) room' names w') (gather_elements msg n)
        ]
  ]

  -- The part behind the request.
  unfoldable pub gather_answer : r.Msg → ℕ → Action env.World (Option Found)
  gather_answer msg n =
      if is_granted (r.get_int32 msg r.discovery_result)
      then (do g ← outside (gather_elements msg n none []); return (gathered_found g))
      else return (none_gathered error_general)

  -- rbus_discoverElementsObjects
  unfoldable pub discover_elements_objects :
      ℕ → Option (List Name) → Action env.World (Option Found)
  discover_elements_objects num_elements elements = elim elements [
    | none ↦ return (none_gathered error_invalid_param)
    | some es ↦
        elim (add_elements (rounds num_elements) es
          (r.set_int32 r.create r.discovery_count num_elements)) [
            | none ↦ return none
            | some request ↦ do
              (err, msg) ← ask_router env r request r.discover_element_objects
              if is_ok err
                  then gather_answer msg (rounds num_elements)
                  else return (none_gathered error_malformed_response)
          ]
  ]
