-- ===== src/Discovery/Queries.antt =====
-- rbus_discoverWildcardDestinations, rbus_discoverObjectElements, rbus_discoverElementObjects and
-- rbus_discoverRegisteredComponents. A result `none` stands for what C leaves undefined: a variable
-- that is read and was never set, or a write past the end of an array.
use rbuscore.Base.{ℕ, Bool, ◌&&◌, ◌||◌, false, Option, none, some, ◌==◌, if◌then◌else◌, Name, codes}
use rbuscore.Rt.Router.{Router}
use rbuscore.Core.Types.{
  RbusError, RtError, is_ok, success, error_general, error_invalid_param, error_invalid_state,
  error_malformed_response, fire_and_forget,
}
use rbuscore.Core.State.{Action, return, ◌>>=◌}
use rbuscore.Core.Env.{Env, outside}
use rbuscore.Discovery.Arrays.{Array, Found, nothing_found, fill_array}

-- What a discovery hands out: the size that it read, and the array if its address is written.
abbrev pub handed_out : ℕ → Option (RbusError × Option Array) → Option Found
handed_out size none = none
handed_out size (some (ret, array)) = some (record { ret = ret; count = some size; array = array })

-- `ret = RTMESSAGE_BUS_SUCCESS` at the end, whatever has failed before.
abbrev pub as_success : Option Found → Option Found
as_success none = none
as_success (some f) = some (record f { ret = success })

-- An int that a getter did not set keeps its value.
abbrev pub or_zero : Option ℕ → ℕ
or_zero none = 0
or_zero (some n) = n

-- `(RT_OK == rtMessage_GetInt32(...)) && (RT_OK == result)`
abbrev pub is_granted : Option ℕ → Bool
is_granted none = false
is_granted (some result) = result == 0

module _ (env : Env) (r : Router env) where
  -- rtConnection_SendRequest with TIMEOUT_VALUE_FIRE_AND_FORGET
  unfoldable pub ask_router : r.Msg → Name → Action env.World (RtError × r.Msg)
  ask_router msg topic s = outside (r.send_request s.connection msg topic fire_and_forget) s

  -- `rtMessage_Create` and `rtMessage_SetString` of the expression
  abbrev pub expression_request : Name → r.Msg
  expression_request expression = r.set_string r.create r.discovery_expression expression

  -- An answer of any size is handed out, and the call succeeds whatever fails.
  unfoldable pub take_answer : r.Msg → Action env.World (Option Found)
  take_answer msg = elim (r.get_int32 msg r.discovery_count) [
    | none ↦ return none
    | some size ↦ elim (r.get_array_length msg r.discovery_items) [
      | none ↦ return none
      | some length ↦ do
        filling ← fill_array env r msg size length
        return (as_success (handed_out size filling))
    ]
  ]

  -- An answer of which nothing is handed out if it is empty.
  unfoldable pub take_destinations : r.Msg → Action env.World (Option Found)
  take_destinations msg = elim (r.get_int32 msg r.discovery_count) [
    | none ↦ return none
    | some size ↦ elim (r.get_array_length msg r.discovery_items) [
      | none ↦ return none
      | some length ↦ if size == 0 || length == 0 then return (nothing_found success) else (do
        filling ← fill_array env r msg size length
        return (as_success (handed_out size filling)))
    ]
  ]

  -- rbus_discoverWildcardDestinations; of the two pointers, whether they are not NULL.
  unfoldable pub discover_wildcard_destinations :
      Option Name → Bool → Bool → Action env.World (Option Found)
  discover_wildcard_destinations expression has_count has_destinations s = elim s.connection [
    | none ↦ (nothing_found error_invalid_state, s)
    | some c ↦ elim expression [
      | none ↦ (nothing_found error_invalid_param, s)
      | some e ↦
          if has_count && has_destinations
          then (do
            (err, msg) ← ask_router (expression_request e) r.discover_wildcard_destinations
            if is_ok err
                then (if is_granted (r.get_int32 msg r.discovery_result)
                    then take_destinations msg
                    else return (nothing_found error_general))
                else return (nothing_found error_malformed_response))
              s
          else (nothing_found error_invalid_param, s)
    ]
  ]

  -- rbus_discoverObjectElements
  unfoldable pub discover_object_elements :
      Option Name → Bool → Bool → Action env.World (Option Found)
  discover_object_elements object has_count has_elements s = elim s.connection [
    | none ↦ (nothing_found error_invalid_state, s)
    | some c ↦ elim object [
      | none ↦ (nothing_found error_invalid_param, s)
      | some o ↦
          if has_count && has_elements
          then (do
            (err, msg) ← ask_router (expression_request o) r.discover_object_elements
            if is_ok err then take_answer msg else return (nothing_found error_general))
              s
          else (nothing_found error_invalid_param, s)
    ]
  ]

  -- The request of rbus_discoverElementObjects.
  abbrev pub element_request : Name → r.Msg
  element_request element =
      r.add_string (r.set_int32 r.create r.discovery_count 1) r.discovery_items element

  -- rbus_discoverElementObjects; a count that cannot be read is 0.
  unfoldable pub discover_element_objects : Option Name → Action env.World (Option Found)
  discover_element_objects element = elim element [
    | none ↦ return (nothing_found error_invalid_param)
    | some e ↦ do
      (err, msg) ← ask_router (element_request e) r.discover_element_objects
      let size = or_zero (r.get_int32 msg r.discovery_count)
      if is_ok err
          then (if is_granted (r.get_int32 msg r.discovery_result)
              then (do filling ← fill_array env r msg size size; return (handed_out size filling))
              else return (nothing_found error_general))
          else return (nothing_found error_malformed_response)
  ]

  -- rbus_discoverRegisteredComponents
  unfoldable pub discover_registered_components : Action env.World (Option Found)
  discover_registered_components s = elim s.connection [
    | none ↦ (nothing_found error_invalid_state, s)
    | some c ↦
        (do
          (err, msg) ←
              ask_router (r.set_int32 r.create (codes "dummy") 0) r.discover_registered_components
          if is_ok err then take_answer msg else return (nothing_found error_general))
          s
  ]
