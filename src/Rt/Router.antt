-- ===== src/Rt/Router.antt =====
-- What the discovery functions of rbus_core.c call: the rtMessage of rtMessage, which are messages
-- of named fields, the requests to the router, and the allocator.
use rbuscore.Base.{
  ℕ, ◌≡◌, ◌⊎◌, ◌^◌, ◌≤◌, ◌<◌, Bool, true, false, Option, none, some, List, length, get_elem?, take,
  Name,
}
use rbuscore.Core.Types.{RtError}
use rbuscore.Core.Env.{Env, Connection}

pub record Router (env : Env) : Type 1 where
  pub Msg : Type 0
  -- rtMessage_Create and the setters
  pub create : Msg
  pub set_string : Msg → Name → Name → Msg
  pub set_int32 : Msg → Name → ℕ → Msg
  pub add_string : Msg → Name → Name → Msg
  -- The getters: the value, an int by its 32-bit pattern, or none where the call fails.
  pub get_int32 : Msg → Name → Option ℕ
  pub get_array_length : Msg → Name → Option ℕ
  pub get_string_item : Msg → Name → ℕ → Option Name
  -- RTM_DISCOVERY_EXPRESSION, _RESULT, _COUNT and _ITEMS: the fields' names
  pub discovery_expression : Name
  pub discovery_result : Name
  pub discovery_count : Name
  pub discovery_items : Name
  -- RTM_DISCOVER_WILDCARD_DESTINATIONS, _OBJECT_ELEMENTS, _ELEMENT_OBJECTS, _REGISTERED_COMPONENTS
  pub discover_wildcard_destinations : Name
  pub discover_object_elements : Name
  pub discover_element_objects : Name
  pub discover_registered_components : Name
  -- rtConnection_SendRequest: message, topic and timeout; the error, and the answer if there is none
  pub send_request : Connection → Msg → Name → ℕ → env.World → (RtError × Msg) × env.World
  -- rt_try_malloc and rt_try_realloc: whether the bytes were there
  pub try_malloc : ℕ → env.World → Bool × env.World
  pub try_realloc : ℕ → env.World → Bool × env.World
  -- strndup: the copy, or none for NULL
  pub strndup : Name → ℕ → env.World → Option Name × env.World

-- The documented behaviour of strndup, a copy of at most n characters, and of the allocator, which
-- refuses objects larger than PTRDIFF_MAX; an int32 has 32 bits.
pub record IsRouter (env : Env) (r : Router env) : Type 0 where
  pub strndup_lem :
      (s : Name) (n : ℕ) (w : env.World)
      → ((r.strndup s n w).0 ≡ none) ⊎ ((r.strndup s n w).0 ≡ some (take n s))
  pub get_int32_range :
      (msg : r.Msg) (key : Name) (n : ℕ) → r.get_int32 msg key ≡ some n → n < 2 ^ 32
  pub try_malloc_huge : (n : ℕ) (w : env.World) → 2 ^ 63 ≤ n → (r.try_malloc n w).0 ≡ false
  pub try_realloc_huge : (n : ℕ) (w : env.World) → 2 ^ 63 ≤ n → (r.try_realloc n w).0 ≡ false

-- Memory does not run out for arrays of at most 2^31 entries.
pub record Roomy (env : Env) (r : Router env) : Type 0 where
  pub try_malloc_lem : (n : ℕ) (w : env.World) → n < 2 ^ 34 → (r.try_malloc n w).0 ≡ true
  pub try_realloc_lem : (n : ℕ) (w : env.World) → n < 2 ^ 34 → (r.try_realloc n w).0 ≡ true
  pub strndup_lem : (s : Name) (n : ℕ) (w : env.World) → (r.strndup s n w).0 ≡ some (take n s)

-- The answer carries these names, and their number.
pub record Carries (env : Env) (r : Router env) (msg : r.Msg) (names : List Name) : Type 0 where
  pub counted : r.get_int32 msg r.discovery_count ≡ some (length names)
  pub sized : r.get_array_length msg r.discovery_items ≡ some (length names)
  pub listed : (i : ℕ) → r.get_string_item msg r.discovery_items i ≡ get_elem? names i
