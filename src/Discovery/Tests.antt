-- ===== src/Discovery/Tests.antt =====
-- The theorems on the discovery functions at a concrete router.
use rbuscore.Base.{
  ℕ, ◌≡◌, refl, ap, inr, ◌^◌, ◌%◌, true, some, List, [], ◌∷◌, ◌++◌, map, get_elem?, take, ltb,
  codes, arith, strcmp_eq, Name, if◌then◌else◌,
}
use rbuscore.Rt.Router.{Router, IsRouter, Roomy, Carries}
use rbuscore.Core.Types.{RtError, success}
use rbuscore.Core.Example.{example_env, lamp_bus}
use rbuscore.Discovery.Arrays.{Array, Entry, Found}
use rbuscore.Discovery.ArrayLaws.{copied, handed}
use rbuscore.Discovery.Queries.{
  or_zero, discover_wildcard_destinations, discover_object_elements, discover_element_objects,
  discover_registered_components,
}
use rbuscore.Discovery.Elements.{discover_elements_objects}
use rbuscore.Discovery.QueryLaws.{
  IsSound, discover-Carries, discover_wildcard_destinations-Carries,
  discover_element_objects-IsSound, discover_object_elements-released,
}
use rbuscore.Discovery.GatherLaws.{discover_elements_objects-Carries}
use rbuscore.Discovery.ElementLaws.{IsGathered, discover_elements_objects-IsGathered}

-- A message by what its getters find.
record Answer : Type 0 where
  result : ℕ
  count : ℕ
  length : ℕ
  items : List Name

-- A router that gives one answer to every request, and an allocator that refuses only what is too large.
abbrev router_with : Answer → Router example_env
router_with answer = record {
  Msg = Answer;
  create = record { result = 0; count = 0; length = 0; items = [] };
  set_string = λ m key value. m;
  set_int32 = λ m key n. record m { count = n };
  add_string = λ m key item. record m { items = m.items ++ (item ∷ []) };
  get_int32 =
      λ m key. some ((if strcmp_eq key (codes "result") then m.result else m.count) % 2 ^ 32);
  get_array_length = λ m key. some m.length;
  get_string_item = λ m key i. get_elem? m.items i;
  discovery_expression = codes "expression";
  discovery_result = codes "result";
  discovery_count = codes "count";
  discovery_items = codes "items";
  discover_wildcard_destinations = codes "wildcard";
  discover_object_elements = codes "elements";
  discover_element_objects = codes "objects";
  discover_registered_components = codes "components";
  send_request = λ c m topic timeout w. ((RtError.ok, answer), w);
  try_malloc = λ n w. (ltb n (2 ^ 63), w);
  try_realloc = λ n w. (ltb n (2 ^ 63), w);
  strndup = λ s n w. (some (take n s), w);
}

router-IsRouter : (answer : Answer) → IsRouter example_env (router_with answer)
router-IsRouter answer = record {
  strndup_lem = λ s n w. inr refl;
  get_int32_range = λ m key n e.
      let bits = if strcmp_eq key (codes "result") then m.result else m.count in
      let same : bits % 2 ^ 32 ≡ n = ap or_zero e in omega (arith, same);
  try_malloc_huge = λ n w le. ground arith;
  try_realloc_huge = λ n w le. ground arith;
}

router-Roomy : (answer : Answer) → Roomy example_env (router_with answer)
router-Roomy answer = record {
  try_malloc_lem = λ n w lt. ground arith;
  try_realloc_lem = λ n w lt. ground arith;
  strndup_lem = λ s n w. refl;
}

abbrev lamps : Answer
lamps = record {
  result = 0;
  count = 2;
  length = 2;
  items = codes "lamp.on" ∷ codes "lamp.lit" ∷ [];
}

abbrev no_items : Answer
no_items = record { result = 0; count = 1; length = 1; items = [] }

lamps-Carries : Carries example_env (router_with lamps) lamps lamps.items
unfolding strcmp_eq
lamps-Carries = record { counted = refl; sized = refl; listed = λ i. refl }

discover-Carries_example :
    ((discover_object_elements example_env
        (router_with lamps)
        (some (codes "lamp"))
        true
        true
        lamp_bus).0
      ≡ some (handed (map (copied example_env) lamps.items)))
    × ((discover_registered_components example_env (router_with lamps) lamp_bus).0
        ≡ some (handed (map (copied example_env) lamps.items)))
discover-Carries_example =
    discover-Carries example_env (router_with lamps) lamps 1 (codes "lamp") lamps.items lamp_bus
      (router-Roomy lamps) refl lamps-Carries (omega arith) refl refl

discover_wildcard_destinations-Carries_example :
    (discover_wildcard_destinations example_env
      (router_with lamps)
      (some (codes "lamp.*"))
      true
      true
      lamp_bus).0
    ≡ some (handed (map (copied example_env) lamps.items))
unfolding strcmp_eq
discover_wildcard_destinations-Carries_example =
    discover_wildcard_destinations-Carries example_env (router_with lamps) lamps 1 (codes "lamp.*")
      lamps.items lamp_bus (router-Roomy lamps) refl lamps-Carries (omega arith) refl refl

discover_element_objects-IsSound_example :
    (f : Found) × ((discover_element_objects example_env
        (router_with lamps)
        (some (codes "lamp.on"))
        lamp_bus).0
      ≡ some f)
    × IsSound example_env f
discover_element_objects-IsSound_example =
    discover_element_objects-IsSound example_env (router_with lamps) (codes "lamp.on") lamp_bus
      (router-IsRouter lamps)

discover_object_elements-released_example :
    (discover_object_elements example_env
      (router_with no_items)
      (some (codes "lamp"))
      true
      true
      lamp_bus).0
    ≡ some (record { ret = success; count = some 1; array = some Array.released })
unfolding strcmp_eq
discover_object_elements-released_example =
    discover_object_elements-released example_env (router_with no_items) no_items 1 0 (codes "lamp")
      lamp_bus (router-Roomy no_items) refl refl refl refl (omega arith) refl

discover_elements_objects-IsGathered_example :
    (f : Found) × ((discover_elements_objects example_env
        (router_with lamps)
        1
        (some (codes "lamp.on" ∷ []))
        lamp_bus).0
      ≡ some f)
    × IsGathered example_env f
discover_elements_objects-IsGathered_example =
    discover_elements_objects-IsGathered example_env (router_with lamps) 1 (codes "lamp.on" ∷ [])
      lamp_bus (router-IsRouter lamps) (omega arith)

-- An answer with an empty item before the last.
abbrev gap : Answer
gap = record { result = 0; count = 3; length = 3; items = codes "lamp" ∷ [] ∷ codes "fan" ∷ [] }

gap-Carries : Carries example_env (router_with gap) gap gap.items
unfolding strcmp_eq
gap-Carries = record { counted = refl; sized = refl; listed = λ i. refl }

discover_elements_objects-Carries_example :
    (discover_elements_objects example_env
      (router_with gap)
      1
      (some (codes "lamp.on" ∷ []))
      lamp_bus).0
    ≡ some (record {
      ret = success;
      count = some 1;
      array = some (Array.entries (Entry.text (codes "lamp") ∷ Entry.unset ∷ Entry.unset ∷ []));
    })
unfolding strcmp_eq
discover_elements_objects-Carries_example =
    discover_elements_objects-Carries example_env (router_with gap) gap 1 (codes "lamp.on")
      gap.items lamp_bus (router-Roomy gap) refl gap-Carries (omega arith) refl refl
