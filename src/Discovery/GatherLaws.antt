-- ===== src/Discovery/GatherLaws.antt =====
-- What rbus_discoverElementsObjects gathers for one element, of an answer that carries names.
use rbuscore.Base.{
  ℕ, zero, suc, ◌+◌, ◌*◌, ◌^◌, ◌≤◌, ◌<◌, ◌≡◌, refl, ap, ◌∙◌, false, some, List, [], ◌∷◌, ◌++◌,
  append-nil, append_assoc, map, arith, length, length-append, get_elem?, ltb, Name,
}
use rbuscore.Rt.Router.{Router, Roomy, Carries}
use rbuscore.Core.Types.{success}
use rbuscore.Core.State.{Bus, ◌>>=◌}
use rbuscore.Core.Env.{Env}
use rbuscore.Discovery.Arrays.{Array, bytes, filled}
use rbuscore.Discovery.ArrayLaws.{copied, length-map, bytes_lem}
use rbuscore.Discovery.Queries.{ask_router}
use rbuscore.Discovery.QueryLaws.{Answers, asked_lem}
use rbuscore.Discovery.Elements.{
  Gathering, and_then, add_elements, gather_items, make_room, gather_elements, gather_answer,
  discover_elements_objects,
}

-- The names before the first that is empty.
abbrev pub until_empty : List Name → List Name
until_empty [] = []
until_empty ([] ∷ names) = []
until_empty ((c ∷ cs) ∷ names) = (c ∷ cs) ∷ until_empty names

get_elem?-append : (xs ys : List Name) → get_elem? (xs ++ ys) (length xs) ≡ get_elem? ys 0
get_elem?-append [] ys = refl
get_elem?-append (x ∷ xs) ys = get_elem?-append xs ys

map-append_one :
    (f : Name → Name) (xs : List Name) (x : Name) → map f (xs ++ (x ∷ [])) ≡ map f xs ++ (f x ∷ [])
map-append_one f [] x = refl
map-append_one f (y ∷ xs) x = ap (◌∷◌ (f y)) (map-append_one f xs x)

module _ (env : Env) (r : Router env) (msg : r.Msg) (roomy : Roomy env r) where
  -- An empty item is read again in every round that is left.
  held_lem :
      (n room : ℕ) (names : List Name) (w : env.World)
      → r.get_string_item msg r.discovery_items (length names) ≡ some []
      → (gather_items env r msg n room names w).0 ≡ Gathering.gathered (some room) names
  unfolding gather_items
  held_lem zero room names w empty = refl
  held_lem (suc n) room names w empty = rw (gather_items, empty) (held_lem n room names w empty)

  gather_items_lem :
      (before rest : List Name) (room : ℕ) (w : env.World)
      → ((i : ℕ) → r.get_string_item msg r.discovery_items i ≡ get_elem? (before ++ rest) i)
      → (length before + length rest) * 8 ≤ room
      → (gather_items env r msg (length rest) room (map (copied env) before) w).0
        ≡ Gathering.gathered (some room) (map (copied env) (before ++ until_empty rest))
  unfolding gather_items
  gather_items_lem before [] room w listed fits = rw append-nil
  gather_items_lem before ([] ∷ rest) room w listed fits =
      let here : r.get_string_item msg r.discovery_items (length (map (copied env) before))
          ≡ some [] =
        rw (length-map (copied env) before)
          (listed (length before) ∙ get_elem?-append before ([] ∷ rest)) in
      rw append-nil (held_lem (suc (length rest)) room (map (copied env) before) w here)
  gather_items_lem before ((c ∷ cs) ∷ rest) room w listed fits =
      let count = length-map (copied env) before in
      let here : r.get_string_item msg r.discovery_items (length (map (copied env) before))
          ≡ some (c ∷ cs) =
        rw count (listed (length before) ∙ get_elem?-append before ((c ∷ cs) ∷ rest)) in
      let inside : ltb room ((length (map (copied env) before) + 1) * 8) ≡ false =
        ground (arith, count) in
      let shifted : (before ++ ((c ∷ cs) ∷ [])) ++ rest ≡ before ++ ((c ∷ cs) ∷ rest) =
        append_assoc before ((c ∷ cs) ∷ []) rest in
      let w' = (r.strndup (c ∷ cs) env.max_object_name_length w).1 in
      rw (gather_items, here, inside)
        (rw (roomy.strndup_lem (c ∷ cs) env.max_object_name_length w) (
          rw (← map-append_one (copied env) before (c ∷ cs)) (
            gather_items_lem (before ++ ((c ∷ cs) ∷ [])) rest room w' (λ i. rw shifted (listed i))
              (omega (arith, length-append before ((c ∷ cs) ∷ [])))
            ∙ ap (λ names. Gathering.gathered (some room) (map (copied env) names))
                (append_assoc before ((c ∷ cs) ∷ []) (until_empty rest)))))

-- The round of the only element hands on what has been gathered.
and_then_lem :
    {W : Type 0} (g : Gathering) (w : W)
    → (and_then (g, w) (λ room names w'. (Gathering.gathered room names, w'))).0 ≡ g
and_then_lem Gathering.undefined w = refl
and_then_lem Gathering.failed w = refl
and_then_lem (Gathering.gathered room names) w = refl

-- What rbus_discoverElementsObjects gathers for one element: success, and the names of a granted
-- answer up to the first that is empty, in order and cut at the largest name, in an array with room for
-- all of them; the names behind an empty one are lost. The bus is connected, memory does not run out,
-- and the answer carries fewer than 2^31 names and their number.
pub discover_elements_objects-Carries :
    (env : Env) (r : Router env) (msg : r.Msg) (c : ℕ) (element : Name) (names : List Name)
    (s : Bus env.World)
    → Roomy env r
    → s.connection ≡ some c
    → Carries env r msg names
    → length names < 2 ^ 31
    → r.get_int32 msg r.discovery_result ≡ some 0
    → Answers env r msg c
        (r.add_string (r.set_int32 r.create r.discovery_count 1) r.discovery_items element)
        r.discover_element_objects
        s.world
    → (discover_elements_objects env r 1 (some (element ∷ [])) s).0
      ≡ some (record {
        ret = success;
        count = some (length (until_empty names));
        array = some (Array.entries (filled (map (copied env) (until_empty names)) (length names)));
      })
unfolding discover_elements_objects add_elements gather_answer gather_elements make_room
discover_elements_objects-Carries env r msg c element names s roomy connected carried lt granted
      answered =
    let request =
      r.add_string (r.set_int32 r.create r.discovery_count 1) r.discovery_items element in
    let (size, room, loops) = bytes_lem (length names) lt in
    rw (discover_elements_objects, ◌>>=◌, asked_lem env r msg c _ _ s connected answered)
      (rw
        (
          granted,
          carried.counted,
          make_room,
          roomy.try_malloc_lem (bytes (length names)) _ (ground (arith, size)),
        )
        (let (answer, s') = ask_router env r request r.discover_element_objects s in
          let w = (r.try_malloc (bytes (length names)) s'.world).1 in
          let all =
            gather_items_lem env r msg roomy [] names (bytes (length names)) w carried.listed
              (omega (arith, size)) in
          rw
            (
              ap (λ p. p.1)
                  (asked_lem env r msg c request r.discover_element_objects s connected answered),
              loops,
            )
            (rw
              (and_then_lem (gather_items env r msg (length names) (bytes (length names)) [] w).0
                (gather_items env r msg (length names) (bytes (length names)) [] w).1)
              (rw all (rw (length-map (copied env) (until_empty names), room))))))
