-- ===== src/Discovery/ElementLaws.antt =====
-- What rbus_discoverElementsObjects hands out.
use rbuscore.Base.{
  ℕ, zero, suc, ◌-◌, ◌/◌, ◌≤◌, ◌≡◌, ◌≢◌, refl, Bool-cases, Option-cases, ◌⊎◌, inl, inr, Option,
  none, some, List, [], ◌∷◌, ◌++◌, map, arith, length, All, Name,
}
use rbuscore.Rt.Router.{Router, IsRouter}
use rbuscore.Core.Types.{RbusError, is_ok, success, error_general, error_malformed_response}
use rbuscore.Core.State.{Bus, ◌>>=◌}
use rbuscore.Core.Env.{Env}
use rbuscore.Discovery.Arrays.{Array, Entry, Found, rounds, unset_entries}
use rbuscore.Discovery.Queries.{is_granted, ask_router}
use rbuscore.Discovery.Elements.{
  Gathering, gathered_found, none_gathered, add_elements, gather_elements, gather_answer,
  discover_elements_objects,
}
use rbuscore.Discovery.ElementCases.{Short, Stands, elements_cases}

-- What a gathering may hand out: on success as many names as the count says, none longer than the
-- largest name, in an array with room for them, NULL only if there are none; on failure the count 0
-- and no array.
abbrev pub IsGathered : Env → Found → Type 0
IsGathered env f =
    ((f.ret ≡ success)
      × ((names : List Name) × (f.count ≡ some (length names))
          × (((f.array ≡ some Array.null) × (names ≡ []))
              ⊎ ((spare : ℕ) × (f.array
                    ≡ some (Array.entries (map Entry.text names ++ unset_entries spare)))))
          × All (λ name. length name ≤ env.max_object_name_length) names))
    ⊎ ((f.ret ≢ success) × (f.count ≡ some 0) × (f.array ≡ none))

-- The call ends in something that may be handed out.
abbrev EndsWell : Env → Option Found → Type 0
EndsWell env end = (f : Found) × (end ≡ some f) × IsGathered env f

ends_early : (env : Env) (ret : RbusError) → ret ≢ success → EndsWell env (none_gathered ret)
ends_early env ret bad =
    (record { ret = ret; count = some 0; array = none }, refl, inr (bad, refl, refl))

gathered_ends :
    (env : Env) (r : Router env) (ok : IsRouter env r) (msg : r.Msg) (more : ℕ) (room : Option ℕ)
    (names : List Name)
    → Stands env r ok msg more room names
    → Short env r ok msg names
    → EndsWell env (gathered_found (Gathering.gathered room names))
gathered_ends env r ok msg more none names stands short =
    (_, refl, inl (refl, (names, refl, inl (refl, stands), short)))
gathered_ends env r ok msg more (some room) names stands short =
    (_, refl, inl (refl, (names, refl, inr (room / 8 - length names, refl), short)))

unknown_ends :
    (env : Env) (r : Router env) (msg : r.Msg) (n : ℕ) (w : env.World)
    → r.get_int32 msg r.discovery_count ≡ none
    → EndsWell env (gathered_found (gather_elements env r msg n none [] w).0)
unfolding gather_elements
unknown_ends env r msg zero w unknown = (_, refl, inl (refl, ([], refl, inl (refl, refl), tt)))
unknown_ends env r msg (suc n) w unknown =
    rw (gather_elements, unknown) (_, refl, inr ((λ e. omega arith), refl, refl))

gather_answer_cases :
    (env : Env) (r : Router env) (msg : r.Msg) (n : ℕ) (s : Bus env.World)
    → IsRouter env r
    → EndsWell env (gather_answer env r msg n s).0
unfolding gather_answer
gather_answer_cases env r msg n s ok =
    elim (Bool-cases (is_granted (r.get_int32 msg r.discovery_result))) [
      | inr refused ↦ rw (gather_answer, refused) (ends_early env error_general (λ e. omega arith))
      | inl granted ↦
          rw (gather_answer, granted)
            (elim (Option-cases (r.get_int32 msg r.discovery_count)) [
              | inl unknown ↦ unknown_ends env r msg n s.world unknown
              | inr (more, known) ↦
                  elements_cases env r ok msg (λ g. EndsWell env (gathered_found g)) more n none []
                    s.world (ok.get_int32_range msg r.discovery_count more known) known refl tt
                    (_, refl, inr ((λ e. omega arith), refl, refl))
                    (gathered_ends env r ok msg more)
            ])
    ]

enough_elements :
    (env : Env) (r : Router env) (n : ℕ) (es : List Name) (msg : r.Msg)
    → n ≤ length es
    → (request : r.Msg) × (add_elements env r n es msg ≡ some request)
unfolding add_elements
enough_elements env r zero es msg le = (msg, refl)
enough_elements env r (suc n) [] msg le = let impossible : ⊥ = omega arith in absurd impossible
enough_elements env r (suc n) (e ∷ es) msg le =
    enough_elements env r n es (r.add_string msg r.discovery_items e) (omega arith)

-- rbus_discoverElementsObjects is safe whatever the router answers, if the caller's array holds as
-- many elements as it says: no read or write is out of bounds; on success the caller gets as many names
-- as the count says, none longer than the largest name, in an array with room for them; on failure the
-- count is 0 and no array is handed out. The allocator, strndup and rtMessage are as documented.
pub discover_elements_objects-IsGathered :
    (env : Env) (r : Router env) (num_elements : ℕ) (elements : List Name) (s : Bus env.World)
    → IsRouter env r
    → rounds num_elements ≤ length elements
    → (f : Found) × ((discover_elements_objects env r num_elements (some elements) s).0 ≡ some f)
      × IsGathered env f
unfolding discover_elements_objects
discover_elements_objects-IsGathered env r num es s ok le =
    let (request, made) =
      enough_elements env r (rounds num) es (r.set_int32 r.create r.discovery_count num) le in
    let (answer, s') = ask_router env r request r.discover_element_objects s in
    rw (discover_elements_objects, made)
      (elim (Bool-cases (is_ok answer.0)) [
        | inr silent ↦
            rw (◌>>=◌, silent) (ends_early env error_malformed_response (λ e. omega arith))
        | inl answered ↦
            rw (◌>>=◌, answered) (gather_answer_cases env r answer.1 (rounds num) s' ok)
      ])
