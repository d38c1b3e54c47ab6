-- ===== src/Discovery/QueryLaws.antt =====
-- What the discovery functions hand out, by the router's answer.
use rbuscore.Base.{
  ℕ, suc, ◌^◌, ◌≤◌, ◌<◌, ◌≡◌, ◌≢◌, refl, sym, ap, ◌∙◌, true, Bool-cases, Option-cases, ◌⊎◌, inl,
  inr, none, some, List, map, arith, length, ◌==◌, if◌then◌else◌, All, Name, codes,
}
use rbuscore.Rt.Router.{Router, IsRouter, Roomy, Carries}
use rbuscore.Core.Types.{
  RbusError, RtError, is_ok, success, error_general, error_malformed_response, fire_and_forget,
}
use rbuscore.Core.State.{Bus, ◌>>=◌}
use rbuscore.Core.Env.{Env}
use rbuscore.Discovery.Arrays.{Entry, Array, Found, nothing_found}
use rbuscore.Discovery.ArrayLaws.{copied, handed, length-map, fill_lem, fill_cases, fill_broken}
use rbuscore.Discovery.Queries.{
  or_zero, is_granted, handed_out, ask_router, expression_request, element_request, take_answer,
  take_destinations, discover_wildcard_destinations, discover_object_elements,
  discover_element_objects, discover_registered_components,
}

module _ (env : Env) (r : Router env) (msg : r.Msg) where
  take_answer_lem :
      (room : Roomy env r) (names : List Name) (s : Bus env.World)
      → Carries env r msg names
      → length names < 2 ^ 31
      → (take_answer env r msg s).0 ≡ some (handed (map (copied env) names))
  unfolding take_answer
  take_answer_lem room names s carried lt =
      rw (take_answer, carried.counted, carried.sized)
        (rw (fill_lem env r msg room names s carried lt) (
          ap
            (λ n. some (record {
              ret = success;
              count = some n;
              array = some (Array.entries (map Entry.text (map (copied env) names)));
            }))
            (sym (length-map (copied env) names))))

  -- The router answers a request of the topic with the message.
  abbrev pub Answers : ℕ → r.Msg → Name → env.World → Type 0
  Answers c request topic w =
      (r.send_request (some c) request topic fire_and_forget w).0 ≡ (RtError.ok, msg)

  pub asked_lem :
      (c : ℕ) (request : r.Msg) (topic : Name) (s : Bus env.World)
      → s.connection ≡ some c
      → Answers c request topic s.world
      → (ask_router env r request topic s).0 ≡ (RtError.ok, msg)
  unfolding ask_router
  asked_lem c request topic s connected answered =
      ap (λ k. (r.send_request k request topic fire_and_forget s.world).0) connected ∙ answered

-- rbus_discoverObjectElements and rbus_discoverRegisteredComponents hand out exactly what the router
-- answers: success, the number of names, and a copy of each, in order, cut at the largest name. The
-- bus is connected, memory does not run out, and the answer carries fewer than 2^31 names and their
-- number.
pub discover-Carries :
    (env : Env) (r : Router env) (msg : r.Msg) (c : ℕ) (object : Name) (names : List Name)
    (s : Bus env.World)
    → Roomy env r
    → s.connection ≡ some c
    → Carries env r msg names
    → length names < 2 ^ 31
    → Answers env r msg c (expression_request env r object) r.discover_object_elements s.world
    → Answers env r msg c
        (r.set_int32 r.create (codes "dummy") 0)
        r.discover_registered_components
        s.world
    → ((discover_object_elements env r (some object) true true s).0
        ≡ some (handed (map (copied env) names)))
      × ((discover_registered_components env r s).0 ≡ some (handed (map (copied env) names)))
unfolding discover_object_elements discover_registered_components
discover-Carries env r msg c object names s room connected carried lt answered answered' = (
  rw (connected, discover_object_elements)
      (rw (◌>>=◌, asked_lem env r msg c _ _ s connected answered)
        (take_answer_lem env r msg room names _ carried lt)),
  rw (connected, discover_registered_components)
      (rw (◌>>=◌, asked_lem env r msg c _ _ s connected answered')
        (take_answer_lem env r msg room names _ carried lt)),
)

-- Of a granted answer with some destinations rbus_discoverWildcardDestinations hands out exactly
-- those: success, their number, and a copy of each, in order, cut at the largest name. Of an empty
-- answer it reports success and writes neither the number nor the array. The bus is connected,
-- memory does not run out, and the answer carries fewer than 2^31 names and their number.
pub discover_wildcard_destinations-Carries :
    (env : Env) (r : Router env) (msg : r.Msg) (c : ℕ) (expression : Name) (names : List Name)
    (s : Bus env.World)
    → Roomy env r
    → s.connection ≡ some c
    → Carries env r msg names
    → length names < 2 ^ 31
    → r.get_int32 msg r.discovery_result ≡ some 0
    → Answers env r msg c
        (expression_request env r expression)
        r.discover_wildcard_destinations
        s.world
    → (discover_wildcard_destinations env r (some expression) true true s).0 ≡ (
        if length names == 0 then nothing_found success else some (handed (map (copied env) names)))
unfolding discover_wildcard_destinations take_destinations
discover_wildcard_destinations-Carries env r msg c e names s room connected carried lt granted
      answered =
    rw (connected, discover_wildcard_destinations)
      (rw (◌>>=◌, asked_lem env r msg c _ _ s connected answered)
        (rw (granted, take_destinations, carried.counted, carried.sized)
          (elim (Bool-cases (length names == 0)) [
            | inl empty ↦ rw empty
            | inr full ↦ rw full (
                rw (fill_lem env r msg room names _ carried lt) (
                  ap
                    (λ n. some (record {
                      ret = success;
                      count = some n;
                      array = some (Array.entries (map Entry.text (map (copied env) names)));
                    }))
                    (sym (length-map (copied env) names))))
          ])))

-- What a discovery may hand out: on success as many names as the count says, none longer than the
-- largest name; on failure no array that is alive.
abbrev pub IsSound : Env → Found → Type 0
IsSound env f =
    ((f.ret ≡ success)
      × ((names : List Name) × (f.count ≡ some (length names))
          × (f.array ≡ some (Array.entries (map Entry.text names)))
          × All (λ name. length name ≤ env.max_object_name_length) names))
    ⊎ ((f.ret ≢ success) × ((f.array ≡ none) ⊎ (f.array ≡ some Array.released)))

count_range :
    (env : Env) (r : Router env) (msg : r.Msg)
    → IsRouter env r
    → or_zero (r.get_int32 msg r.discovery_count) < 2 ^ 32
count_range env r msg ok = elim (Option-cases (r.get_int32 msg r.discovery_count)) [
  | inl missing ↦ rw missing (omega arith)
  | inr (n, there) ↦ rw there (ok.get_int32_range msg r.discovery_count n there)
]

nothing_found-IsSound :
    (env : Env) (ret : RbusError)
    → ret ≢ success
    → (f : Found) × (nothing_found ret ≡ some f) × IsSound env f
nothing_found-IsSound env ret bad =
    (record { ret = ret; count = none; array = none }, refl, inr (bad, inl refl))

-- rbus_discoverElementObjects is safe whatever the router answers: nothing undefined happens; on
-- success the caller gets a live array with as many names as the count says, none longer than the
-- largest name; on failure it gets no live array. The allocator, strndup and rtMessage are as documented.
pub discover_element_objects-IsSound :
    (env : Env) (r : Router env) (element : Name) (s : Bus env.World)
    → IsRouter env r
    → (f : Found) × ((discover_element_objects env r (some element) s).0 ≡ some f) × IsSound env f
unfolding discover_element_objects
discover_element_objects-IsSound env r element s ok =
    let (answer, s') =
      ask_router env r (element_request env r element) r.discover_element_objects s in
    elim (Bool-cases (is_ok answer.0)) [
      | inr silent ↦
          rw (◌>>=◌, silent) (nothing_found-IsSound env error_malformed_response (λ e. omega arith))
      | inl answered ↦ elim (Bool-cases (is_granted (r.get_int32 answer.1 r.discovery_result))) [
        | inr refused ↦
            rw (◌>>=◌, answered, refused)
              (nothing_found-IsSound env error_general (λ e. omega arith))
        | inl granted ↦
            rw (◌>>=◌, answered, granted)
              (fill_cases env r answer.1 ok
                (λ filling.
                  (f : Found) × (handed_out (or_zero (r.get_int32 answer.1 r.discovery_count))
                      filling
                    ≡ some f)
                  × IsSound env f)
                (or_zero (r.get_int32 answer.1 r.discovery_count)) s'
                (count_range env r answer.1 ok) (_, refl, inr ((λ e. omega arith), inl refl))
                (_, refl, inr ((λ e. omega arith), inr refl))
                (λ names e short. (_, refl, inl (refl, (names, ap some (sym e), refl, short)))))
      ]
    ]

-- rbus_discoverObjectElements does not tell a failure: of an answer that says that it carries n names,
-- n not 0, and in which the first cannot be read, it reports success, the count n, and an array that
-- has been released. The bus is connected, and the memory for the array is there.
pub discover_object_elements-released :
    (env : Env) (r : Router env) (msg : r.Msg) (c n : ℕ) (object : Name) (s : Bus env.World)
    → Roomy env r
    → s.connection ≡ some c
    → r.get_int32 msg r.discovery_count ≡ some (suc n)
    → r.get_array_length msg r.discovery_items ≡ some (suc n)
    → r.get_string_item msg r.discovery_items 0 ≡ none
    → suc n < 2 ^ 31
    → Answers env r msg c (expression_request env r object) r.discover_object_elements s.world
    → (discover_object_elements env r (some object) true true s).0
      ≡ some (record { ret = success; count = some (suc n); array = some Array.released })
unfolding discover_object_elements take_answer
discover_object_elements-released env r msg c n object s room connected counted sized broken lt
      answered =
    rw (connected, discover_object_elements)
      (rw (◌>>=◌, asked_lem env r msg c _ _ s connected answered)
        (rw (take_answer, counted, sized) (rw (fill_broken env r msg n _ room broken lt))))
