-- ===== src/Server/EventCases.antt =====
-- Changes of one event of a registered object, by their effect on the events that can be found.
use rbuscore.Base.{
  ◌≡◌, refl, Bool, true, false, Bool-cases, Option-cases, inl, inr, ◌&&◌, none, some, List, [], ◌∷◌,
  ◌++◌, update_first, if◌then◌else◌, arith, Name, strcmp_eq, strcmp_eq→eq, strcmp_eq_refl,
}
use rbuscore.Rt.Vector.{find_first, remove_first, any_item}
use rbuscore.Keyed.{
  mapped, Distinct, find_first-update_first, update_first-Bounded, update_first-All, All-find_first,
  Distinct-update_first, Distinct-append_one, Distinct-remove_first,
}
use rbuscore.Core.Types.{Event, Object}
use rbuscore.Core.Env.{Env}
use rbuscore.Server.Objects.{object_matches}
use rbuscore.Server.Events.{event_matches}
use rbuscore.Server.Valid.{
  ValidObject, ValidRegistry, object_key, event_key, listener_key, object_of, event_in, event_of,
  objects_updated, update-ValidRegistry,
}

-- The event with a listener that was not there put at the end, or one that was there taken out.
abbrev pub with_listener : Bool → Name → Event → Event
with_listener true listener e = record e {
  listeners =
      if any_item (λ x. strcmp_eq x listener) e.listeners
      then e.listeners
      else e.listeners ++ (listener ∷ []);
}
with_listener false listener e = record e {
  listeners = remove_first (λ x. strcmp_eq x listener) e.listeners;
}

pub with_listener_name :
    (added : Bool) (l : Name) (e : Event) → (with_listener added l e).name ≡ e.name
with_listener_name true l e = refl
with_listener_name false l e = refl

pub with_listener_object :
    (added : Bool) (l : Name) (e : Event) → (with_listener added l e).object ≡ e.object
with_listener_object true l e = refl
with_listener_object false l e = refl

-- A change that leaves one event as it is, seen at that event alone.
pub unchanged_lem :
    (f : Event → Event) (os : List Object) (object event x y : Name) (e : Event)
    → event_of object event os ≡ some e
    → f e ≡ e
    → event_of x y os ≡ (
        if strcmp_eq object x && strcmp_eq event y
        then mapped f (event_of x y os)
        else event_of x y os)
unchanged_lem f os object event x y e found same = elim (Bool-cases (strcmp_eq object x)) [
  | inr other ↦ rw other
  | inl here ↦ elim (Bool-cases (strcmp_eq event y)) [
    | inr other ↦ rw (here, other)
    | inl this ↦
        let there : event_of x y os ≡ some e =
          rw (← strcmp_eq→eq object x here, ← strcmp_eq→eq event y this) found in
        rw (here, this, there, same)
  ]
]

-- The object with one event changed, by the source's comparison.
abbrev pub changed : Env → Name → (Event → Event) → Object → Object
changed env event_name f o = record o {
  subscriptions = update_first (event_matches env event_name) f o.subscriptions;
}

module _ (env : Env) (object_name event_name : Name) (f : Event → Event)
    (keeps : (e : Event) → (f e).name ≡ e.name) where
  pub event_in-changed :
      (o : Object) (y : Name)
      → ValidObject env o
      → event_in y (changed env event_name f o)
        ≡ (if strcmp_eq event_name y then mapped f (event_in y o) else event_in y o)
  unfolding event_matches
  event_in-changed o y valid =
      rw
        (update_first-Bounded event_key env.max_object_name_length event_name f o.subscriptions
          valid.events_short)
        (find_first-update_first event_key y event_name f o.subscriptions keeps)

  pub event_of-changed :
      (os : List Object) (x y : Name)
      → ValidRegistry env os
      → event_of x y (update_first (object_matches env object_name) (changed env event_name f) os)
        ≡ (if strcmp_eq object_name x && strcmp_eq event_name y
            then mapped f (event_of x y os)
            else event_of x y os)
  event_of-changed os x y h =
      rw
        (
          objects_updated env object_name os h (changed env event_name f),
          find_first-update_first object_key x object_name (changed env event_name f) os
              (λ o. refl),
        )
        (elim (Bool-cases (strcmp_eq object_name x)) [
          | inr other ↦ rw other
          | inl same ↦ rw same (elim (Option-cases (object_of x os)) [
            | inl missing ↦
                rw missing
                  (elim (Bool-cases (strcmp_eq event_name y)) [ inl e ↦ rw e | inr e ↦ rw e ])
            | inr (o, found) ↦
                rw found (event_in-changed o y (All-find_first _ _ os o found h.objects_valid))
          ])
        ])

  changed-ValidObject :
      (o : Object)
      → ((e : Event) → (f e).object ≡ e.object)
      → ((e : Event) → Distinct listener_key e.listeners → Distinct listener_key (f e).listeners)
      → ValidObject env o
      → ValidObject env (changed env event_name f o)
  changed-ValidObject o owner once v = record {
    name_short = v.name_short;
    methods_short = v.methods_short;
    methods_distinct = v.methods_distinct;
    methods_few = v.methods_few;
    events_short =
        update_first-All _ _ f o.subscriptions (λ e short. rw (keeps e) short) v.events_short;
    events_distinct = Distinct-update_first event_key _ f o.subscriptions keeps v.events_distinct;
    events_owned =
        update_first-All _ _ f o.subscriptions (λ e own. rw (owner e) own) v.events_owned;
    listeners_distinct = update_first-All _ _ f o.subscriptions once v.listeners_distinct;
  }

  pub changed-ValidRegistry :
      (os : List Object) (o : Object)
      → ((e : Event) → (f e).object ≡ e.object)
      → ((e : Event) → Distinct listener_key e.listeners → Distinct listener_key (f e).listeners)
      → object_of object_name os ≡ some o
      → ValidRegistry env os
      → ValidRegistry env
          (update_first (object_matches env object_name) (changed env event_name f) os)
  changed-ValidRegistry os o owner once found h =
      rw (objects_updated env object_name os h (changed env event_name f)) (
        update-ValidRegistry env object_name os h (changed env event_name f) o found (λ x. refl)
          (changed-ValidObject o owner once (All-find_first _ _ os o found h.objects_valid)))

module _ (listener : Name) where
  abbrev pub is_listener : Name → Bool
  is_listener x = strcmp_eq x listener

  find_first-absent :
      (ls : List Name) → any_item is_listener ls ≡ false → find_first is_listener ls ≡ none
  find_first-absent [] e = refl
  find_first-absent (x ∷ ls) e = ground (arith, find_first-absent ls)

  remove_first-absent :
      (ls : List Name) → any_item is_listener ls ≡ false → remove_first is_listener ls ≡ ls
  remove_first-absent [] e = refl
  remove_first-absent (x ∷ ls) e = ground (arith, remove_first-absent ls)

  pub with_listener-Distinct :
      (added : Bool) (e : Event)
      → Distinct listener_key e.listeners
      → Distinct listener_key (with_listener added listener e).listeners
  with_listener-Distinct false e d = Distinct-remove_first listener_key is_listener e.listeners d
  with_listener-Distinct true e d = elim (Bool-cases (any_item is_listener e.listeners)) [
    | inl there ↦ rw there d
    | inr absent ↦ rw absent (
        Distinct-append_one listener_key e.listeners listener d
          (find_first-absent e.listeners absent))
  ]

  -- A listener that is there is not put in again, and one that is not there is not taken out.
  pub with_listener-there :
      (e : Event) → any_item is_listener e.listeners ≡ true → with_listener true listener e ≡ e
  with_listener-there e there = rw there

  pub with_listener-absent :
      (e : Event) → any_item is_listener e.listeners ≡ false → with_listener false listener e ≡ e
  with_listener-absent e absent = rw (remove_first-absent e.listeners absent)

  any_item-append : (ls : List Name) → any_item is_listener (ls ++ (listener ∷ [])) ≡ true
  any_item-append [] = rw (strcmp_eq_refl listener)
  any_item-append (x ∷ ls) = ground (arith, any_item-append ls)

  pub any_item-with_listener :
      (e : Event) → any_item is_listener (with_listener true listener e).listeners ≡ true
  any_item-with_listener e = elim (Bool-cases (any_item is_listener e.listeners)) [
    | inl there ↦ rw there there
    | inr absent ↦ rw absent (any_item-append e.listeners)
  ]
