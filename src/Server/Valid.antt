-- ===== src/Server/Valid.antt =====
-- Well-formed registries: what every operation on the registered objects keeps.
use rbuscore.Base.{
  ◌≤◌, ◌<◌, ◌≡◌, Option, none, some, List, [], ◌∷◌, ◌++◌, All, update_first, length, Name, strlen,
}
use rbuscore.Rt.Vector.{find_first, remove_first}
use rbuscore.Keyed.{
  named, Distinct, Bounded, find_first-Bounded, update_first-Bounded, remove_first-Bounded,
  All-update_first, update_first-All, All-remove_first, All-append_one, Distinct-update_first,
  Distinct-remove_first, Distinct-append_one,
}
use rbuscore.Core.Types.{Method, Event, Object, max_method_name_length, max_supported_methods}
use rbuscore.Core.Env.{Env}
use rbuscore.Server.Objects.{object_matches}
use rbuscore.Server.Methods.{method_matches}
use rbuscore.Server.Events.{event_matches}

abbrev pub object_key : Object → Name
object_key o = o.name

abbrev pub method_key : Method → Name
method_key m = m.name

abbrev pub event_key : Event → Name
event_key e = e.name

abbrev pub listener_key : Name → Name
listener_key l = l

-- Names within their limits, no name twice, and no more methods than are supported.
pub record ValidObject (env : Env) (o : Object) : Type 0 where
  pub name_short : strlen o.name < env.max_object_name_length
  pub methods_short : Bounded method_key max_method_name_length o.methods
  pub methods_distinct : Distinct method_key o.methods
  pub methods_few : length o.methods ≤ max_supported_methods
  pub events_short : Bounded event_key env.max_object_name_length o.subscriptions
  pub events_distinct : Distinct event_key o.subscriptions
  pub events_owned : All (λ e. e.object ≡ o.name) o.subscriptions
  pub listeners_distinct : All (λ e. Distinct listener_key e.listeners) o.subscriptions

pub record ValidRegistry (env : Env) (os : List Object) : Type 0 where
  pub objects_valid : All (ValidObject env) os
  pub objects_short : Bounded object_key env.max_object_name_length os
  pub objects_distinct : Distinct object_key os

-- The view of a registry: the object of a name, and the method of a name of an object.
abbrev pub object_of : Name → List Object → Option Object
object_of name = find_first (named object_key name)

abbrev pub method_in : Name → Object → Option Method
method_in name o = find_first (named method_key name) o.methods

abbrev pub method_at : Name → Option Object → Option Method
method_at name none = none
method_at name (some o) = method_in name o

abbrev pub method_of : Name → Name → List Object → Option Method
method_of object_name method_name os = method_at method_name (object_of object_name os)

abbrev pub event_in : Name → Object → Option Event
event_in name o = find_first (named event_key name) o.subscriptions

abbrev pub event_at : Name → Option Object → Option Event
event_at name none = none
event_at name (some o) = event_in name o

abbrev pub event_of : Name → Name → List Object → Option Event
event_of object_name event_name os = event_at event_name (object_of object_name os)

-- On a well-formed registry the source's comparisons find what has exactly the name.
pub object_found :
    (env : Env) (n : Name) (os : List Object)
    → ValidRegistry env os
    → find_first (object_matches env n) os ≡ object_of n os
unfolding object_matches
object_found env n os h =
    find_first-Bounded object_key env.max_object_name_length n os h.objects_short

pub method_found :
    (env : Env) (n : Name) (o : Object)
    → ValidObject env o
    → find_first (method_matches n) o.methods ≡ method_in n o
unfolding method_matches
method_found env n o h =
    find_first-Bounded method_key max_method_name_length n o.methods h.methods_short

pub event_found :
    (env : Env) (n : Name) (o : Object)
    → ValidObject env o
    → find_first (event_matches env n) o.subscriptions ≡ event_in n o
unfolding event_matches
event_found env n o h =
    find_first-Bounded event_key env.max_object_name_length n o.subscriptions h.events_short

module _ (env : Env) (n : Name) (os : List Object) (h : ValidRegistry env os) where
  pub objects_updated :
      (f : Object → Object)
      → update_first (object_matches env n) f os ≡ update_first (named object_key n) f os
  unfolding object_matches
  objects_updated f =
      update_first-Bounded object_key env.max_object_name_length n f os h.objects_short

  pub objects_removed :
      remove_first (object_matches env n) os ≡ remove_first (named object_key n) os
  unfolding object_matches
  objects_removed = remove_first-Bounded object_key env.max_object_name_length n os h.objects_short

  -- A change of one object that leaves it well-formed, and keeps names, leaves the registry so.
  pub update-ValidRegistry :
      (f : Object → Object) (o : Object)
      → object_of n os ≡ some o
      → ((x : Object) → (f x).name ≡ x.name)
      → ValidObject env (f o)
      → ValidRegistry env (update_first (named object_key n) f os)
  update-ValidRegistry f o e k v = record {
    objects_valid = All-update_first _ _ f os o e v h.objects_valid;
    objects_short = update_first-All _ _ f os (λ x b. rw (k x) b) h.objects_short;
    objects_distinct = Distinct-update_first object_key _ f os k h.objects_distinct;
  }

  pub remove-ValidRegistry : ValidRegistry env (remove_first (named object_key n) os)
  remove-ValidRegistry = record {
    objects_valid = All-remove_first _ _ os h.objects_valid;
    objects_short = All-remove_first _ _ os h.objects_short;
    objects_distinct = Distinct-remove_first object_key _ os h.objects_distinct;
  }

pub append-ValidRegistry :
    (env : Env) (os : List Object) (o : Object)
    → ValidRegistry env os
    → ValidObject env o
    → object_of o.name os ≡ none
    → ValidRegistry env (os ++ (o ∷ []))
append-ValidRegistry env os o h v e = record {
  objects_valid = All-append_one _ os o h.objects_valid v;
  objects_short = All-append_one _ os o h.objects_short v.name_short;
  objects_distinct = Distinct-append_one object_key os o h.objects_distinct e;
}
