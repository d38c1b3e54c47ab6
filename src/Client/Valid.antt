-- ===== src/Client/Valid.antt =====
-- Well-formed tables of subscriptions, and what they say of an event of an object.
use rbuscore.Base.{
  ◌≤◌, ◌<◌, ◌≡◌, Option-cases, inl, inr, Option, none, some, List, [], ◌∷◌, ◌++◌, arith, All,
  update_first, length, length-append, Name, strlen,
}
use rbuscore.Rt.Vector.{find_first, remove_first, list_vector}
use rbuscore.Keyed.{
  named, Distinct, Bounded, find_first-Bounded, update_first-Bounded, remove_first-Bounded,
  All-append_one, All-find_first, Distinct-append_one,
}
use rbuscore.Core.Types.{ClientEvent, ClientSubscription}
use rbuscore.Core.Env.{Env}
use rbuscore.Client.Table.{
  find_subscription, find_client_event, drop_client_event, subscribed, client_subscription_matches,
  client_event_matches,
}

abbrev pub object_key : ClientSubscription → Name
object_key sub = sub.object

abbrev pub event_key : ClientEvent → Name
event_key e = e.name

-- Names within the limit, no event twice, and at least one.
pub record ValidSubscription (env : Env) (sub : ClientSubscription) : Type 0 where
  pub events_short : Bounded event_key env.max_object_name_length sub.events
  pub events_distinct : Distinct event_key sub.events
  pub events_some : 1 ≤ length sub.events

pub record ValidTable (env : Env) (subs : List ClientSubscription) : Type 0 where
  pub subs_valid : All (ValidSubscription env) subs
  pub subs_short : Bounded object_key env.max_object_name_length subs
  pub subs_distinct : Distinct object_key subs

-- The view of a table: the event of a name of an object.
abbrev pub subscription_of : Name → List ClientSubscription → Option ClientSubscription
subscription_of name = find_first (named object_key name)

abbrev pub event_in : Name → ClientSubscription → Option ClientEvent
event_in name sub = find_first (named event_key name) sub.events

abbrev pub event_at : Name → Option ClientSubscription → Option ClientEvent
event_at name none = none
event_at name (some sub) = event_in name sub

abbrev pub event_of : Name → Name → List ClientSubscription → Option ClientEvent
event_of object_name event_name subs = event_at event_name (subscription_of object_name subs)

module _ (env : Env) (subs : List ClientSubscription) (h : ValidTable env subs) where
  pub find_subscription_lem :
      (n : Name) → find_subscription list_vector env n subs ≡ subscription_of n subs
  unfolding find_subscription client_subscription_matches
  find_subscription_lem n =
      find_first-Bounded object_key env.max_object_name_length n subs h.subs_short

  pub subs_updated :
      (n : Name) (f : ClientSubscription → ClientSubscription)
      → update_first (client_subscription_matches env n) f subs
        ≡ update_first (named object_key n) f subs
  unfolding client_subscription_matches
  subs_updated n f =
      update_first-Bounded object_key env.max_object_name_length n f subs h.subs_short

  pub subs_removed :
      (n : Name)
      → remove_first (client_subscription_matches env n) subs
        ≡ remove_first (named object_key n) subs
  unfolding client_subscription_matches
  subs_removed n = remove_first-Bounded object_key env.max_object_name_length n subs h.subs_short

module _ (env : Env) (sub : ClientSubscription) (h : ValidSubscription env sub) where
  pub find_client_event_lem : (n : Name) → find_client_event list_vector env n sub ≡ event_in n sub
  unfolding find_client_event client_event_matches
  find_client_event_lem n =
      find_first-Bounded event_key env.max_object_name_length n sub.events h.events_short

  pub drop_client_event_lem :
      (n : Name)
      → drop_client_event list_vector env n sub
        ≡ record sub { events = remove_first (named event_key n) sub.events }
  unfolding drop_client_event client_event_matches
  drop_client_event_lem n =
      rw (remove_first-Bounded event_key env.max_object_name_length n sub.events h.events_short)

  pub push-ValidSubscription :
      (e : ClientEvent)
      → strlen e.name < env.max_object_name_length
      → event_in e.name sub ≡ none
      → ValidSubscription env (record sub { events = sub.events ++ (e ∷ []) })
  push-ValidSubscription e short fresh = record {
    events_short = All-append_one _ sub.events e h.events_short short;
    events_distinct = Distinct-append_one event_key sub.events e h.events_distinct fresh;
    events_some = omega (arith, length-append sub.events (e ∷ []));
  }

pub subscribed_lem :
    (env : Env) (subs : List ClientSubscription) (object_name event_name : Name)
    → ValidTable env subs
    → subscribed list_vector env object_name event_name subs ≡ event_of object_name event_name subs
unfolding subscribed
subscribed_lem env subs o e h =
    rw (subscribed, find_subscription_lem env subs h o)
      (elim (Option-cases (subscription_of o subs)) [
        | inl missing ↦ rw missing
        | inr (sub, found) ↦
            rw found (find_client_event_lem env sub (All-find_first _ _ _ sub found h.subs_valid) e)
      ])
