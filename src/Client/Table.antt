-- ===== src/Client/Table.antt =====
-- The table of subscriptions, g_event_subscriptions_for_client.
use rbuscore.Base.{
  Bool, Option, none, some, List, ◌==◌, if◌then◌else◌, update_first, Name, strncmp_eq,
}
use rbuscore.Rt.Vector.{Vector}
use rbuscore.Core.Types.{RbusError, success, error_invalid_param, ClientEvent, ClientSubscription}
use rbuscore.Core.State.{Action, return, gets, modify, lock, unlock, ◌>>=◌, ◌>>◌}
use rbuscore.Core.Env.{Env}

module _ (env : Env) where
  -- client_event_compare gives 0
  unfoldable pub client_event_matches : Name → ClientEvent → Bool
  client_event_matches name e = strncmp_eq env.max_object_name_length e.name name

  -- client_subscription_compare gives 0
  unfoldable pub client_subscription_matches : Name → ClientSubscription → Bool
  client_subscription_matches name sub = strncmp_eq env.max_object_name_length sub.object name

module _ (v : Vector) (env : Env) where
  unfoldable pub find_subscription : Name → List ClientSubscription → Option ClientSubscription
  find_subscription name subs =
      v.find ClientSubscription (client_subscription_matches env name) subs

  unfoldable pub find_client_event : Name → ClientSubscription → Option ClientEvent
  find_client_event name sub = v.find ClientEvent (client_event_matches env name) sub.events

  -- client_event_create and rtVector_PushBack
  unfoldable pub push_client_event : ClientEvent → ClientSubscription → ClientSubscription
  push_client_event e sub = record sub { events = v.push_back ClientEvent sub.events e }

  unfoldable pub drop_client_event : Name → ClientSubscription → ClientSubscription
  drop_client_event name sub = record sub {
    events = v.remove_item ClientEvent (client_event_matches env name) sub.events;
  }

  -- client_subscription_create
  unfoldable pub client_subscription_create : Name → ClientSubscription
  client_subscription_create object_name = record {
    object = object_name;
    events = v.create ClientEvent;
  }

  -- The table with an event added: at the subscription of its object, or at a new one.
  unfoldable pub insert_event :
      Name → ClientEvent → List ClientSubscription → List ClientSubscription
  insert_event object_name e subs = elim (find_subscription object_name subs) [
    | some sub ↦
        update_first (client_subscription_matches env object_name) (push_client_event e) subs
    | none ↦
        v.push_back ClientSubscription subs
          (push_client_event e (client_subscription_create object_name))
  ]

  -- Whether the table has an event of an object.
  unfoldable pub subscribed : Name → Name → List ClientSubscription → Option ClientEvent
  subscribed object_name event_name subs = elim (find_subscription object_name subs) [
    | none ↦ none
    | some sub ↦ find_client_event event_name sub
  ]

  -- The table without an event of an object; the subscription of an object with no event left goes.
  unfoldable pub remove_event : Name → Name → List ClientSubscription → List ClientSubscription
  remove_event object_name event_name subs = elim (find_subscription object_name subs) [
    | none ↦ subs
    | some sub ↦ elim (find_client_event event_name sub) [
      | none ↦ subs
      | some e ↦
          if v.size ClientEvent (drop_client_event event_name sub).events == 0
          then v.remove_item ClientSubscription (client_subscription_matches env object_name) subs
          else update_first (client_subscription_matches env object_name)
              (drop_client_event event_name) subs
    ]
  ]

  -- remove_subscription_callback
  unfoldable pub remove_subscription_callback : Name → Name → Action env.World RbusError
  remove_subscription_callback object_name event_name = do
    lock
    subs ← gets (λ s. s.event_subscriptions)
    modify (λ s. record s { event_subscriptions = remove_event object_name event_name subs })
    unlock
    return (elim (subscribed object_name event_name subs) [
      | none ↦ error_invalid_param
      | some e ↦ success
    ])
