-- ===== src/Client/Tests.antt =====
-- The theorems on subscriptions at a concrete bus, and runs of the operations.
use rbuscore.Base.{
  ℕ, ◌≡◌, refl, ◌⊎◌, false, none, some, List, [], ◌∷◌, map, codes, arith, Name, strcmp_eq, ◌&&◌,
  if◌then◌else◌,
}
use rbuscore.Client.UnsubscribeLaws.{event_of-unsubscribe_from_event}
use rbuscore.Rt.Vector.{list_vector, list_vector-IsVector}
use rbuscore.Core.Types.{ClientSubscription, Header, error_invalid_param}
use rbuscore.Rt.Msgpack.Plain.{plain, plain-IsMsgpack, wire}
use rbuscore.Message.{Message, init, to_bytes}
use rbuscore.Message.RoundTrip.{Value, write_all, read_all, expected, wires}
use rbuscore.Server.PublishLaws.{message}
use rbuscore.Client.Receive.{master_event_callback}
use rbuscore.Client.Delivery.{master_event_callback-publish_event}
use rbuscore.Core.State.{Bus}
use rbuscore.Core.Example.{World, example_env, bus_with}
use rbuscore.Client.Valid.{event_of, ValidSubscription, ValidTable}
use rbuscore.Client.Subscribe.{or_event, subscribe_to_event_timeout, unsubscribe_from_event}
use rbuscore.Client.SubscribeCases.{Subscribed}
use rbuscore.Client.SubscribeLaws.{
  Shows, subscribe_to_event_timeout-ValidTable, event_of-subscribe_to_event_timeout,
}

-- A subscription to the event "lit" of "lamp".
abbrev lamp_lit : ClientSubscription
lamp_lit = record {
  object = codes "lamp";
  events = record { name = codes "lit"; callback = 5; user_data = 0 } ∷ [];
}

abbrev subscriber : Bus World
subscriber = bus_with [] (lamp_lit ∷ [])

lamp_lit-ValidSubscription : ValidSubscription example_env lamp_lit
lamp_lit-ValidSubscription = record {
  events_short = (omega arith, tt);
  events_distinct = (tt, tt);
  events_some = omega arith;
}

subscriber-ValidTable : ValidTable example_env subscriber.event_subscriptions
subscriber-ValidTable = record {
  subs_valid = (lamp_lit-ValidSubscription, tt);
  subs_short = (omega arith, tt);
  subs_distinct = (tt, tt);
}

subscribe_to_event_timeout-ValidTable_example :
    let (answer, s') =
      subscribe_to_event_timeout list_vector example_env
        (some (codes "fan"))
        (some (codes "on"))
        (some 6)
        none
        0
        0
        subscriber in
    ValidTable example_env s'.event_subscriptions
subscribe_to_event_timeout-ValidTable_example =
    subscribe_to_event_timeout-ValidTable list_vector example_env (some (codes "fan"))
      (some (codes "on")) (some 6) none 0 0 subscriber list_vector-IsVector refl
      subscriber-ValidTable

event_of-subscribe_to_event_timeout_example :
    let (answer, s') =
      subscribe_to_event_timeout list_vector example_env
        (some (codes "fan"))
        (some (codes "on"))
        (some 6)
        none
        0
        0
        subscriber in
    (Subscribed example_env answer
      × ((o e : Name) × (f : ℕ) × (or_event (some (codes "fan")) (some (codes "on")) ≡ some o)
          × (some (codes "on") ≡ some e)
          × (some 6 ≡ some f)
          × Shows o e
              (record { name = e; callback = f; user_data = 0 })
              (codes "fan")
              (codes "on")
              subscriber.event_subscriptions
              s'.event_subscriptions))
    ⊎ ((¬ Subscribed example_env answer)
        × (s'.event_subscriptions ≡ subscriber.event_subscriptions))
event_of-subscribe_to_event_timeout_example =
    event_of-subscribe_to_event_timeout list_vector example_env (some (codes "fan"))
      (some (codes "on")) (some 6) none 0 0 subscriber (codes "fan") (codes "on")
      list_vector-IsVector refl subscriber-ValidTable

event_of-unsubscribe_from_event_example :
    let (ret, s') =
      unsubscribe_from_event list_vector example_env
        (some (codes "lamp"))
        (some (codes "lit"))
        none
        subscriber in
    ValidTable example_env s'.event_subscriptions
    × (((ret ≡ error_invalid_param) × (s'.event_subscriptions ≡ subscriber.event_subscriptions))
        ⊎ ((o : Name) × (or_event (some (codes "lamp")) (some (codes "lit")) ≡ some o)
            × (event_of (codes "lamp") (codes "lit") s'.event_subscriptions ≡ (
                if strcmp_eq o (codes "lamp") && strcmp_eq (codes "lit") (codes "lit")
                then none
                else event_of (codes "lamp") (codes "lit") subscriber.event_subscriptions))))
event_of-unsubscribe_from_event_example =
    event_of-unsubscribe_from_event list_vector example_env (some (codes "lamp"))
      (some (codes "lit")) none subscriber (codes "lamp") (codes "lit") list_vector-IsVector refl
      subscriber-ValidTable

-- What the publisher of "lit" writes, and the header under which it arrives.
abbrev brightness : List Value
brightness = Value.int32 7 ∷ Value.string (some (codes "dim")) ∷ []

abbrev from_lamp : Header
from_lamp = record { topic = codes "inbox"; reply_topic = codes "lamp"; is_request = false }

master_event_callback-publish_event_example :
    let out = write_all plain brightness init in
    let (data_bytes, n) = to_bytes (message example_env (codes "lamp") (some (codes "lit")) out) in
    (msg : Message) × (master_event_callback list_vector example_env from_lamp data_bytes subscriber
      ≡ (
        some tt,
        (example_env.call_event 5
            (codes "lamp")
            (some (codes "lit"))
            msg
            0
            (record subscriber { locked = false })).1,
      ))
    × (read_all plain brightness msg ≡ map (λ x. some (expected x)) brightness)
unfolding strcmp_eq wires wire plain-IsMsgpack
master_event_callback-publish_event_example =
    master_event_callback-publish_event list_vector example_env plain-IsMsgpack (codes "lamp")
      (codes "lit") brightness from_lamp subscriber
      (record { name = codes "lit"; callback = 5; user_data = 0 }) list_vector-IsVector
      subscriber-ValidTable refl refl refl (omega arith) (ground arith) (omega arith) (omega arith)
      (omega arith, (omega arith, tt)) (omega arith) (omega arith)
