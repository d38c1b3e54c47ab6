-- ===== src/Client/CallbackTests.antt =====
-- A subscription that succeeds and an event that follows it, at a concrete bus.
use rbuscore.Base.{true, ◌≡◌, refl, false, some, none, List, [], ◌∷◌, map, codes, arith, strcmp_eq}
use rbuscore.Rt.Vector.{list_vector, list_vector-IsVector}
use rbuscore.Rt.Msgpack.Plain.{plain, plain-IsMsgpack, wire}
use rbuscore.Message.{Message, init, to_bytes}
use rbuscore.Message.RoundTrip.{Value, expected, write_all, read_all, wires}
use rbuscore.Core.Types.{RtError, Header, success}
use rbuscore.Core.State.{Bus}
use rbuscore.Core.Example.{example_env, bus_with, World}
use rbuscore.Server.PublishLaws.{message}
use rbuscore.Core.Env.{Env}
use rbuscore.Remote.Answers.{answer_bytes}
use rbuscore.Client.Exchange.{send_subscription_request-send_response}
use rbuscore.Client.Request.{send_subscription_request}
use rbuscore.Client.Table.{insert_event, subscribed, find_subscription}
use rbuscore.Client.Subscribe.{
  subscribe_to_event_timeout, subscribe_named, subscribe_checked, start_dispatch, request_or_undo,
}
use rbuscore.Client.SubscribeCases.{Subscribed}
use rbuscore.Client.Receive.{master_event_callback}
use rbuscore.Client.Valid.{ValidTable}
use rbuscore.Client.Callbacks.{master_event_callback-subscribe_to_event_timeout}

-- A connection over which the provider accepts the subscription.
abbrev accepting : Env
accepting = record example_env {
  send_binary_request =
      λ c b n topic t w. ((RtError.ok, answer_bytes example_env (some (success, []))), w);
}

abbrev newcomer : Bus World
newcomer = bus_with [] []

newcomer-ValidTable : ValidTable accepting newcomer.event_subscriptions
newcomer-ValidTable = record { subs_valid = tt; subs_short = tt; subs_distinct = tt }

accepting_lem :
    (client : Bus World)
    → client.connection ≡ some 1
    → send_subscription_request accepting (codes "lamp") (codes "lit") true none 0 client
      ≡ ((success, none), client)
unfolding wires wire plain-IsMsgpack
accepting_lem client connected =
    (send_subscription_request-send_response accepting plain-IsMsgpack (codes "lit") (codes "inbox")
      (codes "lamp") true none 0 success 1
      (record { topic = codes "lamp"; reply_topic = codes "inbox"; is_request = true }) newcomer
      client client.world ((omega arith, tt), omega arith, omega arith) refl connected (omega arith)
      refl refl).1

-- The bus when the request is sent.
abbrev entered : Bus World
entered = record newcomer {
  run_event_client_dispatch = true;
  event_subscriptions =
      insert_event list_vector accepting (codes "lamp")
        (record { name = codes "lit"; callback = 6; user_data = 0 }) [];
}

newcomer-Subscribed :
    Subscribed accepting
      (subscribe_to_event_timeout list_vector accepting
        (some (codes "lamp"))
        (some (codes "lit"))
        (some 6)
        none
        0
        0
        newcomer).0
unfolding subscribe_to_event_timeout subscribe_named subscribe_checked start_dispatch
    request_or_undo subscribed find_subscription
newcomer-Subscribed = ((success, none), rw (accepting_lem entered refl), refl)

-- What the publisher of "lit" writes, and the header under which it arrives.
abbrev brightness : List Value
brightness = Value.int32 7 ∷ Value.string (some (codes "dim")) ∷ []

abbrev from_lamp : Header
from_lamp = record { topic = codes "inbox"; reply_topic = codes "lamp"; is_request = false }

master_event_callback-subscribe_to_event_timeout_example :
    let (_, s') =
      subscribe_to_event_timeout list_vector accepting
        (some (codes "lamp"))
        (some (codes "lit"))
        (some 6)
        none
        0
        0
        newcomer in
    let (data_bytes, n) =
      to_bytes
        (message accepting (codes "lamp") (some (codes "lit")) (write_all plain brightness init)) in
    (msg : Message) × (master_event_callback list_vector accepting from_lamp data_bytes s' ≡ (
      some tt,
      (accepting.call_event 6
          (codes "lamp")
          (some (codes "lit"))
          msg
          0
          (record s' { locked = false })).1,
    ))
    × (read_all plain brightness msg ≡ map (λ x. some (expected x)) brightness)
unfolding strcmp_eq wires wire plain-IsMsgpack
master_event_callback-subscribe_to_event_timeout_example =
    master_event_callback-subscribe_to_event_timeout list_vector accepting plain-IsMsgpack
      (codes "lamp") (codes "lit") 6 0 0 none brightness from_lamp newcomer list_vector-IsVector
      refl newcomer-ValidTable refl refl refl newcomer-Subscribed refl (ground arith) (omega arith)
      (omega arith) (omega arith, (omega arith, tt)) (omega arith) (omega arith)
