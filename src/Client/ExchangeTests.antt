-- ===== src/Client/ExchangeTests.antt =====
-- The theorems on subscriptions from both sides at a concrete provider and subscriber.
use rbuscore.Base.{
  ◌≡◌, refl, true, none, some, [], ◌∷◌, codes, arith, length, strcmp_eq, strncmp_eq, List, Name, ap,
}
use rbuscore.Rt.Vector.{list_vector, list_vector-IsVector, any_item}
use rbuscore.Rt.Msgpack.Plain.{plain, plain-IsMsgpack, wire}
use rbuscore.Message.{init, set_int32}
use rbuscore.Message.RoundTrip.{wires}
use rbuscore.Core.Types.{
  RtError, Header, Object, success, error_general, error_unsupported_event, fire_and_forget,
  method_subscribe,
}
use rbuscore.Core.State.{Bus}
use rbuscore.Core.Env.{Env}
use rbuscore.Core.Example.{example_env, lamp, lamp_bus, bus_with, World, quiet}
use rbuscore.Remote.{send_response}
use rbuscore.Remote.Answers.{answer_bytes}
use rbuscore.Server.Dispatch.{dispatch_method_call}
use rbuscore.Server.Events.{
  server_object_subscription_handler, handle_subscription, built_in_handler, find_event,
  event_matches, server_event_add_listener, has_listener, notify, modify_event,
}
use rbuscore.Server.Valid.{ValidObject, ValidRegistry}
use rbuscore.Server.Handlers.{with_handler_method}
use rbuscore.Client.Request.{send_subscription_request}
use rbuscore.Server.EventCases.{is_listener}
use rbuscore.Server.EventSteps.{Undisturbing}
use rbuscore.Server.Objects.{get_object, object_matches, modify_object}
use rbuscore.Server.Publish.{publish_event}
use rbuscore.Server.PublishLaws.{delivered, message}
use rbuscore.Client.Published.{publish_event-dispatch_method_call}
use rbuscore.Client.Exchange.{
  request, dispatch_method_call-subscription_request, send_subscription_request-send_response,
}

-- A lamp that takes subscription requests.
abbrev open_lamp : Object
open_lamp = record lamp {
  methods = with_handler_method example_env (codes "lamp") method_subscribe ∷ [];
}

abbrev provider : Bus World
provider = bus_with (open_lamp ∷ []) []

open_lamp-ValidObject : ValidObject example_env open_lamp
unfolding strcmp_eq
open_lamp-ValidObject = record {
  name_short = omega arith;
  methods_short = omega arith;
  methods_distinct = (tt, tt);
  methods_few = omega arith;
  events_short = omega arith;
  events_distinct = (tt, tt);
  events_owned = (refl, tt);
  listeners_distinct = ((tt, tt), tt);
}

provider-ValidRegistry : ValidRegistry example_env provider.server_objects
provider-ValidRegistry = record {
  objects_valid = (open_lamp-ValidObject, tt);
  objects_short = omega arith;
  objects_distinct = (tt, tt);
}

abbrev asked : Header
asked = record { topic = codes "lamp"; reply_topic = codes "inbox"; is_request = true }

dispatch_method_call-subscription_request_example :
    dispatch_method_call list_vector example_env
      (request example_env (codes "lit") (codes "inbox") true none)
      asked
      (codes "lamp")
      provider
    ≡ (let (ret, s') =
          server_object_subscription_handler list_vector example_env
            (codes "lamp")
            (codes "lit")
            (codes "inbox")
            true
            none
            provider in
        (tt, (send_response example_env asked (some (set_int32 plain ret init).0) s').1))
unfolding strcmp_eq wires wire plain-IsMsgpack
dispatch_method_call-subscription_request_example =
    dispatch_method_call-subscription_request list_vector example_env plain-IsMsgpack (codes "lit")
      (codes "inbox") true none (codes "lamp") open_lamp asked provider list_vector-IsVector
      provider-ValidRegistry
      (ground arith, ground arith, omega arith, omega arith, tt, omega arith, omega arith) refl refl

-- A connection over which the provider answers that it does not have the event.
abbrev refusing : Env
refusing = record example_env {
  send_binary_request = λ c b n topic t w.
      ((RtError.ok, answer_bytes example_env (some (error_unsupported_event, []))), w);
}

send_subscription_request-send_response_example :
    ((send_response refusing asked
        (some (set_int32 plain error_unsupported_event init).0)
        provider).1.world
      ≡ (refusing.send_binary_response
          (some 1)
          asked
          (answer_bytes refusing (some (error_unsupported_event, [])))
          (length (answer_bytes refusing (some (error_unsupported_event, []))))
          fire_and_forget
          quiet).1)
    × (send_subscription_request refusing (codes "lamp") (codes "lit") true none 0 lamp_bus
        ≡ ((error_general, some error_unsupported_event), lamp_bus))
unfolding wires wire plain-IsMsgpack
send_subscription_request-send_response_example =
    send_subscription_request-send_response refusing plain-IsMsgpack (codes "lit") (codes "inbox")
      (codes "lamp") true none 0 error_unsupported_event 1 asked provider lamp_bus quiet
      ((omega arith, tt), omega arith, omega arith) refl refl (omega arith) refl refl

-- Callbacks for subscriptions that leave the registered objects alone.
quiet_callbacks : Undisturbing example_env
quiet_callbacks f object event listener added payload user_data s = refl

-- The provider after a request of "inbox" has arrived.
abbrev lit_requested : Bus World
lit_requested =
    (dispatch_method_call list_vector example_env
      (request example_env (codes "lit") (codes "inbox") true none) asked (codes "lamp") provider).1

still_connected : lit_requested.connection ≡ some 1
unfolding strcmp_eq strncmp_eq wires wire plain-IsMsgpack server_object_subscription_handler
    get_object object_matches handle_subscription built_in_handler find_event event_matches
    server_event_add_listener has_listener notify modify_event modify_object send_response
still_connected =
    ap (λ r. r.1.connection)
      (dispatch_method_call-subscription_request list_vector example_env plain-IsMsgpack
        (codes "lit") (codes "inbox") true none (codes "lamp") open_lamp asked provider
        list_vector-IsVector provider-ValidRegistry
        (ground arith, ground arith, omega arith, omega arith, tt, omega arith, omega arith) refl
        refl)

publish_event-dispatch_method_call_example :
    let (ret, s'') =
      publish_event list_vector example_env
        (codes "lamp")
        (some (codes "lit"))
        init
        lit_requested in
    (ret ≡ success)
    × ((listeners : List Name) × (any_item (is_listener (codes "inbox")) listeners ≡ true)
        × (s''.world
            ≡ delivered example_env 1
                (message example_env (codes "lamp") (some (codes "lit")) init)
                (codes "lamp")
                listeners
                lit_requested.world))
unfolding strcmp_eq wires wire plain-IsMsgpack
publish_event-dispatch_method_call_example =
    publish_event-dispatch_method_call list_vector example_env plain-IsMsgpack (codes "lit")
      (codes "inbox") none (codes "lamp") open_lamp asked provider 1 init list_vector-IsVector
      quiet_callbacks provider-ValidRegistry
      (ground arith, ground arith, omega arith, omega arith, tt, omega arith, omega arith) refl refl
      refl (λ e. cc) (omega arith) (omega arith) still_connected
