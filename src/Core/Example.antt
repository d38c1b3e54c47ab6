-- ===== src/Core/Example.antt =====
-- A bus for the examples: a world that logs the messages that are sent, and that answers requests
-- while the other end is reachable.
use rbuscore.Base.{
  ℕ, Bool, true, false, none, some, List, [], ◌∷◌, ◌++◌, Name, if◌then◌else◌, codes,
}
use rbuscore.Rt.Msgpack.Plain.{plain}
use rbuscore.Message.{init, set_int32, set_string, begin_meta_section_write, end_meta_section_write}
use rbuscore.Core.Types.{RtError, method_response, Object, ClientSubscription, Callback, UserData}
use rbuscore.Core.State.{Bus}
use rbuscore.Core.Env.{Env}

pub record World : Type 0 where
  -- destination and sender of each message that was sent
  pub sent : List (Name × Name)
  pub notified : List (Name × Bool)
  pub reachable : Bool

abbrev logged : Name → Name → World → World
logged destination sender w = record w { sent = w.sent ++ ((destination, sender) ∷ []) }

-- The bytes of an answer that reports success.
pub answer : List ℕ
unfolding set_int32 set_string begin_meta_section_write end_meta_section_write
answer =
    (end_meta_section_write plain
      (set_string plain (some method_response)
        (begin_meta_section_write plain (set_int32 plain 0 init).0)).0).sbuf

abbrev pub example_env : Env
example_env = record {
  World = World;
  msgpack = plain;
  max_object_name_length = 32;
  advisory_topic = codes "advisory";
  create = λ name address w. ((RtError.ok, 1), w);
  destroy = λ c w. (RtError.ok, w);
  add_listener = λ c name l w. (RtError.ok, w);
  remove_listener = λ c name w. (RtError.ok, w);
  add_default_listener = λ c w. (RtError.ok, w);
  add_alias = λ c name element w. (RtError.ok, w);
  remove_alias = λ c name element w. (RtError.ok, w);
  return_address = λ c w. some (codes "inbox");
  send_binary_request = λ c b n topic t w.
      if w.reachable then ((RtError.ok, answer), logged topic [] w) else ((RtError.timeout, []), w);
  send_binary_direct = λ c b n destination sender w. (RtError.ok, logged destination sender w);
  send_binary_response = λ c hdr b n t w. (RtError.ok, logged [] [] w);
  read_config = λ w. none;
  disable_file_exists = λ w. false;
  advisory_event = λ b. none;
  advisory_inbox = λ b. none;
  advise_client_disconnect = 1;
  call_method = λ f topic method m data_ptr hdr s. ((0, none), s);
  call_subscribe = λ f object event listener added payload data_ptr s. (
    0,
    record s {
      world = record (s.world) { notified = s.world.notified ++ ((listener, added) ∷ []) };
    },
  );
  call_event = λ f sender event m data_ptr s. (0, s);
  call_disconnect = λ f name s. (tt, s);
}

abbrev pub quiet : World
quiet = record { sent = []; notified = []; reachable = true }

-- A connected bus with some objects and subscriptions.
abbrev pub bus_with : List Object → List ClientSubscription → Bus World
bus_with objects subs = record {
  world = quiet;
  connection = some 1;
  daemon_address = [];
  mutex_init = true;
  locked = false;
  server_objects = objects;
  run_event_client_dispatch = false;
  event_subscriptions = subs;
  queued_requests = none;
  stack_counter = 0;
  advisory_listener_installed = false;
  client_disconnect_callback = none;
  master_event_callback = none;
  master_event_user_data = 0;
}

-- An object "lamp" with the method "on" and the event "lit", to which "hall" listens.
abbrev pub lamp : Object
lamp = record {
  name = codes "lamp";
  user_data = 0;
  callback = 7;
  process_event_subscriptions = false;
  methods =
      record { name = codes "on"; callback = Callback.app 3; user_data = UserData.app_data 0 } ∷ [];
  subscriptions =
      record {
        name = codes "lit";
        object = codes "lamp";
        listeners = codes "hall" ∷ [];
        sub_callback = some 5;
        sub_data = 0;
      }
      ∷ [];
  subscribe_handler_override = none;
  subscribe_handler_data = 0;
}

abbrev pub lamp_bus : Bus World
lamp_bus = bus_with (lamp ∷ []) []
