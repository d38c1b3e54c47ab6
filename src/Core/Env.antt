-- ===== src/Core/Env.antt =====
-- What rbus_core.c gets from outside: the connection of rtMessage, msgpack, and the application's
-- callbacks. A callback may call the library again, so it acts on the whole state.
use rbuscore.Base.{ℕ, Bool, Option, List, Name}
use rbuscore.Rt.Msgpack.{Msgpack}
use rbuscore.Message.{Message}
use rbuscore.Core.Types.{RtError, UserData, Header, Listener}
use rbuscore.Core.State.{Action}

-- `g_connection`, NULL as `none`.
abbrev pub Connection : Type 0
Connection = Option ℕ

pub record Env : Type 1 where
  pub World : Type 0
  pub msgpack : Msgpack
  -- RTMSG_HEADER_MAX_TOPIC_LENGTH
  pub max_object_name_length : ℕ
  -- RTMSG_ADVISORY_TOPIC
  pub advisory_topic : Name
  -- rtConnection_Create: the error and the new handle
  pub create : Name → Name → World → (RtError × ℕ) × World
  pub destroy : Connection → World → RtError × World
  pub add_listener : Connection → Name → Listener → World → RtError × World
  pub remove_listener : Connection → Name → World → RtError × World
  pub add_default_listener : Connection → World → RtError × World
  pub add_alias : Connection → Name → Name → World → RtError × World
  pub remove_alias : Connection → Name → Name → World → RtError × World
  -- rtConnection_GetReturnAddress
  pub return_address : Connection → World → Option Name
  -- rtConnection_SendBinaryRequest: bytes, their number, topic and timeout; the error and the reply
  pub send_binary_request : Connection → List ℕ → ℕ → Name → ℕ → World → (RtError × List ℕ) × World
  -- rtConnection_SendBinaryDirect: bytes, their number, destination and sender
  pub send_binary_direct : Connection → List ℕ → ℕ → Name → Name → World → RtError × World
  -- rtConnection_SendBinaryResponse: header, bytes, their number and timeout
  pub send_binary_response : Connection → Header → List ℕ → ℕ → ℕ → World → RtError × World
  -- What successive calls of fgets on /etc/rbus_client.conf give; `none` if it cannot be opened.
  pub read_config : World → Option (List (List ℕ))
  -- access("/nvram/rbus_disable", F_OK) == 0
  pub disable_file_exists : World → Bool
  -- rtMessage_FromBytes, and of the message the int32 RTMSG_ADVISE_EVENT and the string
  -- RTMSG_ADVISE_INBOX
  pub advisory_event : List ℕ → Option ℕ
  pub advisory_inbox : List ℕ → Option Name
  -- rtAdviseClientDisconnect
  pub advise_client_disconnect : ℕ
  -- a `rbus_callback_t`: its result and the response
  pub call_method :
      ℕ → Name → Option Name → Message → UserData → Header → Action World (ℕ × Option Message)
  -- a `rbus_event_subscribe_callback_t`: object, event, listener, added, payload, data
  pub call_subscribe : ℕ → Name → Name → Name → Bool → Option Message → ℕ → Action World ℕ
  -- a `rbus_event_callback_t`: sender, event, message, data
  pub call_event : ℕ → Name → Option Name → Message → ℕ → Action World ℕ
  -- a `rbus_client_disconnect_callback_t`
  pub call_disconnect : ℕ → Name → Action World (Unit {0})

-- A call that acts on what lies outside alone.
abbrev pub outside : {W A : Type 0} → (W → A × W) → Action W A
outside f s = let (a, w) = f s.world in (a, record s { world = w })
