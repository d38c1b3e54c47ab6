-- ===== src/Core/Types.antt =====
-- The types of rbus_core.c and rbus_types.h.
--
-- A pointer to a registered object is the object's name: names of registered objects are distinct
-- and never change. A pointer to code or data of the application is a number.
use rbuscore.Base.{ℕ, Bool, true, false, Option, List, [], Name, codes}
use rbuscore.Message.{Message}

-- `rbus_error_t`: an int, since a remote end's result is cast to it.
abbrev pub RbusError : Type 0
RbusError = ℕ

abbrev pub success : RbusError
success = 0

abbrev pub error_general : RbusError
error_general = 1

abbrev pub error_invalid_param : RbusError
error_invalid_param = 2

abbrev pub error_insufficient_memory : RbusError
error_insufficient_memory = 3

abbrev pub error_invalid_state : RbusError
error_invalid_state = 4

abbrev pub error_remote_end_failed_to_respond : RbusError
error_remote_end_failed_to_respond = 6

abbrev pub error_remote_timed_out : RbusError
error_remote_timed_out = 7

abbrev pub error_malformed_response : RbusError
error_malformed_response = 8

abbrev pub error_unsupported_method : RbusError
error_unsupported_method = 9

abbrev pub error_unsupported_event : RbusError
error_unsupported_event = 10

abbrev pub error_out_of_resources : RbusError
error_out_of_resources = 11

abbrev pub error_destination_unreachable : RbusError
error_destination_unreachable = 12

abbrev pub success_async : RbusError
success_async = 13

abbrev pub subscribe_not_handled : RbusError
subscribe_not_handled = 14

abbrev pub event_not_handled : RbusError
event_not_handled = 15

abbrev pub error_duplicate_entry : RbusError
error_duplicate_entry = 16

-- `rtError` of rtMessage, by the codes that rbus_core.c tells apart.
pub data RtError : Type 0 where
  ok timeout object_no_longer_available duplicate_entry : RtError
  failed : ℕ → RtError

abbrev pub is_ok : RtError → Bool
is_ok RtError.ok = true
is_ok _ = false

abbrev pub max_method_name_length : ℕ
max_method_name_length = 64

abbrev pub max_supported_methods : ℕ
max_supported_methods = 32

-- TIMEOUT_VALUE_FIRE_AND_FORGET
abbrev pub fire_and_forget : ℕ
fire_and_forget = 1000

-- METHOD_ADD_EVENT_SUBSCRIPTION
abbrev pub method_subscribe : Name
method_subscribe = codes "_subscribe"

-- METHOD_REMOVE_EVENT_SUBSCRIPTION
abbrev pub method_unsubscribe : Name
method_unsubscribe = codes "_unsubscribe"

-- METHOD_RESPONSE
abbrev pub method_response : Name
method_response = codes "METHOD_RESPONSE"

abbrev pub method_setparametervalues : Name
method_setparametervalues = codes "METHOD_SETPARAMETERVALUES"

abbrev pub method_getparametervalues : Name
method_getparametervalues = codes "METHOD_GETPARAMETERVALUES"

-- DEFAULT_EVENT
abbrev pub default_event : Name
default_event = []

-- A `rbus_callback_t`: one of the application's, or `subscription_handler`.
pub data Callback : Type 0 where
  app : ℕ → Callback
  subscription_handler : Callback

-- A `void*` that is handed to a callback.
pub data UserData : Type 0 where
  app_data : ℕ → UserData
  object : Name → UserData

-- `struct _server_method`
pub record Method : Type 0 where
  pub name : Name
  pub callback : Callback
  pub user_data : UserData

-- `struct _server_event`
pub record Event : Type 0 where
  pub name : Name
  pub object : Name
  pub listeners : List Name
  pub sub_callback : Option ℕ
  pub sub_data : ℕ

-- `struct _server_object`
pub record Object : Type 0 where
  pub name : Name
  pub user_data : ℕ
  pub callback : ℕ
  pub process_event_subscriptions : Bool
  pub methods : List Method
  pub subscriptions : List Event
  pub subscribe_handler_override : Option ℕ
  pub subscribe_handler_data : ℕ

-- `struct _client_event`
pub record ClientEvent : Type 0 where
  pub name : Name
  pub callback : ℕ
  pub user_data : ℕ

-- `struct _client_subscription`
pub record ClientSubscription : Type 0 where
  pub object : Name
  pub events : List ClientEvent

-- The fields of `rtMessageHeader` that rbus_core.c reads.
pub record Header : Type 0 where
  pub topic : Name
  pub reply_topic : Name
  pub is_request : Bool

-- `struct _queued_request`
pub record Request : Type 0 where
  pub hdr : Header
  pub msg : Message
  pub obj : Name

-- `rbus_method_table_entry_t`
pub record TableEntry : Type 0 where
  pub method : Name
  pub user_data : ℕ
  pub callback : ℕ

-- The listeners that rbus_core.c installs on the connection.
pub data Listener : Type 0 where
  on_message : Name → Listener
  advisory : Listener
