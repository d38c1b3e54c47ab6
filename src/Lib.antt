-- ===== src/Lib.antt =====
-- The core of rbus: messages, registered objects with their methods and events, subscriptions to the
-- events of others, and the session manager that is built on them (rbus-core/).
--
-- A provider registers objects on the bus. Each has methods, found by name when a request arrives, and
-- events with listeners, which get a message when the event is published. A client sends requests to
-- objects, and keeps a table of the events it has subscribed to. All of it travels in messages: msgpack
-- buffers with a meta section at the end, which names the method or the event. The session manager is a
-- provider with three methods.
--
-- The files and the code that they model:
-- - Base: numbers, lists and names (lists of character codes), with strlen, strnlen, strcmp and strncmp.
-- - Rt: the libraries that are not in the repository, as records of operations, with their documented
--   behaviour in records of their own. Rt/Msgpack is msgpack-c (Rt/Msgpack/Plain is an instance of the
--   behaviour), Rt/Vector the rtVector of rtMessage (list_vector is its instance).
-- - Keyed: lists whose items are found by name, as vectors of objects, methods and events are.
-- - Message: rbus-core/lib/rbus_message.c. A setter or getter is the function of that name in snake case
--   (rbusMessage_SetInt32 is set_int32), and so for every other function. Message/Debug is
--   rbusMessage_ToDebugString, with the printer of msgpack-c as a parameter, which writes past the end of
--   its room for a text.
-- - Core: the types and globals of rbus-core/lib/rbus_core.c. Core/State is the state Bus of its global
--   variables and the sequencing of calls, Core/Env the record of everything outside: the rtConnection
--   calls, files, and the application's callbacks, which may change the whole state.
-- - Remote: rbus_invokeRemoteMethod, rbus_pushObj, rbus_pullObj, rbus_sendMessage, rbus_sendResponse.
--   Replies, Answers and AnswerLaws join the two sides of a request.
-- - Server: registration (Objects, Methods, Events, Registration), rbus_publishEvent (Publish) and the
--   dispatch of requests (Dispatch). Registry is the abstract registry that Refinement relates them to,
--   by way of Views; Notification joins a subscription request to the events that follow. Handlers and
--   Outcome say how install_subscription_handlers leaves an object, HandlerGap what it does with room
--   for one method. Valid states what a well-formed registry is; Replace and the files *Cases and *Steps
--   hold lemmas, the files *Laws what the operations do.
-- - Client: the table of subscriptions, requests to subscribe, and received events. Client/Valid states
--   what a well-formed table is; the files *Cases list how a call can end, the files *Laws what it does;
--   EventMeta and Delivery follow an event from its publisher to the subscriber's callback, Callbacks
--   from the subscription on; RequestReading, Exchange and Published follow a subscription request from
--   the subscriber to the provider, its answer back, and the events after it.
-- - Discovery: the rbus_discover functions. Arrays has the arrays of strings they hand out, Queries the
--   four functions with one loop, Elements the one whose array grows; the files *Laws what they hand out.
--   The messages and requests to the router, and the allocator, are the record of Rt/Router.
-- - Lifecycle: opening and closing of the connection (Open, Laws), and the configured address of the
--   router (Config, with the words of a text in Words).
-- - Session: rbus-core/session_manager/session_manager.c. Process is its `main`, and Startup follows that
--   to the point where the methods can be called; Steps has histories of calls, Renewal the end of one
--   session before the next, Exchange the messages of a client.
--
-- Conventions. A pointer to a registered object, method or event is the name it was found by; names of
-- registered objects are distinct and do not change. A vector is the list of its items, and a destroyed
-- one reads as empty. The vector of queued requests is never created: it is none, which reads as empty
-- and takes no item. The state is that of one thread: the mutex is a flag that lock sets and unlock
-- clears. An int is its 32-bit pattern, and a size is cut where the source puts it into a uint32_t or
-- an int: the theorems on messages are for messages below 2^32 bytes and strings below 2^31. A read through a NULL pointer is a result none where a caller can
-- bring it about. The loop over queued requests (drain) takes the number of its rounds as fuel, since
-- a callback may queue requests without end; as the queue is NULL no round is ever made.
-- The loop over the items of a message for its debug text has a round for each byte and one more. The
-- loop in which the session manager connects (connect) takes the number of its attempts; the theorem on
-- it needs more of them than the time that the router takes to accept.
--
-- Not modelled: reference counts and the release of memory, logging, and the programs that test the
-- library.
pub mod Base
pub mod Rt
pub mod Keyed
pub mod Message
pub mod Core
pub mod Remote
pub mod Server
pub mod Client
pub mod Lifecycle
pub mod Session
pub mod Discovery
