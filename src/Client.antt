-- ===== src/Client.antt =====
-- The subscriber's side of rbus_core.c: the table of subscriptions, the requests for them, and the
-- events that come in.
pub mod Table
pub mod Valid
pub mod TableCases
pub mod TableLaws
pub mod UndoLaws
pub mod RequestCases
pub mod SubscribeCases
pub mod SubscribeLaws
pub mod UnsubscribeLaws
pub mod Tests
pub mod Request
pub mod Subscribe
pub mod Receive
pub mod EventMeta
pub mod RequestReading
pub mod Exchange
pub mod Published
pub mod Callbacks
pub mod CallbackTests
pub mod ExchangeTests
pub mod Delivery
