-- ===== src/Server.antt =====
-- The provider's side of rbus_core.c: objects, their methods and events, and the requests to them.
pub mod Objects
pub mod Valid
pub mod MethodLaws
pub mod MethodTableLaws
pub mod RemovalLaws
pub mod EventCases
pub mod EventSteps
pub mod SubscriptionSteps
pub mod EventLaws
pub mod Notification
pub mod EventTests
pub mod RegistrationTests
pub mod Registry
pub mod Views
pub mod ReplaceViews
pub mod InstallSteps
pub mod CallSteps
pub mod Refinement
pub mod ObjectCases
pub mod ObjectLaws
pub mod Tests
pub mod Methods
pub mod Events
pub mod Registration
pub mod Replace
pub mod Handlers
pub mod HandlerSteps
pub mod RegistrationCases
pub mod Outcome
pub mod RegistrationSteps
pub mod RegistrationLaws
pub mod UnregistrationLaws
pub mod HandlerLaws
pub mod HandlerGap
pub mod Publish
pub mod PublishLaws
pub mod Dispatch
pub mod QueueSteps
pub mod QueueLaws
