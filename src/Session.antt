-- ===== src/Session.antt =====
-- rbus-core/session_manager/session_manager.c: one session at a time, numbered from a counter.
pub mod Manager
pub mod Steps
pub mod Process
pub mod Startup
pub mod StartupTests
pub mod Renewal
pub mod Exchange
pub mod Tests
