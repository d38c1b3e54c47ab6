-- ===== src/Lifecycle.antt =====
-- The connection of rbus_core.c: opening and closing it, and the configured address of the broker.
pub mod Config
pub mod Open
pub mod Laws
pub mod Words
pub mod Tests
