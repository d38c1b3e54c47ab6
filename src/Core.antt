-- ===== src/Core.antt =====
-- rbus-core/lib/rbus_core.c and rbus-core/include/rbus_types.h: the types, the global state, and
-- what the library gets from outside.
pub mod Types
pub mod State
pub mod Env
pub mod Example
