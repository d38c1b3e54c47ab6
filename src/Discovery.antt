-- ===== src/Discovery.antt =====
-- The discovery functions of rbus_core.c: what the router knows of components, objects and elements.
pub mod Arrays
pub mod Queries
pub mod Elements
pub mod ArrayLaws
pub mod QueryLaws
pub mod ElementCases
pub mod ElementLaws
pub mod GatherLaws
pub mod Tests
