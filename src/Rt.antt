-- ===== src/Rt.antt =====
-- The libraries that rbuscore calls and whose code is not in the repository, as parameters of the
-- model: msgpack-c (Msgpack) and the containers of rtMessage (Vector). Each module declares a record
-- of operations and, apart from it, a record of the documented behaviour that theorems assume.
pub mod Msgpack
pub mod Vector
pub mod Router
