-- ===== src/Pool.antt =====
-- The object pools of lib/inc/memory. An object is known by the number under which it was made. A
-- vector stands with its back first, since the pools push, pop and cut at the back.
pub mod Object
pub mod Hybrid
