-- ===== src/Runtime.antt =====
-- runtime/: the kernels that a compiled expression calls, over cells of linear memory.
pub mod Value
pub mod ThreeValued
pub mod Arith
pub mod Compare
pub mod BumpArena
pub mod MapKey
pub mod MapIndex
pub mod Maps
pub mod Time
