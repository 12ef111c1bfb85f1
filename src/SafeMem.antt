-- ===== src/SafeMem.antt =====
-- The memory routines of FSPChecker/Compat/safestringlib/safeclib.
pub mod Primitives
pub mod Unroll
pub mod Fill
pub mod Step
pub mod Move
pub mod Defs
pub mod Guarded
pub mod Meets
pub mod Copying
pub mod Compare
pub mod Order
