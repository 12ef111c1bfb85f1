-- ===== src/Memory.antt =====
-- Flat memory and the strings in it, for the pointer loops of Compat's string routines.
mod Defs
mod Laws
pub use Defs.*
pub use Laws.*
