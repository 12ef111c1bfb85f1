-- ===== src/SafeStr.antt =====
-- The bounds-checked string routines in FSPChecker/Compat/safestringlib/safeclib that the Compat
-- target builds.
pub mod Defs
pub mod Effects
pub mod Outcome
pub mod Course
pub mod Meets
pub mod Copy
pub mod Ncopy
pub mod Append
pub mod Strnlen
mod Tests
