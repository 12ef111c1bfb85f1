-- ===== src/Handle.antt =====
-- The handle table of FSPChecker/Compat/common_handle.h and common_handle.cpp: every Win32 handle
-- that Compat gives out is a key of one map. Each function holds one lock from its first access of
-- the map to its last, so that it is one step here.
pub mod Types
pub mod Ctx
pub mod Table
pub mod Keys
pub mod File
pub mod Object
pub mod TextEq
pub mod Invariant
pub mod Roundtrip
pub mod Erase
pub mod Search
pub mod ExitCode
mod Tests
