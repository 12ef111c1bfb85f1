-- ===== src/Utf16.antt =====
-- The char16_t strings of FSPChecker/Compat/tchar.cpp.
pub mod Defs
pub mod Length
pub mod Narrow
pub mod Tokens
pub mod Copy
pub mod Compare
pub mod Search
mod Tests
