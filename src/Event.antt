-- ===== src/Event.antt =====
-- The events of FSPChecker/Compat/eventapi.cpp.
pub mod Defs
pub mod Attempt
pub mod System
pub mod Automatic
pub mod Abstract
pub mod Release
pub mod Errors
pub mod Results
mod Tests
