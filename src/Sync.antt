-- ===== src/Sync.antt =====
-- Events, mutexes, critical sections and the closing of handles: FSPChecker/Compat/synchapi.cpp and
-- FSPChecker/Compat/handleapi.cpp over the handle table and the events.
pub mod Defs
pub mod Close
pub mod Cycle
pub mod Signal
pub mod Mutex
pub mod Wait
pub mod Create
pub mod Names
pub mod Shared
pub mod Critical
mod Tests
