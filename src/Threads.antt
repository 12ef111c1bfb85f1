-- ===== src/Threads.antt =====
-- Threads and processes: FSPChecker/Compat/processthreadsapi.cpp and process.cpp over the handle table.
pub mod Defs
pub mod Table
pub mod ExitCode
pub mod Current
pub mod Wide
pub mod Priority
mod Tests
