-- ===== src/Files.antt =====
-- Files of FSPChecker/Compat: fileapi.cpp, io.cpp, winbase.cpp and direct.cpp over the handle table.
-- boost::filesystem, std::regex and the system calls are one record of operations.
pub mod Text
pub mod System
pub mod Times
pub mod Find
pub mod Create
pub mod Io
pub mod FindFirst
pub mod Paths
mod Tests
