-- ===== src/Lib.antt =====
-- A verification of the Windows compatibility layer in FSPChecker/Compat and of the bounded
-- string and memory routines of FSPChecker/Compat/safestringlib.
--
-- The layer gives Linux programs the Windows API. Its objects (files, modules, threads, mutexes,
-- events) are entries of one handle table, its strings are char16_t, its events stand on
-- pthread, and it comes with the bounded routines of safestringlib. The parts:
--
-- SafeStr: safestringlib/safeclib/strcpy_s.c, strncpy_s.c, strcat_s.c, strncat_s.c, strnlen_s.c
-- and safe_str_constraint.c, under their function names. SafeStr/Defs holds the state: memory,
-- the static handler and a log of the handler's calls. The two loops that a routine has for
-- `dest < src` and for the other order are one definition with the order as an argument.
-- SafeStr/Outcome is the specification of a bounded copy, SafeStr/Meets measures a reply by it,
-- and each routine's loop is proved by the way it ends (SafeStr/Copy/Loop, SafeStr/Ncopy/Loop,
-- SafeStr/Append/FindEnd).
-- SafeMem: mem_primitives_lib.c in SafeMem/Primitives, safe_mem_constraint.c in SafeMem/Defs,
-- the routines memset, memzero, memcpy and memmove in SafeMem/Guarded and memcmp in
-- SafeMem/Compare. The 8, 16 and 32 bit versions differ in messages, limits and primitives only,
-- which are arguments of one body. These files are unchanged copies, of which only
-- safe_mem_constraint.c is compiled. SafeMem/Unroll relates the unrolled loops to single steps,
-- SafeMem/Fill, SafeMem/Step and SafeMem/Move say what is in memory afterwards, SafeMem/Meets,
-- SafeMem/Copying and SafeMem/Order what the guarded routines promise.
-- Handle: common_handle.cpp and common_handle.h, with the prefix __compat_handle_ left out. A
-- header is its key, its type and the bytes of its union, so that a text that fills its array
-- runs on into the next member as it does in the code. std::rand and the place where the
-- unordered_map puts an entry are arguments.
-- Utf16: the char16_t functions of tchar.cpp, under their names; u16cstok is Utf16/Tokens, with
-- its static variables as a state and its call chain measured by the fields of
-- Utf16/Tokens/Fields. In Utf16/Narrow is mbstou16cs_s of stdlib_win.cpp, which stands on two of
-- them; what std::wstring_convert gives is an argument.
-- Event: eventapi.cpp in Event/Defs. The return codes of the pthread calls and the state that a
-- sleeping call finds when it wakes are arguments; Event/System lets any number of threads take
-- their steps in any order, and Event/Abstract is the flag that they implement.
-- Sync: CloseHandle of handleapi.cpp and, of synchapi.cpp, CreateEventA, SetEvent, ResetEvent
-- and the EVENT case of WaitForSingleObject, over the handle table and the events: Sync/Defs has
-- the state that they share, the table, the events by address and a log of what is released.
-- Sync/Mutex has ReleaseMutex and the MUTEX case of WaitForSingleObject, Sync/Wait the whole of
-- it, Sync/Create has CreateMutexA; the pthread mutexes are their parameter, with the POSIX laws
-- of a recursive mutex. Sync/Names is what a name means without handles and entries.
-- Sync/Critical has the critical sections, Sync/Critical/Run the abstract section that they
-- implement. Sync/Cycle and Sync/Signal follow an event from its creation to a wait.
-- Files: fileapi.cpp, io.cpp, direct.cpp and, of winbase.cpp, CopyFileA and MoveFileA.
-- Files/System has the parameters: boost::filesystem, std::regex and the POSIX calls over a
-- state of the system, with the few laws that the theorems name (Quiet, of opening for O_PATH
-- and closing, and Removes, of boost::filesystem::remove). Files/Find is the enumeration of a
-- directory, Files/Create CreateFileA (against the Windows documentation in
-- Files/Create/Documented), Files/Io the transfers, Files/Times the FILETIME arithmetic,
-- Files/Paths the rest. An exception is `none`.
-- Threads: processthreadsapi.cpp and _beginthread of process.cpp over the handle table; what is
-- done to threads outside the program is a log. What other threads do between the steps of
-- CreateThread is an argument (Meanwhile). Threads/Wide is about thread ids that an int does not
-- hold.
-- Modules: LoadLibraryA, GetProcAddressA and FreeLibrary of libloaderapi.cpp over the handle
-- table.
-- Numbers: _i64toa and _ui64toa of stdlib_win.cpp.
-- Memory and Base: flat memory with strings in it, and the lemmas that all parts share.
--
-- A DWORD is an unsigned long: 64 bits on the 64-bit Linux that is modelled. Files/Times takes
-- 32 bits, as the ARM build has them, for FileTimeToLocalFileTime, whose shift is undefined
-- otherwise.
-- A HANDLE that the code casts to int is taken as that int.
-- Numbers are natural numbers; an address counts units of the size that the routine works on.
-- The `size_t` subtractions of the code never go below 0 where they are reached. Loops are
-- recursions on the count that they run down. Fuel stands in for a count in four places: the
-- search for a key runs on one more than the number of entries, which is enough by Handle/Keys,
-- where the random start plus that number stays below 2^31: the key is an int, and the model
-- does not stand for the program beyond INT_MAX; the unrolled loops run on their length, which
-- is enough by SafeMem/Unroll; the digits of a number are 64 at most, which is enough by
-- Numbers/Digits; the char16_t loops that run to a NUL take their fuel as an argument, and their
-- theorems ask for the length of the string.
--
-- Not modelled: the lock of the handle table (a call of it is one step), the union's access
-- under another type than that of the entry beyond its bytes, memory exhaustion, logging, the W
-- functions and the formatting and converting functions of tchar.cpp, which stand on boost and
-- codecvt, WaitForMultipleObjects (under #if 0), SetFilePointer, DeviceIoControl,
-- SystemTimeToFileTime, the creation of processes, the wrappers of time, the registry and
-- sockets, the safestringlib files outside FSPChecker/Compat/CMakeLists.txt other than the
-- memory routines, and the programs FSPCheckerCpp and FSPCheckerWritetime.
pub mod Base
pub mod Memory
pub mod SafeStr
pub mod SafeMem
pub mod Utf16
pub mod Handle
pub mod Event
pub mod Sync
pub mod Files
pub mod Threads
pub mod Modules
pub mod Numbers
