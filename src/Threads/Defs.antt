-- ===== src/Threads/Defs.antt =====
-- `CreateThread`, `ExitThread`, `TerminateThread`, `SuspendThread`, `GetExitCodeThread`,
-- `GetCurrentThreadId` and `GetCurrentThread` of FSPChecker/Compat/processthreadsapi.cpp, `_beginthread` of
-- process.cpp. What is done to threads outside the program is a log, newest first.
use learn_docs.Base.{
  ℕ, ◌-◌, ◌^◌, Bool, true, false, not, ◌&&◌, Option, none, some, List, ◌∷◌, ◌==◌, if◌then◌else◌,
}
use learn_docs.Memory.{Ptr, null}
use learn_docs.Handle.Table.{Table}
use learn_docs.Handle.Object.{
  reg_thread, get_thread_tid, find_thread_by_tid, set_thread_exitcode, get_thread_exitcode,
}

pub data ThreadAction : Type 0 where
  starts : (tid : ℕ) (start_address arglist : Ptr) → ThreadAction
  cancels : (tid : ℕ) → ThreadAction
  exits : (tid : ℕ) → ThreadAction

pub record Process : Type 0 where
  pub table : Table
  pub actions : List ThreadAction

abbrev pub still_active : ℕ
still_active = 0x103

-- What the threads, the new one with them, do while `CreateThread` is between two steps: after the new
-- thread was started, after it was registered, and after its id was read back.
pub record Meanwhile : Type 0 where
  pub started : Process → Process
  pub registered : Process → Process
  pub read_back : Process → Process

abbrev pub undisturbed : Meanwhile
undisturbed = record { started = λ w. w; registered = λ w. w; read_back = λ w. w }

-- `native` is the id of the new thread, or nothing where `std::thread` throws.
unfoldable pub beginthread : Meanwhile → Option ℕ → ℕ → ℕ → Ptr → Ptr → Process → ℕ × Process
beginthread gaps none random place start_address arglist w = (0, w)
beginthread gaps (some tid) random place start_address arglist w =
    let w' = gaps.started (record w { actions = starts tid start_address arglist ∷ w.actions }) in
    let (handle, t) = reg_thread random place tid w'.table in
    if start_address == null then (0, w) else (handle, record w' { table = t })

-- What `CreateThread` does where `lpThreadId` is not null.
unfoldable pub mark_active : Meanwhile → ℕ → Process → Process
mark_active gaps handle w =
    let tid = get_thread_tid handle w.table in
    let w' = gaps.read_back w in
    record w' { table = (set_thread_exitcode tid still_active w'.table).1 }

-- `with_id` says whether `lpThreadId` is not null; the id stored there is the handle.
unfoldable pub create_thread :
    Meanwhile → Option ℕ → ℕ → ℕ → Ptr → Ptr → Bool → Process → ℕ × Process
create_thread gaps native random place start_address parameter with_id w =
    let (handle, w₁) = beginthread gaps native random place start_address parameter w in
    let w₂ = gaps.registered w₁ in
    if start_address == null
    then (0, w)
    else (handle, if with_id then mark_active gaps handle w₂ else w₂)

-- `self` is `pthread_self()`.
unfoldable pub exit_thread : ℕ → ℕ → Process → Process
exit_thread self exit_code w = record {
  table = (set_thread_exitcode self exit_code w.table).1;
  actions = exits self ∷ w.actions;
}

-- `cancel_rc` is what `pthread_cancel` returns.
unfoldable pub terminate_thread : ℕ → ℕ → ℕ → Process → Bool × Process
terminate_thread cancel_rc handle exit_code w =
    let tid = get_thread_tid handle w.table in
    let actions = cancels tid ∷ w.actions in
    let exited = (set_thread_exitcode tid exit_code w.table).1 in
    if tid == 0
    then (false, w)
    else if cancel_rc == 0
    then (true, record { table = exited; actions = actions })
    else (true, record w { actions = actions })

-- It returns -1 always, which a `DWORD` holds as 2^64 - 1.
unfoldable pub suspend_thread : ℕ → Process → ℕ × Process
suspend_thread handle w =
    let tid = get_thread_tid handle w.table in
    if tid == 0
    then (2 ^ 64 - 1, w)
    else (2 ^ 64 - 1, record w { actions = cancels tid ∷ w.actions })

-- It returns TRUE always; the code is stored where `lpExitCode` is not null and the thread is known.
unfoldable pub get_exit_code_thread : ℕ → Bool → Process → Bool × Option ℕ
get_exit_code_thread handle with_code w =
    let tid = get_thread_tid handle w.table in
    (true, if with_code && not (tid == 0) then some (get_thread_exitcode tid w.table) else none)

unfoldable pub get_current_thread_id : ℕ → ℕ → ℕ → Process → ℕ × Process
get_current_thread_id self random place w =
    let current = find_thread_by_tid self w.table in
    let (handle, t) = reg_thread random place self w.table in
    if current == 0 then (handle, record w { table = t }) else (current, w)

unfoldable pub get_current_thread : ℕ → Process → ℕ
get_current_thread self w = find_thread_by_tid self w.table
