-- ===== src/Sync/Defs.antt =====
-- `CloseHandle` of FSPChecker/Compat/handleapi.cpp, and `CreateEventA`, `SetEvent`, `ResetEvent` and the
-- EVENT case of `WaitForSingleObject` of FSPChecker/Compat/synchapi.cpp. A HANDLE is the key of the
-- handle table. What is done to objects outside the program is a log, newest first.
use learn_docs.Base.{
  ℕ, zero, suc, ◌-◌, ◌^◌, Bool, true, false, not, Option, none, some, List, ◌∷◌, ◌==◌,
  if◌then◌else◌, ℤ, pos, negsuc,
}
use learn_docs.Memory.{Ptr, null}
use learn_docs.Handle.Types.{HandleType}
use learn_docs.Handle.Table.{Table}
use learn_docs.Handle.File.{get_fd, minus_one}
use learn_docs.Handle.Object.{
  get_module_native_handle, get_thread_tid, mutex_get, reg_event, get_event, type_get,
  compat_handle_erase,
}
use learn_docs.Event.Defs.{
  Event, Calls, Wake, Progress, asleep, finished, event_create, event_wait, event_timedwait,
  event_set, event_reset,
}

pub data Action : Type 0 where
  closes_fd : ℕ → Action
  unloads : Ptr → Action
  destroys_mutex : Ptr → Action
  destroys_event : Ptr → Action

-- The handle table, the events by address, and what was released.
pub record Kernel : Type 0 where
  pub table : Table
  pub event_at : Ptr → Event
  pub released : List Action

abbrev pub erased : ℕ → Kernel → Kernel
erased handle k = record k { table = compat_handle_erase handle k.table }

abbrev pub released_if : Bool → Action → ℕ → Kernel → Bool × Kernel
released_if held action handle k =
    if held
    then (true, erased handle (record k { released = action ∷ k.released }))
    else (false, erased handle k)

-- `switch (type)` of `CloseHandle`.
unfoldable pub close_as : HandleType → ℕ → Kernel → Bool × Kernel
close_as HandleType.file h k =
    let fd = get_fd h k.table in released_if (not (fd == minus_one)) (closes_fd fd) h k
close_as HandleType.modul h k =
    let native = get_module_native_handle h k.table in
    released_if (not (native == null)) (unloads native) h k
close_as HandleType.thread h k = (not (get_thread_tid h k.table == 0), erased h k)
close_as HandleType.mutex h k = released_if true (destroys_mutex (mutex_get h k.table)) h k
close_as HandleType.event h k =
    let event = get_event h k.table in released_if (not (event == null)) (destroys_event event) h k
close_as type h k = (false, k)

unfoldable pub close_handle : ℕ → Kernel → Bool × Kernel
close_handle h k = close_as (type_get h k.table) h k

abbrev pub put_event : Ptr → Event → Kernel → Kernel
put_event p e k = record k { event_at = λ q. if q == p then e else k.event_at q }

-- `allocated` is what `new` gives, `mutex_rc` and `cond_rc` what pthread gives.
unfoldable pub create_event_a : Option Ptr → ℕ → ℕ → ℕ → ℕ → Bool → Bool → Kernel → ℕ × Kernel
create_event_a none mutex_rc cond_rc random place manual init k = (null, k)
create_event_a (some p) mutex_rc cond_rc random place manual init k =
    elim (event_create true mutex_rc cond_rc manual init) [
      | none ↦ (null, k)
      | some e ↦
          let (handle, table') = reg_event random place p manual init k.table in
          (handle, put_event p e (record k { table = table' }))
    ]

-- `-1==event_set(event)`
abbrev pub is_failure : ℤ → Bool
is_failure (negsuc zero) = true
is_failure n = false

abbrev pub is_one : ℤ → Bool
is_one (pos (suc zero)) = true
is_one n = false

unfoldable pub set_event : Calls → ℕ → Kernel → Bool × Kernel
set_event c h k =
    let p = get_event h k.table in
    let (ret, e) = event_set c (k.event_at p) in
    if p == null then (false, k) else (not (is_failure ret), put_event p e k)

unfoldable pub reset_event : Calls → ℕ → Kernel → Bool × Kernel
reset_event c h k =
    let p = get_event h k.table in
    let (ret, e) = event_reset c (k.event_at p) in
    if p == null then (false, k) else (not (is_failure ret), put_event p e k)

abbrev pub wait_object_0 : ℕ
wait_object_0 = 0

abbrev pub wait_timeout : ℕ
wait_timeout = 0x102

abbrev pub wait_failed : ℕ
wait_failed = 0xffff_ffff

-- `(DWORD) - 1`, a DWORD being an unsigned long of 64 bits.
abbrev pub infinite : ℕ
infinite = 2 ^ 64 - 1

-- What the EVENT case makes of the wait, unless it sleeps still.
abbrev pub wait_result : Bool → Ptr → Progress → Kernel → Option ℕ × Kernel
wait_result endless p (asleep e) k = (none, put_event p e k)
wait_result endless p (finished ret e) k = (
  some (if (if endless then is_failure ret else is_one ret) then wait_timeout else wait_object_0),
  put_event p e k,
)

-- The EVENT case of `WaitForSingleObject`, with the returns of the waits on the condition.
unfoldable pub wait_event : Calls → List Wake → ℕ → ℕ → Kernel → Option ℕ × Kernel
wait_event c ws h milliseconds k =
    let p = get_event h k.table in
    let endless = milliseconds == infinite in
    let progress =
      if endless then event_wait c ws (k.event_at p) else event_timedwait c ws (k.event_at p) in
    if (h == null)
    then (some wait_failed, k)
    else if p == null
    then (some wait_failed, k)
    else wait_result endless p progress k
