-- ===== src/Sync/Critical.antt =====
-- Critical sections: `InitializeCriticalSection`, `EnterCriticalSection`, `LeaveCriticalSection` and
-- `DeleteCriticalSection` of FSPChecker/Compat/synchapi.cpp, which keep a recursive pthread mutex in
-- `LockSemaphore`.
pub mod Run
use learn_docs.Base.{
  ℕ, zero, suc, ◌+◌, ◌-◌, ◌<◌, ◌≡◌, ◌≢◌, refl, ap, sym, subst, ◌∙◌, inl, inr, Option, none, some,
  List, [], ◌∷◌, ◌==◌, if◌then◌else◌, arith, Bool-cases, eq→==, ℤ, negsuc,
}
use learn_docs.Memory.{Ptr, null}
use learn_docs.Sync.Mutex.{Pthread, Available, Recursive}

-- `RTL_CRITICAL_SECTION` of minwinbase.h, its debug pointer left out.
pub record Section : Type 0 where
  pub lock_count : ℤ
  pub recursion_count : ℤ
  pub owning_thread : Ptr
  pub lock_semaphore : Ptr
  pub spin_count : ℕ

-- The mutexes by address, and the addresses that were given back, newest first.
pub record Heap (M : Type 0) : Type 0 where
  pub mutex_at : Ptr → M
  pub freed : List Ptr

abbrev pub put_at : {M : Type 0} → Ptr → M → Heap M → Heap M
put_at a m h = record h { mutex_at = λ b. if b == a then m else h.mutex_at b }

module _ {M : Type 0} where
  -- `mtx` and `attr` are what `new` gives, `m` the mutex that `pthread_mutex_init` makes.
  unfoldable pub initialize_critical_section : Ptr → Ptr → M → Section → Heap M → Section × Heap M
  initialize_critical_section mtx attr m s h =
      (record s { lock_semaphore = mtx; spin_count = attr; lock_count = negsuc 0 }, put_at mtx m h)

  unfoldable pub delete_critical_section : Section → Heap M → Section × Heap M
  delete_critical_section s h = (
    record s { lock_semaphore = null; lock_count = negsuc 0 },
    record h { freed = s.spin_count ∷ s.lock_semaphore ∷ h.freed },
  )

  abbrev pub locked_in : Ptr → Heap M → Option (ℕ × M) → Option (Heap M)
  locked_in a h none = none
  locked_in a h (some (rc, m)) = some (put_at a m h)

  -- `none` while the thread sleeps.
  unfoldable pub enter_critical_section : Pthread M → ℕ → Section → Heap M → Option (Heap M)
  enter_critical_section p t s h =
      locked_in s.lock_semaphore h (p.lock t (h.mutex_at s.lock_semaphore))

  unfoldable pub leave_critical_section : Pthread M → ℕ → Section → Heap M → Heap M
  leave_critical_section p t s h =
      put_at s.lock_semaphore (p.unlock t (h.mutex_at s.lock_semaphore)).1 h
