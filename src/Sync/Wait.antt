-- ===== src/Sync/Wait.antt =====
-- The whole of `WaitForSingleObject` of FSPChecker/Compat/synchapi.cpp, over all objects.
use learn_docs.Base.{
  ℕ, ◌+◌, ◌≡◌, ◌≢◌, refl, ap, ◌∙◌, Option, some, List, ◌==◌, if◌then◌else◌, true, ne→==, sym,
  Bool-cases, Option-cases, inl, inr,
}
use learn_docs.Memory.{Ptr, null}
use learn_docs.Handle.Types.{HandleType}
use learn_docs.Handle.Object.{type_get, mutex_get}
use learn_docs.Event.Defs.{Calls, Wake}
use learn_docs.Sync.Defs.{Kernel, wait_event, wait_object_0, wait_failed, infinite}
use learn_docs.Sync.Mutex.{
  Pthread, Available, Recursive, Mutexes, wait_mutex, release_mutex, wait_mutex-release_mutex,
}

-- The kernel with its events, and the mutexes.
pub record Objects (M : Type 0) : Type 0 where
  pub kernel : Kernel
  pub mutex_at : Ptr → M

module _ {M : Type 0} where
  abbrev pub mutexes : Objects M → Mutexes M
  mutexes o = record { table = o.kernel.table; mutex_at = o.mutex_at }

  -- The `switch`.
  unfoldable pub wait_as :
      Pthread M → Calls → List Wake → HandleType → ℕ → ℕ → ℕ → Objects M → Option ℕ × Objects M
  wait_as p c ws HandleType.mutex t h milliseconds o =
      let (result, k) = wait_mutex p t h milliseconds (mutexes o) in
      (result, record o { mutex_at = k.mutex_at })
  wait_as p c ws HandleType.event t h milliseconds o =
      let (result, k) = wait_event c ws h milliseconds o.kernel in (result, record o { kernel = k })
  wait_as p c ws type t h milliseconds o = (some wait_failed, o)

  -- By the thread `t`; no code is returned while it sleeps.
  unfoldable pub wait_for_single_object :
      Pthread M → Calls → List Wake → ℕ → ℕ → ℕ → Objects M → Option ℕ × Objects M
  wait_for_single_object p c ws t h milliseconds o =
      if h == null
      then (some wait_failed, o)
      else wait_as p c ws (type_get h o.kernel.table) t h milliseconds o

wait_mutex-table :
    {M : Type 0} (p : Pthread M) (t h milliseconds : ℕ) (k : Mutexes M)
    → (wait_mutex p t h milliseconds k).1
      ≡ record k { mutex_at = (wait_mutex p t h milliseconds k).1.mutex_at }
unfolding wait_mutex
wait_mutex-table p t h ms k = elim (Bool-cases (ms == infinite)) [
  | inl e ↦ elim (Option-cases (p.lock t (k.mutex_at (mutex_get h k.table)))) [
    | inl f ↦ rw (e, f) refl
    | inr (x, f) ↦ rw (e, f) refl
  ]
  | inr e ↦ rw e refl
]

module _ {M : Type 0} (p : Pthread M) (r : Recursive p) (c : Calls) (ws : List Wake) where
  -- With pthread mutexes that are recursive as POSIX says, for a handle of the type MUTEX that
  -- is not NULL, of a mutex that is not null and that no other thread has: `WaitForSingleObject`
  -- of any time out returns WAIT_OBJECT_0 with the depth of the thread one more and the events
  -- as they were, and `ReleaseMutex` after it returns TRUE and gives the depth back.
  pub wait_for_single_object-release_mutex :
      (t h milliseconds : ℕ) (o : Objects M)
      → let a = mutex_get h o.kernel.table in
        h ≢ null
        → type_get h o.kernel.table ≡ HandleType.mutex
        → a ≢ null
        → Available p t (o.mutex_at a)
        → let (result, o₁) = wait_for_single_object p c ws t h milliseconds o in
          let (released, k₂) = release_mutex p t h (mutexes o₁) in
          (result ≡ some wait_object_0)
          × (o₁.kernel ≡ o.kernel)
          × (p.depth t (o₁.mutex_at a) ≡ p.depth t (o.mutex_at a) + 1)
          × (released ≡ true)
          × (p.depth t (k₂.mutex_at a) ≡ p.depth t (o.mutex_at a))
  unfolding wait_for_single_object wait_as
  wait_for_single_object-release_mutex t h ms o n is_mutex z free =
      let (waits, deeper, releases, back) =
        wait_mutex-release_mutex p r t h ms (mutexes o) n z free in
      rw (ne→== h null n, is_mutex)
        (
          waits,
          refl,
          deeper,
          ap (λ (k : Mutexes M). (release_mutex p t h k).0)
                (sym (wait_mutex-table p t h ms (mutexes o)))
              ∙ releases,
          ap
                (λ (k : Mutexes M).
                  p.depth t ((release_mutex p t h k).1.mutex_at (mutex_get h o.kernel.table)))
                (sym (wait_mutex-table p t h ms (mutexes o)))
              ∙ back,
        )
