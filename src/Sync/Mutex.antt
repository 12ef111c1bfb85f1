-- ===== src/Sync/Mutex.antt =====
-- Mutex handles: `CreateMutexA`, `ReleaseMutex` and the MUTEX case of `WaitForSingleObject` of
-- FSPChecker/Compat/synchapi.cpp. The pthread mutexes are a parameter: their calls, and what POSIX says of a
-- recursive mutex.
use learn_docs.Base.{
  ℕ, ◌+◌, ◌-◌, ◌<◌, ◌≡◌, ◌≢◌, inl, inr, Bool, true, false, Option, none, some, ◌==◌, if◌then◌else◌,
  refl, arith, ne→==, eq→==, Bool-cases, ap, sym, ◌∙◌, subst,
}
use learn_docs.Memory.{Ptr, null}
use learn_docs.Handle.Table.{Table}
use learn_docs.Sync.Defs.{infinite, wait_object_0, wait_timeout}
use learn_docs.Handle.Object.{mutex_get}

-- The calls on a mutex, with the calling thread: a return code and the mutex, or nothing while the
-- call sleeps. `depth` is how often a thread has locked it.
pub record Pthread (M : Type 0) : Type 0 where
  pub lock : ℕ → M → Option (ℕ × M)
  pub try_lock : ℕ → M → ℕ × M
  pub timed_lock : ℕ → M → ℕ × M
  pub unlock : ℕ → M → ℕ × M
  pub depth : ℕ → M → ℕ

-- A mutex that `t` may lock: no other thread has it.
abbrev pub Available : {M : Type 0} → Pthread M → ℕ → M → Type 0
Available p t m = (u : ℕ) → u ≢ t → p.depth u m ≡ 0

-- What POSIX says of a recursive mutex.
pub record Recursive {M : Type 0} (p : Pthread M) : Type 0 where
  pub try_own :
      (t : ℕ) (m : M)
      → Available p t m
      → ((p.try_lock t m).0 ≡ 0)
        × (p.depth t (p.try_lock t m).1 ≡ p.depth t m + 1)
        × Available p t (p.try_lock t m).1
  pub lock_own : (t : ℕ) (m : M) → Available p t m → p.lock t m ≡ some (p.try_lock t m)
  pub timed_own : (t : ℕ) (m : M) → Available p t m → p.timed_lock t m ≡ p.try_lock t m
  pub try_other :
      (t u : ℕ) (m : M)
      → u ≢ t
      → 0 < p.depth u m
      → ((p.try_lock t m).0 ≢ 0) × ((p.try_lock t m).1 ≡ m)
  pub lock_other : (t u : ℕ) (m : M) → u ≢ t → 0 < p.depth u m → p.lock t m ≡ none
  pub unlock_own :
      (t : ℕ) (m : M)
      → 0 < p.depth t m
      → Available p t m
      → ((p.unlock t m).0 ≡ 0)
        × (p.depth t (p.unlock t m).1 ≡ p.depth t m - 1)
        × Available p t (p.unlock t m).1
  pub unlock_free : (t : ℕ) (m : M) → p.depth t m ≡ 0 → (p.unlock t m).1 ≡ m

-- The handle table and the mutexes by address.
pub record Mutexes (M : Type 0) : Type 0 where
  pub table : Table
  pub mutex_at : Ptr → M

abbrev pub put_mutex : {M : Type 0} → Ptr → M → Mutexes M → Mutexes M
put_mutex a m k = record k { mutex_at = λ b. if b == a then m else k.mutex_at b }

unfoldable pub release_mutex : {M : Type 0} → Pthread M → ℕ → ℕ → Mutexes M → Bool × Mutexes M
release_mutex p t h k =
    let a = mutex_get h k.table in
    let (rc, m) = p.try_lock t (k.mutex_at a) in
    let m' = (p.unlock t (p.unlock t m).1).1 in
    if h == null
    then (false, k)
    else if a == null
    then (false, k)
    else if rc == 0
    then (true, put_mutex a m' k)
    else (false, put_mutex a m k)

-- The MUTEX case of `WaitForSingleObject`, for a handle that is not NULL.
unfoldable pub wait_mutex : {M : Type 0} → Pthread M → ℕ → ℕ → ℕ → Mutexes M → Option ℕ × Mutexes M
wait_mutex p t h milliseconds k =
    let a = mutex_get h k.table in
    if milliseconds == infinite
    then elim (p.lock t (k.mutex_at a)) [
      | none ↦ (none, k)
      | some (rc, m) ↦ (some (if rc == 0 then wait_object_0 else wait_timeout), put_mutex a m k)
    ]
    else (let (rc, m) = p.timed_lock t (k.mutex_at a) in
        (some (if rc == 0 then wait_object_0 else wait_timeout), put_mutex a m k))

module _ {M : Type 0} (p : Pthread M) (r : Recursive p) where
  pub put_mutex-same : (a : Ptr) (m : M) (k : Mutexes M) → (put_mutex a m k).mutex_at a ≡ m
  put_mutex-same a m k = rw (eq→== a a refl) refl

  -- Two unlocks after a successful trylock.
  pub unlocked :
      (t : ℕ) (m : M)
      → Available p t m
      → let m' = (p.unlock t (p.unlock t (p.try_lock t m).1).1).1 in p.depth t m' ≡ p.depth t m - 1
  unlocked t m free =
      let (_, deeper, free') = r.try_own t m free in
      let (_, back, free'') = r.unlock_own t (p.try_lock t m).1 (omega (arith, deeper)) free' in
      let once = (p.unlock t (p.try_lock t m).1).1 in
      let same : p.depth t once ≡ p.depth t m = omega (arith, deeper, back) in
      elim (Bool-cases (p.depth t m == 0)) [
        | inl z ↦
            let none_left : p.depth t once ≡ 0 = ground (arith, same) in
            ap (λ (x : M). p.depth t x) (r.unlock_free t once none_left) ∙ ground (arith, same)
        | inr z ↦
            let (_, less, _) = r.unlock_own t once (ground (arith, same)) free'' in
            omega (arith, less, same)
      ]

  -- With pthread mutexes that are recursive as POSIX says, for a handle that is not NULL of a
  -- mutex that is not null and that no other thread has, `ReleaseMutex` returns TRUE and makes
  -- the depth of the thread one less, where it is above 0; it returns TRUE as well where the
  -- thread does not have the mutex.
  pub release_mutex-depth :
      (t h : ℕ) (k : Mutexes M)
      → let a = mutex_get h k.table in
        h ≢ null
        → a ≢ null
        → Available p t (k.mutex_at a)
        → let (released, k') = release_mutex p t h k in
          (released ≡ true) × (p.depth t (k'.mutex_at a) ≡ p.depth t (k.mutex_at a) - 1)
  unfolding release_mutex
  release_mutex-depth t h k n z free =
      let a = mutex_get h k.table in
      let (got, _, _) = r.try_own t (k.mutex_at a) free in
      rw (ne→== h null n, ne→== a null z, got)
        (refl, ap (λ (x : M). p.depth t x) (put_mutex-same a _ k) ∙ unlocked t (k.mutex_at a) free)

  wait_mutex_lem :
      (t h milliseconds : ℕ) (k : Mutexes M)
      → let a = mutex_get h k.table in
        Available p t (k.mutex_at a)
        → wait_mutex p t h milliseconds k
          ≡ (some wait_object_0, put_mutex a (p.try_lock t (k.mutex_at a)).1 k)
  unfolding wait_mutex
  wait_mutex_lem t h ms k free =
      let a = mutex_get h k.table in
      let (got, _, _) = r.try_own t (k.mutex_at a) free in
      elim (Bool-cases (ms == infinite)) [
        | inl i ↦ rw (i, r.lock_own t (k.mutex_at a) free, got) refl
        | inr i ↦ rw (i, r.timed_own t (k.mutex_at a) free, got) refl
      ]

  -- With pthread mutexes that are recursive as POSIX says, for a handle that is not NULL of a
  -- mutex that is not null and that no other thread has: `WaitForSingleObject` of any time out
  -- returns WAIT_OBJECT_0 with the thread's depth one more, and `ReleaseMutex` after it returns
  -- TRUE and gives the depth back.
  pub wait_mutex-release_mutex :
      (t h milliseconds : ℕ) (k : Mutexes M)
      → let a = mutex_get h k.table in
        h ≢ null
        → a ≢ null
        → Available p t (k.mutex_at a)
        → let (result, k₁) = wait_mutex p t h milliseconds k in
          let (released, k₂) = release_mutex p t h k₁ in
          (result ≡ some wait_object_0)
          × (p.depth t (k₁.mutex_at a) ≡ p.depth t (k.mutex_at a) + 1)
          × (released ≡ true)
          × (p.depth t (k₂.mutex_at a) ≡ p.depth t (k.mutex_at a))
  wait_mutex-release_mutex t h ms k n z free =
      let a = mutex_get h k.table in
      let (_, deeper, free') = r.try_own t (k.mutex_at a) free in
      let m = (p.try_lock t (k.mutex_at a)).1 in
      let k₁ = put_mutex a m k in
      let same = put_mutex-same a m k in
      let waits = wait_mutex_lem t h ms k free in
      let held : Available p t (k₁.mutex_at a) =
        subst (λ (x : M). Available p t x) (sym same) free' in
      let (releases, back) = release_mutex-depth t h k₁ n z held in
      let locked : p.depth t (k₁.mutex_at a) ≡ p.depth t (k.mutex_at a) + 1 =
        ap (λ (x : M). p.depth t x) same ∙ deeper in
      (
        ap (λ (x : Option ℕ × Mutexes M). x.0) waits,
        ap (λ (x : Option ℕ × Mutexes M). p.depth t (x.1.mutex_at a)) waits ∙ locked,
        ap (λ (x : Option ℕ × Mutexes M). (release_mutex p t h x.1).0) waits ∙ releases,
        ap (λ (x : Option ℕ × Mutexes M). p.depth t ((release_mutex p t h x.1).1.mutex_at a)) waits
            ∙ omega (arith, back, locked),
      )

  -- With pthread mutexes that are recursive as POSIX says, while another thread has the mutex of
  -- a handle, `ReleaseMutex` returns FALSE and every mutex is as before.
  pub release_mutex-other :
      (t u h : ℕ) (k : Mutexes M)
      → u ≢ t
      → 0 < p.depth u (k.mutex_at (mutex_get h k.table))
      → let (released, k') = release_mutex p t h k in
        (released ≡ false) × ((b : Ptr) → k'.mutex_at b ≡ k.mutex_at b)
  unfolding release_mutex
  release_mutex-other t u h k n l =
      let a = mutex_get h k.table in
      let (busy, kept) = r.try_other t u (k.mutex_at a) n l in
      elim (Bool-cases (h == null)) [
        | inl e ↦ rw e (refl, λ b. refl)
        | inr e ↦ elim (Bool-cases (a == null)) [
          | inl f ↦ rw (e, f) (refl, λ b. refl)
          | inr f ↦ rw (e, f, ne→== _ 0 busy, kept) (refl, λ b. unchanged a k b)
        ]
      ]
    where
      unchanged :
          (a : Ptr) (k : Mutexes M) (b : Ptr)
          → (if b == a then k.mutex_at a else k.mutex_at b) ≡ k.mutex_at b
      unchanged a k b = elim (Bool-cases (b == a)) [
        | inl e ↦ let same : a ≡ b = ground arith in rw e (ap k.mutex_at same)
        | inr e ↦ rw e refl
      ]
