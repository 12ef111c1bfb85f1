-- ===== src/Sync/Critical/Run.antt =====
-- Any calls of the critical sections by any threads: what they do to the section, and who is in.
use learn_docs.Base.{
  ℕ, zero, suc, ◌+◌, ◌-◌, ◌<◌, ◌≡◌, ◌≢◌, refl, ap, sym, subst, ◌∙◌, inl, inr, Option, none, some,
  List, [], ◌∷◌, ◌==◌, if◌then◌else◌, arith, Bool-cases, eq→==, ne→==, negsuc, Bool, true, false,
  ◌&&◌,
}
use learn_docs.Memory.{Ptr}
use learn_docs.Sync.Mutex.{Pthread, Available, Recursive}
use learn_docs.Sync.Critical.{
  Section, Heap, put_at, initialize_critical_section, locked_in, enter_critical_section,
  leave_critical_section,
}

-- What threads do with one section.
pub data Use : Type 0 where
  enters leaves : (thread : ℕ) → Use

-- Whether a call of `EnterCriticalSection` returned, and the heap. One that sleeps leaves the heap;
-- when it wakes it is another call.
abbrev pub outcome : {M : Type 0} → Heap M → Option (Heap M) → Bool × Heap M
outcome h none = (false, h)
outcome h (some h') = (true, h')

-- The outcome of a call before those of the calls that follow.
abbrev pub then_outcomes : {S : Type 0} → Bool → List Bool × S → List Bool × S
then_outcomes b (bs, s) = (b ∷ bs, s)

module _ {M : Type 0} (p : Pthread M) (s : Section) where
  pub use_section : Use → Heap M → Bool × Heap M
  use_section (enters t) h = outcome h (enter_critical_section p t s h)
  use_section (leaves t) h = (true, leave_critical_section p t s h)

  pub run_section : List Use → Heap M → List Bool × Heap M
  run_section [] h = ([], h)
  run_section (u ∷ us) h =
      let (returned, h') = use_section u h in then_outcomes returned (run_section us h')

-- The abstract section: who is in, and how deep; at depth 0 nobody is.
pub record Inside : Type 0 where
  pub owner : ℕ
  pub count : ℕ

abbrev pub inside : ℕ → ℕ → Inside
inside o n = record { owner = o; count = n }

-- A thread may come in where nobody else is; otherwise its call does not return.
pub abstract_use : Use → Inside → Bool × Inside
abstract_use (enters t) i =
    if i.count == 0
    then (true, inside t 1)
    else if t == i.owner
    then (true, inside t (i.count + 1))
    else (false, i)
abstract_use (leaves t) i = (true, if t == i.owner then inside t (i.count - 1) else i)

pub abstract_run : List Use → Inside → List Bool × Inside
abstract_run [] i = ([], i)
abstract_run (u ∷ us) i =
    let (returned, i') = abstract_use u i in then_outcomes returned (abstract_run us i')

-- How often a thread has entered and not left, as it sees it: by its calls that returned.
pub entered : ℕ → List Use → List Bool → ℕ → ℕ
entered t (enters u ∷ us) (returned ∷ bs) n =
    entered t us bs (if returned && (u == t) then n + 1 else n)
entered t (leaves u ∷ us) (returned ∷ bs) n = entered t us bs (if u == t then n - 1 else n)
entered t us bs n = n

abbrev count_of : ℕ → Inside → ℕ
count_of t i = if t == i.owner then i.count else 0

entered_use :
    (t : ℕ) (u : Use) (us : List Use) (bs : List Bool) (i : Inside)
    → entered t (u ∷ us) ((abstract_use u i).0 ∷ bs) (count_of t i)
      ≡ entered t us bs (count_of t (abstract_use u i).1)
unfolding entered abstract_use
entered_use t (enters u) us bs i = ap (λ (n : ℕ). entered t us bs n) (ground arith)
entered_use t (leaves u) us bs i = ap (λ (n : ℕ). entered t us bs n) (ground arith)

-- In the abstract section each thread has entered as often as the section counts for it.
entered-abstract_run :
    (t : ℕ) (us : List Use) (i : Inside)
    → entered t us (abstract_run us i).0 (count_of t i) ≡ count_of t (abstract_run us i).1
unfolding abstract_run entered
entered-abstract_run t [] i = refl
entered-abstract_run t (u ∷ us) i =
    let i' = (abstract_use u i).1 in
    entered_use t u us (abstract_run us i').0 i ∙ entered-abstract_run t us i'

module _ {M : Type 0} (p : Pthread M) (r : Recursive p) (s : Section) where
  -- The mutex shows the abstract section: its owner's depth is the count, all others' is 0.
  pub record Shows (h : Heap M) (i : Inside) : Type 0 where
    pub depth_shown : p.depth i.owner (h.mutex_at s.lock_semaphore) ≡ i.count
    pub others_out : Available p i.owner (h.mutex_at s.lock_semaphore)

  -- A call of the section does what the abstract one does.
  abbrev Matches : Bool × Heap M → Bool × Inside → Type 0
  Matches c a = (c.0 ≡ a.0) × Shows c.1 a.1

  put_at-same : (a : Ptr) (m : M) (h : Heap M) → (put_at a m h).mutex_at a ≡ m
  put_at-same a m h = rw (eq→== a a refl) refl

  put_at-Shows :
      (m : M) (h : Heap M) (o n : ℕ)
      → p.depth o m ≡ n
      → Available p o m
      → Shows (put_at s.lock_semaphore m h) (inside o n)
  put_at-Shows m h o n d a =
      let same = put_at-same s.lock_semaphore m h in
      record {
        depth_shown = ap (λ (x : M). p.depth o x) same ∙ d;
        others_out = subst (λ (x : M). Available p o x) (sym same) a;
      }

  enter-own :
      (t n : ℕ) (h : Heap M)
      → p.depth t (h.mutex_at s.lock_semaphore) ≡ n
      → Available p t (h.mutex_at s.lock_semaphore)
      → Matches (use_section p s (enters t) h) (true, inside t (n + 1))
  unfolding use_section enter_critical_section
  enter-own t n h d free =
      let m = h.mutex_at s.lock_semaphore in
      let (_, deeper, free') = r.try_own t m free in
      subst
        (λ (o : Option (ℕ × M)).
          Matches (outcome h (locked_in s.lock_semaphore h o)) (true, inside t (n + 1)))
        (sym (r.lock_own t m free))
        (refl, put_at-Shows (p.try_lock t m).1 h t (n + 1) (omega (arith, deeper, d)) free')

  enter-sleeps :
      (t u : ℕ) (h : Heap M)
      → u ≢ t
      → 0 < p.depth u (h.mutex_at s.lock_semaphore)
      → use_section p s (enters t) h ≡ (false, h)
  unfolding use_section enter_critical_section
  enter-sleeps t u h n inner =
      ap (λ (o : Option (ℕ × M)). outcome h (locked_in s.lock_semaphore h o))
        (r.lock_other t u (h.mutex_at s.lock_semaphore) n inner)

  leave-free :
      (t o n : ℕ) (h : Heap M)
      → p.depth t (h.mutex_at s.lock_semaphore) ≡ 0
      → p.depth o (h.mutex_at s.lock_semaphore) ≡ n
      → Available p o (h.mutex_at s.lock_semaphore)
      → Matches (use_section p s (leaves t) h) (true, inside o n)
  unfolding use_section leave_critical_section
  leave-free t o n h out d a =
      let m = h.mutex_at s.lock_semaphore in
      (
        refl,
        subst (λ (x : M). Shows (put_at s.lock_semaphore x h) (inside o n))
            (sym (r.unlock_free t m out)) (put_at-Shows m h o n d a),
      )

  leave-own :
      (t n : ℕ) (h : Heap M)
      → p.depth t (h.mutex_at s.lock_semaphore) ≡ n
      → Available p t (h.mutex_at s.lock_semaphore)
      → Matches (use_section p s (leaves t) h) (true, inside t (n - 1))
  unfolding use_section leave_critical_section
  leave-own t zero h d free = leave-free t t 0 h d d free
  leave-own t (suc n) h d free =
      let m = h.mutex_at s.lock_semaphore in
      let (_, less, free') = r.unlock_own t m (omega (arith, d)) free in
      (refl, put_at-Shows (p.unlock t m).1 h t (suc n - 1) (omega (arith, less, d)) free')

  nobody :
      (h : Heap M) (i : Inside)
      → Shows h i
      → i.count ≡ 0
      → (u : ℕ) → p.depth u (h.mutex_at s.lock_semaphore) ≡ 0
  nobody h i v z u = elim (Bool-cases (u == i.owner)) [
    | inl e ↦
        let same : u ≡ i.owner = ground arith in
        ap (λ (x : ℕ). p.depth x (h.mutex_at s.lock_semaphore)) same ∙ v.depth_shown ∙ z
    | inr e ↦ v.others_out u (ground arith)
  ]

  own :
      (h : Heap M) (i : Inside) (t : ℕ)
      → Shows h i
      → i.owner ≡ t
      → (p.depth t (h.mutex_at s.lock_semaphore) ≡ i.count)
        × Available p t (h.mutex_at s.lock_semaphore)
  own h i t v same = (
    subst (λ (x : ℕ). p.depth x (h.mutex_at s.lock_semaphore) ≡ i.count) same v.depth_shown,
    subst (λ (x : ℕ). Available p x (h.mutex_at s.lock_semaphore)) same v.others_out,
  )

  use_section-Matches :
      (u : Use) (h : Heap M) (i : Inside)
      → Shows h i
      → Matches (use_section p s u h) (abstract_use u i)
  unfolding abstract_use
  use_section-Matches (enters t) h i v = elim (Bool-cases (i.count == 0)) [
    | inl e ↦ let out = nobody h i v (ground arith) in rw e (enter-own t 0 h (out t) (λ u n. out u))
    | inr e ↦ elim (Bool-cases (t == i.owner)) [
      | inl f ↦
          let same : i.owner ≡ t = ground arith in
          let (d, free) = own h i t v same in rw (e, f) (enter-own t i.count h d free)
      | inr f ↦
          let other : i.owner ≢ t = ground arith in
          let asleep = enter-sleeps t i.owner h other (ground (arith, v.depth_shown)) in
          rw (e, f) (subst (λ (c : Bool × Heap M). Matches c (false, i)) (sym asleep) (refl, v))
    ]
  ]
  use_section-Matches (leaves t) h i v = elim (Bool-cases (t == i.owner)) [
    | inl f ↦
        let same : i.owner ≡ t = ground arith in
        let (d, free) = own h i t v same in rw f (leave-own t i.count h d free)
    | inr f ↦
        let other : t ≢ i.owner = ground arith in
        rw f (leave-free t i.owner i.count h (v.others_out t other) v.depth_shown v.others_out)
  ]

  -- With pthread mutexes that are recursive as POSIX says, in every sequence of calls of
  -- `EnterCriticalSection` and `LeaveCriticalSection` by any threads, the calls that return are
  -- those that return of the abstract section, an owner and a count: a thread enters where
  -- nobody else is in and counts one more, sleeps without an effect where another is, leaves by
  -- counting one less, and has no effect by leaving where it is not in. Afterwards the mutex has
  -- the depth of the count for the owner and 0 for all others.
  pub run_section-Shows :
      (us : List Use) (h : Heap M) (i : Inside)
      → Shows h i
      → ((run_section p s us h).0 ≡ (abstract_run us i).0)
        × Shows (run_section p s us h).1 (abstract_run us i).1
  unfolding run_section abstract_run
  run_section-Shows [] h i v = (refl, v)
  run_section-Shows (u ∷ us) h i v =
      let (returned, shown) = use_section-Matches u h i v in
      let (same, shown') =
        run_section-Shows us (use_section p s u h).1 (abstract_use u i).1 shown in
      (cc (returned, same), shown')

module _ {M : Type 0} (p : Pthread M) (r : Recursive p) (mtx attr : Ptr) (m : M) (s : Section)
    (h : Heap M) where
  abbrev section' : Section
  section' = record s { lock_semaphore = mtx; spin_count = attr; lock_count = negsuc 0 }

  initialized-Shows :
      ((t : ℕ) → p.depth t m ≡ 0)
      → let (s', h') = initialize_critical_section mtx attr m s h in Shows p r s' h' (inside 0 0)
  unfolding initialize_critical_section
  initialized-Shows new = put_at-Shows p r section' m h 0 0 (new 0) (λ u n. new u)

  -- With pthread mutexes that are recursive as POSIX says and a new mutex that no thread has,
  -- after `InitializeCriticalSection`, in every sequence of calls of `EnterCriticalSection` and
  -- `LeaveCriticalSection` by any threads, there is one thread besides which none is in, where a
  -- thread is in as often as its calls of `EnterCriticalSection` returned, less one but not
  -- below 0 at each of its calls of `LeaveCriticalSection`; and that one thread is in as often
  -- as the mutex is locked by it.
  pub run_section-exclusive :
      ((t : ℕ) → p.depth t m ≡ 0)
      → (us : List Use)
      → let (s', h') = initialize_critical_section mtx attr m s h in
        let (returned, h'') = run_section p s' us h' in
        (only : ℕ) × ((u : ℕ) → u ≢ only → entered u us returned 0 ≡ 0)
        × (entered only us returned 0 ≡ p.depth only (h''.mutex_at s'.lock_semaphore))
  run_section-exclusive new us =
      let (s', h') = initialize_critical_section mtx attr m s h in
      let none_in = inside 0 0 in
      let (_, i) = abstract_run us none_in in
      let (same, v) = run_section-Shows p r s' us h' none_in (initialized-Shows new) in
      (
        i.owner,
        λ u n. counted u us (run_section p s' us h').0 same ∙ rw (ne→== u i.owner n) refl,
        counted i.owner us (run_section p s' us h').0 same
            ∙ rw (eq→== i.owner i.owner refl) (sym v.depth_shown),
      )
    where
      start : (t : ℕ) → count_of t (inside 0 0) ≡ 0
      start t = ground arith

      counted :
          (t : ℕ) (us : List Use) (bs : List Bool)
          → bs ≡ (abstract_run us (inside 0 0)).0
          → entered t us bs 0 ≡ count_of t (abstract_run us (inside 0 0)).1
      counted t us bs e =
          ap (λ (x : List Bool). entered t us x 0) e
          ∙ ap (λ (n : ℕ). entered t us (abstract_run us (inside 0 0)).0 n) (sym (start t))
          ∙ entered-abstract_run t us (inside 0 0)
