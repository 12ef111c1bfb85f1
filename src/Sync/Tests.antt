-- ===== src/Sync/Tests.antt =====
-- The theorems at a concrete kernel.
use learn_docs.Base.{
  ℕ, ◌+◌, ◌-◌, ◌≡◌, ◌∷◌, [], Bool, true, false, ◌&&◌, ◌||◌, none, some, refl, arith, ltb, List, pos,
  ◌≢◌, ◌==◌, if◌then◌else◌, Bool-cases, inl, inr,
}
use learn_docs.Handle.Object.{fill_mutex, mutex_get}
use learn_docs.Handle.Types.{zero_header}
use learn_docs.Handle.Ctx.{get_le, put_le}
use learn_docs.Memory.{Ptr}
use learn_docs.Sync.Mutex.{
  Pthread, Available, Recursive, Mutexes, release_mutex, release_mutex-depth, release_mutex-other,
}
use learn_docs.Handle.Table.{find, has, insert, update}
use learn_docs.Handle.Keys.{new_key_get, probe}
use learn_docs.Handle.Object.{reg_event, mutex_find_by_name, find_first}
use learn_docs.Event.Defs.{event, event_create, succeeding}
use learn_docs.Sync.Defs.{
  Kernel, destroys_event, destroys_mutex, create_event_a, close_handle, set_event, wait_object_0,
  infinite,
}
use learn_docs.Sync.Close.{close_handle-again, create_event_a-close_handle}
use learn_docs.Sync.Signal.{set_event-wait_for_single_object}
use learn_docs.Sync.Wait.{
  Objects, mutexes, wait_for_single_object, wait_for_single_object-release_mutex,
}
use learn_docs.Handle.Object.{type_get}
use learn_docs.Sync.Create.{Fresh, open_or_create, create_mutex_a, take_if}
use learn_docs.Sync.Names.{IsKeyed, names, mutex_of, with_name, open_or_create-with_name}
use learn_docs.Sync.Shared.{
  open_all, create_mutex_a-again, create_mutex_a-release_mutex, close_handle-shared,
}
use learn_docs.Sync.Critical.{Section, Heap, initialize_critical_section}
use learn_docs.Sync.Critical.Run.{
  Use, enters, leaves, inside, Shows, run_section, abstract_run, entered, run_section-Shows,
  run_section-exclusive,
}

abbrev fresh : Kernel
fresh = record { table = []; event_at = λ p. event false false false; released = [] }

-- One automatic event at address 64.
abbrev one_event : Kernel
one_event = (create_event_a (some 64) 0 0 7 0 false false fresh).1

close_handle-again_example :
    close_handle 7 (close_handle 7 one_event).1 ≡ (false, (close_handle 7 one_event).1)
unfolding create_event_a event_create reg_event new_key_get probe has insert update
close_handle-again_example = close_handle-again 7 one_event (refl, tt)

create_event_a-close_handle_example :
    let (handle, k₁) = create_event_a (some 64) 0 0 7 0 false false fresh in
    let (closed, k₂) = close_handle handle k₁ in
    (closed ≡ true)
    × (k₂.released ≡ destroys_event 64 ∷ [])
    × ((j : ℕ) → find j k₂.table ≡ find j [])
create_event_a-close_handle_example =
    create_event_a-close_handle 64 7 0 false false fresh (omega arith) (omega arith) tt

-- A mutex as its owner and how often it is locked.
abbrev Counted : Type 0
Counted = ℕ × ℕ

abbrev free_for : ℕ → Counted → Bool
free_for t m = (m.0 == t) || (m.1 == 0)

abbrev counted : Pthread Counted
counted = record {
  lock = λ t m. if free_for t m then some (0, (t, m.1 + 1)) else none;
  try_lock = λ t m. if free_for t m then (0, (t, m.1 + 1)) else (16, m);
  timed_lock = λ t m. if free_for t m then (0, (t, m.1 + 1)) else (110, m);
  unlock = λ t m. if (m.0 == t) && ltb 0 m.1 then (0, (t, m.1 - 1)) else (1, m);
  depth = λ t m. if m.0 == t then m.1 else 0;
}

free_lem : (t : ℕ) (m : Counted) → Available counted t m → free_for t m ≡ true
free_lem t m a = elim (Bool-cases (m.0 == t)) [
  | inl e ↦ rw e refl
  | inr e ↦ let none_held = a m.0 (ground arith) in ground (arith, none_held)
]

owned : (t n : ℕ) → Available counted t (t, n)
owned t n u h = ground arith

counted-Recursive : Recursive counted
counted-Recursive = record {
  try_own = λ t m a. rw (free_lem t m a) (refl, ground (arith, free_lem t m a), owned t (m.1 + 1));
  lock_own = λ t m a. rw (free_lem t m a) refl;
  timed_own = λ t m a. rw (free_lem t m a) refl;
  try_other =
      λ t u m h l. let busy : free_for t m ≡ false = ground arith in rw busy (omega arith, refl);
  lock_other = λ t u m h l. let busy : free_for t m ≡ false = ground arith in rw busy refl;
  unlock_own = λ t m l a.
      let own : ((m.0 == t) && ltb 0 m.1) ≡ true = ground arith in
      rw own (refl, ground arith, owned t (m.1 - 1));
  unlock_free =
      λ t m z. let not_own : ((m.0 == t) && ltb 0 m.1) ≡ false = ground arith in rw not_own refl;
}

-- The mutex at address 64 under the handle 7; thread 1 has it twice.
abbrev one_mutex : Mutexes Counted
one_mutex = record { table = (7, fill_mutex 7 64 128 [] zero_header) ∷ []; mutex_at = λ a. (1, 2) }

release_mutex-depth_example :
    let (released, k') = release_mutex counted 1 7 one_mutex in
    (released ≡ true) × (counted.depth 1 (k'.mutex_at 64) ≡ 1)
unfolding mutex_get find get_le put_le
release_mutex-depth_example =
    release_mutex-depth counted counted-Recursive 1 7 one_mutex (omega arith) (omega arith)
      (λ u h. ground arith)

-- With the events beside it.
abbrev objects : Objects Counted
objects = record {
  kernel = record fresh { table = one_mutex.table };
  mutex_at = one_mutex.mutex_at;
}

wait_for_single_object-release_mutex_example :
    let (result, o₁) = wait_for_single_object counted succeeding [] 1 7 infinite objects in
    let (released, k₂) = release_mutex counted 1 7 (mutexes o₁) in
    (result ≡ some wait_object_0)
    × (o₁.kernel ≡ objects.kernel)
    × (counted.depth 1 (o₁.mutex_at 64) ≡ 3)
    × (released ≡ true)
    × (counted.depth 1 (k₂.mutex_at 64) ≡ 2)
unfolding mutex_get type_get find get_le put_le
wait_for_single_object-release_mutex_example =
    wait_for_single_object-release_mutex counted counted-Recursive succeeding [] 1 7 infinite
      objects (omega arith) refl (omega arith) (λ u h. ground arith)

set_event-wait_for_single_object_example :
    let (handle, k₁) = create_event_a (some 64) 0 0 7 0 false false fresh in
    let (set, k₂) = set_event succeeding handle k₁ in
    let o : Objects Counted = record { kernel = k₂; mutex_at = one_mutex.mutex_at } in
    let (result, o') = wait_for_single_object counted succeeding [] 1 handle infinite o in
    (set ≡ true)
    × (result ≡ some wait_object_0)
    × (o'.mutex_at ≡ one_mutex.mutex_at)
    × (o'.kernel.event_at 64 ≡ event false false false)
set_event-wait_for_single_object_example =
    set_event-wait_for_single_object counted one_mutex.mutex_at 64 7 0 1 infinite false false fresh
      (omega arith) (omega arith) (omega arith)

release_mutex-other_example :
    let (released, k') = release_mutex counted 2 7 one_mutex in
    (released ≡ false) × ((b : Ptr) → k'.mutex_at b ≡ one_mutex.mutex_at b)
release_mutex-other_example =
    release_mutex-other counted counted-Recursive 2 1 7 one_mutex (omega arith) (omega arith)

-- A mutex that nobody has, at address 64 under the name 'a'.
abbrev fresh_mutex : Fresh Counted
fresh_mutex = record {
  mutex = 64;
  attr = 128;
  init_rc = 0;
  initial = (0, 0);
  random = 7;
  place = 0;
}

abbrev letter : List ℕ
letter = 97 ∷ []

abbrev no_mutexes : Mutexes Counted
no_mutexes = record { table = []; mutex_at = λ a. (0, 0) }

empty-IsKeyed : IsKeyed []
unfolding has
empty-IsKeyed = record { distinct = tt; no_null = refl }

open_or_create-with_name_example :
    let (handle, k') = open_or_create fresh_mutex (some letter) no_mutexes in
    (handle ≢ 0)
    × (mutex_of handle k'.table ≡ names k'.table letter)
    × ((other : List ℕ) → names k'.table other ≡ with_name letter 64 (names []) other)
    × IsKeyed k'.table
open_or_create-with_name_example =
    open_or_create-with_name fresh_mutex letter no_mutexes empty-IsKeyed (omega arith) (omega arith)
      (omega arith) (omega arith, tt) (omega arith) refl

-- Thread 2 opens what thread 1 created.
create_mutex_a-again_example :
    let (handle, k') = open_or_create fresh_mutex (some letter) no_mutexes in
    create_mutex_a counted 2 fresh_mutex true (some letter) k'
    ≡ (handle, take_if counted 2 true handle k')
create_mutex_a-again_example =
    create_mutex_a-again fresh_mutex letter no_mutexes empty-IsKeyed (omega arith) (omega arith)
      (omega arith) (omega arith, tt) (omega arith) refl counted 2 fresh_mutex true

create_mutex_a-release_mutex_example :
    let (h, ok') = create_mutex_a counted 1 fresh_mutex true (some letter) no_mutexes in
    (k₁ : Mutexes Counted) × (ok' ≡ some k₁)
    × (counted.depth 1 (k₁.mutex_at 64) ≡ 1)
    × ((release_mutex counted 1 h k₁).0 ≡ true)
    × (counted.depth 1 ((release_mutex counted 1 h k₁).1.mutex_at 64) ≡ 0)
unfolding mutex_find_by_name find_first
create_mutex_a-release_mutex_example =
    create_mutex_a-release_mutex fresh_mutex letter no_mutexes empty-IsKeyed (omega arith)
      (omega arith) (omega arith) (omega arith, tt) (omega arith) refl refl counted
      counted-Recursive 1 (omega arith) (λ u n. ground arith) refl

-- Two more threads open it, and it is closed once.
abbrev others : List (Fresh Counted)
others = fresh_mutex ∷ fresh_mutex ∷ []

abbrev opened_thrice : Mutexes Counted
opened_thrice = (open_all others letter (open_or_create fresh_mutex (some letter) no_mutexes).1).1

close_handle-shared_example :
    let (first, k₁) = open_or_create fresh_mutex (some letter) no_mutexes in
    let (handles, k₂) = open_all others letter k₁ in
    let (closed, kernel') = close_handle first (record fresh { table = k₂.table }) in
    let k₃ : Mutexes Counted = record k₂ { table = kernel'.table } in
    (handles ≡ first ∷ first ∷ [])
    × (closed ≡ true)
    × (kernel'.released ≡ destroys_mutex 64 ∷ [])
    × (release_mutex counted 2 first k₃ ≡ (false, k₃))
unfolding mutex_find_by_name find_first
close_handle-shared_example =
    close_handle-shared fresh_mutex letter no_mutexes empty-IsKeyed (omega arith) (omega arith)
      (omega arith) (omega arith, tt) (omega arith) refl refl others counted 2
      (record fresh { table = opened_thrice.table }) refl

-- Thread 1 enters twice, thread 2 has to wait, and thread 1 leaves once.
abbrev uses : List Use
uses = enters 1 ∷ enters 1 ∷ enters 2 ∷ leaves 1 ∷ []

abbrev section : Section
section = record {
  lock_count = pos 0;
  recursion_count = pos 0;
  owning_thread = 0;
  lock_semaphore = 64;
  spin_count = 128;
}

abbrev heap : Heap Counted
heap = record { mutex_at = λ a. (0, 0); freed = [] }

run_section-Shows_example :
    ((run_section counted section uses heap).0 ≡ (abstract_run uses (inside 0 0)).0)
    × Shows counted counted-Recursive section
        (run_section counted section uses heap).1
        (abstract_run uses (inside 0 0)).1
run_section-Shows_example =
    run_section-Shows counted counted-Recursive section uses heap (inside 0 0)
      (record { depth_shown = refl; others_out = λ u n. ground arith })

run_section-exclusive_example :
    let (s', h') = initialize_critical_section 64 128 (0, 0) section heap in
    let (returned, h'') = run_section counted s' uses h' in
    (only : ℕ) × ((u : ℕ) → u ≢ only → entered u uses returned 0 ≡ 0)
    × (entered only uses returned 0 ≡ counted.depth only (h''.mutex_at s'.lock_semaphore))
run_section-exclusive_example =
    run_section-exclusive counted counted-Recursive 64 128 (0, 0) section heap (λ t. ground arith)
      uses
