-- ===== src/Sync/Shared.antt =====
-- A mutex that is created, opened again by its name, released and closed.
use learn_docs.Base.{
  ℕ, ◌-◌, ◌≡◌, ◌≢◌, ◌<◌, refl, ap, sym, subst, ◌∙◌, inl, inr, Bool, true, false, some, List, [],
  ◌∷◌, ◌==◌, arith, Bool-cases, ne→==, length,
}
use learn_docs.Memory.{Ptr, null}
use learn_docs.Handle.Types.{HandleType}
use learn_docs.Handle.Ctx.{Fits, NoNul, text_size}
use learn_docs.Handle.Table.{Table, Distinct}
use learn_docs.Handle.Erase.{find-erased}
use learn_docs.Handle.Object.{mutex_get, mutex_find_by_name, type_get, compat_handle_erase}
use learn_docs.Handle.Roundtrip.{mutex_reg_lem}
use learn_docs.Sync.Defs.{Kernel, destroys_mutex, close_handle, close_as, erased}
use learn_docs.Sync.Mutex.{
  Pthread, Available, Recursive, Mutexes, put_mutex, release_mutex, release_mutex-depth,
  put_mutex-same,
}
use learn_docs.Sync.Create.{Fresh, open_or_create, create_mutex_a, take_if}
use learn_docs.Sync.Names.{IsKeyed, find-new, key-ne, key, table', table'-IsKeyed}

close_mutex :
    (h a : ℕ) (k : Kernel)
    → type_get h k.table ≡ HandleType.mutex
    → mutex_get h k.table ≡ a
    → close_handle h k ≡ (true, erased h (record k { released = destroys_mutex a ∷ k.released }))
unfolding close_handle close_as
close_mutex h a k e f =
    ap (λ (x : HandleType). close_as x h k) e
    ∙ ap (λ (x : ℕ). (true, erased h (record k { released = destroys_mutex x ∷ k.released }))) f

mutex_get-erased : (h : ℕ) (t : Table) → Distinct t → mutex_get h (compat_handle_erase h t) ≡ null
unfolding mutex_get
mutex_get-erased h t d = rw (find-erased h t d) refl

release_mutex-none :
    {M : Type 0} (p : Pthread M) (t h : ℕ) (k : Mutexes M)
    → mutex_get h k.table ≡ null
    → release_mutex p t h k ≡ (false, k)
unfolding release_mutex
release_mutex-none p t h k e = elim (Bool-cases (h == null)) [
  | inl z ↦ rw z refl
  | inr z ↦ rw (z, e) refl
]

open_or_create-found :
    {M : Type 0} (g : Fresh M) (name : List ℕ) (k : Mutexes M) (h : ℕ)
    → mutex_find_by_name name k.table ≡ h
    → h ≢ null
    → open_or_create g (some name) k ≡ (h, k)
unfolding open_or_create
open_or_create-found g name k h e n = rw (e, ne→== h null n) refl

-- Further calls of `CreateMutexA` for a name, each with the objects that it has at hand.
abbrev pub open_all : {M : Type 0} → List (Fresh M) → List ℕ → Mutexes M → List ℕ × Mutexes M
open_all [] name k = ([], k)
open_all (g ∷ gs) name k =
    let (h, k') = open_or_create g (some name) k in
    let (hs, k'') = open_all gs name k' in (h ∷ hs, k'')

abbrev pub all_same : {A : Type 0} → ℕ → List A → List ℕ
all_same h [] = []
all_same h (g ∷ gs) = h ∷ all_same h gs

module _ {M : Type 0} (f : Fresh M) (name : List ℕ) (k : Mutexes M) (keyed : IsKeyed k.table)
    (positive : 0 < f.random) (fits : Fits 8 f.mutex) (fits_attr : Fits 8 f.attr) (nn : NoNul name)
    (short : length name < text_size) (ok : f.init_rc ≡ 0) where
  found-after :
      let (handle, k') = open_or_create f (some name) k in mutex_find_by_name name k'.table ≡ handle
  unfolding open_or_create
  found-after = elim (Bool-cases (mutex_find_by_name name k.table == null)) [
    | inl e ↦ rw (e, ok) (find-new f name k keyed positive fits fits_attr nn short (ground arith))
    | inr e ↦ rw e refl
  ]

  handle-ne : (open_or_create f (some name) k).0 ≢ null
  unfolding open_or_create
  handle-ne = elim (Bool-cases (mutex_find_by_name name k.table == null)) [
    | inl e ↦ rw (e, ok) (key-ne f name k keyed positive fits fits_attr nn short)
    | inr e ↦ rw e (ground arith)
  ]

  -- In a table with distinct keys above 0, for a random start above 0, addresses of 8 bytes, a
  -- name without NUL and shorter than 255 bytes and an initialization that succeeds: a second
  -- `CreateMutexA` of the name, from any thread and with any new objects at hand, is equivalent
  -- to locking the mutex of the first handle if the caller wants to own it: it gives that handle
  -- and creates nothing.
  pub create_mutex_a-again :
      (p : Pthread M) (t : ℕ) (g : Fresh M) (owner : Bool)
      → let (handle, k') = open_or_create f (some name) k in
        create_mutex_a p t g owner (some name) k' ≡ (handle, take_if p t owner handle k')
  unfolding create_mutex_a
  create_mutex_a-again p t g owner =
      let (handle, k') = open_or_create f (some name) k in
      rw (open_or_create-found g name k' handle found-after handle-ne) refl

  module _ (unused : mutex_find_by_name name k.table ≡ 0) where
    abbrev handle : ℕ
    handle = key f name k keyed positive fits fits_attr nn short

    abbrev created : Mutexes M
    created =
        put_mutex f.mutex f.initial
          (record k { table = table' f name k keyed positive fits fits_attr nn short })

    open_or_create-created : open_or_create f (some name) k ≡ (handle, created)
    unfolding open_or_create
    open_or_create-created = rw (unused, ok) refl

    handle-lem :
        (type_get handle created.table ≡ HandleType.mutex)
        × (mutex_get handle created.table ≡ f.mutex)
    handle-lem =
        let (is_mutex, gives, _, _, _) =
          mutex_reg_lem f.random f.place f.mutex f.attr name k.table fits fits_attr nn short in
        (is_mutex, gives)

    -- With pthread mutexes that are recursive as POSIX says, under the conditions of
    -- `CreateMutexA` on its table and its arguments (distinct keys above 0, a random start above
    -- 0, addresses of 8 bytes that are not null, a name without NUL and shorter than 255 bytes,
    -- an initialization that succeeds): a mutex that it makes for its owner, under a name that
    -- is not in use, is locked once by the calling thread, and `ReleaseMutex` of the handle by
    -- that thread returns TRUE and frees it.
    pub create_mutex_a-release_mutex :
        (p : Pthread M) (r : Recursive p) (t : ℕ)
        → f.mutex ≢ null
        → Available p t f.initial
        → p.depth t f.initial ≡ 0
        → let (h, ok') = create_mutex_a p t f true (some name) k in
          (k₁ : Mutexes M) × (ok' ≡ some k₁)
          × (p.depth t (k₁.mutex_at f.mutex) ≡ 1)
          × ((release_mutex p t h k₁).0 ≡ true)
          × (p.depth t ((release_mutex p t h k₁).1.mutex_at f.mutex) ≡ 0)
    unfolding create_mutex_a take_if
    create_mutex_a-release_mutex p r t n free unlocked =
        let m = (p.try_lock t f.initial).1 in
        let k₁ = put_mutex f.mutex m created in
        let (got, deeper, free') = r.try_own t f.initial free in
        let at = put_mutex-same p r f.mutex m created in
        let gives = handle-lem.1 in
        let first =
          put_mutex-same p r f.mutex f.initial
            (record k { table = table' f name k keyed positive fits fits_attr nn short }) in
        let valid = key-ne f name k keyed positive fits fits_attr nn short in
        let took : take_if p t true handle created ≡ some k₁ =
          rw (ne→== handle null valid, gives, first, r.lock_own t f.initial free) refl in
        let locked : p.depth t (k₁.mutex_at f.mutex) ≡ 1 =
          ap (λ (x : M). p.depth t x) at ∙ omega (arith, deeper, unlocked) in
        let held =
          subst (λ (a : Ptr). Available p t (k₁.mutex_at a)) (sym gives)
            (subst (λ (x : M). Available p t x) (sym at) free') in
        let (released, less) =
          release_mutex-depth p r t handle k₁ valid (λ z. n (sym gives ∙ z)) held in
        let left = (release_mutex p t handle k₁).1 in
        let back : p.depth t (left.mutex_at f.mutex) ≡ 0 =
          ap (λ (a : Ptr). p.depth t (left.mutex_at a)) (sym gives)
          ∙ less
          ∙ ap (λ (a : Ptr). p.depth t (k₁.mutex_at a) - 1) gives
          ∙ omega (arith, locked) in
        rw open_or_create-created (k₁, took, locked, released, back)

    -- Further calls of `CreateMutexA` find the mutex: they change no table.
    open_all-created :
        (gs : List (Fresh M)) → open_all gs name created ≡ (all_same handle gs, created)
    open_all-created [] = refl
    open_all-created (g ∷ gs) =
        let now : mutex_find_by_name name created.table ≡ handle =
          find-new f name k keyed positive fits fits_attr nn short unused in
        let first =
          open_or_create-found g name created handle now
            (key-ne f name k keyed positive fits fits_attr nn short) in
        rw (first, open_all-created gs) refl

    -- In a table with distinct keys above 0, for a random start above 0, addresses of 8 bytes, a
    -- name not in use, without NUL and shorter than 255 bytes, and an initialization that
    -- succeeds: after a `CreateMutexA` of the name and any number of further ones, which all
    -- give the same handle, one `CloseHandle` of it destroys the mutex: it returns TRUE, and
    -- afterwards `ReleaseMutex` of the handle by any thread returns FALSE and changes nothing.
    pub close_handle-shared :
        (gs : List (Fresh M)) (p : Pthread M) (t : ℕ) (kernel : Kernel)
        → kernel.table ≡ (open_all gs name (open_or_create f (some name) k).1).1.table
        → let (first, k₁) = open_or_create f (some name) k in
          let (handles, k₂) = open_all gs name k₁ in
          let (closed, kernel') = close_handle first kernel in
          let k₃ : Mutexes M = record k₂ { table = kernel'.table } in
          (handles ≡ all_same first gs)
          × (closed ≡ true)
          × (kernel'.released ≡ destroys_mutex f.mutex ∷ kernel.released)
          × (release_mutex p t first k₃ ≡ (false, k₃))
    close_handle-shared gs p t kernel e =
        let start : open_or_create f (some name) k ≡ (handle, created) = open_or_create-created in
        let later = open_all-created gs in
        let left : kernel.table ≡ created.table = e ∙ rw (start, later) refl in
        let is_mutex = ap (λ (x : Table). type_get handle x) left ∙ handle-lem.0 in
        let gives = ap (λ (x : Table). mutex_get handle x) left ∙ handle-lem.1 in
        let closes = close_mutex handle f.mutex kernel is_mutex gives in
        let gone = mutex_get-erased handle kernel.table (
          subst Distinct (sym left)
            (table'-IsKeyed f name k keyed positive fits fits_attr nn short).distinct) in
        rw (start, later, closes) (refl, refl, refl, release_mutex-none p t handle _ gone)
