-- ===== src/Sync/Names.antt =====
-- The mutexes by name: what `CreateMutexA` promises, without handles and entries.
use learn_docs.Base.{
  ℕ, ◌≡◌, ◌≢◌, ◌<◌, refl, ap, sym, ◌∙◌, inl, inr, true, false, Option, none, some, List, ◌==◌,
  if◌then◌else◌, arith, Bool-cases, ne→==, length,
}
use learn_docs.Memory.{Ptr, null}
use learn_docs.Handle.Types.{zero_header}
use learn_docs.Handle.Ctx.{Fits, NoNul, text_size}
use learn_docs.Handle.Table.{Table, has, Distinct, has-update, has-insert}
use learn_docs.Handle.Keys.{new_key_get, new_key_get_fresh, register-Distinct}
use learn_docs.Handle.Object.{mutex_reg, mutex_get, mutex_find_by_name, named, text_eq, fill_mutex}
use learn_docs.Handle.TextEq.{text_eq_refl, text_eq→eq}
use learn_docs.Handle.Roundtrip.{mutex_reg_lem, fill_mutex-name}
use learn_docs.Handle.Search.{find_first-insert, find_first-insert_hit, has-find_first}
use learn_docs.Sync.Mutex.{Mutexes}
use learn_docs.Sync.Create.{Fresh, open_or_create}

-- The names in use, each with its mutex.
abbrev pub Names : Type 0
Names = List ℕ → Option Ptr

abbrev pub mutex_of : ℕ → Table → Option Ptr
mutex_of handle t = if handle == null then none else some (mutex_get handle t)

-- What a table says of a name.
unfoldable pub names : Table → Names
names t name = mutex_of (mutex_find_by_name name t) t

names_lem : (t : Table) (name : List ℕ) → names t name ≡ mutex_of (mutex_find_by_name name t) t
unfolding names
names_lem t name = refl

-- The abstract operation: a name that is in use keeps its mutex, any other gets the new one.
abbrev pub or_new : Option Ptr → Ptr → Ptr
or_new none p = p
or_new (some q) p = q

abbrev pub with_name : List ℕ → Ptr → Names → Names
with_name name p ns other = if text_eq name other then some (or_new (ns name) p) else ns other

-- No key is 0, and none stands twice.
pub record IsKeyed (t : Table) : Type 0 where
  pub distinct : Distinct t
  pub no_null : has 0 t ≡ false

named-fill :
    (key mutex attr : ℕ) (name other : List ℕ)
    → NoNul name
    → length name < text_size
    → named other (fill_mutex key mutex attr name zero_header) ≡ text_eq name other
named-fill key mutex attr name other nn short =
    ap (λ (s : List ℕ). text_eq s other) (fill_mutex-name mutex attr name nn short)

module _ {M : Type 0} (f : Fresh M) (name : List ℕ) (k : Mutexes M) (keyed : IsKeyed k.table)
    (positive : 0 < f.random) (fits : Fits 8 f.mutex) (fits_attr : Fits 8 f.attr) (nn : NoNul name)
    (short : length name < text_size) where
  abbrev pub table' : Table
  table' = (mutex_reg f.random f.place f.mutex f.attr name k.table).1

  abbrev pub key : ℕ
  key = (mutex_reg f.random f.place f.mutex f.attr name k.table).0

  pub key-ne : key ≢ 0
  unfolding mutex_reg
  key-ne e = omega (arith, (new_key_get_fresh f.random f.place k.table).1, e)

  key-fresh : has key k.table ≡ false
  unfolding mutex_reg
  key-fresh = (new_key_get_fresh f.random f.place k.table).0

  pub table'-IsKeyed : IsKeyed table'
  unfolding mutex_reg new_key_get
  table'-IsKeyed = record {
    distinct = register-Distinct f.random f.place _ k.table keyed.distinct;
    no_null =
        has-update _ 0 _ _
        ∙ has-insert f.place key 0 zero_header k.table
        ∙ rw (ne→== key 0 key-ne, keyed.no_null) refl;
  }

  -- The search by the new name and by another one.
  pub find-new : mutex_find_by_name name k.table ≡ 0 → mutex_find_by_name name table' ≡ key
  unfolding mutex_find_by_name mutex_reg new_key_get
  find-new none_yet =
      find_first-insert_hit (named name) f.place key (fill_mutex key f.mutex f.attr name)
        zero_header k.table keyed.no_null none_yet key-fresh
        (named-fill key f.mutex f.attr name name nn short ∙ text_eq_refl name)

  find-other :
      (other : List ℕ)
      → text_eq name other ≡ false
      → mutex_find_by_name other table' ≡ mutex_find_by_name other k.table
  unfolding mutex_find_by_name mutex_reg new_key_get
  find-other other e =
      find_first-insert (named other) f.place key (fill_mutex key f.mutex f.attr name) zero_header
        k.table key-fresh (named-fill key f.mutex f.attr name other nn short ∙ e)

  mutex_of-kept : (h : ℕ) → (h ≢ 0 → has h k.table ≡ true) → mutex_of h table' ≡ mutex_of h k.table
  unfolding mutex_get
  mutex_of-kept h there = elim (Bool-cases (h == null)) [
    | inl e ↦ rw e refl
    | inr e ↦
        let other : h ≢ key =
          λ same. cc (there (ground arith), ap (λ (x : ℕ). has x k.table) same, key-fresh) in
        let (_, _, _, _, others) =
          mutex_reg_lem f.random f.place f.mutex f.attr name k.table fits fits_attr nn short in
        rw (e, others h other) refl
  ]

  found-has :
      (other : List ℕ)
      → mutex_find_by_name other k.table ≢ 0
      → has (mutex_find_by_name other k.table) k.table ≡ true
  unfolding mutex_find_by_name
  found-has other n = has-find_first (named other) k.table n

  pub mutex_of-new : mutex_of key table' ≡ some f.mutex
  mutex_of-new = rw (ne→== key 0 key-ne) (
      ap some
        (mutex_reg_lem f.random f.place f.mutex f.attr name k.table fits fits_attr nn short).1)

  unused : mutex_find_by_name name k.table ≡ 0 → names k.table name ≡ none
  unfolding names
  unused none_yet = ap (λ (h : ℕ). mutex_of h k.table) none_yet

  with_name-new :
      mutex_find_by_name name k.table ≡ 0
      → with_name name f.mutex (names k.table) name ≡ some f.mutex
  with_name-new none_yet = rw (text_eq_refl name, unused none_yet) refl

  -- A name that is in use keeps its mutex.
  kept-names :
      mutex_find_by_name name k.table ≢ 0
      → (other : List ℕ) → names k.table other ≡ with_name name f.mutex (names k.table) other
  unfolding names
  kept-names used other = elim (Bool-cases (text_eq name other)) [
    | inl e ↦
        let same : other ≡ name = sym (text_eq→eq name other e) in
        let there : names k.table name
            ≡ some (mutex_get (mutex_find_by_name name k.table) k.table) =
          rw (ne→== _ null used) refl in
        rw e (ap (names k.table) same ∙ there ∙ rw there refl)
    | inr e ↦ rw e refl
  ]

  created-names :
      mutex_find_by_name name k.table ≡ 0
      → (other : List ℕ) → names table' other ≡ with_name name f.mutex (names k.table) other
  unfolding names
  created-names none_yet other = elim (Bool-cases (text_eq name other)) [
    | inl e ↦
        ap (λ (o : List ℕ). names table' o) (sym (text_eq→eq name other e))
        ∙ ap (λ (h : ℕ). mutex_of h table') (find-new none_yet)
        ∙ mutex_of-new
        ∙ rw (e, unused none_yet) refl
    | inr e ↦
        ap (λ (h : ℕ). mutex_of h table') (find-other other e)
        ∙ mutex_of-kept (mutex_find_by_name other k.table) (found-has other)
        ∙ rw e refl
  ]

  -- `CreateMutexA` of a name without NUL and shorter than 255 bytes, in a table with distinct
  -- keys above 0, with a random start above 0, addresses of 8 bytes and a `pthread_mutex_init`
  -- that succeeds, does to the names in use what the abstract operation does: a name that is in
  -- use keeps its mutex, any other gets the new one, and no other name changes. The handle that
  -- it gives is not NULL and is a handle of the mutex of the name, and the table still has
  -- distinct keys above 0.
  pub open_or_create-with_name :
      f.init_rc ≡ 0
      → let (handle, k') = open_or_create f (some name) k in
        (handle ≢ null)
        × (mutex_of handle k'.table ≡ names k'.table name)
        × ((other : List ℕ) → names k'.table other ≡ with_name name f.mutex (names k.table) other)
        × IsKeyed k'.table
  unfolding open_or_create
  open_or_create-with_name ok = elim (Bool-cases (mutex_find_by_name name k.table == null)) [
    | inl e ↦
        let none_yet : mutex_find_by_name name k.table ≡ 0 = ground arith in
        rw (e, ok)
          (
            key-ne,
            mutex_of-new ∙ sym (created-names none_yet name ∙ with_name-new none_yet),
            created-names none_yet,
            table'-IsKeyed,
          )
    | inr e ↦
        let used : mutex_find_by_name name k.table ≢ 0 = ground arith in
        rw e (used, sym (names_lem k.table name), kept-names used, keyed)
  ]
