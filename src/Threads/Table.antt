-- ===== src/Threads/Table.antt =====
-- What an exit code and a registration do to the entries of threads.
use learn_docs.Base.{
  ℕ, zero, suc, ◌^◌, ◌≡◌, ◌≢◌, ◌<◌, refl, ap, ◌∙◌, inl, inr, Bool, true, false, some, [], ◌∷◌,
  arith, Bool-cases, eq→==,
}
use learn_docs.Handle.Types.{Header, zero_header}
use learn_docs.Handle.Ctx.{Fits, put_le, get_le, get_le-put_le, put_le-outside, get_le-same}
use learn_docs.Handle.Table.{Table, find, has, insert, update}
use learn_docs.Handle.File.{read_or}
use learn_docs.Handle.Object.{
  find_last, update_first, runs, get_thread_tid, set_thread_exitcode, through_int, fill_thread,
}

-- A walk that changes the first entry that passes finds one where there is one.
pub update_first-found :
    (test : Header → Bool) (f : Header → Header) (k : ℕ) (h : Header) (t : Table)
    → find k t ≡ some h
    → test h ≡ true
    → (update_first test f t).0 ≡ true
unfolding update_first find
update_first-found test f k h [] e p = cc
update_first-found test f k h ((j, x) ∷ t) e p = ground (arith, update_first-found test f k h t)

-- It keeps what a getter reads where the change keeps it.
read-update_first :
    (test : Header → Bool) (f : Header → Header) (read : Header → ℕ) (d k : ℕ) (t : Table)
    → ((h : Header) → read (f h) ≡ read h)
    → read_or d read (find k (update_first test f t).1) ≡ read_or d read (find k t)
unfolding update_first find
read-update_first test f read d k [] same = refl
read-update_first test f read d k ((j, x) ∷ t) same =
    ground (arith, same x, read-update_first test f read d k t same)

-- Storing an exit code leaves each thread its id.
pub get_thread_tid-set :
    (handle tid code : ℕ) (t : Table)
    → get_thread_tid handle (set_thread_exitcode tid code t).1 ≡ get_thread_tid handle t
unfolding get_thread_tid set_thread_exitcode
get_thread_tid-set handle tid code t =
    read-update_first (runs tid) (λ h. record h { ctx = put_le 8 8 code h.ctx })
      (λ h. through_int (get_le 8 0 h.ctx)) 0 handle t
      λ h.
        ap (λ (v : ℕ). through_int v)
          (get_le-same 8 0 h.ctx (put_le 8 8 code h.ctx)
            (λ a l u. put_le-outside 8 8 code h.ctx a (omega arith)))

-- No entry passes.
abbrev pub NonePasses : (Header → Bool) → Table → Type 0
NonePasses test [] = Unit {0}
NonePasses test ((j, x) ∷ t) = (test x ≡ false) × NonePasses test t

-- Where no key is 0, a walk to the last entry that passes gives 0 only if none does.
find_last-ne :
    (test : Header → Bool) (r : ℕ) (t : Table) → has 0 t ≡ false → r ≢ 0 → find_last test r t ≢ 0
unfolding find_last has
find_last-ne test r [] z n = n
find_last-ne test r ((j, x) ∷ t) z n = elim (Bool-cases (test x)) [
  | inl e ↦ rw e (find_last-ne test j t (ground arith) (ground arith))
  | inr e ↦ rw e (find_last-ne test r t (ground arith) n)
]

pub find_last-NonePasses :
    (test : Header → Bool) (t : Table)
    → has 0 t ≡ false
    → find_last test 0 t ≡ 0
    → NonePasses test t
unfolding find_last has
find_last-NonePasses test [] z e = tt
find_last-NonePasses test ((j, x) ∷ t) z e = elim (Bool-cases (test x)) [
  | inl p ↦
      let last : find_last test j t ≡ 0 = ground arith in
      absurd (find_last-ne test j t (ground arith) (ground arith) last)
  | inr p ↦ (p, find_last-NonePasses test t (ground arith) (ground arith))
]

find_last-none :
    (test : Header → Bool) (r : ℕ) (t : Table) → NonePasses test t → find_last test r t ≡ r
unfolding find_last
find_last-none test r [] n = refl
find_last-none test r ((j, x) ∷ t) n = rw n.0 (find_last-none test r t n.1)

-- A new entry is the one that passes, where none did.
pub find_last-insert :
    (test : Header → Bool) (place k r : ℕ) (f : Header → Header) (h : Header) (t : Table)
    → has k t ≡ false
    → test (f h) ≡ true
    → NonePasses test t
    → find_last test r (update k f (insert place (k, h) t)) ≡ k
unfolding find_last update insert has
find_last-insert test zero k r f h t fresh p n =
    ground (arith, eq→== k k refl, find_last-none test k t n)
find_last-insert test (suc place) k r f h [] fresh p n = ground (arith, eq→== k k refl)
find_last-insert test (suc place) k r f h ((j, x) ∷ t) fresh p n =
    ground (arith, find_last-insert test place k r f h t (ground arith) p n.1)

-- The handle is that of a thread with this id, which is not 0 and which an `int` holds.
pub record Thread (handle tid : ℕ) (t : Table) : Type 0 where
  pub entry : Header
  pub there : find handle t ≡ some entry
  pub is_runs : runs tid entry ≡ true
  pub positive : tid ≢ 0
  pub small : tid < 2 ^ 31

through_int-small : (v : ℕ) → v < 2 ^ 31 → through_int v ≡ v
through_int-small v h = ground arith

pub Thread-tid : (handle tid : ℕ) (t : Table) → Thread handle tid t → get_thread_tid handle t ≡ tid
unfolding get_thread_tid
Thread-tid handle tid t v =
    let id : get_le 8 0 v.entry.ctx ≡ tid = ground arith in
    rw v.there (ap (λ (x : ℕ). through_int x) id ∙ through_int-small tid v.small)

pub fill_thread-runs :
    (handle tid : ℕ) → Fits 8 tid → runs tid (fill_thread handle tid zero_header) ≡ true
fill_thread-runs handle tid f = rw (get_le-put_le 8 0 tid (λ _. 0) f) (eq→== tid tid refl)
