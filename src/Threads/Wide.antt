-- ===== src/Threads/Wide.antt =====
-- Threads whose ids an `int` does not hold, as the ids of a 64-bit Linux are: what `GetExitCodeThread`
-- gives for them, whenever they end.
use learn_docs.Base.{
  ℕ, zero, suc, ◌-◌, ◌^◌, ◌≤◌, ◌≡◌, ◌≢◌, ◌<◌, refl, sym, ◌∙◌, Bool, true, false, some, [], ◌∷◌,
  ◌==◌, if◌then◌else◌, ne→==, inl, inr, Bool-cases,
}
use learn_docs.Memory.{null}
use learn_docs.Handle.Types.{Header, zero_header}
use learn_docs.Handle.Ctx.{Fits, get_le, get_le-put_le}
use learn_docs.Handle.Table.{Table, insert, update}
use learn_docs.Handle.Keys.{new_key_get}
use learn_docs.Handle.ExitCode.{exited, exited-runs}
use learn_docs.Handle.Object.{
  reg_thread, runs, fill_thread, update_first, read_first, set_thread_exitcode, get_thread_exitcode,
  get_thread_tid, through_int,
}
use learn_docs.Handle.Roundtrip.{get_thread_tid-reg_thread}
use learn_docs.Threads.Defs.{
  Process, Meanwhile, starts, beginthread, mark_active, create_thread, exit_thread,
  get_exit_code_thread, still_active,
}
use learn_docs.Threads.Table.{NonePasses, get_thread_tid-set}
use learn_docs.Threads.Current.{through_int-ne}

update_first-NonePasses :
    (test : Header → Bool) (f : Header → Header) (other : Header → Bool) (t : Table)
    → ((h : Header) → test (f h) ≡ test h)
    → NonePasses test t
    → NonePasses test (update_first other f t).1
unfolding update_first
update_first-NonePasses test f other [] same n = n
update_first-NonePasses test f other ((k, h) ∷ t) same n = elim (Bool-cases (other h)) [
  | inl e ↦ rw e (same h ∙ n.0, n.1)
  | inr e ↦ rw e (n.0, update_first-NonePasses test f other t same n.1)
]

insert-NonePasses :
    (test : Header → Bool) (place k : ℕ) (h : Header) (t : Table)
    → test h ≡ false
    → NonePasses test t
    → NonePasses test (insert place (k, h) t)
unfolding insert
insert-NonePasses test zero k h t e n = (e, n)
insert-NonePasses test (suc place) k h [] e n = (e, n)
insert-NonePasses test (suc place) k h ((j, x) ∷ t) e n =
    (n.0, insert-NonePasses test place k h t e n.1)

update-NonePasses :
    (test : Header → Bool) (k : ℕ) (f : Header → Header) (t : Table)
    → ((h : Header) → test (f h) ≡ false)
    → NonePasses test t
    → NonePasses test (update k f t)
unfolding update
update-NonePasses test k f [] e n = n
update-NonePasses test k f ((j, x) ∷ t) e n = elim (Bool-cases (j == k)) [
  | inl q ↦ rw q (e x, n.1)
  | inr q ↦ rw q (n.0, update-NonePasses test k f t e n.1)
]

read_first-NonePasses :
    (test : Header → Bool) (d : ℕ) (read : Header → ℕ) (t : Table)
    → NonePasses test t
    → read_first test d read t ≡ d
unfolding read_first
read_first-NonePasses test d read [] n = refl
read_first-NonePasses test d read ((k, h) ∷ t) n = rw n.0 (read_first-NonePasses test d read t n.1)

-- A call of `ExitThread` by the thread, or none.
abbrev pub exits_if : Bool → (tid code : ℕ) → Process → Process
exits_if called tid code w = if called then exit_thread tid code w else w

-- The handle gives an id that no entry of a thread has.
record Lost (handle other : ℕ) (w : Process) : Type 0 where
  gives : get_thread_tid handle w.table ≡ other
  unknown : NonePasses (runs other) w.table

set-NonePasses :
    (other tid code : ℕ) (t : Table)
    → NonePasses (runs other) t
    → NonePasses (runs other) (set_thread_exitcode tid code t).1
unfolding set_thread_exitcode
set-NonePasses other tid code t n =
    update_first-NonePasses (runs other) (exited code) (runs tid) t (λ h. exited-runs other code h)
      n

exits_if-NonePasses :
    (other tid code : ℕ) (called : Bool) (w : Process)
    → NonePasses (runs other) w.table
    → NonePasses (runs other) (exits_if called tid code w).table
unfolding exit_thread
exits_if-NonePasses other tid code true w n = set-NonePasses other tid code w.table n
exits_if-NonePasses other tid code false w n = n

exits_if-Lost :
    (handle other tid code : ℕ) (called : Bool) (w : Process)
    → Lost handle other w
    → Lost handle other (exits_if called tid code w)
unfolding exit_thread
exits_if-Lost handle other tid code true w l = record {
  gives = get_thread_tid-set handle tid code w.table ∙ l.gives;
  unknown = set-NonePasses other tid code w.table l.unknown;
}
exits_if-Lost handle other tid code false w l = l

-- A new thread has its own id, which is not the one that its handle gives.
reg_thread-Lost :
    (random place tid : ℕ) (w : Process)
    → Fits 8 tid
    → through_int tid ≢ tid
    → NonePasses (runs (through_int tid)) w.table
    → let (handle, t) = reg_thread random place tid w.table in
      Lost handle (through_int tid) (record w { table = t })
unfolding reg_thread new_key_get
reg_thread-Lost random place tid w f ne n =
    let key = (new_key_get random place w.table).0 in
    record {
      gives = (get_thread_tid-reg_thread random place tid w.table f).1;
      unknown =
          update-NonePasses (runs (through_int tid)) key (fill_thread key tid)
            (insert place (key, zero_header) w.table) (λ h. unlike key h)
            (insert-NonePasses (runs (through_int tid)) place key zero_header w.table refl n);
    }
  where
    unlike : (key : ℕ) (h : Header) → runs (through_int tid) (fill_thread key tid h) ≡ false
    unlike key h =
        let id : get_le 8 0 (fill_thread key tid h).ctx ≡ tid = get_le-put_le 8 0 tid h.ctx f in
        rw id (ne→== tid (through_int tid) (λ e. ne (sym e)))

mark_active-Lost :
    (gaps : Meanwhile) (handle other : ℕ) (w : Process)
    → Lost handle other (gaps.read_back w)
    → Lost handle other (mark_active gaps handle w)
unfolding mark_active
mark_active-Lost gaps handle other w l =
    let tid = get_thread_tid handle w.table in
    record {
      gives = get_thread_tid-set handle tid still_active (gaps.read_back w).table ∙ l.gives;
      unknown = set-NonePasses other tid still_active (gaps.read_back w).table l.unknown;
    }

Lost-unread :
    (handle other : ℕ) (w : Process)
    → other ≢ 0
    → Lost handle other w
    → get_exit_code_thread handle true w ≡ (true, some 0)
unfolding get_exit_code_thread get_thread_exitcode
Lost-unread handle other w z l =
    rw
      (
        l.gives,
        ne→== other 0 z,
        read_first-NonePasses (runs other) 0 (λ h. get_le 8 8 h.ctx) w.table l.unknown,
      )
      refl

-- `GetExitCodeThread` never gives the code of a thread whose id is from 2^31 on and below 2^64 -
-- 2^31, as the ids of a 64-bit Linux are, where an `int` cuts the id to one that is not 0 and
-- that no thread of the table has: started by `CreateThread` at an address that is not null, it
-- is neither STILL_ACTIVE while it runs, whether or not the caller takes the id, nor does the
-- code of an `ExitThread` come out, before its registration, between the steps that store
-- STILL_ACTIVE or afterwards: TRUE and the code 0 are given always.
pub create_thread-get_exit_code_thread :
    (tid code random place start parameter : ℕ) (early between late afterwards with_id : Bool)
    (w : Process)
    → Fits 8 tid
    → 2 ^ 31 ≤ tid
    → tid < 2 ^ 64 - 2 ^ 31
    → through_int tid ≢ 0
    → NonePasses (runs (through_int tid)) w.table
    → start ≢ null
    → let gaps : Meanwhile = record {
      started = λ w. exits_if early tid code w;
      registered = λ w. exits_if between tid code w;
      read_back = λ w. exits_if late tid code w;
    } in
      let (handle, w₁) = create_thread gaps (some tid) random place start parameter with_id w in
      get_exit_code_thread handle true (exits_if afterwards tid code w₁) ≡ (true, some 0)
unfolding create_thread beginthread
create_thread-get_exit_code_thread tid code random place start parameter early between late
      afterwards with_id w f big below low n s =
    let other = through_int tid in
    let gaps : Meanwhile = record {
      started = λ w. exits_if early tid code w;
      registered = λ w. exits_if between tid code w;
      read_back = λ w. exits_if late tid code w;
    } in
    let w₀ : Process = record w { actions = starts tid start parameter ∷ w.actions } in
    let w₁ = exits_if early tid code w₀ in
    let (handle, t) = reg_thread random place tid w₁.table in
    let lost =
      reg_thread-Lost random place tid w₁ f (through_int-ne tid big below)
        (exits_if-NonePasses other tid code early w₀ n) in
    let w₂ = exits_if between tid code (record w₁ { table = t }) in
    let lost' = exits_if-Lost handle other tid code between (record w₁ { table = t }) lost in
    let marked =
      mark_active-Lost gaps handle other w₂ (exits_if-Lost handle other tid code late w₂ lost') in
    let read = λ (x : Process) (l : Lost handle other x).
      Lost-unread handle other (exits_if afterwards tid code x) low
        (exits_if-Lost handle other tid code afterwards x l) in
    rw (ne→== start null s) elim (Bool-cases with_id) [
      | inl e ↦ rw e (read (mark_active gaps handle w₂) marked)
      | inr e ↦ rw e (read w₂ lost')
    ]
