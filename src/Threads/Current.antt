-- ===== src/Threads/Current.antt =====
-- The ids of running threads: `GetCurrentThreadId` and `GetCurrentThread`, and ids that an `int` does not
-- hold.
use learn_docs.Base.{
  ℕ, ◌-◌, ◌^◌, ◌≤◌, ◌≡◌, ◌≢◌, ◌<◌, refl, inl, inr, false, some, ◌∷◌, ◌==◌, arith, Bool-cases, ne→==,
}
use learn_docs.Memory.{null}
use learn_docs.Handle.Types.{zero_header}
use learn_docs.Handle.Ctx.{Fits}
use learn_docs.Handle.Table.{Table, has}
use learn_docs.Handle.Keys.{new_key_get, new_key_get_fresh}
use learn_docs.Handle.Object.{reg_thread, runs, fill_thread, find_thread_by_tid, through_int}
use learn_docs.Handle.Roundtrip.{get_thread_tid-reg_thread}
use learn_docs.Threads.Defs.{
  Process, starts, cancels, undisturbed, create_thread, beginthread, terminate_thread,
  suspend_thread, get_current_thread_id, get_current_thread,
}
use learn_docs.Threads.Table.{find_last-NonePasses, find_last-insert, fill_thread-runs}

-- A handle that is chosen from a random start above 0 is not 0.
reg_thread-ne :
    (random place tid : ℕ) (t : Table) → 0 < random → (reg_thread random place tid t).0 ≢ 0
unfolding reg_thread
reg_thread-ne random place tid t pos =
    λ e. omega (arith, (new_key_get_fresh random place t).1, e, pos)

-- The id of a thread that was unknown is the handle that it gets.
find-registered :
    (self random place : ℕ) (t : Table)
    → Fits 8 self
    → has 0 t ≡ false
    → find_thread_by_tid self t ≡ 0
    → let (handle, t') = reg_thread random place self t in find_thread_by_tid self t' ≡ handle
unfolding find_thread_by_tid reg_thread new_key_get
find-registered self random place t f z e =
    let key = (new_key_get random place t).0 in
    find_last-insert (runs self) place key 0 (fill_thread key self) zero_header t
      (new_key_get_fresh random place t).0 (fill_thread-runs key self f)
      (find_last-NonePasses (runs self) t z e)

-- In a table without the key 0, for a thread id of 8 bytes and a random start above 0:
-- `GetCurrentThreadId` gives a thread an id that is not 0, every later call of the same thread
-- gives the same id and changes nothing, and `GetCurrentThread` gives the handle of that value.
pub get_current_thread_id-again :
    (self random place random' place' : ℕ) (w : Process)
    → Fits 8 self
    → has 0 w.table ≡ false
    → 0 < random
    → let (id, w') = get_current_thread_id self random place w in
      (id ≢ 0)
      × (get_current_thread_id self random' place' w' ≡ (id, w'))
      × (get_current_thread self w' ≡ id)
unfolding get_current_thread_id get_current_thread
get_current_thread_id-again self random place random' place' w f z pos =
    let (handle, t) = reg_thread random place self w.table in
    elim (Bool-cases (find_thread_by_tid self w.table == 0)) [
      | inl e ↦
          let now = find-registered self random place w.table f z (ground arith) in
          let valid = reg_thread-ne random place self w.table pos in
          rw e (valid, rw (now, ne→== handle 0 valid) refl, now)
      | inr e ↦ rw e (ground arith, rw e refl, refl)
    ]

-- An id from 2^31 on and below 2^64 - 2^31 goes through an `int` to another one.
pub through_int-ne : (tid : ℕ) → 2 ^ 31 ≤ tid → tid < 2 ^ 64 - 2 ^ 31 → through_int tid ≢ tid
through_int-ne tid big below e = ground arith

-- A thread whose id is from 2^31 on and below 2^64 - 2^31, as the ids of a 64-bit Linux are, and
-- is not cut to 0 by an `int`, started by `CreateThread` at an address that is not null, with no
-- steps of other threads in between: `TerminateThread` and `SuspendThread` of its handle both
-- cancel one and the same other id.
pub terminate_thread-other :
    (tid cancel_rc code random place start parameter : ℕ) (w : Process)
    → Fits 8 tid
    → 2 ^ 31 ≤ tid
    → tid < 2 ^ 64 - 2 ^ 31
    → through_int tid ≢ 0
    → start ≢ null
    → let (handle, w₁) =
        create_thread undisturbed (some tid) random place start parameter false w in
      let (_, w₂) = terminate_thread cancel_rc handle code w₁ in
      let (_, w₃) = suspend_thread handle w₁ in
      (other : ℕ) × (other ≢ tid)
      × (w₂.actions ≡ cancels other ∷ starts tid start parameter ∷ w.actions)
      × (w₃.actions ≡ w₂.actions)
unfolding create_thread beginthread terminate_thread suspend_thread
terminate_thread-other tid rc code random place start parameter w f big below low s =
    let id = (get_thread_tid-reg_thread random place tid w.table f).1 in
    rw (ne→== start null s, id, ne→== (through_int tid) 0 low)
      elim (Bool-cases (rc == 0)) [
        | inl e ↦ (through_int tid, through_int-ne tid big below, rw e refl, rw e refl)
        | inr e ↦ (through_int tid, through_int-ne tid big below, rw e refl, rw e refl)
      ]
