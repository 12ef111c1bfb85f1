-- ===== src/Threads/ExitCode.antt =====
-- The exit code of a thread from `CreateThread` to `GetExitCodeThread`.
use learn_docs.Base.{
  ℕ, ◌≡◌, refl, ◌∙◌, inl, inr, true, some, List, ◌∷◌, ◌==◌, Bool-cases, if◌then◌else◌, ne→==,
}
use learn_docs.Handle.Ctx.{Fits, put_le}
use learn_docs.Handle.Table.{Table}
use learn_docs.Handle.ExitCode.{get_thread_exitcode-set}
use learn_docs.Handle.Object.{runs, set_thread_exitcode, get_thread_exitcode}
use learn_docs.Threads.Defs.{Process, ThreadAction, cancels, terminate_thread, get_exit_code_thread}
use learn_docs.Threads.Table.{update_first-found, get_thread_tid-set, Thread, Thread-tid}

-- The code that is stored for a thread is read.
stored :
    (handle tid code : ℕ) (t : Table)
    → Thread handle tid t
    → Fits 8 code
    → get_thread_exitcode tid (set_thread_exitcode tid code t).1 ≡ code
unfolding set_thread_exitcode
stored handle tid code t v f =
    let found =
      update_first-found (runs tid) (λ h. record h { ctx = put_le 8 8 code h.ctx }) handle v.entry t
        v.there v.is_runs in
    get_thread_exitcode-set tid code t f ∙ rw found refl

-- What `GetExitCodeThread` reads after a code was stored.
code-read :
    (handle tid code : ℕ) (w : Process)
    → Thread handle tid w.table
    → Fits 8 code
    → get_exit_code_thread handle true
        (record w { table = (set_thread_exitcode tid code w.table).1 })
      ≡ (true, some code)
unfolding get_exit_code_thread
code-read handle tid code w v f =
    rw
      (
        get_thread_tid-set handle tid code w.table,
        Thread-tid handle tid w.table v,
        ne→== tid 0 v.positive,
        stored handle tid code w.table v f,
      )
      refl

log-unread :
    (handle : ℕ) (actions : List ThreadAction) (w : Process)
    → get_exit_code_thread handle true (record w { actions = actions })
      ≡ get_exit_code_thread handle true w
unfolding get_exit_code_thread
log-unread handle actions w = refl

-- For a handle of a thread whose id is not 0 and below 2^31, `TerminateThread` with a code of 8
-- bytes returns TRUE and cancels that thread; where the cancellation succeeds
-- `GetExitCodeThread` gives the code afterwards, else what it gave before.
pub terminate_thread-get_exit_code_thread :
    (handle tid code cancel_rc : ℕ) (w : Process)
    → Thread handle tid w.table
    → Fits 8 code
    → let (terminated, w') = terminate_thread cancel_rc handle code w in
      (terminated ≡ true)
      × (w'.actions ≡ cancels tid ∷ w.actions)
      × (get_exit_code_thread handle true w'
          ≡ (if cancel_rc == 0 then (true, some code) else get_exit_code_thread handle true w))
unfolding terminate_thread
terminate_thread-get_exit_code_thread handle tid code rc w v f =
    let id = Thread-tid handle tid w.table v in
    let reads = code-read handle tid code (record w { actions = cancels tid ∷ w.actions }) v f in
    elim (Bool-cases (rc == 0)) [
      | inl e ↦ rw (id, ne→== tid 0 v.positive, e) (refl, refl, reads)
      | inr e ↦
          rw (id, ne→== tid 0 v.positive, e)
            (refl, refl, log-unread handle (cancels tid ∷ w.actions) w)
    ]
