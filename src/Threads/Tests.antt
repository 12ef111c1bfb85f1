-- ===== src/Threads/Tests.antt =====
-- The theorems at a concrete thread.
use learn_docs.Base.{ℕ, ◌≡◌, ◌≢◌, ◌∷◌, [], true, false, some, refl, arith}
use learn_docs.Handle.Types.{zero_header}
use learn_docs.Handle.Table.{has, find}
use learn_docs.Handle.Object.{fill_thread}
use learn_docs.Threads.Defs.{
  Process, Meanwhile, undisturbed, starts, cancels, create_thread, terminate_thread, suspend_thread,
  get_exit_code_thread, get_current_thread_id, get_current_thread,
}
use learn_docs.Threads.Table.{Thread, fill_thread-runs}
use learn_docs.Threads.ExitCode.{terminate_thread-get_exit_code_thread}
use learn_docs.Threads.Wide.{exits_if, create_thread-get_exit_code_thread}
use learn_docs.Threads.Current.{get_current_thread_id-again, terminate_thread-other}

abbrev no_threads : Process
no_threads = record { table = []; actions = [] }

-- The thread 5 under the handle 7.
abbrev one_thread : Process
one_thread = record { table = (7, fill_thread 7 5 zero_header) ∷ []; actions = [] }

seven-Thread : Thread 7 5 one_thread.table
unfolding find
seven-Thread = record {
  entry = fill_thread 7 5 zero_header;
  there = refl;
  is_runs = fill_thread-runs 7 5 (omega arith);
  positive = omega arith;
  small = omega arith;
}

terminate_thread-get_exit_code_thread_example :
    let (terminated, w') = terminate_thread 0 7 3 one_thread in
    (terminated ≡ true)
    × (w'.actions ≡ cancels 5 ∷ [])
    × (get_exit_code_thread 7 true w' ≡ (true, some 3))
terminate_thread-get_exit_code_thread_example =
    terminate_thread-get_exit_code_thread 7 5 3 0 one_thread seven-Thread (omega arith)

get_current_thread_id-again_example :
    let (id, w') = get_current_thread_id 9 11 0 one_thread in
    (id ≢ 0) × (get_current_thread_id 9 13 1 w' ≡ (id, w')) × (get_current_thread 9 w' ≡ id)
unfolding has
get_current_thread_id-again_example =
    get_current_thread_id-again 9 11 0 13 1 one_thread (omega arith) refl (omega arith)

abbrev linux_tid : ℕ
linux_tid = 140000000000000

terminate_thread-other_example :
    let (handle, w₁) = create_thread undisturbed (some linux_tid) 7 0 4096 0 false no_threads in
    let (_, w₂) = terminate_thread 0 handle 3 w₁ in
    let (_, w₃) = suspend_thread handle w₁ in
    (other : ℕ) × (other ≢ linux_tid)
    × (w₂.actions ≡ cancels other ∷ starts linux_tid 4096 0 ∷ [])
    × (w₃.actions ≡ w₂.actions)
terminate_thread-other_example =
    terminate_thread-other linux_tid 0 3 7 0 4096 0 no_threads (omega arith) (omega arith)
      (omega arith) (ground arith) (omega arith)

-- It ends before it is registered, and GetExitCodeThread is asked afterwards.
create_thread-get_exit_code_thread_example :
    let gaps : Meanwhile = record {
      started = λ w. exits_if true linux_tid 42 w;
      registered = λ w. exits_if false linux_tid 42 w;
      read_back = λ w. exits_if false linux_tid 42 w;
    } in
    let (handle, w₁) = create_thread gaps (some linux_tid) 7 0 4096 0 true no_threads in
    get_exit_code_thread handle true (exits_if true linux_tid 42 w₁) ≡ (true, some 0)
create_thread-get_exit_code_thread_example =
    create_thread-get_exit_code_thread linux_tid 42 7 0 4096 0 true false false true true no_threads
      (omega arith) (omega arith) (omega arith) (ground arith) tt (omega arith)
