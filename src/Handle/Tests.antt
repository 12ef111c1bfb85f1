-- ===== src/Handle/Tests.antt =====
-- Runs over small tables, and the theorems at concrete calls.
use learn_docs.Base.{◌+◌, ◌≤◌, ◌<◌, ◌^◌, ◌≡◌, refl, false, [], ◌∷◌, arith, replicate}
use learn_docs.Handle.Types.{Header, HandleType, zero_header}
use learn_docs.Handle.Table.{Table, has, insert, update}
use learn_docs.Handle.Keys.{new_key_get, probe, new_key_get-bounded, above}
use learn_docs.Handle.File.{reg_fd, get_fd, get_fd_path, get_fd_find_pattern}
use learn_docs.Handle.Object.{fill_mutex, mutex_reg, mutex_find_by_name, type_get}
use learn_docs.Handle.Invariant.{regs_fd, regs_thread, erases, run, IsValid, run-IsValid}
use learn_docs.Handle.Roundtrip.{OthersKept, reg_fd_lem}
use learn_docs.Handle.Search.{mutex_find_by_name_long}

-- One mutex named "m" under key 5, at address 4096 with its attributes at 8192.
abbrev mutex_entry : Header
mutex_entry = fill_mutex 5 4096 8192 (109 ∷ []) zero_header

abbrev one_mutex : Table
one_mutex = (5, mutex_entry) ∷ []

mutex_registered : (mutex_reg 5 0 4096 8192 (109 ∷ []) []).1 ≡ one_mutex
unfolding mutex_reg new_key_get probe update insert has
mutex_registered = refl

taken_key : (new_key_get 5 0 one_mutex).0 ≡ 6
unfolding new_key_get probe has
taken_key = refl

new_key_get-bounded_example :
    let key = (new_key_get 5 0 one_mutex).0 in
    (has key one_mutex ≡ false) × (5 ≤ key) × (key ≤ 5 + above 5 one_mutex) × (key < 2 ^ 31)
new_key_get-bounded_example = new_key_get-bounded 5 0 one_mutex (omega arith)

run-IsValid_example : IsValid (run (regs_thread 3 0 77 ∷ regs_fd 3 0 4 [] [] ∷ erases 3 ∷ []) [])
run-IsValid_example =
    run-IsValid (regs_thread 3 0 77 ∷ regs_fd 3 0 4 [] [] ∷ erases 3 ∷ []) []
      (record { distinct = tt; keyed = tt })

reg_fd_lem_example :
    let (handle, t') = reg_fd 5 0 3 (97 ∷ 98 ∷ []) (42 ∷ []) one_mutex in
    (type_get handle t' ≡ HandleType.file)
    × (get_fd handle t' ≡ 3)
    × (get_fd_path handle t' ≡ 97 ∷ 98 ∷ [])
    × (get_fd_find_pattern handle t' ≡ 42 ∷ [])
    × OthersKept handle one_mutex t'
reg_fd_lem_example =
    reg_fd_lem 5 0 3 (97 ∷ 98 ∷ []) (42 ∷ []) one_mutex (omega arith) (omega arith) (omega arith)
      (omega arith) (omega arith)

mutex_find_by_name_long_example :
    mutex_find_by_name (replicate 300 97) (mutex_reg 9 0 16 32 (replicate 300 97) one_mutex).1
    ≡ mutex_find_by_name (replicate 300 97) one_mutex
mutex_find_by_name_long_example =
    mutex_find_by_name_long 9 0 16 32 (replicate 300 97) one_mutex (omega arith)
