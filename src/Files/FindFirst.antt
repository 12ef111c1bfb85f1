-- ===== src/Files/FindFirst.antt =====
-- `_findfirst` and `_findclose` of FSPChecker/Compat/io.cpp.
use learn_docs.Base.{
  ℕ, ◌+◌, ◌*◌, ◌^◌, ◌<◌, ◌≤◌, ◌≡◌, ◌≢◌, refl, ap, ◌∙◌, true, false, Option, none, some, ◌==◌,
  if◌then◌else◌, arith, Bool-cases, inl, inr, ne→==, ℤ, pos, negsuc, length,
}
use learn_docs.Handle.File.{reg_fd}
use learn_docs.Handle.Keys.{new_key_get, new_key_get_fresh}
use learn_docs.Files.Text.{Text, is_empty, to_slashes, is_wild}
use learn_docs.Files.System.{o_path, FileSystem, World}
use learn_docs.Files.Times.{FileTime, epoch, write_time, time_write, time_write-write_time}
use learn_docs.Files.Find.{
  zero_data, find_first_file_a, find_close, open_first, invalid_handle_value, first_data,
}

module _ {S : Type 0} (fs : FileSystem S) where
  -- The handle, and `time_write` where it is set.
  unfoldable pub findfirst : ℕ → ℕ → Option Text → World S → ℕ × Option ℕ × World S
  findfirst random place none w = (invalid_handle_value, none, w)
  findfirst random place (some spec) w =
      let (handle, d, w') = find_first_file_a fs random place (some spec) zero_data w in
      if handle == invalid_handle_value
      then (invalid_handle_value, none, w')
      else (handle, some (time_write d.last_write_time), w')

  unfoldable pub findclose : ℕ → World S → ℤ × World S
  findclose handle w =
      let (closed, w') = find_close fs handle w in (if closed then pos 0 else negsuc 0, w')

  first_data-time :
      (s : S) (p : Text)
      → (first_data fs s p zero_data).last_write_time ≡ write_time (fs.last_write_time s p)
  first_data-time s p = elim (Bool-cases (fs.is_regular_file s p)) [
    | inl e ↦ rw e refl
    | inr e ↦ rw e refl
  ]

  -- For a name without wildcards of a path that exists, `_findfirst` gives a handle that is not
  -- -1 and the time of the last write in `time_write`, up to the last second that a FILETIME of
  -- 64 bits can hold; for one that does not exist it gives -1 and changes nothing.
  pub findfirst_lem :
      (random place : ℕ) (spec : Text) (w : World S)
      → let name = to_slashes spec in
        let s = (fs.open_file name o_path 0 w.system).1 in
        is_wild name ≡ false
        → is_empty name ≡ false
        → random + length w.table + 1 < 2 ^ 31
        → fs.last_write_time s name * 10000000 + epoch < 2 ^ 64
        → let (handle, time, w') = findfirst random place (some spec) w in
          (fs.exists w.system name ≡ true
            → (handle ≢ invalid_handle_value)
              × (time ≡ some (fs.last_write_time s name))
              × (w'.system ≡ s))
          × (fs.exists w.system name ≡ false
              → findfirst random place (some spec) w ≡ (invalid_handle_value, none, w))
  unfolding findfirst find_first_file_a open_first reg_fd
  findfirst_lem random place spec w plain named small early =
      let name = to_slashes spec in
      let s = (fs.open_file name o_path 0 w.system).1 in
      let key = (new_key_get random place w.table).0 in
      let below : key ≤ random + length w.table + 1 = (new_key_get_fresh random place w.table).2 in
      let valid : (key == invalid_handle_value) ≡ false = ne→== key _ (omega (arith, below)) in
      (
        λ there.
            rw (plain, named, there)
              (rw valid (
                λ same. omega (arith, below, same),
                ap (λ (t : FileTime). some (time_write t)) (first_data-time s name)
                    ∙ ap some (time_write-write_time (fs.last_write_time s name) early),
                refl,
              )),
        λ gone. rw (plain, named, gone) refl,
      )
