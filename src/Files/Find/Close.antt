-- ===== src/Files/Find/Close.antt =====
-- Closing a search: `FindClose` of FSPChecker/Compat/fileapi.cpp.
use learn_docs.Base.{
  ℕ, ◌≡◌, ◌≢◌, refl, inl, inr, true, false, List, ◌==◌, Bool-cases, if◌then◌else◌, ne→==,
}
use learn_docs.Handle.Types.{HandleType}
use learn_docs.Handle.Table.{Distinct}
use learn_docs.Handle.File.{get_fd, minus_one}
use learn_docs.Handle.Object.{type_get}
use learn_docs.Handle.Erase.{get_fd-erased, type_get-erased, erased-OthersKept}
use learn_docs.Handle.Roundtrip.{OthersKept}
use learn_docs.Files.Text.{Text, to_slashes, is_wild, sort}
use learn_docs.Files.System.{FileSystem, Quiet, World}
use learn_docs.Files.Find.{
  FindData, exhausted, next_match, leaf_matches, find_next_file_a, find_close, after_next,
}
use learn_docs.Files.Find.Step.{Ready, next_lem}

module _ {S : Type 0} (fs : FileSystem S) where
  -- In a table with distinct keys, `FindClose` closes the descriptor of the handle and returns
  -- TRUE, or returns FALSE where there is none; it takes the handle out of the table and leaves
  -- every other entry, and a second call returns FALSE and closes nothing.
  pub find_close_lem :
      (h : ℕ) (w : World S)
      → Distinct w.table
      → let (closed, w') = find_close fs h w in
        let (again, w'') = find_close fs h w' in
        (closed ≡ (if get_fd h w.table == minus_one then false else true))
        × (w'.system ≡ (
            if get_fd h w.table == minus_one
            then w.system
            else fs.close (get_fd h w.table) w.system))
        × (type_get h w'.table ≡ HandleType.invalid)
        × OthersKept h w.table w'.table
        × (again ≡ false)
        × (w''.system ≡ w'.system)
  unfolding find_close
  find_close_lem h w d =
      let no_fd = get_fd-erased h w.table d in
      let gone = type_get-erased h w.table d in
      let kept = erased-OthersKept h w.table d in
      elim (Bool-cases (get_fd h w.table == minus_one)) [
        | inl e ↦ rw e (refl, refl, gone, kept, rw no_fd refl, rw no_fd refl)
        | inr e ↦ rw e (refl, refl, gone, kept, rw no_fd refl, rw no_fd refl)
      ]

module _ {S : Type 0} (fs : FileSystem S) (quiet : Quiet fs) (name : Text) (paths : List Text) where
  -- Where opening for O_PATH gives an int and neither it nor closing changes a directory: at the
  -- end of an enumeration with wildcards in the last part of its pattern, for a handle with a
  -- descriptor that is not -1, where the last path that was found is in the listing and no later
  -- one matches, `FindNextFileA` returns FALSE, closes the descriptor and keeps it in the
  -- handle, and `FindClose` closes it again.
  pub find_next-find_close :
      (h : ℕ) (last : Text) (d : FindData) (w : World S)
      → to_slashes name ≡ name
      → is_wild name ≡ true
      → is_wild (fs.parent_path name) ≡ false
      → Ready fs quiet name paths h last w
      → next_match (leaf_matches fs name) last (sort paths) ≡ (true, exhausted)
      → get_fd h w.table ≢ minus_one
      → let (more, d', w') = find_next_file_a fs h d w in
        let fd = get_fd h w.table in
        (more ≡ false)
        × (get_fd h w'.table ≡ fd)
        × ((find_close fs h w').1.system ≡ fs.close fd (fs.close fd w.system))
  unfolding find_close after_next
  find_next-find_close h last d w slashed wild plain ready e n =
      rw (next_lem fs quiet name paths slashed wild plain h last d w ready exhausted e)
        (refl, refl, rw (ne→== (get_fd h w.table) minus_one n) refl)
