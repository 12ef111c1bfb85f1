-- ===== src/Files/Create/Handle.antt =====
-- The handle that and `open` gives an
-- `int`, `CreateFileA` returns.
use learn_docs.Base.{ℕ, ◌+◌, ◌^◌, ◌<◌, ◌≡◌, ◌≢◌, refl, true, some, [], arith, length}
use learn_docs.Handle.Types.{HandleType}
use learn_docs.Handle.Ctx.{Fits, NoNul, text_size}
use learn_docs.Handle.File.{reg_fd, get_fd, get_fd_path}
use learn_docs.Handle.Keys.{new_key_get_fresh}
use learn_docs.Handle.Object.{type_get}
use learn_docs.Handle.Roundtrip.{reg_fd_lem, OthersKept}
use learn_docs.Files.Text.{Text}
use learn_docs.Files.System.{FileSystem, World}
use learn_docs.Files.Find.{invalid_handle_value}
use learn_docs.Files.Create.{
  Plan, disposition, with_parent, open_flags, open_plan, after_parent, create_file_a,
}

module _ {S : Type 0} (fs : FileSystem S) where
  -- Where the disposition is granted, and `open` gives an
  -- `int`, `CreateFileA` returns a handle that is not
  -- INVALID_HANDLE_VALUE, of the type FILE, with the path and with what `open` gave as its
  -- descriptor, also where `open` failed and gave -1.
  pub create_file_a-handle :
      (random place access d attributes : ℕ) (path : Text) (w : World S) (s s' : S) (p : Plan)
      → with_parent fs path w.system ≡ some s
      → disposition fs d path s ≡ some (p, s')
      → p.valid ≡ true
      → NoNul path
      → length path < text_size
      → random + length w.table + 1 < 2 ^ 31
      → Fits 4 (fs.open_file path (open_flags fs access attributes p) p.mode s').0
      → let (handle, w') = create_file_a fs random place (some path) access d attributes w in
        let (fd, s'') = fs.open_file path (open_flags fs access attributes p) p.mode s' in
        (handle ≢ invalid_handle_value)
        × (type_get handle w'.table ≡ HandleType.file)
        × (get_fd handle w'.table ≡ fd)
        × (get_fd_path handle w'.table ≡ path)
        × OthersKept handle w.table w'.table
        × (w'.system ≡ s'')
  unfolding create_file_a after_parent open_plan reg_fd
  create_file_a-handle random place access d attributes path w s s' p e f v nn short small fits =
      let flags = open_flags fs access attributes p in
      let (fd, s'') = fs.open_file path flags p.mode s' in
      let (is_file, gives, path', _, others) =
        reg_fd_lem random place fd path [] w.table fits nn short tt (omega arith) in
      let below = (new_key_get_fresh random place w.table).2 in
      rw (e, f, v) (λ same. omega (arith, below, same), is_file, gives, path', others, refl)
