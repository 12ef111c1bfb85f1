-- ===== src/Files/Io.antt =====
-- `ReadFile` and `WriteFile` of FSPChecker/Compat/fileapi.cpp, without overlapped transfers, which the code
-- has not.
use learn_docs.Base.{
  ℕ, ◌+◌, ◌^◌, ◌<◌, ◌≡◌, ◌≢◌, ◌⊎◌, refl, sym, subst, ◌∙◌, Bool, true, false, not, ◌&&◌, Option,
  none, some, List, ◌==◌, if◌then◌else◌, arith, Bool-cases, inl, inr, ne→==, length, Option-cases,
}
use learn_docs.Handle.File.{get_fd, minus_one}
use learn_docs.Handle.Ctx.{Fits, NoNul, text_size}
use learn_docs.Files.Text.{Text}
use learn_docs.Files.Find.{invalid_handle_value}
use learn_docs.Files.Create.{Plan, open_flags, with_parent, disposition, create_file_a}
use learn_docs.Files.Create.Handle.{create_file_a-handle}
use learn_docs.Files.System.{FileSystem, World}

-- What a transfer leaves: the BOOL, `*lpNumberOfBytes…`, and what is in the buffer, if anything new is.
pub record Transfer : Type 0 where
  pub succeeded : Bool
  pub count : ℕ
  pub content : Option (List ℕ)

abbrev pub no_transfer : Transfer
no_transfer = record { succeeded = false; count = 0; content = none }

-- How many bytes a `read` gave, 0 where it failed.
abbrev pub bytes_read : Option (List ℕ) → ℕ
bytes_read none = 0
bytes_read (some bytes) = length bytes

module _ {S : Type 0} (fs : FileSystem S) where
  -- `bytesRead >= -1`
  unfoldable pub after_read : Option (List ℕ) → Transfer
  after_read none = record { succeeded = true; count = 0; content = none }
  after_read (some bytes) = record { succeeded = true; count = length bytes; content = some bytes }

  -- `buffer` says whether `lpBuffer` is not null.
  unfoldable pub read_file : ℕ → Bool → ℕ → World S → Transfer × World S
  read_file handle buffer wanted w =
      let fd = get_fd handle w.table in
      let (bytes, s) = fs.read fd wanted w.system in
      if buffer && not (fd == minus_one)
      then (after_read bytes, record w { system = s })
      else (no_transfer, w)

  -- `bytesWrite > -1`
  unfoldable pub after_write : Option ℕ → Transfer
  after_write none = no_transfer
  after_write (some n) = record { succeeded = true; count = n; content = none }

  -- `none` is a null `lpBuffer`.
  unfoldable pub write_file : ℕ → Option (List ℕ) → World S → Transfer × World S
  write_file handle none w = (no_transfer, w)
  write_file handle (some bytes) w =
      let fd = get_fd handle w.table in
      let (n, s) = fs.write fd bytes w.system in
      if not (fd == minus_one) then (after_write n, record w { system = s }) else (no_transfer, w)

  -- `WriteFile` returns TRUE with the number of bytes that `write` wrote, where the handle has a
  -- descriptor and `write` succeeded, else FALSE with 0; the table is as before.
  pub write_file_lem :
      (handle : ℕ) (bytes : List ℕ) (w : World S)
      → let fd = get_fd handle w.table in
        let (t, w') = write_file handle (some bytes) w in
        (((n : ℕ) × (fd ≢ minus_one)
            × ((fs.write fd bytes w.system).0 ≡ some n)
            × (t.succeeded ≡ true)
            × (t.count ≡ n))
          ⊎ (((fd ≡ minus_one) ⊎ ((fs.write fd bytes w.system).0 ≡ none))
              × (t.succeeded ≡ false)
              × (t.count ≡ 0)))
        × (w'.table ≡ w.table)
  unfolding write_file after_write
  write_file_lem handle bytes w =
      let fd = get_fd handle w.table in
      elim (Bool-cases (fd == minus_one)) [
        | inl e ↦ rw e (inr (inl (ground arith), refl, refl), refl)
        | inr e ↦ elim (Option-cases (fs.write fd bytes w.system).0) [
          | inl f ↦ rw (e, f) (inr (inr refl, refl, refl), refl)
          | inr (n, f) ↦ rw (e, f) (inl (n, ground arith, refl, refl, refl), refl)
        ]
      ]

  -- `ReadFile` does not report a failure of `read`: for a buffer and a descriptor that is not -1
  -- it returns TRUE whatever `read` gave, with the bytes that it gave and their number, which is
  -- 0 where `read` gave -1.
  pub read_file-succeeded :
      (handle wanted : ℕ) (w : World S)
      → get_fd handle w.table ≢ minus_one
      → let (bytes, s) = fs.read (get_fd handle w.table) wanted w.system in
        let (t, w') = read_file handle true wanted w in
        (t.succeeded ≡ true) × (t.content ≡ bytes) × (t.count ≡ bytes_read bytes) × (w'.system ≡ s)
  unfolding read_file after_read
  read_file-succeeded handle wanted w n =
      elim (Option-cases (fs.read (get_fd handle w.table) wanted w.system).0) [
        | inl e ↦ rw (ne→== (get_fd handle w.table) minus_one n, e) (refl, refl, refl, refl)
        | inr (b, e) ↦ rw (ne→== (get_fd handle w.table) minus_one n, e) (refl, refl, refl, refl)
      ]

module _ {S : Type 0} (fs : FileSystem S) where
  -- For a path without NUL and shorter than 255 bytes, where the disposition is granted, no file
  -- system call throws, and `open` fails, `CreateFileA` still returns a handle that is not
  -- INVALID_HANDLE_VALUE (a random start plus the entries below 2^31), and every `ReadFile` and
  -- `WriteFile` of it returns FALSE with 0 bytes and does nothing.
  pub create_file_a-open_failed :
      (random place access d attributes wanted : ℕ) (bytes : List ℕ) (path : Text) (w : World S)
      (s s' : S) (p : Plan)
      → with_parent fs path w.system ≡ some s
      → disposition fs d path s ≡ some (p, s')
      → p.valid ≡ true
      → NoNul path
      → length path < text_size
      → random + length w.table + 1 < 2 ^ 31
      → (fs.open_file path (open_flags fs access attributes p) p.mode s').0 ≡ minus_one
      → let (handle, w') = create_file_a fs random place (some path) access d attributes w in
        (handle ≢ invalid_handle_value)
        × (read_file fs handle true wanted w' ≡ (no_transfer, w'))
        × (write_file fs handle (some bytes) w' ≡ (no_transfer, w'))
  unfolding read_file write_file
  create_file_a-open_failed random place access d attributes wanted bytes path w s s' p e f v nn
        short small failed =
      let (valid, _, gives, _, _, _) =
        create_file_a-handle fs random place access d attributes path w s s' p e f v nn short small
          (subst (Fits 4) (sym failed) (omega arith)) in
      let no_fd = gives ∙ failed in (valid, rw no_fd refl, rw no_fd refl)
