-- ===== src/Files/Paths.antt =====
-- Attributes, directories, deletion, copies and moves: `GetFileAttributesA`, `CreateDirectoryA`,
-- `RemoveDirectoryA` and `DeleteFileA` of FSPChecker/Compat/fileapi.cpp, `CopyFileA` and `MoveFileA` of winbase.cpp, and
-- `_mkdir` of direct.cpp.
use mathlib.Core.Option
use learn_docs.Base.{
  ℕ, ◌+◌, ◌-◌, ◌^◌, ◌≡◌, refl, subst, Bool, true, false, not, ◌&&◌, ◌||◌, Option, none, some, List,
  [], ◌∷◌, if◌then◌else◌, arith, inl, inr, Option-cases, Bool-cases, ◌⊎◌, ℤ, pos, negsuc,
}
use learn_docs.Files.Text.{Text}
use learn_docs.Files.System.{FileSystem, Removes}
use learn_docs.Files.Find.{attribute_directory}

-- `(DWORD)-1`
abbrev pub invalid_file_attributes : ℕ
invalid_file_attributes = 2 ^ 64 - 1

abbrev pub attribute_normal : ℕ
attribute_normal = 0x80

abbrev pub attribute_reparse_point : ℕ
attribute_reparse_point = 0x400

-- A `catch` that logs: an exception leaves the answer FALSE and the system as the call left it.
abbrev pub caught {ℓ} : {S : Type ℓ} → S → Option (Bool × S) → Bool × S
caught s none = (false, s)
caught s (some r) = r

-- No path stands in the directory.
abbrev pub no_entries : Option (List Text) → Bool
no_entries (some []) = true
no_entries (some (p ∷ ps)) = false
no_entries none = false

module _ {S : Type 0} (fs : FileSystem S) where
  unfoldable pub get_file_attributes_a : Option Text → S → ℕ
  get_file_attributes_a none s = invalid_file_attributes
  get_file_attributes_a (some p) s =
      if fs.exists s p
      then if fs.is_regular_file s p
        then attribute_normal
        else (if fs.is_directory s p then attribute_directory else 0)
          + (if fs.is_symlink s p then attribute_reparse_point else 0)
      else invalid_file_attributes

  unfoldable pub create_directory_a : Option Text → S → Bool × S
  create_directory_a none s = (false, s)
  create_directory_a (some p) s =
      if fs.exists s p then (false, s) else caught s (fs.create_directories p s)

  unfoldable pub remove_directory_a : Option Text → S → Bool × S
  remove_directory_a none s = (false, s)
  remove_directory_a (some p) s =
      if fs.exists s p && (fs.is_directory s p && no_entries (fs.directory s p))
      then caught s (fs.remove p s)
      else (false, s)

  unfoldable pub delete_file_a : Option Text → S → Bool × S
  delete_file_a none s = (false, s)
  delete_file_a (some p) s =
      if fs.exists s p && (fs.is_regular_file s p || fs.is_symlink s p)
      then caught s (fs.remove p s)
      else (false, s)

  -- `_mkdir` has no `catch`: `none` is the exception that leaves it.
  unfoldable pub mkdir : Option Text → S → Option (ℤ × S)
  mkdir none s = some (negsuc 0, s)
  mkdir (some p) s =
      if fs.exists s p
      then some (negsuc 0, s)
      else Option.map (λ r. (if r.0 then pos 0 else negsuc 0, r.1)) (fs.create_directories p s)

  -- The same of `CopyFileA` and `MoveFileA`.
  unfoldable pub copied_to : Text → Text → Option S → Option (Bool × S)
  copied_to src dst none = none
  copied_to src dst (some s) = Option.map (λ s'. (true, s')) (fs.copy src dst s)

  unfoldable pub copy_file_a : Option Text → Option Text → Bool → S → Option (Bool × S)
  copy_file_a none dst fail_if_exists s = some (false, s)
  copy_file_a (some src) none fail_if_exists s = some (false, s)
  copy_file_a (some src) (some dst) fail_if_exists s =
      if not (fs.exists s src)
      then some (false, s)
      else if fs.exists s dst
      then if fail_if_exists
        then some (false, s)
        else copied_to src dst (Option.map (λ r. r.1) (fs.remove dst s))
      else copied_to src dst (some s)

  unfoldable pub moved_from : Text → Option S → Option (Bool × S)
  moved_from src none = none
  moved_from src (some s) = Option.map (λ r. (true, r.1)) (fs.remove src s)

  unfoldable pub move_file_a : Option Text → Option Text → S → Option (Bool × S)
  move_file_a none dst s = some (false, s)
  move_file_a (some src) none s = some (false, s)
  move_file_a (some src) (some dst) s =
      if not (fs.exists s src) || fs.exists s dst
      then some (false, s)
      else moved_from src (fs.copy src dst s)

module _ {S : Type 0} (fs : FileSystem S) (removes : Removes fs) where
  -- Where `DeleteFileA` returns TRUE, the path existed as a file or a link, `remove` was called,
  -- and `GetFileAttributesA` gives INVALID_FILE_ATTRIBUTES for it afterwards; a path that is
  -- neither is never removed.
  pub delete_file_a-gone :
      (p : Text) (s : S)
      → let (deleted, s') = delete_file_a fs (some p) s in
        (deleted ≡ true
          → (fs.exists s p ≡ true)
            × ((fs.is_regular_file s p || fs.is_symlink s p) ≡ true)
            × (get_file_attributes_a fs (some p) s' ≡ invalid_file_attributes))
        × (fs.is_regular_file s p ≡ false
            → fs.is_symlink s p ≡ false
            → delete_file_a fs (some p) s ≡ (false, s))
  unfolding delete_file_a get_file_attributes_a
  delete_file_a-gone p s = (
    λ e. elim (Option-cases (fs.remove p s)) [
      | inl r ↦ ground arith
      | inr ((b, s₁), r) ↦ ground (arith, removes.removed p b s s₁)
    ],
    λ f g. ground arith,
  )

  -- Where `RemoveDirectoryA` returns TRUE, the path was a directory without entries, and
  -- `GetFileAttributesA` gives INVALID_FILE_ATTRIBUTES for it afterwards; a directory with an
  -- entry is left.
  pub remove_directory_a-gone :
      (p : Text) (s : S)
      → let (removed, s') = remove_directory_a fs (some p) s in
        (removed ≡ true
          → (fs.is_directory s p ≡ true)
            × (no_entries (fs.directory s p) ≡ true)
            × (get_file_attributes_a fs (some p) s' ≡ invalid_file_attributes))
        × ((q : Text) (qs : List Text)
            → fs.directory s p ≡ some (q ∷ qs)
            → remove_directory_a fs (some p) s ≡ (false, s))
  unfolding remove_directory_a get_file_attributes_a
  remove_directory_a-gone p s = (
    λ e. elim (Option-cases (fs.remove p s)) [
      | inl r ↦ ground arith
      | inr ((b, s₁), r) ↦ ground (arith, removes.removed p b s s₁)
    ],
    λ q qs e. ground (arith, e),
  )

  -- Where boost::filesystem throws nothing and what it removes is gone, `MoveFileA` returns TRUE
  -- where the old name existed and the new one did not, the file was copied from the one to the
  -- other, and `GetFileAttributesA` gives INVALID_FILE_ATTRIBUTES for the old name afterwards;
  -- or it returns FALSE and changes nothing, where the old name did not exist or the new one
  -- did.
  pub move_file_a-moved :
      (src dst : Text) (b : Bool) (s s' : S)
      → move_file_a fs (some src) (some dst) s ≡ some (b, s')
      → ((s₁ : S) × (b ≡ true)
          × (fs.exists s src ≡ true)
          × (fs.exists s dst ≡ false)
          × (fs.copy src dst s ≡ some s₁)
          × (get_file_attributes_a fs (some src) s' ≡ invalid_file_attributes))
        ⊎ ((b ≡ false) × (s' ≡ s) × ((fs.exists s src ≡ false) ⊎ (fs.exists s dst ≡ true)))
  unfolding move_file_a moved_from get_file_attributes_a
  move_file_a-moved src dst b s s' e = elim (Bool-cases (fs.exists s src)) [
    | inr x ↦ inr (ground arith, ground arith, inl x)
    | inl x ↦ elim (Bool-cases (fs.exists s dst)) [
      | inl y ↦ inr (ground arith, ground arith, inr y)
      | inr y ↦ elim (Option-cases (fs.copy src dst s)) [
        | inl c ↦ absurd (ground arith)
        | inr (s₁, c) ↦ elim (Option-cases (fs.remove src s₁)) [
          | inl r ↦ absurd (ground arith)
          | inr ((b', s₂), r) ↦
              let gone = removes.removed src b' s₁ s₂ r in
              let same : s₂ ≡ s' = ground arith in
              inl (
                s₁,
                ground arith,
                x,
                y,
                c,
                subst (λ (z : S). get_file_attributes_a fs (some src) z ≡ invalid_file_attributes)
                    same (rw gone refl),
              )
        ]
      ]
    ]
  ]
