-- ===== src/Files/System.antt =====
-- What FSPChecker/Compat takes from outside for files: boost::filesystem, std::regex and the POSIX
-- calls, over a state `S` of the system.
use learn_docs.Base.{ℕ, ◌≡◌, Bool, false, Option, some, List}
use learn_docs.Handle.Ctx.{Fits}
use learn_docs.Handle.Table.{Table}
use learn_docs.Files.Text.{Text}

-- `none` is an exception, or -1 of `read` and `write`. A descriptor is the bit pattern of an `int`.
pub record FileSystem (S : Type 0) : Type 0 where
  pub parent_path : Text → Text
  pub leaf : Text → Text
  pub regex_match : Text → Text → Option Bool
  pub exists : S → Text → Bool
  pub is_directory : S → Text → Bool
  pub is_regular_file : S → Text → Bool
  pub is_symlink : S → Text → Bool
  pub last_write_time : S → Text → ℕ
  pub file_size : S → Text → ℕ
  pub directory : S → Text → Option (List Text)
  pub open_file : Text → ℕ → ℕ → S → ℕ × S
  pub close : ℕ → S → S
  pub create_directories : Text → S → Option (Bool × S)
  pub remove : Text → S → Option (Bool × S)
  pub copy : Text → Text → S → Option S
  pub read : ℕ → ℕ → S → Option (List ℕ) × S
  pub write : ℕ → List ℕ → S → Option ℕ × S

abbrev pub o_path : ℕ
o_path = 0x200000

-- Opening for `O_PATH`, which neither makes a file nor opens one for access, and closing change no
-- directory; `open` gives an `int`.
pub record Quiet {S : Type 0} (fs : FileSystem S) : Type 0 where
  pub directory-open :
      (s : S) (p d : Text) → fs.directory (fs.open_file p o_path 0 s).1 d ≡ fs.directory s d
  pub directory-close :
      (s : S) (fd : ℕ) (d : Text) → fs.directory (fs.close fd s) d ≡ fs.directory s d
  pub exists-open : (s : S) (p q : Text) → fs.exists (fs.open_file p o_path 0 s).1 q ≡ fs.exists s q
  pub exists-close : (s : S) (fd : ℕ) (q : Text) → fs.exists (fs.close fd s) q ≡ fs.exists s q
  pub open-Fits : (s : S) (p : Text) → Fits 4 (fs.open_file p o_path 0 s).0

-- What boost::filesystem says of `remove` where it throws nothing: the name is gone.
pub record Removes {S : Type 0} (fs : FileSystem S) : Type 0 where
  pub removed :
      (p : Text) (b : Bool) (s s' : S) → fs.remove p s ≡ some (b, s') → fs.exists s' p ≡ false

-- The handle table and the system.
pub record World (S : Type 0) : Type 0 where
  pub table : Table
  pub system : S
