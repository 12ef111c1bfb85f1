-- ===== src/Files/Create.antt =====
-- `CreateFileA` of FSPChecker/Compat/fileapi.cpp. The flags are those of Linux, and each `|=` sets bits that
-- are not set yet.
pub mod Documented
pub mod Handle
use mathlib.Core.Option
use learn_docs.Base.{
  ℕ, ◌+◌, ◌/◌, ◌%◌, ◌^◌, ◌≤◌, ◌<◌, ◌≡◌, ◌≢◌, ◌⊎◌, refl, ◌∙◌, Bool, true, false, ◌&&◌, Option, none,
  some, [], ◌==◌, if◌then◌else◌, arith, Bool-cases, inl, inr, length, Option-cases,
}
use learn_docs.Handle.Types.{HandleType}
use learn_docs.Handle.Ctx.{NoNul, text_size}
use learn_docs.Handle.File.{reg_fd, get_fd, get_fd_path}
use learn_docs.Handle.Keys.{new_key_get_fresh}
use learn_docs.Handle.Object.{type_get}
use learn_docs.Handle.Roundtrip.{reg_fd_lem, OthersKept}
use learn_docs.Files.Text.{Text}
use learn_docs.Files.System.{FileSystem, World}
use learn_docs.Files.Find.{invalid_handle_value}

-- `x & (1 << n)`
abbrev pub has_bit : ℕ → ℕ → Bool
has_bit n x = (x / 2 ^ n) % 2 == 1

abbrev pub create_new : ℕ
create_new = 1

abbrev pub create_always : ℕ
create_always = 2

abbrev pub open_existing : ℕ
open_existing = 3

abbrev pub open_always : ℕ
open_always = 4

abbrev pub truncate_existing : ℕ
truncate_existing = 5

abbrev pub o_creat : ℕ
o_creat = 0x40

abbrev pub o_trunc : ℕ
o_trunc = 0x200

abbrev pub o_direct : ℕ
o_direct = 0x4000

abbrev pub o_sync : ℕ
o_sync = 0x101000

-- S_IRUSR | S_IWUSR
abbrev pub user_mode : ℕ
user_mode = 384

-- O_RDWR, O_WRONLY or O_RDONLY.
unfoldable pub access_flags : ℕ → ℕ
access_flags access =
    if has_bit 31 access && has_bit 30 access then 2 else if has_bit 30 access then 1 else 0

unfoldable pub attribute_flags : ℕ → ℕ
attribute_flags attributes =
    if has_bit 31 attributes then o_sync else if has_bit 29 attributes then o_direct else 0

-- What the switch over `dwCreationDisposition` leaves: `paramsValid`, `flags`, `mode`.
pub record Plan : Type 0 where
  pub valid : Bool
  pub flags : ℕ
  pub mode : ℕ

abbrev pub plan : Bool → ℕ → ℕ → Plan
plan v f m = record { valid = v; flags = f; mode = m }

module _ {S : Type 0} (fs : FileSystem S) where
  unfoldable pub disposition : ℕ → Text → S → Option (Plan × S)
  disposition d path s =
      if d == create_always
      then if fs.exists s path
        then Option.map (λ r. (plan true o_creat user_mode, r.1)) (fs.remove path s)
        else some (plan true o_creat user_mode, s)
      else if d == create_new
      then some (plan true 0 0, s)
      else if d == open_always
      then some (if fs.exists s path then plan true 0 0 else plan true o_creat user_mode, s)
      else if d == open_existing
      then some (plan (fs.exists s path) 0 0, s)
      else if d == truncate_existing
      then some (if fs.exists s path then plan true o_trunc 0 else plan false 0 0, s)
      else some (plan false 0 0, s)

  -- The directory of the file, made where it is missing.
  unfoldable pub with_parent : Text → S → Option S
  with_parent path s =
      if fs.exists s (fs.parent_path path)
      then some s
      else Option.map (λ r. r.1) (fs.create_directories (fs.parent_path path) s)

  abbrev pub open_flags : ℕ → ℕ → Plan → ℕ
  open_flags access attributes p = access_flags access + p.flags + attribute_flags attributes

  unfoldable pub open_plan : ℕ → ℕ → Text → ℕ → ℕ → World S → Option (Plan × S) → ℕ × World S
  open_plan random place path access attributes w none = (invalid_handle_value, w)
  open_plan random place path access attributes w (some (p, s)) =
      let (fd, s') = fs.open_file path (open_flags access attributes p) p.mode s in
      let (handle, t) = reg_fd random place fd path [] w.table in
      if p.valid
      then (handle, record { table = t; system = s' })
      else (invalid_handle_value, record w { system = s })

  -- An exception leaves the system as it was before the call that threw.
  unfoldable pub after_parent : ℕ → ℕ → Text → ℕ → ℕ → ℕ → World S → Option S → ℕ × World S
  after_parent random place path access d attributes w none = (invalid_handle_value, w)
  after_parent random place path access d attributes w (some s) =
      open_plan random place path access attributes (record w { system = s }) (disposition d path s)

  unfoldable pub create_file_a : ℕ → ℕ → Option Text → ℕ → ℕ → ℕ → World S → ℕ × World S
  create_file_a random place none access d attributes w = (invalid_handle_value, w)
  create_file_a random place (some path) access d attributes w =
      after_parent random place path access d attributes w (with_parent path w.system)
