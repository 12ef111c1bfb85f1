-- ===== src/Files/Find.antt =====
-- `FindFirstFileA`, `FindNextFileA` and `FindClose` of FSPChecker/Compat/fileapi.cpp.
pub mod Walk
pub mod Step
pub mod Enumerate
pub mod Sorted
pub mod Close
use learn_docs.Base.{
  ℕ, ◌+◌, ◌-◌, ◌||◌, ◌*◌, ◌/◌, ◌%◌, ◌^◌, Bool, true, false, not, ◌&&◌, Option, none, some, List, [],
  ◌∷◌, ◌==◌, if◌then◌else◌, take,
}
use learn_docs.Handle.Table.{Table}
use learn_docs.Handle.File.{reg_fd, update_fd, get_fd, get_fd_path, get_fd_find_pattern, minus_one}
use learn_docs.Handle.Object.{text_eq, compat_handle_erase}
use learn_docs.Files.Text.{Text, is_empty, to_slashes, to_regex, is_wild, sort}
use learn_docs.Files.System.{o_path, FileSystem, World}
use learn_docs.Files.Times.{FileTime, zero_time, write_time}

abbrev pub invalid_handle_value : ℕ
invalid_handle_value = 2 ^ 64 - 1

abbrev pub max_path : ℕ
max_path = 260

abbrev pub attribute_directory : ℕ
attribute_directory = 0x10

abbrev pub attribute_archive : ℕ
attribute_archive = 0x20

-- `O_PATH`
-- A name holds what `strncpy` leaves in the field, without the zeros behind it.
pub record FindData : Type 0 where
  pub attributes : ℕ
  pub creation_time : FileTime
  pub last_access_time : FileTime
  pub last_write_time : FileTime
  pub size_high : ℕ
  pub size_low : ℕ
  pub file_name : Text
  pub alternate_file_name : Text

-- `memset(lpFindFileData, 0x00, …)`
abbrev pub zero_data : FindData
zero_data = record {
  attributes = 0;
  creation_time = zero_time;
  last_access_time = zero_time;
  last_write_time = zero_time;
  size_high = 0;
  size_low = 0;
  file_name = [];
  alternate_file_name = [];
}

-- How a walk over the sorted listing ends; `thrown` is a `regex_error`.
pub data Search : Type 0 where
  found : Text → Search
  exhausted : Search
  thrown : Search

-- The first path that passes.
unfoldable pub first_match : (Text → Option Bool) → List Text → Search
first_match test [] = exhausted
first_match test (p ∷ ps) =
    let rest = first_match test ps in
    elim (test p) [ none ↦ thrown | some hit ↦ if hit then found p else rest ]

-- The loop of `FindNextFileA`, with `lastFound`.
unfoldable pub next_match : (Text → Option Bool) → Text → List Text → Bool × Search
next_match test last [] = (false, exhausted)
next_match test last (p ∷ ps) =
    let rest = next_match test last ps in
    if text_eq p last then (true, first_match test ps) else rest

module _ {S : Type 0} (fs : FileSystem S) where
  -- `regex_match(path(tpath).leaf().string(), regex(sLeafMatch))`
  abbrev pub leaf_matches : Text → Text → Option Bool
  leaf_matches name p = fs.regex_match (fs.leaf p) (to_regex (fs.leaf name))

  -- The fields that both functions fill in, `attributes` aside.
  abbrev pub name_data : S → Text → FindData → FindData
  name_data s p d = record d {
    creation_time = zero_time;
    last_access_time = zero_time;
    last_write_time = write_time (fs.last_write_time s p);
    file_name = take max_path (fs.leaf p);
    alternate_file_name = take max_path (fs.leaf p);
  }

  abbrev pub size_data : S → Text → FindData → FindData
  size_data s p d =
      if fs.is_regular_file s p
      then record d {
        size_low = fs.file_size s p % 2 ^ 32;
        size_high = (fs.file_size s p / 2 ^ 32) % 2 ^ 32;
      }
      else d

  -- `|=` on attributes of 0.
  abbrev pub first_attributes : S → Text → ℕ
  first_attributes s p =
      (if fs.is_directory s p then attribute_directory else 0)
      + (if fs.is_regular_file s p then attribute_archive else 0)

  abbrev pub next_attributes : S → Text → ℕ
  next_attributes s p = if fs.is_directory s p then attribute_directory else 0

  abbrev pub first_data : S → Text → FindData → FindData
  first_data s p d = record (size_data s p (name_data s p d)) { attributes = first_attributes s p }

  abbrev pub next_data : S → Text → FindData → FindData
  next_data s p d = record (size_data s p (name_data s p d)) { attributes = next_attributes s p }

  -- What `FindFirstFileA` does with `foundFilePath`.
  unfoldable pub open_first : ℕ → ℕ → Text → Text → World S → ℕ × FindData × World S
  open_first random place path name w =
      let (fd, s) = fs.open_file path o_path 0 w.system in
      let (handle, t) = reg_fd random place fd path name w.table in
      if not (is_empty path) && fs.exists w.system path
      then (handle, first_data s path zero_data, record { table = t; system = s })
      else (invalid_handle_value, zero_data, w)

  unfoldable pub after_first : ℕ → ℕ → Text → World S → Search → ℕ × FindData × World S
  after_first random place name w (found path) = open_first random place path name w
  after_first random place name w exhausted = (invalid_handle_value, zero_data, w)
  after_first random place name w thrown = (invalid_handle_value, zero_data, w)

  -- The walk over the directory of a pattern.
  unfoldable pub walk_first : ℕ → ℕ → Text → World S → Option (List Text) → ℕ × FindData × World S
  walk_first random place name w none = (invalid_handle_value, zero_data, w)
  walk_first random place name w (some paths) =
      after_first random place name w (first_match (leaf_matches name) (sort paths))

  -- `none` is a null pointer.
  unfoldable pub find_first_file_a :
      ℕ → ℕ → Option Text → FindData → World S → ℕ × FindData × World S
  find_first_file_a random place none d w = (invalid_handle_value, d, w)
  find_first_file_a random place (some file_name) d w =
      let name = to_slashes file_name in
      let dir = fs.parent_path name in
      if is_wild name
      then if is_wild dir
        then (invalid_handle_value, zero_data, w)
        else walk_first random place name w (fs.directory w.system dir)
      else open_first random place name name w

  -- What `FindNextFileA` does with `foundFilePath`, `lastFound` being set.
  unfoldable pub open_next : ℕ → Text → FindData → World S → Bool × FindData × World S
  open_next handle path d w =
      let (fd, s) = fs.open_file path o_path 0 w.system in
      if not (is_empty path) && fs.exists w.system path
      then (
        true,
        next_data s path d,
        record { table = update_fd handle fd path w.table; system = s },
      )
      else (false, d, w)

  -- `close(__compat_handle_get_fd(hFindFile))`, where the last path was found.
  abbrev pub closed_last : Bool → ℕ → World S → World S
  closed_last last handle w =
      if last then record w { system = fs.close (get_fd handle w.table) w.system } else w

  unfoldable pub after_next : ℕ → FindData → World S → Bool × Search → Bool × FindData × World S
  after_next handle d w (last, found path) = open_next handle path d (closed_last last handle w)
  after_next handle d w (last, exhausted) = (false, d, closed_last last handle w)
  after_next handle d w (last, thrown) = (false, d, closed_last last handle w)

  unfoldable pub walk_next :
      ℕ → Text → FindData → World S → Option (List Text) → Bool × FindData × World S
  walk_next handle name d w none = (false, d, w)
  walk_next handle name d w (some paths) =
      after_next handle d w
        (next_match (leaf_matches name) (get_fd_path handle w.table) (sort paths))

  unfoldable pub find_next_file_a : ℕ → FindData → World S → Bool × FindData × World S
  find_next_file_a handle d w =
      let pattern = get_fd_find_pattern handle w.table in
      let name = to_slashes pattern in
      let dir = fs.parent_path name in
      if is_empty pattern || (not (is_wild name) || is_wild dir)
      then (false, d, w)
      else walk_next handle name d w (fs.directory w.system dir)

  unfoldable pub find_close : ℕ → World S → Bool × World S
  find_close handle w =
      let fd = get_fd handle w.table in
      let erased = compat_handle_erase handle w.table in
      if fd == minus_one
      then (false, record w { table = erased })
      else (true, record { table = erased; system = fs.close fd w.system })
