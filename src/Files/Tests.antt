-- ===== src/Files/Tests.antt =====
-- The theorems over a small file system: the listing of one directory, every path of which exists,
-- and the number of descriptors that were given out.
use mathlib.Core.List.{Perm}
use learn_docs.Base.{
  ℕ, suc, ◌-◌, ◌%◌, ◌^◌, ◌≡◌, ◌≢◌, refl, Bool, true, false, none, some, List, [], ◌∷◌, ◌==◌,
  if◌then◌else◌, arith, map, negsuc, ◌⊎◌, subst, inr,
}
use learn_docs.Handle.Object.{text_eq}
use learn_docs.Files.Text.{Text, is_wild, sort, replace_all, insert_sorted, text_leb}
use learn_docs.Files.System.{FileSystem, Quiet, Removes, World}
use learn_docs.Handle.Types.{zero_header}
use learn_docs.Handle.Table.{find}
use learn_docs.Handle.Ctx.{get_le, put_le}
use learn_docs.Handle.File.{fill_fd, get_fd, get_fd_path, get_fd_find_pattern, minus_one}
use learn_docs.Files.Find.{
  find_next_file_a, find_close, zero_data, next_match, first_match, invalid_handle_value,
}
use learn_docs.Files.Find.Step.{Holds, shown, Ready}
use learn_docs.Files.Find.Sorted.{Ascending}
use learn_docs.Files.Find.Close.{find_next-find_close}
use learn_docs.Files.Create.{
  plan, open_flags, with_parent, disposition, create_file_a, open_existing, truncate_existing,
  o_trunc,
}
use learn_docs.Files.Create.Documented.{documented, posix, disposition-documented}
use learn_docs.Files.Io.{no_transfer, read_file, write_file, create_file_a-open_failed}
use learn_docs.Files.Paths.{
  get_file_attributes_a, invalid_file_attributes, move_file_a, moved_from, move_file_a-moved,
}
use learn_docs.Files.Times.{joined, file_time_to_local, joined-file_time_to_local}
use learn_docs.Files.Find.Walk.{All, matching, has_text}
use learn_docs.Files.Find.Enumerate.{all_names, all_names-matching}

-- The state: the paths that exist, and how often something was opened or closed.
abbrev Small : Type 0
Small = List Text × ℕ

-- Three texts in the directory "d".
abbrev b_text : Text
b_text = 100 ∷ 47 ∷ 98 ∷ 46 ∷ 116 ∷ []

abbrev a_text : Text
a_text = 100 ∷ 47 ∷ 97 ∷ 46 ∷ 116 ∷ []

abbrev c_bin : Text
c_bin = 100 ∷ 47 ∷ 99 ∷ 46 ∷ 98 ∷ []

-- "d\*.t" and "d/*.t".
abbrev asked : Text
asked = 100 ∷ 92 ∷ 42 ∷ 46 ∷ 116 ∷ []

abbrev pattern_name : Text
pattern_name = 100 ∷ 47 ∷ 42 ∷ 46 ∷ 116 ∷ []

abbrev drop_two : Text → Text
drop_two [] = []
drop_two (x ∷ []) = []
drop_two (x ∷ y ∷ s) = s

-- Whether a text ends in "t": what ".*\.t" asks of the three.
abbrev ends_in_t : Text → Bool
ends_in_t [] = false
ends_in_t (x ∷ []) = x == 116
ends_in_t (x ∷ y ∷ s) = ends_in_t (y ∷ s)

abbrev remove_text : Text → List Text → List Text
remove_text p [] = []
remove_text p (q ∷ qs) = if text_eq q p then remove_text p qs else q ∷ remove_text p qs

-- The directory, and the paths in it.
abbrev dir : Text
dir = 100 ∷ []

abbrev inside : List Text → List Text
inside [] = []
inside (p ∷ ps) = if text_eq p dir then inside ps else p ∷ inside ps

abbrev small : FileSystem Small
small = record {
  parent_path = λ p. dir;
  leaf = drop_two;
  regex_match = λ p pattern. some (ends_in_t p);
  exists = λ s p. has_text p s.0;
  is_directory = λ s p. false;
  is_regular_file = λ s p. has_text p s.0;
  is_symlink = λ s p. false;
  last_write_time = λ s p. 1600000000;
  file_size = λ s p. 5;
  directory = λ s d. some (inside s.0);
  open_file = λ p flags mode s. (3, (s.0, suc s.1));
  close = λ fd s. (s.0, suc s.1);
  create_directories = λ p s. none;
  remove = λ p s. some (has_text p s.0, (remove_text p s.0, s.1));
  copy = λ p q s. if has_text p s.0 then some (q ∷ s.0, s.1) else none;
  read = λ fd n s. (some [], s);
  write = λ fd bytes s. (none, s);
}

small-Quiet : Quiet small
small-Quiet = record {
  directory-open = λ s p d. refl;
  directory-close = λ s fd d. refl;
  exists-open = λ s p q. refl;
  exists-close = λ s fd q. refl;
  open-Fits = λ s p. refl;
}

abbrev three : List Text
three = b_text ∷ c_bin ∷ a_text ∷ []

abbrev whole : List Text
whole = dir ∷ three

abbrev start : World Small
start = record { table = []; system = (whole, 0) }

three_held : All Holds three
three_held = (
  (omega arith, omega arith, refl),
  ((omega arith, omega arith, refl), ((omega arith, omega arith, refl), tt)),
)

abbrev shows_t : Text → Bool
shows_t p = ends_in_t (drop_two p)

all_names-matching_example :
    (all_names small 3 7 0 asked start ≡ map (shown small) (matching shows_t (sort three)))
    × Ascending (sort three)
    × Perm (sort three) three
unfolding replace_all is_wild
all_names-matching_example =
    all_names-matching small small-Quiet pattern_name three 3 7 0 asked shows_t start refl
      (omega arith) (omega arith) refl refl refl (refl, (refl, (refl, tt))) three_held
      (refl, (refl, (refl, tt))) (λ p. refl) (omega arith) (omega arith)

-- What the enumeration gives: "a.t" and "b.t".
all_names-run :
    map (shown small) (matching shows_t (sort three))
    ≡ (97 ∷ 46 ∷ 116 ∷ []) ∷ (98 ∷ 46 ∷ 116 ∷ []) ∷ []
unfolding sort insert_sorted text_leb
all_names-run = refl

-- An open handle at the last match.
abbrev opened : World Small
opened = record {
  table = (7, fill_fd 7 3 b_text pattern_name zero_header) ∷ [];
  system = (whole, 1);
}

opened-Ready : Ready small small-Quiet pattern_name three 7 b_text opened
unfolding sort insert_sorted text_leb find get_fd_path get_fd_find_pattern
opened-Ready = record {
  pattern_kept = refl;
  path_kept = refl;
  listed = refl;
  present = (refl, (refl, (refl, tt)));
}

find_next-find_close_example :
    let (more, d', w') = find_next_file_a small 7 zero_data opened in
    (more ≡ false)
    × (get_fd 7 w'.table ≡ get_fd 7 opened.table)
    × ((find_close small 7 w').1.system ≡ (whole, 3))
unfolding find get_fd sort insert_sorted text_leb next_match first_match replace_all is_wild get_le
    put_le
find_next-find_close_example =
    find_next-find_close small small-Quiet pattern_name three 7 b_text zero_data opened refl refl
      refl opened-Ready refl (omega arith)

-- One hour to the west of the beginning.
joined-file_time_to_local_example :
    joined (file_time_to_local (negsuc 35999999999) (record { low = 0; high = 0 }))
    ≡ (2 ^ 64 - 36000000000) - (2 ^ 64 - 36000000000) % 2 ^ 31
joined-file_time_to_local_example =
    joined-file_time_to_local (negsuc 35999999999) (record { low = 0; high = 0 }) (omega arith)
      (omega arith)

has_text-remove_text : (p : Text) (qs : List Text) → has_text p (remove_text p qs) ≡ false
has_text-remove_text p [] = refl
has_text-remove_text p (q ∷ qs) = ground (arith, has_text-remove_text p qs)

small-removed :
    (p : Text) (b : Bool) (s s' : Small)
    → small.remove p s ≡ some (b, s')
    → small.exists s' p ≡ false
small-removed p b s s' e =
    let left : (remove_text p s.0, s.1) ≡ s' = cc in
    subst (λ (x : Small). has_text p x.0 ≡ false) left (has_text-remove_text p s.0)

small-Removes : Removes small
small-Removes = record { removed = small-removed }

-- Emptying what exists, for writing.
disposition-documented_example :
    posix true (open_flags small (2 ^ 30) 0 (plan true o_trunc 0)) (small.exists (whole, 0) a_text)
    ≡ documented truncate_existing (small.exists (whole, 0) a_text)
unfolding disposition
disposition-documented_example =
    disposition-documented small small-Removes truncate_existing (2 ^ 30) 0 a_text (whole, 0)
      (whole, 0) (plan true o_trunc 0) (omega arith) (inr refl) refl

-- The same system, in which no file can be opened.
abbrev shut : FileSystem Small
shut = record small { open_file = λ p flags mode s. (minus_one, s) }

create_file_a-open_failed_example :
    let (handle, w') = create_file_a shut 7 0 (some a_text) (2 ^ 31) open_existing 0 start in
    (handle ≢ invalid_handle_value)
    × (read_file shut handle true 10 w' ≡ (no_transfer, w'))
    × (write_file shut handle (some (1 ∷ [])) w' ≡ (no_transfer, w'))
unfolding disposition with_parent
create_file_a-open_failed_example =
    create_file_a-open_failed shut 7 0 (2 ^ 31) open_existing 0 10 (1 ∷ []) a_text start (whole, 0)
      (whole, 0) (plan true 0 0) refl refl refl (omega arith) (omega arith) (omega arith) refl

-- The name of the copy of "d/a.t".
abbrev d_text : Text
d_text = 100 ∷ 47 ∷ 100 ∷ 46 ∷ 116 ∷ []

-- The listing afterwards.
abbrev after_move : Small
after_move = (d_text ∷ dir ∷ b_text ∷ c_bin ∷ [], 0)

abbrev before_move : Small
before_move = (whole, 0)

move_file_a-moved_example :
    ((s₁ : Small) × (true ≡ true)
      × (small.exists before_move a_text ≡ true)
      × (small.exists before_move d_text ≡ false)
      × (small.copy a_text d_text before_move ≡ some s₁)
      × (get_file_attributes_a small (some a_text) after_move ≡ invalid_file_attributes))
    ⊎ ((true ≡ false)
        × (after_move ≡ before_move)
        × ((small.exists before_move a_text ≡ false) ⊎ (small.exists before_move d_text ≡ true)))
unfolding move_file_a moved_from
move_file_a-moved_example =
    move_file_a-moved small small-Removes a_text d_text true before_move after_move refl
