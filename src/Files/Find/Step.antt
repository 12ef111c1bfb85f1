-- ===== src/Files/Find/Step.antt =====
-- One step of an enumeration: what a handle of `FindFirstFileA` keeps, and what `FindNextFileA` makes
-- of it.

use learn_docs.Base.{
  ℕ, ◌+◌, ◌^◌, ◌<◌, ◌≡◌, refl, ap, sym, ◌∙◌, inl, inr, true, false, some, List, [], ◌∷◌, ◌++◌, ◌==◌,
  arith, Bool-cases, Option-cases, length, take, ne→==,
}
use learn_docs.Handle.Ctx.{Fits, get_text, NoNul, text_size}
use learn_docs.Handle.Table.{find}
use learn_docs.Handle.Keys.{new_key_get_fresh}
use learn_docs.Handle.File.{read_or, reg_fd, update_fd, get_fd_path, get_fd_find_pattern}
use learn_docs.Handle.Roundtrip.{reg_fd_lem, update_fd_lem}
use learn_docs.Files.Text.{Text, replace_all, slash, backslash, is_empty, to_slashes, is_wild, sort}
use learn_docs.Files.System.{o_path, FileSystem, Quiet, World}
use learn_docs.Files.Find.{
  FindData, zero_data, Search, found, exhausted, first_match, next_match, leaf_matches, next_data,
  first_data, open_first, open_next, find_first_file_a, find_next_file_a, invalid_handle_value,
  max_path, closed_last, after_next, walk_next, walk_first, after_first,
}
use learn_docs.Files.Find.Walk.{All}

-- A path that a handle can hold.
abbrev pub Holds : Text → Type 0
Holds p = NoNul p × (length p < text_size) × (is_empty p ≡ false)

module _ {S : Type 0} (fs : FileSystem S) where
  -- The name as `cFileName` holds it.
  abbrev pub shown : Text → Text
  shown p = take max_path (fs.leaf p)

pub All-map {κ ℓ} :
    {P : Text → Type κ} {Q : Text → Type ℓ} (ps : List Text)
    → ((p : Text) → P p → Q p)
    → All P ps
    → All Q ps
All-map [] f a = tt
All-map (p ∷ ps) f a = (f p a.0, All-map ps f a.1)

pub All-at {κ} : (P : Text → Type κ) (xs ys : List Text) (q : Text) → All P (xs ++ q ∷ ys) → P q
All-at P [] ys q a = a.0
All-at P (x ∷ xs) ys q a = All-at P xs ys q a.1

pub to_slashes_idem : (s : Text) → to_slashes (to_slashes s) ≡ to_slashes s
unfolding replace_all
to_slashes_idem [] = refl
to_slashes_idem (c ∷ s) = elim (Bool-cases (c == backslash)) [
  | inl e ↦ rw e (ap (λ (r : Text). slash ∷ r) (to_slashes_idem s))
  | inr e ↦ rw (e, e) (ap (λ (r : Text). c ∷ r) (to_slashes_idem s))
]

nonempty_of_wild : (s : Text) → is_wild s ≡ true → is_empty s ≡ false
unfolding is_wild
nonempty_of_wild [] h = cc
nonempty_of_wild (c ∷ s) h = refl

not_wild : ¬ (is_wild [] ≡ true)
unfolding is_wild
not_wild e = cc

module _ {S : Type 0} (fs : FileSystem S) (quiet : Quiet fs) (name : Text) (paths : List Text) where
  -- The handle stands at `last`, and the listing is still there.
  pub record Ready (h : ℕ) (last : Text) (w : World S) : Type 0 where
    pub pattern_kept : get_fd_find_pattern h w.table ≡ name
    pub path_kept : get_fd_path h w.table ≡ last
    pub listed : fs.directory w.system (fs.parent_path name) ≡ some paths
    pub present : All (λ p. fs.exists w.system p ≡ true) (sort paths)

  shown_lem : (s : S) (p : Text) (d : FindData) → (next_data fs s p d).file_name ≡ shown fs p
  shown_lem s p d = elim (Bool-cases (fs.is_regular_file s p)) [
    | inl e ↦ rw e refl
    | inr e ↦ rw e refl
  ]

  module _ (slashed : to_slashes name ≡ name) (wild : is_wild name ≡ true)
      (plain : is_wild (fs.parent_path name) ≡ false) where
    pub next_lem :
        (h : ℕ) (last : Text) (d : FindData) (w : World S)
        → Ready h last w
        → (r : Search) → next_match (leaf_matches fs name) last (sort paths) ≡ (true, r)
        → find_next_file_a fs h d w ≡ after_next fs h d w (true, r)
    unfolding find_next_file_a walk_next
    next_lem h last d w ready r e =
        rw
          (
            ready.pattern_kept,
            slashed,
            nonempty_of_wild name wild,
            wild,
            plain,
            ready.listed,
            ready.path_kept,
            e,
          )
          refl

    stands :
        (h : ℕ) (last q : Text) (fd : ℕ) (w : World S) (s : S)
        → Ready h last w
        → Holds q
        → Fits 4 fd
        → fs.directory s (fs.parent_path name) ≡ fs.directory w.system (fs.parent_path name)
        → ((p : Text) → fs.exists s p ≡ fs.exists w.system p)
        → Ready h q (record { table = update_fd h fd q w.table; system = s })
    unfolding get_fd_find_pattern
    stands h last q fd w s ready holds fits same there = elim (Option-cases (find h w.table)) [
      | inl e ↦
          let empty : [] ≡ name =
            sym (ap (read_or [] (λ x. get_text 259 x.ctx)) e) ∙ ready.pattern_kept in
          absurd (not_wild (ap is_wild empty ∙ wild))
      | inr (x, e) ↦
          let (_, _, path', pattern', _) = update_fd_lem h fd q x w.table e fits holds.0 holds.1 in
          record {
            pattern_kept = pattern' ∙ ready.pattern_kept;
            path_kept = path';
            listed = same ∙ ready.listed;
            present = All-map (sort paths) (λ p h. there p ∙ h) ready.present;
          }
    ]

    -- One more path.
    pub next-found :
        (h : ℕ) (last q : Text) (d : FindData) (w : World S)
        → Ready h last w
        → next_match (leaf_matches fs name) last (sort paths) ≡ (true, found q)
        → Holds q
        → fs.exists w.system q ≡ true
        → let (more, d', w') = find_next_file_a fs h d w in
          (more ≡ true) × (d'.file_name ≡ shown fs q) × Ready h q w'
    unfolding after_next open_next
    next-found h last q d w ready e holds there =
        let w₁ = closed_last fs true h w in
        let (fd, s₂) = fs.open_file q o_path 0 w₁.system in
        let there' : fs.exists w₁.system q ≡ true = quiet.exists-close w.system _ q ∙ there in
        let step : find_next_file_a fs h d w ≡ (
          true,
          next_data fs s₂ q d,
          record { table = update_fd h fd q w.table; system = s₂ },
        ) =
          next_lem h last d w ready (found q) e ∙ rw (holds.2, there') refl in
        rw step (
          refl,
          shown_lem s₂ q d,
          stands h last q fd w s₂ ready holds (quiet.open-Fits w₁.system q)
              (quiet.directory-open w₁.system q _ ∙ quiet.directory-close w.system _ _)
              (λ p. quiet.exists-open w₁.system q p ∙ quiet.exists-close w.system _ p),
        )

    pub next-exhausted :
        (h : ℕ) (last : Text) (d : FindData) (w : World S)
        → Ready h last w
        → next_match (leaf_matches fs name) last (sort paths) ≡ (true, exhausted)
        → find_next_file_a fs h d w ≡ (false, d, closed_last fs true h w)
    unfolding after_next
    next-exhausted h last d w ready e = next_lem h last d w ready exhausted e

  pub find_first_lem :
      (random place : ℕ) (file_name : Text) (w : World S) (r : Search)
      → to_slashes file_name ≡ name
      → is_wild name ≡ true
      → is_wild (fs.parent_path name) ≡ false
      → fs.directory w.system (fs.parent_path name) ≡ some paths
      → first_match (leaf_matches fs name) (sort paths) ≡ r
      → find_first_file_a fs random place (some file_name) zero_data w
        ≡ after_first fs random place name w r
  unfolding find_first_file_a walk_first
  find_first_lem random place file_name w r slashed wild plain listed e =
      rw (slashed, wild, plain, listed, e) refl

  -- The new handle stands at the first path.
  pub first-found :
      (random place : ℕ) (q : Text) (w : World S)
      → NoNul name
      → length name < text_size
      → Holds q
      → fs.directory w.system (fs.parent_path name) ≡ some paths
      → All (λ p. fs.exists w.system p ≡ true) (sort paths)
      → fs.exists w.system q ≡ true
      → random + length w.table + 1 < 2 ^ 31
      → let (h, d, w') = after_first fs random place name w (found q) in
        ((h == invalid_handle_value) ≡ false) × (d.file_name ≡ shown fs q) × Ready h q w'
  unfolding after_first open_first reg_fd
  first-found random place q w nn short holds listed present there small =
      let (fd, s) = fs.open_file q o_path 0 w.system in
      let fits = quiet.open-Fits w.system q in
      let (_, _, path', pattern', _) =
        reg_fd_lem random place fd q name w.table fits holds.0 holds.1 nn short in
      let below = (new_key_get_fresh random place w.table).2 in
      rw (holds.2, there)
        (
          ne→== _ invalid_handle_value (omega (arith, below)),
          first_shown s q,
          record {
            pattern_kept = pattern';
            path_kept = path';
            listed = quiet.directory-open w.system q _ ∙ listed;
            present = All-map (sort paths) (λ p h. quiet.exists-open w.system q p ∙ h) present;
          },
        )
    where
      first_shown : (s : S) (p : Text) → (first_data fs s p zero_data).file_name ≡ shown fs p
      first_shown s p = elim (Bool-cases (fs.is_regular_file s p)) [
        | inl e ↦ rw e refl
        | inr e ↦ rw e refl
      ]
