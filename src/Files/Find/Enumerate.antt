-- ===== src/Files/Find/Enumerate.antt =====
-- A whole enumeration, as a client makes it: `FindFirstFileA`, then `FindNextFileA` until it
-- returns FALSE.
use mathlib.Core.List.{append_assoc, Perm}
use learn_docs.Base.{
  ℕ, zero, suc, ◌+◌, ◌^◌, ◌≤◌, ◌<◌, ◌≡◌, refl, ap, ap₂, sym, subst, ◌∙◌, inl, inr, Bool, true,
  false, some, List, [], ◌∷◌, ◌++◌, ◌==◌, arith, if◌then◌else◌, length, map, length-append,
}
use learn_docs.Handle.Ctx.{NoNul, text_size}
use learn_docs.Files.Text.{Text, to_slashes, is_wild, sort}
use learn_docs.Files.System.{FileSystem, Quiet, World}
use learn_docs.Files.Find.{
  FindData, zero_data, Search, found, exhausted, first_match, next_match, leaf_matches,
  find_first_file_a, find_next_file_a, invalid_handle_value, after_first,
}
use learn_docs.Files.Find.Walk.{
  All, Apart, matching, Apart-before, next_match-behind, first_match-FoundAt,
}
use learn_docs.Files.Find.Step.{
  Holds, shown, All-at, to_slashes_idem, Ready, next-found, next-exhausted, find_first_lem,
  first-found,
}
use learn_docs.Files.Find.Sorted.{
  Ascending, sort-Ascending, sort-perm, sort-Apart, sort-All, length-sort,
}

module _ {S : Type 0} (fs : FileSystem S) where
  -- `while (FindNextFileA(h, &data)) …` with the names that it gives.
  pub next_names : ℕ → ℕ → FindData → World S → List Text
  next_names zero h d w = []
  next_names (suc fuel) h d w =
      let (more, d', w') = find_next_file_a fs h d w in
      let rest = next_names fuel h d' w' in if more then d'.file_name ∷ rest else []

  pub all_names : ℕ → ℕ → ℕ → Text → World S → List Text
  all_names fuel random place name w =
      let (h, d, w') = find_first_file_a fs random place (some name) zero_data w in
      if h == invalid_handle_value then [] else d.file_name ∷ next_names fuel h d w'

module _ {S : Type 0} (fs : FileSystem S) (quiet : Quiet fs) (name : Text) (paths : List Text)
    (slashed : to_slashes name ≡ name) (wild : is_wild name ≡ true)
    (plain : is_wild (fs.parent_path name) ≡ false) (hit : Text → Bool)
    (tested : (p : Text) → leaf_matches fs name p ≡ some (hit p)) (apart : Apart (sort paths))
    (held : All Holds (sort paths)) where
  next_names_lem :
      (fuel h : ℕ) (last : Text) (xs ys : List Text) (d : FindData) (w : World S)
      → length ys ≤ fuel
      → sort paths ≡ xs ++ last ∷ ys
      → Ready fs quiet name paths h last w
      → next_names fs fuel h d w ≡ map (shown fs) (matching hit ys)
  unfolding next_names
  next_names_lem zero h last xs [] d w enough split ready = refl
  next_names_lem zero h last xs (y ∷ ys) d w enough split ready = absurd (omega arith)
  next_names_lem (suc fuel) h last xs ys d w enough split ready =
      let walked : next_match (leaf_matches fs name) last (sort paths)
          ≡ (true, first_match (leaf_matches fs name) ys) =
        ap (λ (l : List Text). next_match (leaf_matches fs name) last l) split
        ∙ next_match-behind (leaf_matches fs name) last xs ys
            (Apart-before last xs ys (subst Apart split apart)) in
      elim (first_match-FoundAt (leaf_matches fs name) hit ys tested) [
        | inl (e, none_left) ↦
            rw
              (
                next-exhausted fs quiet name paths slashed wild plain h last d w ready
                    (walked ∙ ap (λ (r : Search). (true, r)) e),
                none_left,
              )
              refl
        | inr (q, us, vs, e, split', rest) ↦
            let whole : sort paths ≡ (xs ++ last ∷ us) ++ q ∷ vs =
              split
              ∙ ap (λ (l : List Text). xs ++ last ∷ l) split'
              ∙ sym (append_assoc xs (last ∷ us) (q ∷ vs)) in
            let step = find_next_file_a fs h d w in
            let (more, named, ready') =
              next-found fs quiet name paths slashed wild plain h last q d w ready
                (walked ∙ ap (λ (r : Search). (true, r)) e)
                (All-at Holds (xs ++ last ∷ us) vs q (subst (All Holds) whole held))
                (All-at (λ p. fs.exists w.system p ≡ true) (xs ++ last ∷ us) vs q
                  (subst (All (λ p. fs.exists w.system p ≡ true)) whole ready.present)) in
            let less : length vs ≤ fuel =
              omega (arith, ap length split', length-append us (q ∷ vs)) in
            let others =
              next_names_lem fuel h q (xs ++ last ∷ us) vs step.1 step.2 less whole ready' in
            rw (more, rest) (ap₂ (λ (x : Text) (l : List Text). x ∷ l) named others)
      ]

module _ {S : Type 0} (fs : FileSystem S) (quiet : Quiet fs) (name : Text) (paths : List Text) where
  -- Where opening for O_PATH gives an int and neither it nor closing changes a directory, in a
  -- directory whose listing has no path twice, only paths that exist and that a handle can hold,
  -- and stays as it is, for a pattern of a name without NUL and shorter than 255 bytes, with
  -- slashes only and wildcards in its last part only, whose regular expression is legal, an
  -- enumeration by `FindFirstFileA` and then `FindNextFileA` as often as it returns TRUE gives
  -- the names of the listing that match, each once, in ascending order of their paths.
  pub all_names-matching :
      (fuel random place : ℕ) (file_name : Text) (hit : Text → Bool) (w : World S)
      → to_slashes file_name ≡ name
      → NoNul name
      → length name < text_size
      → is_wild name ≡ true
      → is_wild (fs.parent_path name) ≡ false
      → fs.directory w.system (fs.parent_path name) ≡ some paths
      → Apart paths
      → All Holds paths
      → All (λ p. fs.exists w.system p ≡ true) paths
      → ((p : Text) → leaf_matches fs name p ≡ some (hit p))
      → random + length w.table + 1 < 2 ^ 31
      → length paths ≤ fuel
      → (all_names fs fuel random place file_name w ≡ map (shown fs) (matching hit (sort paths)))
        × Ascending (sort paths)
        × Perm (sort paths) paths
  unfolding all_names after_first
  all_names-matching fuel random place file_name hit w slashed nn short wild plain listed apart held
        present tested small enough =
      let sorted_apart = sort-Apart paths apart in
      let sorted_held = sort-All Holds paths held in
      let there = sort-All (λ p. fs.exists w.system p ≡ true) paths present in
      let slashed' : to_slashes name ≡ name =
        ap to_slashes (sym slashed) ∙ to_slashes_idem file_name ∙ slashed in
      let first = find_first_lem fs quiet name paths random place file_name w in
      (
        elim (first_match-FoundAt (leaf_matches fs name) hit (sort paths) tested) [
          | inl (e, none_left) ↦ rw (first exhausted slashed wild plain listed e, none_left) refl
          | inr (q, us, vs, e, split, rest) ↦
              let (valid, named, ready) =
                first-found fs quiet name paths random place q w nn short
                  (All-at Holds us vs q (subst (All Holds) split sorted_held)) listed there
                  (All-at (λ p. fs.exists w.system p ≡ true) us vs q
                    (subst (All (λ p. fs.exists w.system p ≡ true)) split there))
                  small in
              let less : length vs ≤ fuel =
                omega (arith, length-sort paths, ap length split, length-append us (q ∷ vs)) in
              rw (first (found q) slashed wild plain listed e, valid, rest)
                (ap₂ (λ (x : Text) (l : List Text). x ∷ l) named
                  (next_names_lem fs quiet name paths slashed' wild plain hit tested sorted_apart
                    sorted_held fuel _ q us vs _ _ less split ready))
        ],
        sort-Ascending paths,
        sort-perm paths,
      )
