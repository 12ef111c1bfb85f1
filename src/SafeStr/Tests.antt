-- ===== src/SafeStr/Tests.antt =====
-- Runs of the string routines, and the theorems at concrete memories.
use learn_docs.Base.{ℕ, ◌≡◌, refl, none, List, [], ◌∷◌, arith, inl}
use learn_docs.Memory.{paste}
use learn_docs.SafeStr.Defs.{World, rsize_max_str}
use learn_docs.SafeStr.Copy.{strcpy_s, copy_loop, no_space}
use learn_docs.SafeStr.Ncopy.{strncpy_s}
use learn_docs.SafeStr.Ncopy.Truncate.{IsCut, strncpy_s-IsCut}

-- "ab" at 10 and "c" at 40, sevens elsewhere.
abbrev memory : World
memory = record {
  mem = paste 40 2 (99 ∷ []) (paste 10 3 (97 ∷ 98 ∷ []) (λ _. 7));
  str_handler = none;
  calls = [];
}

abbrev ab : List ℕ
ab = 97 ∷ 98 ∷ []

copied_code : (strcpy_s 20 5 10 memory).0 ≡ 0
unfolding strcpy_s copy_loop no_space
copied_code = refl

strncpy_s-IsCut_example : IsCut 20 2 ab memory (strncpy_s 20 2 10 rsize_max_str memory)
strncpy_s-IsCut_example =
    strncpy_s-IsCut 20 2 10 ab memory (omega arith) (omega arith) (omega arith) (omega arith)
      (omega arith) (omega arith) (inl (omega arith))
