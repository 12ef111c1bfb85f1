-- ===== src/Utf16/Tests.antt =====
-- Runs of the char16_t functions, and the theorems at a concrete memory.
use learn_docs.Base.{inl, ◌+◌, ℕ, some, ◌≡◌, List, [], ◌∷◌, refl, arith, inr}
use learn_docs.Memory.{Mem, Ptr, StrAt, paste}
use learn_docs.Utf16.Defs.{u16csstr}
use learn_docs.Utf16.Copy.{cells}
use learn_docs.Utf16.Tokens.{Tokenizer}
use learn_docs.Utf16.Tokens.Fields.{fields}
use learn_docs.Utf16.Tokens.Enumerate.{tokens, tokens-fields}
use learn_docs.Utf16.Narrow.{converted, mbstou16cs_s, mbstou16cs_s_lem}
use learn_docs.Utf16.Defs.{size_max}
use learn_docs.Utf16.Search.{Finds, u16csstr-Finds}

abbrev ab : List ℕ
ab = 97 ∷ 98 ∷ []

abbrev cab : List ℕ
cab = 99 ∷ 97 ∷ 98 ∷ []

-- "ab" at 10, "cab" at 20, "ab" at 30, and NULs elsewhere.
abbrev memory : Mem
memory = paste 10 3 ab (paste 20 4 cab (paste 30 3 ab (λ _. 0)))

ab_stands : StrAt memory 10 ab
ab_stands = (refl, omega arith, (refl, omega arith, refl))

cab_stands : StrAt memory 20 cab
cab_stands = (refl, omega arith, (refl, omega arith, (refl, omega arith, refl)))

ab_again : StrAt memory 30 ab
ab_again = (refl, omega arith, (refl, omega arith, refl))

u16csstr-Finds_example : Finds ab cab 20 (u16csstr 3 memory 20 10)
u16csstr-Finds_example =
    u16csstr-Finds 3 memory 20 10 cab ab (omega arith) (omega arith) (omega arith) (omega arith)
      (omega arith) cab_stands ab_stands

-- "ab" from 40 on to 4 units at 60.
-- With the count _TRUNCATE.
mbstou16cs_s_lem_example :
    (m' : Mem) × (mbstou16cs_s some 40 60 4 ab size_max memory ≡ some (0, 3, m'))
    × ((a : Ptr) → m' a ≡ paste 60 (cells 4 ab) ab (converted 40 ab memory) a)
mbstou16cs_s_lem_example =
    mbstou16cs_s_lem some ab ab 40 60 4 size_max memory refl (omega arith) (omega arith)
      (omega arith, (omega arith, tt)) (omega arith) (omega arith) (inr (omega arith))

-- "ab" as delimiters at 10, "cab" at 20, and buffers from 100 on.
abbrev no_tokens : Tokenizer
no_tokens = record { lastcursor = 0; buffer = 0; buffer_size = 0 }

tokens-fields_example : tokens 4 3 (λ i. 100 + i) 20 10 no_tokens memory ≡ (99 ∷ []) ∷ []
unfolding fields
tokens-fields_example =
    tokens-fields 10 ab (omega arith) (omega arith) (omega arith) 4 3 (λ i. 100 + i) 20 no_tokens
      memory cab
      (record {
        stands = cab_stands;
        delimiters = ab_stands;
        clear = inl (omega arith);
        clear_delimiters = inl (omega arith);
        made = λ h e. omega (arith, h);
      })
      (λ i. record {
        not_null = λ e. omega (arith, e);
        clear = inr (omega arith);
        clear_delimiters = inr (omega arith);
      })
      (omega arith) (omega arith) (omega arith)
