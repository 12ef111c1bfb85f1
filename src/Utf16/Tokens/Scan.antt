-- ===== src/Utf16/Tokens/Scan.antt =====
-- Where the two scans of `u16cstok` end.
use learn_docs.Base.{
  ℕ, zero, suc, ◌+◌, ◌≡◌, ◌≤◌, ◌<◌, refl, ap, ◌∙◌, List, [], ◌∷◌, inl, inr, Bool-cases, length,
  arith, get_or, ne→==,
}
use learn_docs.Memory.{Ptr, Mem, StrAt}
use learn_docs.Handle.Ctx.{NoNul}
use learn_docs.Utf16.Tokens.{is_delimiter, skip_delimiters, find_delimiter}
use learn_docs.Utf16.Tokens.Fields.{has_unit, skipped, token, behind}

is_delimiter-has_unit :
    (m : Mem) (d : Ptr) (ds : List ℕ) (c : ℕ)
    → StrAt m d ds
    → is_delimiter m d (length ds) c ≡ has_unit c ds
unfolding is_delimiter
is_delimiter-has_unit m d [] c s = refl
is_delimiter-has_unit m d (x ∷ ds) c s = rw (s.0, is_delimiter-has_unit m (d + 1) ds c s.2) refl

-- A pointer into the string, with what stands there to the end.
pub record Rest (m : Mem) (p : Ptr) (xs : List ℕ) (q : Ptr) (ys : List ℕ) : Type 0 where
  pub stands : StrAt m q ys
  pub ends : q + length ys ≡ p + length xs
  pub beyond : p ≤ q

one_further :
    (m : Mem) (p x : ℕ) (xs : List ℕ) (q : Ptr) (ys : List ℕ)
    → Rest m (p + 1) xs q ys
    → Rest m p (x ∷ xs) q ys
one_further m p x xs q ys r = record {
  stands = r.stands;
  ends = omega (arith, r.ends);
  beyond = omega (arith, r.beyond);
}

here : (m : Mem) (p : Ptr) (xs : List ℕ) → StrAt m p xs → Rest m p xs p xs
here m p xs s = record { stands = s; ends = refl; beyond = omega arith }

module _ (m : Mem) (d : Ptr) (ds : List ℕ) (delimiters : StrAt m d ds) where
  pub skip_delimiters-Rest :
      (fuel : ℕ) (p : Ptr) (xs : List ℕ)
      → StrAt m p xs
      → length xs ≤ fuel
      → Rest m p xs (skip_delimiters fuel m d (length ds) p) (skipped ds xs)
  unfolding skip_delimiters skipped
  skip_delimiters-Rest zero p [] s h = here m p [] s
  skip_delimiters-Rest zero p (x ∷ xs) s h = absurd (omega arith)
  skip_delimiters-Rest (suc fuel) p [] s h = rw s (here m p [] s)
  skip_delimiters-Rest (suc fuel) p (x ∷ xs) s h = elim (Bool-cases (has_unit x ds)) [
    | inl e ↦
        rw (s.0, ne→== x 0 s.1, is_delimiter-has_unit m d ds x delimiters, e)
          (one_further m p x xs _ _ (skip_delimiters-Rest fuel (p + 1) xs s.2 (omega arith)))
    | inr e ↦
        rw (s.0, ne→== x 0 s.1, is_delimiter-has_unit m d ds x delimiters, e) (here m p (x ∷ xs) s)
  ]

  pub find_delimiter-Rest :
      (fuel : ℕ) (p : Ptr) (xs : List ℕ)
      → StrAt m p xs
      → length xs ≤ fuel
      → Rest m p xs (find_delimiter fuel m d (length ds) p) (behind ds xs)
  unfolding find_delimiter behind
  find_delimiter-Rest zero p [] s h = here m p [] s
  find_delimiter-Rest zero p (x ∷ xs) s h = absurd (omega arith)
  find_delimiter-Rest (suc fuel) p [] s h = rw s (here m p [] s)
  find_delimiter-Rest (suc fuel) p (x ∷ xs) s h = elim (Bool-cases (has_unit x ds)) [
    | inl e ↦
        rw (s.0, ne→== x 0 s.1, is_delimiter-has_unit m d ds x delimiters, e) (here m p (x ∷ xs) s)
    | inr e ↦
        rw (s.0, ne→== x 0 s.1, is_delimiter-has_unit m d ds x delimiters, e)
          (one_further m p x xs _ _ (find_delimiter-Rest fuel (p + 1) xs s.2 (omega arith)))
  ]

-- The units of the token stand where the string does.
pub token_units :
    (m : Mem) (p : Ptr) (ds xs : List ℕ) (i : ℕ)
    → StrAt m p xs
    → i < length (token ds xs)
    → m (p + i) ≡ get_or (token ds xs) i 0
unfolding token
token_units m p ds [] i s h = absurd (omega arith)
token_units m p ds (x ∷ xs) zero s h = elim (Bool-cases (has_unit x ds)) [
  | inl e ↦ absurd (ground arith)
  | inr e ↦ rw e (ap m (omega arith) ∙ s.0)
]
token_units m p ds (x ∷ xs) (suc i) s h = elim (Bool-cases (has_unit x ds)) [
  | inl e ↦ absurd (ground arith)
  | inr e ↦
      let shorter : i < length (token ds xs) = ground arith in
      rw e (ap m (omega arith) ∙ token_units m (p + 1) ds xs i s.2 shorter)
]

pub token-NoNul : (m : Mem) (p : Ptr) (ds xs : List ℕ) → StrAt m p xs → NoNul (token ds xs)
unfolding token
token-NoNul m p ds [] s = tt
token-NoNul m p ds (x ∷ xs) s = elim (Bool-cases (has_unit x ds)) [
  | inl e ↦ rw e tt
  | inr e ↦ rw e (s.1, token-NoNul m (p + 1) ds xs s.2)
]
