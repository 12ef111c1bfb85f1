-- ===== src/Utf16/Tokens/Fields.antt =====
-- What a string is between its delimiters, without memory.
use learn_docs.Base.{
  ℕ, suc, ◌+◌, ◌≡◌, refl, ap, ◌∙◌, Bool, true, false, List, [], ◌∷◌, ◌==◌, if◌then◌else◌, inl, inr,
  Bool-cases, length, ◌<◌, arith,
}

abbrev pub has_unit : ℕ → List ℕ → Bool
has_unit c [] = false
has_unit c (d ∷ ds) = if d == c then true else has_unit c ds

abbrev pub with_unit : ℕ → List (List ℕ) → List (List ℕ)
with_unit x [] = (x ∷ []) ∷ []
with_unit x (f ∷ fs) = (x ∷ f) ∷ fs

-- The string cut at every delimiter.
unfoldable pub fields : List ℕ → List ℕ → List (List ℕ)
fields ds [] = [] ∷ []
fields ds (x ∷ xs) = if has_unit x ds then [] ∷ fields ds xs else with_unit x (fields ds xs)

abbrev pub nonempty : List (List ℕ) → List (List ℕ)
nonempty [] = []
nonempty ([] ∷ fs) = nonempty fs
nonempty ((x ∷ f) ∷ fs) = (x ∷ f) ∷ nonempty fs

-- Without the delimiters in front; the units before the next one; what is from there on.
unfoldable pub skipped : List ℕ → List ℕ → List ℕ
skipped ds [] = []
skipped ds (x ∷ xs) = if has_unit x ds then skipped ds xs else x ∷ xs

unfoldable pub token : List ℕ → List ℕ → List ℕ
token ds [] = []
token ds (x ∷ xs) = if has_unit x ds then [] else x ∷ token ds xs

unfoldable pub behind : List ℕ → List ℕ → List ℕ
behind ds [] = []
behind ds (x ∷ xs) = if has_unit x ds then x ∷ xs else behind ds xs

pub nonempty-skipped :
    (ds xs : List ℕ) → nonempty (fields ds xs) ≡ nonempty (fields ds (skipped ds xs))
unfolding fields skipped
nonempty-skipped ds [] = refl
nonempty-skipped ds (x ∷ xs) = elim (Bool-cases (has_unit x ds)) [
  | inl e ↦ rw e (nonempty-skipped ds xs)
  | inr e ↦ rw (e, e) refl
]

pub length-behind : (ds xs : List ℕ) → length (token ds xs) + length (behind ds xs) ≡ length xs
unfolding token behind
length-behind ds [] = refl
length-behind ds (x ∷ xs) = elim (Bool-cases (has_unit x ds)) [
  | inl e ↦ rw e (omega arith)
  | inr e ↦ rw e (omega (arith, length-behind ds xs))
]

pub skipped-head : (ds xs ys : List ℕ) (x : ℕ) → skipped ds xs ≡ x ∷ ys → has_unit x ds ≡ false
unfolding skipped
skipped-head ds [] ys x e = cc
skipped-head ds (z ∷ xs) ys x e = elim (Bool-cases (has_unit z ds)) [
  | inl h ↦ let later : skipped ds xs ≡ x ∷ ys = ground arith in skipped-head ds xs ys x later
  | inr h ↦ ground arith
]

pub nonempty-none : (ds xs : List ℕ) → skipped ds xs ≡ [] → nonempty (fields ds xs) ≡ []
unfolding fields
nonempty-none ds xs e = nonempty-skipped ds xs ∙ ap (λ (ys : List ℕ). nonempty (fields ds ys)) e

pub length-behind-lt :
    (ds xs : List ℕ) (x : ℕ) → has_unit x ds ≡ false → length (behind ds (x ∷ xs)) < suc (length xs)
unfolding behind
length-behind-lt ds xs x e = rw e (omega (arith, length-behind ds xs))

fields-token :
    (ds xs : List ℕ)
    → (rest : List (List ℕ)) × (fields ds xs ≡ token ds xs ∷ rest)
      × (nonempty rest ≡ nonempty (fields ds (behind ds xs)))
unfolding fields token behind
fields-token ds [] = ([], refl, refl)
fields-token ds (x ∷ xs) = elim (Bool-cases (has_unit x ds)) [
  | inl e ↦ (fields ds xs, rw e refl, rw (e, e) refl)
  | inr e ↦ let (rest, first, same) = fields-token ds xs in (rest, rw (e, first) refl, rw e same)
]

-- The token is the first field of a string that does not begin with a delimiter.
pub nonempty-token :
    (ds xs : List ℕ) (x : ℕ)
    → has_unit x ds ≡ false
    → nonempty (fields ds (x ∷ xs)) ≡ token ds (x ∷ xs) ∷ nonempty (fields ds (behind ds (x ∷ xs)))
unfolding token behind fields
nonempty-token ds xs x e =
    let (rest, first, same) = fields-token ds xs in
    rw (e, first) (ap (λ (r : List (List ℕ)). (x ∷ token ds xs) ∷ r) same)
