-- ===== src/Files/Find/Walk.antt =====
-- The walks over a listing.
use learn_docs.Base.{
  ◌≡◌, refl, ap, sym, subst, ◌⊎◌, inl, inr, Bool, true, false, ◌||◌, Option, some, List, [], ◌∷◌,
  ◌++◌, arith, Bool-cases, if◌then◌else◌,
}
use learn_docs.Handle.Object.{text_eq}
use learn_docs.Handle.TextEq.{text_eq_refl, text_eq-sym}
use learn_docs.Files.Text.{Text}
use learn_docs.Files.Find.{Search, found, exhausted, first_match, next_match}

abbrev pub All {κ} : (Text → Type κ) → List Text → Type κ
All P [] = Unit
All P (p ∷ ps) = P p × All P ps

abbrev pub has_text : Text → List Text → Bool
has_text q [] = false
has_text q (p ∷ ps) = text_eq p q || has_text q ps

-- No text stands twice.
abbrev pub Apart : List Text → Type 0
Apart [] = Unit {0}
Apart (p ∷ ps) = (has_text p ps ≡ false) × Apart ps

-- The texts that pass, in their order.
abbrev pub matching : (Text → Bool) → List Text → List Text
matching hit [] = []
matching hit (p ∷ ps) = if hit p then p ∷ matching hit ps else matching hit ps

-- A text that stands behind others in a list without repetition is none of them.
pub Apart-before : (q : Text) (xs ys : List Text) → Apart (xs ++ q ∷ ys) → has_text q xs ≡ false
Apart-before q [] ys a = refl
Apart-before q (x ∷ xs) ys a = ground (arith, absent q x xs ys a.0, Apart-before q xs ys a.1)
  where
    absent :
        (q x : Text) (xs ys : List Text) → has_text x (xs ++ q ∷ ys) ≡ false → text_eq x q ≡ false
    absent q x [] ys h = ground (arith, text_eq-sym x q)
    absent q x (z ∷ xs) ys h = absent q x xs ys (ground arith)

-- The walk of `FindNextFileA` goes on behind the last path.
pub next_match-behind :
    (test : Text → Option Bool) (last : Text) (xs ys : List Text)
    → has_text last xs ≡ false
    → next_match test last (xs ++ last ∷ ys) ≡ (true, first_match test ys)
unfolding next_match
next_match-behind test last [] ys h = rw (text_eq_refl last) refl
next_match-behind test last (x ∷ xs) ys h =
    let no : text_eq x last ≡ false = ground arith in
    rw no (next_match-behind test last xs ys (ground arith))

-- What the walk to the first match finds, where each test gives an answer.
abbrev pub FoundAt : (Text → Bool) → Search → List Text → Type 0
FoundAt hit r ps =
    ((r ≡ exhausted) × (matching hit ps ≡ []))
    ⊎ ((q : Text) × (xs ys : List Text) × (r ≡ found q)
        × (ps ≡ xs ++ q ∷ ys)
        × (matching hit ps ≡ q ∷ matching hit ys))

first_match-cons :
    (test : Text → Option Bool) (b : Bool) (p : Text) (ps : List Text)
    → test p ≡ some b
    → first_match test (p ∷ ps) ≡ (if b then found p else first_match test ps)
unfolding first_match
first_match-cons test b p ps e = ground (arith, e)

FoundAt-behind :
    (hit : Text → Bool) (p : Text) (ps : List Text) (r : Search)
    → hit p ≡ false
    → FoundAt hit r ps
    → FoundAt hit r (p ∷ ps)
FoundAt-behind hit p ps r n (inl (e, none_left)) = inl (e, rw n none_left)
FoundAt-behind hit p ps r n (inr (q, xs, ys, e, split, rest)) =
    inr (q, p ∷ xs, ys, e, ap (λ (zs : List Text). p ∷ zs) split, rw n rest)

pub first_match-FoundAt :
    (test : Text → Option Bool) (hit : Text → Bool) (ps : List Text)
    → ((p : Text) → test p ≡ some (hit p))
    → FoundAt hit (first_match test ps) ps
unfolding first_match
first_match-FoundAt test hit [] e = inl (refl, refl)
first_match-FoundAt test hit (p ∷ ps) e =
    subst (λ (r : Search). FoundAt hit r (p ∷ ps)) (sym (first_match-cons test (hit p) p ps (e p)))
      (elim (Bool-cases (hit p)) [
        | inl y ↦ rw y (inr (p, [], ps, refl, refl, refl))
        | inr n ↦
            subst (λ (b : Bool). FoundAt hit (if b then found p else first_match test ps) (p ∷ ps))
              (sym n)
              (FoundAt-behind hit p ps (first_match test ps) n (first_match-FoundAt test hit ps e))
      ])
