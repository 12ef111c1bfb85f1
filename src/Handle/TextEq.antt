-- ===== src/Handle/TextEq.antt =====
-- The comparison of two std::string.
use learn_docs.Base.{ℕ, ◌≡◌, refl, true, List, [], ◌∷◌, arith}
use learn_docs.Handle.Object.{text_eq}

pub text_eq_refl : (s : List ℕ) → text_eq s s ≡ true
text_eq_refl [] = refl
text_eq_refl (c ∷ s) = ground (arith, text_eq_refl s)

pub text_eq-sym : (s t : List ℕ) → text_eq s t ≡ text_eq t s
text_eq-sym [] [] = refl
text_eq-sym [] (b ∷ t) = refl
text_eq-sym (a ∷ s) [] = refl
text_eq-sym (a ∷ s) (b ∷ t) = ground (arith, text_eq-sym s t)

pub text_eq→eq : (s t : List ℕ) → text_eq s t ≡ true → s ≡ t
text_eq→eq [] [] e = refl
text_eq→eq [] (b ∷ t) e = cc
text_eq→eq (a ∷ s) [] e = cc
text_eq→eq (a ∷ s) (b ∷ t) e = ground (arith, text_eq→eq s t)
