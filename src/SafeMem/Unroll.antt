-- ===== src/SafeMem/Unroll.antt =====
-- The unrolled loops of mem_primitives_lib.c do one statement at a time what they do in blocks.
use learn_docs.Base.{
  ℕ, zero, suc, ◌+◌, ◌-◌, ◌≤◌, ◌≡◌, refl, ap, ◌∙◌, ◌==◌, leb, arith, Bool-cases, inl, inr,
}
use learn_docs.SafeMem.Primitives.{repeat, rounds}

module _ {ℓ} {S : Type ℓ} (one : S → S) where
  pub repeat-add : (j k : ℕ) (s : S) → repeat one k (repeat one j s) ≡ repeat one (j + k) s
  unfolding repeat
  repeat-add zero k s = let e : k ≡ 0 + k = omega arith in ap (λ (n : ℕ). repeat one n s) e
  repeat-add (suc j) k s =
      let e : suc (j + k) ≡ suc j + k = omega arith in
      repeat-add j k (one s) ∙ ap (λ (n : ℕ). repeat one n s) e

  -- With a fuel of at least `len`, the blocks and the fall through are `len` single statements.
  pub rounds-repeat : (fuel len : ℕ) (s : S) → len ≤ fuel → rounds one fuel len s ≡ repeat one len s
  unfolding rounds
  rounds-repeat zero len s h =
      let none : 0 ≡ len = omega arith in ap (λ (n : ℕ). repeat one n s) none
  rounds-repeat (suc fuel) len s h = elim (Bool-cases (len == 0)) [
    | inl z ↦ let none : 0 ≡ len = ground arith in rw z (ap (λ (n : ℕ). repeat one n s) none)
    | inr z ↦ elim (Bool-cases (leb len 15)) [
      | inl l ↦ rw (z, l) refl
      | inr l ↦
          let all : 16 + (len - 16) ≡ len = ground arith in
          let less : len - 16 ≤ fuel = ground arith in
          rw (z, l)
            (rounds-repeat fuel (len - 16) (repeat one 16 s) less
              ∙ repeat-add 16 (len - 16) s
              ∙ ap (λ (n : ℕ). repeat one n s) all)
    ]
  ]
