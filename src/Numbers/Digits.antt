-- ===== src/Numbers/Digits.antt =====
-- The digits that the loops of `_i64toa` and `_ui64toa` push and write.
use learn_docs.Base.{
  ℕ, zero, suc, ◌+◌, ◌-◌, ◌*◌, ◌/◌, ◌%◌, ◌^◌, ◌<◌, ◌≤◌, ◌≡◌, refl, ap, subst, ◌∙◌, inl, inr, some,
  List, [], ◌∷◌, map, length, ◌==◌, arith, Bool-cases,
}
use native.Mathlib.Omega.{div_any}
use native.Mathlib.Nat.{mod-lt}
use learn_docs.Memory.{Ptr, Mem, write, paste, paste-cons}
use learn_docs.Numbers.{push_digits, digit_char, write_digits}

-- The number that digits stand for, behind one that stands before them.
abbrev pub value : ℕ → ℕ → List ℕ → ℕ
value radix n [] = n
value radix n (d ∷ ds) = value radix (n * radix + d) ds

abbrev pub Below : ℕ → List ℕ → Type 0
Below radix [] = Unit {0}
Below radix (d ∷ ds) = (d < radix) × Below radix ds

double_quotient : (s t : ℕ) → 2 * (t / (2 + s)) ≤ t
double_quotient s t = omega (arith, div_any t (2 + s))

quotient_below : (radix n t : ℕ) → 2 ≤ radix → t < 2 ^ suc n → t / radix < 2 ^ n
quotient_below radix n t two h =
    let e : 2 + (radix - 2) ≡ radix = omega arith in
    let half : 2 * (t / radix) ≤ t =
      subst (λ (r : ℕ). 2 * (t / r) ≤ t) e (double_quotient (radix - 2) t) in
    omega (arith, half, h)

-- What the loop leaves on the stack for a number below 2^n.
pub record Pushed (radix n t : ℕ) (vx : List ℕ) : Type 0 where
  pub stack : List ℕ
  pub pushes : push_digits n radix t vx ≡ some stack
  pub has_value : value radix 0 stack ≡ value radix t vx
  pub below : Below radix stack
  pub short : length stack ≤ n + length vx

pub push_digits-Pushed :
    (radix n t : ℕ) (vx : List ℕ)
    → 2 ≤ radix
    → radix ≤ 36
    → t < 2 ^ n
    → Below radix vx
    → Pushed radix n t vx
unfolding push_digits
push_digits-Pushed radix zero t vx two most h b =
    let z : t ≡ 0 = omega (arith, h) in
    record { stack = vx; pushes = rw z refl; has_value = rw z refl; below = b; short = omega arith }
push_digits-Pushed radix (suc n) t vx two most h b = elim (Bool-cases (t == 0)) [
  | inl e ↦
      let z : t ≡ 0 = ground arith in
      record {
        stack = vx;
        pushes = rw e refl;
        has_value = rw z refl;
        below = b;
        short = omega arith;
      }
  | inr e ↦
      let small : t % radix < radix = mod-lt t (omega arith) in
      let byte : t % radix % 2 ^ 8 ≡ t % radix = omega (arith, small) in
      let v =
        push_digits-Pushed radix n (t / radix) ((t % radix) ∷ vx) two most
          (quotient_below radix n t two h) (small, b) in
      let whole : t / radix * radix + t % radix ≡ t = omega (arith, div_any t radix) in
      record {
        stack = v.stack;
        pushes = rw (e, byte) v.pushes;
        has_value = v.has_value ∙ ap (λ (x : ℕ). value radix x vx) whole;
        below = v.below;
        short = omega (arith, v.short);
      }
]

-- The digits and the NUL stand in the buffer, and all else is as before.
pub write_digits-paste :
    (vx : List ℕ) (buffer : Ptr) (m : Mem) (a : Ptr)
    → write_digits vx buffer m a ≡ paste buffer (suc (length vx)) (map digit_char vx) m a
unfolding write_digits
write_digits-paste [] buffer m a = ground arith
write_digits-paste (d ∷ vx) buffer m a =
    write_digits-paste vx (buffer + 1) (write m buffer (digit_char d)) a
    ∙ paste-cons buffer (suc (length vx)) (digit_char d) (map digit_char vx) m a
