-- ===== src/Numbers/Signed.antt =====
-- What `_i64toa` writes, read back with its sign.
use learn_docs.Base.{
  ℕ, zero, suc, ◌+◌, ◌^◌, ◌<◌, ◌≤◌, ◌≡◌, ◌≢◌, refl, ap, sym, subst, ◌∙◌, inl, inr, false, Option,
  none, some, List, [], ◌∷◌, map, length, ◌==◌, ltb, if◌then◌else◌, arith, Bool-cases, ne→==, ℤ,
  pos, negsuc,
}
use learn_docs.Memory.{Ptr, null, Mem, write, paste, paste-cons}
use learn_docs.Numbers.{
  push_digits, fuel, digit_char, write_digits, decimal, in_buffer, signed_decimal, bits, i64toa,
}
use learn_docs.Numbers.Digits.{value, Below, push_digits-Pushed, write_digits-paste}
use learn_docs.Numbers.Parsed.{parsed, parsed-digits, length-map}

abbrev pub InInt64 : ℤ → Type 0
InInt64 (pos v) = v < 2 ^ 63
InInt64 (negsuc v) = v < 2 ^ 63

abbrev pub negated : Option ℕ → Option ℤ
negated none = none
negated (some zero) = some (pos 0)
negated (some (suc n)) = some (negsuc n)

abbrev pub counted : Option ℕ → Option ℤ
counted none = none
counted (some n) = some (pos n)

-- A reader of an integer in a radix, with '-' before a negative one.
abbrev pub read_signed : ℕ → List ℕ → Option ℤ
read_signed radix [] = some (pos 0)
read_signed radix (c ∷ cs) =
    if c == 45 then negated (parsed radix 0 cs) else counted (parsed radix 0 (c ∷ cs))

-- Radix 10 shows the sign, every other radix the two's complement.
abbrev pub shown : ℕ → ℤ → ℤ
shown radix v = if radix == 10 then v else pos (bits v)

pub record SignedWritten (radix : ℕ) (v : ℤ) (buffer : Ptr) (m : Mem) (result : Option (Ptr × Mem))
    : Type 0 where
  pub text : List ℕ
  pub memory : Mem
  pub returns : result ≡ some (buffer, memory)
  pub holds : (a : Ptr) → memory a ≡ paste buffer (suc (length text)) text m a
  pub reads : read_signed radix text ≡ some v

digit_char-ne : (d : ℕ) → d < 36 → digit_char d ≢ 45
digit_char-ne d h = ground arith

read_signed-digits :
    (radix : ℕ) (ds : List ℕ)
    → radix ≤ 36
    → Below radix ds
    → read_signed radix (map digit_char ds) ≡ some (pos (value radix 0 ds))
read_signed-digits radix [] most b = refl
read_signed-digits radix (d ∷ ds) most b =
    rw (ne→== (digit_char d) 45 (digit_char-ne d (omega (arith, b.0))))
      (ap counted (parsed-digits radix 0 (d ∷ ds) most b))

pasted :
    (ds : List ℕ) (buffer : Ptr) (m : Mem) (a : Ptr)
    → write_digits ds buffer m a
      ≡ paste buffer (suc (length (map digit_char ds))) (map digit_char ds) m a
pasted ds buffer m a =
    subst (λ (k : ℕ). write_digits ds buffer m a ≡ paste buffer (suc k) (map digit_char ds) m a)
      (sym (length-map digit_char ds)) (write_digits-paste ds buffer m a)

stack-SignedWritten :
    (radix v : ℕ) (buffer : Ptr) (m : Mem) (ds : List ℕ)
    → radix ≤ 36
    → Below radix ds
    → value radix 0 ds ≡ v
    → SignedWritten radix (pos v) buffer m (in_buffer buffer m (some ds))
unfolding in_buffer
stack-SignedWritten radix v buffer m ds most b e = record {
  text = map digit_char ds;
  memory = write_digits ds buffer m;
  returns = refl;
  holds = pasted ds buffer m;
  reads = read_signed-digits radix ds most b ∙ ap (λ (x : ℕ). some (pos x)) e;
}

-- The digits of a number in radix 10.
decimal-digits :
    (v : ℕ) → v < 2 ^ 64 → (ds : List ℕ) × (decimal v ≡ some ds) × Below 10 ds × (value 10 0 ds ≡ v)
unfolding decimal
decimal-digits v h = elim (Bool-cases (v == 0)) [
  | inl e ↦ let z : v ≡ 0 = ground arith in (0 ∷ [], rw e refl, (omega arith, tt), sym z)
  | inr e ↦
      let p = push_digits-Pushed 10 64 v [] (omega arith) (omega arith) h tt in
      (p.stack, rw e p.pushes, p.below, p.has_value)
]

positive-SignedWritten :
    (radix v : ℕ) (buffer : Ptr) (m : Mem)
    → 2 ≤ radix
    → radix ≤ 36
    → v < 2 ^ 64
    → SignedWritten radix (pos v) buffer m (in_buffer buffer m (push_digits fuel radix v []))
positive-SignedWritten radix v buffer m two most h =
    let p = push_digits-Pushed radix 64 v [] two most h tt in
    subst (λ (o : Option (List ℕ)). SignedWritten radix (pos v) buffer m (in_buffer buffer m o))
      (sym p.pushes) (stack-SignedWritten radix v buffer m p.stack most p.below p.has_value)

signed_decimal-SignedWritten :
    (v : ℤ) (buffer : Ptr) (m : Mem)
    → InInt64 v
    → SignedWritten 10 v buffer m (signed_decimal buffer m v)
unfolding signed_decimal in_buffer
signed_decimal-SignedWritten (pos v) buffer m h =
    let (ds, e, b, has) = decimal-digits v (omega arith) in
    rw e (stack-SignedWritten 10 v buffer m ds (omega arith) b has)
signed_decimal-SignedWritten (negsuc v) buffer m h =
    let (ds, e, b, has) = decimal-digits (suc v) (omega arith) in
    record {
      text = 45 ∷ map digit_char ds;
      memory = write_digits ds (buffer + 1) (write m buffer 45);
      returns = rw e refl;
      holds = λ a.
          pasted ds (buffer + 1) (write m buffer 45) a
          ∙ paste-cons buffer (suc (length (map digit_char ds))) 45 (map digit_char ds) m a;
      reads = ap negated (parsed-digits 10 0 ds (omega arith) b ∙ ap some has);
    }

-- For a value of an `int64_t`, a buffer that is not null and a radix from 2 to 36, `_i64toa`
-- returns the buffer, and leaves there a text with its NUL and all other memory as before; a
-- reader of signed integers in this radix reads the value back in radix 10, and its two's
-- complement of 64 bits in every other radix.
pub i64toa-SignedWritten :
    (v : ℤ) (radix : ℕ) (buffer : Ptr) (m : Mem)
    → InInt64 v
    → buffer ≢ null
    → 2 ≤ radix
    → radix ≤ 36
    → SignedWritten radix (shown radix v) buffer m (i64toa v buffer (pos radix) m)
unfolding i64toa
i64toa-SignedWritten v radix buffer m h n two most =
    let low : ltb radix 2 ≡ false = ground arith in
    let high : ltb 36 radix ≡ false = ground arith in
    rw (ne→== buffer null n, low, high)
      elim (Bool-cases (radix == 10)) [
        | inl e ↦
            let ten : radix ≡ 10 = ground arith in
            rw (e, ten) (signed_decimal-SignedWritten v buffer m h)
        | inr e ↦ rw e (positive-SignedWritten radix (bits v) buffer m two most (bits_below v h))
      ]
  where
    bits_below : (v : ℤ) → InInt64 v → bits v < 2 ^ 64
    bits_below (pos v) h = omega arith
    bits_below (negsuc v) h = omega arith
