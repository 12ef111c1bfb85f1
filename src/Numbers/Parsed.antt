-- ===== src/Numbers/Parsed.antt =====
-- What `_i64toa` and `_ui64toa` write, read back.
use learn_docs.Base.{
  ℕ, suc, ◌+◌, ◌-◌, ◌*◌, ◌^◌, ◌<◌, ◌≤◌, ◌≡◌, ◌≢◌, refl, ap, sym, subst, ◌∙◌, inl, inr, false, ◌&&◌,
  Option, none, some, List, [], ◌∷◌, map, length, ◌==◌, ltb, leb, if◌then◌else◌, arith, Bool-cases,
  ne→==, lt→ltb, pos,
}
use learn_docs.Memory.{Ptr, null, Mem, paste}
use learn_docs.Numbers.{push_digits, fuel, digit_char, write_digits, decimal, in_buffer, ui64toa}
use learn_docs.Numbers.Digits.{value, Below, push_digits-Pushed, write_digits-paste}

-- What a character counts as a digit, 36 where it is none.
abbrev pub digit_value : ℕ → ℕ
digit_value c =
    if leb 48 c && leb c 57 then c - 48 else if leb 97 c && leb c 122 then c - 87 else 36

-- A reader of digits in a radix, behind the number `n`: `strtoull` without its blanks and signs.
pub parsed : ℕ → ℕ → List ℕ → Option ℕ
parsed radix n [] = some n
parsed radix n (c ∷ cs) =
    let rest = parsed radix (n * radix + digit_value c) cs in
    if ltb (digit_value c) radix then rest else none

pub digit_value-digit_char : (d : ℕ) → d < 36 → digit_value (digit_char d) ≡ d
digit_value-digit_char d h = ground arith

pub parsed-digits :
    (radix n : ℕ) (ds : List ℕ)
    → radix ≤ 36
    → Below radix ds
    → parsed radix n (map digit_char ds) ≡ some (value radix n ds)
unfolding parsed
parsed-digits radix n [] most b = refl
parsed-digits radix n (d ∷ ds) most b =
    rw (digit_value-digit_char d (omega (arith, b.0)), lt→ltb d radix b.0)
      (parsed-digits radix (n * radix + d) ds most b.1)

-- A call that leaves the buffer's address and a text with its NUL there.
pub record Written (radix v : ℕ) (buffer : Ptr) (m : Mem) (result : Option (Ptr × Mem))
    : Type 0 where
  pub text : List ℕ
  pub memory : Mem
  pub returns : result ≡ some (buffer, memory)
  pub holds : (a : Ptr) → memory a ≡ paste buffer (suc (length text)) text m a
  pub reads : parsed radix 0 text ≡ some v
  pub room : length text ≤ 64

pub length-map : (f : ℕ → ℕ) (xs : List ℕ) → length (map f xs) ≡ length xs
length-map f [] = refl
length-map f (x ∷ xs) = ap suc (length-map f xs)

stack-Written :
    (radix v : ℕ) (buffer : Ptr) (m : Mem) (ds : List ℕ)
    → radix ≤ 36
    → Below radix ds
    → value radix 0 ds ≡ v
    → length ds ≤ 64
    → Written radix v buffer m (in_buffer buffer m (some ds))
unfolding in_buffer
stack-Written radix v buffer m ds most b e s = record {
  text = map digit_char ds;
  memory = write_digits ds buffer m;
  returns = refl;
  holds = λ a.
      subst (λ (k : ℕ). write_digits ds buffer m a ≡ paste buffer (suc k) (map digit_char ds) m a)
        (sym (length-map digit_char ds)) (write_digits-paste ds buffer m a);
  reads = parsed-digits radix 0 ds most b ∙ ap some e;
  room = omega (arith, length-map digit_char ds, s);
}

pub digits-Written :
    (radix v : ℕ) (buffer : Ptr) (m : Mem)
    → 2 ≤ radix
    → radix ≤ 36
    → v < 2 ^ 64
    → Written radix v buffer m (in_buffer buffer m (push_digits fuel radix v []))
digits-Written radix v buffer m two most h =
    let p = push_digits-Pushed radix 64 v [] two most h tt in
    subst (λ (o : Option (List ℕ)). Written radix v buffer m (in_buffer buffer m o)) (sym p.pushes)
      (stack-Written radix v buffer m p.stack most p.below p.has_value (omega (arith, p.short)))

decimal-Written :
    (v : ℕ) (buffer : Ptr) (m : Mem)
    → v < 2 ^ 64
    → Written 10 v buffer m (in_buffer buffer m (decimal v))
unfolding decimal
decimal-Written v buffer m h = elim (Bool-cases (v == 0)) [
  | inl e ↦
      let z : v ≡ 0 = ground arith in
      rw e
        (stack-Written 10 v buffer m (0 ∷ []) (omega arith) (omega arith, tt) (sym z) (omega arith))
  | inr e ↦ rw e (digits-Written 10 v buffer m (omega arith) (omega arith) h)
]

-- For a value below 2^64, a buffer that is not null and a radix from 2 to 36, `_ui64toa` returns
-- the buffer, and leaves there a text of at most 64 characters with its NUL and all other memory
-- as before; a reader of digits in this radix reads the value back from the text.
pub ui64toa-Written :
    (v radix : ℕ) (buffer : Ptr) (m : Mem)
    → v < 2 ^ 64
    → buffer ≢ null
    → 2 ≤ radix
    → radix ≤ 36
    → Written radix v buffer m (ui64toa v buffer (pos radix) m)
unfolding ui64toa
ui64toa-Written v radix buffer m h n two most =
    let low : ltb radix 2 ≡ false = ground arith in
    let high : ltb 36 radix ≡ false = ground arith in
    rw (ne→== buffer null n, low, high)
      elim (Bool-cases (radix == 10)) [
        | inl e ↦ let ten : radix ≡ 10 = ground arith in rw (e, ten) (decimal-Written v buffer m h)
        | inr e ↦ rw e (digits-Written radix v buffer m two most h)
      ]
