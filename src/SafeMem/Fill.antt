-- ===== src/SafeMem/Fill.antt =====
-- What the routines mem_prim_set, mem_prim_set16 and mem_prim_set32 leave in memory.
use learn_docs.Base.{
  ℕ, zero, suc, ◌+◌, ◌*◌, ◌/◌, ◌%◌, ◌<◌, ◌≡◌, refl, ap, sym, ◌∙◌, ◌==◌, arith, Bool-cases, inl, inr,
  if◌then◌else◌, in_range, subst,
}
use learn_docs.Memory.{Ptr, Mem}
use learn_docs.SafeMem.Primitives.{
  repeat, rounds, set_one, put_word, set_word, value32, set_aligned, mem_prim_set, mem_prim_set16,
  mem_prim_set32,
}
use learn_docs.SafeMem.Unroll.{rounds-repeat}

-- `m` with `value` in the `n` cells from `d` on.
abbrev pub filled : Ptr → ℕ → ℕ → Mem → Mem
filled d n value m a = if in_range d n a then value else m a

-- The pointer has gone over `n` cells, and they are filled.
abbrev Fills : Ptr → ℕ → ℕ → Mem → Ptr × Mem → Type 0
Fills d n value m s = (s.0 ≡ d + n) × ((a : Ptr) → s.1 a ≡ filled d n value m a)

filled-append :
    (d p q value : ℕ) (m m' m'' : Mem)
    → ((a : Ptr) → m' a ≡ filled d p value m a)
    → ((a : Ptr) → m'' a ≡ filled (d + p) q value m' a)
    → (a : Ptr) → m'' a ≡ filled d (p + q) value m a
filled-append d p q value m m' m'' h k a = ground (arith, h a, k a)

Fills-append :
    (d p q value : ℕ) (m : Mem) (s t : Ptr × Mem)
    → Fills d p value m s
    → Fills s.0 q value s.1 t
    → Fills d (p + q) value m t
Fills-append d p q value m s t (e, h) (f, k) = (
  omega (arith, e, f),
  filled-append d p q value m s.1 t.1 h (λ a. k a ∙ ap (λ (x : ℕ). filled x q value s.1 a) e),
)

set_one-Fills : (value : ℕ) (s : Ptr × Mem) → Fills s.0 1 value s.1 (set_one value s)
unfolding set_one
set_one-Fills value s = (refl, λ a. ground arith)

repeat-Fills : (value k : ℕ) (s : Ptr × Mem) → Fills s.0 k value s.1 (repeat (set_one value) k s)
unfolding repeat
repeat-Fills value zero s = (omega arith, λ a. ground arith)
repeat-Fills value (suc k) s =
    let e : 1 + k ≡ suc k = omega arith in
    subst (λ (n : ℕ). Fills s.0 n value s.1 (repeat (set_one value) k (set_one value s))) e
      (Fills-append s.0 1 k value s.1 (set_one value s) (repeat (set_one value) k (set_one value s))
        (set_one-Fills value s) (repeat-Fills value k (set_one value s)))

put_word-filled :
    (value : ℕ) (m : Mem) (p a : Ptr)
    → value < 256
    → put_word m p (value32 value) a ≡ filled p 4 value m a
unfolding put_word
put_word-filled value m p a h =
    let b0 : value32 value % 256 ≡ value = omega arith in
    let b1 : value32 value / 256 % 256 ≡ value = omega arith in
    let b2 : value32 value / 65_536 % 256 ≡ value = omega arith in
    let b3 : value32 value / 16_777_216 % 256 ≡ value = omega arith in
    rw (b0, b1, b2, b3) (ground arith)

words-Fills :
    (value k : ℕ) (s : Ptr × Mem)
    → value < 256
    → Fills s.0 (k * 4) value s.1 (repeat (set_word (value32 value)) k s)
unfolding repeat set_word
words-Fills value zero s h = (omega arith, λ a. ground arith)
words-Fills value (suc k) s h =
    let e : 4 + k * 4 ≡ suc k * 4 = omega arith in
    let next = set_word (value32 value) s in
    subst (λ (n : ℕ). Fills s.0 n value s.1 (repeat (set_word (value32 value)) k next)) e
      (Fills-append s.0 4 (k * 4) value s.1 next (repeat (set_word (value32 value)) k next)
        (refl, λ a. put_word-filled value s.1 s.0 a h) (words-Fills value k next h))

-- The bytes set to reach a word boundary, and the count that is left.
aligned-Fills :
    (count value : ℕ) (s : Ptr × Mem)
    → (p : ℕ) × (p + (set_aligned count value s).0 ≡ count)
      × Fills s.0 p value s.1 (set_aligned count value s).1
unfolding set_aligned
aligned-Fills zero value s = (0, omega arith, (omega arith, λ a. ground arith))
aligned-Fills (suc count) value s = elim (Bool-cases (s.0 % 4 == 0)) [
  | inl z ↦ simp z (0, omega arith, (omega arith, λ a. ground arith))
  | inr z ↦
      let (p, e, f) = aligned-Fills count value (set_one value s) in
      simp z (
        1 + p,
        omega (arith, e),
        Fills-append s.0 1 p value s.1 (set_one value s)
            (set_aligned count value (set_one value s)).1 (set_one-Fills value s) f,
      )
]

-- For a `value` of one byte, `mem_prim_set` leaves `value` in the `len` bytes at `dest`,
-- whatever the alignment of `dest`, and all other memory as it was.
pub mem_prim_set-filled :
    (dest len value : ℕ) (m : Mem)
    → value < 256
    → (a : Ptr) → mem_prim_set dest len value m a ≡ filled dest len value m a
unfolding mem_prim_set
mem_prim_set-filled dest len value m h a =
    let start = set_aligned len value (dest, m) in
    let k = start.0 / 4 in
    let middle = rounds (set_word (value32 value)) k k start.1 in
    let (p, e, f) = aligned-Fills len value (dest, m) in
    let words : Fills start.1.0 (k * 4) value start.1.1 middle =
      subst (Fills start.1.0 (k * 4) value start.1.1)
        (sym (rounds-repeat (set_word (value32 value)) k k start.1 (omega arith)))
        (words-Fills value k start.1 h) in
    let both = Fills-append dest p (k * 4) value m start.1 middle f words in
    let all =
      Fills-append dest (p + k * 4) (start.0 % 4) value m middle
        (repeat (set_one value) (start.0 % 4) middle) both
        (repeat-Fills value (start.0 % 4) middle) in
    let total : p + k * 4 + start.0 % 4 ≡ len = omega (arith, e) in
    all.1 a ∙ ap (λ (n : ℕ). filled dest n value m a) total

rounds-filled :
    (dp len value : ℕ) (m : Mem) (a : Ptr)
    → (rounds (set_one value) len len (dp, m)).1 a ≡ filled dp len value m a
rounds-filled dp len value m a =
    ap (λ (s : Ptr × Mem). s.1 a) (rounds-repeat (set_one value) len len (dp, m) (omega arith))
    ∙ (repeat-Fills value len (dp, m)).1 a

-- The unrolled loops of the 16 and 32 bit versions fill `len` units.
pub mem_prim_set_units-filled :
    (dp len value : ℕ) (m : Mem) (a : Ptr)
    → (mem_prim_set16 dp len value m a ≡ filled dp len value m a)
      × (mem_prim_set32 dp len value m a ≡ filled dp len value m a)
unfolding mem_prim_set16 mem_prim_set32
mem_prim_set_units-filled dp len value m a =
    (rounds-filled dp len value m a, rounds-filled dp len value m a)
