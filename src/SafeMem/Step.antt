-- ===== src/SafeMem/Step.antt =====
-- The steps of the moving loops of mem_primitives_lib.c, upwards and downwards.
use learn_docs.Base.{
  ℕ, zero, suc, ◌+◌, ◌-◌, ◌*◌, ◌≤◌, ◌≡◌, refl, ap, sym, ◌∙◌, ◌==◌, arith, Bool-cases, inl, inr,
  if◌then◌else◌, in_range, subst,
}
use learn_docs.Memory.{Ptr, Mem, write}
use learn_docs.SafeMem.Primitives.{
  Cursor, repeat, move_one, back_one, copy_word, move_word, back_word,
}

-- `m` with the `n` cells from `d` on as those from `s` on were.
abbrev pub moved : Ptr → Ptr → ℕ → Mem → Mem
moved d s n m a = if in_range d n a then m (s + (a - d)) else m a

-- Both pointers have gone up over `n` cells, and these are moved.
abbrev pub Ups : Cursor → ℕ → Cursor → Type 0
Ups c n c' = (c'.0 ≡ c.0 + n) × (c'.1 ≡ c.1 + n) × ((a : Ptr) → c'.2 a ≡ moved c.0 c.1 n c.2 a)

-- Both pointers have come down over `n` cells, and these are moved.
abbrev pub Downs : Cursor → ℕ → Cursor → Type 0
Downs c n c' = (c'.0 + n ≡ c.0) × (c'.1 + n ≡ c.1) × ((a : Ptr) → c'.2 a ≡ moved c'.0 c'.1 n c.2 a)

-- A move of `p + q` cells upwards, one part after the other.
moved-up :
    (d s p q : ℕ) (m m' m'' : Mem)
    → d ≤ s
    → ((a : Ptr) → m' a ≡ moved d s p m a)
    → ((a : Ptr) → m'' a ≡ moved (d + p) (s + p) q m' a)
    → (a : Ptr) → m'' a ≡ moved d s (p + q) m a
moved-up d s p q m m' m'' l h k a = elim (Bool-cases (in_range (d + p) q a)) [
  | inl i ↦
      let e : s + p + (a - (d + p)) ≡ s + (a - d) = ground arith in
      let kept : m' (s + (a - d)) ≡ m (s + (a - d)) = ground (arith, h (s + (a - d))) in
      ground (arith, k a, ap m' e, kept)
  | inr i ↦ ground (arith, k a, h a)
]

moved-down :
    (d s p q : ℕ) (m m' m'' : Mem)
    → s ≤ d
    → ((a : Ptr) → m' a ≡ moved (d + q) (s + q) p m a)
    → ((a : Ptr) → m'' a ≡ moved d s q m' a)
    → (a : Ptr) → m'' a ≡ moved d s (p + q) m a
moved-down d s p q m m' m'' l h k a = elim (Bool-cases (in_range d q a)) [
  | inl i ↦
      let kept : m' (s + (a - d)) ≡ m (s + (a - d)) = ground (arith, h (s + (a - d))) in
      ground (arith, k a, kept)
  | inr i ↦ elim (Bool-cases (in_range (d + q) p a)) [
    | inl j ↦
        let e : s + q + (a - (d + q)) ≡ s + (a - d) = ground arith in
        ground (arith, k a, h a, ap m e)
    | inr j ↦ ground (arith, k a, h a)
  ]
]

pub Ups-append :
    (p q : ℕ) (c c' c'' : Cursor) → c.0 ≤ c.1 → Ups c p c' → Ups c' q c'' → Ups c (p + q) c''
Ups-append p q c c' c'' l (e, f, h) (e', f', k) = (
  omega (arith, e, e'),
  omega (arith, f, f'),
  moved-up c.0 c.1 p q c.2 c'.2 c''.2 l h (λ a.
      k a ∙ ap (λ (x : ℕ). moved x c'.1 q c'.2 a) e ∙ ap (λ (x : ℕ). moved (c.0 + p) x q c'.2 a) f),
)

pub Downs-append :
    (p q : ℕ) (c c' c'' : Cursor) → c.1 ≤ c.0 → Downs c p c' → Downs c' q c'' → Downs c (p + q) c''
Downs-append p q c c' c'' l (e, f, h) (e', f', k) = (
  omega (arith, e, e'),
  omega (arith, f, f'),
  moved-down c''.0 c''.1 p q c.2 c'.2 c''.2 (omega (arith, e, f, e', f'))
      (λ a.
        h a
        ∙ ap (λ (x : ℕ). moved x c'.1 p c.2 a) (sym e')
        ∙ ap (λ (x : ℕ). moved (c''.0 + q) x p c.2 a) (sym f'))
      k,
)

copy_word-moved : (d s : ℕ) (m : Mem) (a : Ptr) → copy_word d s m a ≡ moved d s 4 m a
unfolding copy_word
copy_word-moved d s m a = elim (Bool-cases (in_range d 4 a)) [
  | inl i ↦ elim (Bool-cases (a == d)) [
    | inl e ↦ let o : s + (a - d) ≡ s = ground arith in ground (arith, ap m o)
    | inr n0 ↦ elim (Bool-cases (a == d + 1)) [
      | inl e ↦ let o : s + (a - d) ≡ s + 1 = ground arith in ground (arith, ap m o)
      | inr n1 ↦ elim (Bool-cases (a == d + 2)) [
        | inl e ↦ let o : s + (a - d) ≡ s + 2 = ground arith in ground (arith, ap m o)
        | inr n2 ↦ let o : s + (a - d) ≡ s + 3 = ground arith in ground (arith, ap m o)
      ]
    ]
  ]
  | inr i ↦ ground arith
]

one-moved : (d s : ℕ) (m : Mem) (a : Ptr) → write m d (m s) a ≡ moved d s 1 m a
one-moved d s m a = elim (Bool-cases (a == d)) [
  | inl e ↦ let o : s + (a - d) ≡ s = ground arith in ground (arith, ap m o)
  | inr e ↦ ground arith
]

-- A step that goes over `w` cells, `k` times: `f k` cells.
module _ (one : Cursor → Cursor) (w : ℕ) (f : ℕ → ℕ) (f0 : f 0 ≡ 0)
    (fs : (k : ℕ) → f (suc k) ≡ w + f k) where
  repeat-Ups :
      ((c : Cursor) → Ups c w (one c))
      → (k : ℕ) (c : Cursor) → c.0 ≤ c.1
      → Ups c (f k) (repeat one k c)
  unfolding repeat
  repeat-Ups up zero c l = (omega (arith, f0), omega (arith, f0), λ a. ground (arith, f0))
  repeat-Ups up (suc k) c l =
      let (e, e', _) = up c in
      subst (λ (n : ℕ). Ups c n (repeat one k (one c))) (sym (fs k))
        (Ups-append w (f k) c (one c) (repeat one k (one c)) l (up c)
          (repeat-Ups up k (one c) (omega (arith, e, e'))))

  repeat-Downs :
      ((c : Cursor) → c.1 ≤ c.0 → w ≤ c.1 → Downs c w (one c))
      → (k : ℕ) (c : Cursor) → c.1 ≤ c.0
      → f k ≤ c.1
      → Downs c (f k) (repeat one k c)
  unfolding repeat
  repeat-Downs down zero c l u = (omega (arith, f0), omega (arith, f0), λ a. ground (arith, f0))
  repeat-Downs down (suc k) c l u =
      let (e, e', m) = down c l (omega (arith, fs k)) in
      subst (λ (n : ℕ). Downs c n (repeat one k (one c))) (sym (fs k))
        (Downs-append w (f k) c (one c) (repeat one k (one c)) l (e, e', m)
          (repeat-Downs down k (one c) (omega (arith, e, e')) (omega (arith, e', fs k))))

move_one-Ups : (c : Cursor) → Ups c 1 (move_one c)
unfolding move_one
move_one-Ups c = (refl, refl, one-moved c.0 c.1 c.2)

move_word-Ups : (c : Cursor) → Ups c 4 (move_word c)
unfolding move_word
move_word-Ups c = (refl, refl, copy_word-moved c.0 c.1 c.2)

back_one-Downs : (c : Cursor) → c.1 ≤ c.0 → 1 ≤ c.1 → Downs c 1 (back_one c)
unfolding back_one
back_one-Downs c l u = (omega arith, omega arith, one-moved (c.0 - 1) (c.1 - 1) c.2)

back_word-Downs : (c : Cursor) → c.1 ≤ c.0 → 4 ≤ c.1 → Downs c 4 (back_word c)
unfolding back_word
back_word-Downs c l u = (omega arith, omega arith, copy_word-moved (c.0 - 4) (c.1 - 4) c.2)

pub units-Ups : (k : ℕ) (c : Cursor) → c.0 ≤ c.1 → Ups c k (repeat move_one k c)
units-Ups = repeat-Ups move_one 1 (λ k. k) refl (λ k. omega arith) move_one-Ups

pub words-Ups : (k : ℕ) (c : Cursor) → c.0 ≤ c.1 → Ups c (k * 4) (repeat move_word k c)
words-Ups = repeat-Ups move_word 4 (λ k. k * 4) (omega arith) (λ k. omega arith) move_word-Ups

pub units-Downs : (k : ℕ) (c : Cursor) → c.1 ≤ c.0 → k ≤ c.1 → Downs c k (repeat back_one k c)
units-Downs = repeat-Downs back_one 1 (λ k. k) refl (λ k. omega arith) back_one-Downs

pub words-Downs :
    (k : ℕ) (c : Cursor) → c.1 ≤ c.0 → k * 4 ≤ c.1 → Downs c (k * 4) (repeat back_word k c)
words-Downs = repeat-Downs back_word 4 (λ k. k * 4) (omega arith) (λ k. omega arith) back_word-Downs
