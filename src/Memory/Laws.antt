-- ===== src/Memory/Laws.antt =====
-- Strings in memory survive writes elsewhere.
use native.Mathlib.Decide.{dec_lt}
use learn_docs.Base.{
  ℕ, zero, suc, ◌+◌, ◌-◌, ◌<◌, ◌≡◌, ap, inl, inr, List, [], ◌∷◌, arith, get_or, ◌==◌, Bool-cases,
  take, length, ◌≤◌, length-take, get_or-beyond, get_or-take, ◌++◌, ◌∙◌, sym,
}
use learn_docs.Memory.Defs.{Ptr, Mem, write, StrAt, StrWithin, Outside, paste}

pub StrAt-StrWithin : (m : Mem) (p : Ptr) (g : ℕ) (xs : List ℕ) → StrAt m p xs → StrWithin m p g xs
StrAt-StrWithin m p zero xs s = tt
StrAt-StrWithin m p (suc g) [] s = s
StrAt-StrWithin m p (suc g) (x ∷ xs) s = (s.0, s.1, StrAt-StrWithin m (p + 1) g xs s.2)

pub StrWithin-write :
    (m : Mem) (p : Ptr) (g : ℕ) (xs : List ℕ) (a v : ℕ)
    → Outside a p g
    → StrWithin m p g xs
    → StrWithin (write m a v) p g xs
StrWithin-write m p zero xs a v o s = tt
StrWithin-write m p (suc g) [] a v o s = ground arith
StrWithin-write m p (suc g) (x ∷ xs) a v o s =
    (ground arith, s.1, StrWithin-write m (p + 1) g xs a v (omega arith) s.2)

get_or-cons : (x : ℕ) (xs : List ℕ) (i : ℕ) → 0 < i → get_or (x ∷ xs) i 0 ≡ get_or xs (i - 1) 0
get_or-cons x xs zero h = absurd (omega arith)
get_or-cons x xs (suc i) h = ap (λ (k : ℕ). get_or xs k 0) (omega arith)

-- Writing a list from its head on.
pub paste-cons :
    (d : Ptr) (n x : ℕ) (xs : List ℕ) (m : Mem) (a : Ptr)
    → paste (d + 1) n xs (write m d x) a ≡ paste d (suc n) (x ∷ xs) m a
paste-cons d n x xs m a = elim (dec_lt d a) [
  | yes h ↦
      let e : a - (d + 1) ≡ a - d - 1 = omega arith in
      ground (arith, get_or-cons x xs (a - d), ap (λ (k : ℕ). get_or xs k 0) e)
  | no h ↦ elim (Bool-cases (a == d)) [
    | inl e ↦
        let z : a - d ≡ 0 = ground arith in ground (arith, ap (λ (k : ℕ). get_or (x ∷ xs) k 0) z)
    | inr e ↦ ground arith
  ]
]

-- Ending a list that fills its room by a zero.
pub paste-end :
    (d : Ptr) (n : ℕ) (xs : List ℕ) (m : Mem) (a : Ptr)
    → write (paste d n xs m) (d + n) 0 a ≡ paste d (suc n) (take n xs) m a
paste-end d n xs m a = elim (Bool-cases (a == d + n)) [
  | inl e ↦
      let full : length (take n xs) ≤ a - d = ground (arith, length-take n xs) in
      ground (arith, get_or-beyond (take n xs) (a - d) 0 full)
  | inr e ↦ ground (arith, get_or-take n xs (a - d) 0)
]

paste-head :
    (d : Ptr) (n x : ℕ) (ys : List ℕ) (m : Mem) (a : Ptr)
    → m d ≡ x
    → paste (d + 1) n ys m a ≡ paste d (suc n) (x ∷ ys) m a
paste-head d n x ys m a e = ground (arith, paste-cons d n x ys m a)

-- Writing behind a string that stands already is writing the two together.
pub paste-append :
    (d : Ptr) (n : ℕ) (ds xs : List ℕ) (m : Mem) (a : Ptr)
    → length ds < n
    → StrWithin m d n ds
    → paste (d + length ds) (n - length ds) xs m a ≡ paste d n (ds ++ xs) m a
paste-append d zero ds xs m a h s = absurd (omega arith)
paste-append d (suc n) [] xs m a h s =
    let e : d + 0 ≡ d = omega arith in let f : suc n - 0 ≡ suc n = omega arith in rw (e, f)
paste-append d (suc n) (x ∷ ds) xs m a h s =
    let e : d + suc (length ds) ≡ d + 1 + length ds = omega arith in
    let f : suc n - suc (length ds) ≡ n - length ds = omega arith in
    rw (e, f)
      (paste-append (d + 1) n ds xs m a (omega arith) s.2 ∙ paste-head d n x (ds ++ xs) m a s.0)

pub StrWithin-StrAt :
    (m : Mem) (p : Ptr) (g : ℕ) (xs : List ℕ) → length xs < g → StrWithin m p g xs → StrAt m p xs
StrWithin-StrAt m p zero xs h s = absurd (omega arith)
StrWithin-StrAt m p (suc g) [] h s = s
StrWithin-StrAt m p (suc g) (x ∷ xs) h s =
    (s.0, s.1, StrWithin-StrAt m (p + 1) g xs (omega arith) s.2)

-- A string that stood somewhere stands where it is pasted.
pub StrAt-paste :
    (m₀ : Mem) (p : Ptr) (m m' : Mem) (d : Ptr) (n : ℕ) (xs : List ℕ)
    → length xs < n
    → StrAt m₀ p xs
    → ((a : Ptr) → m' a ≡ paste d n xs m a)
    → StrAt m' d xs
StrAt-paste m₀ p m m' d zero xs h s e = absurd (omega arith)
StrAt-paste m₀ p m m' d (suc n) [] h s e = ground (arith, e d)
StrAt-paste m₀ p m m' d (suc n) (x ∷ xs) h s e =
    let z : d - d ≡ 0 = omega arith in
    (
      ground (arith, e d, ap (λ (k : ℕ). get_or (x ∷ xs) k 0) z),
      s.1,
      StrAt-paste m₀ (p + 1) (write m d x) m' (d + 1) n xs (omega arith) s.2
          (λ a. e a ∙ sym (paste-cons d n x xs m a)),
    )
