-- ===== src/Utf16/Compare.antt =====
-- `u16csncmp` of FSPChecker/Compat/tchar.cpp.
use learn_docs.Base.{
  ℕ, zero, suc, ◌+◌, ◌-◌, ◌<◌, ◌≡◌, ◌≢◌, refl, ap, ap₂, ◌∙◌, sym, List, [], ◌∷◌, arith, ne→==,
  Bool-cases, inl, inr, get_or, ℤ, pos, sub_ℕ, is_zero, false, leb,
}
use learn_docs.Memory.{Ptr, null, Mem, StrWithin}
use learn_docs.Utf16.Defs.{ncmp_loop, u16csncmp}

sub_ℕ-same : (a : ℕ) → sub_ℕ a a ≡ pos 0
sub_ℕ-same a = let z : a - a ≡ 0 = omega arith in ground (arith, ap pos z)

is_zero-pos : (n : ℕ) → 0 < n → is_zero (pos n) ≡ false
is_zero-pos zero h = absurd (omega arith)
is_zero-pos (suc n) h = refl

pub sub_ℕ-ne : (a b : ℕ) → a ≢ b → is_zero (sub_ℕ a b) ≡ false
sub_ℕ-ne a b h = elim (Bool-cases (leb b a)) [
  | inl e ↦ rw e (is_zero-pos (a - b) (ground arith))
  | inr e ↦ rw e refl
]

-- One round of the loop: on at an equal unit other than 0, and out at a difference or at two ends.
ncmp_loop-on :
    (m : Mem) (n : ℕ) (p q : Ptr) (r : ℤ)
    → m p ≡ m q
    → m p ≢ 0
    → ncmp_loop m (suc n) p q r ≡ ncmp_loop m n (p + 1) (q + 1) (pos 0)
unfolding ncmp_loop
ncmp_loop-on m n p q r e h = rw (sym e) (rw (sub_ℕ-same (m p), ne→== (m p) 0 h) refl)

ncmp_loop-out :
    (m : Mem) (n : ℕ) (p q : Ptr) (r : ℤ)
    → m p ≢ m q
    → ncmp_loop m (suc n) p q r ≡ sub_ℕ (m p) (m q)
unfolding ncmp_loop
ncmp_loop-out m n p q r h = rw (sub_ℕ-ne (m p) (m q) h) refl

ncmp_loop-both_end :
    (m : Mem) (n : ℕ) (p q : Ptr) (r : ℤ) → m p ≡ 0 → m q ≡ 0 → ncmp_loop m (suc n) p q r ≡ pos 0
unfolding ncmp_loop
ncmp_loop-both_end m n p q r e f = rw (e, f) refl

module _ (m : Mem) where
  ncmp_loop-equal :
      (n : ℕ) (p q : Ptr) (xs ys : List ℕ)
      → StrWithin m p n xs
      → StrWithin m q n ys
      → ((i : ℕ) → i < n → get_or xs i 0 ≡ get_or ys i 0)
      → ncmp_loop m n p q (pos 0) ≡ pos 0
  unfolding ncmp_loop
  ncmp_loop-equal zero p q xs ys s t h = refl
  ncmp_loop-equal (suc n) p q [] [] s t h = ncmp_loop-both_end m n p q (pos 0) s t
  ncmp_loop-equal (suc n) p q [] (y ∷ ys) s t h = absurd (t.1 (sym (h 0 (omega arith))))
  ncmp_loop-equal (suc n) p q (x ∷ xs) [] s t h = absurd (s.1 (h 0 (omega arith)))
  ncmp_loop-equal (suc n) p q (x ∷ xs) (y ∷ ys) s t h =
      let same : m p ≡ m q = s.0 ∙ h 0 (omega arith) ∙ sym t.0 in
      ncmp_loop-on m n p q (pos 0) same (λ e. s.1 (sym s.0 ∙ e))
      ∙ ncmp_loop-equal n (p + 1) (q + 1) xs ys s.2 t.2 (λ i l. h (suc i) (omega arith))

  ncmp_loop-diff :
      (n k : ℕ) (p q : Ptr) (xs ys : List ℕ) (r : ℤ)
      → k < n
      → StrWithin m p n xs
      → StrWithin m q n ys
      → ((i : ℕ) → i < k → get_or xs i 0 ≡ get_or ys i 0)
      → get_or xs k 0 ≢ get_or ys k 0
      → ncmp_loop m n p q r ≡ sub_ℕ (get_or xs k 0) (get_or ys k 0)
  ncmp_loop-diff zero k p q xs ys r l s t h d = absurd (omega arith)
  ncmp_loop-diff (suc n) k p q [] [] r l s t h d = absurd (d refl)
  ncmp_loop-diff (suc n) zero p q [] (y ∷ ys) r l s t h d =
      ncmp_loop-out m n p q r (λ e. d (sym s ∙ e ∙ t.0)) ∙ ap₂ sub_ℕ s t.0
  ncmp_loop-diff (suc n) (suc k) p q [] (y ∷ ys) r l s t h d =
      absurd (t.1 (sym (h 0 (omega arith))))
  ncmp_loop-diff (suc n) zero p q (x ∷ xs) [] r l s t h d =
      ncmp_loop-out m n p q r (λ e. d (sym s.0 ∙ e ∙ t)) ∙ ap₂ sub_ℕ s.0 t
  ncmp_loop-diff (suc n) (suc k) p q (x ∷ xs) [] r l s t h d = absurd (s.1 (h 0 (omega arith)))
  ncmp_loop-diff (suc n) zero p q (x ∷ xs) (y ∷ ys) r l s t h d =
      ncmp_loop-out m n p q r (λ e. d (sym s.0 ∙ e ∙ t.0)) ∙ ap₂ sub_ℕ s.0 t.0
  ncmp_loop-diff (suc n) (suc k) p q (x ∷ xs) (y ∷ ys) r l s t h d =
      let same : m p ≡ m q = s.0 ∙ h 0 (omega arith) ∙ sym t.0 in
      ncmp_loop-on m n p q r same (λ e. s.1 (sym s.0 ∙ e))
      ∙ ncmp_loop-diff n k (p + 1) (q + 1) xs ys (pos 0) (omega arith) s.2 t.2
          (λ i l'. h (suc i) (omega arith)) d

-- For two strings not at null whose first difference within `num` units, the NUL included, is at
-- position `k`, `u16csncmp` gives the difference of the two units there.
pub u16csncmp-diff :
    (m : Mem) (num k : ℕ) (wcs1 wcs2 : Ptr) (xs ys : List ℕ)
    → wcs1 ≢ null
    → wcs2 ≢ null
    → k < num
    → StrWithin m wcs1 num xs
    → StrWithin m wcs2 num ys
    → ((i : ℕ) → i < k → get_or xs i 0 ≡ get_or ys i 0)
    → get_or xs k 0 ≢ get_or ys k 0
    → u16csncmp m wcs1 wcs2 num ≡ sub_ℕ (get_or xs k 0) (get_or ys k 0)
unfolding u16csncmp
u16csncmp-diff m num k p q xs ys hp hq l s t h d =
    rw (ne→== p null hp, ne→== q null hq) (ncmp_loop-diff m num k p q xs ys (pos 0) l s t h d)

-- For two strings not at null that agree in their first `num` units, up to their NUL,
-- `u16csncmp` gives 0.
pub u16csncmp-equal :
    (m : Mem) (num : ℕ) (wcs1 wcs2 : Ptr) (xs ys : List ℕ)
    → wcs1 ≢ null
    → wcs2 ≢ null
    → StrWithin m wcs1 num xs
    → StrWithin m wcs2 num ys
    → ((i : ℕ) → i < num → get_or xs i 0 ≡ get_or ys i 0)
    → u16csncmp m wcs1 wcs2 num ≡ pos 0
unfolding u16csncmp
u16csncmp-equal m num p q xs ys hp hq s t h =
    rw (ne→== p null hp, ne→== q null hq) (ncmp_loop-equal m num p q xs ys s t h)
