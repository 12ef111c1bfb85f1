-- ===== src/SafeMem/Order.antt =====
-- What memcmp_s.c, memcmp16_s.c and memcmp32_s.c tell of two regions.
use learn_docs.Base.{
  ℕ, zero, suc, ◌+◌, ◌<◌, ◌≤◌, ◌≡◌, ◌≢◌, ◌⊎◌, inl, inr, ◌==◌, some, ℤ, pos, refl, arith, Bool-cases,
  ap, ap₂, sym, ◌∙◌, ne→==, le→ltb,
}
use learn_docs.Memory.{Ptr, null, Mem}
use learn_docs.SafeStr.Defs.{eok}
use learn_docs.SafeMem.Defs.{MemWorld}
use learn_docs.SafeMem.Compare.{
  Compared, compare_loop, Comparison, guarded_compare, memcmp_version, memcmp_s, memcmp16_version,
  memcmp16_s, memcmp32_version, memcmp32_s,
}

-- The `n` units from `p` and from `q` on agree and `d` is 0, or `d` is the order of the first two
-- that differ.
pub Ordered : (ℕ → ℕ → ℤ) → Mem → Ptr → Ptr → ℕ → ℤ → Type 0
Ordered order m p q n d =
    (((i : ℕ) → i < n → m (p + i) ≡ m (q + i)) × (d ≡ pos 0))
    ⊎ ((k : ℕ) × (k < n)
        × ((i : ℕ) → i < k → m (p + i) ≡ m (q + i))
        × (m (p + k) ≢ m (q + k))
        × (d ≡ order (m (p + k)) (m (q + k))))

-- Units that agree from the next one on, and at the first.
same_next :
    (m : Mem) (p q k : ℕ)
    → m p ≡ m q
    → ((i : ℕ) → i < k → m (p + 1 + i) ≡ m (q + 1 + i))
    → (i : ℕ) → i < suc k
    → m (p + i) ≡ m (q + i)
same_next m p q k e h zero l =
    let a : p + 0 ≡ p = omega arith in let b : q + 0 ≡ q = omega arith in ap m a ∙ e ∙ ap m (sym b)
same_next m p q k e h (suc i) l =
    let a : p + suc i ≡ p + 1 + i = omega arith in
    let b : q + suc i ≡ q + 1 + i = omega arith in ap m a ∙ h i (omega arith) ∙ ap m (sym b)

Ordered-next :
    (order : ℕ → ℕ → ℤ) (m : Mem) (p q n : ℕ) (d : ℤ)
    → m p ≡ m q
    → Ordered order m (p + 1) (q + 1) n d
    → Ordered order m p q (suc n) d
unfolding Ordered
Ordered-next order m p q n d e (inl (h, z)) = inl (same_next m p q n e h, z)
Ordered-next order m p q n d e (inr (k, l, h, ne, z)) =
    let a : p + 1 + k ≡ p + suc k = omega arith in
    let b : q + 1 + k ≡ q + suc k = omega arith in
    inr (
      suc k,
      omega arith,
      same_next m p q k e h,
      λ f. ne (ap m a ∙ f ∙ ap m (sym b)),
      z ∙ ap₂ order (ap m a) (ap m b),
    )

compare_loop-Ordered :
    (order : ℕ → ℕ → ℤ) (m : Mem) (dmax smax p q : ℕ)
    → smax ≤ dmax
    → Ordered order m p q smax (compare_loop order m dmax smax p q)
unfolding compare_loop Ordered
compare_loop-Ordered order m zero zero p q l = inl (λ i h. absurd (omega arith), refl)
compare_loop-Ordered order m zero (suc smax) p q l = absurd (omega arith)
compare_loop-Ordered order m (suc dmax) zero p q l = inl (λ i h. absurd (omega arith), refl)
compare_loop-Ordered order m (suc dmax) (suc smax) p q l = elim (Bool-cases (m p == m q)) [
  | inl e ↦ rw e (
      Ordered-next order m p q smax (compare_loop order m dmax smax (p + 1) (q + 1)) (ground arith)
        (compare_loop-Ordered order m dmax smax (p + 1) (q + 1) (omega arith)))
  | inr e ↦
      let a : p ≡ p + 0 = omega arith in
      let b : q ≡ q + 0 = omega arith in
      rw e (
        inr (
          0,
          omega arith,
          λ i h. absurd (omega arith),
          λ f. absurd (ground (arith, e, ap m a, ap m b, f)),
          ap₂ order (ap m a) (ap m b),
        ))
]

same_region : (order : ℕ → ℕ → ℤ) (m : Mem) (p q n : ℕ) → p ≡ q → Ordered order m p q n (pos 0)
unfolding Ordered
same_region order m p q n e = inl (λ i l. ap (λ (x : ℕ). m (x + i)) e, refl)

-- A call with an object for `diff` and two regions that are not null and not too large.
abbrev pub Comparable : ℕ → Ptr → ℕ → Ptr → ℕ → Ptr → Type 0
Comparable max dest dmax src smax diff =
    (diff ≢ null) × (dest ≢ null) × (src ≢ null) × (smax ≢ 0) × (smax ≤ dmax) × (dmax ≤ max)

-- EOK, the world as it was, and a `*diff` that orders the first `smax` units.
abbrev pub Orders : Comparison → Ptr → Ptr → ℕ → MemWorld → Compared → Type 0
Orders c dest src smax w r =
    (d : ℤ) × (r ≡ (eok, some d, w)) × Ordered c.order w.mem dest src smax d

guarded_compare-Orders :
    (c : Comparison) (dest dmax src smax diff : ℕ) (w : MemWorld)
    → Comparable c.max dest dmax src smax diff
    → Orders c dest src smax w (guarded_compare c dest dmax src smax diff w)
unfolding guarded_compare
guarded_compare-Orders c dest dmax src smax diff w (h0, h1, h2, h3, h4, h5) =
    let full : dmax ≢ 0 = omega arith in
    elim (Bool-cases (dest == src)) [
      | inl e ↦
          rw
            (
              ne→== diff null h0,
              ne→== dest null h1,
              ne→== src null h2,
              ne→== dmax 0 full,
              le→ltb c.max dmax h5,
              ne→== smax 0 h3,
              le→ltb dmax smax h4,
              e,
            )
            (pos 0, refl, same_region c.order w.mem dest src smax (ground arith))
      | inr e ↦
          rw
            (
              ne→== diff null h0,
              ne→== dest null h1,
              ne→== src null h2,
              ne→== dmax 0 full,
              le→ltb c.max dmax h5,
              ne→== smax 0 h3,
              le→ltb dmax smax h4,
              e,
            )
            (
              compare_loop c.order w.mem dmax smax dest src,
              refl,
              compare_loop-Ordered c.order w.mem dmax smax dest src h4,
            )
    ]

-- For `diff`, `dest` and `src` not null, an `smax` from 1 to `dmax` and a `dmax` up to
-- RSIZE_MAX_MEM, `memcmp_s` gives EOK, changes nothing but `*diff`, and stores there 0 where the
-- first `smax` bytes agree, else -1 or 1 by the first two that differ.
pub memcmp_s-Orders :
    (dest dmax src smax diff : ℕ) (w : MemWorld)
    → Comparable memcmp_version.max dest dmax src smax diff
    → Orders memcmp_version dest src smax w (memcmp_s dest dmax src smax diff w)
unfolding memcmp_s
memcmp_s-Orders = guarded_compare-Orders memcmp_version

-- The same of the 16 bit version.
memcmp16_s-Orders :
    (dest dmax src smax diff : ℕ) (w : MemWorld)
    → Comparable memcmp16_version.max dest dmax src smax diff
    → Orders memcmp16_version dest src smax w (memcmp16_s dest dmax src smax diff w)
unfolding memcmp16_s
memcmp16_s-Orders = guarded_compare-Orders memcmp16_version

-- The same of the 32 bit version, whose order is the wrapped difference.
memcmp32_s-Orders :
    (dest dmax src smax diff : ℕ) (w : MemWorld)
    → Comparable memcmp32_version.max dest dmax src smax diff
    → Orders memcmp32_version dest src smax w (memcmp32_s dest dmax src smax diff w)
unfolding memcmp32_s
memcmp32_s-Orders = guarded_compare-Orders memcmp32_version
