-- ===== src/Utf16/Search.antt =====
-- `u16csstr` of FSPChecker/Compat/tchar.cpp.
use learn_docs.Base.{
  ℕ, zero, suc, ◌+◌, ◌<◌, ◌≤◌, ◌≡◌, ◌≢◌, refl, ap, ◌∙◌, sym, List, [], ◌∷◌, ◌==◌, length, arith,
  min, ne→==, Bool-cases, ◌⊎◌, inl, inr, get_or, ◌↔◌, is_zero, true, false, if◌then◌else◌,
}
use learn_docs.Memory.{Ptr, null, Mem, StrAt, StrAt-StrWithin}
use learn_docs.Utf16.Defs.{size_max, u16csncmp, u16cslen, str_loop, u16csstr}
use learn_docs.Utf16.Length.{u16csnlen-length}
use learn_docs.Utf16.Compare.{u16csncmp-diff, u16csncmp-equal, sub_ℕ-ne}

-- `ys` stands in `xs` from position `k` on.
abbrev pub BeginsAt : List ℕ → List ℕ → ℕ → Type 0
BeginsAt ys xs k = (i : ℕ) → i < length ys → get_or xs (k + i) 0 ≡ get_or ys i 0

-- The first difference of two strings within `n` units, if there is one.
first_difference :
    (n : ℕ) (xs ys : List ℕ)
    → ((i : ℕ) → i < n → get_or xs i 0 ≡ get_or ys i 0)
      ⊎ ((k : ℕ) × (k < n)
          × ((i : ℕ) → i < k → get_or xs i 0 ≡ get_or ys i 0)
          × (get_or xs k 0 ≢ get_or ys k 0))
first_difference zero xs ys = inl (λ i l. absurd (omega arith))
first_difference (suc n) xs ys = elim (first_difference n xs ys) [
  | inl same ↦ elim (Bool-cases (get_or xs n 0 == get_or ys n 0)) [
    | inl e ↦ inl (λ i l. elim (Bool-cases (i == n)) [
      | inl h ↦ let at : i ≡ n = ground arith in rw at (ground arith)
      | inr h ↦ same i (ground arith)
    ])
    | inr d ↦ inr (n, omega arith, same, ground arith)
  ]
  | inr (k, l, same, d) ↦ inr (k, omega arith, same, d)
]

at_start : (xs : List ℕ) (i : ℕ) → get_or xs (0 + i) 0 ≡ get_or xs i 0
at_start xs i = let e : 0 + i ≡ i = omega arith in ap (λ (k : ℕ). get_or xs k 0) e

-- What one comparison in the loop finds.
compared :
    (m : Mem) (p q : Ptr) (xs ys : List ℕ)
    → p ≢ null
    → q ≢ null
    → StrAt m p xs
    → StrAt m q ys
    → ((is_zero (u16csncmp m p q (length ys)) ≡ true) × BeginsAt ys xs 0)
      ⊎ ((is_zero (u16csncmp m p q (length ys)) ≡ false) × ¬ BeginsAt ys xs 0)
compared m p q xs ys hp hq s t =
    let within = StrAt-StrWithin m p (length ys) xs s in
    let within' = StrAt-StrWithin m q (length ys) ys t in
    elim (first_difference (length ys) xs ys) [
      | inl same ↦ inl (
        ap is_zero (u16csncmp-equal m (length ys) p q xs ys hp hq within within' same),
        λ i l. at_start xs i ∙ same i l,
      )
      | inr (k, l, same, d) ↦ inr (
        ap is_zero (u16csncmp-diff m (length ys) k p q xs ys hp hq l within within' same d)
            ∙ sub_ℕ-ne (get_or xs k 0) (get_or ys k 0) d,
        λ b. d (sym (at_start xs k) ∙ b k l),
      )
    ]

-- What a search for `ys` from `p` on, where `xs` stands, is to give.
abbrev pub Finds : List ℕ → List ℕ → Ptr → Ptr → Type 0
Finds ys xs p r =
    ((r ≡ null) × ((k : ℕ) → k < length xs → ¬ BeginsAt ys xs k))
    ⊎ ((k : ℕ) × (r ≡ p + k)
        × (k < length xs)
        × BeginsAt ys xs k
        × ((j : ℕ) → j < k → ¬ BeginsAt ys xs j))

later : (x : ℕ) (xs : List ℕ) (j i : ℕ) → get_or (x ∷ xs) (suc j + i) 0 ≡ get_or xs (j + i) 0
later x xs j i =
    let e : suc j + i ≡ suc (j + i) = omega arith in ap (λ (k : ℕ). get_or (x ∷ xs) k 0) e

-- Positions counted from the next unit.
BeginsAt-next : (ys xs : List ℕ) (x j : ℕ) → BeginsAt ys (x ∷ xs) (suc j) ↔ BeginsAt ys xs j
BeginsAt-next ys xs x j = (λ b i l. sym (later x xs j i) ∙ b i l, λ b i l. later x xs j i ∙ b i l)

misses :
    (ys xs : List ℕ) (x k : ℕ)
    → ¬ BeginsAt ys (x ∷ xs) 0
    → ((j : ℕ) → j < k → ¬ BeginsAt ys xs j)
    → (j : ℕ) → j < suc k
    → ¬ BeginsAt ys (x ∷ xs) j
misses ys xs x k miss none zero l = miss
misses ys xs x k miss none (suc j) l = λ b. none j (omega arith) ((BeginsAt-next ys xs x j).0 b)

-- A search that goes on from the next unit.
Finds-next :
    (ys xs : List ℕ) (x : ℕ) (p r : Ptr)
    → ¬ BeginsAt ys (x ∷ xs) 0
    → Finds ys xs (p + 1) r
    → Finds ys (x ∷ xs) p r
Finds-next ys xs x p r miss (inl (e, none)) = inl (e, misses ys xs x (length xs) miss none)
Finds-next ys xs x p r miss (inr (k, e, l, b, first)) =
    inr
      (suc k, omega arith, omega arith, (BeginsAt-next ys xs x k).1 b, misses ys xs x k miss first)

str_loop-Finds :
    (fuel : ℕ) (m : Mem) (p q : Ptr) (xs ys : List ℕ)
    → length xs ≤ fuel
    → p ≢ null
    → q ≢ null
    → StrAt m p xs
    → StrAt m q ys
    → Finds ys xs p (str_loop fuel m p q (length ys))
unfolding str_loop
str_loop-Finds zero m p q [] ys f hp hq s t = inl (refl, λ k l. absurd (omega arith))
str_loop-Finds zero m p q (x ∷ xs) ys f hp hq s t = absurd (omega arith)
str_loop-Finds (suc fuel) m p q [] ys f hp hq s t = rw s (inl (refl, λ k l. absurd (omega arith)))
str_loop-Finds (suc fuel) m p q (x ∷ xs) ys f hp hq s t =
    let here : (m p == 0) ≡ false = ne→== (m p) 0 (λ e. s.1 (sym s.0 ∙ e)) in
    elim (compared m p q (x ∷ xs) ys hp hq s t) [
      | inl (e, b) ↦
          rw (here, e) (inr (0, omega arith, omega arith, b, λ j l. absurd (omega arith)))
      | inr (e, miss) ↦
          rw (here, e)
            (Finds-next ys xs x p (str_loop fuel m (p + 1) q (length ys)) miss
              (str_loop-Finds fuel m (p + 1) q xs ys (omega arith) (omega arith) hq s.2 t))
    ]

-- For two strings that are not at null, a needle of 1 to SIZE_MAX - 1 units and enough fuel for
-- the units of the first string, `u16csstr` gives null where the needle stands at no position of
-- the first string, else the address of the first position at which it stands.
pub u16csstr-Finds :
    (fuel : ℕ) (m : Mem) (wcs1 wcs2 : Ptr) (xs ys : List ℕ)
    → length xs ≤ fuel
    → 0 < length ys
    → length ys < size_max
    → wcs1 ≢ null
    → wcs2 ≢ null
    → StrAt m wcs1 xs
    → StrAt m wcs2 ys
    → Finds ys xs wcs1 (u16csstr fuel m wcs1 wcs2)
unfolding u16csstr u16cslen
u16csstr-Finds fuel m p q xs ys f l u hp hq s t =
    let len : (if min size_max (length ys) == 0 then size_max else min size_max (length ys))
        ≡ length ys =
      ground arith in
    rw
      (
        ne→== p null hp,
        ne→== q null hq,
        u16csnlen-length m q size_max ys hq (StrAt-StrWithin m q size_max ys t),
        len,
      )
      (str_loop-Finds fuel m p q xs ys f hp hq s t)
