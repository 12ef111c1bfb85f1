-- ===== src/Memory/Defs.antt =====
-- Flat memory: one cell for each address, and what it means that a string stands there.
use learn_docs.Base.{
  ℕ, zero, suc, ◌+◌, ◌≡◌, ◌≢◌, ◌⊎◌, ◌≤◌, List, [], ◌∷◌, ◌==◌, if◌then◌else◌, in_range, get_or, ◌-◌,
}

abbrev pub Ptr : Type 0
Ptr = ℕ

abbrev pub null : Ptr
null = 0

abbrev pub Mem : Type 0
Mem = Ptr → ℕ

abbrev pub write : Mem → Ptr → ℕ → Mem
write m p v a = if a == p then v else m a

-- The units `xs` and a terminating NUL stand at `p`.
abbrev pub StrAt : Mem → Ptr → List ℕ → Type 0
StrAt m p [] = m p ≡ 0
StrAt m p (x ∷ xs) = (m p ≡ x) × (x ≢ 0) × StrAt m (p + 1) xs

-- The same, seen through the first `g` cells only.
abbrev pub StrWithin : Mem → Ptr → ℕ → List ℕ → Type 0
StrWithin m p zero xs = Unit {0}
StrWithin m p (suc g) [] = m p ≡ 0
StrWithin m p (suc g) (x ∷ xs) = (m p ≡ x) × (x ≢ 0) × StrWithin m (p + 1) g xs

-- `a` is none of the `g` cells from `p` on.
abbrev pub Outside : Ptr → Ptr → ℕ → Type 0
Outside a p g = (suc a ≤ p) ⊎ (p + g ≤ a)

-- `m` with the `n` cells from `d` on replaced by `xs`, zeros behind it.
abbrev pub paste : Ptr → ℕ → List ℕ → Mem → Mem
paste d n xs m a = if in_range d n a then get_or xs (a - d) 0 else m a
