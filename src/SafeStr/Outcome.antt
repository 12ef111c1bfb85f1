-- ===== src/SafeStr/Outcome.antt =====
-- The specification of a bounded copy: which errno_t it gives and what it leaves at `dest`.
use learn_docs.Base.{
  ℕ, zero, suc, ◌+◌, ◌-◌, ◌≤◌, ◌<◌, ◌≡◌, refl, ◌&&◌, List, [], ◌∷◌, ltb, ◌==◌, if◌then◌else◌, arith,
  Bool-cases, ◌⊎◌, inl, inr,
}
use learn_docs.Memory.{Ptr, Mem, StrWithin}
use learn_docs.SafeStr.Defs.{eok, esovrlp, esnospc}

-- How far apart two pointers are.
abbrev pub gap : Ptr → Ptr → ℕ
gap dest src = if ltb dest src then src - dest else dest - src

-- The result for a source of `l` units, `n` cells of room and the bumper `g` cells away.
abbrev pub outcome : ℕ → ℕ → ℕ → ℕ
outcome l n g = if ltb l n && ltb l g then eok else if ltb g n then esovrlp else esnospc

-- What a copy with this result leaves at `dest`: the units, or nothing at all.
abbrev pub kept : ℕ → List ℕ → List ℕ
kept code xs = if code == eok then xs else []

-- The units at `p` before a NUL, `g` at most.
abbrev pub scan : Mem → Ptr → ℕ → List ℕ
scan m p zero = []
scan m p (suc g) = if m p == 0 then [] else m p ∷ scan m (p + 1) g

pub StrWithin-scan : (m : Mem) (p : Ptr) (g : ℕ) → StrWithin m p g (scan m p g)
StrWithin-scan m p zero = tt
StrWithin-scan m p (suc g) = elim (Bool-cases (m p == 0)) [
  | inl e ↦ rw e (ground arith)
  | inr e ↦ rw e (refl, ground arith, StrWithin-scan m (p + 1) g)
]

-- The three outcomes, each with the conditions under which the loop ends that way.
pub outcome_cases :
    (l n g : ℕ)
    → ((outcome l n g ≡ eok) × (l < n) × (l < g))
      ⊎ (((outcome l n g ≡ esovrlp) × (g < n) × (g ≤ l))
          ⊎ ((outcome l n g ≡ esnospc) × (n ≤ g) × (n ≤ l)))
outcome_cases l n g = elim (Bool-cases (ltb l n && ltb l g)) [
  | inl e ↦ inl (rw e refl, ground arith, ground arith)
  | inr e ↦ elim (Bool-cases (ltb g n)) [
    | inl h ↦ inr (inl (rw (e, h) refl, ground arith, ground arith))
    | inr h ↦ inr (inr (rw (e, h) refl, ground arith, ground arith))
  ]
]

pub outcome-eok : (l n g : ℕ) → outcome l n g ≡ eok → (l < n) × (l < g)
outcome-eok l n g e = ground arith

pub scan-same :
    (m m' : Mem) (p : Ptr) (g : ℕ)
    → ((a : Ptr) → p ≤ a → a < p + g → m' a ≡ m a)
    → scan m' p g ≡ scan m p g
scan-same m m' p zero same = refl
scan-same m m' p (suc g) same = ground (
  arith,
  same p (omega arith) (omega arith),
  scan-same m m' (p + 1) g (λ a l u. same a (omega arith) (omega arith)),
)
