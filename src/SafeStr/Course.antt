-- ===== src/SafeStr/Course.antt =====
-- How the two pointers of a copying loop stand to each other and to the overlap bumper.
use learn_docs.Base.{
  ℕ, suc, ◌+◌, ◌≤◌, ◌≡◌, ◌≢◌, Bool, true, false, ltb, if◌then◌else◌, arith, Bool-cases, inl, inr,
}
use learn_docs.Memory.{Ptr, Outside}
use learn_docs.SafeStr.Outcome.{gap}

-- Where the pointers stand: the watched one is `g` short of the bumper, and `dest` is none of the
-- next `g` cells of `src`.
abbrev pub Course : Bool → Ptr → Ptr → Ptr → ℕ → Type 0
Course true bumper dest src g = (dest + g ≡ bumper) × (dest + g ≤ src)
Course false bumper dest src g = (src + g ≡ bumper) × (src + g ≤ dest)

-- One round moves the pointers on and keeps them on their course.
pub Course-step :
    (bumper : Ptr) (low : Bool) (d p : Ptr) (g : ℕ)
    → Course low bumper d p (suc g)
    → Course low bumper (d + 1) (p + 1) g
Course-step bumper true d p g c = omega arith
Course-step bumper false d p g c = omega arith

pub Course-ahead :
    (bumper : Ptr) (low : Bool) (d p : Ptr) (g : ℕ)
    → Course low bumper d p (suc g)
    → ((if low then d else p) ≢ bumper) × Outside d (p + 1) g
Course-ahead bumper true d p g c = omega arith
Course-ahead bumper false d p g c = omega arith

pub Course-end :
    (bumper : Ptr) (low : Bool) (d p : Ptr)
    → Course low bumper d p 0
    → (if low then d else p) ≡ bumper
Course-end bumper true d p c = omega arith
Course-end bumper false d p c = omega arith

pub Course-start : (d p : Ptr) → Course (ltb d p) (if ltb d p then p else d) d p (gap d p)
Course-start d p = elim (Bool-cases (ltb d p)) [
  | inl e ↦ rw e (ground arith)
  | inr e ↦ rw e (ground arith)
]
