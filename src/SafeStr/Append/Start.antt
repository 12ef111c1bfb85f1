-- ===== src/SafeStr/Append/Start.antt =====
-- From the end of `dest` on, an append is a bounded copy.
use learn_docs.Base.{
  ℕ, ◌+◌, ◌-◌, ◌≤◌, ◌<◌, ◌≡◌, false, arith, ltb, ltb→lt, ◌&&◌, ◌==◌, if◌then◌else◌, Bool-cases, inl,
  inr,
}
use learn_docs.Memory.{Ptr}
use learn_docs.SafeStr.Defs.{World}
use learn_docs.SafeStr.Effects.{SameBeyond}
use learn_docs.SafeStr.Course.{Course}

-- The distance to the bumper once `l` units of `dest` have been passed.
abbrev pub gap_behind : Ptr → ℕ → Ptr → ℕ
gap_behind d l p = if ltb d p then p - (d + l) else d - p

-- The end of `dest` is found before `src` begins.
abbrev pub EndsBefore : Ptr → ℕ → Ptr → Type 0
EndsBefore d l p = d < p → d + l ≤ p

pub bumper_clear :
    (d : Ptr) (l : ℕ) (p : Ptr)
    → EndsBefore d l p
    → (i : ℕ) → i < l
    → (ltb d p && (d + i == (if ltb d p then p else d))) ≡ false
bumper_clear d l p before i h = elim (Bool-cases (ltb d p)) [
  | inl e ↦ let b = before (ltb→lt d p e) in rw e (ground arith)
  | inr e ↦ rw e
]

pub Course-behind :
    (d : Ptr) (l : ℕ) (p : Ptr)
    → EndsBefore d l p
    → Course (ltb d p) (if ltb d p then p else d) (d + l) p (gap_behind d l p)
Course-behind d l p before = elim (Bool-cases (ltb d p)) [
  | inl e ↦ let b = before (ltb→lt d p e) in rw e (omega arith)
  | inr e ↦ rw e (ground arith)
]

pub SameBeyond-behind :
    (d : Ptr) (n l : ℕ) (w w' : World)
    → l ≤ n
    → SameBeyond (d + l) (n - l) w w'
    → SameBeyond d n w w'
SameBeyond-behind d n l w w' h same a out = ground (arith, same a)
