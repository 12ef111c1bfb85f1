-- ===== src/SafeStr/Append/FindEnd.antt =====
-- The search for the end of `dest`, by the way it ends. `ds` is what stands at `dest`.
use learn_docs.Base.{
  ℕ, zero, suc, ◌+◌, ◌-◌, ◌≤◌, ◌<◌, ◌≡◌, Bool, true, false, List, [], ◌∷◌, String, length, arith,
  ◌&&◌, ◌==◌,
}
use learn_docs.Memory.{Ptr, StrWithin}
use learn_docs.SafeStr.Defs.{World, returned, ended, esovrlp, esunterm, fail}
use learn_docs.SafeStr.Append.{find_end}

module _ (overlap unterminated : String) (low : Bool) (bumper od : Ptr) (on : ℕ) where
  -- The end stands within the room, and not beyond the bumper.
  pub find_end-ended :
      (n : ℕ) (d : Ptr) (ds : List ℕ) (w : World)
      → length ds ≤ n
      → StrWithin w.mem d (suc n) ds
      → ((i : ℕ) → i < length ds → (low && (d + i == bumper)) ≡ false)
      → find_end overlap unterminated low bumper od on n d w
        ≡ ended (d + length ds) (suc n - length ds) w
  unfolding find_end
  find_end-ended zero d [] w h s clear = ground arith
  find_end-ended zero d (x ∷ ds) w h s clear = absurd (omega arith)
  find_end-ended (suc n) d [] w h s clear = ground arith
  find_end-ended (suc n) d (x ∷ ds) w h s clear =
      let shifted : (i : ℕ) → i < length ds → (low && (d + 1 + i == bumper)) ≡ false =
        λ i hi. ground (arith, clear (suc i)) in
      ground (arith, clear 0, find_end-ended n (d + 1) ds w (omega arith) s.2 shifted)

  -- No end within the room.
  pub find_end-esunterm :
      (n : ℕ) (d : Ptr) (ds : List ℕ) (w : World)
      → n < length ds
      → StrWithin w.mem d (suc n) ds
      → ((i : ℕ) → i ≤ n → (low && (d + i == bumper)) ≡ false)
      → find_end overlap unterminated low bumper od on n d w
        ≡ returned (fail od on unterminated esunterm w)
  unfolding find_end
  find_end-esunterm zero d [] w h s clear = absurd (omega arith)
  find_end-esunterm zero d (x ∷ ds) w h s clear = ground (arith, clear 0)
  find_end-esunterm (suc n) d [] w h s clear = absurd (omega arith)
  find_end-esunterm (suc n) d (x ∷ ds) w h s clear =
      let shifted : (i : ℕ) → i ≤ n → (low && (d + 1 + i == bumper)) ≡ false =
        λ i hi. ground (arith, clear (suc i)) in
      ground (arith, clear 0, find_end-esunterm n (d + 1) ds w (omega arith) s.2 shifted)

-- The bumper comes before the end.
pub find_end-esovrlp :
    (overlap unterminated : String) (bumper od : Ptr) (on n g : ℕ) (d : Ptr) (ds : List ℕ)
    (w : World)
    → d + g ≡ bumper
    → g ≤ n
    → g < length ds
    → StrWithin w.mem d (suc n) ds
    → find_end overlap unterminated true bumper od on n d w
      ≡ returned (fail od on overlap esovrlp w)
unfolding find_end
find_end-esovrlp o u bumper od on n g d [] w e hn hg s = absurd (omega arith)
find_end-esovrlp o u bumper od on zero g d (x ∷ ds) w e hn hg s = ground arith
find_end-esovrlp o u bumper od on (suc n) zero d (x ∷ ds) w e hn hg s = ground arith
find_end-esovrlp o u bumper od on (suc n) (suc g) d (x ∷ ds) w e hn hg s = ground (
  arith,
  find_end-esovrlp o u bumper od on n g (d + 1) ds w (omega arith) (omega arith) (omega arith) s.2,
)
