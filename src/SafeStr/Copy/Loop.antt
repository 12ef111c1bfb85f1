-- ===== src/SafeStr/Copy/Loop.antt =====
-- The copying loop of `strcpy_s` and `strcat_s`, by the way it ends. `xs` is what stands at `src`,
-- `n` the rounds left and `g` the distance left to the overlap bumper.
use learn_docs.Base.{
  ℕ, zero, suc, ◌+◌, ◌≤◌, ◌<◌, ◌≡◌, ◌≢◌, refl, ◌∙◌, Bool, List, [], ◌∷◌, String, if◌then◌else◌,
  length, arith,
}
use learn_docs.Memory.{Ptr, StrWithin, StrWithin-write, paste, paste-cons}
use learn_docs.SafeStr.Defs.{World, returned, ended, eok, esovrlp, poke, null_slack, fail}
use learn_docs.SafeStr.Effects.{
  SameLog, SameBeyond, SameBeyond-poke, null_slack-mem, null_slack-SameLog,
}
use learn_docs.SafeStr.Course.{Course, Course-step, Course-ahead, Course-end}
use learn_docs.SafeStr.Copy.{copy_loop}

module _ (msg : String) (bumper od : Ptr) (on : ℕ) where
  step :
      (low : Bool) (n : ℕ) (d p : Ptr) (w : World) (x : ℕ)
      → (if low then d else p) ≢ bumper
      → w.mem p ≡ x
      → x ≢ 0
      → copy_loop msg low bumper od on (suc n) d p w
        ≡ copy_loop msg low bumper od on n (d + 1) (p + 1) (poke d x w)
  unfolding copy_loop
  step low n d p w x h e ne = ground arith

  stop :
      (low : Bool) (n : ℕ) (d p : Ptr) (w : World)
      → (if low then d else p) ≢ bumper
      → w.mem p ≡ 0
      → copy_loop msg low bumper od on (suc n) d p w
        ≡ returned (eok, null_slack (suc n) d (poke d 0 w))
  unfolding copy_loop
  stop low n d p w h e = ground arith

  bump :
      (low : Bool) (n : ℕ) (d p : Ptr) (w : World)
      → (if low then d else p) ≡ bumper
      → copy_loop msg low bumper od on (suc n) d p w ≡ returned (fail od on msg esovrlp w)
  unfolding copy_loop
  bump low n d p w h = ground arith

  -- `src` ends before the room does, and before the bumper.
  pub copy_loop-eok :
      (low : Bool) (n g : ℕ) (d p : Ptr) (xs : List ℕ) (w : World)
      → length xs < n
      → length xs < g
      → Course low bumper d p g
      → StrWithin w.mem p g xs
      → (w' : World) × (copy_loop msg low bumper od on n d p w ≡ returned (eok, w'))
        × ((a : Ptr) → w'.mem a ≡ paste d n xs w.mem a)
        × SameLog w w'
  copy_loop-eok low zero g d p xs w hn hg c s = absurd (omega arith)
  copy_loop-eok low (suc n) zero d p xs w hn hg c s = absurd (omega arith)
  copy_loop-eok low (suc n) (suc g) d p [] w hn hg c s = (
    null_slack (suc n) d (poke d 0 w),
    stop low n d p w ((Course-ahead bumper low d p g c).0) s,
    λ a. ground (arith, null_slack-mem (suc n) d (poke d 0 w) a),
    null_slack-SameLog (suc n) d (poke d 0 w),
  )
  copy_loop-eok low (suc n) (suc g) d p (x ∷ xs) w hn hg c s =
      let (ahead, out) = Course-ahead bumper low d p g c in
      let (w', e, m, l) =
        copy_loop-eok low n g (d + 1) (p + 1) xs (poke d x w) (omega arith) (omega arith)
          (Course-step bumper low d p g c) (StrWithin-write w.mem (p + 1) g xs d x out s.2) in
      (w', step low n d p w x ahead s.0 s.1 ∙ e, λ a. m a ∙ paste-cons d n x xs w.mem a, l)

  -- `src` goes on to the bumper, and so does the room.
  pub copy_loop-esovrlp :
      (low : Bool) (n g : ℕ) (d p : Ptr) (xs : List ℕ) (w : World)
      → g < n
      → g ≤ length xs
      → Course low bumper d p g
      → StrWithin w.mem p g xs
      → (w' : World) × (copy_loop msg low bumper od on n d p w
          ≡ returned (fail od on msg esovrlp w'))
        × SameBeyond d n w w'
        × SameLog w w'
  copy_loop-esovrlp low zero g d p xs w hn hg c s = absurd (omega arith)
  copy_loop-esovrlp low (suc n) zero d p xs w hn hg c s =
      (w, bump low n d p w (Course-end bumper low d p c), λ a h. refl, (refl, refl))
  copy_loop-esovrlp low (suc n) (suc g) d p [] w hn hg c s = absurd (omega arith)
  copy_loop-esovrlp low (suc n) (suc g) d p (x ∷ xs) w hn hg c s =
      let (ahead, out) = Course-ahead bumper low d p g c in
      let (w', e, m, l) =
        copy_loop-esovrlp low n g (d + 1) (p + 1) xs (poke d x w) (omega arith) (omega arith)
          (Course-step bumper low d p g c) (StrWithin-write w.mem (p + 1) g xs d x out s.2) in
      (w', step low n d p w x ahead s.0 s.1 ∙ e, SameBeyond-poke d n x w w' m, l)

  -- The room ends first.
  pub copy_loop-ended :
      (low : Bool) (n g : ℕ) (d p : Ptr) (xs : List ℕ) (w : World)
      → n ≤ g
      → n ≤ length xs
      → Course low bumper d p g
      → StrWithin w.mem p g xs
      → (w' : World) × (copy_loop msg low bumper od on n d p w ≡ ended (d + n) 0 w')
        × SameBeyond d n w w'
        × SameLog w w'
  unfolding copy_loop
  copy_loop-ended low zero g d p xs w hn hg c s = (w, ground arith, λ a h. refl, (refl, refl))
  copy_loop-ended low (suc n) zero d p xs w hn hg c s = absurd (omega arith)
  copy_loop-ended low (suc n) (suc g) d p [] w hn hg c s = absurd (omega arith)
  copy_loop-ended low (suc n) (suc g) d p (x ∷ xs) w hn hg c s =
      let (ahead, out) = Course-ahead bumper low d p g c in
      let (w', e, m, l) =
        copy_loop-ended low n g (d + 1) (p + 1) xs (poke d x w) (omega arith) (omega arith)
          (Course-step bumper low d p g c) (StrWithin-write w.mem (p + 1) g xs d x out s.2) in
      (w', ground (arith, step low n d p w x ahead s.0 s.1, e), SameBeyond-poke d n x w w' m, l)
