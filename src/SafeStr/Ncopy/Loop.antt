-- ===== src/SafeStr/Ncopy/Loop.antt =====
-- The copying loop of `strncpy_s` and `strncat_s`, by the way it ends. `xs` is what stands at
-- `src`, of which `k` units at most are copied, `n` the rounds left and `g` the distance left to
-- the overlap bumper.
use learn_docs.Base.{
  ℕ, zero, suc, ◌+◌, ◌-◌, ◌≤◌, ◌<◌, ◌≡◌, ◌≢◌, refl, ◌∙◌, Bool, List, [], ◌∷◌, String, if◌then◌else◌,
  length, take, arith,
}
use learn_docs.Memory.{Ptr, StrWithin, StrWithin-write, paste, paste-cons}
use learn_docs.SafeStr.Defs.{World, returned, ended, eok, esovrlp, poke, null_slack, fail}
use learn_docs.SafeStr.Effects.{
  SameLog, SameBeyond, SameBeyond-poke, null_slack-mem, null_slack-SameLog,
}
use learn_docs.SafeStr.Course.{Course, Course-step, Course-ahead, Course-end}
use learn_docs.SafeStr.Ncopy.{ncopy_loop}

module _ (msg : String) (bumper od : Ptr) (on : ℕ) where
  step :
      (low : Bool) (n k : ℕ) (d p : Ptr) (w : World) (x : ℕ)
      → (if low then d else p) ≢ bumper
      → w.mem p ≡ x
      → x ≢ 0
      → ncopy_loop msg low bumper od on (suc n) (suc k) d p w
        ≡ ncopy_loop msg low bumper od on n k (d + 1) (p + 1) (poke d x w)
  unfolding ncopy_loop
  step low n k d p w x h e ne = let same : suc k - 1 ≡ k = omega arith in ground arith

  stop :
      (low : Bool) (n k : ℕ) (d p : Ptr) (w : World)
      → (if low then d else p) ≢ bumper
      → w.mem p ≡ 0
      → ncopy_loop msg low bumper od on (suc n) (suc k) d p w
        ≡ returned (eok, null_slack (suc n) d (poke d 0 w))
  unfolding ncopy_loop
  stop low n k d p w h e = ground arith

  cut :
      (low : Bool) (n : ℕ) (d p : Ptr) (w : World)
      → (if low then d else p) ≢ bumper
      → ncopy_loop msg low bumper od on (suc n) 0 d p w ≡ returned (eok, null_slack (suc n) d w)
  unfolding ncopy_loop
  cut low n d p w h = ground arith

  bump :
      (low : Bool) (n k : ℕ) (d p : Ptr) (w : World)
      → (if low then d else p) ≡ bumper
      → ncopy_loop msg low bumper od on (suc n) k d p w ≡ returned (fail od on msg esovrlp w)
  unfolding ncopy_loop
  bump low n k d p w h = ground arith

  -- The units to copy end before the room does, and before the bumper.
  pub ncopy_loop-eok :
      (low : Bool) (n g k : ℕ) (d p : Ptr) (xs : List ℕ) (w : World)
      → length (take k xs) < n
      → length (take k xs) < g
      → Course low bumper d p g
      → StrWithin w.mem p g xs
      → (w' : World) × (ncopy_loop msg low bumper od on n k d p w ≡ returned (eok, w'))
        × ((a : Ptr) → w'.mem a ≡ paste d n (take k xs) w.mem a)
        × SameLog w w'
  ncopy_loop-eok low zero g k d p xs w hn hg c s = absurd (omega arith)
  ncopy_loop-eok low (suc n) zero k d p xs w hn hg c s = absurd (omega arith)
  ncopy_loop-eok low (suc n) (suc g) zero d p xs w hn hg c s = (
    null_slack (suc n) d w,
    cut low n d p w ((Course-ahead bumper low d p g c).0),
    λ a. ground (arith, null_slack-mem (suc n) d w a),
    null_slack-SameLog (suc n) d w,
  )
  ncopy_loop-eok low (suc n) (suc g) (suc k) d p [] w hn hg c s = (
    null_slack (suc n) d (poke d 0 w),
    stop low n k d p w ((Course-ahead bumper low d p g c).0) s,
    λ a. ground (arith, null_slack-mem (suc n) d (poke d 0 w) a),
    null_slack-SameLog (suc n) d (poke d 0 w),
  )
  ncopy_loop-eok low (suc n) (suc g) (suc k) d p (x ∷ xs) w hn hg c s =
      let (ahead, out) = Course-ahead bumper low d p g c in
      let (w', e, m, l) =
        ncopy_loop-eok low n g k (d + 1) (p + 1) xs (poke d x w) (omega arith) (omega arith)
          (Course-step bumper low d p g c) (StrWithin-write w.mem (p + 1) g xs d x out s.2) in
      (
        w',
        step low n k d p w x ahead s.0 s.1 ∙ e,
        λ a. m a ∙ paste-cons d n x (take k xs) w.mem a,
        l,
      )

  -- They go on to the bumper, and so does the room.
  pub ncopy_loop-esovrlp :
      (low : Bool) (n g k : ℕ) (d p : Ptr) (xs : List ℕ) (w : World)
      → g < n
      → g ≤ length (take k xs)
      → Course low bumper d p g
      → StrWithin w.mem p g xs
      → (w' : World) × (ncopy_loop msg low bumper od on n k d p w
          ≡ returned (fail od on msg esovrlp w'))
        × SameBeyond d n w w'
        × SameLog w w'
  ncopy_loop-esovrlp low zero g k d p xs w hn hg c s = absurd (omega arith)
  ncopy_loop-esovrlp low (suc n) zero k d p xs w hn hg c s =
      (w, bump low n k d p w (Course-end bumper low d p c), λ a h. refl, (refl, refl))
  ncopy_loop-esovrlp low (suc n) (suc g) zero d p xs w hn hg c s = absurd (omega arith)
  ncopy_loop-esovrlp low (suc n) (suc g) (suc k) d p [] w hn hg c s = absurd (omega arith)
  ncopy_loop-esovrlp low (suc n) (suc g) (suc k) d p (x ∷ xs) w hn hg c s =
      let (ahead, out) = Course-ahead bumper low d p g c in
      let (w', e, m, l) =
        ncopy_loop-esovrlp low n g k (d + 1) (p + 1) xs (poke d x w) (omega arith) (omega arith)
          (Course-step bumper low d p g c) (StrWithin-write w.mem (p + 1) g xs d x out s.2) in
      (w', step low n k d p w x ahead s.0 s.1 ∙ e, SameBeyond-poke d n x w w' m, l)

  -- The room ends first, and is full.
  pub ncopy_loop-ended :
      (low : Bool) (n g k : ℕ) (d p : Ptr) (xs : List ℕ) (w : World)
      → n ≤ g
      → n ≤ length (take k xs)
      → Course low bumper d p g
      → StrWithin w.mem p g xs
      → (w' : World) × (ncopy_loop msg low bumper od on n k d p w ≡ ended (d + n) 0 w')
        × ((a : Ptr) → w'.mem a ≡ paste d n (take k xs) w.mem a)
        × SameLog w w'
  unfolding ncopy_loop
  ncopy_loop-ended low zero g k d p xs w hn hg c s =
      (w, ground arith, λ a. ground arith, (refl, refl))
  ncopy_loop-ended low (suc n) zero k d p xs w hn hg c s = absurd (omega arith)
  ncopy_loop-ended low (suc n) (suc g) zero d p xs w hn hg c s = absurd (omega arith)
  ncopy_loop-ended low (suc n) (suc g) (suc k) d p [] w hn hg c s = absurd (omega arith)
  ncopy_loop-ended low (suc n) (suc g) (suc k) d p (x ∷ xs) w hn hg c s =
      let (ahead, out) = Course-ahead bumper low d p g c in
      let (w', e, m, l) =
        ncopy_loop-ended low n g k (d + 1) (p + 1) xs (poke d x w) (omega arith) (omega arith)
          (Course-step bumper low d p g c) (StrWithin-write w.mem (p + 1) g xs d x out s.2) in
      (
        w',
        ground (arith, step low n k d p w x ahead s.0 s.1, e),
        λ a. m a ∙ paste-cons d n x (take k xs) w.mem a,
        l,
      )
