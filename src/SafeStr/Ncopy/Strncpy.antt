-- ===== src/SafeStr/Ncopy/Strncpy.antt =====
-- `strncpy_s` meets the specification of a bounded copy, whatever stands in memory.
use learn_docs.Base.{
  ℕ, ◌≤◌, ◌<◌, ◌≢◌, refl, List, String, ltb, ◌==◌, if◌then◌else◌, ne→==, le→ltb, length, take,
  arith, inl, inr,
}
use learn_docs.Memory.{Ptr, null, StrWithin}
use learn_docs.SafeStr.Defs.{World, esovrlp, esnospc, rsize_max_str}
use learn_docs.SafeStr.Meets.{Meets, fail-Meets}
use learn_docs.SafeStr.Outcome.{gap, outcome, outcome_cases}
use learn_docs.SafeStr.Course.{Course-start}
use learn_docs.SafeStr.Ncopy.{ncopy_loop, truncate, strncpy_s}
use learn_docs.SafeStr.Ncopy.Loop.{ncopy_loop-eok, ncopy_loop-esovrlp, ncopy_loop-ended}

-- The message of each violation in the loop.
abbrev pub strncpy_message : ℕ → String
strncpy_message code =
    if code == esovrlp
    then "strncpy_s: overlapping objects"
    else "strncpy_s: not enough space for src"

module _ (d p : Ptr) (k n : ℕ) (xs : List ℕ) (w : World) (s : StrWithin w.mem p (gap d p) xs) where
  abbrev overlap : String
  overlap = "strncpy_s: overlapping objects"

  abbrev bumper : Ptr
  bumper = if ltb d p then p else d

  -- Without truncation.
  reply-Meets :
      k ≢ rsize_max_str
      → Meets strncpy_message
          (outcome (length (take k xs)) n (gap d p))
          d
          n
          (take k xs)
          w
          (truncate k d n (ncopy_loop overlap (ltb d p) bumper d n n k d p w))
  unfolding truncate
  reply-Meets h = elim (outcome_cases (length (take k xs)) n (gap d p)) [
    | inl (e, hn, hg) ↦
        let (w', r, m, l) =
          ncopy_loop-eok overlap bumper d n (ltb d p) n (gap d p) k d p xs w hn hg
            (Course-start d p) s in
        rw (e, r)
          (record { code_is = refl; leaves = m; silent = λ _. l; reports = λ ne. absurd (ne refl) })
    | inr (inl (e, hn, hg)) ↦
        let (w', r, m, l) =
          ncopy_loop-esovrlp overlap bumper d n (ltb d p) n (gap d p) k d p xs w hn hg
            (Course-start d p) s in
        rw (e, r) (fail-Meets strncpy_message esovrlp d n (take k xs) w w' (omega arith) m l)
    | inr (inr (e, hn, hg)) ↦
        let (w', r, m, l) =
          ncopy_loop-ended overlap bumper d n (ltb d p) n (gap d p) k d p xs w hn hg
            (Course-start d p) s in
        rw (e, r, ne→== k rsize_max_str h)
          (fail-Meets strncpy_message esnospc d n (take k xs) w w' (omega arith)
            (λ a out. ground (arith, m a)) l)
  ]

-- For an `slen` above 0 and below RSIZE_MAX_STR, `dest` and `src` not null and a `dmax` from 1
-- to RSIZE_MAX_STR, `strncpy_s` does with the first `slen` units of the source string what a
-- bounded copy does: EOK, the units at `dest` and zeros behind them where they fit and end
-- before the overlap, else ESOVRLP or ESNOSPC, the `dmax` cells nulled and one handler call; all
-- other memory is as before.
pub strncpy_s-Meets :
    (dest : Ptr) (dmax : ℕ) (src : Ptr) (slen : ℕ) (xs : List ℕ) (w : World)
    → dest ≢ null
    → src ≢ null
    → 0 < dmax
    → dmax ≤ rsize_max_str
    → 0 < slen
    → slen < rsize_max_str
    → StrWithin w.mem src (gap dest src) xs
    → Meets strncpy_message
        (outcome (length (take slen xs)) dmax (gap dest src))
        dest
        dmax
        (take slen xs)
        w
        (strncpy_s dest dmax src slen w)
unfolding strncpy_s
strncpy_s-Meets dest dmax src slen xs w hd hs pos fits some_ short s =
    rw
      (
        ne→== dest null hd,
        ne→== dmax 0 (omega arith),
        le→ltb rsize_max_str dmax fits,
        ne→== src null hs,
        ne→== slen 0 (omega arith),
        le→ltb rsize_max_str slen (omega arith),
        ne→== slen rsize_max_str (omega arith),
      )
      (reply-Meets dest src slen dmax xs w s (omega arith))
