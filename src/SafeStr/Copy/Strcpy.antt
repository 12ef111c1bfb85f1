-- ===== src/SafeStr/Copy/Strcpy.antt =====
-- `strcpy_s` meets the specification of a bounded copy, whatever stands in memory.
use learn_docs.Base.{
  ℕ, ◌≤◌, ◌<◌, ◌≢◌, refl, List, String, ltb, ◌==◌, if◌then◌else◌, ne→==, le→ltb, length, arith, inl,
  inr,
}
use learn_docs.Memory.{Ptr, null, StrWithin}
use learn_docs.SafeStr.Defs.{World, Reply, Exit, esovrlp, esnospc, rsize_max_str}
use learn_docs.SafeStr.Meets.{Meets, fail-Meets}
use learn_docs.SafeStr.Outcome.{gap, outcome, outcome_cases}
use learn_docs.SafeStr.Course.{Course-start}
use learn_docs.SafeStr.Copy.{copy_loop, no_space, strcpy_s}
use learn_docs.SafeStr.Copy.Loop.{copy_loop-eok, copy_loop-esovrlp, copy_loop-ended}

-- The message of each violation in the loop.
abbrev pub strcpy_message : ℕ → String
strcpy_message code =
    if code == esovrlp
    then "strcpy_s: overlapping objects"
    else "strcpy_s: not enough space for src"

module _ (d p : Ptr) (n : ℕ) (xs : List ℕ) (w : World) (s : StrWithin w.mem p (gap d p) xs) where
  abbrev pub overlap : String
  overlap = "strcpy_s: overlapping objects"

  abbrev pub bumper : Ptr
  bumper = if ltb d p then p else d

  abbrev pub loop : Exit
  loop = copy_loop overlap (ltb d p) bumper d n n d p w

  abbrev pub reply : Reply
  reply = no_space "strcpy_s: not enough space for src" d n loop

  pub reply-Meets : Meets strcpy_message (outcome (length xs) n (gap d p)) d n xs w reply
  unfolding no_space
  reply-Meets = elim (outcome_cases (length xs) n (gap d p)) [
    | inl (e, hn, hg) ↦
        let (w', r, m, l) =
          copy_loop-eok overlap bumper d n (ltb d p) n (gap d p) d p xs w hn hg (Course-start d p)
            s in
        rw (e, r)
          (record { code_is = refl; leaves = m; silent = λ _. l; reports = λ ne. absurd (ne refl) })
    | inr (inl (e, hn, hg)) ↦
        let (w', r, m, l) =
          copy_loop-esovrlp overlap bumper d n (ltb d p) n (gap d p) d p xs w hn hg
            (Course-start d p) s in
        rw (e, r) (fail-Meets strcpy_message esovrlp d n xs w w' (omega arith) m l)
    | inr (inr (e, hn, hg)) ↦
        let (w', r, m, l) =
          copy_loop-ended overlap bumper d n (ltb d p) n (gap d p) d p xs w hn hg (Course-start d p)
            s in
        rw (e, r) (fail-Meets strcpy_message esnospc d n xs w w' (omega arith) m l)
  ]

-- For `dest` and `src` that are not null and not equal and a `dmax` from 1 to RSIZE_MAX_STR,
-- `strcpy_s` gives EOK where `src` ends both within `dmax` units and before the overlap, else
-- ESOVRLP where the overlap comes within `dmax`, else ESNOSPC. With EOK the `dmax` cells at
-- `dest` hold the string and zeros behind it, else zeros only; all other memory is as before.
-- The handler is called once with the code of a failure, and not at all with EOK.
pub strcpy_s-Meets :
    (dest : Ptr) (dmax : ℕ) (src : Ptr) (xs : List ℕ) (w : World)
    → dest ≢ null
    → src ≢ null
    → dest ≢ src
    → 0 < dmax
    → dmax ≤ rsize_max_str
    → StrWithin w.mem src (gap dest src) xs
    → Meets strcpy_message
        (outcome (length xs) dmax (gap dest src))
        dest
        dmax
        xs
        w
        (strcpy_s dest dmax src w)
unfolding strcpy_s
strcpy_s-Meets dest dmax src xs w hd hs ne pos fits s =
    rw
      (
        ne→== dest null hd,
        ne→== dmax 0 (omega arith),
        le→ltb rsize_max_str dmax fits,
        ne→== src null hs,
        ne→== dest src ne,
      )
      (reply-Meets dest src dmax xs w s)
