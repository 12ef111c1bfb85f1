-- ===== src/SafeStr/Append/Strncat.antt =====
-- `strncat_s` meets the specification of a bounded copy of the two strings together, the second one cut to `slen`.
use learn_docs.Base.{
  ℕ, zero, suc, ◌+◌, ◌-◌, ◌≤◌, ◌<◌, ◌≡◌, ◌≢◌, refl, ◌∙◌, List, ◌++◌, String, ltb, ◌==◌,
  if◌then◌else◌, ne→==, le→ltb, lt→ltb, length, take, arith, inl, inr,
}
use learn_docs.Memory.{Ptr, null, StrWithin, paste-append}
use learn_docs.SafeStr.Defs.{World, Reply, esovrlp, esnospc, esunterm, rsize_max_str}
use learn_docs.SafeStr.Effects.{paste-SameBeyond}
use learn_docs.SafeStr.Meets.{Meets, fail-Meets}
use learn_docs.SafeStr.Outcome.{outcome, outcome_cases}
use learn_docs.SafeStr.Copy.{no_space}
use learn_docs.SafeStr.Ncopy.{ncopy_loop}
use learn_docs.SafeStr.Ncopy.Loop.{ncopy_loop-eok, ncopy_loop-esovrlp, ncopy_loop-ended}
use learn_docs.SafeStr.Append.{strncat_s}
use learn_docs.SafeStr.Append.FindEnd.{find_end-ended, find_end-esunterm, find_end-esovrlp}
use learn_docs.SafeStr.Append.Start.{
  gap_behind, EndsBefore, bumper_clear, Course-behind, SameBeyond-behind,
}

-- The message of each violation.
abbrev pub strncat_message : ℕ → String
strncat_message code =
    if code == esovrlp
    then "strncat_s: overlapping objects"
    else if code == esunterm
    then "strncat_s: dest unterminated"
    else "strncat_s: not enough space for src"

abbrev overlap : String
overlap = "strncat_s: overlapping objects"

abbrev bumper_of : Ptr → Ptr → Ptr
bumper_of d p = if ltb d p then p else d

module _ (d p : Ptr) (n k : ℕ) (ds xs : List ℕ) (w : World) (t : StrWithin w.mem d n ds)
    (h : length ds < n) (before : EndsBefore d (length ds) p)
    (s : StrWithin w.mem p (gap_behind d (length ds) p) xs) where
  abbrev copied : Reply
  copied =
      no_space "strncat_s: not enough space for src" d n
        (ncopy_loop overlap (ltb d p) (bumper_of d p) d n (n - length ds) k (d + length ds) p w)

  copied-Meets :
      Meets strncat_message
        (outcome (length (take k xs)) (n - length ds) (gap_behind d (length ds) p))
        d
        n
        (ds ++ take k xs)
        w
        copied
  unfolding no_space
  copied-Meets =
      let g = gap_behind d (length ds) p in
      let course = Course-behind d (length ds) p before in
      elim (outcome_cases (length (take k xs)) (n - length ds) g) [
        | inl (e, hn, hg) ↦
            let (w', r, m, l) =
              ncopy_loop-eok overlap (bumper_of d p) d n (ltb d p) (n - length ds) g k
                (d + length ds) p xs w hn hg course s in
            rw (e, r)
              (record {
                code_is = refl;
                leaves = λ a. m a ∙ paste-append d n ds (take k xs) w.mem a h t;
                silent = λ _. l;
                reports = λ ne. absurd (ne refl);
              })
        | inr (inl (e, hn, hg)) ↦
            let (w', r, m, l) =
              ncopy_loop-esovrlp overlap (bumper_of d p) d n (ltb d p) (n - length ds) g k
                (d + length ds) p xs w hn hg course s in
            rw (e, r)
              (fail-Meets strncat_message esovrlp d n (ds ++ take k xs) w w' (omega arith)
                (SameBeyond-behind d n (length ds) w w' (omega arith) m) l)
        | inr (inr (e, hn, hg)) ↦
            let (w', r, m, l) =
              ncopy_loop-ended overlap (bumper_of d p) d n (ltb d p) (n - length ds) g k
                (d + length ds) p xs w hn hg course s in
            rw (e, r)
              (fail-Meets strncat_message esnospc d n (ds ++ take k xs) w w' (omega arith)
                (SameBeyond-behind d n (length ds) w w' (omega arith)
                  (paste-SameBeyond (d + length ds) (n - length ds) (take k xs) w w' m))
                l)
      ]

-- Under the conditions of `strcat_s` and for an `slen` up to RSIZE_MAX_STR, `strncat_s` does
-- with the first `slen` units of the source string what `strcat_s` does with all of them.
pub strncat_s-Meets :
    (dest : Ptr) (dmax : ℕ) (src : Ptr) (slen : ℕ) (ds xs : List ℕ) (w : World)
    → dest ≢ null
    → src ≢ null
    → dmax ≤ rsize_max_str
    → slen ≤ rsize_max_str
    → StrWithin w.mem dest dmax ds
    → length ds < dmax
    → EndsBefore dest (length ds) src
    → StrWithin w.mem src (gap_behind dest (length ds) src) xs
    → Meets strncat_message
        (outcome (length (take slen xs)) (dmax - length ds) (gap_behind dest (length ds) src))
        dest
        dmax
        (ds ++ take slen xs)
        w
        (strncat_s dest dmax src slen w)
unfolding strncat_s
strncat_s-Meets dest zero src slen ds xs w hd hs fits short t h before s = absurd (omega arith)
strncat_s-Meets dest (suc n) src slen ds xs w hd hs fits short t h before s =
    let e : suc n - 1 ≡ n = omega arith in
    rw
      (
        ne→== dest null hd,
        ne→== src null hs,
        le→ltb rsize_max_str slen short,
        ne→== (suc n) 0 (omega arith),
        le→ltb rsize_max_str (suc n) fits,
        e,
        find_end-ended overlap "strncat_s: dest unterminated" (ltb dest src) (bumper_of dest src)
            dest (suc n) n dest ds w (omega arith) t (bumper_clear dest (length ds) src before),
      )
      (copied-Meets dest src (suc n) slen ds xs w t h before s)

-- `strncat_s` on a `dest` that does not end within its room.
pub strncat_s-esunterm :
    (dest : Ptr) (dmax : ℕ) (src : Ptr) (slen : ℕ) (ds : List ℕ) (w : World)
    → dest ≢ null
    → src ≢ null
    → 0 < dmax
    → dmax ≤ rsize_max_str
    → slen ≤ rsize_max_str
    → StrWithin w.mem dest dmax ds
    → dmax ≤ length ds
    → EndsBefore dest dmax src
    → Meets strncat_message esunterm dest dmax ds w (strncat_s dest dmax src slen w)
unfolding strncat_s no_space
strncat_s-esunterm dest zero src slen ds w hd hs pos fits short t h before = absurd (omega arith)
strncat_s-esunterm dest (suc n) src slen ds w hd hs pos fits short t h before =
    let e : suc n - 1 ≡ n = omega arith in
    let clear = bumper_clear dest (suc n) src before in
    rw
      (
        ne→== dest null hd,
        ne→== src null hs,
        le→ltb rsize_max_str slen short,
        ne→== (suc n) 0 (omega arith),
        le→ltb rsize_max_str (suc n) fits,
        e,
        find_end-esunterm overlap "strncat_s: dest unterminated" (ltb dest src) (bumper_of dest src)
            dest (suc n) n dest ds w h t (λ i hi. clear i (omega arith)),
      )
      (fail-Meets strncat_message esunterm dest (suc n) ds w w (omega arith) (λ a out. refl)
        (refl, refl))

-- `strncat_s` on a `dest` that runs into `src` before it ends.
pub strncat_s-esovrlp :
    (dest : Ptr) (dmax : ℕ) (src : Ptr) (slen : ℕ) (ds : List ℕ) (w : World)
    → dest ≢ null
    → dest < src
    → src < dest + dmax
    → dmax ≤ rsize_max_str
    → slen ≤ rsize_max_str
    → StrWithin w.mem dest dmax ds
    → src < dest + length ds
    → Meets strncat_message esovrlp dest dmax ds w (strncat_s dest dmax src slen w)
unfolding strncat_s no_space
strncat_s-esovrlp dest zero src slen ds w hd lt room fits short t h = absurd (omega arith)
strncat_s-esovrlp dest (suc n) src slen ds w hd lt room fits short t h =
    let e : suc n - 1 ≡ n = omega arith in
    rw
      (
        ne→== dest null hd,
        ne→== src null (omega arith),
        le→ltb rsize_max_str slen short,
        ne→== (suc n) 0 (omega arith),
        le→ltb rsize_max_str (suc n) fits,
        e,
        lt→ltb dest src lt,
        find_end-esovrlp overlap "strncat_s: dest unterminated" src dest (suc n) n (src - dest) dest
            ds w (omega arith) (omega arith) (omega arith) t,
      )
      (fail-Meets strncat_message esovrlp dest (suc n) ds w w (omega arith) (λ a out. refl)
        (refl, refl))
