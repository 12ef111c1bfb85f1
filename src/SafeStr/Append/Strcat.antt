-- ===== src/SafeStr/Append/Strcat.antt =====
-- `strcat_s` meets the specification of a bounded copy of the two strings together.
use learn_docs.Base.{
  ℕ, zero, suc, ◌+◌, ◌-◌, ◌≤◌, ◌<◌, ◌≡◌, ◌≢◌, refl, ◌∙◌, List, ◌++◌, String, ltb, ◌==◌,
  if◌then◌else◌, ne→==, le→ltb, lt→ltb, length, arith, inl, inr,
}
use learn_docs.Memory.{Ptr, null, StrWithin, paste-append}
use learn_docs.SafeStr.Defs.{World, Reply, esovrlp, esnospc, esunterm, rsize_max_str}
use learn_docs.SafeStr.Meets.{Meets, fail-Meets}
use learn_docs.SafeStr.Outcome.{outcome, outcome_cases}
use learn_docs.SafeStr.Copy.{copy_loop, no_space}
use learn_docs.SafeStr.Copy.Loop.{copy_loop-eok, copy_loop-esovrlp, copy_loop-ended}
use learn_docs.SafeStr.Append.{strcat_s}
use learn_docs.SafeStr.Append.FindEnd.{find_end-ended, find_end-esunterm, find_end-esovrlp}
use learn_docs.SafeStr.Append.Start.{
  gap_behind, EndsBefore, bumper_clear, Course-behind, SameBeyond-behind,
}

-- The message of each violation.
abbrev pub strcat_message : ℕ → String
strcat_message code =
    if code == esovrlp
    then "strcat_s: overlapping objects"
    else if code == esunterm
    then "strcat_s: dest unterminated"
    else "strcat_s: not enough space for src"

abbrev overlap : String
overlap = "strcat_s: overlapping objects"

abbrev bumper_of : Ptr → Ptr → Ptr
bumper_of d p = if ltb d p then p else d

module _ (d p : Ptr) (n : ℕ) (ds xs : List ℕ) (w : World) (t : StrWithin w.mem d n ds)
    (h : length ds < n) (before : EndsBefore d (length ds) p)
    (s : StrWithin w.mem p (gap_behind d (length ds) p) xs) where
  abbrev copied : Reply
  copied =
      no_space "strcat_s: not enough space for src" d n
        (copy_loop overlap (ltb d p) (bumper_of d p) d n (n - length ds) (d + length ds) p w)

  copied-Meets :
      Meets strcat_message
        (outcome (length xs) (n - length ds) (gap_behind d (length ds) p))
        d
        n
        (ds ++ xs)
        w
        copied
  unfolding no_space
  copied-Meets =
      let g = gap_behind d (length ds) p in
      let course = Course-behind d (length ds) p before in
      elim (outcome_cases (length xs) (n - length ds) g) [
        | inl (e, hn, hg) ↦
            let (w', r, m, l) =
              copy_loop-eok overlap (bumper_of d p) d n (ltb d p) (n - length ds) g (d + length ds)
                p xs w hn hg course s in
            rw (e, r)
              (record {
                code_is = refl;
                leaves = λ a. m a ∙ paste-append d n ds xs w.mem a h t;
                silent = λ _. l;
                reports = λ ne. absurd (ne refl);
              })
        | inr (inl (e, hn, hg)) ↦
            let (w', r, m, l) =
              copy_loop-esovrlp overlap (bumper_of d p) d n (ltb d p) (n - length ds) g
                (d + length ds) p xs w hn hg course s in
            rw (e, r)
              (fail-Meets strcat_message esovrlp d n (ds ++ xs) w w' (omega arith)
                (SameBeyond-behind d n (length ds) w w' (omega arith) m) l)
        | inr (inr (e, hn, hg)) ↦
            let (w', r, m, l) =
              copy_loop-ended overlap (bumper_of d p) d n (ltb d p) (n - length ds) g
                (d + length ds) p xs w hn hg course s in
            rw (e, r)
              (fail-Meets strcat_message esnospc d n (ds ++ xs) w w' (omega arith)
                (SameBeyond-behind d n (length ds) w w' (omega arith) m) l)
      ]

-- For `dest` and `src` not null, a `dmax` up to RSIZE_MAX_STR and a string at `dest` that ends
-- within `dmax` and not beyond a `src` above it, `strcat_s` gives EOK and leaves the two strings
-- joined, with zeros behind them, where the second fits into the room that is left and ends
-- before the overlap; else ESOVRLP or ESNOSPC, the `dmax` cells nulled and one handler call; all
-- other memory is as before.
pub strcat_s-Meets :
    (dest : Ptr) (dmax : ℕ) (src : Ptr) (ds xs : List ℕ) (w : World)
    → dest ≢ null
    → src ≢ null
    → dmax ≤ rsize_max_str
    → StrWithin w.mem dest dmax ds
    → length ds < dmax
    → EndsBefore dest (length ds) src
    → StrWithin w.mem src (gap_behind dest (length ds) src) xs
    → Meets strcat_message
        (outcome (length xs) (dmax - length ds) (gap_behind dest (length ds) src))
        dest
        dmax
        (ds ++ xs)
        w
        (strcat_s dest dmax src w)
unfolding strcat_s
strcat_s-Meets dest zero src ds xs w hd hs fits t h before s = absurd (omega arith)
strcat_s-Meets dest (suc n) src ds xs w hd hs fits t h before s =
    let e : suc n - 1 ≡ n = omega arith in
    rw
      (
        ne→== dest null hd,
        ne→== src null hs,
        ne→== (suc n) 0 (omega arith),
        le→ltb rsize_max_str (suc n) fits,
        e,
        find_end-ended overlap "strcat_s: dest unterminated" (ltb dest src) (bumper_of dest src)
            dest (suc n) n dest ds w (omega arith) t (bumper_clear dest (length ds) src before),
      )
      (copied-Meets dest src (suc n) ds xs w t h before s)

-- For `dest` and `src` not null, a `dmax` from 1 to RSIZE_MAX_STR, no NUL in the `dmax` cells at
-- `dest` and a `src` that is not among them, `strcat_s` gives ESUNTERM, nulls the `dmax` cells,
-- leaves all other memory as it was, and calls the handler once.
pub strcat_s-esunterm :
    (dest : Ptr) (dmax : ℕ) (src : Ptr) (ds : List ℕ) (w : World)
    → dest ≢ null
    → src ≢ null
    → 0 < dmax
    → dmax ≤ rsize_max_str
    → StrWithin w.mem dest dmax ds
    → dmax ≤ length ds
    → EndsBefore dest dmax src
    → Meets strcat_message esunterm dest dmax ds w (strcat_s dest dmax src w)
unfolding strcat_s no_space
strcat_s-esunterm dest zero src ds w hd hs pos fits t h before = absurd (omega arith)
strcat_s-esunterm dest (suc n) src ds w hd hs pos fits t h before =
    let e : suc n - 1 ≡ n = omega arith in
    let clear = bumper_clear dest (suc n) src before in
    rw
      (
        ne→== dest null hd,
        ne→== src null hs,
        ne→== (suc n) 0 (omega arith),
        le→ltb rsize_max_str (suc n) fits,
        e,
        find_end-esunterm overlap "strcat_s: dest unterminated" (ltb dest src) (bumper_of dest src)
            dest (suc n) n dest ds w h t (λ i hi. clear i (omega arith)),
      )
      (fail-Meets strcat_message esunterm dest (suc n) ds w w (omega arith) (λ a out. refl)
        (refl, refl))

-- `strcat_s` on a `dest` that runs into `src` before it ends.
pub strcat_s-esovrlp :
    (dest : Ptr) (dmax : ℕ) (src : Ptr) (ds : List ℕ) (w : World)
    → dest ≢ null
    → dest < src
    → src < dest + dmax
    → dmax ≤ rsize_max_str
    → StrWithin w.mem dest dmax ds
    → src < dest + length ds
    → Meets strcat_message esovrlp dest dmax ds w (strcat_s dest dmax src w)
unfolding strcat_s no_space
strcat_s-esovrlp dest zero src ds w hd lt room fits t h = absurd (omega arith)
strcat_s-esovrlp dest (suc n) src ds w hd lt room fits t h =
    let e : suc n - 1 ≡ n = omega arith in
    rw
      (
        ne→== dest null hd,
        ne→== src null (omega arith),
        ne→== (suc n) 0 (omega arith),
        le→ltb rsize_max_str (suc n) fits,
        e,
        lt→ltb dest src lt,
        find_end-esovrlp overlap "strcat_s: dest unterminated" src dest (suc n) n (src - dest) dest
            ds w (omega arith) (omega arith) (omega arith) t,
      )
      (fail-Meets strcat_message esovrlp dest (suc n) ds w w (omega arith) (λ a out. refl)
        (refl, refl))
