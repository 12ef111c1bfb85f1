-- ===== src/SafeStr/Ncopy/Truncate.antt =====
-- `strncpy_s` with `slen == RSIZE_MAX_STR`: the source is cut to the room, and no error is raised.
use learn_docs.Base.{
  ℕ, zero, suc, ◌+◌, ◌-◌, ◌≤◌, ◌<◌, ◌≡◌, ◌≢◌, refl, ◌∙◌, List, ltb, if◌then◌else◌, ne→==, le→ltb,
  length, take, take_all, arith, inl, inr, ◌⊎◌, Bool-cases, ap, String,
}
use learn_docs.Memory.{Ptr, null, StrWithin, paste, paste-end}
use learn_docs.SafeStr.Defs.{World, Reply, eok, rsize_max_str}
use learn_docs.SafeStr.Effects.{SameLog}
use learn_docs.SafeStr.Outcome.{gap}
use learn_docs.SafeStr.Course.{Course-start}
use learn_docs.SafeStr.Ncopy.{ncopy_loop, truncate, strncpy_s}
use learn_docs.SafeStr.Ncopy.Loop.{ncopy_loop-eok, ncopy_loop-ended}

-- A cut copy of `xs` into the `n` cells at `d`. A copy that ends early leaves the last cell alone.
pub record IsCut (d : Ptr) (n : ℕ) (xs : List ℕ) (w : World) (r : Reply) : Type 0 where
  pub code_is : r.0 ≡ eok
  pub whole : length xs < n - 1 → (a : Ptr) → r.1.mem a ≡ paste d (n - 1) xs w.mem a
  pub cut : n - 1 ≤ length xs → (a : Ptr) → r.1.mem a ≡ paste d n (take (n - 1) xs) w.mem a
  pub silent : SameLog w r.1

module _ (d p : Ptr) (n : ℕ) (xs : List ℕ) (w : World) (s : StrWithin w.mem p (gap d p) xs)
    (representable : length xs ≤ rsize_max_str) where
  abbrev overlap : String
  overlap = "strncpy_s: overlapping objects"

  abbrev bumper : Ptr
  bumper = if ltb d p then p else d

  abbrev reply : Reply
  reply =
      truncate rsize_max_str d (suc n)
        (ncopy_loop overlap (ltb d p) bumper d (suc n) n rsize_max_str d p w)

  reply-IsCut_whole : length xs < n → length xs < gap d p → IsCut d (suc n) xs w reply
  unfolding truncate
  reply-IsCut_whole hn hg =
      let all = take_all rsize_max_str xs representable in
      let (w', r, m, l) =
        ncopy_loop-eok overlap bumper d (suc n) (ltb d p) n (gap d p) rsize_max_str d p xs w
          (rw all hn) (rw all hg) (Course-start d p) s in
      let e : suc n - 1 ≡ n = omega arith in
      rw r (record {
        code_is = refl;
        whole = λ h a. rw e (m a ∙ ap (λ (ys : List ℕ). paste d n ys w.mem a) all);
        cut = λ h. absurd (omega arith);
        silent = l;
      })

  reply-IsCut_short : n ≤ length xs → n ≤ gap d p → IsCut d (suc n) xs w reply
  unfolding truncate
  reply-IsCut_short hn hg =
      let all = take_all rsize_max_str xs representable in
      let (w', r, m, l) =
        ncopy_loop-ended overlap bumper d (suc n) (ltb d p) n (gap d p) rsize_max_str d p xs w hg
          (rw all hn) (Course-start d p) s in
      let e : suc n - 1 ≡ n = omega arith in
      rw r (record {
        code_is = refl;
        whole = λ h. absurd (omega arith);
        cut = λ h a. rw e (
            ground (
              arith,
              m a,
              ap (λ (ys : List ℕ). paste d n ys w.mem a) all,
              paste-end d n xs w.mem a,
            ));
        silent = l;
      })

-- With `slen` equal to RSIZE_MAX_STR (that is _TRUNCATE), for `dest` and `src` that are not
-- null, a `dmax` from 1 to RSIZE_MAX_STR and a string that ends before the overlap or a room
-- that does, `strncpy_s` gives EOK without a handler call: a string shorter than `dmax - 1` is
-- copied and zeros follow it up to the cell before the last, which is left as it was; any other
-- is cut after `dmax - 1` units and ended by a NUL.
pub strncpy_s-IsCut :
    (dest : Ptr) (dmax : ℕ) (src : Ptr) (xs : List ℕ) (w : World)
    → dest ≢ null
    → src ≢ null
    → 0 < dmax
    → dmax ≤ rsize_max_str
    → length xs ≤ rsize_max_str
    → StrWithin w.mem src (gap dest src) xs
    → (length xs < gap dest src) ⊎ (dmax ≤ gap dest src + 1)
    → IsCut dest dmax xs w (strncpy_s dest dmax src rsize_max_str w)
unfolding strncpy_s
strncpy_s-IsCut dest zero src xs w hd hs pos fits short s apart = absurd (omega arith)
strncpy_s-IsCut dest (suc n) src xs w hd hs pos fits short s apart =
    let e : suc n - 1 ≡ n = omega arith in
    rw
      (
        ne→== dest null hd,
        ne→== (suc n) 0 (omega arith),
        le→ltb rsize_max_str (suc n) fits,
        ne→== src null hs,
        e,
      )
      (elim (Bool-cases (ltb (length xs) n)) [
        | inl h ↦ reply-IsCut_whole dest src n xs w s short (ground arith) (ground arith)
        | inr h ↦ reply-IsCut_short dest src n xs w s short (ground arith) (ground arith)
      ])
