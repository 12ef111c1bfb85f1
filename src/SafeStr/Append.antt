-- ===== src/SafeStr/Append.antt =====
-- FSPChecker/Compat/safestringlib/safeclib/strcat_s.c and strncat_s.c
mod FindEnd
pub mod Strcat
pub mod Strncat
mod Start
use learn_docs.Base.{ℕ, zero, suc, ◌+◌, ◌-◌, Bool, false, String, ◌&&◌, ◌==◌, ltb, if◌then◌else◌}
use learn_docs.Memory.{Ptr, null}
use learn_docs.SafeStr.Defs.{
  World, Exit, returned, ended, Reply, esnullp, eszerol, eslemax, esovrlp, esunterm, rsize_max_str,
  refuse, fail,
}
use learn_docs.SafeStr.Copy.{copy_loop, no_space}
use learn_docs.SafeStr.Ncopy.{ncopy_loop}

-- `while (*dest != '\0')`, which looks for the end of `dest`, with `dmax` at `suc n`. Only the copy
-- of it for `dest < src`, here `low`, tests for overlap. The two messages are the routine's own.
pub find_end : String → String → Bool → Ptr → Ptr → ℕ → ℕ → Ptr → World → Exit
find_end overlap unterminated low overlap_bumper orig_dest orig_dmax zero dest w =
    if w.mem dest == 0
    then ended dest 1 w
    else if low && (dest == overlap_bumper)
    then returned (fail orig_dest orig_dmax overlap esovrlp w)
    else returned (fail orig_dest orig_dmax unterminated esunterm w)
find_end overlap unterminated low overlap_bumper orig_dest orig_dmax (suc n) dest w =
    let rest =
      find_end overlap unterminated low overlap_bumper orig_dest orig_dmax n (dest + 1) w in
    if w.mem dest == 0
    then ended dest (suc (suc n)) w
    else if low && (dest == overlap_bumper)
    then returned (fail orig_dest orig_dmax overlap esovrlp w)
    else rest

-- The second loop starts where the first one ended.
abbrev pub and_then : Exit → (Ptr → ℕ → World → Exit) → Exit
and_then (returned r) k = returned r
and_then (ended dest dmax w) k = k dest dmax w

pub strcat_s : Ptr → ℕ → Ptr → World → Reply
strcat_s dest dmax src w =
    if dest == null
    then refuse "strcat_s: dest is null" esnullp w
    else if src == null
    then refuse "strcat_s: src is null" esnullp w
    else if dmax == 0
    then refuse "strcat_s: dmax is 0" eszerol w
    else if ltb rsize_max_str dmax
    then refuse "strcat_s: dmax exceeds max" eslemax w
    else let low = ltb dest src in
      let bumper : Ptr = if low then src else dest in
      no_space "strcat_s: not enough space for src" dest dmax (
        and_then
          (find_end "strcat_s: overlapping objects" "strcat_s: dest unterminated" low bumper dest
            dmax (dmax - 1) dest w)
          (λ end room w'.
            copy_loop "strcat_s: overlapping objects" low bumper dest dmax room end src w'))

pub strncat_s : Ptr → ℕ → Ptr → ℕ → World → Reply
strncat_s dest dmax src slen w =
    if dest == null
    then refuse "strncat_s: dest is null" esnullp w
    else if src == null
    then refuse "strncat_s: src is null" esnullp w
    else if ltb rsize_max_str slen
    then refuse "strncat_s: slen exceeds max" eslemax w
    else if dmax == 0
    then refuse "strncat_s: dmax is 0" eszerol w
    else if ltb rsize_max_str dmax
    then refuse "strncat_s: dmax exceeds max" eslemax w
    else let low = ltb dest src in
      let bumper : Ptr = if low then src else dest in
      no_space "strncat_s: not enough space for src" dest dmax (
        and_then
          (find_end "strncat_s: overlapping objects" "strncat_s: dest unterminated" low bumper dest
            dmax (dmax - 1) dest w)
          (λ end room w'.
            ncopy_loop "strncat_s: overlapping objects" low bumper dest dmax room slen end src w'))
