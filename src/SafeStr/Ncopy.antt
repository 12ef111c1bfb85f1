-- ===== src/SafeStr/Ncopy.antt =====
-- FSPChecker/Compat/safestringlib/safeclib/strncpy_s.c
pub mod Loop
pub mod Strncpy
pub mod Truncate
use learn_docs.Base.{ℕ, zero, suc, ◌+◌, ◌-◌, Bool, String, ◌==◌, ltb, if◌then◌else◌}
use learn_docs.Memory.{Ptr, null}
use learn_docs.SafeStr.Defs.{
  World, Exit, returned, ended, Reply, eok, esnullp, eszerol, eslemax, esovrlp, esnospc,
  rsize_max_str, poke, null_slack, refuse, fail,
}

-- The copying loop of `strncpy_s`; `strncat_s` has the same one behind its own message. `low` is
-- the copy of it for `dest < src`. (The loop's `slen--` is never reached at 0.)
pub ncopy_loop : String → Bool → Ptr → Ptr → ℕ → ℕ → ℕ → Ptr → Ptr → World → Exit
ncopy_loop overlap low overlap_bumper orig_dest orig_dmax zero slen dest src w = ended dest 0 w
ncopy_loop overlap low overlap_bumper orig_dest orig_dmax (suc dmax) slen dest src w =
    let w' = poke dest (w.mem src) w in
    let rest =
      ncopy_loop overlap low overlap_bumper orig_dest orig_dmax dmax (slen - 1) (dest + 1) (src + 1)
        w' in
    if (if low then dest else src) == overlap_bumper
    then returned (fail orig_dest orig_dmax overlap esovrlp w)
    else if slen == 0
    then returned (eok, null_slack (suc dmax) dest w)
    else if w'.mem dest == 0
    then returned (eok, null_slack (suc dmax) dest w')
    else rest

-- What follows the loop: `slen == RSIZE_MAX_STR` asks for truncation, and else the whole of `src`
-- was not copied.
pub truncate : ℕ → Ptr → ℕ → Exit → Reply
truncate orig_slen orig_dest orig_dmax (returned r) = r
truncate orig_slen orig_dest orig_dmax (ended dest dmax w) =
    if orig_slen == rsize_max_str
    then (eok, poke dest 0 w)
    else fail orig_dest orig_dmax "strncpy_s: not enough space for src" esnospc w

pub strncpy_s : Ptr → ℕ → Ptr → ℕ → World → Reply
strncpy_s dest dmax src slen w =
    if dest == null
    then refuse "strncpy_s: dest is null" esnullp w
    else if dmax == 0
    then refuse "strncpy_s: dmax is 0" eszerol w
    else if ltb rsize_max_str dmax
    then refuse "strncpy_s: dmax exceeds max" eslemax w
    else if src == null
    then fail dest dmax "strncpy_s: src is null" esnullp w
    else if slen == 0
    then fail dest dmax "strncpy_s: slen is zero" eszerol w
    else if ltb rsize_max_str slen
    then fail dest dmax "strncpy_s: slen exceeds max" eslemax w
    else truncate slen dest dmax (
        ncopy_loop "strncpy_s: overlapping objects" (ltb dest src)
          (if ltb dest src then src else dest) dest dmax
          (if slen == rsize_max_str then dmax - 1 else dmax) slen dest src w)
