-- ===== src/SafeStr/Copy.antt =====
-- FSPChecker/Compat/safestringlib/safeclib/strcpy_s.c
pub mod Loop
pub mod Strcpy
pub mod Safety
use learn_docs.Base.{ℕ, zero, suc, ◌+◌, Bool, String, ◌==◌, ltb, if◌then◌else◌}
use learn_docs.Memory.{Ptr, null}
use learn_docs.SafeStr.Defs.{
  World, Exit, returned, ended, Reply, eok, esnullp, eszerol, eslemax, esovrlp, esnospc,
  rsize_max_str, poke, null_slack, refuse, fail,
}

-- The copying loop of `strcpy_s`; `strcat_s` has the same one behind its own message. The code has
-- it twice, once for `dest < src` (here `low`), where `dest` must not run into `src`, and once for
-- the other order, where `src` must not run into `dest`.
unfoldable pub copy_loop : String → Bool → Ptr → Ptr → ℕ → ℕ → Ptr → Ptr → World → Exit
copy_loop overlap low overlap_bumper orig_dest orig_dmax zero dest src w = ended dest 0 w
copy_loop overlap low overlap_bumper orig_dest orig_dmax (suc dmax) dest src w =
    let w' = poke dest (w.mem src) w in
    let rest =
      copy_loop overlap low overlap_bumper orig_dest orig_dmax dmax (dest + 1) (src + 1) w' in
    if (if low then dest else src) == overlap_bumper
    then returned (fail orig_dest orig_dmax overlap esovrlp w)
    else if w'.mem dest == 0
    then returned (eok, null_slack (suc dmax) dest w')
    else rest

-- What follows the loop: the whole of `src` was not copied.
unfoldable pub no_space : String → Ptr → ℕ → Exit → Reply
no_space msg orig_dest orig_dmax (returned r) = r
no_space msg orig_dest orig_dmax (ended dest dmax w) = fail orig_dest orig_dmax msg esnospc w

unfoldable pub strcpy_s : Ptr → ℕ → Ptr → World → Reply
strcpy_s dest dmax src w =
    if dest == null
    then refuse "strcpy_s: dest is null" esnullp w
    else if dmax == 0
    then refuse "strcpy_s: dmax is 0" eszerol w
    else if ltb rsize_max_str dmax
    then refuse "strcpy_s: dmax exceeds max" eslemax w
    else if src == null
    then fail dest dmax "strcpy_s: src is null" esnullp w
    else if dest == src
    then (eok, w)
    else no_space "strcpy_s: not enough space for src" dest dmax (
        copy_loop "strcpy_s: overlapping objects" (ltb dest src)
          (if ltb dest src then src else dest) dest dmax dmax dest src w)
