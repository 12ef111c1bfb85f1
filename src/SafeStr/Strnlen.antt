-- ===== src/SafeStr/Strnlen.antt =====
-- FSPChecker/Compat/safestringlib/safeclib/strnlen_s.c
use learn_docs.Base.{
  ℕ, zero, suc, ◌+◌, ◌≤◌, ◌<◌, ◌≡◌, ◌≢◌, List, [], ◌∷◌, ltb, ◌==◌, if◌then◌else◌, length, arith,
  ne→==, le→ltb, min, ap,
}
use learn_docs.Memory.{Ptr, null, Mem, StrWithin}
use learn_docs.SafeStr.Defs.{
  World, eszerol, eslemax, rsize_max_str, invoke_safe_str_constraint_handler,
}
use learn_docs.SafeStr.Outcome.{scan}

-- `while (*dest && dmax) { count++; dmax--; dest++; }`. The cell behind the last one is read too.
count_loop : Mem → ℕ → ℕ → Ptr → ℕ
count_loop m zero count dest = count
count_loop m (suc dmax) count dest =
    let rest = count_loop m dmax (count + 1) (dest + 1) in if m dest == 0 then count else rest

-- RCNEGATE is the identity in user space.
pub strnlen_s : Ptr → ℕ → World → ℕ × World
unfolding count_loop
strnlen_s dest dmax w =
    if dest == null
    then (0, w)
    else if dmax == 0
    then (0, invoke_safe_str_constraint_handler "strnlen_s: dmax is 0" eszerol w)
    else if ltb rsize_max_str dmax
    then (0, invoke_safe_str_constraint_handler "strnlen_s: dmax exceeds max" eslemax w)
    else (count_loop w.mem dmax 0 dest, w)

count_loop-scan :
    (m : Mem) (n count : ℕ) (d : Ptr) → count_loop m n count d ≡ count + length (scan m d n)
unfolding count_loop
count_loop-scan m zero count d = omega arith
count_loop-scan m (suc n) count d = ground (arith, count_loop-scan m n (count + 1) (d + 1))

count_loop-length :
    (m : Mem) (n count : ℕ) (d : Ptr) (xs : List ℕ)
    → StrWithin m d n xs
    → count_loop m n count d ≡ count + min n (length xs)
unfolding count_loop
count_loop-length m zero count d xs s = omega arith
count_loop-length m (suc n) count d [] s = ground arith
count_loop-length m (suc n) count d (x ∷ xs) s =
    ground (arith, count_loop-length m n (count + 1) (d + 1) xs s.2)

-- For `dest` not null and a `dmax` from 1 to RSIZE_MAX_STR, `strnlen_s` gives the length of the
-- string at `dest`, `dmax` at most, and changes nothing.
pub strnlen_s-length :
    (dest : Ptr) (dmax : ℕ) (xs : List ℕ) (w : World)
    → dest ≢ null
    → 0 < dmax
    → dmax ≤ rsize_max_str
    → StrWithin w.mem dest dmax xs
    → strnlen_s dest dmax w ≡ (min dmax (length xs), w)
unfolding strnlen_s
strnlen_s-length dest dmax xs w hd pos fits s =
    rw
      (
        ne→== dest null hd,
        ne→== dmax 0 (omega arith),
        le→ltb rsize_max_str dmax fits,
        count_loop-length w.mem dmax 0 dest xs s,
      )
      (ap (λ (n : ℕ). (n, w)) (omega arith))
