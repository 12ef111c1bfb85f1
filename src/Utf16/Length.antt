-- ===== src/Utf16/Length.antt =====
-- `u16csnlen` and `u16cslen` of FSPChecker/Compat/tchar.cpp.
use learn_docs.Base.{
  ℕ, zero, suc, ◌+◌, ◌≡◌, ◌≢◌, List, [], ◌∷◌, ◌==◌, if◌then◌else◌, length, arith, subst, min, ne→==,
}
use learn_docs.Memory.{null, Mem, StrWithin}
use learn_docs.Utf16.Defs.{size_max, len_loop, u16csnlen}

len_loop-length :
    (m : Mem) (n : ℕ) (str cursor ret : ℕ) (xs : List ℕ)
    → StrWithin m (str + cursor) n xs
    → len_loop m str n cursor ret
      ≡ (if min n (length xs) == 0 then ret else cursor + min n (length xs))
unfolding len_loop
len_loop-length m zero str cursor ret xs s = ground arith
len_loop-length m (suc n) str cursor ret [] s = ground arith
len_loop-length m (suc n) str cursor ret (x ∷ xs) s =
    let e : str + cursor + 1 ≡ str + (cursor + 1) = omega arith in
    let tail : StrWithin m (str + (cursor + 1)) n xs =
      subst (λ (p : ℕ). StrWithin m p n xs) e s.2 in
    ground (arith, len_loop-length m n str (cursor + 1) (cursor + 1) xs tail)

-- For `str` not null, `u16csnlen` gives the number of units before the NUL, `n` at most, but
-- SIZE_MAX where that number is 0.
pub u16csnlen-length :
    (m : Mem) (str n : ℕ) (xs : List ℕ)
    → str ≢ null
    → StrWithin m str n xs
    → u16csnlen m str n ≡ (if min n (length xs) == 0 then size_max else min n (length xs))
unfolding u16csnlen
u16csnlen-length m str n xs h s =
    let e : str ≡ str + 0 = omega arith in
    let s' : StrWithin m (str + 0) n xs = subst (λ (p : ℕ). StrWithin m p n xs) e s in
    rw (ne→== str null h) (ground (arith, len_loop-length m n str 0 size_max xs s'))
