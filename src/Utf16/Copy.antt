-- ===== src/Utf16/Copy.antt =====
-- `u16csncpy`, `u16cscpy` and `u16cscat` of FSPChecker/Compat/tchar.cpp.
use learn_docs.Base.{
  ℕ, zero, suc, ◌+◌, ◌-◌, ◌<◌, ◌≤◌, ◌≡◌, ◌≢◌, refl, ap, ◌∙◌, sym, List, [], ◌∷◌, length, arith,
  subst, min, ne→==, lt→ltb, ◌⊎◌, inl, inr, ◌++◌,
}
use learn_docs.Memory.{
  Ptr, null, Mem, write, StrAt, StrWithin, StrAt-StrWithin, StrWithin-write, Outside, paste,
  paste-cons, paste-append,
}
use learn_docs.Utf16.Defs.{size_max, ncpy_loop, u16csncpy, u16cscpy, skip_to_end, u16cscat}

-- The cells a copy of `xs` that is cut at `n` fills.
abbrev pub cells : ℕ → List ℕ → ℕ
cells n xs = min n (suc (length xs))

StrWithin-fewer :
    (m : Mem) (p : Ptr) (k g : ℕ) (xs : List ℕ) → k ≤ g → StrWithin m p g xs → StrWithin m p k xs
StrWithin-fewer m p zero g xs h s = tt
StrWithin-fewer m p (suc k) zero xs h s = absurd (omega arith)
StrWithin-fewer m p (suc k) (suc g) [] h s = s
StrWithin-fewer m p (suc k) (suc g) (x ∷ xs) h s =
    (s.0, s.1, StrWithin-fewer m (p + 1) k g xs (omega arith) s.2)

apart : (dst src k : ℕ) → (dst ≤ src) ⊎ (src + suc k ≤ dst) → Outside dst (src + 1) k
apart dst src k (inl h) = inl (omega arith)
apart dst src k (inr h) = inr (omega arith)

apart_next :
    (dst src k : ℕ)
    → (dst ≤ src) ⊎ (src + suc k ≤ dst)
    → (dst + 1 ≤ src + 1) ⊎ (src + 1 + k ≤ dst + 1)
apart_next dst src k (inl h) = inl (omega arith)
apart_next dst src k (inr h) = inr (omega arith)

same_unit : (m : Mem) (dst src : Ptr) → write m dst (m src) src ≡ m src
same_unit m dst src = ground arith

ncpy_loop-paste :
    (n k : ℕ) (dst src : Ptr) (xs : List ℕ) (m : Mem)
    → k ≡ cells n xs
    → (dst ≤ src) ⊎ (src + k ≤ dst)
    → StrWithin m src k xs
    → (a : Ptr) → ncpy_loop n dst src m a ≡ paste dst k xs m a
unfolding ncpy_loop
ncpy_loop-paste zero zero dst src xs m e o s a = ground arith
ncpy_loop-paste zero (suc k) dst src xs m e o s a = absurd (omega arith)
ncpy_loop-paste (suc n) zero dst src xs m e o s a = absurd (omega arith)
ncpy_loop-paste (suc n) (suc k) dst src [] m e o s a =
    let unit : write m dst (m src) src ≡ 0 = same_unit m dst src ∙ s in
    let last : k ≡ 0 = omega arith in rw (unit, last) (ground arith)
ncpy_loop-paste (suc n) (suc k) dst src (x ∷ xs) m e o s a =
    let rest =
      ncpy_loop-paste n k (dst + 1) (src + 1) xs (write m dst x) (omega arith)
        (apart_next dst src k o) (StrWithin-write m (src + 1) k xs dst x (apart dst src k o) s.2)
        a in
    let unit : write m dst (m src) src ≡ x = same_unit m dst src ∙ s.0 in
    rw (unit, ne→== x 0 s.1, s.0) (rest ∙ paste-cons dst k x xs m a)

-- For `dst` and `src` not null and regions of which `dst` is not in the units of `src` that are
-- still to be read, `u16csncpy` gives `dst` and leaves there the string with its NUL, cut to `n`
-- units without a NUL where it is longer; all other memory is as before.
pub u16csncpy-paste :
    (dst src : Ptr) (n : ℕ) (xs : List ℕ) (m : Mem)
    → dst ≢ null
    → src ≢ null
    → StrWithin m src n xs
    → (dst ≤ src) ⊎ (src + cells n xs ≤ dst)
    → ((u16csncpy dst src n m).0 ≡ dst)
      × ((a : Ptr) → (u16csncpy dst src n m).1 a ≡ paste dst (cells n xs) xs m a)
unfolding u16csncpy
u16csncpy-paste dst src zero xs m hd hs s o =
    rw (ne→== dst null hd, ne→== src null hs) (refl, λ a. ground arith)
u16csncpy-paste dst src (suc n) xs m hd hs s o =
    let within = StrWithin-fewer m src (cells (suc n) xs) (suc n) xs (omega arith) s in
    rw (ne→== dst null hd, ne→== src null hs, lt→ltb 0 (suc n) (omega arith))
      (refl, λ a. ncpy_loop-paste (suc n) (cells (suc n) xs) dst src xs m refl o within a)

skip_to_end_lem :
    (fuel : ℕ) (m : Mem) (p : Ptr) (ds : List ℕ)
    → length ds ≤ fuel
    → StrAt m p ds
    → skip_to_end fuel m p ≡ p + length ds
unfolding skip_to_end
skip_to_end_lem zero m p [] h s = omega arith
skip_to_end_lem zero m p (x ∷ ds) h s = absurd (omega arith)
skip_to_end_lem (suc fuel) m p [] h s = ground arith
skip_to_end_lem (suc fuel) m p (x ∷ ds) h s =
    ground (arith, skip_to_end_lem fuel m (p + 1) ds (omega arith) s.2)

-- For two strings not at null, the second shorter than SIZE_MAX and not overwritten before it is
-- read, and enough fuel for the first, `u16cscat` gives `destination` and leaves there the two
-- strings joined with a NUL; all other memory is as before.
pub u16cscat-paste :
    (fuel : ℕ) (destination source : Ptr) (ds xs : List ℕ) (m : Mem)
    → destination ≢ null
    → source ≢ null
    → length ds ≤ fuel
    → length xs < size_max
    → StrAt m destination ds
    → StrAt m source xs
    → (destination + length ds ≤ source) ⊎ (source + suc (length xs) ≤ destination + length ds)
    → ((u16cscat fuel destination source m).0 ≡ destination)
      × ((a : Ptr)
          → (u16cscat fuel destination source m).1 a
            ≡ paste destination (suc (length ds + length xs)) (ds ++ xs) m a)
unfolding u16cscat u16cscpy
u16cscat-paste fuel d p ds xs m hd hs hf hx sd sx o =
    let whole : cells size_max xs ≡ suc (length xs) = omega arith in
    let room : suc (length xs) ≡ suc (length ds + length xs) - length ds = omega arith in
    let clear = subst (λ (k : ℕ). (d + length ds ≤ p) ⊎ (p + k ≤ d + length ds)) (sym whole) o in
    let (_, copied) =
      u16csncpy-paste (d + length ds) p size_max xs m (λ e. hd (omega arith)) hs
        (StrAt-StrWithin m p size_max xs sx) clear in
    let within = StrAt-StrWithin m d (suc (length ds + length xs)) ds sd in
    rw (ne→== d null hd, ne→== p null hs, skip_to_end_lem fuel m d ds hf sd)
      (
        refl,
        λ a.
            copied a
            ∙ ap (λ (k : ℕ). paste (d + length ds) k xs m a) (whole ∙ room)
            ∙ paste-append d (suc (length ds + length xs)) ds xs m a (omega arith) within,
      )
