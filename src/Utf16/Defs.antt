-- ===== src/Utf16/Defs.antt =====
-- The char16_t string functions of FSPChecker/Compat/tchar.cpp. An address counts units of 16 bits.
-- `size_t` loops recur on the rounds left; those with no bound of their own run on SIZE_MAX rounds,
-- as in the code, or on fuel.
use learn_docs.Base.{
  ℕ, zero, suc, ◌+◌, ◌&&◌, ◌||◌, not, ◌==◌, ltb, if◌then◌else◌, ℤ, pos, sub_ℕ, is_zero,
}
use learn_docs.Memory.{Ptr, null, Mem, write}

-- `(size_t)-1`
abbrev pub size_max : ℕ
size_max = 0xffff_ffff_ffff_ffff

-- _NLSCMPERROR
abbrev pub nls_cmp_error : ℤ
nls_cmp_error = pos 0x7fff_ffff

-- `while (cursor < __n)` of `u16csnlen`.
unfoldable pub len_loop : Mem → Ptr → ℕ → ℕ → ℕ → ℕ
len_loop m str zero cursor ret = ret
len_loop m str (suc rounds) cursor ret =
    let rest = len_loop m str rounds (cursor + 1) (cursor + 1) in
    if m (str + cursor) == 0 then ret else rest

unfoldable pub u16csnlen : Mem → Ptr → ℕ → ℕ
u16csnlen m str n = if str == null then 0 else len_loop m str n 0 size_max

unfoldable pub u16cslen : Mem → Ptr → ℕ
u16cslen m str = u16csnlen m str size_max

-- `while (cnt < n)` of `u16csncpy`. The test reads `src` after the write to `dst`.
unfoldable pub ncpy_loop : ℕ → Ptr → Ptr → Mem → Mem
ncpy_loop zero dst src m = m
ncpy_loop (suc rounds) dst src m =
    let m' = write m dst (m src) in
    let rest = ncpy_loop rounds (dst + 1) (src + 1) m' in if m' src == 0 then m' else rest

unfoldable pub u16csncpy : Ptr → Ptr → ℕ → Mem → Ptr × Mem
u16csncpy dst src n m =
    if not (dst == null) && (not (src == null) && ltb 0 n)
    then (dst, ncpy_loop n dst src m)
    else (dst, m)

unfoldable pub u16cscpy : Ptr → Ptr → Mem → Ptr × Mem
u16cscpy destination source = u16csncpy destination source size_max

-- `while (*cursor != 0) cursor++;`, on fuel.
unfoldable pub skip_to_end : ℕ → Mem → Ptr → Ptr
skip_to_end zero m cursor = cursor
skip_to_end (suc fuel) m cursor =
    let rest = skip_to_end fuel m (cursor + 1) in if m cursor == 0 then cursor else rest

unfoldable pub u16cscat : ℕ → Ptr → Ptr → Mem → Ptr × Mem
u16cscat fuel destination source m =
    if not (destination == null) && not (source == null)
    then (destination, (u16cscpy (skip_to_end fuel m destination) source m).1)
    else (destination, m)

-- `for (size_t i = 0; i < num; i++)` of `u16csncmp`, with `ret` as it stands.
unfoldable pub ncmp_loop : Mem → ℕ → Ptr → Ptr → ℤ → ℤ
ncmp_loop m zero wcs1 wcs2 ret = ret
ncmp_loop m (suc rounds) wcs1 wcs2 ret =
    let ret' = sub_ℕ (m wcs1) (m wcs2) in
    let rest = ncmp_loop m rounds (wcs1 + 1) (wcs2 + 1) ret' in
    if not (is_zero ret') || ((m wcs1 == 0) || (m wcs2 == 0)) then ret' else rest

unfoldable pub u16csncmp : Mem → Ptr → Ptr → ℕ → ℤ
u16csncmp m wcs1 wcs2 num =
    if (wcs1 == null) || (wcs2 == null) then nls_cmp_error else ncmp_loop m num wcs1 wcs2 (pos 0)

unfoldable pub u16cscmp : Mem → Ptr → Ptr → ℤ
u16cscmp m wcs1 wcs2 = u16csncmp m wcs1 wcs2 size_max

-- `while (*wcs1 != 0)` of `u16csstr`, on fuel.
unfoldable pub str_loop : ℕ → Mem → Ptr → Ptr → ℕ → Ptr
str_loop zero m wcs1 wcs2 cklen = null
str_loop (suc fuel) m wcs1 wcs2 cklen =
    let rest = str_loop fuel m (wcs1 + 1) wcs2 cklen in
    if m wcs1 == 0 then null else if is_zero (u16csncmp m wcs1 wcs2 cklen) then wcs1 else rest

unfoldable pub u16csstr : ℕ → Mem → Ptr → Ptr → Ptr
u16csstr fuel m wcs1 wcs2 =
    if not (wcs1 == null) && not (wcs2 == null)
    then str_loop fuel m wcs1 wcs2 (u16cslen m wcs2)
    else null
