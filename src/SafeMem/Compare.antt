-- ===== src/SafeMem/Compare.antt =====
-- memcmp_s.c, memcmp16_s.c and memcmp32_s.c. `*diff` is an object of its own, so a call gives its
-- errno_t, what it stores there, if it does, and the world.
use learn_docs.Base.{
  ℕ, zero, suc, ◌+◌, ◌-◌, ◌%◌, String, ◌==◌, ltb, if◌then◌else◌, Option, none, some, ℤ, pos, negsuc,
  sub_ℕ,
}
use learn_docs.Memory.{Ptr, null, Mem}
use learn_docs.SafeStr.Defs.{eok, esnullp, eszerol, eslemax}
use learn_docs.SafeMem.Defs.{
  MemWorld, rsize_max_mem, rsize_max_mem16, rsize_max_mem32, invoke_safe_mem_constraint_handler,
}

abbrev pub Compared : Type 0
Compared = ℕ × Option ℤ × MemWorld

-- `while (dmax > 0 && smax > 0)`; `order` is what the version makes of two units that differ.
unfoldable pub compare_loop : (ℕ → ℕ → ℤ) → Mem → ℕ → ℕ → Ptr → Ptr → ℤ
compare_loop order m zero smax dp sp = pos 0
compare_loop order m (suc dmax) zero dp sp = pos 0
compare_loop order m (suc dmax) (suc smax) dp sp =
    let rest = compare_loop order m dmax smax (dp + 1) (sp + 1) in
    if m dp == m sp then rest else order (m dp) (m sp)

-- A violation; `*diff` holds the default.
abbrev pub mismatch : String → ℕ → MemWorld → Compared
mismatch msg code w = (code, some (negsuc 0), invoke_safe_mem_constraint_handler msg code w)

-- What differs between the versions: the messages, the greatest length and the order.
pub record Comparison : Type 0 where
  pub diff_null : String
  pub dest_null : String
  pub src_null : String
  pub dmax_zero : String
  pub dmax_max : String
  pub smax_zero : String
  pub smax_dmax : String
  pub max : ℕ
  pub order : ℕ → ℕ → ℤ

unfoldable pub guarded_compare : Comparison → Ptr → ℕ → Ptr → ℕ → Ptr → MemWorld → Compared
guarded_compare c dest dmax src smax diff w =
    if diff == null
    then (esnullp, none, invoke_safe_mem_constraint_handler c.diff_null esnullp w)
    else if dest == null
    then mismatch c.dest_null esnullp w
    else if src == null
    then mismatch c.src_null esnullp w
    else if dmax == 0
    then mismatch c.dmax_zero eszerol w
    else if ltb c.max dmax
    then mismatch c.dmax_max eslemax w
    else if smax == 0
    then mismatch c.smax_zero eszerol w
    else if ltb dmax smax
    then mismatch c.smax_dmax eslemax w
    else if dest == src
    then (eok, some (pos 0), w)
    else (eok, some (compare_loop c.order w.mem dmax smax dest src), w)

-- `*dp < *sp ? -1 : 1`
abbrev pub sign : ℕ → ℕ → ℤ
sign a b = if ltb a b then negsuc 0 else pos 1

-- `*dest - *src` of two uint32_t, as an int.
abbrev pub wrapped : ℕ → ℕ → ℤ
wrapped a b =
    let d = (a + (4_294_967_296 - b)) % 4_294_967_296 in
    if ltb d 2_147_483_648 then pos d else negsuc (4_294_967_295 - d)

abbrev pub memcmp_version : Comparison
memcmp_version = record {
  diff_null = "memcmp_s: diff is null";
  dest_null = "memcmp_s: dest is null";
  src_null = "memcmp_s: src is null";
  dmax_zero = "memcmp_s: dmax is 0";
  dmax_max = "memcmp_s: dmax exceeds max";
  smax_zero = "memcmp_s: smax is 0";
  smax_dmax = "memcmp_s: smax exceeds dmax";
  max = rsize_max_mem;
  order = sign;
}

unfoldable pub memcmp_s : Ptr → ℕ → Ptr → ℕ → Ptr → MemWorld → Compared
memcmp_s = guarded_compare memcmp_version

abbrev pub memcmp16_version : Comparison
memcmp16_version = record {
  diff_null = "memcmp16_s: diff is null";
  dest_null = "memcmp16_s: dest is null";
  src_null = "memcmp16_s: src is null";
  dmax_zero = "memcmp16_s: dmax is 0";
  dmax_max = "memcmp16_s: dmax exceeds max";
  smax_zero = "memcmp16_s: smax is 0";
  smax_dmax = "memcmp16_s: smax exceeds dmax";
  max = rsize_max_mem16;
  order = sub_ℕ;
}

unfoldable pub memcmp16_s : Ptr → ℕ → Ptr → ℕ → Ptr → MemWorld → Compared
memcmp16_s = guarded_compare memcmp16_version

abbrev pub memcmp32_version : Comparison
memcmp32_version = record {
  diff_null = "memcmp32_s: diff is null";
  dest_null = "memcmp32_s: dest is null";
  src_null = "memcmp32_s: src is null";
  dmax_zero = "memcmp32_s: dmax is 0";
  dmax_max = "memcmp32_s: dmax exceeds max";
  smax_zero = "memcmp32_s: smax is 0";
  smax_dmax = "memcmp32_s: smax exceeds dmax";
  max = rsize_max_mem32;
  order = wrapped;
}

unfoldable pub memcmp32_s : Ptr → ℕ → Ptr → ℕ → Ptr → MemWorld → Compared
memcmp32_s = guarded_compare memcmp32_version
