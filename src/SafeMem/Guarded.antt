-- ===== src/SafeMem/Guarded.antt =====
-- memset_s.c, memzero_s.c, memcpy_s.c, memmove_s.c and their 16 and 32 bit versions. The versions
-- differ in their messages, in the greatest length and in the primitives that they call.
use learn_docs.Base.{ℕ, ◌+◌, Bool, true, false, ◌&&◌, ◌||◌, String, ◌==◌, ltb, if◌then◌else◌}
use learn_docs.Memory.{Ptr, null, Mem}
use learn_docs.SafeStr.Defs.{eok, esnullp, eszerol, eslemax, esovrlp}
use learn_docs.SafeMem.Primitives.{
  mem_prim_set, mem_prim_set16, mem_prim_set32, mem_prim_move, mem_prim_move16, mem_prim_move32,
}
use learn_docs.SafeMem.Defs.{
  MemWorld, rsize_max_mem, rsize_max_mem16, rsize_max_mem32, violation, with_mem,
}

-- The body of the routines memset and memzero.
unfoldable pub guarded_set :
    String → String → String → ℕ → (Ptr → ℕ → ℕ → Mem → Mem) → Ptr → ℕ → ℕ → MemWorld → ℕ × MemWorld
guarded_set dest_null len_zero len_max max set dest len value w =
    if dest == null
    then violation dest_null esnullp w
    else if len == 0
    then violation len_zero eszerol w
    else if ltb max len
    then violation len_max eslemax w
    else (eok, with_mem (set dest len value w.mem) w)

unfoldable pub memset_s : Ptr → ℕ → ℕ → MemWorld → ℕ × MemWorld
memset_s =
    guarded_set "memset_s: dest is null" "memset_s: len is 0" "memset_s: len exceeds max"
      rsize_max_mem mem_prim_set

unfoldable pub memset16_s : Ptr → ℕ → ℕ → MemWorld → ℕ × MemWorld
memset16_s =
    guarded_set "memset16_s: dest is null" "memset16_s: len is 0" "memset16_s: len exceeds max"
      rsize_max_mem16 mem_prim_set16

unfoldable pub memset32_s : Ptr → ℕ → ℕ → MemWorld → ℕ × MemWorld
memset32_s =
    guarded_set "memset32_s: dest is null" "memset32_s: len is 0" "memset32_s: len  exceeds max"
      rsize_max_mem32 mem_prim_set32

unfoldable pub memzero_s : Ptr → ℕ → MemWorld → ℕ × MemWorld
memzero_s dest len =
    guarded_set "memzero_s: dest is null" "memzero_s: len is 0" "memzero_s: len exceeds max"
      rsize_max_mem mem_prim_set dest len 0

unfoldable pub memzero16_s : Ptr → ℕ → MemWorld → ℕ × MemWorld
memzero16_s dest len =
    guarded_set "memzero16_s: dest is null" "memzero16_s: len is 0" "memzero16_s: len exceeds max"
      rsize_max_mem16 mem_prim_set16 dest len 0

unfoldable pub memzero32_s : Ptr → ℕ → MemWorld → ℕ × MemWorld
memzero32_s dest len =
    guarded_set "memzero32_s: dest is null" "memzero32_s: len is 0" "memzero32_s: len exceeds max"
      rsize_max_mem32 mem_prim_set32 dest len 0

-- What a version of memcpy or memmove has of its own. Only the versions of memcpy test for overlap.
pub record Version : Type 0 where
  pub dest_null : String
  pub dmax_zero : String
  pub dmax_max : String
  pub smax_zero : String
  pub smax_dmax : String
  pub src_null : String
  pub overlap : String
  pub tests_overlap : Bool
  pub max : ℕ
  pub set : Ptr → ℕ → ℕ → Mem → Mem
  pub move : Ptr → Ptr → ℕ → Mem → Mem

-- `((dp > sp) && (dp < (sp+smax))) || ((sp > dp) && (sp < (dp+dmax)))`
abbrev pub overlaps : Ptr → ℕ → Ptr → ℕ → Bool
overlaps dp dmax sp smax = (ltb sp dp && ltb dp (sp + smax)) || (ltb dp sp && ltb sp (dp + dmax))

-- A violation that nulls the first `dmax` units of `dest`.
abbrev pub nulling : Version → String → ℕ → Ptr → ℕ → MemWorld → ℕ × MemWorld
nulling v msg code dest dmax w = violation msg code (with_mem (v.set dest dmax 0 w.mem) w)

-- The body of the routines memcpy and memmove.
unfoldable pub guarded_copy : Version → Ptr → ℕ → Ptr → ℕ → MemWorld → ℕ × MemWorld
guarded_copy v dest dmax src smax w =
    if dest == null
    then violation v.dest_null esnullp w
    else if dmax == 0
    then violation v.dmax_zero eszerol w
    else if ltb v.max dmax
    then violation v.dmax_max eslemax w
    else if smax == 0
    then nulling v v.smax_zero eszerol dest dmax w
    else if ltb dmax smax
    then nulling v v.smax_dmax eslemax dest dmax w
    else if src == null
    then nulling v v.src_null esnullp dest dmax w
    else if v.tests_overlap && overlaps dest dmax src smax
    then nulling v v.overlap esovrlp dest dmax w
    else (eok, with_mem (v.move dest src smax w.mem) w)

abbrev pub memcpy_version : Version
memcpy_version = record {
  dest_null = "memcpy_s: dest is NULL";
  dmax_zero = "memcpy_s: dmax is 0";
  dmax_max = "memcpy_s: dmax exceeds max";
  smax_zero = "memcpy_s: smax is 0";
  smax_dmax = "memcpy_s: smax exceeds dmax";
  src_null = "memcpy_s: src is NULL";
  overlap = "memcpy_s: overlap undefined";
  tests_overlap = true;
  max = rsize_max_mem;
  set = mem_prim_set;
  move = mem_prim_move;
}

unfoldable pub memcpy_s : Ptr → ℕ → Ptr → ℕ → MemWorld → ℕ × MemWorld
memcpy_s = guarded_copy memcpy_version

abbrev pub memcpy16_version : Version
memcpy16_version = record {
  dest_null = "memcpy16_s: dest is NULL";
  dmax_zero = "memcpy16_s: dmax is 0";
  dmax_max = "memcpy16_s: dmax exceeds max";
  smax_zero = "memcpy16_s: smax is 0";
  smax_dmax = "memcpy16_s: smax exceeds dmax";
  src_null = "memcpy16_s: src is NULL";
  overlap = "memcpy16_s: overlap undefined";
  tests_overlap = true;
  max = rsize_max_mem16;
  set = mem_prim_set16;
  move = mem_prim_move16;
}

unfoldable pub memcpy16_s : Ptr → ℕ → Ptr → ℕ → MemWorld → ℕ × MemWorld
memcpy16_s = guarded_copy memcpy16_version

abbrev pub memcpy32_version : Version
memcpy32_version = record {
  dest_null = "memcpy32_s: dest is NULL";
  dmax_zero = "memcpy32_s: dmax is 0";
  dmax_max = "memcpy32_s: dmax exceeds max";
  smax_zero = "memcpy32_s: smax is 0";
  smax_dmax = "memcpy32_s: smax exceeds dmax";
  src_null = "memcpy32_s: src is NULL";
  overlap = "memcpy32_s: overlap undefined";
  tests_overlap = true;
  max = rsize_max_mem32;
  set = mem_prim_set32;
  move = mem_prim_move32;
}

unfoldable pub memcpy32_s : Ptr → ℕ → Ptr → ℕ → MemWorld → ℕ × MemWorld
memcpy32_s = guarded_copy memcpy32_version

-- The routines memmove have no message for an overlap.
abbrev pub memmove_version : Version
memmove_version = record {
  dest_null = "memmove_s: dest is null";
  dmax_zero = "memmove_s: dmax is 0";
  dmax_max = "memmove_s: dmax exceeds max";
  smax_zero = "memmove_s: smax is 0";
  smax_dmax = "memmove_s: smax exceeds max";
  src_null = "memmove_s: src is null";
  overlap = "";
  tests_overlap = false;
  max = rsize_max_mem;
  set = mem_prim_set;
  move = mem_prim_move;
}

unfoldable pub memmove_s : Ptr → ℕ → Ptr → ℕ → MemWorld → ℕ × MemWorld
memmove_s = guarded_copy memmove_version

abbrev pub memmove16_version : Version
memmove16_version = record {
  dest_null = "memove16_s: dest is null";
  dmax_zero = "memove16_s: dmax is 0";
  dmax_max = "memove16_s: dmax  exceeds max";
  smax_zero = "memove16_s: smax is 0";
  smax_dmax = "memove16_s: smax exceeds dmax";
  src_null = "memove16_s: src is null";
  overlap = "";
  tests_overlap = false;
  max = rsize_max_mem16;
  set = mem_prim_set16;
  move = mem_prim_move16;
}

unfoldable pub memmove16_s : Ptr → ℕ → Ptr → ℕ → MemWorld → ℕ × MemWorld
memmove16_s = guarded_copy memmove16_version

abbrev pub memmove32_version : Version
memmove32_version = record {
  dest_null = "memove32_s: dest is null";
  dmax_zero = "memove32_s: dest is zero";
  dmax_max = "memove32_s: dmax exceeds max";
  smax_zero = "memove32_s: smax is 0";
  smax_dmax = "memove32_s: smax exceeds dmax";
  src_null = "memove32_s: src is null";
  overlap = "";
  tests_overlap = false;
  max = rsize_max_mem32;
  set = mem_prim_set32;
  move = mem_prim_move32;
}

unfoldable pub memmove32_s : Ptr → ℕ → Ptr → ℕ → MemWorld → ℕ × MemWorld
memmove32_s = guarded_copy memmove32_version
