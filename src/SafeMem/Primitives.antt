-- ===== src/SafeMem/Primitives.antt =====
-- FSPChecker/Compat/safestringlib/safeclib/mem_primitives_lib.c. An address counts bytes, and the
-- uint16_t or uint32_t units in the routines of these names. A `uint32_t` word of the byte routines
-- is four bytes, the low one first.
use learn_docs.Base.{
  ℕ, zero, suc, ◌+◌, ◌-◌, ◌*◌, ◌/◌, ◌%◌, Bool, not, ◌&&◌, ◌||◌, ◌==◌, ltb, leb, if◌then◌else◌,
}
use learn_docs.Memory.{Ptr, Mem, write}

module _ {ℓ} {S : Type ℓ} (one : S → S) where
  -- `one`, `k` times: the statements below `case k:`, which fall through to `case 1:`.
  unfoldable pub repeat : ℕ → S → S
  repeat zero s = s
  repeat (suc k) s = repeat k (one s)

  -- `while (len != 0) { switch (len) ... }`, on fuel: 16 statements by default, and the last 15 or
  -- fewer by the fall through.
  unfoldable pub rounds : ℕ → ℕ → S → S
  unfolding repeat
  rounds zero len s = s
  rounds (suc fuel) len s =
      let rest = rounds fuel (len - 16) (repeat 16 s) in
      if len == 0 then s else if leb len 15 then repeat len s else rest

-- `*dp++ = value;`
unfoldable pub set_one : ℕ → Ptr × Mem → Ptr × Mem
set_one value (dp, m) = (dp + 1, write m dp value)

-- The bytes of a word.
unfoldable pub put_word : Mem → Ptr → ℕ → Mem
put_word m p w =
    write (write (write (write m p (w % 256)) (p + 1) (w / 256 % 256)) (p + 2) (w / 65_536 % 256))
      (p + 3) (w / 16_777_216 % 256)

-- `*lp++ = value32;`
unfoldable pub set_word : ℕ → Ptr × Mem → Ptr × Mem
set_word value32 (lp, m) = (lp + 4, put_word m lp value32)

-- `value | (value << 8) | (value << 16) | (value << 24)`: the four have no bit in common.
abbrev pub value32 : ℕ → ℕ
value32 value = value + value * 256 + value * 65_536 + value * 16_777_216

-- `for (; count && ((uintptr_t)dp & 3); count--) *dp++ = value;`, with the count that is left.
unfoldable pub set_aligned : ℕ → ℕ → Ptr × Mem → ℕ × (Ptr × Mem)
unfolding set_one
set_aligned zero value s = (0, s)
set_aligned (suc count) value s =
    let rest = set_aligned count value (set_one value s) in
    if s.0 % 4 == 0 then (suc count, s) else rest

unfoldable pub mem_prim_set : Ptr → ℕ → ℕ → Mem → Mem
mem_prim_set dest len value m =
    let (count, s) = set_aligned len value (dest, m) in
    let lcount = count / 4 in
    (repeat (set_one value) (count % 4) (rounds (set_word (value32 value)) lcount lcount s)).1

unfoldable pub mem_prim_set16 : Ptr → ℕ → ℕ → Mem → Mem
mem_prim_set16 dp len value m = (rounds (set_one value) len len (dp, m)).1

unfoldable pub mem_prim_set32 : Ptr → ℕ → ℕ → Mem → Mem
mem_prim_set32 dp len value m = (rounds (set_one value) len len (dp, m)).1

-- The pointers `dp` and `sp`, and the memory.
abbrev pub Cursor : Type 0
Cursor = Ptr × Ptr × Mem

-- `*dp++ = *sp++;`
unfoldable pub move_one : Cursor → Cursor
move_one (dp, sp, m) = (dp + 1, sp + 1, write m dp (m sp))

-- `*--dp = *--sp;`
unfoldable pub back_one : Cursor → Cursor
back_one (dp, sp, m) = (dp - 1, sp - 1, write m (dp - 1) (m (sp - 1)))

-- `*(uint32_t *)dp = *(uint32_t *)sp;`: four bytes are read, then written.
unfoldable pub copy_word : Ptr → Ptr → Mem → Mem
copy_word dp sp m =
    write (write (write (write m dp (m sp)) (dp + 1) (m (sp + 1))) (dp + 2) (m (sp + 2))) (dp + 3)
      (m (sp + 3))

unfoldable pub move_word : Cursor → Cursor
move_word (dp, sp, m) = (dp + 4, sp + 4, copy_word dp sp m)

unfoldable pub back_word : Cursor → Cursor
back_word (dp, sp, m) = (dp - 4, sp - 4, copy_word (dp - 4) (sp - 4) m)

-- The rounds of `do ... while (--tsp)`: a `tsp` of 0 wraps round.
unfoldable pub do_rounds : ℕ → ℕ
do_rounds tsp = if tsp == 0 then 4_294_967_296 else tsp

-- The bytes to copy before both pointers are aligned, 0 where they are; `few` says that there are
-- too few bytes for words, and `ahead` is what would align `sp`.
unfoldable pub skew : Ptr → Ptr → ℕ → Bool → ℕ → ℕ
skew dp sp len few ahead =
    if (sp % 4 == 0) && (dp % 4 == 0)
    then 0
    else do_rounds (if not (sp % 4 == dp % 4) || few then len else ahead)

unfoldable pub mem_prim_move : Ptr → Ptr → ℕ → Mem → Mem
mem_prim_move dest src len m =
    if ltb dest src
    then (let tsp = skew dest src len (ltb len 4) (4 - src % 4) in
        let aligned = repeat move_one tsp (dest, src, m) in
        let len' = len - tsp in
        (repeat move_one (len' % 4) (repeat move_word (len' / 4) aligned)).2)
    else (let tsp = skew (dest + len) (src + len) len (leb len 4) ((src + len) % 4) in
        let aligned = repeat back_one tsp (dest + len, src + len, m) in
        let len' = len - tsp in
        (repeat back_one (len' % 4) (repeat back_word (len' / 4) aligned)).2)

unfoldable pub mem_prim_move8 : Ptr → Ptr → ℕ → Mem → Mem
mem_prim_move8 dp sp len m =
    if ltb dp sp
    then (rounds move_one len len (dp, sp, m)).2
    else (rounds back_one len len (dp + len, sp + len, m)).2

unfoldable pub mem_prim_move16 : Ptr → Ptr → ℕ → Mem → Mem
mem_prim_move16 dp sp len m =
    if ltb dp sp
    then (rounds move_one len len (dp, sp, m)).2
    else (rounds back_one len len (dp + len, sp + len, m)).2

unfoldable pub mem_prim_move32 : Ptr → Ptr → ℕ → Mem → Mem
mem_prim_move32 dp sp len m =
    if ltb dp sp
    then (rounds move_one len len (dp, sp, m)).2
    else (rounds back_one len len (dp + len, sp + len, m)).2
