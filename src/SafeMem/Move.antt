-- ===== src/SafeMem/Move.antt =====
-- What the routines mem_prim_move, mem_prim_move8, mem_prim_move16 and mem_prim_move32 leave in
-- memory.
use learn_docs.Base.{
  ℕ, ◌+◌, ◌-◌, ◌*◌, ◌/◌, ◌%◌, ◌<◌, ◌≤◌, ◌≡◌, ◌≢◌, refl, ap, ◌∙◌, ◌==◌, leb, ltb, arith, Bool-cases,
  inl, inr, if◌then◌else◌, lt→ltb, le→ltb, Bool, true, false,
}
use learn_docs.Memory.{Ptr, Mem}
use learn_docs.SafeMem.Primitives.{
  Cursor, repeat, rounds, move_one, back_one, move_word, back_word, do_rounds, skew, mem_prim_move,
  mem_prim_move8, mem_prim_move16, mem_prim_move32,
}
use learn_docs.SafeMem.Unroll.{rounds-repeat}
use learn_docs.SafeMem.Step.{
  moved, Ups-append, Downs-append, units-Ups, words-Ups, units-Downs, words-Downs,
}

skew-le :
    (dp sp len ahead : ℕ) (few : Bool)
    → 0 < len
    → (sp % 4 ≢ 0 → 0 < ahead)
    → (few ≡ false → ahead ≤ len)
    → skew dp sp len few ahead ≤ len
unfolding skew do_rounds
skew-le dp sp len ahead true h h' l = ground arith
skew-le dp sp len ahead false h h' l = elim (Bool-cases (sp % 4 == 0)) [
  | inl z ↦ ground arith
  | inr z ↦ let some : 0 < ahead = h' (ground arith) in ground (arith, l refl, some)
]

move_up :
    (dest src len : ℕ) (m : Mem)
    → 0 < len
    → dest < src
    → (a : Ptr) → mem_prim_move dest src len m a ≡ moved dest src len m a
unfolding mem_prim_move
move_up dest src len m h l a =
    let tsp = skew dest src len (ltb len 4) (4 - src % 4) in
    let fits : tsp ≤ len =
      skew-le dest src len (4 - src % 4) (ltb len 4) h (λ _. omega arith) (λ e. ground arith) in
    let aligned = repeat move_one tsp (dest, src, m) in
    let k = (len - tsp) / 4 in
    let n = (len - tsp) % 4 in
    let before : dest ≤ src = omega arith in
    let first = units-Ups tsp (dest, src, m) before in
    let ordered : aligned.0 ≤ aligned.1 = omega (arith, first.0, first.1) in
    let second = words-Ups k aligned ordered in
    let words = repeat move_word k aligned in
    let third = units-Ups n words (omega (arith, second.0, second.1)) in
    let up = Ups-append tsp (k * 4) (dest, src, m) aligned words before first second in
    let all =
      Ups-append (tsp + k * 4) n (dest, src, m) words (repeat move_one n words) before up third in
    let total : tsp + k * 4 + n ≡ len = omega arith in
    rw (lt→ltb dest src l) (all.2 a ∙ ap (λ (x : ℕ). moved dest src x m a) total)

move_down :
    (dest src len : ℕ) (m : Mem)
    → 0 < len
    → src ≤ dest
    → (a : Ptr) → mem_prim_move dest src len m a ≡ moved dest src len m a
unfolding mem_prim_move
move_down dest src len m h l a =
    let tsp = skew (dest + len) (src + len) len (leb len 4) ((src + len) % 4) in
    let fits : tsp ≤ len =
      skew-le (dest + len) (src + len) len ((src + len) % 4) (leb len 4) h (λ e. omega arith)
        (λ e. ground arith) in
    let end : Cursor = (dest + len, src + len, m) in
    let aligned = repeat back_one tsp end in
    let k = (len - tsp) / 4 in
    let n = (len - tsp) % 4 in
    let before : src + len ≤ dest + len = omega arith in
    let first = units-Downs tsp end before (omega arith) in
    let second = words-Downs k aligned (omega (arith, first.0, first.1)) (omega (arith, first.1)) in
    let words = repeat back_word k aligned in
    let third =
      units-Downs n words (omega (arith, first.0, first.1, second.0, second.1))
        (omega (arith, first.1, second.1)) in
    let down = Downs-append tsp (k * 4) end aligned words before first second in
    let final = repeat back_one n words in
    let all = Downs-append (tsp + k * 4) n end words final before down third in
    let total : tsp + k * 4 + n ≡ len = omega arith in
    let at_dest : final.0 ≡ dest = omega (arith, all.0) in
    let at_src : final.1 ≡ src = omega (arith, all.1) in
    rw (le→ltb dest src l) (
      all.2 a
      ∙ ap (λ (x : ℕ). moved x final.1 (tsp + k * 4 + n) m a) at_dest
      ∙ ap (λ (x : ℕ). moved dest x (tsp + k * 4 + n) m a) at_src
      ∙ ap (λ (x : ℕ). moved dest src x m a) total)

-- For a `len` that is not 0, whatever the overlap and the alignment of the two pointers,
-- `mem_prim_move` leaves in the `len` bytes at `dest` what the bytes at `src` were before the
-- call, and all other memory as it was.
pub mem_prim_move-moved :
    (dest src len : ℕ) (m : Mem)
    → 0 < len
    → (a : Ptr) → mem_prim_move dest src len m a ≡ moved dest src len m a
mem_prim_move-moved dest src len m h a = elim (Bool-cases (ltb dest src)) [
  | inl l ↦ move_up dest src len m h (ground arith) a
  | inr l ↦ move_down dest src len m h (ground arith) a
]

rounds-up :
    (dp sp len : ℕ) (m : Mem)
    → dp < sp
    → (a : Ptr) → (rounds move_one len len (dp, sp, m)).2 a ≡ moved dp sp len m a
rounds-up dp sp len m l a =
    ap (λ (c : Cursor). c.2 a) (rounds-repeat move_one len len (dp, sp, m) (omega arith))
    ∙ (units-Ups len (dp, sp, m) (omega arith)).2 a

rounds-down :
    (dp sp len : ℕ) (m : Mem)
    → sp ≤ dp
    → (a : Ptr) → (rounds back_one len len (dp + len, sp + len, m)).2 a ≡ moved dp sp len m a
rounds-down dp sp len m l a =
    let end : Cursor = (dp + len, sp + len, m) in
    let final = repeat back_one len end in
    let all = units-Downs len end (omega arith) (omega arith) in
    let at_dp : final.0 ≡ dp = omega (arith, all.0) in
    let at_sp : final.1 ≡ sp = omega (arith, all.1) in
    ap (λ (c : Cursor). c.2 a) (rounds-repeat back_one len len end (omega arith))
    ∙ all.2 a
    ∙ ap (λ (x : ℕ). moved x final.1 len m a) at_dp
    ∙ ap (λ (x : ℕ). moved dp x len m a) at_sp

unit_move :
    (dp sp len : ℕ) (m : Mem) (a : Ptr)
    → (if ltb dp sp
          then (rounds move_one len len (dp, sp, m)).2
          else (rounds back_one len len (dp + len, sp + len, m)).2)
        a
      ≡ moved dp sp len m a
unit_move dp sp len m a = elim (Bool-cases (ltb dp sp)) [
  | inl l ↦ rw l (rounds-up dp sp len m (ground arith) a)
  | inr l ↦ rw l (rounds-down dp sp len m (ground arith) a)
]

-- For any `len` and any overlap, `mem_prim_move8`, `mem_prim_move16` and `mem_prim_move32`, with
-- their unrolled loops, leave in the `len` units at `dp` what the units at `sp` were before the
-- call, and all other memory as it was.
pub mem_prim_move_units-moved :
    (dp sp len : ℕ) (m : Mem) (a : Ptr)
    → (mem_prim_move8 dp sp len m a ≡ moved dp sp len m a)
      × (mem_prim_move16 dp sp len m a ≡ moved dp sp len m a)
      × (mem_prim_move32 dp sp len m a ≡ moved dp sp len m a)
unfolding mem_prim_move8 mem_prim_move16 mem_prim_move32
mem_prim_move_units-moved dp sp len m a =
    (unit_move dp sp len m a, unit_move dp sp len m a, unit_move dp sp len m a)
