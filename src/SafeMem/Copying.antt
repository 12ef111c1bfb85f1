-- ===== src/SafeMem/Copying.antt =====
-- What memcpy_s.c, memmove_s.c and their 16 and 32 bit versions promise.
use learn_docs.Base.{
  ℕ, ◌≡◌, ◌≢◌, ◌⊎◌, inl, inr, ◌≤◌, false, ◌&&◌, String, ◌==◌, ltb, refl, arith, Bool-cases,
}
use learn_docs.Memory.{Ptr, null, Mem}
use learn_docs.SafeStr.Defs.{eok, esnullp, eszerol, eslemax, esovrlp}
use learn_docs.SafeMem.Fill.{filled, mem_prim_set-filled, mem_prim_set_units-filled}
use learn_docs.SafeMem.Step.{moved}
use learn_docs.SafeMem.Move.{mem_prim_move-moved, mem_prim_move_units-moved}
use learn_docs.SafeMem.Defs.{MemWorld, invoke_safe_mem_constraint_handler}
use learn_docs.SafeMem.Guarded.{
  Version, overlaps, nulling, guarded_copy, memcpy_version, memcpy_s, memcpy16_version, memcpy16_s,
  memcpy32_version, memcpy32_s, memmove_version, memmove_s, memmove16_version, memmove16_s,
  memmove32_version, memmove32_s,
}
use learn_docs.SafeMem.Meets.{Usable, Complains, Silent, SameMem, violation-Complains, Usable-cases}

-- A source that the routines copy from.
abbrev pub Copyable : Version → Ptr → ℕ → Ptr → ℕ → Type 0
Copyable v dest dmax src smax =
    (smax ≢ 0)
    × (smax ≤ dmax)
    × (src ≢ null)
    × ((v.tests_overlap && overlaps dest dmax src smax) ≡ false)

-- The copy and EOK; or nothing but a handler call, for a destination that is not usable; or a
-- destination that is nulled and a handler call, for a source that is not to be copied.
pub CopyMeets : Version → Ptr → ℕ → Ptr → ℕ → MemWorld → ℕ × MemWorld → Type 0
CopyMeets v dest dmax src smax w r =
    ((Usable v.max dest dmax × Copyable v dest dmax src smax)
      × (Silent w r × SameMem (moved dest src smax w.mem) r))
    ⊎ ((¬ Usable v.max dest dmax × (Complains w r × SameMem w.mem r))
        ⊎ ((Usable v.max dest dmax × ¬ Copyable v dest dmax src smax)
            × (Complains w r × SameMem (filled dest dmax 0 w.mem) r)))

-- The primitives of a version do what they are for.
abbrev Sound : Version → Type 0
Sound v =
    ((dest n : ℕ) (m : Mem) (a : Ptr) → v.set dest n 0 m a ≡ filled dest n 0 m a)
    × ((dest src n : ℕ) (m : Mem)
        → n ≢ 0
        → (a : Ptr) → v.move dest src n m a ≡ moved dest src n m a)

nulling-Complains :
    (v : Version) (msg : String) (code : ℕ) (dest dmax : ℕ) (w : MemWorld)
    → Sound v
    → code ≢ eok
    → Complains w (nulling v msg code dest dmax w)
      × SameMem (filled dest dmax 0 w.mem) (nulling v msg code dest dmax w)
unfolding invoke_safe_mem_constraint_handler
nulling-Complains v msg code dest dmax w s h = ((_, refl, refl, h), s.0 dest dmax w.mem)

guarded_copy-refused :
    (v : Version) (dest dmax src smax : ℕ) (w : MemWorld)
    → ¬ Usable v.max dest dmax
    → Complains w (guarded_copy v dest dmax src smax w)
      × SameMem w.mem (guarded_copy v dest dmax src smax w)
unfolding guarded_copy
guarded_copy-refused v dest dmax src smax w h = elim (Bool-cases (dest == null)) [
  | inl e ↦ rw e (violation-Complains v.dest_null esnullp w.mem w (omega arith))
  | inr n ↦ elim (Bool-cases (dmax == 0)) [
    | inl e ↦ rw (n, e) (violation-Complains v.dmax_zero eszerol w.mem w (omega arith))
    | inr k ↦ elim (Bool-cases (ltb v.max dmax)) [
      | inl e ↦ rw (n, k, e) (violation-Complains v.dmax_max eslemax w.mem w (omega arith))
      | inr l ↦ absurd (h (ground arith, ground arith, ground arith))
    ]
  ]
]

guarded_copy-source :
    (v : Version) (dest dmax src smax : ℕ) (w : MemWorld)
    → Sound v
    → Usable v.max dest dmax
    → CopyMeets v dest dmax src smax w (guarded_copy v dest dmax src smax w)
unfolding guarded_copy CopyMeets
guarded_copy-source v dest dmax src smax w s u =
    let n : (dest == null) ≡ false = ground (arith, u.0) in
    let k : (dmax == 0) ≡ false = ground (arith, u.1) in
    let l : ltb v.max dmax ≡ false = ground (arith, u.2) in
    elim (Bool-cases (smax == 0)) [
      | inl e ↦
          rw (n, k, l, e)
            (inr (
              inr (
                (u, λ c. c.0 (ground arith)),
                nulling-Complains v v.smax_zero eszerol dest dmax w s (omega arith),
              )))
      | inr z ↦ elim (Bool-cases (ltb dmax smax)) [
        | inl e ↦
            rw (n, k, l, z, e)
              (inr (
                inr (
                  (u, λ c. absurd (ground (arith, c.1))),
                  nulling-Complains v v.smax_dmax eslemax dest dmax w s (omega arith),
                )))
        | inr f ↦ elim (Bool-cases (src == null)) [
          | inl e ↦
              rw (n, k, l, z, f, e)
                (inr (
                  inr (
                    (u, λ c. c.2 (ground arith)),
                    nulling-Complains v v.src_null esnullp dest dmax w s (omega arith),
                  )))
          | inr p ↦ elim (Bool-cases (v.tests_overlap && overlaps dest dmax src smax)) [
            | inl e ↦
                rw (n, k, l, z, f, p, e)
                  (inr (
                    inr (
                      (u, λ c. absurd (ground (arith, c.3))),
                      nulling-Complains v v.overlap esovrlp dest dmax w s (omega arith),
                    )))
            | inr o ↦
                rw (n, k, l, z, f, p, o)
                  (inl (
                    (u, (ground arith, ground arith, ground arith, refl)),
                    ((refl, refl), s.1 dest src smax w.mem (ground arith)),
                  ))
          ]
        ]
      ]
    ]

guarded_copy-Meets :
    (v : Version) (dest dmax src smax : ℕ) (w : MemWorld)
    → Sound v
    → CopyMeets v dest dmax src smax w (guarded_copy v dest dmax src smax w)
unfolding CopyMeets
guarded_copy-Meets v dest dmax src smax w s = elim (Usable-cases v.max dest dmax) [
  | inl u ↦ guarded_copy-source v dest dmax src smax w s u
  | inr u ↦ inr (inl (u, guarded_copy-refused v dest dmax src smax w u))
]

bytes-Sound : Sound memcpy_version
bytes-Sound = (
  λ dest n m. mem_prim_set-filled dest n 0 m (omega arith),
  λ dest src n m h. mem_prim_move-moved dest src n m (omega arith),
)

-- `memcpy_s` copies and gives EOK without a handler call exactly where `dest` is usable (not
-- null, a `dmax` from 1 to RSIZE_MAX_MEM) and the source can be copied (`smax` from 1 to `dmax`,
-- `src` not null, no overlap); where `dest` is not usable it writes nothing, and where the
-- source cannot be copied it leaves zeros in the `dmax` bytes at `dest`, each with one handler
-- call that has the code returned, which is not EOK.
pub memcpy_s-Meets :
    (dest dmax src smax : ℕ) (w : MemWorld)
    → CopyMeets memcpy_version dest dmax src smax w (memcpy_s dest dmax src smax w)
unfolding memcpy_s
memcpy_s-Meets dest dmax src smax w =
    guarded_copy-Meets memcpy_version dest dmax src smax w bytes-Sound

-- `memmove_s` does the same as `memcpy_s` with its own messages, but the two regions may
-- overlap: then too the bytes at `dest` become what those at `src` were.
pub memmove_s-Meets :
    (dest dmax src smax : ℕ) (w : MemWorld)
    → CopyMeets memmove_version dest dmax src smax w (memmove_s dest dmax src smax w)
unfolding memmove_s
memmove_s-Meets dest dmax src smax w =
    guarded_copy-Meets memmove_version dest dmax src smax w bytes-Sound

-- The 16 and 32 bit versions of `memcpy_s` and `memmove_s` do with their units, limits and
-- messages what `memcpy_s` and `memmove_s` do with bytes.
pub copy_units-Meets :
    (dest dmax src smax : ℕ) (w : MemWorld)
    → CopyMeets memcpy16_version dest dmax src smax w (memcpy16_s dest dmax src smax w)
      × CopyMeets memcpy32_version dest dmax src smax w (memcpy32_s dest dmax src smax w)
      × CopyMeets memmove16_version dest dmax src smax w (memmove16_s dest dmax src smax w)
      × CopyMeets memmove32_version dest dmax src smax w (memmove32_s dest dmax src smax w)
unfolding memcpy16_s memcpy32_s memmove16_s memmove32_s
copy_units-Meets dest dmax src smax w = (
  guarded_copy-Meets memcpy16_version dest dmax src smax w units16,
  guarded_copy-Meets memcpy32_version dest dmax src smax w units32,
  guarded_copy-Meets memmove16_version dest dmax src smax w units16,
  guarded_copy-Meets memmove32_version dest dmax src smax w units32,
)
  where
    units16 : Sound memcpy16_version
    units16 = (
      λ d n m a. (mem_prim_set_units-filled d n 0 m a).0,
      λ d s n m h a. (mem_prim_move_units-moved d s n m a).1,
    )

    units32 : Sound memcpy32_version
    units32 = (
      λ d n m a. (mem_prim_set_units-filled d n 0 m a).1,
      λ d s n m h a. (mem_prim_move_units-moved d s n m a).2,
    )
