-- ===== src/SafeMem/Meets.antt =====
-- What memset_s.c, memzero_s.c and their versions promise, and what they share with the copies.
use learn_docs.Base.{
  ℕ, ◌≡◌, ◌≢◌, ◌⊎◌, inl, inr, ◌<◌, ◌≤◌, String, ◌==◌, ltb, ◌∷◌, refl, arith, Bool-cases,
}
use learn_docs.Memory.{Ptr, null, Mem}
use learn_docs.SafeStr.Defs.{Call, eok, esnullp, eszerol, eslemax}
use learn_docs.SafeMem.Primitives.{mem_prim_set, mem_prim_set16, mem_prim_set32}
use learn_docs.SafeMem.Fill.{filled, mem_prim_set-filled, mem_prim_set_units-filled}
use learn_docs.SafeMem.Defs.{
  MemWorld, rsize_max_mem, rsize_max_mem16, rsize_max_mem32, violation, with_mem,
  invoke_safe_mem_constraint_handler,
}
use learn_docs.SafeMem.Guarded.{
  guarded_set, memset_s, memset16_s, memset32_s, memzero_s, memzero16_s, memzero32_s,
}

-- A destination of `n` units that the routines write to.
abbrev pub Usable : ℕ → Ptr → ℕ → Type 0
Usable max dest n = (dest ≢ null) × (n ≢ 0) × (n ≤ max)

-- One call of the handler, with the code that is returned, which is not EOK.
abbrev pub Complains : MemWorld → ℕ × MemWorld → Type 0
Complains w r = (call : Call) × (r.1.calls ≡ call ∷ w.calls) × (call.error ≡ r.0) × (r.0 ≢ eok)

-- EOK and no handler call.
abbrev pub Silent : MemWorld → ℕ × MemWorld → Type 0
Silent w r = (r.0 ≡ eok) × (r.1.calls ≡ w.calls)

abbrev pub SameMem : Mem → ℕ × MemWorld → Type 0
SameMem m r = (a : Ptr) → r.1.mem a ≡ m a

pub SetMeets : ℕ → Ptr → ℕ → ℕ → MemWorld → ℕ × MemWorld → Type 0
SetMeets max dest len value w r =
    (Usable max dest len × Silent w r × SameMem (filled dest len value w.mem) r)
    ⊎ (¬ Usable max dest len × (Complains w r × SameMem w.mem r))

pub violation-Complains :
    (msg : String) (code : ℕ) (m : Mem) (w : MemWorld)
    → code ≢ eok
    → Complains w (violation msg code (with_mem m w))
      × SameMem m (violation msg code (with_mem m w))
unfolding invoke_safe_mem_constraint_handler
violation-Complains msg code m w h = ((_, refl, refl, h), λ a. refl)

guarded_set-Meets :
    (dest_null len_zero len_max : String) (max : ℕ) (set : Ptr → ℕ → ℕ → Mem → Mem)
    (dest len value : ℕ) (w : MemWorld)
    → ((a : Ptr) → set dest len value w.mem a ≡ filled dest len value w.mem a)
    → SetMeets max dest len value w
        (guarded_set dest_null len_zero len_max max set dest len value w)
unfolding guarded_set SetMeets
guarded_set-Meets s0 s1 s2 max set dest len value w h = elim (Bool-cases (dest == null)) [
  | inl e ↦
      rw e (inr (λ u. u.0 (ground arith), violation-Complains s0 esnullp w.mem w (omega arith)))
  | inr n ↦ elim (Bool-cases (len == 0)) [
    | inl e ↦
        rw (n, e)
          (inr (λ u. u.1 (ground arith), violation-Complains s1 eszerol w.mem w (omega arith)))
    | inr k ↦ elim (Bool-cases (ltb max len)) [
      | inl e ↦
          rw (n, k, e)
            (inr (
              λ u. absurd (ground (arith, u.2)),
              violation-Complains s2 eslemax w.mem w (omega arith),
            ))
      | inr l ↦ rw (n, k, l) (inl ((ground arith, ground arith, ground arith), (refl, refl), h))
    ]
  ]
]

-- For a `value` of one byte, `memset_s` fills the `len` bytes at `dest` and gives EOK without a
-- handler call where `dest` is not null and `len` is from 1 to RSIZE_MAX_MEM; else it writes
-- nothing and calls the handler once, with the code returned, which is not EOK.
pub memset_s-Meets :
    (dest len value : ℕ) (w : MemWorld)
    → value < 256
    → SetMeets rsize_max_mem dest len value w (memset_s dest len value w)
unfolding memset_s
memset_s-Meets dest len value w h =
    guarded_set-Meets _ _ _ rsize_max_mem mem_prim_set dest len value w
      (mem_prim_set-filled dest len value w.mem h)

-- The three versions of memzero fill with 0, as `memset_s` does with a value.
pub memzero_s-Meets :
    (dest len : ℕ) (w : MemWorld)
    → SetMeets rsize_max_mem dest len 0 w (memzero_s dest len w)
      × SetMeets rsize_max_mem16 dest len 0 w (memzero16_s dest len w)
      × SetMeets rsize_max_mem32 dest len 0 w (memzero32_s dest len w)
unfolding memzero_s memzero16_s memzero32_s
memzero_s-Meets dest len w = (
  guarded_set-Meets _ _ _ rsize_max_mem mem_prim_set dest len 0 w
      (mem_prim_set-filled dest len 0 w.mem (omega arith)),
  guarded_set-Meets _ _ _ rsize_max_mem16 mem_prim_set16 dest len 0 w
      (λ a. (mem_prim_set_units-filled dest len 0 w.mem a).0),
  guarded_set-Meets _ _ _ rsize_max_mem32 mem_prim_set32 dest len 0 w
      (λ a. (mem_prim_set_units-filled dest len 0 w.mem a).1),
)

-- The 16 and 32 bit versions of memset, for any value of a unit.
pub memset_units-Meets :
    (dest len value : ℕ) (w : MemWorld)
    → SetMeets rsize_max_mem16 dest len value w (memset16_s dest len value w)
      × SetMeets rsize_max_mem32 dest len value w (memset32_s dest len value w)
unfolding memset16_s memset32_s
memset_units-Meets dest len value w = (
  guarded_set-Meets _ _ _ rsize_max_mem16 mem_prim_set16 dest len value w
      (λ a. (mem_prim_set_units-filled dest len value w.mem a).0),
  guarded_set-Meets _ _ _ rsize_max_mem32 mem_prim_set32 dest len value w
      (λ a. (mem_prim_set_units-filled dest len value w.mem a).1),
)

pub Usable-cases : (max dest n : ℕ) → Usable max dest n ⊎ ¬ Usable max dest n
Usable-cases max dest n = elim (Bool-cases (dest == null)) [
  | inl e ↦ inr (λ u. u.0 (ground arith))
  | inr d ↦ elim (Bool-cases (n == 0)) [
    | inl e ↦ inr (λ u. u.1 (ground arith))
    | inr k ↦ elim (Bool-cases (ltb max n)) [
      | inl e ↦ inr (λ u. absurd (ground (arith, u.2)))
      | inr l ↦ inl (ground arith, ground arith, ground arith)
    ]
  ]
]
