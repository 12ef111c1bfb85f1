-- ===== src/Handle/Keys.antt =====
-- `__compat_handle_new_key_get` of common_handle.cpp: a random key, and the next ones while they are
-- taken. The loop ends: it passes each entry of the map once at most.
use learn_docs.Base.{
  ℕ, zero, suc, ◌+◌, ◌^◌, ◌≤◌, ◌<◌, ◌≡◌, true, false, some, [], ◌∷◌, ◌==◌, leb, if◌then◌else◌,
  length, arith, Bool-cases, inl, inr,
}
use learn_docs.Handle.Types.{Header, zero_header}
use learn_docs.Handle.Table.{
  Table, has, insert, update, Distinct, insert-Distinct, update-Distinct, find, find-insert,
  find-update,
}

-- `while (map->find(key) != map->end()) key = key + 1;`, with fuel. `key` is an int: beyond INT_MAX
-- the addition is undefined, and this function does not stand for the program; it does not come
-- there for a random start plus the entries of the map below 2^31.
unfoldable pub probe : ℕ → ℕ → Table → ℕ
probe zero key t = key
probe (suc fuel) key t = let next = probe fuel (key + 1) t in if has key t then next else key

-- `random` is what `std::rand()` gives, and `place` where the container puts the new entry.
unfoldable pub new_key_get : ℕ → ℕ → Table → ℕ × Table
new_key_get random place t =
    let key = probe (suc (length t)) random t in (key, insert place (key, zero_header) t)

-- How many entries have this key or a greater one.
pub above : ℕ → Table → ℕ
above k [] = 0
above k ((j, h) ∷ t) = if leb k j then suc (above k t) else above k t

above-le-length : (k : ℕ) (t : Table) → above k t ≤ length t
unfolding above
above-le-length k [] = omega arith
above-le-length k ((j, h) ∷ t) = ground (arith, above-le-length k t)

above_mono : (k : ℕ) (t : Table) → above (k + 1) t ≤ above k t
unfolding above
above_mono k [] = omega arith
above_mono k ((j, h) ∷ t) = ground (arith, above_mono k t)

above_drops : (k : ℕ) (t : Table) → has k t ≡ true → above (k + 1) t < above k t
unfolding above has
above_drops k [] h = cc
above_drops k ((j, x) ∷ t) h = ground (arith, above_mono k t, above_drops k t)

probe_fresh : (fuel k : ℕ) (t : Table) → above k t < fuel → has (probe fuel k t) t ≡ false
unfolding probe
probe_fresh zero k t h = absurd (omega arith)
probe_fresh (suc fuel) k t h = elim (Bool-cases (has k t)) [
  | inl e ↦ rw e (probe_fresh fuel (k + 1) t (omega (arith, above_drops k t e)))
  | inr e ↦ rw e e
]

probe_range : (fuel k : ℕ) (t : Table) → (k ≤ probe fuel k t) × (probe fuel k t ≤ k + fuel)
unfolding probe
probe_range zero k t = omega arith
probe_range (suc fuel) k t = ground (arith, probe_range fuel (k + 1) t)

pub new_key_get_fresh :
    (random place : ℕ) (t : Table)
    → let key = (new_key_get random place t).0 in
      (has key t ≡ false) × (random ≤ key) × (key ≤ random + length t + 1)
unfolding new_key_get
new_key_get_fresh random place t = (
  probe_fresh (suc (length t)) random t (omega (arith, above-le-length random t)),
  (probe_range (suc (length t)) random t).0,
  omega (arith, probe_range (suc (length t)) random t),
)

probe-above : (fuel k : ℕ) (t : Table) → above k t < fuel → probe fuel k t ≤ k + above k t
unfolding probe
probe-above zero k t h = omega arith
probe-above (suc fuel) k t h = elim (Bool-cases (has k t)) [
  | inl e ↦
      let fewer = above_drops k t e in
      rw e (omega (arith, fewer, probe-above fuel (k + 1) t (omega (arith, fewer))))
  | inr e ↦ rw e (omega arith)
]

-- Where the random start of a new handle plus the number of entries of the map is below 2^31,
-- the search for its key ends within one step more than the map has entries, without an overflow
-- of the int: at a key below 2^31 that no entry has, not below the start, and above it by no
-- more than the entries that have the start or a greater key.
pub new_key_get-bounded :
    (random place : ℕ) (t : Table)
    → random + length t < 2 ^ 31
    → let key = (new_key_get random place t).0 in
      (has key t ≡ false) × (random ≤ key) × (key ≤ random + above random t) × (key < 2 ^ 31)
unfolding new_key_get
new_key_get-bounded random place t small =
    let few = above-le-length random t in
    let near = probe-above (suc (length t)) random t (omega (arith, few)) in
    (
      (new_key_get_fresh random place t).0,
      (new_key_get_fresh random place t).1,
      near,
      omega (arith, near, few),
    )

-- What a registration leaves: its entry, filled in by `f`, and all others as they were.
pub find-register :
    (random place j : ℕ) (f : Header → Header) (t : Table)
    → let key = (new_key_get random place t).0 in
      find j (update key f (new_key_get random place t).1)
      ≡ (if key == j then some (f zero_header) else find j t)
unfolding new_key_get
find-register random place j f t =
    let key = probe (suc (length t)) random t in
    let fresh = (new_key_get_fresh random place t).0 in
    ground (
      arith,
      find-insert place key key zero_header t fresh,
      find-insert place key j zero_header t fresh,
      find-update key j f zero_header (insert place (key, zero_header) t),
    )

pub register-Distinct :
    (random place : ℕ) (f : Header → Header) (t : Table)
    → Distinct t
    → Distinct (update (new_key_get random place t).0 f (new_key_get random place t).1)
unfolding new_key_get
register-Distinct random place f t d =
    let key = probe (suc (length t)) random t in
    update-Distinct key f (insert place (key, zero_header) t)
      (insert-Distinct place key zero_header t ((new_key_get_fresh random place t).0) d)
