-- ===== src/Numbers.antt =====
-- `_i64toa` and `_ui64toa` of FSPChecker/Compat/stdlib_win.cpp.
mod Digits
pub mod Parsed
pub mod Signed
mod Tests
use learn_docs.Base.{
  ℕ, zero, suc, ◌+◌, ◌-◌, ◌/◌, ◌%◌, ◌^◌, Bool, true, false, ◌||◌, Option, none, some, List, [], ◌∷◌,
  map, ◌==◌, ltb, if◌then◌else◌, ℤ, pos, negsuc,
}
use learn_docs.Memory.{Ptr, null, Mem, write}

-- `while (t_val != 0)`: the stack, its top first; none where the fuel does not suffice.
unfoldable pub push_digits : ℕ → ℕ → ℕ → List ℕ → Option (List ℕ)
push_digits zero radix t_val vx = if t_val == 0 then some vx else none
push_digits (suc fuel) radix t_val vx =
    let rest = push_digits fuel radix (t_val / radix) ((t_val % radix % 2 ^ 8) ∷ vx) in
    if t_val == 0 then some vx else rest

-- The digits of a `uint64_t`, whatever the radix.
abbrev pub fuel : ℕ
fuel = 64

abbrev pub digit_char : ℕ → ℕ
digit_char top = if ltb top 10 then 48 + top else 97 + top - 10

-- `while (vx.size() > 0)`, and the NUL behind it.
unfoldable pub write_digits : List ℕ → Ptr → Mem → Mem
write_digits [] t_buffer m = write m t_buffer 0
write_digits (top ∷ vx) t_buffer m =
    write_digits vx (t_buffer + 1) (write m t_buffer (digit_char top))

-- `sprintf` of "%lu", as its digits.
unfoldable pub decimal : ℕ → Option (List ℕ)
decimal v = if v == 0 then some (0 ∷ []) else push_digits fuel 10 v []

unfoldable pub in_buffer : Ptr → Mem → Option (List ℕ) → Option (Ptr × Mem)
in_buffer buffer m none = none
in_buffer buffer m (some vx) = some (buffer, write_digits vx buffer m)

-- `sprintf` of "%ld".
unfoldable pub signed_decimal : Ptr → Mem → ℤ → Option (Ptr × Mem)
signed_decimal buffer m (pos v) = in_buffer buffer m (decimal v)
signed_decimal buffer m (negsuc v) =
    behind_sign (in_buffer (buffer + 1) (write m buffer 45) (decimal (suc v)))
  where
    behind_sign : Option (Ptr × Mem) → Option (Ptr × Mem)
    behind_sign none = none
    behind_sign (some (_, m')) = some (buffer, m')

-- `*(uint64_t*)(&_Value)`
abbrev pub bits : ℤ → ℕ
bits (pos v) = v
bits (negsuc v) = 2 ^ 64 - suc v

unfoldable pub ui64toa : ℕ → Ptr → ℤ → Mem → Option (Ptr × Mem)
ui64toa value buffer (negsuc r) m = some (buffer, m)
ui64toa value buffer (pos radix) m =
    if (buffer == null) || (ltb radix 2 || ltb 36 radix)
    then some (buffer, m)
    else if radix == 10
    then in_buffer buffer m (decimal value)
    else in_buffer buffer m (push_digits fuel radix value [])

unfoldable pub i64toa : ℤ → Ptr → ℤ → Mem → Option (Ptr × Mem)
i64toa value buffer (negsuc r) m = some (buffer, m)
i64toa value buffer (pos radix) m =
    if (buffer == null) || (ltb radix 2 || ltb 36 radix)
    then some (buffer, m)
    else if radix == 10
    then signed_decimal buffer m value
    else in_buffer buffer m (push_digits fuel radix (bits value) [])
