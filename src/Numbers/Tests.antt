-- ===== src/Numbers/Tests.antt =====
-- The theorems at concrete numbers.
use learn_docs.Base.{arith, pos, negsuc, refl, ◌≡◌, some, [], ◌∷◌}
use learn_docs.Memory.{Mem}
use learn_docs.Numbers.{ui64toa, i64toa, push_digits}
use learn_docs.Numbers.Parsed.{Written, ui64toa-Written}
use learn_docs.Numbers.Signed.{SignedWritten, i64toa-SignedWritten}

abbrev zeros : Mem
zeros = λ a. 0

-- 255 as ff.
push_digits_run : push_digits 8 16 255 [] ≡ some (15 ∷ 15 ∷ [])
unfolding push_digits
push_digits_run = refl

ui64toa-Written_example : Written 16 255 64 zeros (ui64toa 255 64 (pos 16) zeros)
ui64toa-Written_example =
    ui64toa-Written 255 16 64 zeros (omega arith) (omega arith) (omega arith) (omega arith)

i64toa-SignedWritten_example :
    SignedWritten 10 (negsuc 41) 64 zeros (i64toa (negsuc 41) 64 (pos 10) zeros)
i64toa-SignedWritten_example =
    i64toa-SignedWritten (negsuc 41) 10 64 zeros (omega arith) (omega arith) (omega arith)
      (omega arith)
