-- ===== src/Files/Times.antt =====
-- FILETIME and the date fields of WIN32_FIND_DATAA: FSPChecker/Compat/fileapi.cpp, io.cpp and
-- minwinbase.h. Words have 32 and 64 bits.
use learn_docs.Base.{ℕ, ◌+◌, ◌-◌, ◌*◌, ◌/◌, ◌%◌, ◌^◌, ◌<◌, ◌≡◌, arith, ℤ, pos, negsuc}

pub record FileTime : Type 0 where
  pub low : ℕ
  pub high : ℕ

abbrev pub zero_time : FileTime
zero_time = record { low = 0; high = 0 }

abbrev pub epoch : ℕ
epoch = 116444736000000000

-- The code of `lastWriteTimeFileTimeValue`, from a `time_t` as its 64 bits.
abbrev pub file_time_value : ℕ → ℕ
file_time_value t = (t * 10000000 + epoch) % 2 ^ 64

-- `{ (uint32_t)v, (uint32_t)(v >> 32) }`
abbrev pub split_time : ℕ → FileTime
split_time v = record { low = v % 2 ^ 32; high = (v / 2 ^ 32) % 2 ^ 32 }

unfoldable pub write_time : ℕ → FileTime
write_time t = split_time (file_time_value t)

-- `time_write` of `_findfirst`: `(((high << 32) | low) - epoch) / 10000000` in uint64.
unfoldable pub time_write : FileTime → ℕ
time_write f = ((f.high * 2 ^ 32 + f.low + (2 ^ 64 - epoch)) % 2 ^ 64) / 10000000

-- The time of the last write that `FindFirstFileA` splits into a FILETIME is what `_findfirst`
-- gives as `time_write`, up to the last time that a FILETIME of 64 bits can hold.
pub time_write-write_time : (t : ℕ) → t * 10000000 + epoch < 2 ^ 64 → time_write (write_time t) ≡ t
unfolding time_write write_time
time_write-write_time t h = omega arith

-- `((int64_t)high) << (sizeof(DWORD) * 8) | (int64_t)low` with a DWORD of 32 bits, as the ARM build
-- of cross_arm.cmake has it, for a `high` below 2^31. A DWORD of 64 bits makes the shift undefined.
abbrev pub joined : FileTime → ℕ
joined f = f.high * 2 ^ 32 + f.low

-- `ttmp + offset` in int64, as its 64 bits.
abbrev pub shifted : ℕ → ℤ → ℕ
shifted t (pos o) = (t + o) % 2 ^ 64
shifted t (negsuc o) = (t + (2 ^ 64 - (o + 1))) % 2 ^ 64

-- An offset that an int64 holds, and that keeps a time below 2^63 within it.
abbrev pub IsOffset : ℕ → ℤ → Type 0
IsOffset t (pos o) = t + o < 2 ^ 63
IsOffset t (negsuc o) = o < 2 ^ 63

-- `FileTimeToLocalFileTime` of that build, for two pointers that are not null and not equal: the mask is
-- `(1LL << (sizeof(DWORD) * 8) - 1)`, which is 1 << 31.
unfoldable pub file_time_to_local : ℤ → FileTime → FileTime
file_time_to_local offset f =
    let t = shifted (joined f) offset in
    let low = ((t / 2 ^ 31) % 2) * 2 ^ 31 in
    record { low = low; high = ((t - low) / 2 ^ 32) % 2 ^ 32 }

-- `FileTimeToLocalFileTime` of the build with 32-bit DWORDs loses the low 31 bits: read as 64
-- bits, what it gives is the shifted time in two's complement, rounded down to a multiple of
-- 2^31, so that up to 214 seconds are lost; for a time below 2^63 that the offset keeps within
-- an int64.
pub joined-file_time_to_local :
    (offset : ℤ) (f : FileTime)
    → joined f < 2 ^ 63
    → IsOffset (joined f) offset
    → let t = shifted (joined f) offset in joined (file_time_to_local offset f) ≡ t - t % 2 ^ 31
unfolding file_time_to_local
joined-file_time_to_local offset f h b =
    rounded (shifted (joined f) offset) (below (joined f) offset)
  where
    below : (t : ℕ) (o : ℤ) → shifted t o < 2 ^ 64
    below t (pos o) = omega arith
    below t (negsuc o) = omega arith

    rounded :
        (t : ℕ)
        → t < 2 ^ 64
        → ((t - ((t / 2 ^ 31) % 2) * 2 ^ 31) / 2 ^ 32) % 2 ^ 32 * 2 ^ 32
            + ((t / 2 ^ 31) % 2) * 2 ^ 31
          ≡ t - t % 2 ^ 31
    rounded t h = omega arith
