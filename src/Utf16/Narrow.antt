-- ===== src/Utf16/Narrow.antt =====
-- `mbstou16cs_s` and `mbstou16cs` of FSPChecker/Compat/stdlib_win.cpp. `from_bytes` is that of
-- `std::wstring_convert`, none where it throws; `storage` is where the converted string stands.
use learn_docs.Base.{
  ℕ, suc, ◌+◌, ◌-◌, ◌<◌, ◌≤◌, ◌≡◌, ◌≢◌, ◌⊎◌, refl, ap, ◌∙◌, inl, inr, Option, none, some, List, [],
  ◌∷◌, length, ◌==◌, if◌then◌else◌, arith, Bool-cases, ne→==, min, get_or,
}
use learn_docs.Memory.{Ptr, null, Mem, StrAt, StrAt-StrWithin, paste}
use learn_docs.Handle.Ctx.{NoNul}
use learn_docs.Utf16.Defs.{size_max, u16csnlen, u16csncpy}
use learn_docs.Utf16.Length.{u16csnlen-length}
use learn_docs.Utf16.Copy.{cells, u16csncpy-paste}

-- The converted string in its own storage.
abbrev pub converted : Ptr → List ℕ → Mem → Mem
converted storage dst m = paste storage (suc (length dst)) dst m

-- How many units are copied.
unfoldable pub copied_len : Mem → Ptr → (size_in_words count : ℕ) → ℕ
copied_len m storage size_in_words count =
    let len = u16csnlen m storage (min count size_in_words) in
    min (min (if len == size_max then len else len + 1) count) size_in_words

unfoldable pub copy_converted : Ptr → ℕ → ℕ → Mem → Ptr → Option (List ℕ) → Option (ℕ × ℕ × Mem)
copy_converted wcstr size_in_words count m storage none = none
copy_converted wcstr size_in_words count m storage (some dst) =
    let m' = converted storage dst m in
    let len = copied_len m' storage size_in_words count in
    some (0, len, (u16csncpy wcstr storage len m').1)

-- The code that is returned, `*pReturnValue` and the memory.
unfoldable pub mbstou16cs_s :
    (List ℕ → Option (List ℕ)) → Ptr → Ptr → ℕ → List ℕ → ℕ → Mem → Option (ℕ × ℕ × Mem)
mbstou16cs_s from_bytes storage wcstr size_in_words src count m =
    copy_converted wcstr size_in_words count m storage (from_bytes src)

pub get_or-StrAt :
    (m : Mem) (p : Ptr) (xs : List ℕ)
    → NoNul xs
    → ((i : ℕ) → i ≤ length xs → m (p + i) ≡ get_or xs i 0)
    → StrAt m p xs
get_or-StrAt m p [] n h = ap m (omega arith) ∙ h 0 (omega arith)
get_or-StrAt m p (x ∷ xs) n h = (
  ap m (omega arith) ∙ h 0 (omega arith),
  n.0,
  get_or-StrAt m (p + 1) xs n.1 (λ i l. ap m (omega arith) ∙ h (suc i) (omega arith)),
)

converted-StrAt :
    (storage : Ptr) (dst : List ℕ) (m : Mem)
    → NoNul dst
    → StrAt (converted storage dst m) storage dst
converted-StrAt storage dst m n = get_or-StrAt (converted storage dst m) storage dst n λ i l.
    let e : storage + i - storage ≡ i = omega arith in
    ground (arith, ap (λ (k : ℕ). get_or dst k 0) e)

-- The length that is reported for `room` units and `n` converted ones.
abbrev pub reported : ℕ → ℕ → ℕ
reported room n = if min room n == 0 then room else min room (n + 1)

module _ (from_bytes : List ℕ → Option (List ℕ)) (src dst : List ℕ) (storage wcstr : Ptr)
    (size_in_words count : ℕ) (m : Mem) where
  copied_len-reported :
      storage ≢ null
      → NoNul dst
      → length dst < size_max
      → count ≤ size_max
      → copied_len (converted storage dst m) storage size_in_words count
        ≡ reported (min count size_in_words) (length dst)
  unfolding copied_len
  copied_len-reported h n short counted =
      let within =
        StrAt-StrWithin (converted storage dst m) storage (min count size_in_words) dst
          (converted-StrAt storage dst m n) in
      let len =
        u16csnlen-length (converted storage dst m) storage (min count size_in_words) dst h within in
      rw len elim (Bool-cases (min (min count size_in_words) (length dst) == 0)) [
        | inl e ↦ rw e (omega (arith, counted))
        | inr e ↦
            let some_fit : min (min count size_in_words) (length dst) ≢ size_max =
              omega (arith, counted) in
            rw (e, ne→== _ size_max some_fit) (omega arith)
      ]

  -- For a string that converts to one without NUL, shorter than SIZE_MAX, a count up to SIZE_MAX
  -- (which is _TRUNCATE), and a destination of `room` units, `count` or the size if that is
  -- less, that does not start inside the converted string behind its first unit: `mbstou16cs_s`
  -- returns 0 and leaves there the converted string with its NUL, cut to `room` units without a
  -- NUL where it is longer, and all other memory as before. It reports the units with the NUL,
  -- `room` at most, but `room` for an empty string.
  pub mbstou16cs_s_lem :
      from_bytes src ≡ some dst
      → wcstr ≢ null
      → storage ≢ null
      → NoNul dst
      → length dst < size_max
      → count ≤ size_max
      → (wcstr ≤ storage) ⊎ (storage + suc (length dst) ≤ wcstr)
      → let room = min count size_in_words in
        (m' : Mem) × (mbstou16cs_s from_bytes storage wcstr size_in_words src count m
          ≡ some (0, reported room (length dst), m'))
        × ((a : Ptr) → m' a ≡ paste wcstr (cells room dst) dst (converted storage dst m) a)
  unfolding mbstou16cs_s copy_converted
  mbstou16cs_s_lem e hw hd n short counted apart =
      let room = min count size_in_words in
      let m₁ = converted storage dst m in
      let r = reported room (length dst) in
      let within = StrAt-StrWithin m₁ storage r dst (converted-StrAt storage dst m n) in
      let (_, copied) = u16csncpy-paste wcstr storage r dst m₁ hw hd within (clear apart) in
      let same : cells r dst ≡ cells room dst = ground arith in
      rw (e, copied_len-reported hd n short counted)
        (
          (u16csncpy wcstr storage r m₁).1,
          refl,
          λ a. copied a ∙ ap (λ (k : ℕ). paste wcstr k dst m₁ a) same,
        )
    where
      clear :
          (wcstr ≤ storage) ⊎ (storage + suc (length dst) ≤ wcstr)
          → (wcstr ≤ storage)
            ⊎ (storage + cells (reported (min count size_in_words) (length dst)) dst ≤ wcstr)
      clear (inl h) = inl h
      clear (inr h) = inr (omega arith)
