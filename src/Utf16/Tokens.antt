-- ===== src/Utf16/Tokens.antt =====
-- `u16cstok` of FSPChecker/Compat/tchar.cpp: the three static variables are a state that is passed on, and
-- `fresh` is what `new` gives.
pub mod Fields
pub mod Scan
pub mod Call
pub mod Enumerate
use learn_docs.Base.{ℕ, zero, suc, ◌+◌, ◌-◌, Bool, true, false, ◌==◌, ltb, if◌then◌else◌, in_range}
use learn_docs.Memory.{Ptr, null, Mem, write}
use learn_docs.Utf16.Defs.{u16cslen}

pub record Tokenizer : Type 0 where
  pub lastcursor : Ptr
  pub buffer : Ptr
  pub buffer_size : ℕ

-- `for (size_t i = 0; i < num_delimiters; i++)`: `b_found`.
unfoldable pub is_delimiter : Mem → Ptr → ℕ → ℕ → Bool
is_delimiter m delimiters zero c = false
is_delimiter m delimiters (suc rounds) c =
    let rest = is_delimiter m (delimiters + 1) rounds c in if m delimiters == c then true else rest

-- `while (*lastcursor != 0x0000)`, on fuel.
unfoldable pub skip_delimiters : ℕ → Mem → Ptr → ℕ → Ptr → Ptr
skip_delimiters zero m delimiters num lastcursor = lastcursor
skip_delimiters (suc fuel) m delimiters num lastcursor =
    let rest = skip_delimiters fuel m delimiters num (lastcursor + 1) in
    if m lastcursor == 0
    then lastcursor
    else if is_delimiter m delimiters num (m lastcursor)
    then rest
    else lastcursor

-- `while (*endcursor != 0x0000)`, on fuel.
unfoldable pub find_delimiter : ℕ → Mem → Ptr → ℕ → Ptr → Ptr
find_delimiter zero m delimiters num endcursor = endcursor
find_delimiter (suc fuel) m delimiters num endcursor =
    let rest = find_delimiter fuel m delimiters num (endcursor + 1) in
    if m endcursor == 0
    then endcursor
    else if is_delimiter m delimiters num (m endcursor)
    then endcursor
    else rest

-- `memcpy` of regions that do not overlap.
abbrev pub memcpy : Ptr → Ptr → ℕ → Mem → Mem
memcpy dst src n m a = if in_range dst n a then m (src + (a - dst)) else m a

-- The buffer is made anew where it is too small.
unfoldable pub copy_token : Ptr → Ptr → Ptr → Tokenizer → Mem → Ptr × Tokenizer × Mem
copy_token fresh lastcursor endcursor t m =
    let tsize = endcursor - lastcursor + 1 in
    let small = ltb t.buffer_size tsize in
    let buffer = if small then fresh else t.buffer in
    (
      buffer,
      record {
        lastcursor = endcursor;
        buffer = buffer;
        buffer_size = if small then tsize else t.buffer_size;
      },
      memcpy buffer lastcursor (tsize - 1) (write m (buffer + (tsize - 1)) 0),
    )

unfoldable pub u16cstok : ℕ → Ptr → Ptr → Ptr → Tokenizer → Mem → Ptr × Tokenizer × Mem
u16cstok fuel fresh wcs delimiters t m =
    let num = u16cslen m delimiters in
    let start = if wcs == null then t.lastcursor else wcs in
    let cursor = skip_delimiters fuel m delimiters num start in
    if start == null
    then (null, record t { lastcursor = start }, m)
    else if num == 0
    then (start, record t { lastcursor = start }, m)
    else if m cursor == 0
    then (null, record t { lastcursor = cursor }, m)
    else copy_token fresh cursor (find_delimiter fuel m delimiters num cursor) t m
