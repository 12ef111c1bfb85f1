-- ===== src/Handle/Ctx.antt =====
-- The bytes of the union `ctx` of common_handle.h on a 64-bit little-endian machine.

use learn_docs.Base.{
  ℕ, zero, suc, ◌+◌, ◌-◌, ◌*◌, ◌/◌, ◌%◌, ◌≤◌, ◌<◌, ◌≡◌, refl, List, [], ◌∷◌, arith, length, get_or,
  ◌⊎◌, ◌≢◌, ap, ◌∙◌,
}
use learn_docs.Memory.{Mem, write, paste}
use learn_docs.SafeStr.Outcome.{scan}

-- sizeof(ctx): `fileInfo` has 4 + 255 + 255 bytes, and the union is aligned to 8.
abbrev pub ctx_size : ℕ
ctx_size = 520

-- UINT8_MAX, the size of each text.
abbrev pub text_size : ℕ
text_size = 255

-- A little-endian number of `n` bytes at an offset.
unfoldable pub put_le : ℕ → ℕ → ℕ → Mem → Mem
put_le zero offset v m = m
put_le (suc n) offset v m = put_le n (offset + 1) (v / 256) (write m offset (v % 256))

unfoldable pub get_le : ℕ → ℕ → Mem → ℕ
get_le zero offset m = 0
get_le (suc n) offset m = m offset + 256 * get_le n (offset + 1) m

-- `strncpy(text, s.c_str(), sizeof text)`, for an `s` without NUL.
abbrev pub put_text : ℕ → List ℕ → Mem → Mem
put_text offset s m = paste offset text_size s m

-- `std::string(text)`: up to the first NUL, which may lie behind the text.
abbrev pub get_text : ℕ → Mem → List ℕ
get_text offset m = scan m offset (ctx_size - offset)

-- `v` is a number of `n` bytes.
abbrev pub Fits : ℕ → ℕ → Type 0
Fits zero v = v ≡ 0
Fits (suc n) v = Fits n (v / 256)

-- No character is NUL.
abbrev pub NoNul : List ℕ → Type 0
NoNul [] = Unit {0}
NoNul (x ∷ xs) = (x ≢ 0) × NoNul xs

pub put_le-outside :
    (n offset v : ℕ) (m : Mem) (a : ℕ)
    → (a < offset) ⊎ (offset + n ≤ a)
    → put_le n offset v m a ≡ m a
unfolding put_le
put_le-outside zero offset v m a o = refl
put_le-outside (suc n) offset v m a o =
    put_le-outside n (offset + 1) (v / 256) (write m offset (v % 256)) a (omega arith)
    ∙ ground arith

-- What is written is read back.
pub get_le-put_le :
    (n offset v : ℕ) (m : Mem) → Fits n v → get_le n offset (put_le n offset v m) ≡ v
unfolding put_le get_le
get_le-put_le zero offset v m f = omega arith
get_le-put_le (suc n) offset v m f = ground (
  arith,
  get_le-put_le n (offset + 1) (v / 256) (write m offset (v % 256)) f,
  put_le-outside n (offset + 1) (v / 256) (write m offset (v % 256)) offset,
)

pub get_le-same :
    (n offset : ℕ) (m m' : Mem)
    → ((a : ℕ) → offset ≤ a → a < offset + n → m' a ≡ m a)
    → get_le n offset m' ≡ get_le n offset m
unfolding get_le
get_le-same zero offset m m' same = refl
get_le-same (suc n) offset m m' same = ground (
  arith,
  same offset,
  get_le-same n (offset + 1) m m' (λ a h k. same a (omega arith) (omega arith)),
)

-- A text that ends within `g` cells is read whole.
pub scan-eq :
    (m : Mem) (p g : ℕ) (xs : List ℕ)
    → NoNul xs
    → length xs < g
    → ((i : ℕ) → i ≤ length xs → m (p + i) ≡ get_or xs i 0)
    → scan m p g ≡ xs
scan-eq m p zero xs nn h e = absurd (omega arith)
scan-eq m p (suc g) [] nn h e = let z : p + 0 ≡ p = omega arith in ground (arith, e 0, ap m z)
scan-eq m p (suc g) (x ∷ xs) nn h e =
    let z : p + 0 ≡ p = omega arith in
    let rest =
      scan-eq m (p + 1) g xs nn.1 (omega arith)
        (λ i hi. let s : p + 1 + i ≡ p + suc i = omega arith in ap m s ∙ e (suc i) (omega arith)) in
    ground (arith, e 0, ap m z, rest)

paste-at : (d n i : ℕ) (xs : List ℕ) (m : Mem) → i < n → paste d n xs m (d + i) ≡ get_or xs i 0
paste-at d n i xs m h =
    let e : d + i - d ≡ i = omega arith in ground (arith, ap (λ (k : ℕ). get_or xs k 0) e)

-- A text shorter than its field is read back, as long as the field keeps its bytes.
pub get_text-put_text :
    (offset : ℕ) (s : List ℕ) (m m' : Mem)
    → NoNul s
    → length s < text_size
    → offset + text_size ≤ ctx_size
    → ((a : ℕ) → offset ≤ a → a < offset + text_size → m' a ≡ put_text offset s m a)
    → get_text offset m' ≡ s
get_text-put_text offset s m m' nn short fits kept =
    scan-eq m' offset (ctx_size - offset) s nn (omega arith) λ i hi.
      kept (offset + i) (omega arith) (omega arith) ∙ paste-at offset text_size i s m (omega arith)
