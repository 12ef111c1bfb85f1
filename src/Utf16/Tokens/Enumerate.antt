-- ===== src/Utf16/Tokens/Enumerate.antt =====
-- `u16cstok` called until it gives a null pointer.
use learn_docs.Base.{
  ℕ, zero, suc, ◌+◌, ◌≡◌, ◌≢◌, ◌≤◌, ◌<◌, refl, ap, sym, subst, ◌∙◌, List, [], ◌∷◌, ◌==◌,
  if◌then◌else◌, inl, inr, length, arith, ne→==, min, ap₂, ◌⊎◌,
}
use learn_docs.Memory.{Ptr, null, Mem, StrAt, StrAt-StrWithin}
use learn_docs.Utf16.Defs.{size_max, u16cslen}
use learn_docs.Utf16.Length.{u16csnlen-length}
use learn_docs.Utf16.Tokens.{Tokenizer, u16cstok, skip_delimiters, find_delimiter}
use learn_docs.Utf16.Tokens.Fields.{
  fields, nonempty, skipped, token, behind, nonempty-skipped, nonempty-token, nonempty-none,
  skipped-head, length-behind, length-behind-lt,
}
use learn_docs.Utf16.Tokens.Scan.{Rest, skip_delimiters-Rest, find_delimiter-Rest}
use learn_docs.Utf16.Tokens.Call.{
  Ready, Allocated, Given, copy_token-Given, Ready-later, Allocated-later,
}

-- The text at a pointer, on fuel.
unfoldable pub read_text : ℕ → Mem → Ptr → List ℕ
read_text zero m p = []
read_text (suc fuel) m p =
    let rest = read_text fuel m (p + 1) in if m p == 0 then [] else m p ∷ rest

read_text-StrAt :
    (fuel : ℕ) (m : Mem) (p : Ptr) (xs : List ℕ)
    → StrAt m p xs
    → length xs ≤ fuel
    → read_text fuel m p ≡ xs
unfolding read_text
read_text-StrAt zero m p [] s h = refl
read_text-StrAt zero m p (x ∷ xs) s h = absurd (omega arith)
read_text-StrAt (suc fuel) m p [] s h = rw s refl
read_text-StrAt (suc fuel) m p (x ∷ xs) s h =
    rw (s.0, ne→== x 0 s.1)
      (ap (λ (r : List ℕ). x ∷ r) (read_text-StrAt fuel m (p + 1) xs s.2 (omega arith)))

-- The first call with the string and the later ones with a null pointer, until one gives null;
-- each text is read before the next call.
unfoldable pub tokens : ℕ → ℕ → (ℕ → Ptr) → Ptr → Ptr → Tokenizer → Mem → List (List ℕ)
tokens zero fuel fresh wcs delimiters t m = []
tokens (suc calls) fuel fresh wcs delimiters t m =
    let (b, t', m') = u16cstok fuel (fresh calls) wcs delimiters t m in
    let rest = tokens calls fuel fresh null delimiters t' m' in
    if b == null then [] else read_text fuel m' b ∷ rest

u16cslen-length :
    (m : Mem) (d : Ptr) (ds : List ℕ)
    → d ≢ null
    → StrAt m d ds
    → 0 < length ds
    → length ds < size_max
    → u16cslen m d ≡ length ds
unfolding u16cslen
u16cslen-length m d ds h s some_left short =
    let whole : min size_max (length ds) ≡ length ds = omega arith in
    let len = u16csnlen-length m d size_max ds h (StrAt-StrWithin m d size_max ds s) in
    len ∙ rw (whole, ne→== (length ds) 0 (omega arith)) refl

List-cases : (xs : List ℕ) → (xs ≡ []) ⊎ ((x : ℕ) × (ys : List ℕ) × (xs ≡ x ∷ ys))
List-cases [] = inl refl
List-cases (x ∷ xs) = inr (x, xs, refl)

module _ (d : Ptr) (ds : List ℕ) (valid : d ≢ null) (some_left : 0 < length ds)
    (short : length ds < size_max) where
  abbrev start_of : Ptr → Tokenizer → Ptr
  start_of wcs t = if wcs == null then t.lastcursor else wcs

  call-null :
      (fuel fresh wcs p : ℕ) (t : Tokenizer) (m : Mem) (xs : List ℕ)
      → Ready d ds m t p xs
      → start_of wcs t ≡ p
      → p ≢ null
      → length xs ≤ fuel
      → skipped ds xs ≡ []
      → (u16cstok fuel fresh wcs d t m).0 ≡ null
  unfolding u16cstok
  call-null fuel fresh wcs p t m xs ready e n h none_left =
      let num = u16cslen-length m d ds valid ready.delimiters some_left short in
      let r =
        subst (λ (ys : List ℕ). Rest m p xs (skip_delimiters fuel m d (length ds) p) ys) none_left
          (skip_delimiters-Rest m d ds ready.delimiters fuel p xs ready.stands h) in
      rw (e, num, ne→== p null n, ne→== (length ds) 0 (omega (arith, some_left)), r.stands) refl

  call-Given :
      (fuel fresh wcs p : ℕ) (t : Tokenizer) (m : Mem) (xs ys : List ℕ) (x : ℕ)
      → Ready d ds m t p xs
      → Allocated d ds fresh p xs
      → start_of wcs t ≡ p
      → p ≢ null
      → length xs ≤ fuel
      → skipped ds xs ≡ x ∷ ys
      → (q : Ptr) × Rest m p xs q (x ∷ ys) × Given d ds q (x ∷ ys) (u16cstok fuel fresh wcs d t m)
  unfolding u16cstok
  call-Given fuel fresh wcs p t m xs ys x ready new e n h left =
      let num = u16cslen-length m d ds valid ready.delimiters some_left short in
      let q = skip_delimiters fuel m d (length ds) p in
      let r : Rest m p xs q (x ∷ ys) =
        subst (λ (zs : List ℕ). Rest m p xs q zs) left
          (skip_delimiters-Rest m d ds ready.delimiters fuel p xs ready.stands h) in
      let f =
        find_delimiter-Rest m d ds ready.delimiters fuel q (x ∷ ys) r.stands
          (omega (arith, r.ends, r.beyond, h)) in
      let ready' = Ready-later d ds m t p q xs (x ∷ ys) r.beyond r.ends r.stands ready in
      let new' = Allocated-later d ds fresh p q xs (x ∷ ys) r.beyond r.ends new in
      (
        q,
        r,
        rw
            (
              e,
              num,
              ne→== p null n,
              ne→== (length ds) 0 (omega (arith, some_left)),
              r.stands.0,
              ne→== x 0 r.stands.1,
            )
            (copy_token-Given d ds fresh q (find_delimiter fuel m d (length ds) q) t m (x ∷ ys)
              ready' new' (omega (arith, f.ends, length-behind ds (x ∷ ys))) f.stands),
      )

  -- For a string that is read from the start of the first call, and later from where the one
  -- before ended.
  tokens-from :
      (calls fuel : ℕ) (fresh : ℕ → Ptr) (wcs p : Ptr) (t : Tokenizer) (m : Mem) (xs : List ℕ)
      → Ready d ds m t p xs
      → ((i : ℕ) → Allocated d ds (fresh i) p xs)
      → start_of wcs t ≡ p
      → p ≢ null
      → length xs ≤ fuel
      → length xs < calls
      → tokens calls fuel fresh wcs d t m ≡ nonempty (fields ds xs)
  unfolding tokens
  tokens-from zero fuel fresh wcs p t m xs ready new e n h room = absurd (omega arith)
  tokens-from (suc calls) fuel fresh wcs p t m xs ready new e n h room =
      elim (List-cases (skipped ds xs)) [
        | inl none_left ↦
            rw (call-null fuel (fresh calls) wcs p t m xs ready e n h none_left)
              (sym (nonempty-none ds xs none_left))
        | inr (x, ys, left) ↦
            let (q, r, given) =
              call-Given fuel (fresh calls) wcs p t m xs ys x ready (new calls) e n h left in
            let (b, t', m') = u16cstok fuel (fresh calls) wcs d t m in
            let head = skipped-head ds xs ys x left in
            let shorter = length-behind-lt ds ys x head in
            let text =
              read_text-StrAt fuel m' b (token ds (x ∷ ys)) given.text
                (omega (arith, length-behind ds (x ∷ ys), r.ends, r.beyond, h)) in
            let rest =
              tokens-from calls fuel fresh null t'.lastcursor t' m' (behind ds (x ∷ ys)) given.next
                (λ i.
                  Allocated-later d ds (fresh i) q t'.lastcursor (x ∷ ys) (behind ds (x ∷ ys))
                    given.beyond given.ends
                    (Allocated-later d ds (fresh i) p q xs (x ∷ ys) r.beyond r.ends (new i)))
                refl (λ z. n (omega (arith, z, r.beyond, given.beyond)))
                (omega (arith, shorter, r.ends, r.beyond, h))
                (omega (arith, shorter, r.ends, r.beyond, room)) in
            rw (ne→== b null given.not_null) (
              ap₂ (λ (y : List ℕ) (zs : List (List ℕ)). y ∷ zs) text rest
              ∙ sym (nonempty-token ds ys x head)
              ∙ ap (λ (zs : List ℕ). nonempty (fields ds zs)) (sym left)
              ∙ sym (nonempty-skipped ds xs))
      ]

  -- For delimiters that are not null, 1 to SIZE_MAX - 1 of them, a string that is not at null
  -- and buffers apart from the two, and fuel for the units of the string: the calls of
  -- `u16cstok` with the string first and null pointers then, one more than the string has units
  -- at most, give the fields that the delimiters cut the string into, without the empty ones, in
  -- their order, and end by a null pointer.
  pub tokens-fields :
      (calls fuel : ℕ) (fresh : ℕ → Ptr) (p : Ptr) (t : Tokenizer) (m : Mem) (xs : List ℕ)
      → Ready d ds m t p xs
      → ((i : ℕ) → Allocated d ds (fresh i) p xs)
      → p ≢ null
      → length xs ≤ fuel
      → length xs < calls
      → tokens calls fuel fresh p d t m ≡ nonempty (fields ds xs)
  tokens-fields calls fuel fresh p t m xs ready new n h room =
      tokens-from calls fuel fresh p p t m xs ready new (rw (ne→== p null n) refl) n h room
