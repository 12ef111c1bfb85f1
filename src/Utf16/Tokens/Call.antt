-- ===== src/Utf16/Tokens/Call.antt =====
-- One call of `u16cstok`.
use learn_docs.Base.{
  ℕ, suc, ◌+◌, ◌-◌, ◌≡◌, ◌≢◌, ◌≤◌, ◌<◌, ◌⊎◌, sym, subst, ◌∙◌, true, false, List, [], ◌∷◌, ◌==◌, inl,
  inr, Bool-cases, length, arith, get_or, ne→==, eq→==, ltb, in_range, get_or-beyond,
}
use native.Mathlib.Decide.{dec_lt}
use learn_docs.Memory.{Ptr, null, Mem, write, StrAt}
use learn_docs.Handle.Ctx.{NoNul}
use learn_docs.Utf16.Narrow.{get_or-StrAt}
use learn_docs.Utf16.Tokens.{Tokenizer, memcpy, copy_token}
use learn_docs.Utf16.Tokens.Fields.{token, behind, length-behind}
use learn_docs.Utf16.Tokens.Scan.{token_units, token-NoNul}

-- The `n` cells from `b` on are none of the `k` from `p` on.
abbrev pub Clear : Ptr → ℕ → Ptr → ℕ → Type 0
Clear b n p k = (b + n ≤ p) ⊎ (p + k ≤ b)

pub Clear-fewer :
    (b n n' p k p' k' : ℕ) → n' ≤ n → p ≤ p' → p' + k' ≤ p + k → Clear b n p k → Clear b n' p' k'
Clear-fewer b n n' p k p' k' h l r (inl c) = inl (omega arith)
Clear-fewer b n n' p k p' k' h l r (inr c) = inr (omega arith)

-- A string stands still where only cells apart from it change.
StrAt-kept :
    (m m' : Mem) (b n : ℕ) (q : Ptr) (ys : List ℕ)
    → ((a : Ptr) → in_range b n a ≡ false → m' a ≡ m a)
    → Clear b n q (suc (length ys))
    → StrAt m q ys
    → StrAt m' q ys
StrAt-kept m m' b n q [] same c s = same q (apart_cell c) ∙ s
  where
    apart_cell : Clear b n q 1 → in_range b n q ≡ false
    apart_cell (inl h) = ground arith
    apart_cell (inr h) = ground arith
StrAt-kept m m' b n q (y ∷ ys) same c s = (
  same q (apart_cell c) ∙ s.0,
  s.1,
  StrAt-kept m m' b n (q + 1) ys same
      (Clear-fewer b n n q (suc (suc (length ys))) (q + 1) (suc (length ys)) (omega arith)
        (omega arith) (omega arith) c)
      s.2,
)
  where
    apart_cell : Clear b n q (suc (suc (length ys))) → in_range b n q ≡ false
    apart_cell (inl h) = ground arith
    apart_cell (inr h) = ground arith

-- The token in a buffer, read from the cells from `src` on.
pub copied : Ptr → Ptr → ℕ → Mem → Mem
copied b src n m = memcpy b src n (write m (b + n) 0)

copied-outside :
    (b src n : ℕ) (m : Mem) (a : Ptr) → in_range b (suc n) a ≡ false → copied b src n m a ≡ m a
unfolding copied
copied-outside b src n m a h = ground arith

copied-StrAt :
    (b src k : ℕ) (m : Mem) (ys : List ℕ)
    → NoNul ys
    → ((i : ℕ) → i < length ys → m (src + i) ≡ get_or ys i 0)
    → Clear b (suc (length ys)) src k
    → length ys ≤ k
    → StrAt (copied b src (length ys) m) b ys
unfolding copied
copied-StrAt b src k m ys nn units c room = get_or-StrAt (copied b src (length ys) m) b ys nn λ i h.
    elim (dec_lt i (length ys)) [
      | yes l ↦
          let off : b + i - b ≡ i = omega arith in
          let apart = ne→== (src + i) (b + length ys) (not_last c i l) in
          let inside : in_range b (length ys) (b + i) ≡ true = ground arith in
          rw (inside, off, apart) (units i l)
      | no l ↦
          let last : i ≡ length ys = omega arith in
          let outside : in_range b (length ys) (b + i) ≡ false = ground arith in
          let at : (b + i == b + length ys) ≡ true =
            eq→== (b + i) (b + length ys) (omega (arith, last)) in
          rw (outside, at) (sym (get_or-beyond ys i 0 (omega (arith, last))))
    ]
  where
    not_last : Clear b (suc (length ys)) src k → (i : ℕ) → i < length ys → src + i ≢ b + length ys
    not_last (inl h) i l e = omega arith
    not_last (inr h) i l e = omega arith

module _ (d : Ptr) (ds : List ℕ) where
  -- What a call finds: the string and the delimiters, apart from the buffer.
  pub record Ready (m : Mem) (t : Tokenizer) (p : Ptr) (xs : List ℕ) : Type 0 where
    pub stands : StrAt m p xs
    pub delimiters : StrAt m d ds
    pub clear : Clear t.buffer t.buffer_size p (suc (length xs))
    pub clear_delimiters : Clear t.buffer t.buffer_size d (suc (length ds))
    pub made : 0 < t.buffer_size → t.buffer ≢ null

  -- What `new` gives for a token of the string.
  pub record Allocated (fresh p : Ptr) (xs : List ℕ) : Type 0 where
    pub not_null : fresh ≢ null
    pub clear : Clear fresh (suc (length xs)) p (suc (length xs))
    pub clear_delimiters : Clear fresh (suc (length xs)) d (suc (length ds))

  -- Both hold of what is left of the string.
  pub Ready-later :
      (m : Mem) (t : Tokenizer) (p q : Ptr) (xs ys : List ℕ)
      → p ≤ q
      → q + length ys ≡ p + length xs
      → StrAt m q ys
      → Ready m t p xs
      → Ready m t q ys
  Ready-later m t p q xs ys h e s ready = record {
    stands = s;
    delimiters = ready.delimiters;
    clear =
        Clear-fewer t.buffer t.buffer_size t.buffer_size p (suc (length xs)) q (suc (length ys))
          (omega arith) h (omega (arith, e)) ready.clear;
    clear_delimiters = ready.clear_delimiters;
    made = ready.made;
  }

  pub Allocated-later :
      (fresh p q : Ptr) (xs ys : List ℕ)
      → p ≤ q
      → q + length ys ≡ p + length xs
      → Allocated fresh p xs
      → Allocated fresh q ys
  Allocated-later fresh p q xs ys h e new = record {
    not_null = new.not_null;
    clear =
        Clear-fewer fresh (suc (length xs)) (suc (length ys)) p (suc (length xs)) q
          (suc (length ys)) (omega (arith, e, h)) h (omega (arith, e)) new.clear;
    clear_delimiters =
        Clear-fewer fresh (suc (length xs)) (suc (length ys)) d (suc (length ds)) d
          (suc (length ds)) (omega (arith, e, h)) (omega arith) (omega arith) new.clear_delimiters;
  }

  -- What a call gives for a string that does not begin with a delimiter.
  pub record Given (p : Ptr) (xs : List ℕ) (r : Ptr × Tokenizer × Mem) : Type 0 where
    pub not_null : r.0 ≢ null
    pub text : StrAt r.2 r.0 (token ds xs)
    pub next : Ready r.2 r.1 r.1.lastcursor (behind ds xs)
    pub ends : r.1.lastcursor + length (behind ds xs) ≡ p + length xs
    pub beyond : p ≤ r.1.lastcursor

  token_left :
      (b size p : ℕ) (m : Mem) (xs : List ℕ)
      → StrAt m p xs
      → StrAt m (p + length (token ds xs)) (behind ds xs)
      → StrAt m d ds
      → length (token ds xs) < size
      → b ≢ null
      → Clear b size p (suc (length xs))
      → Clear b size d (suc (length ds))
      → Given p xs (
        b,
        record { lastcursor = p + length (token ds xs); buffer = b; buffer_size = size },
        copied b p (length (token ds xs)) m,
      )
  token_left b size p m xs s rest delims room n c cd =
      let len = length-behind ds xs in
      let k = length (token ds xs) in
      let kept = copied-outside b p k m in
      let near =
        Clear-fewer b size (suc k) p (suc (length xs)) p (suc (length xs)) room (omega arith)
          (omega arith) c in
      let behind_clear =
        Clear-fewer b size size p (suc (length xs)) (p + k) (suc (length (behind ds xs)))
          (omega arith) (omega arith) (omega (arith, len)) c in
      let narrow = Clear-fewer b size (suc k) in
      record {
        not_null = n;
        text =
            copied-StrAt b p (suc (length xs)) m (token ds xs) (token-NoNul m p ds xs s)
              (λ i h. token_units m p ds xs i s h) near (omega (arith, len));
        next = record {
          stands =
              StrAt-kept m (copied b p k m) b (suc k) (p + k) (behind ds xs) kept
                (narrow (p + k) (suc (length (behind ds xs))) (p + k) (suc (length (behind ds xs)))
                  room (omega arith) (omega arith) behind_clear)
                rest;
          delimiters =
              StrAt-kept m (copied b p k m) b (suc k) d ds kept
                (narrow d (suc (length ds)) d (suc (length ds)) room (omega arith) (omega arith) cd)
                delims;
          clear = behind_clear;
          clear_delimiters = cd;
          made = λ h. n;
        };
        ends = omega (arith, len);
        beyond = omega arith;
      }

  pub copy_token-Given :
      (fresh p endcursor : Ptr) (t : Tokenizer) (m : Mem) (xs : List ℕ)
      → Ready m t p xs
      → Allocated fresh p xs
      → endcursor ≡ p + length (token ds xs)
      → StrAt m endcursor (behind ds xs)
      → Given p xs (copy_token fresh p endcursor t m)
  unfolding copy_token copied
  copy_token-Given fresh p endcursor t m xs ready new e rest =
      let k = length (token ds xs) in
      let len = length-behind ds xs in
      let size : endcursor - p + 1 ≡ suc k = omega (arith, e) in
      let last : suc k - 1 ≡ k = omega arith in
      let rest' = subst (λ (q : Ptr). StrAt m q (behind ds xs)) e rest in
      rw (size, last, e)
        elim (Bool-cases (ltb t.buffer_size (suc k))) [
          | inl small ↦
              let clear =
                Clear-fewer fresh (suc (length xs)) (suc k) p (suc (length xs)) p (suc (length xs))
                  (omega (arith, len)) (omega arith) (omega arith) new.clear in
              let clear_delimiters =
                Clear-fewer fresh (suc (length xs)) (suc k) d (suc (length ds)) d (suc (length ds))
                  (omega (arith, len)) (omega arith) (omega arith) new.clear_delimiters in
              rw small (
                token_left fresh (suc k) p m xs ready.stands rest' ready.delimiters (omega arith)
                  new.not_null clear clear_delimiters)
          | inr large ↦
              let room : k < t.buffer_size = ground arith in
              rw large (
                token_left t.buffer t.buffer_size p m xs ready.stands rest' ready.delimiters room
                  (ready.made (omega (arith, room))) ready.clear ready.clear_delimiters)
        ]
