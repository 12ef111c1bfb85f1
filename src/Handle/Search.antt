-- ===== src/Handle/Search.antt =====
-- The walks that look an object up by what it holds.
use learn_docs.Base.{
  ℕ, zero, suc, ◌+◌, ◌≤◌, ◌<◌, ◌≡◌, ◌≢◌, refl, ◌∙◌, ap, Bool, true, false, List, [], ◌∷◌, some,
  length, arith, Bool-cases, inl, inr,
}
use learn_docs.Memory.{Mem}
use learn_docs.SafeStr.Outcome.{scan}
use learn_docs.Handle.Types.{Header, zero_header}
use learn_docs.Handle.Ctx.{text_size, put_text, put_le, put_le-outside}
use learn_docs.Handle.Table.{Table, find, has, insert, update, update_absent, Distinct}
use learn_docs.Handle.Keys.{new_key_get, new_key_get_fresh}
use learn_docs.Handle.Object.{find_first, mutex_find_by_name, mutex_reg, fill_mutex, named, text_eq}

has_of_find : (k : ℕ) (h : Header) (t : Table) → find k t ≡ some h → has k t ≡ true
unfolding find has
has_of_find k h [] e = cc
has_of_find k h ((j, x) ∷ t) e = ground (arith, has_of_find k h t)

-- If an entry passes, the walk stops at one that passes.
find_first_lem :
    (test : Header → Bool) (k : ℕ) (h : Header) (t : Table)
    → Distinct t
    → find k t ≡ some h
    → test h ≡ true
    → (g : Header) × (find (find_first test t) t ≡ some g) × (test g ≡ true)
unfolding find_first find
find_first_lem test k h [] d e p = cc
find_first_lem test k h ((j, x) ∷ t) d e p = elim (Bool-cases (test x)) [
  | inl y ↦ (x, ground arith, y)
  | inr n ↦
      let later : find k t ≡ some h = ground arith in
      let (g, q, r) = find_first_lem test k h t d.1 later p in
      (g, ground (arith, has_of_find (find_first test t) g t q), r)
]

-- In a map with distinct keys that has an entry for a mutex of the name, `mutex_find_by_name`
-- gives the key of an entry, and that entry is a mutex of the name.
pub mutex_find_by_name_complete :
    (name : List ℕ) (k : ℕ) (h : Header) (t : Table)
    → Distinct t
    → find k t ≡ some h
    → named name h ≡ true
    → (g : Header) × (find (mutex_find_by_name name t) t ≡ some g) × (named name g ≡ true)
unfolding mutex_find_by_name
mutex_find_by_name_complete name k h t d e p = find_first_lem (named name) k h t d e p

length_of_text_eq : (xs ys : List ℕ) → text_eq xs ys ≡ true → length xs ≡ length ys
length_of_text_eq [] [] e = refl
length_of_text_eq [] (y ∷ ys) e = cc
length_of_text_eq (x ∷ xs) [] e = cc
length_of_text_eq (x ∷ xs) (y ∷ ys) e = ground (arith, length_of_text_eq xs ys)

length-scan-le : (m : Mem) (k p g : ℕ) → m (p + k) ≡ 0 → length (scan m p g) ≤ k
length-scan-le m k p zero e = omega arith
length-scan-le m zero p (suc g) e = let z : p + 0 ≡ p = omega arith in ground (arith, ap m z)
length-scan-le m (suc k) p (suc g) e =
    let z : p + 1 + k ≡ p + suc k = omega arith in
    let shifted : m (p + 1 + k) ≡ 0 = ap m z ∙ e in
    ground (arith, length-scan-le m k (p + 1) g shifted)

text_eq_ne : (xs ys : List ℕ) (n : ℕ) → length xs ≤ n → n < length ys → text_eq xs ys ≡ false
text_eq_ne xs ys n h k = elim (Bool-cases (text_eq xs ys)) [
  | inl e ↦ absurd (omega (arith, length_of_text_eq xs ys e))
  | inr e ↦ e
]

-- A name of 256 bytes or more is cut, and so no longer equal to itself.
fill_mutex-unnamed :
    (key mutex attr : ℕ) (name : List ℕ)
    → text_size < length name
    → named name (fill_mutex key mutex attr name zero_header) ≡ false
fill_mutex-unnamed key mutex attr name h =
    let m : Mem = (fill_mutex key mutex attr name zero_header).ctx in
    let first : Mem = put_text 16 name (λ _. 0) in
    let end : m (16 + text_size) ≡ 0 =
      put_le-outside 8 8 attr (put_le 8 0 mutex first) 271 (omega arith)
      ∙ put_le-outside 8 0 mutex first 271 (omega arith) in
    text_eq_ne (scan m 16 504) name text_size (length-scan-le m text_size 16 504 end) h

pub find_first-insert :
    (test : Header → Bool) (place k : ℕ) (f : Header → Header) (h : Header) (t : Table)
    → has k t ≡ false
    → test (f h) ≡ false
    → find_first test (update k f (insert place (k, h) t)) ≡ find_first test t
unfolding find_first update insert has
find_first-insert test zero k f h t fresh e = ground (arith, update_absent k f t)
find_first-insert test (suc place) k f h [] fresh e = ground arith
find_first-insert test (suc place) k f h ((j, x) ∷ t) fresh e =
    ground (arith, find_first-insert test place k f h t)

-- The walk stops at a new entry that passes, where it stopped at none before; no key is 0.
pub find_first-insert_hit :
    (test : Header → Bool) (place k : ℕ) (f : Header → Header) (h : Header) (t : Table)
    → has 0 t ≡ false
    → find_first test t ≡ 0
    → has k t ≡ false
    → test (f h) ≡ true
    → find_first test (update k f (insert place (k, h) t)) ≡ k
unfolding find_first update insert has
find_first-insert_hit test zero k f h t z o fresh e = ground arith
find_first-insert_hit test (suc place) k f h [] z o fresh e = ground arith
find_first-insert_hit test (suc place) k f h ((j, x) ∷ t) z o fresh e =
    ground (arith, find_first-insert_hit test place k f h t)

-- What a walk finds is a key of the table.
pub has-find_first :
    (test : Header → Bool) (t : Table) → find_first test t ≢ 0 → has (find_first test t) t ≡ true
unfolding find_first has
has-find_first test [] n = absurd (n refl)
has-find_first test ((j, x) ∷ t) n = elim (Bool-cases (test x)) [
  | inl e ↦ ground arith
  | inr e ↦ ground (arith, has-find_first test t)
]

-- A mutex registered under a name of more than 255 bytes changes nothing for a search by that
-- name: it is not found.
pub mutex_find_by_name_long :
    (random place mutex attr : ℕ) (name : List ℕ) (t : Table)
    → text_size < length name
    → mutex_find_by_name name (mutex_reg random place mutex attr name t).1
      ≡ mutex_find_by_name name t
unfolding mutex_find_by_name mutex_reg new_key_get
mutex_find_by_name_long random place mutex attr name t h =
    let key = (new_key_get random place t).0 in
    find_first-insert (named name) place key (fill_mutex key mutex attr name) zero_header t
      ((new_key_get_fresh random place t).0) (fill_mutex-unnamed key mutex attr name h)
