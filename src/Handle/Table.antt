-- ===== src/Handle/Table.antt =====
-- `std::unordered_map<int, __compat_handle_header_t>` as the list of its entries in the order in
-- which it is walked. Where the container puts a new entry is its own affair: `insert` takes the
-- place as an argument.
use learn_docs.Base.{
  ℕ, zero, suc, ◌≡◌, refl, Bool, false, ◌||◌, Option, none, some, List, [], ◌∷◌, ◌==◌,
  if◌then◌else◌, arith,
}
use learn_docs.Handle.Types.{Header}

abbrev pub Table : Type 0
Table = List (ℕ × Header)

unfoldable pub find : ℕ → Table → Option Header
find k [] = none
find k ((j, h) ∷ t) = if j == k then some h else find k t

unfoldable pub has : ℕ → Table → Bool
has k [] = false
has k ((j, h) ∷ t) = (j == k) || has k t

unfoldable pub insert : ℕ → ℕ × Header → Table → Table
insert zero e t = e ∷ t
insert (suc place) e [] = e ∷ []
insert (suc place) e (x ∷ t) = x ∷ insert place e t

-- `it->second.… = …`, at the entry that `find` gives.
unfoldable pub update : ℕ → (Header → Header) → Table → Table
update k f [] = []
update k f ((j, h) ∷ t) = if j == k then (j, f h) ∷ t else (j, h) ∷ update k f t

unfoldable pub erase : ℕ → Table → Table
erase k [] = []
erase k ((j, h) ∷ t) = if j == k then t else (j, h) ∷ erase k t

-- No two entries have one key.
abbrev pub Distinct : Table → Type 0
Distinct [] = Unit {0}
Distinct ((j, h) ∷ t) = (has j t ≡ false) × Distinct t

pub find-none_of_has : (k : ℕ) (t : Table) → has k t ≡ false → find k t ≡ none
unfolding find has
find-none_of_has k [] h = refl
find-none_of_has k ((j, x) ∷ t) h = ground (arith, find-none_of_has k t)

pub has-insert :
    (place k j : ℕ) (h : Header) (t : Table) → has j (insert place (k, h) t) ≡ ((k == j) || has j t)
unfolding has insert
has-insert zero k j h t = refl
has-insert (suc place) k j h [] = refl
has-insert (suc place) k j h ((i, x) ∷ t) = ground (arith, has-insert place k j h t)

pub find-insert :
    (place k j : ℕ) (h : Header) (t : Table)
    → has k t ≡ false
    → find j (insert place (k, h) t) ≡ (if k == j then some h else find j t)
unfolding find insert has
find-insert zero k j h t f = refl
find-insert (suc place) k j h [] f = refl
find-insert (suc place) k j h ((i, x) ∷ t) f = ground (arith, find-insert place k j h t)

pub find-update :
    (k j : ℕ) (f : Header → Header) (h : Header) (t : Table)
    → find k t ≡ some h
    → find j (update k f t) ≡ (if k == j then some (f h) else find j t)
unfolding find update
find-update k j f h [] e = cc
find-update k j f h ((i, x) ∷ t) e = ground (arith, find-update k j f h t)

pub has-update : (k j : ℕ) (f : Header → Header) (t : Table) → has j (update k f t) ≡ has j t
unfolding has update
has-update k j f [] = refl
has-update k j f ((i, x) ∷ t) = ground (arith, has-update k j f t)

pub has-erase : (k j : ℕ) (t : Table) → has j t ≡ false → has j (erase k t) ≡ false
unfolding has erase
has-erase k j [] h = refl
has-erase k j ((i, x) ∷ t) h = ground (arith, has-erase k j t)

pub find-erase :
    (k j : ℕ) (t : Table) → Distinct t → find j (erase k t) ≡ (if k == j then none else find j t)
unfolding find erase
find-erase k j [] d = ground arith
find-erase k j ((i, x) ∷ t) d = ground (arith, find-erase k j t d.1, find-none_of_has i t d.0)

pub insert-Distinct :
    (place k : ℕ) (h : Header) (t : Table)
    → has k t ≡ false
    → Distinct t
    → Distinct (insert place (k, h) t)
unfolding insert has
insert-Distinct zero k h t f d = (f, d)
insert-Distinct (suc place) k h [] f d = (refl, tt)
insert-Distinct (suc place) k h ((i, x) ∷ t) f d =
    (ground (arith, has-insert place k i h t), insert-Distinct place k h t (ground arith) d.1)

pub update-Distinct :
    (k : ℕ) (f : Header → Header) (t : Table) → Distinct t → Distinct (update k f t)
unfolding update
update-Distinct k f [] d = tt
update-Distinct k f ((i, x) ∷ t) d = ground (arith, has-update k i f t, update-Distinct k f t d.1)

pub erase-Distinct : (k : ℕ) (t : Table) → Distinct t → Distinct (erase k t)
unfolding erase
erase-Distinct k [] d = tt
erase-Distinct k ((i, x) ∷ t) d = ground (arith, has-erase k i t, erase-Distinct k t d.1)

pub update_absent : (k : ℕ) (f : Header → Header) (t : Table) → has k t ≡ false → update k f t ≡ t
unfolding has update
update_absent k f [] h = refl
update_absent k f ((j, x) ∷ t) h = ground (arith, update_absent k f t)
