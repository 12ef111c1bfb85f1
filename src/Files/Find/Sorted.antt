-- ===== src/Files/Find/Sorted.antt =====
-- The sorted listing is a rearrangement of the listing in ascending order.
use mathlib.Core.List.{Perm}
use mathlib.Core.List.Perm
use learn_docs.Base.{
  ◌≡◌, refl, ap, ◌∙◌, inl, inr, true, false, ◌||◌, List, [], ◌∷◌, arith, Bool-cases, length, suc,
}
use learn_docs.Handle.Object.{text_eq}
use learn_docs.Files.Text.{Text, text_leb, insert_sorted, sort}
use learn_docs.Handle.TextEq.{text_eq-sym}
use learn_docs.Files.Find.Walk.{All, has_text, Apart}

-- Each text is not above the next one.
abbrev pub Ascending : List Text → Type 0
Ascending [] = Unit {0}
Ascending (s ∷ []) = Unit {0}
Ascending (s ∷ t ∷ ts) = (text_leb s t ≡ true) × Ascending (t ∷ ts)

text_leb_total : (s t : Text) → text_leb s t ≡ false → text_leb t s ≡ true
unfolding text_leb
text_leb_total [] t h = cc
text_leb_total (a ∷ s) [] h = refl
text_leb_total (a ∷ s) (b ∷ t) h = ground (arith, text_leb_total s t)

insert_sorted-Ascending :
    (s : Text) (ts : List Text) → Ascending ts → Ascending (insert_sorted s ts)
unfolding insert_sorted
insert_sorted-Ascending s [] a = tt
insert_sorted-Ascending s (t ∷ []) a = elim (Bool-cases (text_leb s t)) [
  | inl e ↦ rw e (e, tt)
  | inr e ↦ rw e (text_leb_total s t e, tt)
]
insert_sorted-Ascending s (t ∷ u ∷ ts) a = elim (Bool-cases (text_leb s t)) [
  | inl e ↦ rw e (e, a)
  | inr e ↦ rw e (below s t u ts a e (insert_sorted-Ascending s (u ∷ ts) a.1))
]
  where
    below :
        (s t u : Text) (ts : List Text)
        → Ascending (t ∷ u ∷ ts)
        → text_leb s t ≡ false
        → Ascending (insert_sorted s (u ∷ ts))
        → Ascending (t ∷ insert_sorted s (u ∷ ts))
    below s t u ts a e rest = elim (Bool-cases (text_leb s u)) [
      | inl f ↦ rw f (text_leb_total s t e, (f, a.1))
      | inr f ↦ let rest' : Ascending (u ∷ insert_sorted s ts) = rw f at rest in rw f (a.0, rest')
    ]

pub sort-Ascending : (ts : List Text) → Ascending (sort ts)
unfolding sort
sort-Ascending [] = tt
sort-Ascending (s ∷ ts) = insert_sorted-Ascending s (sort ts) (sort-Ascending ts)

insert_sorted-perm : (s : Text) (ts : List Text) → Perm (insert_sorted s ts) (s ∷ ts)
unfolding insert_sorted
insert_sorted-perm s [] = Perm.refl (s ∷ [])
insert_sorted-perm s (t ∷ ts) = elim (Bool-cases (text_leb s t)) [
  | inl e ↦ rw e (Perm.refl (s ∷ t ∷ ts))
  | inr e ↦ rw e (Perm.trans (Perm.cons t (insert_sorted-perm s ts)) (Perm.swap s t ts))
]

pub sort-perm : (ts : List Text) → Perm (sort ts) ts
unfolding sort
sort-perm [] = Perm.refl []
sort-perm (s ∷ ts) = Perm.trans (insert_sorted-perm s (sort ts)) (Perm.cons s (sort-perm ts))

has_text-insert_sorted :
    (q s : Text) (ts : List Text) → has_text q (insert_sorted s ts) ≡ (text_eq s q || has_text q ts)
unfolding insert_sorted
has_text-insert_sorted q s [] = refl
has_text-insert_sorted q s (t ∷ ts) = ground (arith, has_text-insert_sorted q s ts)

has_text-sort : (q : Text) (ts : List Text) → has_text q (sort ts) ≡ has_text q ts
unfolding sort
has_text-sort q [] = refl
has_text-sort q (s ∷ ts) = ground (arith, has_text-insert_sorted q s (sort ts), has_text-sort q ts)

insert_sorted-Apart :
    (s : Text) (ts : List Text) → has_text s ts ≡ false → Apart ts → Apart (insert_sorted s ts)
unfolding insert_sorted
insert_sorted-Apart s [] h a = (refl, tt)
insert_sorted-Apart s (t ∷ ts) h a = elim (Bool-cases (text_leb s t)) [
  | inl e ↦ rw e (h, a)
  | inr e ↦ rw e (
    ground (arith, has_text-insert_sorted t s ts, text_eq-sym s t),
    insert_sorted-Apart s ts (ground arith) a.1,
  )
]

pub sort-Apart : (ts : List Text) → Apart ts → Apart (sort ts)
unfolding sort
sort-Apart [] a = tt
sort-Apart (s ∷ ts) a =
    insert_sorted-Apart s (sort ts) (has_text-sort s ts ∙ a.0) (sort-Apart ts a.1)

length-insert_sorted : (s : Text) (ts : List Text) → length (insert_sorted s ts) ≡ suc (length ts)
unfolding insert_sorted
length-insert_sorted s [] = refl
length-insert_sorted s (t ∷ ts) = ground (arith, length-insert_sorted s ts)

pub length-sort : (ts : List Text) → length (sort ts) ≡ length ts
unfolding sort
length-sort [] = refl
length-sort (s ∷ ts) = length-insert_sorted s (sort ts) ∙ ap suc (length-sort ts)

module _ {κ} (P : Text → Type κ) where
  insert_sorted-All : (s : Text) (ts : List Text) → P s → All P ts → All P (insert_sorted s ts)
  unfolding insert_sorted
  insert_sorted-All s [] p ps = (p, tt)
  insert_sorted-All s (t ∷ ts) p ps = elim (Bool-cases (text_leb s t)) [
    | inl e ↦ rw e (p, ps)
    | inr e ↦ rw e (ps.0, insert_sorted-All s ts p ps.1)
  ]

  pub sort-All : (ts : List Text) → All P ts → All P (sort ts)
  unfolding sort
  sort-All [] ps = tt
  sort-All (s ∷ ts) ps = insert_sorted-All s (sort ts) ps.0 (sort-All ts ps.1)
