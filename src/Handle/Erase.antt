-- ===== src/Handle/Erase.antt =====
-- What a table with distinct keys gives for a handle that was erased, and for the others.
use learn_docs.Base.{
  ℕ, ◌≡◌, ◌≢◌, refl, sym, ap, ◌∙◌, none, eq→==, ne→==, ◌==◌, Bool-cases, inl, inr, arith,
}
use learn_docs.Handle.Types.{HandleType}
use learn_docs.Handle.Table.{Table, find, Distinct, find-erase}
use learn_docs.Handle.File.{get_fd, minus_one}
use learn_docs.Handle.Object.{compat_handle_erase, type_get}
use learn_docs.Handle.Roundtrip.{OthersKept}

module _ (h : ℕ) (t : Table) (d : Distinct t) where
  pub find-erased : find h (compat_handle_erase h t) ≡ none
  unfolding compat_handle_erase
  find-erased = find-erase h h t d ∙ rw (eq→== h h refl) refl

  pub type_get-erased : type_get h (compat_handle_erase h t) ≡ HandleType.invalid
  unfolding type_get
  type_get-erased = rw find-erased refl

  pub get_fd-erased : get_fd h (compat_handle_erase h t) ≡ minus_one
  unfolding get_fd
  get_fd-erased = rw find-erased refl

  pub erased-OthersKept : OthersKept h t (compat_handle_erase h t)
  unfolding compat_handle_erase
  erased-OthersKept j n = find-erase h j t d ∙ rw (ne→== h j (λ e. n (sym e))) refl

-- Erasing the one entry that is new brings every entry back.
pub erase-restores :
    (h : ℕ) (t t' : Table)
    → Distinct t'
    → find h t ≡ none
    → OthersKept h t t'
    → (j : ℕ) → find j (compat_handle_erase h t') ≡ find j t
unfolding compat_handle_erase
erase-restores h t t' d absent others j = elim (Bool-cases (h == j)) [
  | inl e ↦
      let same : j ≡ h = ground arith in
      find-erase h j t' d ∙ rw e (sym (ap (λ (x : ℕ). find x t) same ∙ absent))
  | inr e ↦ let other : j ≢ h = ground arith in find-erase h j t' d ∙ rw e (others j other)
]
