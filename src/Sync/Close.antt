-- ===== src/Sync/Close.antt =====
-- Closing a handle.
use learn_docs.Base.{
  ℕ, ◌≡◌, ◌≢◌, ◌⊎◌, inl, inr, Bool, true, false, not, none, some, ◌∷◌, ◌==◌, refl, ap, ◌∙◌, ne→==,
}
use learn_docs.Memory.{null}
use learn_docs.Handle.Types.{HandleType}
use learn_docs.Handle.Table.{Table, find, Distinct, find-none_of_has}
use learn_docs.Handle.Ctx.{Fits}
use learn_docs.Handle.Erase.{type_get-erased, erase-restores}
use learn_docs.Handle.Keys.{new_key_get_fresh, register-Distinct}
use learn_docs.Handle.Object.{get_event, type_get, compat_handle_erase, reg_event}
use learn_docs.Handle.Roundtrip.{reg_event_lem}
use learn_docs.Event.Defs.{event_create, event}
use learn_docs.Sync.Defs.{
  Action, destroys_event, Kernel, erased, released_if, close_as, close_handle, create_event_a,
  put_event,
}

released_if-table :
    (held : Bool) (action : Action) (h : ℕ) (k : Kernel)
    → (released_if held action h k).1.table ≡ compat_handle_erase h k.table
released_if-table true action h k = refl
released_if-table false action h k = refl

-- Either the entry is erased, or the handle is of no type that is closed.
close_as-table :
    (type : HandleType) (h : ℕ) (k : Kernel)
    → ((close_as type h k).1.table ≡ compat_handle_erase h k.table)
      ⊎ (close_as type h k ≡ (false, k))
unfolding close_as
close_as-table HandleType.file h k = inl (released_if-table _ _ h k)
close_as-table HandleType.modul h k = inl (released_if-table _ _ h k)
close_as-table HandleType.thread h k = inl refl
close_as-table HandleType.mutex h k = inl refl
close_as-table HandleType.event h k = inl (released_if-table _ _ h k)
close_as-table type h k = inr refl

close_as-invalid :
    (type : HandleType) (h : ℕ) (k : Kernel)
    → type ≡ HandleType.invalid
    → close_as type h k ≡ (false, k)
unfolding close_as
close_as-invalid type h k e = ap (λ (x : HandleType). close_as x h k) e

-- In a table with distinct keys, a second `CloseHandle` of any handle of any type returns FALSE
-- and changes and releases nothing.
pub close_handle-again :
    (h : ℕ) (k : Kernel)
    → Distinct k.table
    → close_handle h (close_handle h k).1 ≡ (false, (close_handle h k).1)
unfolding close_handle
close_handle-again h k d = elim (close_as-table (type_get h k.table) h k) [
  | inl e ↦
      let k' = (close_as (type_get h k.table) h k).1 in
      close_as-invalid (type_get h k'.table) h k'
        (ap (λ (t : Table). type_get h t) e ∙ type_get-erased h k.table d)
  | inr e ↦ rw e e
]

reg_event-Distinct :
    (random place event : ℕ) (manual signaled : Bool) (t : Table)
    → Distinct t
    → Distinct (reg_event random place event manual signaled t).1
unfolding reg_event
reg_event-Distinct random place event manual signaled t d = register-Distinct random place _ t d

reg_event-absent :
    (random place event : ℕ) (manual signaled : Bool) (t : Table)
    → find (reg_event random place event manual signaled t).0 t ≡ none
unfolding reg_event
reg_event-absent random place event manual signaled t =
    find-none_of_has _ t (new_key_get_fresh random place t).0

close_event :
    (h p : ℕ) (k : Kernel)
    → type_get h k.table ≡ HandleType.event
    → get_event h k.table ≡ p
    → p ≢ null
    → close_handle h k ≡ (true, erased h (record k { released = destroys_event p ∷ k.released }))
unfolding close_handle close_as
close_event h p k e f n =
    ap (λ (x : HandleType). close_as x h k) e ∙ closing (get_event h k.table) f
  where
    closing :
        (q : ℕ)
        → q ≡ p
        → released_if (not (q == null)) (destroys_event q) h k
          ≡ (true, erased h (record k { released = destroys_event p ∷ k.released }))
    closing q g =
        let held : (p == null) ≡ false = ne→== p null n in
        ap (λ (x : ℕ). released_if (not (x == null)) (destroys_event x) h k) g ∙ rw held refl

-- Erasing what was just registered brings every entry back.
restored :
    (random place p : ℕ) (manual init : Bool) (t : Table)
    → Fits 8 p
    → Distinct t
    → (j : ℕ)
    → find j (
        compat_handle_erase
          (reg_event random place p manual init t).0
          (reg_event random place p manual init t).1)
      ≡ find j t
restored random place p manual init t f d =
    let (h, t') = reg_event random place p manual init t in
    erase-restores h t t' (reg_event-Distinct random place p manual init t d)
      (reg_event-absent random place p manual init t)
      (reg_event_lem random place p manual init t f).2

-- In a table with distinct keys, `CloseHandle` of the handle that `CreateEventA` gives for an
-- event at an address of 8 bytes that is not null returns TRUE, destroys that event and nothing
-- else, and leaves under every key the entry that was there before the creation.
pub create_event_a-close_handle :
    (p random place : ℕ) (manual init : Bool) (k : Kernel)
    → Fits 8 p
    → p ≢ null
    → Distinct k.table
    → let (handle, k₁) = create_event_a (some p) 0 0 random place manual init k in
      let (closed, k₂) = close_handle handle k₁ in
      (closed ≡ true)
      × (k₂.released ≡ destroys_event p ∷ k.released)
      × ((j : ℕ) → find j k₂.table ≡ find j k.table)
unfolding create_event_a event_create
create_event_a-close_handle p random place manual init k f n d =
    let (h, t') = reg_event random place p manual init k.table in
    let (is_event, gives, others) = reg_event_lem random place p manual init k.table f in
    let k₁ = put_event p (event init manual false) (record k { table = t' }) in
    let closes = close_event h p k₁ is_event gives n in
    (
      ap (λ (r : Bool × Kernel). r.0) closes,
      ap (λ (r : Bool × Kernel). r.1.released) closes,
      λ j.
          ap (λ (r : Bool × Kernel). find j r.1.table) closes
          ∙ restored random place p manual init k.table f d j,
    )
