-- ===== src/Handle/Invariant.antt =====
-- What every history of calls keeps: no key twice, and each entry under its own `selfKey`.
use learn_docs.Base.{ℕ, zero, suc, ◌≡◌, refl, Bool, false, List, [], ◌∷◌, arith}
use learn_docs.Handle.Types.{Header, zero_header}
use learn_docs.Handle.Table.{
  Table, has, insert, update, erase, Distinct, update_absent, update-Distinct, erase-Distinct,
}
use learn_docs.Handle.Keys.{new_key_get, new_key_get_fresh, register-Distinct}
use learn_docs.Handle.File.{reg_fd, update_fd}
use learn_docs.Handle.Object.{
  reg_module, reg_thread, set_thread_exitcode, mutex_reg, reg_event, compat_handle_erase,
  update_first, runs,
}

-- The calls that change the table. `random` and `place` are what the environment chooses.
pub data Request : Type 0 where
  regs_fd : (random place fd : ℕ) (path find_pattern : List ℕ) → Request
  updates_fd : (handle fd : ℕ) (path : List ℕ) → Request
  regs_module : (random place native_handle : ℕ) (full_path : List ℕ) → Request
  regs_thread : (random place tid : ℕ) → Request
  sets_exitcode : (tid exit_code : ℕ) → Request
  regs_mutex : (random place mutex attr : ℕ) (name : List ℕ) → Request
  regs_event : (random place event : ℕ) (manual_reset signaled : Bool) → Request
  erases : (handle : ℕ) → Request

pub step : Request → Table → Table
step (regs_fd r p fd path pattern) t = (reg_fd r p fd path pattern t).1
step (updates_fd handle fd path) t = update_fd handle fd path t
step (regs_module r p native path) t = (reg_module r p native path t).1
step (regs_thread r p tid) t = (reg_thread r p tid t).1
step (sets_exitcode tid code) t = (set_thread_exitcode tid code t).1
step (regs_mutex r p mutex attr name) t = (mutex_reg r p mutex attr name t).1
step (regs_event r p event manual signaled) t = (reg_event r p event manual signaled t).1
step (erases handle) t = compat_handle_erase handle t

pub run : List Request → Table → Table
run [] t = t
run (c ∷ cs) t = run cs (step c t)

-- Each entry's `selfKey` is the key that it stands under.
abbrev pub Keyed : Table → Type 0
Keyed [] = Unit {0}
Keyed ((k, h) ∷ t) = (h.self_key ≡ k) × Keyed t

pub record IsValid (t : Table) : Type 0 where
  pub distinct : Distinct t
  pub keyed : Keyed t

-- A new entry is not keyed before it is filled in.
Keyed-fill :
    (k : ℕ) (f : Header → Header) (place : ℕ) (h : Header) (t : Table)
    → (f h).self_key ≡ k
    → has k t ≡ false
    → Keyed t
    → Keyed (update k f (insert place (k, h) t))
unfolding has insert update
Keyed-fill k f zero h t own fresh v = ground (arith, update_absent k f t)
Keyed-fill k f (suc place) h [] own fresh v = ground arith
Keyed-fill k f (suc place) h ((j, x) ∷ t) own fresh v = ground (arith, Keyed-fill k f place h t own)

Keyed-update :
    (k : ℕ) (f : Header → Header) (t : Table)
    → ((h : Header) → (f h).self_key ≡ h.self_key)
    → Keyed t
    → Keyed (update k f t)
unfolding update
Keyed-update k f [] same v = tt
Keyed-update k f ((j, x) ∷ t) same v = ground (arith, same x, Keyed-update k f t same v.1)

Keyed-update_first :
    (test : Header → Bool) (f : Header → Header) (t : Table)
    → ((h : Header) → (f h).self_key ≡ h.self_key)
    → Keyed t
    → Keyed (update_first test f t).1
unfolding update_first
Keyed-update_first test f [] same v = tt
Keyed-update_first test f ((j, x) ∷ t) same v =
    ground (arith, same x, Keyed-update_first test f t same v.1)

Keyed-erase : (k : ℕ) (t : Table) → Keyed t → Keyed (erase k t)
unfolding erase
Keyed-erase k [] v = tt
Keyed-erase k ((j, x) ∷ t) v = ground (arith, Keyed-erase k t v.1)

has-update_first :
    (k : ℕ) (test : Header → Bool) (f : Header → Header) (t : Table)
    → has k (update_first test f t).1 ≡ has k t
unfolding update_first has
has-update_first k test f [] = refl
has-update_first k test f ((j, h) ∷ t) = ground (arith, has-update_first k test f t)

update_first-Distinct :
    (test : Header → Bool) (f : Header → Header) (t : Table)
    → Distinct t
    → Distinct (update_first test f t).1
unfolding update_first
update_first-Distinct test f [] d = tt
update_first-Distinct test f ((j, h) ∷ t) d =
    ground (arith, has-update_first j test f t, update_first-Distinct test f t d.1)

register-IsValid :
    (r p : ℕ) (f : Header → Header) (t : Table)
    → (f zero_header).self_key ≡ (new_key_get r p t).0
    → IsValid t
    → IsValid (update (new_key_get r p t).0 f (new_key_get r p t).1)
unfolding new_key_get
register-IsValid r p f t own v = record {
  distinct = register-Distinct r p f t v.distinct;
  keyed = Keyed-fill _ f p zero_header t own ((new_key_get_fresh r p t).0) v.keyed;
}

-- Every call keeps the keys distinct and each `selfKey` equal to its key.
pub step-IsValid : (c : Request) (t : Table) → IsValid t → IsValid (step c t)
unfolding step reg_fd update_fd reg_module reg_thread set_thread_exitcode mutex_reg reg_event
    compat_handle_erase
step-IsValid (regs_fd r p fd path pattern) t v = register-IsValid r p _ t refl v
step-IsValid (updates_fd handle fd path) t v = record {
  distinct = update-Distinct handle _ t v.distinct;
  keyed = Keyed-update handle _ t (λ h. refl) v.keyed;
}
step-IsValid (regs_module r p native path) t v = register-IsValid r p _ t refl v
step-IsValid (regs_thread r p tid) t v = register-IsValid r p _ t refl v
step-IsValid (sets_exitcode tid code) t v = record {
  distinct = update_first-Distinct (runs tid) _ t v.distinct;
  keyed = Keyed-update_first (runs tid) _ t (λ h. refl) v.keyed;
}
step-IsValid (regs_mutex r p mutex attr name) t v = register-IsValid r p _ t refl v
step-IsValid (regs_event r p event manual signaled) t v = register-IsValid r p _ t refl v
step-IsValid (erases handle) t v = record {
  distinct = erase-Distinct handle t v.distinct;
  keyed = Keyed-erase handle t v.keyed;
}

-- A map with distinct keys, in which each entry's `selfKey` is its key, is still such a map
-- after any list of registrations, updates, exit codes and erasures.
pub run-IsValid : (cs : List Request) (t : Table) → IsValid t → IsValid (run cs t)
unfolding run
run-IsValid [] t v = v
run-IsValid (c ∷ cs) t v = run-IsValid cs (step c t) (step-IsValid c t v)
