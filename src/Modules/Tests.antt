-- ===== src/Modules/Tests.antt =====
-- The theorems at a concrete library.
use learn_docs.Base.{◌≡◌, ◌+◌, ◌∷◌, [], true, some, ℕ, arith}
use learn_docs.Handle.Table.{find, has}
use learn_docs.Handle.Object.{reg_module, fill_module}
use learn_docs.Handle.Keys.{new_key_get, probe}
use learn_docs.Handle.Types.{zero_header}
use learn_docs.Modules.{Loader, Libraries, load_library_a, get_proc_address_a, free_library}
use learn_docs.Modules.Loaded.{load_library_a-free_library}

-- Every path opens at 4096, and a symbol stands behind it.
abbrev loader : Loader
loader = record { dlopen = λ path. 4096; dlsym = λ native symbol. native + 16 }

abbrev nothing_loaded : Libraries
nothing_loaded = record { table = []; closed = [] }

-- A library under the handle 7.
abbrev one_loaded : Libraries
one_loaded = record { table = (7, fill_module 7 4096 (97 ∷ []) zero_header) ∷ []; closed = [] }

load_library_a-free_library_example :
    let (handle, k₁) = load_library_a loader 7 0 (some (97 ∷ [])) nothing_loaded in
    let (freed, k₂) = free_library handle k₁ in
    (get_proc_address_a loader handle (some (98 ∷ [])) k₁ ≡ 4112)
    × (freed ≡ true)
    × (get_proc_address_a loader handle (some (98 ∷ [])) k₂ ≡ 0)
    × (k₂.closed ≡ 4096 ∷ [])
    × ((j : ℕ) → find j k₂.table ≡ find j [])
unfolding load_library_a reg_module new_key_get probe has
load_library_a-free_library_example =
    load_library_a-free_library loader 7 0 (97 ∷ []) (98 ∷ []) nothing_loaded tt (omega arith)
      (omega arith) (omega arith, tt) (omega arith) (omega arith)
