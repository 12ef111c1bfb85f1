-- ===== src/Modules/Loaded.antt =====
-- A library from `LoadLibraryA` to `FreeLibrary`.
use learn_docs.Base.{ℕ, ◌≡◌, ◌≢◌, ◌<◌, refl, true, none, some, List, ◌∷◌, ne→==, length}
use learn_docs.Memory.{null}
use learn_docs.Handle.Table.{Table, find, Distinct, find-none_of_has}
use learn_docs.Handle.Ctx.{Fits, NoNul, text_size}
use learn_docs.Handle.Keys.{new_key_get_fresh, register-Distinct}
use learn_docs.Handle.Erase.{find-erased, erase-restores}
use learn_docs.Handle.Object.{reg_module, get_module_native_handle, compat_handle_erase}
use learn_docs.Handle.Roundtrip.{reg_module_lem}
use learn_docs.Modules.{
  Loader, Libraries, no_instance, load_library_a, get_proc_address_a, free_library,
}

reg_module-Distinct :
    (random place native : ℕ) (path : List ℕ) (t : Table)
    → Distinct t
    → Distinct (reg_module random place native path t).1
unfolding reg_module
reg_module-Distinct random place native path t d = register-Distinct random place _ t d

reg_module-absent :
    (random place native : ℕ) (path : List ℕ) (t : Table)
    → find (reg_module random place native path t).0 t ≡ none
unfolding reg_module
reg_module-absent random place native path t =
    find-none_of_has _ t (new_key_get_fresh random place t).0

native-erased :
    (h : ℕ) (t : Table) → Distinct t → get_module_native_handle h (compat_handle_erase h t) ≡ null
unfolding get_module_native_handle
native-erased h t d = rw (find-erased h t d) refl

-- In a table with distinct keys, for a path without NUL and shorter than 255 bytes that `dlopen`
-- finds at an address of 8 bytes, where the handle is not the invalid one: the handle that
-- `LoadLibraryA` gives finds a symbol where `dlsym` does; after `FreeLibrary` it finds none,
-- that library was closed, and every key has the entry that was there before the loading.
pub load_library_a-free_library :
    (l : Loader) (random place : ℕ) (path symbol : List ℕ) (k : Libraries)
    → Distinct k.table
    → Fits 8 (l.dlopen path)
    → l.dlopen path ≢ null
    → NoNul path
    → length path < text_size
    → (load_library_a l random place (some path) k).0 ≢ no_instance
    → let (handle, k₁) = load_library_a l random place (some path) k in
      let (freed, k₂) = free_library handle k₁ in
      (get_proc_address_a l handle (some symbol) k₁ ≡ l.dlsym (l.dlopen path) symbol)
      × (freed ≡ true)
      × (get_proc_address_a l handle (some symbol) k₂ ≡ null)
      × (k₂.closed ≡ l.dlopen path ∷ k.closed)
      × ((j : ℕ) → find j k₂.table ≡ find j k.table)
unfolding load_library_a free_library get_proc_address_a
load_library_a-free_library l random place path symbol k d f n nn short valid =
    let native = l.dlopen path in
    let (h, t) = reg_module random place native path k.table in
    let opened = ne→== native null n in
    let (_, gives, _, others) = reg_module_lem random place native path k.table f nn short in
    let is_handle : h ≢ no_instance = λ e. valid (rw opened e) in
    let d' = reg_module-Distinct random place native path k.table d in
    rw (opened, ne→== h no_instance is_handle, gives, native-erased h t d')
      (
        rw opened refl,
        refl,
        refl,
        refl,
        erase-restores h k.table t d' (reg_module-absent random place native path k.table) others,
      )

-- In a table with distinct keys, a second `FreeLibrary` of a handle returns TRUE like the first
-- one and calls `dlclose` with a null pointer.
pub free_library-again :
    (handle : ℕ) (k : Libraries)
    → Distinct k.table
    → handle ≢ no_instance
    → let (_, k₁) = free_library handle k in
      let (again, k₂) = free_library handle k₁ in
      (again ≡ true) × (k₂.closed ≡ null ∷ get_module_native_handle handle k.table ∷ k.closed)
unfolding free_library
free_library-again handle k d n =
    rw (ne→== handle no_instance n, native-erased handle k.table d) (refl, refl)
