-- ===== src/Modules.antt =====
-- `LoadLibraryA`, `GetProcAddressA` and `FreeLibrary` of FSPChecker/Compat/libloaderapi.cpp over the handle table.
-- `dlopen` and `dlsym` are parameters; the libraries that `dlclose` was called for are a log, newest first.
pub mod Loaded
mod Tests
use learn_docs.Base.{
  ℕ, ◌+◌, ◌-◌, ◌^◌, Bool, true, false, Option, none, some, List, [], ◌∷◌, ◌==◌, if◌then◌else◌,
}
use learn_docs.Memory.{Ptr, null}
use learn_docs.Handle.Table.{Table}
use learn_docs.Handle.Object.{reg_module, get_module_native_handle, compat_handle_erase}

pub record Loader : Type 0 where
  pub dlopen : List ℕ → Ptr
  pub dlsym : Ptr → List ℕ → Ptr

pub record Libraries : Type 0 where
  pub table : Table
  pub closed : List Ptr

-- `(HINSTANCE)-1`
abbrev pub no_instance : ℕ
no_instance = 2 ^ 64 - 1

unfoldable pub load_library_a : Loader → ℕ → ℕ → Option (List ℕ) → Libraries → ℕ × Libraries
load_library_a l random place none k = (no_instance, k)
load_library_a l random place (some path) k =
    let native = l.dlopen path in
    let (handle, t) = reg_module random place native path k.table in
    if native == null then (no_instance, k) else (handle, record k { table = t })

unfoldable pub get_proc_address_a : Loader → ℕ → Option (List ℕ) → Libraries → Ptr
get_proc_address_a l i none k = null
get_proc_address_a l i (some symbol) k =
    let native = get_module_native_handle i k.table in
    if native == null then null else l.dlsym native symbol

-- It returns TRUE always.
unfoldable pub free_library : ℕ → Libraries → Bool × Libraries
free_library i k =
    let native = get_module_native_handle i k.table in
    if i == no_instance
    then (true, k)
    else (true, record { table = compat_handle_erase i k.table; closed = native ∷ k.closed })
