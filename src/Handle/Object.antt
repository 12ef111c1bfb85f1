-- ===== src/Handle/Object.antt =====
-- Modules, threads, mutexes and events: their members of the union, and their functions in
-- common_handle.cpp, with USE_BOOST_MUTEX and USE_BOOST_EVENT at 0 as common_handle.h has them.
use learn_docs.Base.{
  ℕ, ◌+◌, ◌-◌, ◌%◌, ◌^◌, Bool, true, false, ◌&&◌, List, [], ◌∷◌, ◌==◌, ltb, if◌then◌else◌, length,
}
use learn_docs.Memory.{write}
use learn_docs.Handle.Types.{Header, HandleType}
use learn_docs.Handle.Ctx.{put_le, get_le, put_text, get_text}
use learn_docs.Handle.Table.{Table, find, update, erase}
use learn_docs.Handle.Keys.{new_key_get}
use learn_docs.Handle.File.{read_or}

abbrev pub is_module : HandleType → Bool
is_module HandleType.modul = true
is_module _ = false

abbrev pub is_thread : HandleType → Bool
is_thread HandleType.thread = true
is_thread _ = false

abbrev pub is_mutex : HandleType → Bool
is_mutex HandleType.mutex = true
is_mutex _ = false

abbrev pub text_eq : List ℕ → List ℕ → Bool
text_eq [] [] = true
text_eq [] (y ∷ ys) = false
text_eq (x ∷ xs) [] = false
text_eq (x ∷ xs) (y ∷ ys) = (x == y) && text_eq xs ys

-- The walks over the map: to the first entry that passes, or through all of it to the last one.
unfoldable pub find_first : (Header → Bool) → Table → ℕ
find_first test [] = 0
find_first test ((k, h) ∷ t) = if test h then k else find_first test t

unfoldable pub find_last : (Header → Bool) → ℕ → Table → ℕ
find_last test ret [] = ret
find_last test ret ((k, h) ∷ t) = find_last test (if test h then k else ret) t

unfoldable pub update_first : (Header → Bool) → (Header → Header) → Table → Bool × Table
update_first test f [] = (false, [])
update_first test f ((k, h) ∷ t) =
    let (found, t') = update_first test f t in
    if test h then (true, (k, f h) ∷ t) else (found, (k, h) ∷ t')

unfoldable pub read_first {ℓ} : {A : Type ℓ} → (Header → Bool) → A → (Header → A) → Table → A
read_first test d f [] = d
read_first test d f ((k, h) ∷ t) = if test h then f h else read_first test d f t

-- module (dyn lib)
-- The fields of the new entry.
abbrev pub fill_module : ℕ → ℕ → List ℕ → Header → Header
fill_module handle native_handle full_path h = record {
  self_key = handle;
  type = HandleType.modul;
  ctx = put_text 8 full_path (put_le 8 0 native_handle h.ctx);
}

unfoldable pub reg_module : ℕ → ℕ → ℕ → List ℕ → Table → ℕ × Table
reg_module random place native_handle full_path t =
    let (handle, t') = new_key_get random place t in
    (handle, update handle (fill_module handle native_handle full_path) t')

unfoldable pub get_module_native_handle : ℕ → Table → ℕ
get_module_native_handle handle t = read_or 0 (λ h. get_le 8 0 h.ctx) (find handle t)

unfoldable pub get_module_full_path : ℕ → Table → List ℕ
get_module_full_path handle t = read_or [] (λ h. get_text 8 h.ctx) (find handle t)

unfoldable pub find_module_by_native_handle : ℕ → Table → ℕ
find_module_by_native_handle native_handle =
    find_first (λ h. is_module h.type && (get_le 8 0 h.ctx == native_handle))

-- thread
-- The fields of the new entry.
abbrev pub fill_thread : ℕ → ℕ → Header → Header
fill_thread handle tid h = record {
  self_key = handle;
  type = HandleType.thread;
  ctx = put_le 8 0 tid h.ctx;
}

unfoldable pub reg_thread : ℕ → ℕ → ℕ → Table → ℕ × Table
reg_thread random place tid t =
    let (handle, t') = new_key_get random place t in
    (handle, update handle (fill_thread handle tid) t')

-- An `int` that becomes a `pthread_t`: the low 32 bits, with the sign carried on.
abbrev pub through_int : ℕ → ℕ
through_int v = if ltb (v % 2 ^ 32) (2 ^ 31) then v % 2 ^ 32 else v % 2 ^ 32 + (2 ^ 64 - 2 ^ 32)

-- The local `tid` of the code is an `int`.
unfoldable pub get_thread_tid : ℕ → Table → ℕ
get_thread_tid handle t = read_or 0 (λ h. through_int (get_le 8 0 h.ctx)) (find handle t)

abbrev pub runs : ℕ → Header → Bool
runs tid h = is_thread h.type && (get_le 8 0 h.ctx == tid)

unfoldable pub find_thread_by_tid : ℕ → Table → ℕ
find_thread_by_tid tid = find_last (runs tid) 0

unfoldable pub set_thread_exitcode : ℕ → ℕ → Table → Bool × Table
set_thread_exitcode tid exit_code =
    update_first (runs tid) (λ h. record h { ctx = put_le 8 8 exit_code h.ctx })

unfoldable pub get_thread_exitcode : ℕ → Table → ℕ
get_thread_exitcode tid = read_first (runs tid) 0 (λ h. get_le 8 8 h.ctx)

-- mutex
-- The fields of the new entry.
abbrev pub fill_mutex : ℕ → ℕ → ℕ → List ℕ → Header → Header
fill_mutex handle mutex attr name h = record {
  self_key = handle;
  type = HandleType.mutex;
  ctx = put_le 8 8 attr (put_le 8 0 mutex (put_text 16 name h.ctx));
}

unfoldable pub mutex_reg : ℕ → ℕ → ℕ → ℕ → List ℕ → Table → ℕ × Table
mutex_reg random place mutex attr name t =
    let (handle, t') = new_key_get random place t in
    (handle, update handle (fill_mutex handle mutex attr name) t')

abbrev pub named : List ℕ → Header → Bool
named name h = is_mutex h.type && text_eq (get_text 16 h.ctx) name

unfoldable pub mutex_find_by_name : List ℕ → Table → ℕ
mutex_find_by_name name = find_first (named name)

unfoldable pub mutex_get : ℕ → Table → ℕ
mutex_get handle t = read_or 0 (λ h. get_le 8 0 h.ctx) (find handle t)

unfoldable pub mutex_get_attr : ℕ → Table → ℕ
mutex_get_attr handle t = read_or 0 (λ h. get_le 8 8 h.ctx) (find handle t)

unfoldable pub mutex_get_name : ℕ → Table → List ℕ
mutex_get_name handle t = read_or [] (λ h. get_text 16 h.ctx) (find handle t)

-- event
abbrev pub bool_byte : Bool → ℕ
bool_byte false = 0
bool_byte true = 1

-- The fields of the new entry.
abbrev pub fill_event : ℕ → ℕ → Bool → Bool → Header → Header
fill_event handle event manual_reset signaled h = record {
  self_key = handle;
  type = HandleType.event;
  ctx = put_le 8 0 event (write (write h.ctx 9 (bool_byte manual_reset)) 8 (bool_byte signaled));
}

unfoldable pub reg_event : ℕ → ℕ → ℕ → Bool → Bool → Table → ℕ × Table
reg_event random place event manual_reset signaled t =
    let (handle, t') = new_key_get random place t in
    (handle, update handle (fill_event handle event manual_reset signaled) t')

unfoldable pub get_event : ℕ → Table → ℕ
get_event handle t = read_or 0 (λ h. get_le 8 0 h.ctx) (find handle t)

-- any object
unfoldable pub type_get : ℕ → Table → HandleType
type_get handle t = read_or HandleType.invalid (λ h. h.type) (find handle t)

unfoldable pub compat_handle_erase : ℕ → Table → Table
compat_handle_erase handle = erase handle

unfoldable pub object_count : Table → ℕ
object_count t = length t
