-- ===== src/Handle/File.antt =====
-- File handles: `fileInfo` of the union, and its functions in common_handle.cpp.
use learn_docs.Base.{ℕ, ◌-◌, ◌^◌, Option, none, some, List, []}
use learn_docs.Memory.{Mem}
use learn_docs.Handle.Types.{Header, HandleType}
use learn_docs.Handle.Ctx.{put_le, get_le, put_text, get_text}
use learn_docs.Handle.Table.{Table, find, update}
use learn_docs.Handle.Keys.{new_key_get}

-- A getter's answer: the default, or what the entry holds.
abbrev pub read_or {ℓ} : {A : Type ℓ} → A → (Header → A) → Option Header → A
read_or d f none = d
read_or d f (some h) = f h

-- A descriptor is the bit pattern of an `int`; this is -1.
abbrev pub minus_one : ℕ
minus_one = 2 ^ 32 - 1

abbrev pub set_fd_path : ℕ → List ℕ → Mem → Mem
set_fd_path fd path ctx = put_text 4 path (put_le 4 0 fd ctx)

-- The fields of the new entry.
abbrev pub fill_fd : ℕ → ℕ → List ℕ → List ℕ → Header → Header
fill_fd handle fd path find_pattern h = record {
  self_key = handle;
  type = HandleType.file;
  ctx = put_text 259 find_pattern (set_fd_path fd path h.ctx);
}

unfoldable pub reg_fd : ℕ → ℕ → ℕ → List ℕ → List ℕ → Table → ℕ × Table
reg_fd random place fd path find_pattern t =
    let (handle, t') = new_key_get random place t in
    (handle, update handle (fill_fd handle fd path find_pattern) t')

unfoldable pub update_fd : ℕ → ℕ → List ℕ → Table → Table
update_fd handle fd path = update handle (λ h. record h { ctx = set_fd_path fd path h.ctx })

unfoldable pub get_fd : ℕ → Table → ℕ
get_fd handle t = read_or minus_one (λ h. get_le 4 0 h.ctx) (find handle t)

unfoldable pub get_fd_path : ℕ → Table → List ℕ
get_fd_path handle t = read_or [] (λ h. get_text 4 h.ctx) (find handle t)

unfoldable pub get_fd_find_pattern : ℕ → Table → List ℕ
get_fd_find_pattern handle t = read_or [] (λ h. get_text 259 h.ctx) (find handle t)
