-- ===== src/Handle/Roundtrip.antt =====
-- What a registration stores, the getters give back, and nothing else in the table changes.
use learn_docs.Base.{
  ℕ, ◌-◌, ◌^◌, ◌≤◌, ◌<◌, ◌≡◌, ◌≢◌, refl, sym, ◌∙◌, ap, Bool, List, some, length, arith, eq→==,
  ne→==,
}
use learn_docs.Memory.{Mem}
use learn_docs.Handle.Types.{Header, HandleType, zero_header}
use learn_docs.Handle.Ctx.{
  put_le, get_le, put_text, get_text, Fits, NoNul, put_le-outside, get_le-put_le, get_le-same,
  get_text-put_text, text_size,
}
use learn_docs.Handle.Table.{Table, find, update, find-update}
use learn_docs.SafeStr.Outcome.{scan-same}
use learn_docs.Handle.Keys.{new_key_get, find-register}
use learn_docs.Handle.File.{
  fill_fd, reg_fd, update_fd, get_fd, get_fd_path, get_fd_find_pattern, set_fd_path,
}
use learn_docs.Handle.Object.{
  reg_module, get_module_native_handle, get_module_full_path, reg_thread, get_thread_tid,
  through_int, fill_module, fill_mutex, fill_event, fill_thread, mutex_reg, mutex_get,
  mutex_get_attr, mutex_get_name, reg_event, get_event, type_get,
}

-- Every entry but `k`'s is as before.
abbrev pub OthersKept : ℕ → Table → Table → Type 0
OthersKept k t t' = (j : ℕ) → j ≢ k → find j t' ≡ find j t

abbrev key : ℕ → ℕ → Table → ℕ
key random place t = (new_key_get random place t).0

module _ (random place : ℕ) (f : Header → Header) (t : Table) where
  abbrev filled : Table
  filled = update (key random place t) f (new_key_get random place t).1

  find-filled : find (key random place t) filled ≡ some (f zero_header)
  find-filled =
      find-register random place (key random place t) f t ∙ rw (eq→== (key random place t) _ refl)

  filled-OthersKept : OthersKept (key random place t) t filled
  filled-OthersKept j ne =
      find-register random place j f t ∙ rw (ne→== (key random place t) j (λ e. ne (sym e)))

module _ (fd : ℕ) (path pattern : List ℕ) (m : Mem) where
  abbrev file_ctx : Mem
  file_ctx = put_text 259 pattern (set_fd_path fd path m)

  file_ctx-fd : Fits 4 fd → get_le 4 0 file_ctx ≡ fd
  file_ctx-fd f =
      get_le-same 4 0 (put_le 4 0 fd m) file_ctx (λ a h k. ground arith) ∙ get_le-put_le 4 0 fd m f

  file_ctx-path : NoNul path → length path < text_size → get_text 4 file_ctx ≡ path
  file_ctx-path nn h =
      get_text-put_text 4 path (put_le 4 0 fd m) file_ctx nn h (omega arith) (λ a l u. ground arith)

  file_ctx-pattern : NoNul pattern → length pattern < text_size → get_text 259 file_ctx ≡ pattern
  file_ctx-pattern nn h =
      get_text-put_text 259 pattern (set_fd_path fd path m) file_ctx nn h (omega arith)
        (λ a l u. refl)

-- For a descriptor of 4 bytes and a path and a pattern without NUL and shorter than 255 bytes,
-- the handle that `reg_fd` gives has the type FILE and gives back the descriptor, the path and
-- the pattern, and every other handle's entry is as before.
pub reg_fd_lem :
    (random place fd : ℕ) (path pattern : List ℕ) (t : Table)
    → Fits 4 fd
    → NoNul path
    → length path < text_size
    → NoNul pattern
    → length pattern < text_size
    → let (handle, t') = reg_fd random place fd path pattern t in
      (type_get handle t' ≡ HandleType.file)
      × (get_fd handle t' ≡ fd)
      × (get_fd_path handle t' ≡ path)
      × (get_fd_find_pattern handle t' ≡ pattern)
      × OthersKept handle t t'
unfolding reg_fd type_get get_fd get_fd_path get_fd_find_pattern
reg_fd_lem random place fd path pattern t f np lp nq lq =
    let fill = fill_fd (key random place t) fd path pattern in
    let found = find-filled random place fill t in
    (
      rw found,
      rw found (file_ctx-fd fd path pattern (λ _. 0) f),
      rw found (file_ctx-path fd path pattern (λ _. 0) np lp),
      rw found (file_ctx-pattern fd path pattern (λ _. 0) nq lq),
      filled-OthersKept random place fill t,
    )

module _ (native : ℕ) (path : List ℕ) where
  abbrev module_ctx : Mem
  module_ctx = put_text 8 path (put_le 8 0 native (λ _. 0))

  module_ctx-native : Fits 8 native → get_le 8 0 module_ctx ≡ native
  module_ctx-native f =
      get_le-same 8 0 (put_le 8 0 native (λ _. 0)) module_ctx (λ a h k. ground arith)
      ∙ get_le-put_le 8 0 native (λ _. 0) f

  module_ctx-path : NoNul path → length path < text_size → get_text 8 module_ctx ≡ path
  module_ctx-path nn h =
      get_text-put_text 8 path (put_le 8 0 native (λ _. 0)) module_ctx nn h (omega arith)
        (λ a l u. refl)

-- A module handle gives back the library's own handle and its path.
pub reg_module_lem :
    (random place native : ℕ) (path : List ℕ) (t : Table)
    → Fits 8 native
    → NoNul path
    → length path < text_size
    → let (handle, t') = reg_module random place native path t in
      (type_get handle t' ≡ HandleType.modul)
      × (get_module_native_handle handle t' ≡ native)
      × (get_module_full_path handle t' ≡ path)
      × OthersKept handle t t'
unfolding reg_module type_get get_module_native_handle get_module_full_path
reg_module_lem random place native path t f np lp =
    let fill = fill_module (key random place t) native path in
    let found = find-filled random place fill t in
    (
      rw found,
      rw found (module_ctx-native native path f),
      rw found (module_ctx-path native path np lp),
      filled-OthersKept random place fill t,
    )

module _ (mutex attr : ℕ) (name : List ℕ) where
  abbrev named_ctx : Mem
  named_ctx = put_text 16 name (λ _. 0)

  abbrev mutex_ctx : Mem
  mutex_ctx = put_le 8 8 attr (put_le 8 0 mutex named_ctx)

  mutex_ctx-mutex : Fits 8 mutex → get_le 8 0 mutex_ctx ≡ mutex
  mutex_ctx-mutex f =
      get_le-same 8 0 (put_le 8 0 mutex named_ctx) mutex_ctx
        (λ a h k. put_le-outside 8 8 attr _ a (omega arith))
      ∙ get_le-put_le 8 0 mutex named_ctx f

  mutex_ctx-name : NoNul name → length name < text_size → get_text 16 mutex_ctx ≡ name
  mutex_ctx-name nn h =
      get_text-put_text 16 name (λ _. 0) mutex_ctx nn h (omega arith)
        λ a l u.
          put_le-outside 8 8 attr (put_le 8 0 mutex named_ctx) a (omega arith)
          ∙ put_le-outside 8 0 mutex named_ctx a (omega arith)

pub fill_mutex-name :
    (mutex attr : ℕ) (name : List ℕ)
    → NoNul name
    → length name < text_size
    → get_text 16 (put_le 8 8 attr (put_le 8 0 mutex (put_text 16 name (λ _. 0)))) ≡ name
fill_mutex-name mutex attr name nn short = mutex_ctx-name mutex attr name nn short

-- For a mutex and attributes of 8 bytes and a name without NUL and shorter than 255 bytes, the
-- handle that `mutex_reg` gives has the type MUTEX and gives back the mutex, the attributes and
-- the name, and every other handle's entry is as before.
pub mutex_reg_lem :
    (random place mutex attr : ℕ) (name : List ℕ) (t : Table)
    → Fits 8 mutex
    → Fits 8 attr
    → NoNul name
    → length name < text_size
    → let (handle, t') = mutex_reg random place mutex attr name t in
      (type_get handle t' ≡ HandleType.mutex)
      × (mutex_get handle t' ≡ mutex)
      × (mutex_get_attr handle t' ≡ attr)
      × (mutex_get_name handle t' ≡ name)
      × OthersKept handle t t'
unfolding mutex_reg type_get mutex_get mutex_get_attr mutex_get_name
mutex_reg_lem random place mutex attr name t f g nn ln =
    let fill = fill_mutex (key random place t) mutex attr name in
    let found = find-filled random place fill t in
    (
      rw found,
      rw found (mutex_ctx-mutex mutex attr name f),
      rw found (get_le-put_le 8 8 attr (put_le 8 0 mutex (named_ctx mutex attr name)) g),
      rw found (mutex_ctx-name mutex attr name nn ln),
      filled-OthersKept random place fill t,
    )

-- An event handle gives back the event.
pub reg_event_lem :
    (random place event : ℕ) (manual signaled : Bool) (t : Table)
    → Fits 8 event
    → let (handle, t') = reg_event random place event manual signaled t in
      (type_get handle t' ≡ HandleType.event)
      × (get_event handle t' ≡ event)
      × OthersKept handle t t'
unfolding reg_event type_get get_event
reg_event_lem random place event manual signaled t f =
    let fill = fill_event (key random place t) event manual signaled in
    let found = find-filled random place fill t in
    (rw found, rw found (get_le-put_le 8 0 event _ f), filled-OthersKept random place fill t)

-- For a thread id of 8 bytes, the handle that `reg_thread` gives has the type THREAD and gives
-- back the id cut to an `int` and extended again, and every other handle's entry is as before.
pub get_thread_tid-reg_thread :
    (random place tid : ℕ) (t : Table)
    → Fits 8 tid
    → let (handle, t') = reg_thread random place tid t in
      (type_get handle t' ≡ HandleType.thread)
      × (get_thread_tid handle t' ≡ through_int tid)
      × OthersKept handle t t'
unfolding reg_thread type_get get_thread_tid
get_thread_tid-reg_thread random place tid t f =
    let fill = fill_thread (key random place t) tid in
    let found = find-filled random place fill t in
    (
      rw found,
      rw found (ap (λ (v : ℕ). through_int v) (get_le-put_le 8 0 tid (λ _. 0) f)),
      filled-OthersKept random place fill t,
    )

-- A thread id from 2^31 on and below 2^64 - 2^31 is not given back by its handle: another id
-- comes back.
pub get_thread_tid-ne :
    (random place tid : ℕ) (t : Table)
    → Fits 8 tid
    → 2 ^ 31 ≤ tid
    → tid < 2 ^ 64 - 2 ^ 31
    → let (handle, t') = reg_thread random place tid t in get_thread_tid handle t' ≢ tid
get_thread_tid-ne random place tid t f big below e =
    let same : through_int tid ≡ tid = sym (get_thread_tid-reg_thread random place tid t f).1 ∙ e in
    ground arith

-- A new descriptor and path leave the pattern of a file handle as it is, and its type.
pub update_fd_lem :
    (handle fd : ℕ) (path : List ℕ) (h : Header) (t : Table)
    → find handle t ≡ some h
    → Fits 4 fd
    → NoNul path
    → length path < text_size
    → let t' = update_fd handle fd path t in
      (type_get handle t' ≡ type_get handle t)
      × (get_fd handle t' ≡ fd)
      × (get_fd_path handle t' ≡ path)
      × (get_fd_find_pattern handle t' ≡ get_fd_find_pattern handle t)
      × OthersKept handle t t'
unfolding update_fd type_get get_fd get_fd_path get_fd_find_pattern
update_fd_lem handle fd path h t e f np lp =
    let ctx' = set_fd_path fd path h.ctx in
    let change : Header → Header = λ h'. record h' { ctx = set_fd_path fd path h'.ctx } in
    let found : find handle (update handle change t) ≡ some (change h) =
      find-update handle handle change h t e ∙ rw (eq→== handle handle refl) in
    (
      rw (found, e),
      rw found (
          get_le-same 4 0 (put_le 4 0 fd h.ctx) ctx' (λ a l u. ground arith)
          ∙ get_le-put_le 4 0 fd h.ctx f),
      rw found
          (get_text-put_text 4 path (put_le 4 0 fd h.ctx) ctx' np lp (omega arith) (λ a l u. refl)),
      rw (found, e)
          (scan-same h.ctx ctx' 259 261 (λ a l u.
            let kept : put_le 4 0 fd h.ctx a ≡ h.ctx a =
              put_le-outside 4 0 fd h.ctx a (omega arith) in
            ground arith)),
      λ j ne. find-update handle j change h t e ∙ rw (ne→== handle j (λ q. ne (sym q))),
    )
