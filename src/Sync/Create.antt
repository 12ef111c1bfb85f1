-- ===== src/Sync/Create.antt =====
-- `CreateMutexA` of FSPChecker/Compat/synchapi.cpp.
use learn_docs.Base.{ℕ, Bool, Option, none, some, List, [], ◌==◌, if◌then◌else◌}
use learn_docs.Memory.{Ptr, null}
use learn_docs.Handle.Table.{Table}
use learn_docs.Handle.Object.{mutex_reg, mutex_get, mutex_find_by_name}
use learn_docs.Sync.Mutex.{Pthread, Mutexes, put_mutex}

-- What the call gets from outside: the two addresses of `new`, what `pthread_mutex_init` returns
-- and the mutex that it makes, and the two choices of a new handle.
pub record Fresh (M : Type 0) : Type 0 where
  pub mutex : Ptr
  pub attr : Ptr
  pub init_rc : ℕ
  pub initial : M
  pub random : ℕ
  pub place : ℕ

-- `__compat_handle_mutex_find_by_name`, where a name is given.
abbrev pub named_handle : Option (List ℕ) → Table → ℕ
named_handle none t = null
named_handle (some name) t = mutex_find_by_name name t

abbrev pub name_or_empty : Option (List ℕ) → List ℕ
name_or_empty none = []
name_or_empty (some name) = name

module _ {M : Type 0} where
  -- The `if(handle == NULL)` part.
  unfoldable pub open_or_create : Fresh M → Option (List ℕ) → Mutexes M → ℕ × Mutexes M
  open_or_create f name k =
      let found = named_handle name k.table in
      let (handle, t) = mutex_reg f.random f.place f.mutex f.attr (name_or_empty name) k.table in
      if found == null
      then if f.init_rc == 0
        then (handle, put_mutex f.mutex f.initial (record k { table = t }))
        else (null, k)
      else (found, k)

  -- `pthread_mutex_lock`, whose return code is not looked at; `none` while it sleeps.
  abbrev pub locked_at : Ptr → Mutexes M → Option (ℕ × M) → Option (Mutexes M)
  locked_at a k none = none
  locked_at a k (some (rc, m)) = some (put_mutex a m k)

  -- `owner` is `bInitialOwner`.
  unfoldable pub take_if : Pthread M → ℕ → Bool → ℕ → Mutexes M → Option (Mutexes M)
  take_if p t owner handle k =
      let a = mutex_get handle k.table in
      if handle == null
      then some k
      else if owner
      then locked_at a k (p.lock t (k.mutex_at a))
      else some k

  unfoldable pub create_mutex_a :
      Pthread M → ℕ → Fresh M → Bool → Option (List ℕ) → Mutexes M → ℕ × Option (Mutexes M)
  create_mutex_a p t f owner name k =
      let (handle, k') = open_or_create f name k in (handle, take_if p t owner handle k')
