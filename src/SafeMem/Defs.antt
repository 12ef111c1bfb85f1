-- ===== src/SafeMem/Defs.antt =====
-- FSPChecker/Compat/safestringlib/safeclib/safe_mem_constraint.c, and the limits of safe_mem_lib.h.
use learn_docs.Base.{ℕ, Option, some, List, ◌∷◌, String, ◌==◌, if◌then◌else◌}
use learn_docs.Memory.{Ptr, null, Mem}
use learn_docs.SafeStr.Defs.{Handler, Call, ignore_handler, registered, current_handler}

-- 256UL << 20
abbrev pub rsize_max_mem : ℕ
rsize_max_mem = 268_435_456

abbrev pub rsize_max_mem16 : ℕ
rsize_max_mem16 = 134_217_728

abbrev pub rsize_max_mem32 : ℕ
rsize_max_mem32 = 67_108_864

-- Memory, the static `mem_handler`, and the handler calls, newest first.
pub record MemWorld : Type 0 where
  pub mem : Mem
  pub mem_handler : Option Handler
  pub calls : List Call

unfoldable pub set_mem_constraint_handler_s : Ptr → MemWorld → Option Handler × MemWorld
set_mem_constraint_handler_s handler w = (
  w.mem_handler,
  record w { mem_handler = some (if handler == null then ignore_handler else registered handler) },
)

unfoldable pub invoke_safe_mem_constraint_handler : String → ℕ → MemWorld → MemWorld
invoke_safe_mem_constraint_handler msg code w = record w {
  calls = record { handler = current_handler w.mem_handler; message = msg; error = code } ∷ w.calls;
}

-- The handler call of a violation, and its `return`.
abbrev pub violation : String → ℕ → MemWorld → ℕ × MemWorld
violation msg code w = (code, invoke_safe_mem_constraint_handler msg code w)

abbrev pub with_mem : Mem → MemWorld → MemWorld
with_mem m w = record w { mem = m }
