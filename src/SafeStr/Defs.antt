-- ===== src/SafeStr/Defs.antt =====
-- What the bounds-checked string routines of FSPChecker/Compat/safestringlib share: errno_t
-- values, the constraint handler, and the way out of a loop.
use learn_docs.Base.{ℕ, zero, suc, ◌+◌, Option, none, some, List, ◌∷◌, String, ◌==◌, if◌then◌else◌}
use learn_docs.Memory.{Ptr, Mem, write}

-- safe_lib_errno.h
abbrev pub eok : ℕ
eok = 0

abbrev pub esnullp : ℕ
esnullp = 400

abbrev pub eszerol : ℕ
eszerol = 401

abbrev pub eslemax : ℕ
eslemax = 403

abbrev pub esovrlp : ℕ
esovrlp = 404

abbrev pub esnospc : ℕ
esnospc = 406

abbrev pub esunterm : ℕ
esunterm = 407

-- RSIZE_MAX_STR, that is `(size_t)-1`. It is a parameter of the loops' proofs nowhere, so that
-- nothing counts up to it.
abbrev pub rsize_max_str : ℕ
rsize_max_str = 0xffff_ffff_ffff_ffff

-- A constraint handler: the default one, `ignore_handler_s`, or the function registered at an
-- address. A handler only hears of a violation, so a call of it is an entry in a log.
pub data Handler : Type 0 where
  ignore_handler : Handler
  registered : Ptr → Handler

pub record Call : Type 0 where
  pub handler : Handler
  pub message : String
  pub error : ℕ

-- Memory, the static `str_handler` of safe_str_constraint.c, and the handler calls, newest first.
pub record World : Type 0 where
  pub mem : Mem
  pub str_handler : Option Handler
  pub calls : List Call

-- The handler in force.
abbrev pub current_handler : Option Handler → Handler
current_handler none = ignore_handler
current_handler (some h) = h

abbrev handler_of : Ptr → Handler
handler_of p = if p == 0 then ignore_handler else registered p

unfoldable pub set_str_constraint_handler_s : Ptr → World → Option Handler × World
set_str_constraint_handler_s handler w =
    (w.str_handler, record w { str_handler = some (handler_of handler) })

unfoldable pub invoke_safe_str_constraint_handler : String → ℕ → World → World
invoke_safe_str_constraint_handler msg error w = record w {
  calls =
      record { handler = current_handler w.str_handler; message = msg; error = error } ∷ w.calls;
}

-- `*dest = value`
abbrev pub poke : Ptr → ℕ → World → World
poke dest value w = record w { mem = write w.mem dest value }

-- `while (dmax) { *dest = '\0'; dmax--; dest++; }`, compiled in by SAFECLIB_STR_NULL_SLACK.
unfoldable pub null_slack : ℕ → Ptr → World → World
null_slack zero dest w = w
null_slack (suc dmax) dest w = null_slack dmax (dest + 1) (poke dest 0 w)

unfoldable pub handle_error : Ptr → ℕ → String → ℕ → World → World
unfolding null_slack invoke_safe_str_constraint_handler
handle_error orig_dest orig_dmax err_msg err_code w =
    invoke_safe_str_constraint_handler err_msg err_code (null_slack orig_dmax orig_dest w)

-- A routine's errno_t and the state that it leaves.
abbrev pub Reply : Type 0
Reply = ℕ × World

-- A violation found before anything is written.
unfoldable pub refuse : String → ℕ → World → Reply
unfolding invoke_safe_str_constraint_handler
refuse msg code w = (code, invoke_safe_str_constraint_handler msg code w)

-- A violation found with `dest` known to be good: it is nulled.
unfoldable pub fail : Ptr → ℕ → String → ℕ → World → Reply
unfolding handle_error
fail orig_dest orig_dmax msg code w = (code, handle_error orig_dest orig_dmax msg code w)

-- How control leaves a loop: by a `return`, or by the loop's test with `dest` and `dmax` as they
-- then are.
pub data Exit : Type 0 where
  returned : Reply → Exit
  ended : Ptr → ℕ → World → Exit
