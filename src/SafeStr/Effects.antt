-- ===== src/SafeStr/Effects.antt =====
-- What the shared parts of the string routines do to memory and to the handler's log.
use learn_docs.Base.{
  ℕ, zero, suc, ◌+◌, ◌≡◌, refl, false, List, ◌∷◌, String, if◌then◌else◌, in_range, arith,
}
use learn_docs.Memory.{Ptr, paste}
use learn_docs.SafeStr.Defs.{
  World, current_handler, poke, null_slack, invoke_safe_str_constraint_handler, handle_error, fail,
}

-- Neither the registered handler nor the log of its calls differs.
abbrev pub SameLog : World → World → Type 0
SameLog w w' = (w'.calls ≡ w.calls) × (w'.str_handler ≡ w.str_handler)

-- Exactly one more call of the handler in force.
abbrev pub Reported : String → ℕ → World → World → Type 0
Reported msg code w w' =
    (w'.calls
      ≡ record { handler = current_handler w.str_handler; message = msg; error = code } ∷ w.calls)
    × (w'.str_handler ≡ w.str_handler)

-- `w'` differs from `w` at most in the `n` cells from `d` on.
abbrev pub SameBeyond : Ptr → ℕ → World → World → Type 0
SameBeyond d n w w' = (a : Ptr) → in_range d n a ≡ false → w'.mem a ≡ w.mem a

pub null_slack-mem :
    (n : ℕ) (d : Ptr) (w : World) (a : Ptr)
    → (null_slack n d w).mem a ≡ (if in_range d n a then 0 else w.mem a)
unfolding null_slack
null_slack-mem zero d w a = ground arith
null_slack-mem (suc n) d w a = ground (arith, null_slack-mem n (d + 1) (poke d 0 w) a)

pub null_slack-SameLog : (n : ℕ) (d : Ptr) (w : World) → SameLog w (null_slack n d w)
unfolding null_slack
null_slack-SameLog zero d w = (refl, refl)
null_slack-SameLog (suc n) d w = null_slack-SameLog n (d + 1) (poke d 0 w)

module _ (d : Ptr) (n : ℕ) (msg : String) (code : ℕ) (w : World) where
  pub fail-mem : (a : Ptr) → (fail d n msg code w).1.mem a ≡ (if in_range d n a then 0 else w.mem a)
  unfolding fail handle_error invoke_safe_str_constraint_handler
  fail-mem a = null_slack-mem n d w a

  pub fail-Reported : Reported msg code w (fail d n msg code w).1
  unfolding fail handle_error invoke_safe_str_constraint_handler
  fail-Reported = ground (arith, null_slack-SameLog n d w)

pub SameBeyond-poke :
    (d : Ptr) (n x : ℕ) (w w' : World)
    → SameBeyond (d + 1) n (poke d x w) w'
    → SameBeyond d (suc n) w w'
SameBeyond-poke d n x w w' same a out = ground (arith, same a)

pub paste-SameBeyond :
    (d : Ptr) (n : ℕ) (xs : List ℕ) (w w' : World)
    → ((a : Ptr) → w'.mem a ≡ paste d n xs w.mem a)
    → SameBeyond d n w w'
paste-SameBeyond d n xs w w' m a out = ground (arith, m a)
