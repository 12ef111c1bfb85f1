-- ===== src/SafeStr/Meets.antt =====
-- A routine's reply measured against the specification of a bounded copy.
use learn_docs.Base.{ℕ, ◌≡◌, ◌≢◌, refl, List, String, arith}
use learn_docs.Memory.{Ptr, paste}
use learn_docs.SafeStr.Defs.{World, Reply, eok, fail}
use learn_docs.SafeStr.Effects.{SameLog, SameBeyond, Reported, fail-mem, fail-Reported}
use learn_docs.SafeStr.Outcome.{kept}

-- A reply to a copy of `xs` into the `n` cells at `d`.
pub record Meets (message : ℕ → String) (code : ℕ) (d : Ptr) (n : ℕ) (xs : List ℕ) (w : World)
    (r : Reply) : Type 0 where
  pub code_is : r.0 ≡ code
  pub leaves : (a : Ptr) → r.1.mem a ≡ paste d n (kept code xs) w.mem a
  pub silent : code ≡ eok → SameLog w r.1
  pub reports : code ≢ eok → Reported (message code) code w r.1

-- Nulling `dest` forgets what the loop had copied.
pub fail-Meets :
    (message : ℕ → String) (code : ℕ) (d : Ptr) (n : ℕ) (xs : List ℕ) (w w' : World)
    → code ≢ eok
    → SameBeyond d n w w'
    → SameLog w w'
    → Meets message code d n xs w (fail d n (message code) code w')
unfolding fail
fail-Meets message code d n xs w w' ne same log = record {
  code_is = refl;
  leaves = λ a. ground (arith, fail-mem d n (message code) code w' a, same a);
  silent = λ e. absurd (ne e);
  reports = λ e. ground (arith, fail-Reported d n (message code) code w');
}
