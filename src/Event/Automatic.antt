-- ===== src/Event/Automatic.antt =====
-- Automatic events: how many waits the calls of `event_set` let through.
use learn_docs.Base.{
  subst, sym, ℕ, ◌+◌, ◌≤◌, ◌≡◌, Bool, true, false, List, [], ◌∷◌, ◌==◌, refl, arith, if_cases,
}
use learn_docs.Event.System.{
  System, Op, call_wait, call_timedwait, wake_wait, wake_timedwait, expire, call_set, call_reset,
  created, settle, settle_timed, step, run,
}
use learn_docs.Event.Attempt.{
  attempt, event_wait-attempt, wait_wake-attempt, event_timedwait-attempt, timed_wake-attempt,
  timed_wake-expired, event_set_lem, event_reset_lem,
}

abbrev pub bit : Bool → ℕ
bit true = 1
bit false = 0

-- An automatic event: each call of `event_set` lets at most one wait through.
pub Limited : ℕ → System → Type 0
Limited n s =
    (s.ev.manual_reset ≡ false) × (s.ev.held ≡ false) × (s.waited + bit s.ev.state ≤ s.sets + n)

automatic :
    (n : ℕ) (b : Bool) (s : System)
    → s.waited + bit b ≤ s.sets + n
    → Limited n (settle (attempt b false) s) × Limited n (settle_timed (attempt b false) s)
unfolding Limited
automatic n true s l = ((refl, refl, omega arith), (refl, refl, omega arith))
automatic n false s l = ((refl, refl, l), (refl, refl, l))

settle-Limited :
    (n : ℕ) (b r : Bool) (s : System)
    → r ≡ false
    → s.waited + bit b ≤ s.sets + n
    → Limited n (settle (attempt b r) s) × Limited n (settle_timed (attempt b r) s)
settle-Limited n b r s a l =
    subst
      (λ (x : Bool). Limited n (settle (attempt b x) s) × Limited n (settle_timed (attempt b x) s))
      (sym a) (automatic n b s l)

step-Limited : (n : ℕ) (o : Op) (s : System) → Limited n s → Limited n (step o s)
unfolding Limited
step-Limited n call_wait s (a, h, l) =
    rw (event_wait-attempt s.ev) ((settle-Limited n s.ev.state s.ev.manual_reset s a l).0)
step-Limited n call_timedwait s (a, h, l) =
    rw (event_timedwait-attempt s.ev) ((settle-Limited n s.ev.state s.ev.manual_reset s a l).1)
step-Limited n wake_wait s (a, h, l) =
    if_cases (Limited n) (s.sleepers == 0) s _ (λ _. (a, h, l))
      (λ _. rw (wait_wake-attempt s.ev) ((settle-Limited n s.ev.state s.ev.manual_reset _ a l).0))
step-Limited n wake_timedwait s (a, h, l) =
    if_cases (Limited n) (s.timed_sleepers == 0) s _ (λ _. (a, h, l))
      (λ _. rw (timed_wake-attempt s.ev) ((settle-Limited n s.ev.state s.ev.manual_reset _ a l).1))
step-Limited n expire s (a, h, l) =
    if_cases (Limited n) (s.timed_sleepers == 0) s _ (λ _. (a, h, l))
      (λ _. rw (timed_wake-expired s.ev) (a, refl, l))
step-Limited n call_set s (a, h, l) = rw (event_set_lem s.ev) (a, refl, next s.ev.state l)
  where
    next : (b : Bool) → s.waited + bit b ≤ s.sets + n → s.waited + 1 ≤ s.sets + 1 + n
    next true l = omega arith
    next false l = omega arith
step-Limited n call_reset s (a, h, l) = rw (event_reset_lem s.ev) (a, refl, less s.ev.state l)
  where
    less : (b : Bool) → s.waited + bit b ≤ s.sets + n → s.waited + 0 ≤ s.sets + n
    less true l = omega arith
    less false l = omega arith

run-kept : (n : ℕ) (ops : List Op) (s : System) → Limited n s → Limited n (run ops s)
run-kept n [] s l = l
run-kept n (o ∷ os) s l = run-kept n os (step o s) (step-Limited n o s l)

-- On an automatic event, in every interleaving of calls of the waits, wake ups, time outs, sets
-- and resets in which the pthread calls succeed, the waits that have returned 0 are no more than
-- the calls of `event_set`, and one more if the event was created set.
pub run-Limited :
    (init_state : Bool) (ops : List Op)
    → (run ops (created false init_state)).waited
      ≤ (run ops (created false init_state)).sets + bit init_state
unfolding Limited
run-Limited init_state ops =
    let start : 0 + bit init_state ≤ 0 + bit init_state = omega arith in
    let (_, _, l) = run-kept (bit init_state) ops (created false init_state) (refl, refl, start) in
    omega (arith, l)
