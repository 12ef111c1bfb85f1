-- ===== src/Event/Release.antt =====
-- What a set event of FSPChecker/Compat/eventapi.cpp lets through.
use learn_docs.Base.{
  ℕ, suc, ◌+◌, ◌-◌, ◌<◌, ◌≡◌, Bool, true, false, List, [], ◌∷◌, ◌==◌, refl, arith, subst, if_cases,
  ne→==,
}
use learn_docs.Event.Defs.{event}
use learn_docs.Event.Attempt.{
  attempt, event_wait-attempt, wait_wake-attempt, event_timedwait-attempt, timed_wake-attempt,
  timed_wake-expired, event_set_lem,
}
use learn_docs.Event.System.{
  System, Op, call_wait, call_timedwait, wake_wait, wake_timedwait, expire, call_set, call_reset,
  settle, settle_timed, step, run,
}

-- Where an `event_wait` sleeps, a call of `event_set` and then a wake up let it through: it
-- returns 0, one sleeper fewer is left, and the event is set afterwards exactly if it is manual.
pub set-wake :
    (s : System)
    → 0 < s.sleepers
    → ((step wake_wait (step call_set s)).waited ≡ s.waited + 1)
      × ((step wake_wait (step call_set s)).sleepers ≡ s.sleepers - 1)
      × ((step wake_wait (step call_set s)).ev.state ≡ s.ev.manual_reset)
set-wake s l =
    rw
      (
        event_set_lem s.ev,
        ne→== s.sleepers 0 (omega arith),
        wait_wake-attempt (event true s.ev.manual_reset false),
      )
      (refl, refl, refl)

abbrev is_reset : Op → ℕ
is_reset call_reset = 1
is_reset o = 0

abbrev pub resets : List Op → ℕ
resets [] = 0
resets (o ∷ os) = is_reset o + resets os

abbrev pub wakes : List Op → ℕ
wakes [] = 0
wakes (wake_wait ∷ os) = suc (wakes os)
wakes (o ∷ os) = wakes os

-- Manual, set, and with `n` sleepers.
Open : ℕ → System → Type 0
Open n s = (s.ev.manual_reset ≡ true) × (s.ev.state ≡ true) × (s.sleepers ≡ n)

abbrev less : Op → ℕ → ℕ
less wake_wait n = n - 1
less o n = n

settle-Open :
    (n : ℕ) (b r : Bool) (s : System)
    → b ≡ true
    → r ≡ true
    → s.sleepers ≡ n
    → Open n (settle (attempt b r) s) × Open n (settle_timed (attempt b r) s)
unfolding Open
settle-Open n b r s e f h = rw (e, f) ((refl, refl, h), (refl, refl, h))

step-Open : (n : ℕ) (o : Op) (s : System) → is_reset o ≡ 0 → Open n s → Open (less o n) (step o s)
unfolding Open
step-Open n call_wait s k (r, b, h) =
    rw (event_wait-attempt s.ev) ((settle-Open n s.ev.state s.ev.manual_reset s b r h).0)
step-Open n call_timedwait s k (r, b, h) =
    rw (event_timedwait-attempt s.ev) ((settle-Open n s.ev.state s.ev.manual_reset s b r h).1)
step-Open n wake_wait s k (r, b, h) =
    if_cases (Open (n - 1)) (s.sleepers == 0) s _ (λ c. (r, b, ground arith))
      (λ c.
        rw (wait_wake-attempt s.ev)
          ((settle-Open (n - 1) s.ev.state s.ev.manual_reset _ b r (omega arith)).0))
step-Open n wake_timedwait s k (r, b, h) =
    if_cases (Open n) (s.timed_sleepers == 0) s _ (λ c. (r, b, h))
      (λ c. rw (timed_wake-attempt s.ev) ((settle-Open n s.ev.state s.ev.manual_reset _ b r h).1))
step-Open n expire s k (r, b, h) =
    if_cases (Open n) (s.timed_sleepers == 0) s _ (λ c. (r, b, h))
      (λ c. rw (timed_wake-expired s.ev) (r, b, h))
step-Open n call_set s k (r, b, h) = rw (event_set_lem s.ev) (r, refl, h)
step-Open n call_reset s k o = absurd (omega arith)

wakes-less : (o : Op) (os : List Op) (n : ℕ) → less o n - wakes os ≡ n - wakes (o ∷ os)
wakes-less call_wait os n = refl
wakes-less call_timedwait os n = refl
wakes-less wake_wait os n = omega arith
wakes-less wake_timedwait os n = refl
wakes-less expire os n = refl
wakes-less call_set os n = refl
wakes-less call_reset os n = refl

run-Open :
    (n : ℕ) (ops : List Op) (s : System)
    → resets ops ≡ 0
    → Open n s
    → Open (n - wakes ops) (run ops s)
run-Open n [] s k o = subst (λ (x : ℕ). Open x s) (omega arith) o
run-Open n (o ∷ os) s k p =
    subst (λ (x : ℕ). Open x (run os (step o s))) (wakes-less o os n)
      (run-Open (less o n) os (step o s) (omega (arith, k)) (step-Open n o s (omega (arith, k)) p))

-- On a manual event that is set, in every interleaving without a reset in which the pthread
-- calls succeed, the event stays set, and each wake up of a sleeping `event_wait` takes one off
-- the sleepers.
pub run-manual :
    (ops : List Op) (s : System)
    → resets ops ≡ 0
    → s.ev.manual_reset ≡ true
    → s.ev.state ≡ true
    → ((run ops s).ev.state ≡ true) × ((run ops s).sleepers ≡ s.sleepers - wakes ops)
unfolding Open
run-manual ops s k r b = let (_, b', n) = run-Open s.sleepers ops s k (r, b, refl) in (b', n)
