-- ===== src/Event/Abstract.antt =====
-- Events of both kinds, as the Windows documentation describes them: a flag that waits test and that
-- an automatic event clears, without a mutex and a condition.
use learn_docs.Base.{
  ℕ, ◌+◌, ◌-◌, ◌≡◌, Bool, true, false, not, ◌&&◌, List, [], ◌∷◌, ◌==◌, if◌then◌else◌, refl, ap, ◌∙◌,
  arith, Bool-cases, inl, inr,
}
use learn_docs.Event.Attempt.{
  attempt, event_wait-attempt, wait_wake-attempt, event_timedwait-attempt, timed_wake-attempt,
  timed_wake-expired, event_set_lem, event_reset_lem,
}
use learn_docs.Event.Defs.{event}
use learn_docs.Event.System.{
  System, Op, call_wait, call_timedwait, wake_wait, wake_timedwait, expire, call_set, call_reset,
  settle, settle_timed, step, run,
}

-- Whether it is set, the waits that sleep, those with a time out, the waits that were let through and
-- those whose time ran out, and the calls that set it.
pub record Signal : Type 0 where
  pub is_set : Bool
  pub sleepers : ℕ
  pub timed_sleepers : ℕ
  pub passed : ℕ
  pub timed_out : ℕ
  pub sets : ℕ

abbrev pub signal : Bool → Signal
signal b = record {
  is_set = b;
  sleepers = 0;
  timed_sleepers = 0;
  passed = 0;
  timed_out = 0;
  sets = 0;
}

-- A wait at a set event passes, and clears it unless it is manual; any other sleeps.
pub waits : Bool → Signal → Signal
waits manual g =
    if g.is_set
    then record g { is_set = manual; passed = g.passed + 1 }
    else record g { sleepers = g.sleepers + 1 }

pub timed_waits : Bool → Signal → Signal
timed_waits manual g =
    if g.is_set
    then record g { is_set = manual; passed = g.passed + 1 }
    else record g { timed_sleepers = g.timed_sleepers + 1 }

-- A wake up that finds the event cleared leaves the sleeper asleep.
pub signal_step : Bool → Op → Signal → Signal
signal_step manual call_wait g = waits manual g
signal_step manual call_timedwait g = timed_waits manual g
signal_step manual wake_wait g =
    if not (g.sleepers == 0) && g.is_set
    then record g { is_set = manual; sleepers = g.sleepers - 1; passed = g.passed + 1 }
    else g
signal_step manual wake_timedwait g =
    if not (g.timed_sleepers == 0) && g.is_set
    then record g { is_set = manual; timed_sleepers = g.timed_sleepers - 1; passed = g.passed + 1 }
    else g
signal_step manual expire g =
    if g.timed_sleepers == 0
    then g
    else record g { timed_sleepers = g.timed_sleepers - 1; timed_out = g.timed_out + 1 }
signal_step manual call_set g = record g { is_set = true; sets = g.sets + 1 }
signal_step manual call_reset g = record g { is_set = false }

pub signal_run : Bool → List Op → Signal → Signal
signal_run manual [] g = g
signal_run manual (o ∷ os) g = signal_run manual os (signal_step manual o g)

-- An event of the program that stands for the flag, with its mutex free, and its threads.
abbrev pub represented : Bool → Signal → System
represented manual g = record {
  ev = event g.is_set manual false;
  sleepers = g.sleepers;
  timed_sleepers = g.timed_sleepers;
  waited = g.passed;
  expired = g.timed_out;
  sets = g.sets;
}

settle-represented :
    (manual : Bool) (g : Signal)
    → (settle (attempt g.is_set manual) (represented manual g)
        ≡ represented manual (waits manual g))
      × (settle_timed (attempt g.is_set manual) (represented manual g)
          ≡ represented manual (timed_waits manual g))
unfolding waits timed_waits
settle-represented manual g = elim (Bool-cases g.is_set) [
  | inl e ↦ rw e (refl, refl)
  | inr e ↦ rw e (refl, refl)
]

pred_suc : (n : ℕ) → (n == 0) ≡ false → n - 1 + 1 ≡ n
pred_suc n e = ground arith

-- A sleeper that wakes up.
woken :
    (manual : Bool) (g : Signal)
    → (step wake_wait (represented manual g) ≡ represented manual (signal_step manual wake_wait g))
      × (step wake_timedwait (represented manual g)
          ≡ represented manual (signal_step manual wake_timedwait g))
unfolding signal_step
woken manual g = (
  elim (Bool-cases (g.sleepers == 0)) [
    | inl e ↦ rw e refl
    | inr e ↦
        let count = pred_suc g.sleepers e in
        elim (Bool-cases g.is_set) [
          | inl f ↦ rw (e, wait_wake-attempt (event g.is_set manual false), f) refl
          | inr f ↦ rw (e, wait_wake-attempt (event g.is_set manual false), f, count) refl
        ]
  ],
  elim (Bool-cases (g.timed_sleepers == 0)) [
    | inl e ↦ rw e refl
    | inr e ↦
        let count = pred_suc g.timed_sleepers e in
        elim (Bool-cases g.is_set) [
          | inl f ↦ rw (e, timed_wake-attempt (event g.is_set manual false), f) refl
          | inr f ↦ rw (e, timed_wake-attempt (event g.is_set manual false), f, count) refl
        ]
  ],
)

step-represented :
    (manual : Bool) (o : Op) (g : Signal)
    → step o (represented manual g) ≡ represented manual (signal_step manual o g)
unfolding signal_step
step-represented manual call_wait g =
    rw (event_wait-attempt (event g.is_set manual false)) (settle-represented manual g).0
step-represented manual call_timedwait g =
    rw (event_timedwait-attempt (event g.is_set manual false)) (settle-represented manual g).1
step-represented manual wake_wait g = (woken manual g).0
step-represented manual wake_timedwait g = (woken manual g).1
step-represented manual expire g = elim (Bool-cases (g.timed_sleepers == 0)) [
  | inl e ↦ rw e refl
  | inr e ↦ rw (e, timed_wake-expired (event g.is_set manual false)) refl
]
step-represented manual call_set g = rw (event_set_lem (event g.is_set manual false)) refl
step-represented manual call_reset g = rw (event_reset_lem (event g.is_set manual false)) refl

-- An event of either kind does what a flag does that waits test and that a wait clears if the
-- event is automatic: in every interleaving of calls of the waits, wake ups, time outs, sets and
-- resets in which the pthread calls succeed, the state, the waits that sleep, that have returned
-- 0 and that have timed out, and the sets are those of the flag, and the mutex is free between
-- the steps.
pub run-represented :
    (manual : Bool) (ops : List Op) (g : Signal)
    → run ops (represented manual g) ≡ represented manual (signal_run manual ops g)
unfolding signal_run
run-represented manual [] g = refl
run-represented manual (o ∷ os) g =
    ap (λ (s : System). run os s) (step-represented manual o g)
    ∙ run-represented manual os (signal_step manual o g)
