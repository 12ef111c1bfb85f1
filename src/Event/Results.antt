-- ===== src/Event/Results.antt =====
-- What the return of a wait of FSPChecker/Compat/eventapi.cpp says of the event.
use learn_docs.Base.{
  zero, suc, ◌≡◌, inl, inr, Bool, true, false, List, [], ◌∷◌, ◌==◌, refl, subst, Bool-cases, pos,
  negsuc, ℤ,
}
use learn_docs.Event.Defs.{
  Event, event, Calls, Wake, etimedout, Progress, asleep, finished, leave, finish, consume,
  wait_test, wait_wake, wait_wakes, event_wait, timed_end, timed_test, timed_wake, timed_wakes,
  event_timedwait, failure, set_held,
}

-- For an event of the reset mode `r`: a call sleeps only where the state is false, and the return
-- of 0 leaves the state set for a manual event and cleared for an automatic one.
pub Outcome : Bool → Progress → Type 0
Outcome r (asleep e) = (e.state ≡ false) × (e.manual_reset ≡ r)
Outcome r (finished (pos zero) e) = (e.state ≡ r) × (e.manual_reset ≡ r)
Outcome r (finished (pos (suc n)) e) = (n ≡ 0) × (e.manual_reset ≡ r)
Outcome r (finished (negsuc n) e) = (n ≡ 0) × (e.manual_reset ≡ r)

leave-Outcome :
    (c : Calls) (ret : ℤ) (r : Bool) (e : Event)
    → e.manual_reset ≡ r
    → Outcome r (finished ret e)
    → Outcome r (finish (leave c ret e))
unfolding Outcome leave finish
leave-Outcome c (pos zero) r e h o = elim (Bool-cases (c.unlock == 0)) [
  | inl z ↦ simp z o
  | inr z ↦ simp z (refl, h)
]
leave-Outcome c (pos (suc n)) r e h o = elim (Bool-cases (c.unlock == 0)) [
  | inl z ↦ simp z o
  | inr z ↦ simp z (refl, h)
]
leave-Outcome c (negsuc n) r e h o = elim (Bool-cases (c.unlock == 0)) [
  | inl z ↦ simp z o
  | inr z ↦ simp z (refl, h)
]

-- A state that is set, once `consume` has seen it.
consumed : (r h : Bool) → Outcome r (finished (pos 0) (consume (event true r h)))
unfolding Outcome consume
consumed true h = (refl, refl)
consumed false h = (refl, refl)

failed : (e : Event) → Outcome e.manual_reset (finished failure e)
unfolding Outcome
failed e = (refl, refl)

timed_out : (e : Event) → Outcome e.manual_reset (finished (pos 1) e)
unfolding Outcome
timed_out e = (refl, refl)

consume-mode : (e : Event) → (consume e).manual_reset ≡ e.manual_reset
unfolding consume
consume-mode e = elim (Bool-cases e.manual_reset) [ inl h ↦ simp h refl | inr h ↦ simp h refl ]

wait_test-Outcome : (c : Calls) (b r : Bool) → Outcome r (wait_test c (event b r true))
unfolding wait_test Outcome
wait_test-Outcome c true r =
    leave-Outcome c (pos 0) r (consume (event true r true)) (consume-mode (event true r true))
      (consumed r true)
wait_test-Outcome c false r = (refl, refl)

timed_test-Outcome : (c : Calls) (b r : Bool) → Outcome r (timed_test c (event b r true))
unfolding timed_test timed_end Outcome
timed_test-Outcome c true r =
    leave-Outcome c (pos 0) r (consume (event true r true)) (consume-mode (event true r true))
      (consumed r true)
timed_test-Outcome c false r = (refl, refl)

wait_wake-Outcome : (c : Calls) (w : Wake) (e : Event) → Outcome e.manual_reset (wait_wake c w e)
unfolding wait_wake
wait_wake-Outcome c w e = elim (Bool-cases (w.rc == 0)) [
  | inl z ↦ simp z (wait_test-Outcome c w.seen e.manual_reset)
  | inr z ↦ simp z (
      leave-Outcome c failure e.manual_reset (event w.seen e.manual_reset true) refl
        (failed (event w.seen e.manual_reset true)))
]

timed_wake-Outcome : (c : Calls) (w : Wake) (e : Event) → Outcome e.manual_reset (timed_wake c w e)
unfolding timed_wake timed_end
timed_wake-Outcome c w e = elim (Bool-cases (w.rc == 0)) [
  | inl z ↦ simp z (timed_test-Outcome c w.seen e.manual_reset)
  | inr z ↦ elim (Bool-cases (w.rc == etimedout)) [
    | inl t ↦
        simp (z, t)
          (leave-Outcome c (pos 1) e.manual_reset (event w.seen e.manual_reset true) refl
            (timed_out (event w.seen e.manual_reset true)))
    | inr t ↦
        simp (z, t)
          (leave-Outcome c failure e.manual_reset (event w.seen e.manual_reset true) refl
            (failed (event w.seen e.manual_reset true)))
  ]
]

wait_wakes-Outcome :
    (c : Calls) (ws : List Wake) (r : Bool) (p : Progress)
    → Outcome r p
    → Outcome r (wait_wakes c ws p)
unfolding wait_wakes Outcome
wait_wakes-Outcome c [] r p o = o
wait_wakes-Outcome c (w ∷ ws) r (asleep e) o =
    wait_wakes-Outcome c ws r (wait_wake c w e)
      (subst (λ (x : Bool). Outcome x (wait_wake c w e)) o.1 (wait_wake-Outcome c w e))
wait_wakes-Outcome c (w ∷ ws) r (finished ret e) o = o

timed_wakes-Outcome :
    (c : Calls) (ws : List Wake) (r : Bool) (p : Progress)
    → Outcome r p
    → Outcome r (timed_wakes c ws p)
unfolding timed_wakes Outcome
timed_wakes-Outcome c [] r p o = o
timed_wakes-Outcome c (w ∷ ws) r (asleep e) o =
    timed_wakes-Outcome c ws r (timed_wake c w e)
      (subst (λ (x : Bool). Outcome x (timed_wake c w e)) o.1 (timed_wake-Outcome c w e))
timed_wakes-Outcome c (w ∷ ws) r (finished ret e) o = o

event_wait-Outcome :
    (c : Calls) (ws : List Wake) (e : Event) → Outcome e.manual_reset (event_wait c ws e)
unfolding event_wait
event_wait-Outcome c ws e = elim (Bool-cases (c.lock == 0)) [
  | inl z ↦ simp z (
      wait_wakes-Outcome c ws e.manual_reset (wait_test c (set_held true e))
        (wait_test-Outcome c e.state e.manual_reset))
  | inr z ↦ simp z (failed e)
]

event_timedwait-Outcome :
    (c : Calls) (ws : List Wake) (e : Event) → Outcome e.manual_reset (event_timedwait c ws e)
unfolding event_timedwait
event_timedwait-Outcome c ws e = elim (Bool-cases (c.lock == 0)) [
  | inl z ↦ simp z (
      timed_wakes-Outcome c ws e.manual_reset (timed_test c (set_held true e))
        (timed_test-Outcome c e.state e.manual_reset))
  | inr z ↦ simp z (failed e)
]

-- Whatever the pthread calls return and the other threads do to the state, `event_wait` and
-- `event_timedwait` leave the reset mode, sleep only where the state is false, and return 0 only
-- with the state set for a manual event and cleared for an automatic one; they return nothing
-- but 0, 1 and -1.
pub waits-Outcome :
    (c : Calls) (ws : List Wake) (e : Event)
    → Outcome e.manual_reset (event_wait c ws e) × Outcome e.manual_reset (event_timedwait c ws e)
waits-Outcome c ws e = (event_wait-Outcome c ws e, event_timedwait-Outcome c ws e)
