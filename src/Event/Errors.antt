-- ===== src/Event/Errors.antt =====
-- The operations of FSPChecker/Compat/eventapi.cpp with pthread calls that fail, and the time out.
use learn_docs.Base.{
  ℕ, ◌+◌, ◌*◌, ◌<◌, ◌≡◌, ◌⊎◌, inl, inr, true, false, List, [], ◌∷◌, ◌==◌, if◌then◌else◌, refl,
  arith, Bool-cases, pos, ℤ,
}
use learn_docs.Event.Defs.{
  Event, event, Calls, Wake, Progress, asleep, finished, leave, finish, consume, wait_test,
  wait_wake, wait_wakes, event_wait, event_set, failure, set_held, deadline,
}

-- For microseconds below a million, the time out of `event_timedwait` has fewer than 10^9
-- nanoseconds in `tv_nsec`, and it is the time of day plus `milliseconds`, exactly.
pub deadline_lem :
    (sec usec milliseconds : ℕ)
    → usec < 1_000_000
    → ((deadline sec usec milliseconds).tv_nsec < 1_000_000_000)
      × ((deadline sec usec milliseconds).tv_sec * 1_000_000_000
            + (deadline sec usec milliseconds).tv_nsec
          ≡ sec * 1_000_000_000 + usec * 1_000 + milliseconds * 1_000_000)
unfolding deadline
deadline_lem sec usec ms h = ground arith

-- The call sleeps, or it has given the mutex up.
pub Free : Progress → Type 0
Free (asleep e) = e.held ≡ false
Free (finished ret e) = e.held ≡ false

leave-Free : (c : Calls) (ret : ℤ) (e : Event) → c.unlock ≡ 0 → Free (finish (leave c ret e))
unfolding Free finish leave
leave-Free c ret e h = rw h refl

wait_test-Free : (c : Calls) (e : Event) → c.unlock ≡ 0 → Free (wait_test c e)
unfolding wait_test Free
wait_test-Free c e h = elim (Bool-cases e.state) [
  | inl s ↦ simp s (leave-Free c (pos 0) (consume e) h)
  | inr s ↦ simp s refl
]

wait_wake-Free : (c : Calls) (w : Wake) (e : Event) → c.unlock ≡ 0 → Free (wait_wake c w e)
unfolding wait_wake
wait_wake-Free c w e h = elim (Bool-cases (w.rc == 0)) [
  | inl z ↦ rw z (wait_test-Free c (event w.seen e.manual_reset true) h)
  | inr z ↦ rw z (leave-Free c failure (event w.seen e.manual_reset true) h)
]

wait_wakes-Free :
    (c : Calls) (ws : List Wake) (p : Progress) → c.unlock ≡ 0 → Free p → Free (wait_wakes c ws p)
unfolding wait_wakes Free
wait_wakes-Free c [] p h f = f
wait_wakes-Free c (w ∷ ws) (asleep e) h f =
    wait_wakes-Free c ws (wait_wake c w e) h (wait_wake-Free c w e h)
wait_wakes-Free c (w ∷ ws) (finished ret e) h f = f

-- With the mutex free before the call and an unlock that succeeds, `event_wait` has given up the
-- mutex when it sleeps and when it returns, on every path, errors included.
pub event_wait-Free :
    (c : Calls) (ws : List Wake) (e : Event)
    → c.unlock ≡ 0
    → e.held ≡ false
    → Free (event_wait c ws e)
unfolding event_wait Free
event_wait-Free c ws e h f = elim (Bool-cases (c.lock == 0)) [
  | inl z ↦ simp z (
      wait_wakes-Free c ws (wait_test c (set_held true e)) h (wait_test-Free c (set_held true e) h))
  | inr z ↦ simp z f
]

-- With the mutex free before the call, `event_set` either returns 0 and leaves the event set and
-- the mutex free, or it returns -1 and leaves the mutex locked exactly if the lock had
-- succeeded.
pub event_set-held :
    (c : Calls) (e : Event)
    → e.held ≡ false
    → (((event_set c e).0 ≡ pos 0) × ((event_set c e).1 ≡ event true e.manual_reset false))
      ⊎ (((event_set c e).0 ≡ failure) × ((event_set c e).1.held ≡ (c.lock == 0)))
unfolding event_set leave
event_set-held c e f = elim (Bool-cases (c.lock == 0)) [
  | inl l ↦ elim (Bool-cases ((if e.manual_reset then c.broadcast else c.signal) == 0)) [
    | inl s ↦ elim (Bool-cases (c.unlock == 0)) [
      | inl u ↦ simp (l, s, u) (inl (refl, refl))
      | inr u ↦ simp (l, s, u) (inr (refl, refl))
    ]
    | inr s ↦ simp (l, s) (inr (refl, refl))
  ]
  | inr l ↦ simp (l, f) (inr (refl, refl))
]
