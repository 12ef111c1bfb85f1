-- ===== src/Event/Attempt.antt =====
-- What the operations of FSPChecker/Compat/eventapi.cpp do when every pthread call succeeds.
use learn_docs.Base.{Bool, true, false, [], ◌≡◌, refl, pos}
use learn_docs.Event.Defs.{
  Event, event, succeeding, wake, etimedout, Progress, asleep, finished, leave, finish, consume,
  wait_test, wait_wake, wait_wakes, event_wait, timed_end, timed_test, timed_wake, timed_wakes,
  event_timedwait, event_set, event_reset,
}

-- A wait at an event with the state `b` and the reset mode `r`.
abbrev pub attempt : Bool → Bool → Progress
attempt true r = finished (pos 0) (event r r false)
attempt false r = asleep (event false r false)

wait_test_lem : (b r : Bool) → wait_test succeeding (event b r true) ≡ attempt b r
unfolding wait_test leave finish consume
wait_test_lem true true = refl
wait_test_lem true false = refl
wait_test_lem false r = refl

timed_test_lem : (b r : Bool) → timed_test succeeding (event b r true) ≡ attempt b r
unfolding timed_test timed_end leave finish consume
timed_test_lem true true = refl
timed_test_lem true false = refl
timed_test_lem false r = refl

pub event_wait-attempt : (e : Event) → event_wait succeeding [] e ≡ attempt e.state e.manual_reset
unfolding event_wait wait_wakes
event_wait-attempt e = wait_test_lem e.state e.manual_reset

pub wait_wake-attempt :
    (e : Event) → wait_wake succeeding (wake 0 e.state) e ≡ attempt e.state e.manual_reset
unfolding wait_wake
wait_wake-attempt e = wait_test_lem e.state e.manual_reset

pub event_timedwait-attempt :
    (e : Event) → event_timedwait succeeding [] e ≡ attempt e.state e.manual_reset
unfolding event_timedwait timed_wakes
event_timedwait-attempt e = timed_test_lem e.state e.manual_reset

pub timed_wake-attempt :
    (e : Event) → timed_wake succeeding (wake 0 e.state) e ≡ attempt e.state e.manual_reset
unfolding timed_wake
timed_wake-attempt e = timed_test_lem e.state e.manual_reset

pub timed_wake-expired :
    (e : Event)
    → timed_wake succeeding (wake etimedout e.state) e
      ≡ finished (pos 1) (event e.state e.manual_reset false)
unfolding timed_wake timed_end leave finish
timed_wake-expired e = refl

set_of : (b r h : Bool) → event_set succeeding (event b r h) ≡ (pos 0, event true r false)
unfolding event_set leave
set_of b true h = refl
set_of b false h = refl

pub event_set_lem : (e : Event) → event_set succeeding e ≡ (pos 0, event true e.manual_reset false)
event_set_lem e = set_of e.state e.manual_reset e.held

pub event_reset_lem :
    (e : Event) → event_reset succeeding e ≡ (pos 0, event false e.manual_reset false)
unfolding event_reset leave
event_reset_lem e = refl
