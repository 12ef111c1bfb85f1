-- ===== src/Event/Tests.antt =====
-- Runs of the event operations, and the theorems at concrete events.
use learn_docs.Base.{◌+◌, ◌-◌, ◌≤◌, ◌≡◌, ◌⊎◌, true, false, List, [], ◌∷◌, refl, pos, ◌==◌}
use learn_docs.Event.Defs.{
  event, Calls, succeeding, wake, failure, event_wait, event_timedwait, event_set,
}
use learn_docs.Event.System.{
  System, Op, call_wait, call_timedwait, wake_wait, expire, call_set, created, run,
}
use learn_docs.Event.Automatic.{bit, run-Limited}
use learn_docs.Event.Abstract.{represented, signal, signal_run, run-represented}
use learn_docs.Event.Release.{wakes, run-manual}
use learn_docs.Event.Errors.{Free, event_wait-Free, event_set-held}
use learn_docs.Event.Results.{Outcome, waits-Outcome}

-- Two waits sleep, one timed wait expires, and one set event lets one of the two through.
abbrev ops : List Op
ops = call_wait ∷ call_wait ∷ call_timedwait ∷ expire ∷ call_set ∷ wake_wait ∷ wake_wait ∷ []

abbrev two_asleep : System
two_asleep = record (created true false) { sleepers = 2 }

abbrev signaled : System
signaled = record (created true true) { sleepers = 2 }

-- The signal and the broadcast fail.
abbrev unsignalled : Calls
unsignalled = record succeeding { signal = 22; broadcast = 22 }

run-Limited_example :
    (run ops (created false false)).waited ≤ (run ops (created false false)).sets + bit false
run-Limited_example = run-Limited false ops

run-represented_example :
    run ops (represented false (signal false))
    ≡ represented false (signal_run false ops (signal false))
run-represented_example = run-represented false ops (signal false)

run-manual_example :
    ((run (wake_wait ∷ call_wait ∷ wake_wait ∷ []) signaled).ev.state ≡ true)
    × ((run (wake_wait ∷ call_wait ∷ wake_wait ∷ []) signaled).sleepers
        ≡ signaled.sleepers - wakes (wake_wait ∷ call_wait ∷ wake_wait ∷ []))
run-manual_example = run-manual (wake_wait ∷ call_wait ∷ wake_wait ∷ []) signaled refl refl refl

event_wait-Free_example : Free (event_wait succeeding (wake 22 false ∷ []) (event false true false))
event_wait-Free_example =
    event_wait-Free succeeding (wake 22 false ∷ []) (event false true false) refl refl

event_set-held_example :
    (((event_set unsignalled (event false true false)).0 ≡ pos 0)
      × ((event_set unsignalled (event false true false)).1 ≡ event true true false))
    ⊎ (((event_set unsignalled (event false true false)).0 ≡ failure)
        × ((event_set unsignalled (event false true false)).1.held ≡ (unsignalled.lock == 0)))
event_set-held_example = event_set-held unsignalled (event false true false) refl

waits-Outcome_example :
    Outcome false
      (event_wait succeeding (wake 0 false ∷ wake 0 true ∷ []) (event false false false))
    × Outcome false
        (event_timedwait succeeding (wake 0 false ∷ wake 0 true ∷ []) (event false false false))
waits-Outcome_example =
    waits-Outcome succeeding (wake 0 false ∷ wake 0 true ∷ []) (event false false false)
