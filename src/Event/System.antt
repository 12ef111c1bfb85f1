-- ===== src/Event/System.antt =====
-- Several threads on one event of FSPChecker/Compat/eventapi.cpp. A step is what one thread does
-- while it holds the event's mutex, so a list of steps is an interleaving of the threads. The
-- pthread calls succeed here, and a wait on the condition may return at any time.
use learn_docs.Base.{
  ℕ, zero, suc, ◌+◌, ◌-◌, Bool, false, List, [], ◌∷◌, ◌==◌, if◌then◌else◌, pos, negsuc,
}
use learn_docs.Event.Defs.{
  Event, event, succeeding, wake, etimedout, Progress, asleep, finished, wait_wake, event_wait,
  timed_wake, event_timedwait, event_set, event_reset,
}

-- The event, the calls that sleep, the calls that returned 0 or 1, and the calls of `event_set`.
pub record System : Type 0 where
  pub ev : Event
  pub sleepers : ℕ
  pub timed_sleepers : ℕ
  pub waited : ℕ
  pub expired : ℕ
  pub sets : ℕ

pub data Op : Type 0 where
  call_wait : Op
  call_timedwait : Op
  wake_wait : Op
  wake_timedwait : Op
  expire : Op
  call_set : Op
  call_reset : Op

abbrev pub created : Bool → Bool → System
created manual_reset init_state = record {
  ev = event init_state manual_reset false;
  sleepers = 0;
  timed_sleepers = 0;
  waited = 0;
  expired = 0;
  sets = 0;
}

-- The system after a call of `event_wait` has run to its next sleep or its return.
abbrev pub settle : Progress → System → System
settle (asleep e) s = record s { ev = e; sleepers = s.sleepers + 1 }
settle (finished (pos zero) e) s = record s { ev = e; waited = s.waited + 1 }
settle (finished (pos (suc n)) e) s = record s { ev = e; expired = s.expired + 1 }
settle (finished (negsuc n) e) s = record s { ev = e }

abbrev pub settle_timed : Progress → System → System
settle_timed (asleep e) s = record s { ev = e; timed_sleepers = s.timed_sleepers + 1 }
settle_timed (finished ret e) s = settle (finished ret e) s

abbrev pub step : Op → System → System
step call_wait s = settle (event_wait succeeding [] s.ev) s
step call_timedwait s = settle_timed (event_timedwait succeeding [] s.ev) s
step wake_wait s =
    if s.sleepers == 0
    then s
    else settle (wait_wake succeeding (wake 0 s.ev.state) s.ev)
        (record s { sleepers = s.sleepers - 1 })
step wake_timedwait s =
    if s.timed_sleepers == 0
    then s
    else settle_timed (timed_wake succeeding (wake 0 s.ev.state) s.ev)
        (record s { timed_sleepers = s.timed_sleepers - 1 })
step expire s =
    if s.timed_sleepers == 0
    then s
    else settle_timed (timed_wake succeeding (wake etimedout s.ev.state) s.ev)
        (record s { timed_sleepers = s.timed_sleepers - 1 })
step call_set s = record s { ev = (event_set succeeding s.ev).1; sets = s.sets + 1 }
step call_reset s = record s { ev = (event_reset succeeding s.ev).1 }

abbrev pub run : List Op → System → System
run [] s = s
run (o ∷ os) s = run os (step o s)
