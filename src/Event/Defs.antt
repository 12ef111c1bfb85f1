-- ===== src/Event/Defs.antt =====
-- The operations of FSPChecker/Compat/eventapi.cpp, outside _MSC_VER. The pthread functions are not
-- part of the program: their return codes are arguments. `held` says whether the event's mutex is
-- locked: a lock that returns 0 sets it and an unlock that returns 0 clears it; a wait on the
-- condition gives it up and takes it again.
use learn_docs.Base.{
  ℕ, ◌+◌, ◌-◌, ◌*◌, ◌/◌, ◌%◌, Bool, true, false, not, Option, none, some, List, [], ◌∷◌, ◌==◌, leb,
  if◌then◌else◌, ℤ, pos, negsuc,
}

-- event_t
pub record Event : Type 0 where
  pub state : Bool
  pub manual_reset : Bool
  pub held : Bool

abbrev pub event : Bool → Bool → Bool → Event
event b r h = record { state = b; manual_reset = r; held = h }

-- What the pthread calls of one operation return, 0 for success.
pub record Calls : Type 0 where
  pub lock : ℕ
  pub signal : ℕ
  pub broadcast : ℕ
  pub unlock : ℕ

-- The return of pthread_cond_wait or pthread_cond_timedwait: its code, and the state as the other
-- threads left it in the meantime.
pub record Wake : Type 0 where
  pub rc : ℕ
  pub seen : Bool

abbrev pub succeeding : Calls
succeeding = record { lock = 0; signal = 0; broadcast = 0; unlock = 0 }

abbrev pub wake : ℕ → Bool → Wake
wake code b = record { rc = code; seen = b }

-- ETIMEDOUT of Linux
abbrev pub etimedout : ℕ
etimedout = 110

abbrev pub failure : ℤ
failure = negsuc 0

abbrev pub set_state : Bool → Event → Event
set_state b e = event b e.manual_reset e.held

abbrev pub set_held : Bool → Event → Event
set_held b e = event e.state e.manual_reset b

unfoldable pub event_create : Bool → ℕ → ℕ → Bool → Bool → Option Event
event_create allocated mutex_rc cond_rc manual_reset init_state =
    if not allocated
    then none
    else if mutex_rc == 0
    then if cond_rc == 0 then some (event init_state manual_reset false) else none
    else none

-- A call that sleeps on the condition, or has returned.
pub data Progress : Type 0 where
  asleep : Event → Progress
  finished : ℤ → Event → Progress

-- `pthread_mutex_unlock`, and what the function returns after it.
unfoldable pub leave : Calls → ℤ → Event → ℤ × Event
leave c ret e = if c.unlock == 0 then (ret, set_held false e) else (failure, e)

unfoldable pub finish : ℤ × Event → Progress
finish (ret, e) = finished ret e

-- `if (!hevent->manual_reset) hevent->state = false;`
unfoldable pub consume : Event → Event
consume e = if not e.manual_reset then set_state false e else e

-- `while (!hevent->state)` of `event_wait`, and what follows it.
unfoldable pub wait_test : Calls → Event → Progress
wait_test c e =
    if not e.state then asleep (set_held false e) else finish (leave c (pos 0) (consume e))

-- The body of that loop from the return of pthread_cond_wait on.
unfoldable pub wait_wake : Calls → Wake → Event → Progress
wait_wake c w e =
    let e' = event w.seen e.manual_reset true in
    if w.rc == 0 then wait_test c e' else finish (leave c failure e')

unfoldable pub wait_wakes : Calls → List Wake → Progress → Progress
wait_wakes c [] p = p
wait_wakes c (w ∷ ws) (asleep e) = wait_wakes c ws (wait_wake c w e)
wait_wakes c (w ∷ ws) (finished ret e) = finished ret e

-- The call, with the returns of pthread_cond_wait in their order.
unfoldable pub event_wait : Calls → List Wake → Event → Progress
event_wait c ws e =
    if c.lock == 0 then wait_wakes c ws (wait_test c (set_held true e)) else finished failure e

-- A struct timespec.
pub record Timespec : Type 0 where
  pub tv_sec : ℕ
  pub tv_nsec : ℕ

abbrev pub timespec : ℕ → ℕ → Timespec
timespec sec nsec = record { tv_sec = sec; tv_nsec = nsec }

-- The time out of `event_timedwait`: `sec` and `usec` are the time of day.
unfoldable pub deadline : ℕ → ℕ → ℕ → Timespec
deadline sec usec milliseconds =
    let nsec = usec * 1_000 + (milliseconds % 1_000) * 1_000_000 in
    if leb 1_000_000_000 nsec
    then timespec (sec + milliseconds / 1_000 + 1) (nsec - 1_000_000_000)
    else timespec (sec + milliseconds / 1_000) nsec

-- What follows the loop of `event_timedwait`.
unfoldable pub timed_end : Calls → ℕ → Event → ℤ × Event
timed_end c rc e =
    leave c (if rc == etimedout then pos 1 else pos 0) (if rc == 0 then consume e else e)

unfoldable pub timed_test : Calls → Event → Progress
timed_test c e = if not e.state then asleep (set_held false e) else finish (timed_end c 0 e)

unfoldable pub timed_wake : Calls → Wake → Event → Progress
timed_wake c w e =
    let e' = event w.seen e.manual_reset true in
    if w.rc == 0
    then timed_test c e'
    else if w.rc == etimedout
    then finish (timed_end c w.rc e')
    else finish (leave c failure e')

unfoldable pub timed_wakes : Calls → List Wake → Progress → Progress
timed_wakes c [] p = p
timed_wakes c (w ∷ ws) (asleep e) = timed_wakes c ws (timed_wake c w e)
timed_wakes c (w ∷ ws) (finished ret e) = finished ret e

unfoldable pub event_timedwait : Calls → List Wake → Event → Progress
event_timedwait c ws e =
    if c.lock == 0 then timed_wakes c ws (timed_test c (set_held true e)) else finished failure e

unfoldable pub event_set : Calls → Event → ℤ × Event
event_set c e =
    let e' = event true e.manual_reset true in
    if c.lock == 0
    then if (if e.manual_reset then c.broadcast else c.signal) == 0
      then leave c (pos 0) e'
      else (failure, e')
    else (failure, e)

unfoldable pub event_reset : Calls → Event → ℤ × Event
event_reset c e =
    if c.lock == 0 then leave c (pos 0) (event false e.manual_reset true) else (failure, e)
