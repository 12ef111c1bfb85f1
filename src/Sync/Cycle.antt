-- ===== src/Sync/Cycle.antt =====
-- An event from its creation by `CreateEventA` to a wait by `WaitForSingleObject`.
use learn_docs.Base.{
  ℕ, ◌≡◌, ◌≢◌, Bool, true, false, some, ◌==◌, if◌then◌else◌, refl, ap, ◌∙◌, ne→==, eq→==, arith, [],
  pos, ◌<◌,
}
use learn_docs.Memory.{Ptr, null}
use learn_docs.Handle.Keys.{new_key_get_fresh}
use learn_docs.Handle.Object.{get_event, reg_event}
use learn_docs.Event.Defs.{
  Event, event, succeeding, event_wait, event_timedwait, Progress, finished,
}
use learn_docs.Event.Attempt.{attempt, event_set_lem, event_wait-attempt, event_timedwait-attempt}
use learn_docs.Sync.Defs.{
  Kernel, put_event, set_event, wait_event, wait_result, wait_object_0, infinite,
}

pub set_event_lem :
    (h p : ℕ) (k : Kernel)
    → get_event h k.table ≡ p
    → p ≢ null
    → set_event succeeding h k
      ≡ (true, put_event p (event true (k.event_at p).manual_reset false) k)
unfolding set_event
set_event_lem h p k e n = rw (e, ne→== p null n, event_set_lem (k.event_at p)) refl

-- Both waits take a set event at once.
taken :
    (endless : Bool) (ev : Event)
    → ev.state ≡ true
    → (if endless then event_wait succeeding [] ev else event_timedwait succeeding [] ev)
      ≡ finished (pos 0) (event ev.manual_reset ev.manual_reset false)
taken true ev s = event_wait-attempt ev ∙ ap (λ (b : Bool). attempt b ev.manual_reset) s
taken false ev s = event_timedwait-attempt ev ∙ ap (λ (b : Bool). attempt b ev.manual_reset) s

result_lem :
    (endless : Bool) (p : Ptr) (e : Event) (k : Kernel)
    → wait_result endless p (finished (pos 0) e) k ≡ (some wait_object_0, put_event p e k)
result_lem true p e k = refl
result_lem false p e k = refl

-- A wait for an event that is set.
pub wait_event_lem :
    (h p milliseconds : ℕ) (k : Kernel)
    → h ≢ null
    → get_event h k.table ≡ p
    → p ≢ null
    → (k.event_at p).state ≡ true
    → wait_event succeeding [] h milliseconds k ≡ (
      some wait_object_0,
      put_event p (event (k.event_at p).manual_reset (k.event_at p).manual_reset false) k,
    )
unfolding wait_event
wait_event_lem h p ms k z e n s =
    rw (ne→== h null z, e, ne→== p null n)
      (ap (λ (x : Progress). wait_result (ms == infinite) p x k)
          (taken (ms == infinite) (k.event_at p) s)
        ∙ result_lem (ms == infinite) p _ k)

pub put_event-same : (p : Ptr) (e : Event) (k : Kernel) → (put_event p e k).event_at p ≡ e
put_event-same p e k = rw (eq→== p p refl) refl

pub handle-ne :
    (random place p : ℕ) (manual init : Bool) (k : Kernel)
    → 0 < random
    → (reg_event random place p manual init k.table).0 ≢ null
unfolding reg_event
handle-ne random place p manual init k h =
    let above = (new_key_get_fresh random place k.table).1 in λ e. omega (arith, above, e)
