-- ===== src/Sync/Signal.antt =====
-- An event from `CreateEventA` and `SetEvent` of FSPChecker/Compat/synchapi.cpp to `WaitForSingleObject`, which
-- finds out by the type of the handle that it is an event.
use learn_docs.Base.{ℕ, ◌<◌, ◌≡◌, ◌≢◌, Bool, true, false, some, refl, ap, ◌∙◌, ne→==, []}
use learn_docs.Memory.{Ptr, null}
use learn_docs.Handle.Ctx.{Fits}
use learn_docs.Handle.Types.{HandleType}
use learn_docs.Handle.Object.{type_get, reg_event}
use learn_docs.Handle.Roundtrip.{reg_event_lem}
use learn_docs.Event.Defs.{Event, event, event_create, succeeding}
use learn_docs.Sync.Defs.{Kernel, create_event_a, put_event, set_event, wait_event, wait_object_0}
use learn_docs.Sync.Cycle.{set_event_lem, wait_event_lem, put_event-same, handle-ne}
use learn_docs.Sync.Mutex.{Pthread}
use learn_docs.Sync.Wait.{Objects, wait_as, wait_for_single_object}

-- A wait by a handle of an event is the wait of the EVENT case.
wait_for_event :
    {M : Type 0} (q : Pthread M) (t h milliseconds : ℕ) (o : Objects M)
    → h ≢ null
    → type_get h o.kernel.table ≡ HandleType.event
    → let (result, k) = wait_event succeeding [] h milliseconds o.kernel in
      wait_for_single_object q succeeding [] t h milliseconds o ≡ (result, record o { kernel = k })
unfolding wait_for_single_object wait_as
wait_for_event q t h ms o n e = rw (ne→== h null n, e) refl

module _ {M : Type 0} (q : Pthread M) (mutex_at : Ptr → M) where
  -- An event created by `CreateEventA` at an address of 8 bytes that is not null, under a random
  -- start above 0, and then set by `SetEvent` lets a `WaitForSingleObject` of any time out, by
  -- any thread, return WAIT_OBJECT_0 at once, with the mutexes as they were, and is left set if
  -- it is manual and cleared if it is automatic, with its mutex free; the pthread calls succeed.
  pub set_event-wait_for_single_object :
      (p random place t milliseconds : ℕ) (manual init : Bool) (k : Kernel)
      → Fits 8 p
      → p ≢ null
      → 0 < random
      → let (handle, k₁) = create_event_a (some p) 0 0 random place manual init k in
        let (set, k₂) = set_event succeeding handle k₁ in
        let o : Objects M = record { kernel = k₂; mutex_at = mutex_at } in
        let (result, o') = wait_for_single_object q succeeding [] t handle milliseconds o in
        (set ≡ true)
        × (result ≡ some wait_object_0)
        × (o'.mutex_at ≡ mutex_at)
        × (o'.kernel.event_at p ≡ event manual manual false)
  unfolding create_event_a event_create
  set_event-wait_for_single_object p random place t ms manual init k f n r =
      let (h, t') = reg_event random place p manual init k.table in
      let (is_event, gets, _) = reg_event_lem random place p manual init k.table f in
      let k₀ : Kernel = record k { table = t' } in
      let k₁ = put_event p (event init manual false) k₀ in
      let mode : (k₁.event_at p).manual_reset ≡ manual =
        ap (λ (e : Event). e.manual_reset) (put_event-same p (event init manual false) k₀) in
      let first = set_event_lem h p k₁ gets n in
      let signaled = event true (k₁.event_at p).manual_reset false in
      let k₂ = put_event p signaled k₁ in
      let kept = put_event-same p signaled k₁ in
      let valid = handle-ne random place p manual init k r in
      let waits = wait_event_lem h p ms k₂ valid gets n (ap (λ (e : Event). e.state) kept) in
      let o : Objects M = record { kernel = k₂; mutex_at = mutex_at } in
      let left : (k₂.event_at p).manual_reset ≡ manual =
        ap (λ (e : Event). e.manual_reset) kept ∙ mode in
      rw (first, wait_for_event q t h ms o valid is_event, waits)
        (refl, refl, refl, put_event-same p _ k₂ ∙ ap (λ (m : Bool). event m m false) left)
