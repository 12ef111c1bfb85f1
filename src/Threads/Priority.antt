-- ===== src/Threads/Priority.antt =====
-- `SetThreadPriority`, `GetThreadPriority` and `SetScheduler` of FSPChecker/Compat/processthreadsapi.cpp.
use learn_docs.Base.{
  ℕ, zero, suc, ◌+◌, ◌-◌, ◌/◌, ◌<◌, ◌≤◌, ◌≡◌, refl, Bool, false, Option, none, some, List, [], ◌∷◌,
  ◌==◌, if◌then◌else◌, ℤ, pos, negsuc, arith,
}
use learn_docs.Handle.Object.{get_thread_tid}
use learn_docs.Threads.Defs.{Process}

abbrev pub priority_lowest : ℤ
priority_lowest = negsuc 1

abbrev pub priority_below_normal : ℤ
priority_below_normal = negsuc 0

abbrev pub priority_normal : ℤ
priority_normal = pos 0

abbrev pub priority_above_normal : ℤ
priority_above_normal = pos 1

abbrev pub priority_highest : ℤ
priority_highest = pos 2

-- SCHED_RR
abbrev pub sched_rr : ℕ
sched_rr = 2

-- What the scheduler says: the policy of the process, and the priorities of a policy.
pub record Scheduler : Type 0 where
  pub current : ℕ
  pub priority_min : ℕ → ℕ
  pub priority_max : ℕ → ℕ

pub data SchedAction : Type 0 where
  sets_process : (policy priority : ℕ) → SchedAction
  sets_thread : (tid policy priority : ℕ) → SchedAction

unfoldable pub set_scheduler : Scheduler → ℕ → List SchedAction
set_scheduler s policy =
    if s.current == policy then [] else sets_process policy (s.priority_max policy / 2) ∷ []

-- The `switch`.
unfoldable pub priority_of : ℕ → ℕ → ℤ → ℕ
priority_of lowest highest (negsuc (suc zero)) = lowest
priority_of lowest highest (negsuc zero) = lowest + 1
priority_of lowest highest (pos zero) = (highest + lowest) / 2
priority_of lowest highest (pos (suc (suc zero))) = highest
priority_of lowest highest (pos (suc zero)) = highest - 1
priority_of lowest highest n = (highest + lowest) / 2

-- The actions, newest first, and what is returned: none where the code ends without a `return`.
unfoldable pub set_thread_priority : Scheduler → ℕ → ℤ → Process → Option Bool × List SchedAction
set_thread_priority s handle n w =
    let tid = get_thread_tid handle w.table in
    let priority = priority_of (s.priority_min sched_rr) (s.priority_max sched_rr) n in
    if tid == 0
    then (some false, [])
    else (none, sets_thread tid sched_rr priority ∷ set_scheduler s sched_rr)

-- Where a policy has at least three priorities, the five priorities of Windows come out in their
-- order, the first the least of the policy and the last its greatest, and any other number comes
-- out as the normal one does.
pub priority_of_lem :
    (lowest highest other : ℕ)
    → lowest + 2 ≤ highest
    → let p = priority_of lowest highest in
      (p priority_lowest ≡ lowest)
      × (p priority_lowest < p priority_below_normal)
      × (p priority_below_normal ≤ p priority_normal)
      × (p priority_normal ≤ p priority_above_normal)
      × (p priority_above_normal < p priority_highest)
      × (p priority_highest ≡ highest)
      × (p (pos (suc (suc (suc other)))) ≡ p priority_normal)
      × (p (negsuc (suc (suc other))) ≡ p priority_normal)
unfolding priority_of
priority_of_lem lowest highest other h =
    (refl, omega arith, omega arith, omega arith, omega arith, refl, refl, refl)
