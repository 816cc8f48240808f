-- ===== src/Scheduler/Admission.antt =====
-- `admitReady` of src/scheduler/scheduler.ts: the decision on every queued task, in order.
pub mod Capacity
pub mod Eligible
pub mod Order
pub mod Refusals
use my_shtty_pi_herdr_deck.Base.{
  ℕ, ◌+◌, ◌-◌, ◌≤◌, ◌<◌, String, Bool, true, false, List, [], ◌∷◌, Option, none, some, ltb, leb,
  eqb, if◌then◌else◌, filter, length, not, or_default, any, ◌==◌, ◌≡◌,
}
use my_shtty_pi_herdr_deck.Base.Dict.{Dict, lookup, insert, values}
use my_shtty_pi_herdr_deck.Base.Sort.{sort}
use my_shtty_pi_herdr_deck.Scheduler.Types.{
  State, SchedulerTask, SchedulerLimits, Priority, low, normal, high, Requirement, Dependency,
  is_queued, is_succeeded, active_state, terminal_state,
}
use my_shtty_pi_herdr_deck.Scheduler.Queue.{Scheduler, queued_tasks, active_tasks}

pub data AdmissionReason : Type 0 where
  admitted global_limit parent_limit endpoint_capacity provisioning_limit dependency_blocked
        depth_exceeded queue_full not_queued :
      AdmissionReason

pub record Admission : Type 0 where
  pub task_id : String
  pub admitted : Bool
  pub reason : AdmissionReason

-- `a.localeCompare(b) <= 0`: the order of the runtime's collation.
pub record Collation : Type 0 where
  pub le : String → String → Bool
  pub total : (a b : String) → le a b ≡ false → le b a ≡ true
  pub trans : (a b c : String) → le a b ≡ true → le b c ≡ true → le a c ≡ true

abbrev pub priority_value : Priority → ℕ
priority_value high = 0
priority_value normal = 1
priority_value low = 2

-- The comparison that `admitReady` sorts by gives a number that is not positive.
abbrev pub comes_before : Collation → SchedulerTask → SchedulerTask → Bool
comes_before c a b =
    if eqb (priority_value a.priority) (priority_value b.priority)
    then (if eqb a.queued_at b.queued_at then c.le a.id b.id else ltb a.queued_at b.queued_at)
    else ltb (priority_value a.priority) (priority_value b.priority)

-- The queued tasks in the order in which they are considered.
unfoldable pub available : Collation → Dict SchedulerTask → List SchedulerTask
available c tasks = sort (comes_before c) (queued_tasks tasks)

abbrev pub task_endpoint_id : SchedulerTask → String
task_endpoint_id task = or_default task.endpoint_id "derived-v1-legacy"

-- `map.get(key) ?? 0`
abbrev pub count_of : Dict ℕ → String → ℕ
count_of counts key = or_default (lookup key counts) 0

abbrev pub bump : Dict ℕ → String → Dict ℕ
bump counts key = insert key (count_of counts key + 1) counts

-- The first loop, for one of its two maps.
unfoldable pub tally : (SchedulerTask → String) → Dict ℕ → List SchedulerTask → Dict ℕ
tally key counts [] = counts
tally key counts (t ∷ ts) = tally key (bump counts (key t)) ts

pub record Counts : Type 0 where
  pub slots : ℕ
  pub by_parent : Dict ℕ
  pub by_endpoint : Dict ℕ

abbrev pub start_counts : Scheduler → Dict SchedulerTask → Counts
start_counts s tasks = record {
  slots = s.limits.max_active_agents - length (active_tasks tasks);
  by_parent = tally (λ t. t.parent_agent_id) [] (active_tasks tasks);
  by_endpoint = tally task_endpoint_id [] (active_tasks tasks);
}

abbrev pub unmet_state : Requirement → Option SchedulerTask → Bool
unmet_state _ none = true
unmet_state Requirement.succeeded (some t) = not (is_succeeded t.state)
unmet_state Requirement.terminal (some t) = not (terminal_state t.state)

abbrev pub unmet : Dict SchedulerTask → Dependency → Bool
unmet tasks d = unmet_state d.requirement (lookup d.task_id tasks)

abbrev pub endpoint_limit : Scheduler → String → ℕ
endpoint_limit s id = or_default (lookup id s.endpoint_limits) s.limits.max_active_agents

-- The tests of the second loop on one task, in their order.
unfoldable pub reason_for :
    Scheduler → Dict SchedulerTask → Counts → SchedulerTask → AdmissionReason
reason_for s tasks c task =
    if any (unmet tasks) task.dependencies
    then dependency_blocked
    else if ltb s.limits.max_delegation_depth task.depth
    then depth_exceeded
    else if eqb c.slots 0
    then global_limit
    else if leb s.limits.max_active_per_parent (count_of c.by_parent task.parent_agent_id)
    then parent_limit
    else if leb (endpoint_limit s (task_endpoint_id task))
        (count_of c.by_endpoint (task_endpoint_id task))
    then endpoint_capacity
    else AdmissionReason.admitted

abbrev pub is_admitted : AdmissionReason → Bool
is_admitted AdmissionReason.admitted = true
is_admitted _ = false

-- What an admission changes in the counts.
abbrev pub take_slot : Counts → SchedulerTask → Counts
take_slot c task = record {
  slots = c.slots - 1;
  by_parent = bump c.by_parent task.parent_agent_id;
  by_endpoint = bump c.by_endpoint (task_endpoint_id task);
}

abbrev pub after_decision : AdmissionReason → Counts → SchedulerTask → Counts
after_decision reason c task = if is_admitted reason then take_slot c task else c

-- The second loop, over the rest of the queue.
unfoldable pub admit_loop :
    Scheduler → Dict SchedulerTask → Counts → List SchedulerTask → List Admission
admit_loop s tasks c [] = []
admit_loop s tasks c (t ∷ ts) =
    let reason = reason_for s tasks c t in
    record { task_id = t.id; admitted = is_admitted reason; reason = reason }
    ∷ admit_loop s tasks (after_decision reason c t) ts

-- `admitReady(tasks)`; the source's default argument is the scheduler's own tasks.
unfoldable pub admit_ready : Collation → Scheduler → Dict SchedulerTask → List Admission
unfolding available
admit_ready c s tasks = admit_loop s tasks (start_counts s tasks) (available c tasks)

-- The tasks that were admitted.
abbrev pub admitted_tasks : List SchedulerTask → List Admission → List SchedulerTask
admitted_tasks (t ∷ ts) (d ∷ ds) =
    if d.admitted then t ∷ admitted_tasks ts ds else admitted_tasks ts ds
admitted_tasks _ _ = []
