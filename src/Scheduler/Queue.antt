-- ===== src/Scheduler/Queue.antt =====
-- The class `DeterministicScheduler` of src/scheduler/scheduler.ts, without `admitReady`.
-- A method that assigns to the object returns the new record.
pub mod Laws
use my_shtty_pi_herdr_deck.Base.{
  ℕ, ◌+◌, ◌-◌, ◌≤◌, ◌<◌, String, ◌≡◌, Bool, true, false, List, [], ◌∷◌, Option, none, some, arith,
  ltb, leb, if◌then◌else◌, Result, ok, err, ◌>>=◌, ◌>>◌, throw_if, filter, length, not, is_some,
}
use my_shtty_pi_herdr_deck.Base.Dict.{Dict, lookup, insert, values}
use my_shtty_pi_herdr_deck.Base.Json.{Number}
use my_shtty_pi_herdr_deck.Scheduler.Types.{
  State, SchedulerTask, SchedulerLimits, is_queued, active_state,
}
use my_shtty_pi_herdr_deck.Scheduler.Limits.{LimitError, clamp_limits, clamp_endpoint_limits}

pub record Scheduler : Type 0 where
  pub limits : SchedulerLimits
  pub endpoint_limits : Dict ℕ
  pub tasks : Dict SchedulerTask
  pub provisioning : ℕ

pub data QueueError : Type 0 where
  not_queued delegation_depth_exceeded queue_full task_already_queued task_not_found : QueueError

-- The constructor.
unfoldable pub new : Dict (Option Number) → Dict Number → Result LimitError Scheduler
unfolding clamp_limits clamp_endpoint_limits
new limits endpoint_limits = do
  accepted ← clamp_limits limits
  endpoints ← clamp_endpoint_limits endpoint_limits
  ok (record { limits = accepted; endpoint_limits = endpoints; tasks = []; provisioning = 0 })

unfoldable pub replace_endpoint_limits : Scheduler → Dict Number → Result LimitError Scheduler
unfolding clamp_endpoint_limits
replace_endpoint_limits s endpoint_limits = do
  endpoints ← clamp_endpoint_limits endpoint_limits
  ok (record s { endpoint_limits = endpoints })

-- The tasks that wait.
abbrev pub queued_tasks : Dict SchedulerTask → List SchedulerTask
queued_tasks tasks = filter (λ t. is_queued t.state) (values tasks)

-- The tasks that run.
abbrev pub active_tasks : Dict SchedulerTask → List SchedulerTask
active_tasks tasks = filter (λ t. active_state t.state) (values tasks)

unfoldable pub enqueue : Scheduler → SchedulerTask → Result QueueError Scheduler
enqueue s task = do
  throw_if (not (is_queued task.state)) not_queued
  throw_if (ltb s.limits.max_delegation_depth task.depth) delegation_depth_exceeded
  throw_if (leb s.limits.max_queued_tasks (length (queued_tasks s.tasks))) queue_full
  throw_if (is_some (lookup task.id s.tasks)) task_already_queued
  ok (record s { tasks = insert task.id task s.tasks })

unfoldable pub replace : Scheduler → SchedulerTask → Result QueueError Scheduler
replace s task = do
  throw_if (not (is_some (lookup task.id s.tasks))) task_not_found
  ok (record s { tasks = insert task.id task s.tasks })

unfoldable pub cancel_found :
    Scheduler → String → Option SchedulerTask → Result QueueError Scheduler
cancel_found s task_id none = err task_not_found
cancel_found s task_id (some task) =
    ok (record s { tasks = insert task_id (record task { state = State.cancelled }) s.tasks })

unfoldable pub cancel : Scheduler → String → Result QueueError Scheduler
unfolding cancel_found
cancel s task_id = cancel_found s task_id (lookup task_id s.tasks)

pub data Delta : Type 0 where
  plus_one minus_one : Delta

-- `Math.max(0, provisioning + delta)`
unfoldable pub set_provisioning : Scheduler → Delta → Scheduler
set_provisioning s plus_one = record s { provisioning = s.provisioning + 1 }
set_provisioning s minus_one = record s { provisioning = s.provisioning - 1 }

unfoldable pub can_provision : Scheduler → Bool
can_provision s = ltb s.provisioning s.limits.max_provisioning

pub record SchedulerSnapshot : Type 0 where
  pub queued : List SchedulerTask
  pub active : List SchedulerTask
  pub provisioning : ℕ

unfoldable pub snapshot : Scheduler → SchedulerSnapshot
snapshot s = record {
  queued = queued_tasks s.tasks;
  active = active_tasks s.tasks;
  provisioning = s.provisioning;
}
