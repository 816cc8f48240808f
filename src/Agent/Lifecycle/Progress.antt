-- ===== src/Agent/Lifecycle/Progress.antt =====
-- `projectTaskProgress` of src/broker/agent-lifecycle.ts, and the views that add it to a task and to
-- an agent. Times are whole milliseconds.
use my_shtty_pi_herdr_deck.Base.{
  String, Bool, true, false, Option, none, some, if◌then◌else◌, ◌==◌, or_default,
}
use my_shtty_pi_herdr_deck.Base.Int.{ℤ, pos, ◌-ℤ◌, leb_ℤ}
use my_shtty_pi_herdr_deck.Base.Dict.{lookup}
use my_shtty_pi_herdr_deck.State.Host.{Host}
use my_shtty_pi_herdr_deck.State.Types.{
  AgentState, TaskState, Agent, Task, Run, HerdrResource, OrchestrationState,
}
use my_shtty_pi_herdr_deck.State.Reducer.Tasks.{nonempty}
use my_shtty_pi_herdr_deck.Agent.Lifecycle.{
  or_else, current_run, task_for_agent, AgentLifecycleProjection, project_agent_lifecycle,
}

pub data Phase : Type 0 where
  queued creating_resources waiting_for_registration starting : Phase

pub data DeadlineKind : Type 0 where
  task registration : DeadlineKind

pub record AgentProgress : Type 0 where
  pub phase : Phase
  pub started_at : String
  pub elapsed_ms : ℤ
  pub deadline_at : Option String
  pub deadline_kind : Option DeadlineKind
  pub remaining_ms : Option ℤ
  pub overdue_ms : Option ℤ

-- `["queued", "provisioning", "assigned"].includes(task.state)`
abbrev pub is_preparing : TaskState → Bool
is_preparing TaskState.queued = true
is_preparing TaskState.provisioning = true
is_preparing TaskState.assigned = true
is_preparing _ = false

abbrev pub resource_of : OrchestrationState → Option String → Option HerdrResource
resource_of s none = none
resource_of s (some id) = lookup id s.herdr_resources

abbrev pub is_pending : Option HerdrResource → Bool
is_pending none = false
is_pending (some r) = r.state == "pending"

abbrev pub phase_of : TaskState → Option HerdrResource → Phase
phase_of TaskState.queued r = queued
phase_of TaskState.assigned r = if is_pending r then waiting_for_registration else starting
phase_of _ r = if is_pending r then waiting_for_registration else creating_resources

abbrev pub run_started : Option Run → Option String
run_started none = none
run_started (some r) = r.started_at

abbrev pub run_timeout : Option Run → Option String
run_timeout none = none
run_timeout (some r) = r.timeout_at

-- The deadline of the registration that the agent is waiting for.
abbrev pub registration_deadline : Phase → Option HerdrResource → Option String
registration_deadline waiting_for_registration (some r) = nonempty r.registration_deadline
registration_deadline _ _ = none

abbrev pub kind_of : Option String → DeadlineKind
kind_of none = task
kind_of (some deadline) = registration

-- `Math.max(0, now - startedMs)`, and 0 for a text that is no date.
abbrev pub elapsed : ℤ → Option ℤ → ℤ
elapsed now none = pos 0
elapsed now (some started) = if leb_ℤ (pos 0) (now -ℤ started) then now -ℤ started else pos 0

abbrev pub date_of : Host → Option String → Option ℤ
date_of host none = none
date_of host (some text) = host.parse_date text

-- The fields of a deadline, where its text is a date.
abbrev pub with_deadline :
    ℤ → DeadlineKind → Option String → Option ℤ → AgentProgress → AgentProgress
with_deadline now kind text none p = p
with_deadline now kind text (some at) p = record p {
  deadline_at = text;
  deadline_kind = some kind;
  remaining_ms = some (if leb_ℤ now at then at -ℤ now else pos 0);
  overdue_ms = if leb_ℤ now at then none else some (now -ℤ at);
}

abbrev pub progress_of : Host → ℤ → Task → Option Run → Option HerdrResource → Phase → AgentProgress
progress_of host now t run resource phase =
    let registered = registration_deadline phase resource in
    let deadline = nonempty (or_else registered (or_else t.timeout_at (run_timeout run))) in
    let started = or_default (run_started run) t.created_at in
    with_deadline now (kind_of registered) deadline (date_of host deadline) (record {
      phase = phase;
      started_at = started;
      elapsed_ms = elapsed now (host.parse_date started);
      deadline_at = none;
      deadline_kind = none;
      remaining_ms = none;
      overdue_ms = none;
    })

unfoldable pub project_task_progress : Host → Task → OrchestrationState → ℤ → Option AgentProgress
project_task_progress host t s now =
    let resource = resource_of s (nonempty t.assigned_agent_id) in
    if is_preparing t.state
    then some (
        progress_of host now t (current_run t.current_run_id s.runs) resource
          (phase_of t.state resource))
    else none

pub record TaskProgressView : Type 0 where
  pub task : Task
  pub progress : Option AgentProgress

unfoldable pub task_with_progress : Host → Task → OrchestrationState → ℤ → TaskProgressView
unfolding project_task_progress
task_with_progress host t s now = record { task = t; progress = project_task_progress host t s now }

pub record AgentLifecycleView : Type 0 where
  pub agent : Agent
  pub lifecycle : AgentLifecycleProjection
  pub progress : Option AgentProgress

-- `["provisioning", "starting"].includes(agent.state)`
abbrev pub is_starting : AgentState → Bool
is_starting AgentState.provisioning = true
is_starting AgentState.starting = true
is_starting _ = false

abbrev pub agent_progress :
    Host → AgentState → OrchestrationState → ℤ → Option Task → Option AgentProgress
agent_progress host state s now none = none
agent_progress host state s now (some t) =
    let progress = project_task_progress host t s now in
    if is_starting state then progress else none

unfoldable pub agent_with_lifecycle : Host → Agent → OrchestrationState → ℤ → AgentLifecycleView
unfolding project_task_progress project_agent_lifecycle
agent_with_lifecycle host agent s now = record {
  agent = agent;
  lifecycle = project_agent_lifecycle agent s;
  progress = agent_progress host agent.state s now (task_for_agent agent s);
}
