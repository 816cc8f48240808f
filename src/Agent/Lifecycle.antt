-- ===== src/Agent/Lifecycle.antt =====
-- src/broker/agent-lifecycle.ts: the task of an agent, and the recommendation to keep or close it.
pub mod Closing
pub mod Closable
pub mod Progress
use my_shtty_pi_herdr_deck.Base.{
  String, Bool, true, false, not, ◌&&◌, ◌||◌, List, [], ◌∷◌, Option, none, some, if◌then◌else◌,
  ◌==◌, ◌≡◌, refl, ap, subst, arith, Option-cases, same_text?, truthy?, filter, find, or_default,
  All, ◌↔◌, Bool-cases, inl, inr,
}
use my_shtty_pi_herdr_deck.Base.Dict.{Dict, lookup, values}
use my_shtty_pi_herdr_deck.State.Types.{
  AgentState, Agent, Task, Run, OrchestrationState, task_terminal,
}

-- `TERMINAL_TASK_STATES` is the set `taskTerminal` of the reducer.

-- `ACTIVE_AGENT_STATES`
abbrev pub is_active : AgentState → Bool
is_active AgentState.provisioning = true
is_active AgentState.starting = true
is_active AgentState.working = true
is_active AgentState.stopping = true
is_active _ = false

abbrev pub is_blocked : AgentState → Bool
is_blocked AgentState.blocked = true
is_blocked _ = false

-- The tasks that name the agent.
abbrev pub assigned_tasks : Agent → OrchestrationState → List Task
assigned_tasks agent s =
    filter (λ t. same_text? t.assigned_agent_id (some agent.id)) (values s.tasks)

-- A result that nobody has collected.
abbrev pub is_uncollected : Task → Bool
is_uncollected t = truthy? t.result_id && not (truthy? t.result_collected_at)

-- `list.at(-1)`
abbrev pub last {ℓ} : {A : Type ℓ} → List A → Option A
last [] = none
last (x ∷ []) = some x
last (x ∷ y ∷ rest) = last (y ∷ rest)

-- `a ?? b`
abbrev pub or_else {ℓ} : {A : Type ℓ} → Option A → Option A → Option A
or_else none b = b
or_else (some a) b = some a

abbrev pub chosen_task : List Task → Option Task
chosen_task assigned =
    or_else (find (λ t. not (task_terminal t.state)) assigned)
      (or_else (find is_uncollected assigned) (last assigned))

-- The run that the agent is on, if it exists.
abbrev pub current_run : Option String → Dict Run → Option Run
current_run none runs = none
current_run (some id) runs = if id == "" then none else lookup id runs

abbrev pub task_or_assigned : OrchestrationState → List Task → Option Run → Option Task
task_or_assigned s assigned none = chosen_task assigned
task_or_assigned s assigned (some run) = lookup run.task_id s.tasks

abbrev pub task_for_agent : Agent → OrchestrationState → Option Task
task_for_agent agent s =
    task_or_assigned s (assigned_tasks agent s) (current_run agent.current_run_id s.runs)

pub data CloseRecommendation : Type 0 where
  keep blocked close : CloseRecommendation

pub record AgentLifecycleProjection : Type 0 where
  pub lifecycle_class : String
  pub keep_for_reuse : Bool
  pub close_recommendation : CloseRecommendation
  pub close_reason : String

abbrev pub lifecycle_class_of : Agent → String
lifecycle_class_of agent =
    or_default agent.lifecycle_class
      (if truthy? agent.parent_agent_id then "temporary" else "retained")

-- `agent.keepForReuse === true || lifecycleClass === "reusable"`
abbrev pub is_kept : Option Bool → String → Bool
is_kept flag class = or_default flag false || class == "reusable"

-- The tests on the task, in their order.
abbrev pub close_by_task : Option Task → CloseRecommendation × String
close_by_task none = (CloseRecommendation.blocked, "The task is not terminal.")
close_by_task (some task) =
    if not (task_terminal task.state)
    then (CloseRecommendation.blocked, "The task is not terminal.")
    else if not (truthy? task.result_id)
    then (CloseRecommendation.blocked, "The task has no accepted result.")
    else if not (truthy? task.result_collected_at)
    then (CloseRecommendation.blocked, "The result has not been collected.")
    else (close, "The temporary task is complete and its result was collected.")

unfoldable pub close_decision : Agent → OrchestrationState → CloseRecommendation × String
close_decision agent s =
    if lifecycle_class_of agent == "pinned"
    then (keep, "pinned agents stay open.")
    else if lifecycle_class_of agent == "retained"
    then (keep, "retained agents stay open.")
    else if is_kept agent.keep_for_reuse (lifecycle_class_of agent)
    then (keep, "The agent is marked for reuse.")
    else if is_blocked agent.state
    then (CloseRecommendation.blocked, "The agent is blocked and needs input.")
    else if is_active agent.state
    then (CloseRecommendation.blocked, "The agent is active.")
    else close_by_task (task_for_agent agent s)

unfoldable pub project_agent_lifecycle : Agent → OrchestrationState → AgentLifecycleProjection
unfolding close_decision
project_agent_lifecycle agent s = record {
  lifecycle_class = lifecycle_class_of agent;
  keep_for_reuse = is_kept agent.keep_for_reuse (lifecycle_class_of agent);
  close_recommendation = (close_decision agent s).0;
  close_reason = (close_decision agent s).1;
}
