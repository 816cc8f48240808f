-- ===== src/Tests/AgentTests.antt =====
-- The lifecycle of agents (src/broker/agent-lifecycle.ts) on a sample state.
use my_shtty_pi_herdr_deck.Base.{false, [], ◌∷◌, none, some, ◌≡◌, refl, not, All}
use my_shtty_pi_herdr_deck.Base.Int.{pos}
use my_shtty_pi_herdr_deck.Base.Json.{integer}
use my_shtty_pi_herdr_deck.State.Types.{
  AgentState, TaskState, Agent, Task, OrchestrationState, task_terminal,
}
use my_shtty_pi_herdr_deck.State.Reducer.{empty_state}
use my_shtty_pi_herdr_deck.State.Reducer.Tasks.{new_task}
use my_shtty_pi_herdr_deck.Agent.Lifecycle.{
  close, close_decision, project_agent_lifecycle, assigned_tasks, is_uncollected,
}
use my_shtty_pi_herdr_deck.Agent.Lifecycle.Closing.{project_agent_lifecycle_idle}

abbrev pub idle_agent : Agent
idle_agent = record {
  id = "a1";
  state = AgentState.idle;
  generation = integer (pos 1);
  managed = none;
  parent_agent_id = some "root";
  depth = none;
  display_name = none;
  herdr_name = none;
  profile_id = none;
  requested_model = none;
  effective_model = none;
  actual_model = none;
  model_policy_hash = none;
  lifecycle_class = none;
  keep_for_reuse = none;
  terminal_id = none;
  pane_id = none;
  workspace_id = none;
  tab_id = none;
  cwd = none;
  worktree_id = none;
  pi_session_id = none;
  connection_generation = none;
  current_run_id = none;
  current_assignment_generation = none;
  last_adapter_seq = none;
  token_digest = none;
}

abbrev collected_task : Task
collected_task = record (new_task "t1" "Title" "Goal" "now") {
  state = TaskState.succeeded;
  assigned_agent_id = some "a1";
  result_id = some "x1";
  result_collected_at = some "later";
}

abbrev after_work : OrchestrationState
after_work = record empty_state { tasks = ("t1", collected_task) ∷ [] }

-- What the lifecycle computes with.
lifecycle : Unit {0}
unfolding project_agent_lifecycle close_decision
lifecycle = tt

sample_closes : (project_agent_lifecycle idle_agent after_work).close_recommendation ≡ close
unfolding lifecycle
sample_closes = refl

project_agent_lifecycle_idle_example :
    All (λ t. not (task_terminal t.state) ≡ false) (assigned_tasks idle_agent after_work)
    × All (λ t. is_uncollected t ≡ false) (assigned_tasks idle_agent after_work)
unfolding lifecycle
project_agent_lifecycle_idle_example = project_agent_lifecycle_idle idle_agent after_work refl refl
