-- ===== src/Tests/WorkflowTests.antt =====
-- The workflow engine of src/scheduler and the isolation policy on sample plans.
use my_shtty_pi_herdr_deck.Base.{String, false, List, [], ◌∷◌, some, ok, err, ◌≡◌, refl, filter}
use my_shtty_pi_herdr_deck.Base.Dict.{lookup, insert}
use my_shtty_pi_herdr_deck.Base.Json.{string}
use my_shtty_pi_herdr_deck.Workflow.Types.{
  WorkflowMode, IsolationMode, PlannedStep, WorkflowPlan, ExecutionState, WorkflowExecution,
}
use my_shtty_pi_herdr_deck.Workflow.Engine.{
  ExecutionStates, bare, workflow_readiness, cancel_keys, cancel_workflow, fan_in_workflow,
  joined_state, sort_steps,
}
use my_shtty_pi_herdr_deck.Workflow.Engine.Readiness.{
  is_ready, is_waiting, is_stuck, workflow_readiness-filter,
}
use my_shtty_pi_herdr_deck.Workflow.Engine.Cancellation.{
  apply_all, Outcome, apply_all-Outcome, workflow_readiness-cancel_workflow,
}
use my_shtty_pi_herdr_deck.Workflow.Engine.Join.{is_open, fan_in_workflow-cancel_workflow}
use my_shtty_pi_herdr_deck.Workflow.Isolation.{
  shared_readonly, profile_contract, resolve_by, resolve_isolation, resolve_workflow_isolation,
  Granted, resolve_workflow_isolation-Granted,
}
use my_shtty_pi_herdr_deck.Base.Int.{pos}
use my_shtty_pi_herdr_deck.Workflow.Validation.{
  FailureMode, WorkflowStep, WorkflowDefinition, workflow_cycle, fuel_spent, check_steps, visit_all,
  enter, visit, validate_workflow,
}
use my_shtty_pi_herdr_deck.Workflow.Validation.Runnable.{
  IsRunnable, validate_workflow-IsRunnable, validate_workflow_enough,
}

abbrev step_of : String → List String → PlannedStep
step_of key depends_on = record {
  key = key;
  task_id = key;
  profile_id = "scout";
  objective = "Goal";
  constraints = [];
  depends_on = depends_on;
  isolation_mode = IsolationMode.profile_default;
}

abbrev pub sample_plan : WorkflowPlan
sample_plan = record {
  workflow_id = "w";
  mode = WorkflowMode.dag;
  dry_run = false;
  steps =
      step_of "a" []
      ∷ step_of "b" ("a" ∷ [])
      ∷ step_of "c" ("b" ∷ [])
      ∷ step_of "d" ("x" ∷ [])
      ∷ [];
  estimated_agent_count = 1;
  max_active_agents = 4;
  max_tasks = 8;
}

abbrev sample_states : ExecutionStates
sample_states = ("a", bare ExecutionState.succeeded) ∷ ("x", bare ExecutionState.failed) ∷ []

-- What the engine computes with.
engine : Unit {0}
unfolding workflow_readiness sort_steps lookup insert cancel_keys cancel_workflow fan_in_workflow
    joined_state
engine = tt

sample_ready : workflow_readiness sample_plan sample_states ≡ record {
  ready = step_of "b" ("a" ∷ []) ∷ [];
  waiting = step_of "c" ("b" ∷ []) ∷ [];
  blocked = step_of "d" ("x" ∷ []) ∷ [];
}
unfolding engine
sample_ready = refl

workflow_readiness-filter_example :
    ((workflow_readiness sample_plan sample_states).ready
      ≡ filter (is_ready sample_states) sample_plan.steps)
    × ((workflow_readiness sample_plan sample_states).waiting
        ≡ filter (is_waiting sample_states) sample_plan.steps)
    × ((workflow_readiness sample_plan sample_states).blocked
        ≡ filter (is_stuck sample_states) sample_plan.steps)
workflow_readiness-filter_example = workflow_readiness-filter sample_plan sample_states

abbrev late_updates : List WorkflowExecution
late_updates =
    bare ExecutionState.succeeded ∷ bare ExecutionState.cancelled ∷ bare ExecutionState.failed ∷ []

apply_all-Outcome_example :
    Outcome
      (bare ExecutionState.running)
      (apply_all (bare ExecutionState.running) late_updates)
      late_updates
apply_all-Outcome_example = apply_all-Outcome (bare ExecutionState.running) late_updates

workflow_readiness-cancel_workflow_example :
    workflow_readiness sample_plan (cancel_workflow (some sample_plan) sample_states)
    ≡ record { ready = []; waiting = []; blocked = [] }
workflow_readiness-cancel_workflow_example =
    workflow_readiness-cancel_workflow sample_plan sample_states

fan_in_workflow-cancel_workflow_example :
    is_open (fan_in_workflow sample_plan (cancel_workflow (some sample_plan) sample_states)).state
    ≡ false
fan_in_workflow-cancel_workflow_example = fan_in_workflow-cancel_workflow sample_plan sample_states

-- What the isolation policy computes with.
isolation : Unit {0}
unfolding resolve_workflow_isolation resolve_isolation resolve_by profile_contract
isolation = tt

resolve_workflow_isolation-Granted_example :
    Granted "scout" (string "shared-readonly") (some shared_readonly)
unfolding isolation
resolve_workflow_isolation-Granted_example =
    resolve_workflow_isolation-Granted "scout" (string "shared-readonly") refl refl

-- The name of an inherited member passes for a profile, and the shared checkout is granted to it.
inherited_profile :
    resolve_isolation "constructor" (string "shared-readonly") ≡ ok (some shared_readonly)
unfolding isolation
inherited_profile = refl

abbrev defined : String → List String → WorkflowStep
defined key depends_on = record {
  key = key;
  profile_id = "scout";
  title = "Title";
  objective_template = "{{input.objective}}";
  constraints = [];
  depends_on = depends_on;
  result_projection = "/summary" ∷ [];
  isolation_mode = IsolationMode.profile_default;
}

abbrev definition_of : List WorkflowStep → WorkflowDefinition
definition_of steps = record {
  version = 1;
  id = "d";
  name = "Name";
  description = "Description";
  mode = WorkflowMode.dag;
  failure_mode = FailureMode.fail_fast;
  max_correction_loops = pos 0;
  steps = steps;
}

-- Two steps that need a third, which stands last.
abbrev pub sample_definition : WorkflowDefinition
sample_definition =
    definition_of (defined "b" ("a" ∷ []) ∷ defined "c" ("b" ∷ "a" ∷ []) ∷ defined "a" [] ∷ [])

-- What the validation computes with.
validation : Unit {0}
unfolding check_steps visit_all enter visit validate_workflow
validation = tt

cycle_found :
    validate_workflow (definition_of (defined "a" ("b" ∷ []) ∷ defined "b" ("a" ∷ []) ∷ []))
    ≡ err workflow_cycle
unfolding validation
cycle_found = refl

validate_workflow-IsRunnable_example : IsRunnable sample_definition
unfolding validation
validate_workflow-IsRunnable_example = validate_workflow-IsRunnable sample_definition refl

validate_workflow_enough_example : ¬ (validate_workflow sample_definition ≡ err fuel_spent)
validate_workflow_enough_example = validate_workflow_enough sample_definition

abbrev pub all_done : ExecutionStates
all_done =
    ("a", bare ExecutionState.succeeded)
    ∷ ("b", bare ExecutionState.succeeded)
    ∷ ("c", bare ExecutionState.succeeded)
    ∷ []
