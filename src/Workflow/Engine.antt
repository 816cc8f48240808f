-- ===== src/Workflow/Engine.antt =====
-- src/scheduler/workflow-engine.ts: which steps may start, updates, cancellation and the join.
pub mod Readiness
pub mod Cancellation
pub mod Join
use my_shtty_pi_herdr_deck.Base.{
  String, Bool, true, false, not, ◌||◌, List, [], ◌∷◌, map, Option, none, some, if◌then◌else◌,
  or_default, any, every,
}
use my_shtty_pi_herdr_deck.Base.Dict.{Dict, lookup, insert}
use my_shtty_pi_herdr_deck.Workflow.Types.{
  PlannedStep, WorkflowPlan, ExecutionState, WorkflowExecution, is_terminal, is_unsuccessful,
  is_queued, is_running, is_succeeded, is_blocked, is_cancelled, has_failed,
}

abbrev pub ExecutionStates : Type 0
ExecutionStates = Dict WorkflowExecution

-- `{ state: "queued" }` and `{ state: "cancelled" }`
abbrev pub bare : ExecutionState → WorkflowExecution
bare state = record { state = state; result = none }

abbrev pub execution_for : ExecutionStates → String → WorkflowExecution
execution_for states key = or_default (lookup key states) (bare ExecutionState.queued)

abbrev pub state_of : ExecutionStates → String → ExecutionState
state_of states key = (execution_for states key).state

pub record WorkflowReadiness : Type 0 where
  pub ready : List PlannedStep
  pub waiting : List PlannedStep
  pub blocked : List PlannedStep

-- What the loop does with one step, before the rest of the plan.
abbrev pub place_step : ExecutionStates → PlannedStep → WorkflowReadiness → WorkflowReadiness
place_step states step rest =
    if not (is_queued (state_of states step.key))
    then rest
    else if any (λ key. is_unsuccessful (state_of states key)) step.depends_on
    then record rest { blocked = step ∷ rest.blocked }
    else if every (λ key. is_succeeded (state_of states key)) step.depends_on
    then record rest { ready = step ∷ rest.ready }
    else record rest { waiting = step ∷ rest.waiting }

unfoldable pub sort_steps : ExecutionStates → List PlannedStep → WorkflowReadiness
sort_steps states [] = record { ready = []; waiting = []; blocked = [] }
sort_steps states (step ∷ steps) = place_step states step (sort_steps states steps)

unfoldable pub workflow_readiness : WorkflowPlan → ExecutionStates → WorkflowReadiness
unfolding sort_steps
workflow_readiness plan states = sort_steps states plan.steps

abbrev pub ready_workflow_steps : WorkflowPlan → ExecutionStates → List PlannedStep
ready_workflow_steps plan states = (workflow_readiness plan states).ready

unfoldable pub apply_workflow_state : WorkflowExecution → WorkflowExecution → WorkflowExecution
apply_workflow_state current next =
    if is_cancelled current.state
    then current
    else if is_cancelled next.state || not (is_terminal current.state)
    then next
    else current

abbrev pub cancelled_execution : WorkflowExecution → WorkflowExecution
cancelled_execution current =
    if is_cancelled current.state || is_terminal current.state
    then current
    else bare ExecutionState.cancelled

-- The loop of `cancelWorkflow`, with the new map so far.
unfoldable pub cancel_keys : ExecutionStates → ExecutionStates → List String → ExecutionStates
cancel_keys states cancelled [] = cancelled
cancel_keys states cancelled (key ∷ keys) =
    cancel_keys states (insert key (cancelled_execution (execution_for states key)) cancelled) keys

abbrev keys_of : ExecutionStates → List String
keys_of [] = []
keys_of ((key, execution) ∷ rest) = key ∷ keys_of rest

-- `cancelWorkflow`; its second form takes the states first, and the plan may be missing.
unfoldable pub cancel_workflow : Option WorkflowPlan → ExecutionStates → ExecutionStates
unfolding cancel_keys
cancel_workflow none states = cancel_keys states [] (keys_of states)
cancel_workflow (some plan) states = cancel_keys states [] (map (λ step. step.key) plan.steps)

pub record WorkflowTaskView : Type 0 where
  pub key : String
  pub task_id : String
  pub execution : WorkflowExecution

pub data FanInState : Type 0 where
  queued running succeeded failed blocked cancelled : FanInState

pub record WorkflowFanIn : Type 0 where
  pub state : FanInState
  pub tasks : List WorkflowTaskView

abbrev pub task_view : ExecutionStates → PlannedStep → WorkflowTaskView
task_view states step = record {
  key = step.key;
  task_id = step.task_id;
  execution = execution_for states step.key;
}

-- The state of the whole, from the states of its tasks.
unfoldable pub joined_state : List ExecutionState → FanInState
joined_state values =
    if any has_failed values
    then FanInState.failed
    else if any is_cancelled values
    then FanInState.cancelled
    else if any is_blocked values
    then FanInState.blocked
    else if every is_succeeded values
    then FanInState.succeeded
    else if any is_running values
    then FanInState.running
    else FanInState.queued

unfoldable pub fan_in_workflow : WorkflowPlan → ExecutionStates → WorkflowFanIn
unfolding joined_state
fan_in_workflow plan states =
    let tasks = map (task_view states) plan.steps in
    record { state = joined_state (map (λ task. task.execution.state) tasks); tasks = tasks }
