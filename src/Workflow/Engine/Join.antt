-- ===== src/Workflow/Engine/Join.antt =====
-- `fanInWorkflow` of src/scheduler/workflow-engine.ts: the state of the whole plan.
use my_shtty_pi_herdr_deck.Base.{
  String, Bool, true, false, ◌||◌, List, [], ◌∷◌, map, some, ◌≡◌, refl, arith, any, every, includes,
  ◌↔◌, eq_refl,
}
use my_shtty_pi_herdr_deck.Workflow.Types.{
  PlannedStep, WorkflowPlan, ExecutionState, is_terminal, is_succeeded, has_failed, is_cancelled,
  is_blocked,
}
use my_shtty_pi_herdr_deck.Workflow.Engine.{
  ExecutionStates, state_of, task_view, joined_state, fan_in_workflow, cancel_workflow, FanInState,
}
use my_shtty_pi_herdr_deck.Workflow.Engine.Cancellation.{cancelled_over}

succeeded_only :
    (values : List ExecutionState)
    → every is_succeeded values ≡ true
    → any has_failed values || any is_cancelled values || any is_blocked values ≡ false
succeeded_only [] h = refl
succeeded_only (v ∷ values) h = ground (arith, succeeded_only values)

over_only :
    (values : List ExecutionState)
    → every is_terminal values ≡ true
    → any has_failed values || any is_cancelled values || any is_blocked values ≡ false
    → every is_succeeded values ≡ true
over_only [] h n = refl
over_only (v ∷ values) h n = ground (arith, over_only values)

abbrev pub states_of : WorkflowPlan → ExecutionStates → List ExecutionState
states_of plan states = map (λ step. state_of states step.key) plan.steps

joined_states :
    (states : ExecutionStates) (steps : List PlannedStep)
    → map (λ task. task.execution.state) (map (task_view states) steps)
      ≡ map (λ step. state_of states step.key) steps
joined_states states [] = refl
joined_states states (step ∷ steps) = rw (joined_states states steps) refl

-- A plan counts as succeeded exactly if each of its steps has succeeded.
pub fan_in_workflow-succeeded :
    (plan : WorkflowPlan) (states : ExecutionStates)
    → ((fan_in_workflow plan states).state ≡ FanInState.succeeded)
      ↔ (every is_succeeded (states_of plan states) ≡ true)
unfolding fan_in_workflow joined_state
fan_in_workflow-succeeded plan states =
    rw (joined_states states plan.steps)
      (λ h. ground (arith, h), λ h. ground (arith, h, succeeded_only (states_of plan states) h))

-- The join has not ended.
abbrev pub is_open : FanInState → Bool
is_open FanInState.queued = true
is_open FanInState.running = true
is_open _ = false

every_of :
    (states : ExecutionStates) (steps : List PlannedStep)
    → ((k : String)
        → includes (map (λ step. step.key) steps) k ≡ true
        → is_terminal (state_of states k) ≡ true)
    → every is_terminal (map (λ step. state_of states step.key) steps) ≡ true
every_of states [] over = refl
every_of states (step ∷ steps) over =
    rw (over step.key (rw (eq_refl step.key) refl))
      (every_of states steps (λ k member. over k (ground (arith, member))))

-- The join of a cancelled plan has ended: it is neither queued nor running.
pub fan_in_workflow-cancel_workflow :
    (plan : WorkflowPlan) (states : ExecutionStates)
    → is_open (fan_in_workflow plan (cancel_workflow (some plan) states)).state ≡ false
unfolding fan_in_workflow joined_state
fan_in_workflow-cancel_workflow plan states =
    let after = cancel_workflow (some plan) states in
    let over = every_of after plan.steps (λ k member. cancelled_over plan states k member) in
    rw (joined_states after plan.steps) (ground (arith, over_only (states_of plan after) over))
