-- ===== src/Workflow/Plan/Progress.antt =====
-- The engine of src/scheduler/workflow-engine.ts on the plans of `planWorkflow`.
use my_shtty_pi_herdr_deck.Base.{
  ℕ, suc, String, false, List, [], ◌∷◌, ◌≡◌, refl, subst, any, ok, ◌>>◌, throw_if, >>=-eq-ok, ◌==◌,
  ◌||◌, ltb,
}
use my_shtty_pi_herdr_deck.Base.Dict.{Dict}
use my_shtty_pi_herdr_deck.Base.Json.{Fields}
use my_shtty_pi_herdr_deck.Base.Text.{utf16_length}
use my_shtty_pi_herdr_deck.Workflow.Types.{PlannedStep, WorkflowPlan, is_running, is_unsuccessful}
use my_shtty_pi_herdr_deck.Workflow.Engine.{
  ExecutionStates, workflow_readiness, fan_in_workflow, FanInState,
}
use my_shtty_pi_herdr_deck.Workflow.Engine.Join.{states_of}
use my_shtty_pi_herdr_deck.Workflow.Validation.{
  WorkflowStep, WorkflowDefinition, validate_workflow, objective_invalid,
}
use my_shtty_pi_herdr_deck.Workflow.Progress.{Matches, validate_workflow-progress}
use my_shtty_pi_herdr_deck.Workflow.Plan.{
  Source, PlanInput, replace_template, planned_step, plan_steps, plan_of, plan_workflow,
}

plan_steps-Matches :
    (source : Source) (objective : String) (results : Dict Fields) (n : ℕ)
    (steps : List WorkflowStep) {planned : List PlannedStep}
    → plan_steps source objective results n steps ≡ ok planned
    → Matches steps planned
unfolding plan_steps
plan_steps-Matches source objective results n [] {planned} h =
    let same : [] ≡ planned = cc h in subst (Matches []) same tt
plan_steps-Matches source objective results n (step ∷ steps) {planned} h =
    let (text, _, later) =
      >>=-eq-ok (replace_template source step.objective_template objective results) _ h in
    let (rest, ran, made) = >>=-eq-ok (plan_steps source objective results (suc n) steps) _ later in
    let same : planned_step source n step text ∷ rest ≡ planned = cc made in
    subst (Matches (step ∷ steps)) same
      (refl, refl, plan_steps-Matches source objective results (suc n) steps ran)

-- A plan that `planWorkflow` makes does not get stuck: if none of its steps is running or has ended
-- without success, and none is ready, then the whole plan has succeeded.
pub plan_workflow-progress :
    (source : Source) (d : WorkflowDefinition) (input : PlanInput) (states : ExecutionStates)
    {plan : WorkflowPlan}
    → plan_workflow source d input ≡ ok plan
    → any is_running (states_of plan states) ≡ false
    → any is_unsuccessful (states_of plan states) ≡ false
    → (workflow_readiness plan states).ready ≡ []
    → (fan_in_workflow plan states).state ≡ FanInState.succeeded
unfolding plan_workflow
plan_workflow-progress source d input states {plan} h r u none_ready =
    let long = input.objective == "" || ltb 65_536 (utf16_length input.objective) in
    let (steps, first, made) =
      >>=-eq-ok
        (validate_workflow d
          >> throw_if long objective_invalid
          >> plan_steps source input.objective input.dependency_results 0 d.steps)
        (λ steps. ok (plan_of source d input steps)) h in
    let (_, checked, planned) =
      >>=-eq-ok (validate_workflow d >> throw_if long objective_invalid) _ first in
    let (_, valid, _) =
      >>=-eq-ok (validate_workflow d) (λ _. throw_if long objective_invalid) checked in
    let m = plan_steps-Matches source input.objective input.dependency_results 0 d.steps planned in
    let same : plan_of source d input steps ≡ plan = cc made in
    validate_workflow-progress d plan states valid (subst (λ p. Matches d.steps p.steps) same m) r u
      none_ready
