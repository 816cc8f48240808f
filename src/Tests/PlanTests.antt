-- ===== src/Tests/PlanTests.antt =====
-- `planWorkflow` of src/scheduler/workflows.ts on a valid definition.

use my_shtty_pi_herdr_deck.Base.{[], ◌∷◌, none, ◌≡◌, refl, ok, err}
use my_shtty_pi_herdr_deck.Base.Text.{utf16_length}
use my_shtty_pi_herdr_deck.Base.Dict.{lookup}
use my_shtty_pi_herdr_deck.Base.Json.{string, field, end, get}
use my_shtty_pi_herdr_deck.Workflow.Types.{WorkflowPlan}
use my_shtty_pi_herdr_deck.Workflow.Engine.{
  fan_in_workflow, workflow_readiness, sort_steps, FanInState,
}
use my_shtty_pi_herdr_deck.Workflow.Validation.{
  Checked, check_steps, visit_all, enter, visit, validate_workflow, workflow_template_invalid,
}
use my_shtty_pi_herdr_deck.Workflow.Plan.{
  Source, PlanInput, match_at, replacement, replace_from, replace_template, plan_steps,
  plan_workflow,
}
use my_shtty_pi_herdr_deck.Workflow.Plan.Progress.{plan_workflow-progress}
use my_shtty_pi_herdr_deck.Tests.WorkflowTests.{sample_definition, sample_plan, all_done}

abbrev source : Source
source = record { create_id = λ kind n. kind; stringify = λ value. "json" }

abbrev input : PlanInput
input = record {
  objective = "Goal";
  dry_run = none;
  max_active_agents = none;
  max_tasks = none;
  dependency_results = ("a", field "summary" (string "done") end) ∷ [];
}

replaced_sample :
    replace_template source "Do {{input.objective}} after {{steps.a.summary}}{{steps.b.tests}}." "X"
      input.dependency_results
    ≡ ok "Do X after json."
unfolding replace_template replace_from match_at replacement lookup get
replaced_sample = refl

refused_field : replace_template source "{{steps.a.secret}}" "X" [] ≡ err workflow_template_invalid
unfolding replace_template replace_from match_at replacement
refused_field = refl

abbrev plan_or : Checked WorkflowPlan → WorkflowPlan
plan_or (ok plan) = plan
plan_or (err error) = sample_plan

-- What the planning computes with.
planning : Unit {0}
unfolding plan_workflow plan_steps replace_template replace_from match_at replacement utf16_length
    check_steps visit_all enter visit validate_workflow
planning = tt

planned_sample :
    plan_workflow source sample_definition input
    ≡ ok (plan_or (plan_workflow source sample_definition input))
unfolding planning
planned_sample = refl

plan_workflow-progress_example :
    (fan_in_workflow (plan_or (plan_workflow source sample_definition input)) all_done).state
    ≡ FanInState.succeeded
unfolding planning workflow_readiness sort_steps lookup
plan_workflow-progress_example =
    plan_workflow-progress source sample_definition input all_done planned_sample refl refl refl
