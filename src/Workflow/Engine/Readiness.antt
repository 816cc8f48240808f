-- ===== src/Workflow/Engine/Readiness.antt =====
-- `workflowReadiness` of src/scheduler/workflow-engine.ts: which steps are ready, blocked, waiting.
use my_shtty_pi_herdr_deck.Base.{
  String, Bool, true, false, not, ◌&&◌, List, [], ◌∷◌, ◌≡◌, refl, arith, any, every, filter, ap,
}
use my_shtty_pi_herdr_deck.Workflow.Types.{
  PlannedStep, WorkflowPlan, is_queued, is_succeeded, is_unsuccessful,
}
use my_shtty_pi_herdr_deck.Workflow.Engine.{
  ExecutionStates, state_of, place_step, sort_steps, workflow_readiness, WorkflowReadiness,
}

module _ (states : ExecutionStates) where
  -- A step that waits for nothing: it is queued and all that it depends on has succeeded.
  abbrev pub is_ready : PlannedStep → Bool
  is_ready step =
      is_queued (state_of states step.key)
      && every (λ key. is_succeeded (state_of states key)) step.depends_on

  -- A queued step that can never start: something it depends on ended without success.
  abbrev pub is_stuck : PlannedStep → Bool
  is_stuck step =
      is_queued (state_of states step.key)
      && any (λ key. is_unsuccessful (state_of states key)) step.depends_on

  -- Every other queued step.
  abbrev pub is_waiting : PlannedStep → Bool
  is_waiting step =
      is_queued (state_of states step.key) && not (is_ready step) && not (is_stuck step)

  succeeded_excludes :
      (keys : List String)
      → any (λ key. is_unsuccessful (state_of states key)) keys ≡ true
      → every (λ key. is_succeeded (state_of states key)) keys ≡ false
  succeeded_excludes [] h = ground (arith, h)
  succeeded_excludes (key ∷ keys) h = ground (arith, h, succeeded_excludes keys)

  sorted : List PlannedStep → WorkflowReadiness
  sorted steps = record {
    ready = filter is_ready steps;
    waiting = filter is_waiting steps;
    blocked = filter is_stuck steps;
  }

  place_step-sorted :
      (step : PlannedStep) (steps : List PlannedStep)
      → place_step states step (sorted steps) ≡ sorted (step ∷ steps)
  unfolding sorted
  place_step-sorted step steps = ground (arith, succeeded_excludes step.depends_on)

  sort_steps-sorted : (steps : List PlannedStep) → sort_steps states steps ≡ sorted steps
  unfolding sort_steps sorted
  sort_steps-sorted [] = refl
  sort_steps-sorted (step ∷ steps) = rw (sort_steps-sorted steps) (place_step-sorted step steps)

-- The three lists are the steps of the plan, in its order, that are ready (queued, everything they
-- depend on has succeeded), stuck (queued, something they depend on ended without success), and
-- waiting (queued, neither).
pub workflow_readiness-filter :
    (plan : WorkflowPlan) (states : ExecutionStates)
    → ((workflow_readiness plan states).ready ≡ filter (is_ready states) plan.steps)
      × ((workflow_readiness plan states).waiting ≡ filter (is_waiting states) plan.steps)
      × ((workflow_readiness plan states).blocked ≡ filter (is_stuck states) plan.steps)
unfolding workflow_readiness sorted
workflow_readiness-filter plan states =
    let whole = sort_steps-sorted states plan.steps in
    (ap (λ r. r.ready) whole, ap (λ r. r.waiting) whole, ap (λ r. r.blocked) whole)
