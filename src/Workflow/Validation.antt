-- ===== src/Workflow/Validation.antt =====
-- `validateWorkflow` of src/scheduler/workflows.ts, with its depth-first search for cycles.
pub mod Search
pub mod Runnable
use my_shtty_pi_herdr_deck.Base.{
  ℕ, zero, suc, String, Bool, true, false, not, ◌&&◌, ◌||◌, List, [], ◌∷◌, Option, none, some,
  if◌then◌else◌, eqb, ltb, any, every, find, includes, length, Result, ok, err, ◌>>=◌, ◌>>◌,
  throw_if, ◌==◌,
}
use my_shtty_pi_herdr_deck.Base.Int.{ℤ, pos, negsuc, leb_ℤ}
use my_shtty_pi_herdr_deck.Workflow.Types.{WorkflowMode, IsolationMode}

pub data FailureMode : Type 0 where
  fail_fast collect_all : FailureMode

pub record WorkflowStep : Type 0 where
  pub key : String
  pub profile_id : String
  pub title : String
  pub objective_template : String
  pub constraints : List String
  pub depends_on : List String
  pub result_projection : List String
  pub isolation_mode : IsolationMode

pub record WorkflowDefinition : Type 0 where
  pub version : ℕ
  pub id : String
  pub name : String
  pub description : String
  pub mode : WorkflowMode
  pub failure_mode : FailureMode
  pub max_correction_loops : ℤ
  pub steps : List WorkflowStep

-- The errors by their messages; `fuel_spent` is the model's own.
pub data WorkflowError : Type 0 where
  workflow_invalid workflow_duplicate_step workflow_projection_invalid workflow_cycle
        workflow_dependency_missing workflow_single_arity workflow_correction_limit
        objective_invalid workflow_template_invalid fuel_spent :
      WorkflowError

abbrev pub allowed_projection : List String
allowed_projection =
    "/summary" ∷ "/findings" ∷ "/changedFiles" ∷ "/tests" ∷ "/unresolved" ∷ "/recommendedNextAction"
    ∷ []

abbrev pub Checked : Type 0 → Type 0
Checked A = Result WorkflowError A

-- The first loop, with the keys so far.
unfoldable pub check_steps : List String → List WorkflowStep → Checked (Unit {0})
check_steps keys [] = ok tt
check_steps keys (step ∷ steps) = do
  throw_if (includes keys step.key) workflow_duplicate_step
  throw_if (any (λ item. not (includes allowed_projection item)) step.result_projection)
      workflow_projection_invalid
  check_steps (step.key ∷ keys) steps

-- The set of visited keys, from visit to visit.
unfoldable pub visit_all :
    (List String → String → Checked (List String))
    → List String
    → List String
    → Checked (List String)
visit_all visit_one visited [] = ok visited
visit_all visit_one visited (key ∷ keys) = do
  later ← visit_one visited key
  visit_all visit_one later keys

-- `visit`, from the search for the step on.
unfoldable pub enter :
    (List String → String → Checked (List String))
    → List String
    → String
    → Option WorkflowStep
    → Checked (List String)
unfolding visit_all
enter visit_one visited key none = err workflow_dependency_missing
enter visit_one visited key (some step) = do
  later ← visit_all visit_one visited step.depends_on
  ok (key ∷ later)

abbrev pub step_for : List WorkflowStep → String → Option WorkflowStep
step_for steps key = find (λ item. item.key == key) steps

-- `visit`, with fuel for the depth; the keys on the way here are `visiting`.
unfoldable pub visit :
    ℕ → List WorkflowStep → List String → List String → String → Checked (List String)
unfolding enter
visit zero steps visiting visited key = err fuel_spent
visit (suc n) steps visiting visited key =
    if includes visiting key
    then err workflow_cycle
    else if includes visited key
    then ok visited
    else enter (visit n steps (key ∷ visiting)) visited key (step_for steps key)

abbrev pub is_single : WorkflowMode → Bool
is_single WorkflowMode.single = true
is_single _ = false

-- The keys of the steps.
abbrev pub keys_of : List WorkflowStep → List String
keys_of [] = []
keys_of (step ∷ steps) = step.key ∷ keys_of steps

unfoldable pub validate_workflow : WorkflowDefinition → Checked (Unit {0})
unfolding check_steps visit visit_all
validate_workflow d = do
  throw_if (not (eqb d.version 1) || eqb (length d.steps) 0 || ltb 32 (length d.steps))
      workflow_invalid
  check_steps [] d.steps
  visited ← visit_all (visit (suc (length d.steps)) d.steps []) [] (keys_of d.steps)
  throw_if (is_single d.mode && not (eqb (length d.steps) 1)) workflow_single_arity
  throw_if
      (not (leb_ℤ (pos 0) d.max_correction_loops) || not (leb_ℤ d.max_correction_loops (pos 3)))
      workflow_correction_limit
