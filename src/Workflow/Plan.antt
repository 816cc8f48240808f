-- ===== src/Workflow/Plan.antt =====
-- `planWorkflow` and `aggregateResults` of src/scheduler/workflows.ts.
pub mod Progress
use Prim.Native.Char.{Char, code}
use Prim.Native.String.{◌++◌}
use my_shtty_pi_herdr_deck.Base.{
  ℕ, zero, suc, ◌+◌, ◌-◌, String, Bool, true, false, not, ◌&&◌, ◌||◌, List, [], ◌∷◌, map, Option,
  none, some, if◌then◌else◌, ◌==◌, eqb, leb, ltb, any, every, includes, length, or_default, Result,
  ok, err, throw_if, ◌>>=◌, ◌>>◌,
}
use my_shtty_pi_herdr_deck.Base.Text.{codes, is_slug, is_lower, utf16_length}
use my_shtty_pi_herdr_deck.Base.Dict.{Dict, lookup}
use my_shtty_pi_herdr_deck.Base.Json.{Value, undefined, null, Fields, get}
use my_shtty_pi_herdr_deck.Workflow.Types.{
  PlannedStep, WorkflowPlan, ExecutionState, is_succeeded, is_blocked, is_cancelled, has_failed,
}
use my_shtty_pi_herdr_deck.Workflow.Engine.{ExecutionStates, WorkflowTaskView, task_view}
use my_shtty_pi_herdr_deck.Workflow.Validation.{
  WorkflowStep, WorkflowDefinition, Checked, allowed_projection, validate_workflow,
  objective_invalid, workflow_template_invalid,
}

-- `create_id kind n` is what the n-th call of `createId` (src/shared/ids.ts) gives at that time, and
-- `stringify` is `JSON.stringify`.
pub record Source : Type 0 where
  pub create_id : String → ℕ → String
  pub stringify : Value → String

pub record PlanInput : Type 0 where
  pub objective : String
  pub dry_run : Option Bool
  pub max_active_agents : Option ℕ
  pub max_tasks : Option ℕ
  pub dependency_results : Dict Fields

-- What the regular expression of `replaceTemplate` finds: `{{input.objective}}`, or
-- `{{steps.key.field}}` with the number of its characters.
pub data Match : Type 0 where
  input_objective : Match
  step_field : String → String → ℕ → Match

-- The text after a prefix.
abbrev pub after : String → String → Option String
after String.[] text = some text
after (String.◌∷◌ p prefix) String.[] = none
after (String.◌∷◌ p prefix) (String.◌∷◌ c text) =
    let rest = after prefix text in if eqb (code p) (code c) then rest else none

-- The longest run of characters that pass a test, and the text after it.
abbrev pub run : (ℕ → Bool) → String → String × String
run test String.[] = (String.[], String.[])
run test (String.◌∷◌ c text) =
    let rest = run test text in
    if test (code c) then (String.◌∷◌ c rest.0, rest.1) else (String.[], String.◌∷◌ c text)

abbrev pub is_brace : ℕ → Bool
is_brace c = eqb c b'{' || eqb c b'}'

-- `[a-z][a-z0-9_-]{0,63}`
abbrev pub is_key : List ℕ → Bool
is_key [] = false
is_key (c ∷ cs) = is_lower c && every is_slug cs && leb (length cs) 63

abbrev pub closed_field : String → String → Option String → Option Match
closed_field key field none = none
closed_field key field (some rest) =
    if field == ""
    then none
    else some (step_field key field (length (codes key) + length (codes field) + 11))

abbrev pub field_match : String → Option String → Option Match
field_match key none = none
field_match key (some text) =
    let field = run (λ c. not (is_brace c)) text in closed_field key field.0 (after "}}" field.1)

abbrev pub key_match : Option String → Option Match
key_match none = none
key_match (some text) =
    let key = run is_slug text in
    if is_key (codes key.0) then field_match key.0 (after "." key.1) else none

abbrev pub or_step : Option String → String → Option Match
or_step (some rest) text = some input_objective
or_step none text = key_match (after "{{steps." text)

-- The match that begins here.
unfoldable pub match_at : String → Option Match
match_at text = or_step (after "{{input.objective}}" text) text

abbrev pub projected : Option Fields → String → Value
projected none field = undefined
projected (some result) field = get field result

abbrev pub value_text : Source → Value → String
value_text source undefined = ""
value_text source null = ""
value_text source value = source.stringify value

-- What a match is replaced by, and its length.
unfoldable pub replacement : Source → String → Dict Fields → Match → Checked (String × ℕ)
replacement source objective results input_objective = ok (objective, 19)
replacement source objective results (step_field key field size) =
    if includes allowed_projection ("/" ++ field)
    then ok (value_text source (projected (lookup key results) field), size)
    else err workflow_template_invalid

abbrev pub one_char : Char → String
one_char c = String.◌∷◌ c String.[]

abbrev pub replaced_or : Source → String → Dict Fields → Char → Option Match → Checked (String × ℕ)
replaced_or source objective results c none = ok (one_char c, 1)
replaced_or source objective results c (some found) = replacement source objective results found

-- `template.replace`, from left to right; `skip` characters belong to the last match.
unfoldable pub replace_from : Source → String → Dict Fields → ℕ → String → Checked String
unfolding match_at replacement
replace_from source objective results skip String.[] = ok ""
replace_from source objective results (suc skip) (String.◌∷◌ c text) =
    replace_from source objective results skip text
replace_from source objective results zero (String.◌∷◌ c text) =
    replaced_or source objective results c (match_at (String.◌∷◌ c text)) >>= λ done.
    replace_from source objective results (done.1 - 1) text >>= λ rest. ok (done.0 ++ rest)

unfoldable pub replace_template : Source → String → String → Dict Fields → Checked String
unfolding replace_from
replace_template source template objective results =
    replace_from source objective results 0 template

abbrev pub planned_step : Source → ℕ → WorkflowStep → String → PlannedStep
planned_step source n step text = record {
  key = step.key;
  task_id = source.create_id "tsk" n;
  profile_id = step.profile_id;
  objective = text;
  constraints = step.constraints;
  depends_on = step.depends_on;
  isolation_mode = step.isolation_mode;
}

-- The steps, of which the next is the n-th that draws an id.
unfoldable pub plan_steps :
    Source → String → Dict Fields → ℕ → List WorkflowStep → Checked (List PlannedStep)
unfolding replace_template
plan_steps source objective results n [] = ok []
plan_steps source objective results n (step ∷ steps) =
    replace_template source step.objective_template objective results >>= λ text.
    plan_steps source objective results (suc n) steps >>= λ rest.
    ok (planned_step source n step text ∷ rest)

-- `new Set(list).size`
abbrev pub distinct : List String → ℕ
distinct [] = 0
distinct (x ∷ xs) = (if includes xs x then 0 else 1) + distinct xs

abbrev pub plan_of : Source → WorkflowDefinition → PlanInput → List PlannedStep → WorkflowPlan
plan_of source d input steps = record {
  workflow_id = source.create_id "wfl" (length steps);
  mode = d.mode;
  dry_run = or_default input.dry_run false;
  steps = steps;
  estimated_agent_count = distinct (map (λ step. step.profile_id) steps);
  max_active_agents = or_default input.max_active_agents 4;
  max_tasks = or_default input.max_tasks 8;
}

unfoldable pub plan_workflow : Source → WorkflowDefinition → PlanInput → Checked WorkflowPlan
unfolding plan_steps
plan_workflow source d input =
    validate_workflow d
    >> throw_if (input.objective == "" || ltb 65_536 (utf16_length input.objective))
        objective_invalid
    >> plan_steps source input.objective input.dependency_results 0 d.steps
    >>= λ steps. ok (plan_of source d input steps)

pub data AggregateState : Type 0 where
  succeeded failed blocked : AggregateState

pub record Aggregate : Type 0 where
  pub state : AggregateState
  pub tasks : List WorkflowTaskView

-- The states are those of an execution; a step without a result counts as queued.
abbrev pub aggregate_state : List ExecutionState → AggregateState
aggregate_state values =
    if any is_blocked values
    then blocked
    else if any (λ value. has_failed value || is_cancelled value) values
    then failed
    else if every is_succeeded values
    then succeeded
    else blocked

unfoldable pub aggregate_results : WorkflowPlan → ExecutionStates → Aggregate
aggregate_results plan results = record {
  state = aggregate_state (map (λ task. task.execution.state) (map (task_view results) plan.steps));
  tasks = map (task_view results) plan.steps;
}
