-- ===== src/State/History.antt =====
-- What later events may not change in a table of the state (src/state/reducer.ts keeps all of it).
use my_shtty_pi_herdr_deck.Base.{
  String, true, false, List, Option, none, some, ◌≡◌, refl, ap, ◌∙◌, Bool-cases, inl, inr, ◌==◌,
  eq_iff,
}
use my_shtty_pi_herdr_deck.Base.Dict.{Dict, lookup, insert, lookup-insert}
use my_shtty_pi_herdr_deck.Base.Json.{Number}
use my_shtty_pi_herdr_deck.State.Types.{
  Task, Run, QuestionRecord, IsolationMode, OrchestrationState,
}
use my_shtty_pi_herdr_deck.State.Reducer.Results.{is_open}

-- Every entry is still there, changed at most as `R` allows.
abbrev pub Grows {ℓ κ} : {V : Type ℓ} → (V → V → Type κ) → Dict V → Dict V → Type (ℓ ⊔ κ)
Grows {V = V} R m m' =
    (k : String) (v : V) → lookup k m ≡ some v → (v' : V) × (lookup k m' ≡ some v') × R v v'

module _ {ℓ κ} {V : Type ℓ} (R : V → V → Type κ) (R-refl : (v : V) → R v v) where
  pub Grows-refl : (m : Dict V) → Grows R m m
  Grows-refl m k v at = (v, at, R-refl v)

  -- An entry is written that replaces what stands under its key as `R` allows.
  pub Grows-insert :
      (m : Dict V) (id : String) (new : V)
      → ((old : V) → lookup id m ≡ some old → R old new)
      → Grows R m (insert id new m)
  Grows-insert m id new related k v at = elim (Bool-cases (id == k)) [
    | inl e ↦
        let here : id ≡ k = (eq_iff id k).0 e in
        (new, lookup-insert id k new m ∙ rw e, related v (ap (λ i. lookup i m) here ∙ at))
    | inr e ↦ (v, lookup-insert id k new m ∙ (rw e at), R-refl v)
  ]

pub Grows-trans {ℓ κ} :
    {V : Type ℓ} (R : V → V → Type κ)
    → ((a b c : V) → R a b → R b c → R a c)
    → (m m' m'' : Dict V) → Grows R m m'
    → Grows R m' m''
    → Grows R m m''
Grows-trans R R-trans m m' m'' first second k v at =
    let (v', at', r) = first k v at in
    let (v'', at'', r') = second k v' at' in (v'', at'', R-trans v v' v'' r r')

-- What a task is: its request, its place and its deadline.
pub record TaskIdentity : Type 0 where
  pub id : String
  pub title : String
  pub objective : String
  pub created_at : String
  pub parent_agent_id : Option String
  pub workflow_id : Option String
  pub profile_id : Option String
  pub isolation_mode : Option IsolationMode
  pub constraints : Option (List String)
  pub dependencies : Option (List String)
  pub timeout_at : Option String

abbrev pub task_identity : Task → TaskIdentity
task_identity t = record {
  id = t.id;
  title = t.title;
  objective = t.objective;
  created_at = t.created_at;
  parent_agent_id = t.parent_agent_id;
  workflow_id = t.workflow_id;
  profile_id = t.profile_id;
  isolation_mode = t.isolation_mode;
  constraints = t.constraints;
  dependencies = t.dependencies;
  timeout_at = t.timeout_at;
}

-- What no event changes in a run; its assignment id and its agent may change.
pub record RunIdentity : Type 0 where
  pub id : String
  pub task_id : String
  pub assignment_generation : Number
  pub endpoint_id : Option String
  pub started_at : Option String
  pub timeout_at : Option String

abbrev pub run_identity : Run → RunIdentity
run_identity r = record {
  id = r.id;
  task_id = r.task_id;
  assignment_generation = r.assignment_generation;
  endpoint_id = r.endpoint_id;
  started_at = r.started_at;
  timeout_at = r.timeout_at;
}

abbrev pub SameTask : Task → Task → Type 0
SameTask t t' = task_identity t' ≡ task_identity t

abbrev pub SameRun : Run → Run → Type 0
SameRun r r' = run_identity r' ≡ run_identity r

-- A question that was answered or closed stays as it is.
abbrev pub SettledStays : QuestionRecord → QuestionRecord → Type 0
SettledStays q q' = is_open q.state ≡ false → q' ≡ q

SettledStays-trans :
    (a b c : QuestionRecord) → SettledStays a b → SettledStays b c → SettledStays a c
SettledStays-trans a b c first second over =
    let same : b ≡ a = first over in second (ap (λ q. is_open q.state) same ∙ over) ∙ same

-- No task, run or question is lost; tasks and runs keep their identity, and a question that was
-- answered or closed stays as it is.
pub record Extends (s s' : OrchestrationState) : Type 0 where
  pub tasks_kept : Grows SameTask s.tasks s'.tasks
  pub runs_kept : Grows SameRun s.runs s'.runs
  pub questions_kept : Grows SettledStays s.questions s'.questions

pub same_tasks : (s : OrchestrationState) → Grows SameTask s.tasks s.tasks
same_tasks s = Grows-refl SameTask (λ t. refl) s.tasks

pub same_runs : (s : OrchestrationState) → Grows SameRun s.runs s.runs
same_runs s = Grows-refl SameRun (λ r. refl) s.runs

pub same_questions : (s : OrchestrationState) → Grows SettledStays s.questions s.questions
same_questions s = Grows-refl SettledStays (λ q over. refl) s.questions

pub Extends-refl : (s : OrchestrationState) → Extends s s
Extends-refl s = record {
  tasks_kept = same_tasks s;
  runs_kept = same_runs s;
  questions_kept = same_questions s;
}

pub Extends-trans : (a b c : OrchestrationState) → Extends a b → Extends b c → Extends a c
Extends-trans a b c first second = record {
  tasks_kept =
      Grows-trans SameTask (λ _ _ _ p q. q ∙ p) a.tasks b.tasks c.tasks first.tasks_kept
        second.tasks_kept;
  runs_kept =
      Grows-trans SameRun (λ _ _ _ p q. q ∙ p) a.runs b.runs c.runs first.runs_kept
        second.runs_kept;
  questions_kept =
      Grows-trans SettledStays SettledStays-trans a.questions b.questions c.questions
        first.questions_kept second.questions_kept;
}

-- A task is written again with its identity.
pub put_task :
    (tasks : Dict Task) (id : String) {old : Task} (new : Task)
    → lookup id tasks ≡ some old
    → task_identity new ≡ task_identity old
    → Grows SameTask tasks (insert id new tasks)
put_task tasks id {old} new at same =
    Grows-insert SameTask (λ t. refl) tasks id new
      (λ other there. let one : old ≡ other = cc (at, there) in same ∙ ap task_identity one)

pub put_run :
    (runs : Dict Run) (id : String) {old : Run} (new : Run)
    → lookup id runs ≡ some old
    → run_identity new ≡ run_identity old
    → Grows SameRun runs (insert id new runs)
put_run runs id {old} new at same =
    Grows-insert SameRun (λ r. refl) runs id new
      (λ other there. let one : old ≡ other = cc (at, there) in same ∙ ap run_identity one)

-- A question that is open is written again.
pub put_question :
    (questions : Dict QuestionRecord) (id : String) {old : QuestionRecord} (new : QuestionRecord)
    → lookup id questions ≡ some old
    → is_open old.state ≡ true
    → Grows SettledStays questions (insert id new questions)
put_question questions id {old} new at open_yet =
    Grows-insert SettledStays (λ q over. refl) questions id new
      (λ other there over.
        let one : old ≡ other = cc (at, there) in
        let closed : is_open old.state ≡ false = ap (λ q. is_open q.state) one ∙ over in
        absurd (cc (open_yet, closed)))

-- An entry is added under a key that is free.
pub add_fresh {ℓ κ} :
    {V : Type ℓ} (R : V → V → Type κ) (R-refl : (v : V) → R v v) (m : Dict V) (id : String)
    (new : V)
    → lookup id m ≡ none
    → Grows R m (insert id new m)
add_fresh R R-refl m id new free =
    Grows-insert R R-refl m id new (λ old there. absurd (cc (free, there)))

-- A state with other agents, results, workflows and the like.
pub untouched :
    (s s' : OrchestrationState)
    → s'.tasks ≡ s.tasks
    → s'.runs ≡ s.runs
    → s'.questions ≡ s.questions
    → Extends s s'
untouched s s' t r q = record {
  tasks_kept = rw t (same_tasks s);
  runs_kept = rw r (same_runs s);
  questions_kept = rw q (same_questions s);
}
