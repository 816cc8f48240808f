-- ===== src/Deck/Relations.antt =====
-- The relations of a task and of an agent in src/deck/selections.ts, with the types of
-- src/deck/types.ts that they read.
use my_shtty_pi_herdr_deck.Base.{
  String, Bool, true, false, not, ◌&&◌, ◌||◌, List, Option, none, some, ◌==◌, same_text?, find,
  or_default,
}
use my_shtty_pi_herdr_deck.Base.Dict.{Dict, lookup, values}
use my_shtty_pi_herdr_deck.Scheduler.Admission.{Collation}
use my_shtty_pi_herdr_deck.State.Types.{TaskState, Agent, Task, Run}
use my_shtty_pi_herdr_deck.Agent.Lifecycle.{or_else, current_run}
use my_shtty_pi_herdr_deck.Deck.Selections.{sorted_by_id}

pub data DeckQuestionState : Type 0 where
  open_ answered cancelled timed_out : DeckQuestionState

pub record DeckQuestionOption : Type 0 where
  pub id : String
  pub label : String

pub record DeckQuestion : Type 0 where
  pub id : String
  pub task_id : Option String
  pub run_id : Option String
  pub agent_id : Option String
  pub prompt : String
  pub options : Option (List DeckQuestionOption)
  pub allow_freeform : Option Bool
  pub answered : Option Bool
  pub state : Option DeckQuestionState
  pub timeout_at : Option String

pub data DeckResultStatus : Type 0 where
  accepted failed missing pending : DeckResultStatus

pub record DeckResult : Type 0 where
  pub id : String
  pub task_id : Option String
  pub run_id : Option String
  pub status : DeckResultStatus
  pub summary : Option String
  pub evidence : Option (List String)
  pub findings : Option (List String)
  pub tests : Option (List String)
  pub artifacts : Option (List String)
  pub unresolved : Option (List String)

-- The maps that the relations read.
pub record DeckState : Type 0 where
  pub tasks : Dict Task
  pub runs : Dict Run
  pub questions : Dict DeckQuestion
  pub results : Dict DeckResult

-- `taskRowDependency`
pub record TaskRowDependency : Type 0 where
  pub id : String
  pub state : TaskState
  pub title : String
  pub assigned_agent_id : Option String
  pub result_id : Option String
  pub run_agent_id : Option String

abbrev pub run_agent : Option Run → Option String
run_agent none = none
run_agent (some r) = r.agent_id

unfoldable pub task_row_dependency : Task → DeckState → TaskRowDependency
task_row_dependency t s = record {
  id = t.id;
  state = t.state;
  title = t.title;
  assigned_agent_id = t.assigned_agent_id;
  result_id = t.result_id;
  run_agent_id = run_agent (current_run t.current_run_id s.runs);
}

-- The entry of an id that is there and not empty.
abbrev pub entry_of {ℓ} : {A : Type ℓ} → Option String → Dict A → Option A
entry_of none table = none
entry_of (some id) table = elim (id == "") [ true ↦ none | false ↦ lookup id table ]

-- `run && item.runId === run.id`
abbrev pub of_run : Option Run → Option String → Bool
of_run none run_id = false
of_run (some r) run_id = same_text? run_id (some r.id)

abbrev pub is_answered : Option DeckQuestionState → Bool
is_answered (some DeckQuestionState.answered) = true
is_answered _ = false

-- `!item.answered && item.state !== "answered"`
abbrev pub is_open : DeckQuestion → Bool
is_open q = not (or_default q.answered false) && not (is_answered q.state)

pub record Relation : Type 0 where
  pub run : Option Run
  pub task : Option Task
  pub result : Option DeckResult
  pub question : Option DeckQuestion

abbrev pub no_relation : Relation
no_relation = record { run = none; task = none; result = none; question = none }

abbrev pub task_relation : Collation → DeckState → Task → Option Run → Relation
task_relation c s t run = record {
  run = run;
  task = none;
  result = or_else (entry_of t.result_id s.results) (
      find (λ item. same_text? item.task_id (some t.id) || of_run run item.run_id)
        (sorted_by_id (λ r. r.id) c (values s.results)));
  question =
      find (λ item. is_open item && (same_text? item.task_id (some t.id) || of_run run item.run_id))
        (sorted_by_id (λ q. q.id) c (values s.questions));
}

-- The relation of a task has no task of its own.
unfoldable pub select_task_detail_relation : Collation → Option Task → DeckState → Relation
unfolding sorted_by_id
select_task_detail_relation c none s = no_relation
select_task_detail_relation c (some t) s = task_relation c s t (current_run t.current_run_id s.runs)

-- `task?.id` and `run?.id`
abbrev pub task_id : Option Task → Option String
task_id none = none
task_id (some t) = some t.id

abbrev pub run_id : Option Run → Option String
run_id none = none
run_id (some r) = some r.id

abbrev pub agent_task : Collation → DeckState → Agent → Option Run → Option Task
agent_task c s agent (some r) = lookup r.task_id s.tasks
agent_task c s agent none =
    find (λ t. same_text? t.assigned_agent_id (some agent.id))
      (sorted_by_id (λ t. t.id) c (values s.tasks))

-- Two ids that are both missing count as the same.
abbrev pub agent_relation : Collation → DeckState → Agent → Option Run → Option Task → Relation
agent_relation c s agent run task = record {
  run = run;
  task = task;
  result =
      find (λ item. same_text? item.task_id (task_id task) || same_text? item.run_id (run_id run))
        (sorted_by_id (λ r. r.id) c (values s.results));
  question =
      find
        (λ item.
          is_open item
          && (same_text? item.agent_id (some agent.id)
              || same_text? item.task_id (task_id task)
              || same_text? item.run_id (run_id run)))
        (sorted_by_id (λ q. q.id) c (values s.questions));
}

unfoldable pub select_agent_inspector_relation : Collation → Option Agent → DeckState → Relation
unfolding sorted_by_id
select_agent_inspector_relation c none s = no_relation
select_agent_inspector_relation c (some agent) s =
    let run = current_run agent.current_run_id s.runs in
    agent_relation c s agent run (agent_task c s agent run)
