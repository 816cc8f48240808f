-- ===== src/State/Reducer/Results.antt =====
-- The result and question events of `reduce` in src/state/reducer.ts.
use my_shtty_pi_herdr_deck.Base.{
  String, Bool, true, false, not, Option, none, some, if◌then◌else◌, ok,
}
use my_shtty_pi_herdr_deck.Base.Dict.{Dict, lookup, insert}
use my_shtty_pi_herdr_deck.Base.Json.{Value, get, as_object, is_true, is_text}
use my_shtty_pi_herdr_deck.State.Host.{to_text}
use my_shtty_pi_herdr_deck.State.Types.{
  Task, Run, ResultStatus, QuestionState, open_, answered, OrchestrationState,
}
use my_shtty_pi_herdr_deck.State.Event.{
  ◌>>=◌, ◌>>◌, throw_if, Event, EventType, question_cancelled, corrupt, Reduced, need, override,
  text_at, integer_at, has_own,
}
use my_shtty_pi_herdr_deck.State.Reducer.Tasks.{nonempty, unusable}

abbrev pub status_of : Value → ResultStatus
status_of v =
    if is_text "failed" v
    then ResultStatus.failed
    else if is_text "cancelled" v
    then ResultStatus.cancelled
    else ResultStatus.succeeded

-- `Object.hasOwn(p, key) ? { key: p.key } : {}`
abbrev pub own_value : String → Event → Option Value
own_value k e = if has_own k e.payload then some (get k e.payload) else none

abbrev pub link_task : String → Dict Task → Option Task → Dict Task
link_task id tasks none = tasks
link_task id tasks (some task) = insert task.id (record task { result_id = some id }) tasks

abbrev pub link_run : String → Dict Run → Option Run → Dict Run
link_run id runs none = runs
link_run id runs (some run) = insert run.id (record run { result_id = some id }) runs

unfoldable pub reduce_result_published : OrchestrationState → Event → Reduced OrchestrationState
reduce_result_published s e = do
  let id = to_text (get "resultId" e.payload)
  throw_if (unusable id s.results) (corrupt "Result already exists or has no ID.")
  task_id ← need (nonempty e.task_ref) (corrupt "Result correlation is invalid.")
  run_id ← need (nonempty e.run_ref) (corrupt "Result correlation is invalid.")
  agent_id ← need (nonempty e.agent_ref) (corrupt "Result correlation is invalid.")
  payload_hash ← need (text_at "payloadHash" e) (corrupt "Result correlation is invalid.")
  ok (record s {
    results =
        insert id
          (record {
            id = id;
            task_id = task_id;
            run_id = run_id;
            agent_id = agent_id;
            status = status_of (get "status" e.payload);
            payload_hash = payload_hash;
            pi_settled = is_true (get "piSettled" e.payload);
            assignment_generation = integer_at "assignmentGeneration" e;
            payload = own_value "payload" e;
            validation = as_object (get "validation" e.payload);
            published_at = text_at "publishedAt" e;
          })
          s.results;
    tasks = link_task id s.tasks (lookup task_id s.tasks);
    runs = link_run id s.runs (lookup run_id s.runs);
  })

unfoldable pub reduce_result_validated : OrchestrationState → Event → Reduced OrchestrationState
reduce_result_validated s e = do
  id ← need (nonempty e.result_ref) (corrupt "Result validation has no result.")
  result ← need (lookup id s.results) (corrupt "Result validation has no result.")
  ok (record s {
    results =
        insert id (record result { pi_settled = is_true (get "piSettled" e.payload) }) s.results;
  })

unfoldable pub reduce_question_opened : OrchestrationState → Event → Reduced OrchestrationState
reduce_question_opened s e = do
  let id = to_text (get "questionId" e.payload)
  throw_if (unusable id s.questions) (corrupt "Question already exists or has no ID.")
  task_id ← need (nonempty e.task_ref) (corrupt "Question correlation is invalid.")
  run_id ← need (nonempty e.run_ref) (corrupt "Question correlation is invalid.")
  agent_id ← need (nonempty e.agent_ref) (corrupt "Question correlation is invalid.")
  ok (record s {
    questions =
        insert id
          (record {
            id = id;
            task_id = task_id;
            run_id = run_id;
            agent_id = agent_id;
            state = open_;
            assignment_generation = integer_at "assignmentGeneration" e;
            tool_call_id = text_at "toolCallId" e;
            payload = own_value "payload" e;
            asked_at = text_at "askedAt" e;
            answered_at = none;
            answered_by = none;
            answer = none;
          })
          s.questions;
  })

abbrev pub is_open : QuestionState → Bool
is_open open_ = true
is_open _ = false

unfoldable pub reduce_question_answered : OrchestrationState → Event → Reduced OrchestrationState
reduce_question_answered s e = do
  id ← need (nonempty e.question_ref) (corrupt "Question answer is not valid.")
  q ← need (lookup id s.questions) (corrupt "Question answer is not valid.")
  throw_if (not (is_open q.state)) (corrupt "Question answer is not valid.")
  ok (record s {
    questions =
        insert id
          (record q {
            state = answered;
            answered_by = override (text_at "answeredBy" e) q.answered_by;
            answered_at = override (text_at "answeredAt" e) q.answered_at;
            answer = override (as_object (get "answer" e.payload)) q.answer;
          })
          s.questions;
  })

abbrev pub closing_message : EventType → String
closing_message question_cancelled = "Question cancellation is not valid."
closing_message _ = "Question timeout is not valid."

abbrev pub closing_state : EventType → QuestionState
closing_state question_cancelled = QuestionState.cancelled
closing_state _ = QuestionState.timed_out

-- `question.timed_out` and `question.cancelled`.
unfoldable pub reduce_question_closed : OrchestrationState → Event → Reduced OrchestrationState
reduce_question_closed s e = do
  id ← need (nonempty e.question_ref) (corrupt (closing_message e.type))
  q ← need (lookup id s.questions) (corrupt (closing_message e.type))
  throw_if (not (is_open q.state)) (corrupt (closing_message e.type))
  ok (record s { questions = insert id (record q { state = closing_state e.type }) s.questions })
