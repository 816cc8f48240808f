-- ===== src/State/Reducer/Compact.antt =====
-- `compact.delegation_scheduled` of `reduce` in src/state/reducer.ts.
pub mod Definition
pub mod Scheduled
use Definition.{has_all, sized, digest, item_count, scheduled_task}
use my_shtty_pi_herdr_deck.Base.{
  ℕ, suc, String, Bool, true, false, not, ◌&&◌, ◌||◌, List, [], ◌∷◌, map, Option, none, some,
  if◌then◌else◌, ◌==◌, ltb, leb, eqb, ok, err, length, is_some, same_text?, includes, any, every,
  or_default,
}
use my_shtty_pi_herdr_deck.Base.Text.{codes, utf16_length, utf8_length, is_digest, is_prefixed_id}
use my_shtty_pi_herdr_deck.Base.Dict.{Dict, lookup, insert}
use my_shtty_pi_herdr_deck.Base.Json.{
  Value, undefined, null, object, Items, nil, cons, Fields, end, field, get, as_text, as_record,
  as_array, is_undefined, is_text, texts, all_texts,
}
use my_shtty_pi_herdr_deck.State.Host.{Host, to_text}
use my_shtty_pi_herdr_deck.State.Types.{TaskState, Task, WorkflowState, OrchestrationState}
use my_shtty_pi_herdr_deck.State.Event.{
  ◌>>=◌, ◌>>◌, throw_if, need, OrchestratorError, corrupt, type_error, Event, Reduced, key_count,
  has_own, valid_endpoint_id, text_at,
}
use my_shtty_pi_herdr_deck.State.Reducer.Tasks.{new_task}

abbrev pub bad_schedule : OrchestratorError
bad_schedule = corrupt "Compact delegation schedule is invalid."

-- All tasks, and those that the loop made, in order.
pub record Schedule : Type 0 where
  pub tasks : Dict Task
  pub made : List Task

unfoldable pub schedule : Host → String → String → Dict Task → Items → Items → Reduced Schedule
unfolding scheduled_task
schedule host workflow parent tasks (cons definition definitions) (cons response responses) = do
  task ← scheduled_task host workflow parent tasks definition response
  rest ← schedule host workflow parent (insert task.id task tasks) definitions responses
  ok (record { tasks = rest.tasks; made = task ∷ rest.made })
schedule host workflow parent tasks _ _ = ok (record { tasks = tasks; made = [] })

abbrev pub has_duplicates : List String → Bool
has_duplicates [] = false
has_duplicates (id ∷ ids) = includes ids id || has_duplicates ids

abbrev pub task_ids : List Task → List String
task_ids made = map (λ task. task.id) made

-- Some task depends on one that is not of the schedule.
abbrev pub has_stray : List Task → Bool
has_stray made =
    any (λ task. not (every (includes (task_ids made)) (or_default task.dependencies []))) made

abbrev pub payload_keys : List String
payload_keys =
    "workflowId" ∷ "parentAgentId" ∷ "mode" ∷ "idempotencyKey" ∷ "paramsHash" ∷ "response" ∷ "tasks"
    ∷ []

abbrev pub bad_payload : Event → Bool
bad_payload e =
    not (is_text "dag" (get "mode" e.payload))
    || not (eqb (key_count e.payload) 7)
    || not (has_all payload_keys e.payload)

-- The response as a whole.
abbrev pub bad_reply : String → Fields → Bool
bad_reply workflow response =
    not (eqb (key_count response) 3)
    || not (has_all ("workflowId" ∷ "state" ∷ "tasks" ∷ []) response)
    || not (is_text workflow (get "workflowId" response))
    || not (is_text "scheduled" (get "state" response))

unfoldable pub reduce_compact_delegation_scheduled :
    Host → OrchestrationState → Event → Reduced OrchestrationState
unfolding schedule
reduce_compact_delegation_scheduled host s e = do
  workflow ← need (text_at "workflowId" e) bad_schedule
  throw_if (not (same_text? e.workflow_ref (some workflow))) bad_schedule
  throw_if (is_some (lookup workflow s.workflows)) bad_schedule
  parent ← need (text_at "parentAgentId" e) bad_schedule
  throw_if (not (is_some (lookup parent s.agents)) || bad_payload e) bad_schedule
  key ← need (sized 1 256 (text_at "idempotencyKey" e)) bad_schedule
  params_hash ← need (digest (text_at "paramsHash" e)) bad_schedule
  throw_if (is_some (lookup key s.idempotency)) bad_schedule
  definitions ← need (as_array (get "tasks" e.payload)) bad_schedule
  throw_if (ltb (item_count definitions) 1 || ltb 16 (item_count definitions)) bad_schedule
  response ← need (as_record (get "response" e.payload)) bad_schedule
  throw_if (bad_reply workflow response) bad_schedule
  replies ← need (as_array (get "tasks" response)) bad_schedule
  throw_if (not (eqb (item_count replies) (item_count definitions))) bad_schedule
  scheduled ← schedule host workflow parent s.tasks definitions replies
  throw_if (has_duplicates (task_ids scheduled.made) || has_stray scheduled.made)
      (corrupt "Compact delegation dependency correlation is invalid.")
  ok (record s {
    workflows =
        insert workflow
          (record {
            id = workflow;
            state = WorkflowState.created;
            task_ids = task_ids scheduled.made;
          })
          s.workflows;
    tasks = scheduled.tasks;
    idempotency =
        insert key
          (record {
            principal_id = e.principal_id;
            method = "compact.delegate";
            params_hash = some params_hash;
            response = object response;
          })
          s.idempotency;
  })
