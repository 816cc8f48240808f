-- ===== src/Tests/DelegationTests.antt =====
-- A delegation of two tasks and the metadata of one, for src/state/reducer.ts.
use my_shtty_pi_herdr_deck.Base.{String, [], ◌∷◌, map, some, ◌≡◌, refl, ok, err}
use my_shtty_pi_herdr_deck.Base.Dict.{lookup, insert}
use my_shtty_pi_herdr_deck.Base.Json.{
  Value, string, array, object, null, Items, nil, cons, Fields, end, field, get, texts, all_texts,
}
use my_shtty_pi_herdr_deck.State.Types.{OrchestrationState}
use my_shtty_pi_herdr_deck.State.Event.{
  Event, EventType, Reduced, need, throw_if, ◌>>=◌, key_count, has_own,
}
use my_shtty_pi_herdr_deck.State.Reducer.{empty_state}
use my_shtty_pi_herdr_deck.State.Reducer.Compact.{reduce_compact_delegation_scheduled, schedule}
use my_shtty_pi_herdr_deck.State.Reducer.Compact.Scheduled.{IsScheduled, compact-IsScheduled}
use my_shtty_pi_herdr_deck.State.Reducer.Compact.Definition.{
  scheduled_task, definition_fields, only_keys,
}
use my_shtty_pi_herdr_deck.State.Host.{to_text}
use my_shtty_pi_herdr_deck.Base.Text.{is_prefixed_id, is_digest, utf16_length, utf8_length}
use my_shtty_pi_herdr_deck.Tests.StateTests.{host, event}
use my_shtty_pi_herdr_deck.Tests.AgentTests.{idle_agent}

abbrev texts_field : String → String → Fields → Fields
texts_field key text rest = field key (string text) rest

abbrev pub hex : String
hex = "0123456789abcdef0123456789abcdef0123456789abcdef0123456789abcdef"

abbrev pub sample_compact : Value
sample_compact =
    object
      (field "workflowDigest" (string hex) (field "transcriptPolicy" (string "retain-tab") end))

abbrev sample_project : Value
sample_project = object (
    field "cwd" (string "/w") (
      field "workspaceId" (string "ws") (
        field "isolation" null (
          field "requestedSpawnPolicy" null (
            field "effectiveSpawnPolicy" null
              (field "modelPolicyHash" (string "h") (field "compact" sample_compact end)))))))

abbrev definition : String → Items → Value
definition id dependencies = object (
    field "taskId" (string id) (
      field "title" (string "Title") (
        field "objective" (string "Goal") (
          field "createdAt" (string "now") (
            field "parentAgentId" (string "a1") (
              field "workflowId" (string "w1") (
                field "profileId" (string "scout") (
                  field "dependencies" (array dependencies) (
                    field "project" sample_project (field "timeoutAt" (string "later") end))))))))))

abbrev reply : String → Value
reply id =
    object
      (field "key" (string "k") (field "taskId" (string id) (field "state" (string "queued") end)))

abbrev response : Value
response = object (
    field "workflowId" (string "w1") (
      field "state" (string "scheduled")
        (field "tasks" (array (cons (reply "tsk_1") (cons (reply "tsk_2") nil))) end)))

abbrev delegation : Event
delegation =
    record (event EventType.compact_delegation_scheduled (
      field "workflowId" (string "w1") (
        field "parentAgentId" (string "a1") (
          field "mode" (string "dag") (
            field "idempotencyKey" (string "key") (
              field "paramsHash" (string hex) (
                field "response" response (
                  field "tasks"
                    (array (
                      cons (definition "tsk_1" nil)
                        (cons (definition "tsk_2" (cons (string "tsk_1") nil)) nil)))
                    end)))))))) { workflow_ref = some "w1" }

abbrev with_parent : OrchestrationState
with_parent = record empty_state { agents = ("a1", idle_agent) ∷ [] }

abbrev reduced : Reduced OrchestrationState → OrchestrationState
reduced (ok s) = s
reduced (err error) = empty_state

delegated_tasks :
    map
      (λ entry. entry.0)
      (reduced (reduce_compact_delegation_scheduled host with_parent delegation)).tasks
    ≡ "tsk_1" ∷ "tsk_2" ∷ []
unfolding reduce_compact_delegation_scheduled schedule scheduled_task definition_fields
    is_prefixed_id only_keys key_count has_own get texts all_texts is_digest utf16_length
    utf8_length to_text lookup insert need throw_if ◌>>=◌
delegated_tasks = refl

accepted_delegation :
    reduce_compact_delegation_scheduled host with_parent delegation
    ≡ ok (reduced (reduce_compact_delegation_scheduled host with_parent delegation))
unfolding reduce_compact_delegation_scheduled schedule scheduled_task definition_fields
    is_prefixed_id only_keys key_count has_own get texts all_texts is_digest utf16_length
    utf8_length to_text lookup insert need throw_if ◌>>=◌
accepted_delegation = refl

compact-IsScheduled_example :
    IsScheduled with_parent delegation
      (reduced (reduce_compact_delegation_scheduled host with_parent delegation))
compact-IsScheduled_example = compact-IsScheduled host with_parent delegation accepted_delegation
