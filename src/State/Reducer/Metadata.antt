-- ===== src/State/Reducer/Metadata.antt =====
-- `herdr.metadata_projected` of `reduce` in src/state/reducer.ts.
pub mod Payload
pub mod Single
use Payload.{metadata_keys, metadata_of}
use Prim.Native.String.{◌++◌}
use my_shtty_pi_herdr_deck.Base.{
  ℕ, zero, suc, String, Bool, true, false, not, ◌&&◌, ◌||◌, List, [], ◌∷◌, Option, none, some,
  if◌then◌else◌, ◌==◌, leb, ok, is_some, same_text?, includes, any, every,
}
use my_shtty_pi_herdr_deck.Base.Int.{pos}
use my_shtty_pi_herdr_deck.Base.Text.{
  codes, prefix, is_digest, is_prefixed_id, is_ref, is_error_code, utf16_length,
}
use my_shtty_pi_herdr_deck.Base.Dict.{Dict, lookup, insert, values}
use my_shtty_pi_herdr_deck.Base.Json.{
  Number, integer, Value, undefined, null, number, string, object, Fields, end, field, get, as_text,
  as_record, as_integer, is_text,
}
use my_shtty_pi_herdr_deck.State.Host.{Host, to_text}
use my_shtty_pi_herdr_deck.State.Types.{
  Task, Run, ResultRecord, QuestionRecord, HerdrResource, HerdrMetadataState, HerdrTaskMetadata,
  OrchestrationState,
}
use my_shtty_pi_herdr_deck.State.Event.{
  ◌>>=◌, ◌>>◌, throw_if, need, OrchestratorError, corrupt, Event, Reduced, text_at,
}
use my_shtty_pi_herdr_deck.State.Canonical.{canonical_json}
use my_shtty_pi_herdr_deck.State.Reducer.Tasks.{nonempty}
use my_shtty_pi_herdr_deck.State.Reducer.Compact.Definition.{has_all, only_keys, dated, sized}

abbrev pub bad_fields : OrchestratorError
bad_fields = corrupt "Herdr metadata fields are not exact."

abbrev pub bad_correlation : OrchestratorError
bad_correlation = corrupt "Herdr metadata correlation is invalid."

-- The task's `project.compact` has the policy and the digest.
abbrev pub compact_of : Option Fields → Option Fields
compact_of none = none
compact_of (some project) = as_record (get "compact" project)

abbrev pub same_compact : Option String → Option Fields → Bool
same_compact digest none = false
same_compact digest (some compact) =
    is_text "retain-tab" (get "transcriptPolicy" compact)
    && same_text? (as_text (get "workflowDigest" compact)) digest

abbrev pub good_task : HerdrTaskMetadata → Event → Task → Bool
good_task m e task =
    same_text? task.workflow_id (some m.workflow_id)
    && same_text? task.profile_id (some m.profile_id)
    && same_text? task.parent_agent_id m.parent_agent_id
    && same_compact e.workflow_digest_ref (compact_of task.project)

abbrev pub same_session : Host → HerdrTaskMetadata → Option String → Bool
same_session host m none = false
same_session host m (some session) = "pis_" ++ prefix 26 (host.sha256 session) == m.pi_session_ref

abbrev pub good_resource : Host → HerdrTaskMetadata → HerdrResource → Bool
good_resource host m r =
    r.agent_id == m.agent_id
    && same_text? r.workspace_id (some m.workspace_id)
    && same_text? r.tab_id (some m.tab_id)
    && same_text? r.pane_id (some m.pane_id)
    && same_text? r.terminal_id (some m.terminal_id)
    && same_session host m (nonempty r.session_id)

-- The result or the question that is referred to, if any, is of the same task, run and agent.
abbrev pub same_work : HerdrTaskMetadata → String → String → String → Bool
same_work m task_id run_id agent_id =
    task_id == m.task_id && run_id == m.run_id && agent_id == m.agent_id

abbrev pub result_of_work : HerdrTaskMetadata → Option ResultRecord → Bool
result_of_work m none = false
result_of_work m (some r) = same_work m r.task_id r.run_id r.agent_id

abbrev pub question_of_work : HerdrTaskMetadata → Option QuestionRecord → Bool
question_of_work m none = false
question_of_work m (some q) = same_work m q.task_id q.run_id q.agent_id

abbrev pub good_result : HerdrTaskMetadata → Dict ResultRecord → Option String → Bool
good_result m results none = true
good_result m results (some id) = result_of_work m (lookup id results)

abbrev pub good_question : HerdrTaskMetadata → Dict QuestionRecord → Option String → Bool
good_question m questions none = true
good_question m questions (some id) = question_of_work m (lookup id questions)

-- Other metadata are there for the same run.
abbrev pub run_taken : HerdrTaskMetadata → List HerdrTaskMetadata → Bool
run_taken m items =
    any (λ item. not (item.metadata_id == m.metadata_id) && item.run_id == m.run_id) items

unfoldable pub correlated :
    Host → OrchestrationState → Event → HerdrTaskMetadata → Reduced (Unit {0})
correlated host s e m = do
  workflow ← need (lookup m.workflow_id s.workflows) bad_correlation
  throw_if (not (includes workflow.task_ids m.task_id)) bad_correlation
  task ← need (lookup m.task_id s.tasks) bad_correlation
  throw_if (not (good_task m e task)) bad_correlation
  run ← need (lookup m.run_id s.runs) bad_correlation
  throw_if (not (run.task_id == m.task_id) || not (same_text? run.agent_id (some m.agent_id)))
      bad_correlation
  throw_if (not (is_some (lookup m.agent_id s.agents))) bad_correlation
  resource ← need (lookup m.agent_id s.herdr_resources) bad_correlation
  throw_if (not (good_resource host m resource)) bad_correlation
  throw_if
      (not (good_result m s.results m.result_ref)
        || not (good_question m s.questions m.question_ref))
      bad_correlation
  throw_if (run_taken m (values s.herdr_metadata)) bad_correlation

-- `terminal`
abbrev pub is_final : HerdrMetadataState → Bool
is_final HerdrMetadataState.completed = true
is_final HerdrMetadataState.failed = true
is_final HerdrMetadataState.cancelled = true
is_final HerdrMetadataState.orphaned = true
is_final HerdrMetadataState.conflict = true
is_final HerdrMetadataState.closed = true
is_final _ = false

-- The states that may follow: after a final one itself, `cleanup_pending` and `closed`, and after
-- `cleanup_pending` itself, `closed` and `conflict`.
abbrev pub may_follow : HerdrMetadataState → HerdrMetadataState → Bool
may_follow HerdrMetadataState.completed HerdrMetadataState.completed = true
may_follow HerdrMetadataState.failed HerdrMetadataState.failed = true
may_follow HerdrMetadataState.cancelled HerdrMetadataState.cancelled = true
may_follow HerdrMetadataState.orphaned HerdrMetadataState.orphaned = true
may_follow HerdrMetadataState.conflict HerdrMetadataState.conflict = true
may_follow HerdrMetadataState.cleanup_pending HerdrMetadataState.conflict = true
may_follow _ HerdrMetadataState.cleanup_pending = true
may_follow _ HerdrMetadataState.closed = true
may_follow HerdrMetadataState.cleanup_pending _ = false
may_follow old new = not (is_final old)

abbrev pub changed : HerdrTaskMetadata → Option HerdrTaskMetadata → Bool
changed m none = false
changed m (some current) =
    not (current.task_id == m.task_id)
    || not (current.run_id == m.run_id)
    || not (current.agent_id == m.agent_id)
    || not (may_follow current.state m.state)

unfoldable pub reduce_herdr_metadata_projected :
    Host → OrchestrationState → Event → Reduced OrchestrationState
unfolding metadata_of correlated
reduce_herdr_metadata_projected host s e = do
  throw_if
      (not (only_keys ("parentAgentId" ∷ metadata_keys) e.payload)
        || not (has_all metadata_keys e.payload))
      bad_fields
  m ← metadata_of host e
  correlated host s e m
  throw_if (changed m (lookup m.metadata_id s.herdr_metadata))
      (corrupt "Herdr metadata identity or terminal state changed.")
  ok (record s { herdr_metadata = insert m.metadata_id m s.herdr_metadata })
