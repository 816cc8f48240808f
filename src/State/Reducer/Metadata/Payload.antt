-- ===== src/State/Reducer/Metadata/Payload.antt =====
-- The payload of `herdr.metadata_projected` in `reduce` in src/state/reducer.ts.

use my_shtty_pi_herdr_deck.Base.{
  zero, suc, String, Bool, true, false, not, ◌||◌, List, [], ◌∷◌, Option, none, some, if◌then◌else◌,
  ◌==◌, leb, ok, is_some, same_text?,
}
use my_shtty_pi_herdr_deck.Base.Int.{pos}
use my_shtty_pi_herdr_deck.Base.Text.{
  codes, is_digest, is_prefixed_id, is_ref, is_error_code, utf16_length,
}
use my_shtty_pi_herdr_deck.Base.Json.{
  integer, Value, undefined, null, number, string, object, Fields, end, field, get, is_text,
}
use my_shtty_pi_herdr_deck.State.Host.{Host, to_text}
use my_shtty_pi_herdr_deck.State.Types.{HerdrMetadataState, HerdrTaskMetadata}
use my_shtty_pi_herdr_deck.State.Event.{
  ◌>>=◌, ◌>>◌, throw_if, need, OrchestratorError, corrupt, Event, Reduced, text_at,
}
use my_shtty_pi_herdr_deck.State.Canonical.{canonical_json}
use my_shtty_pi_herdr_deck.State.Reducer.Compact.Definition.{dated, sized}

abbrev pub bad_projection : OrchestratorError
bad_projection = corrupt "Herdr metadata projection is invalid."

-- `allowed` without `parentAgentId`
abbrev pub metadata_keys : List String
metadata_keys =
    "schemaVersion" ∷ "metadataId" ∷ "orchestrationId" ∷ "workflowId" ∷ "taskId" ∷ "runId"
    ∷ "agentId" ∷ "profileId" ∷ "state" ∷ "placement" ∷ "transcriptPolicy" ∷ "workspaceId" ∷ "tabId"
    ∷ "paneId" ∷ "terminalId" ∷ "piSessionRef" ∷ "startedAt" ∷ "updatedAt" ∷ "settledAt"
    ∷ "exitedAt" ∷ "transcriptRef" ∷ "resultRef" ∷ "questionRef" ∷ "errorCode" ∷ "metadataDigest"
    ∷ []

-- `states`
unfoldable pub metadata_state_of : Option String → Option HerdrMetadataState
metadata_state_of none = none
metadata_state_of (some s) =
    if s == "requested"
    then some HerdrMetadataState.requested
    else if s == "compiling"
    then some HerdrMetadataState.compiling
    else if s == "validated"
    then some HerdrMetadataState.validated
    else if s == "scheduled"
    then some HerdrMetadataState.scheduled
    else if s == "creating"
    then some HerdrMetadataState.creating
    else if s == "starting"
    then some HerdrMetadataState.starting
    else if s == "working"
    then some HerdrMetadataState.working
    else if s == "blocked"
    then some HerdrMetadataState.blocked
    else if s == "settling"
    then some HerdrMetadataState.settling
    else if s == "settled"
    then some HerdrMetadataState.settled
    else if s == "exited"
    then some HerdrMetadataState.exited
    else if s == "cleanup_pending"
    then some HerdrMetadataState.cleanup_pending
    else if s == "completed"
    then some HerdrMetadataState.completed
    else if s == "failed"
    then some HerdrMetadataState.failed
    else if s == "cancelled"
    then some HerdrMetadataState.cancelled
    else if s == "orphaned"
    then some HerdrMetadataState.orphaned
    else if s == "conflict"
    then some HerdrMetadataState.conflict
    else if s == "closed"
    then some HerdrMetadataState.closed
    else none

abbrev pub is_one : Value → Bool
is_one (number (integer (pos (suc zero)))) = true
is_one _ = false

-- `withoutDigest`
unfoldable pub without_digest : Fields → Fields
without_digest end = end
without_digest (field key value rest) =
    let others = without_digest rest in
    if key == "metadataDigest" then others else field key value others

-- One of the thirteen texts of 1 to 256 code units.
abbrev pub short_text : String → Event → Option String
short_text key e = sized 1 256 (text_at key e)

-- `null`, or a text that passes a test; `none` outside where it is neither.
abbrev pub tested : (String → Bool) → Value → Option (Option String)
tested test null = some none
tested test (string s) = if test s then some (some s) else none
tested test _ = none

-- `undefined`, or a text of at most 256 code units.
abbrev pub parent_of : Value → Option (Option String)
parent_of undefined = some none
parent_of (string s) = if leb (utf16_length s) 256 then some (some s) else none
parent_of _ = none

abbrev pub digest_ref : Option String → Bool
digest_ref none = false
digest_ref (some d) = is_digest d

-- The event refers to the same task, run, agent and workflow, and to a digest.
abbrev pub bad_refs : HerdrTaskMetadata → Event → Bool
bad_refs m e =
    not (same_text? e.task_ref (some m.task_id))
    || not (same_text? e.run_ref (some m.run_id))
    || not (same_text? e.agent_ref (some m.agent_id))
    || not (same_text? e.workflow_ref (some m.workflow_id))
    || not (digest_ref e.workflow_digest_ref)

-- The metadata that a payload holds, if they are valid. The id is the text of its value.
unfoldable pub metadata_of : Host → Event → Reduced HerdrTaskMetadata
unfolding without_digest metadata_state_of
metadata_of host e = do
  let p = e.payload
  let id = to_text (get "metadataId" p)
  throw_if (not (is_one (get "schemaVersion" p))) bad_projection
  throw_if (not (is_prefixed_id (codes "hmd_") (codes id))) bad_projection
  state ← need (metadata_state_of (text_at "state" e)) bad_projection
  throw_if
      (not (is_text "background" (get "placement" p))
        || not (is_text "retain-tab" (get "transcriptPolicy" p)))
      bad_projection
  canonical ← canonical_json host (object (without_digest p))
  throw_if (not (is_text (host.sha256 canonical) (get "metadataDigest" p))) bad_projection
  orchestration_id ← need (short_text "orchestrationId" e) bad_projection
  workflow_id ← need (short_text "workflowId" e) bad_projection
  task_id ← need (short_text "taskId" e) bad_projection
  run_id ← need (short_text "runId" e) bad_projection
  agent_id ← need (short_text "agentId" e) bad_projection
  profile_id ← need (short_text "profileId" e) bad_projection
  workspace_id ← need (short_text "workspaceId" e) bad_projection
  tab_id ← need (short_text "tabId" e) bad_projection
  pane_id ← need (short_text "paneId" e) bad_projection
  terminal_id ← need (short_text "terminalId" e) bad_projection
  pi_session_ref ← need (short_text "piSessionRef" e) bad_projection
  started_at ← need (dated host (short_text "startedAt" e)) bad_projection
  updated_at ← need (dated host (short_text "updatedAt" e)) bad_projection
  transcript_ref ← need (tested is_ref (get "transcriptRef" p)) bad_projection
  result_ref ← need (tested is_ref (get "resultRef" p)) bad_projection
  question_ref ← need (tested is_ref (get "questionRef" p)) bad_projection
  settled_at ← need (tested (λ t. is_some (host.parse_date t)) (get "settledAt" p)) bad_projection
  exited_at ← need (tested (λ t. is_some (host.parse_date t)) (get "exitedAt" p)) bad_projection
  parent_agent_id ← need (parent_of (get "parentAgentId" p)) bad_projection
  error_code ← need (tested is_error_code (get "errorCode" p)) bad_projection
  let m : HerdrTaskMetadata = record {
    metadata_id = id;
    orchestration_id = orchestration_id;
    workflow_id = workflow_id;
    task_id = task_id;
    run_id = run_id;
    agent_id = agent_id;
    parent_agent_id = parent_agent_id;
    profile_id = profile_id;
    state = state;
    workspace_id = workspace_id;
    tab_id = tab_id;
    pane_id = pane_id;
    terminal_id = terminal_id;
    pi_session_ref = pi_session_ref;
    started_at = started_at;
    updated_at = updated_at;
    settled_at = settled_at;
    exited_at = exited_at;
    transcript_ref = transcript_ref;
    result_ref = result_ref;
    question_ref = question_ref;
    error_code = error_code;
    metadata_digest = host.sha256 canonical;
  }
  throw_if (bad_refs m e) bad_projection
  ok m
