-- ===== src/Tests/MetadataTests.antt =====
-- A projection of Herdr metadata, for src/state/reducer.ts.
use my_shtty_pi_herdr_deck.Base.{String, false, List, [], ◌∷◌, none, some, ◌≡◌, refl, ok, err}
use my_shtty_pi_herdr_deck.Base.Dict.{lookup, insert}
use my_shtty_pi_herdr_deck.Base.Int.{pos}
use my_shtty_pi_herdr_deck.Base.Json.{integer, number, string, null, Fields, end, field, get}
use my_shtty_pi_herdr_deck.Base.Text.{
  is_prefixed_id, is_digest, is_ref, is_error_code, utf16_length,
}
use my_shtty_pi_herdr_deck.State.Host.{to_text, number_text}
use my_shtty_pi_herdr_deck.State.Types.{
  Task, Run, RunState, WorkflowState, HerdrResource, OrchestrationState,
}
use my_shtty_pi_herdr_deck.State.Event.{Event, EventType, Reduced, need, throw_if, ◌>>=◌, has_own}
use my_shtty_pi_herdr_deck.State.Canonical.{canonical_json, comma_joined}
use my_shtty_pi_herdr_deck.State.Reducer.{empty_state, dispatch, reduce, replay}
use my_shtty_pi_herdr_deck.State.Reducer.Tasks.{new_task}
use my_shtty_pi_herdr_deck.State.Reducer.Resources.{new_resource}
use my_shtty_pi_herdr_deck.State.Reducer.Compact.Definition.{only_keys}
use my_shtty_pi_herdr_deck.State.Reducer.Metadata.Payload.{
  metadata_of, metadata_state_of, without_digest,
}
use my_shtty_pi_herdr_deck.State.Reducer.Metadata.{correlated, reduce_herdr_metadata_projected}
use my_shtty_pi_herdr_deck.State.Reducer.Metadata.Single.{IsSingle}
use my_shtty_pi_herdr_deck.State.Reducer.Single.{replay-IsSingle}
use my_shtty_pi_herdr_deck.Tests.StateTests.{host, event}
use my_shtty_pi_herdr_deck.Tests.AgentTests.{idle_agent}
use my_shtty_pi_herdr_deck.Tests.DelegationTests.{hex, sample_compact}

abbrev texts_before : List (String × String) → Fields → Fields
texts_before [] rest = rest
texts_before ((key, text) ∷ more) rest = field key (string text) (texts_before more rest)

abbrev nulls : List String → Fields
nulls [] = end
nulls (key ∷ keys) = field key null (nulls keys)

abbrev payload : Fields
payload = field "schemaVersion" (number (integer (pos 1))) (
    texts_before
      (("metadataId", "hmd_1")
        ∷ ("orchestrationId", "o1")
        ∷ ("workflowId", "w1")
        ∷ ("taskId", "t1")
        ∷ ("runId", "r1")
        ∷ ("agentId", "a1")
        ∷ ("profileId", "scout")
        ∷ ("state", "working")
        ∷ ("placement", "background")
        ∷ ("transcriptPolicy", "retain-tab")
        ∷ ("workspaceId", "ws")
        ∷ ("tabId", "tab")
        ∷ ("paneId", "pane")
        ∷ ("terminalId", "term")
        ∷ ("piSessionRef", "pis_digest")
        ∷ ("startedAt", "now")
        ∷ ("updatedAt", "now")
        ∷ ("metadataDigest", "digest")
        ∷ [])
      (nulls (
        "settledAt" ∷ "exitedAt" ∷ "transcriptRef" ∷ "resultRef" ∷ "questionRef" ∷ "errorCode"
        ∷ [])))

abbrev projection : Event
projection = record (event EventType.herdr_metadata_projected payload) {
  task_ref = some "t1";
  run_ref = some "r1";
  agent_ref = some "a1";
  workflow_ref = some "w1";
  workflow_digest_ref = some hex;
}

abbrev task : Task
task = record (new_task "t1" "Title" "Goal" "now") {
  workflow_id = some "w1";
  profile_id = some "scout";
  project = some (field "compact" sample_compact end);
}

abbrev run : Run
run = record {
  id = "r1";
  task_id = "t1";
  state = RunState.working;
  agent_id = some "a1";
  agent_generation = none;
  assignment_id = none;
  assignment_delivery_state = none;
  assignment_connection_generation = none;
  assignment_generation = integer (pos 1);
  endpoint_id = none;
  agent_cycle_id = none;
  first_turn_index = none;
  pi_session_id = none;
  terminal_id = none;
  started_at = none;
  terminal_at = none;
  settled = false;
  result_recovery_count = none;
  result_id = none;
  timeout_at = none;
  terminal_reason = none;
  cancelled = none;
}

abbrev resource : HerdrResource
resource = record (new_resource "a1") {
  workspace_id = some "ws";
  tab_id = some "tab";
  pane_id = some "pane";
  terminal_id = some "term";
  session_id = some "session";
}

abbrev working : OrchestrationState
working = record empty_state {
  tasks = ("t1", task) ∷ [];
  runs = ("r1", run) ∷ [];
  agents = ("a1", idle_agent) ∷ [];
  workflows =
      ("w1", record { id = "w1"; state = WorkflowState.running; task_ids = "t1" ∷ [] }) ∷ [];
  herdr_resources = ("a1", resource) ∷ [];
}

abbrev reduced : Reduced OrchestrationState → OrchestrationState
reduced (ok s) = s
reduced (err error) = empty_state

accepted_projection :
    reduce_herdr_metadata_projected host working projection
    ≡ ok (reduced (reduce_herdr_metadata_projected host working projection))
unfolding reduce_herdr_metadata_projected metadata_of metadata_state_of without_digest correlated
    canonical_json comma_joined is_prefixed_id is_digest is_ref is_error_code utf16_length to_text
    number_text only_keys has_own get lookup insert need throw_if ◌>>=◌
accepted_projection = refl

working-IsSingle : IsSingle working.herdr_metadata
unfolding lookup
working-IsSingle = record { own_id = λ id m at. cc at; one = λ id id' m m' at at' same. cc at }

-- The projection comes twice.
abbrev projections : List Event
projections = projection ∷ projection ∷ []

accepted_projections :
    replay host working projections ≡ ok (reduced (replay host working projections))
unfolding replay reduce dispatch reduce_herdr_metadata_projected metadata_of metadata_state_of
    without_digest correlated canonical_json comma_joined is_prefixed_id is_digest is_ref
    is_error_code utf16_length to_text number_text only_keys has_own get lookup insert need throw_if
    ◌>>=◌
accepted_projections = refl

replay-IsSingle_example : IsSingle (reduced (replay host working projections)).herdr_metadata
replay-IsSingle_example =
    replay-IsSingle host working projections working-IsSingle accepted_projections
