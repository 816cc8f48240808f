-- ===== src/State/Reducer.antt =====
-- `emptyState` and `reduce` of src/state/reducer.ts.
pub mod Tasks
pub mod Agents
pub mod Runs
pub mod Results
pub mod Resources
pub mod Compact
pub mod Metadata
pub mod OnOk
pub mod Keeps
pub mod Extending
pub mod Ended
pub mod Single
use my_shtty_pi_herdr_deck.Base.{ℕ, String, List, [], ◌∷◌, Option, none, some, ok, err, or_default}
use my_shtty_pi_herdr_deck.State.Types.{OrchestrationState}
use my_shtty_pi_herdr_deck.State.Host.{Host}
use my_shtty_pi_herdr_deck.State.Event
use my_shtty_pi_herdr_deck.State.Event.{◌>>=◌, throw_if, need, Event, EventType, Reduced, corrupt}
use Tasks.{
  reduce_task_created, reduce_task_state_changed, reduce_task_created_m3, reduce_task_project_bound,
  reduce_task_cancel_requested, reduce_scheduler_admitted, reduce_scheduler_blocked,
  reduce_task_collected,
}
use Agents.{reduce_agent_registered, reduce_agent_update}
use Runs.{
  reduce_run_created, reduce_run_progress, reduce_run_result_recovery_requested,
  reduce_run_result_missing,
}
use Results.{
  reduce_result_published, reduce_result_validated, reduce_question_opened,
  reduce_question_answered, reduce_question_closed,
}
use Resources.{
  reduce_group_created, reduce_group_ended, reduce_workflow_created, reduce_workflow_state_changed,
  reduce_review_contract_issued, reduce_herdr_provision_intent, reduce_herdr_outcome,
}
use Compact.{reduce_compact_delegation_scheduled}
use Metadata.{reduce_herdr_metadata_projected}

abbrev pub empty_state : OrchestrationState
empty_state = record {
  schema_version = 1;
  last_event_seq = 0;
  last_event_hash = "0000000000000000000000000000000000000000000000000000000000000000";
  tasks = [];
  runs = [];
  agents = [];
  workflows = [];
  results = [];
  questions = [];
  groups = [];
  review_contracts = [];
  herdr_resources = [];
  herdr_metadata = [];
  idempotency = [];
}

-- The `switch` of `reduce`.
unfoldable pub dispatch : Host → EventType → OrchestrationState → Event → Reduced OrchestrationState
dispatch host EventType.task_created s e = reduce_task_created s e
dispatch host EventType.task_project_bound s e = reduce_task_project_bound s e
dispatch host EventType.task_state_changed s e = reduce_task_state_changed s e
dispatch host EventType.audit_action s e = ok s
dispatch host EventType.audit_authorization_denied s e = ok s
dispatch host EventType.herdr_provision_intent s e = reduce_herdr_provision_intent s e
dispatch host EventType.herdr_provision_outcome s e = reduce_herdr_outcome s e
dispatch host EventType.herdr_reconciled s e = reduce_herdr_outcome s e
dispatch host EventType.agent_registered s e = reduce_agent_registered host s e
dispatch host EventType.agent_heartbeat s e = reduce_agent_update s e
dispatch host EventType.agent_state_changed s e = reduce_agent_update s e
dispatch host EventType.agent_moved s e = reduce_agent_update s e
dispatch host EventType.agent_replaced s e = reduce_agent_update s e
dispatch host EventType.task_created_m3 s e = reduce_task_created_m3 host s e
dispatch host EventType.run_created s e = reduce_run_created host s e
dispatch host EventType.assignment_delivered s e = reduce_run_progress s e
dispatch host EventType.assignment_accepted s e = reduce_run_progress s e
dispatch host EventType.assignment_delivery_failed s e = reduce_run_progress s e
dispatch host EventType.run_pi_started s e = reduce_run_progress s e
dispatch host EventType.run_pi_settled s e = reduce_run_progress s e
dispatch host EventType.run_state_changed s e = reduce_run_progress s e
dispatch host EventType.task_cancel_requested s e = reduce_task_cancel_requested s e
dispatch host EventType.result_published s e = reduce_result_published s e
dispatch host EventType.result_validated s e = reduce_result_validated s e
dispatch host EventType.run_result_recovery_requested s e = reduce_run_result_recovery_requested s e
dispatch host EventType.run_result_missing s e = reduce_run_result_missing s e
dispatch host EventType.question_opened s e = reduce_question_opened s e
dispatch host EventType.question_answered s e = reduce_question_answered s e
dispatch host EventType.question_timed_out s e = reduce_question_closed s e
dispatch host EventType.question_cancelled s e = reduce_question_closed s e
dispatch host EventType.group_created s e = reduce_group_created s e
dispatch host EventType.group_stopped s e = reduce_group_ended s e
dispatch host EventType.group_closed s e = reduce_group_ended s e
dispatch host EventType.workflow_created s e = reduce_workflow_created s e
dispatch host EventType.workflow_state_changed s e = reduce_workflow_state_changed s e
dispatch host EventType.scheduler_admitted s e = reduce_scheduler_admitted s e
dispatch host EventType.scheduler_blocked s e = reduce_scheduler_blocked s e
dispatch host EventType.task_collected s e = reduce_task_collected host s e
dispatch host EventType.review_contract_issued s e = reduce_review_contract_issued s e
dispatch host EventType.compact_delegation_scheduled s e =
    reduce_compact_delegation_scheduled host s e
dispatch host EventType.herdr_metadata_projected s e = reduce_herdr_metadata_projected host s e
dispatch host (EventType.unknown name) s e = err (corrupt "Unknown event type.")

-- The state that the `switch` works on: a stored event sets the sequence number and the hash.
abbrev pub advanced : OrchestrationState → Event → OrchestrationState
advanced s e = record s {
  last_event_seq = or_default e.seq s.last_event_seq;
  last_event_hash = or_default e.hash s.last_event_hash;
}

unfoldable pub reduce : Host → OrchestrationState → Event → Reduced OrchestrationState
reduce host s e = dispatch host e.type (advanced s e) e

-- Applying events one after another, up to the first that throws.
unfoldable pub replay : Host → OrchestrationState → List Event → Reduced OrchestrationState
replay host s [] = ok s
replay host s (e ∷ es) = reduce host s e >>= λ s'. replay host s' es
