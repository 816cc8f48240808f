-- ===== src/State/Types.antt =====
-- src/state/types.ts. An optional field is an `Option`, and an absent map is the empty one. A text
-- that the source casts to a union of literals, with no test, may be any text: `unlisted`.
use my_shtty_pi_herdr_deck.Base.{ℕ, String, Bool, true, false, List, Option}
use my_shtty_pi_herdr_deck.Base.Dict.{Dict}
use my_shtty_pi_herdr_deck.Base.Json.{Number, Value, Fields}

pub data AgentState : Type 0 where
  provisioning starting idle working blocked stopping stopped failed orphaned replaced : AgentState
  unlisted : String → AgentState

-- `lost` is no `TaskState` of the source: the reducer writes it into a task by a cast.
pub data TaskState : Type 0 where
  draft queued provisioning assigned running blocked collecting succeeded failed cancelled timed_out
        lost :
      TaskState

pub data RunState : Type 0 where
  created prompting working blocked settled result_pending result_pending_missing succeeded failed
        cancelled timed_out lost :
      RunState
  unlisted : String → RunState

pub data ErrorSummaryCode : Type 0 where
  timeout budget_exceeded result_missing : ErrorSummaryCode

pub record ErrorSummary : Type 0 where
  pub code : ErrorSummaryCode
  pub message : String

pub data IsolationMode : Type 0 where
  profile_default shared_readonly worktree shared_explicit reuse_worktree : IsolationMode

pub data BlockedReason : Type 0 where
  global_limit parent_limit endpoint_capacity provisioning_limit dependency_blocked depth_exceeded
        queue_full not_queued :
      BlockedReason

pub record Task : Type 0 where
  pub id : String
  pub title : String
  pub objective : String
  pub state : TaskState
  pub created_at : String
  pub parent_agent_id : Option String
  pub workflow_id : Option String
  pub profile_id : Option String
  pub isolation_mode : Option IsolationMode
  pub constraints : Option (List String)
  pub dependencies : Option (List String)
  pub current_run_id : Option String
  pub assigned_agent_id : Option String
  pub run_ids : Option (List String)
  pub result_id : Option String
  pub result_collected_at : Option String
  pub timeout_at : Option String
  pub terminal_reason : Option ErrorSummary
  pub endpoint_id : Option String
  pub admission_reason : Option BlockedReason
  pub project : Option Fields

pub data DeliveryState : Type 0 where
  pending accepted failed : DeliveryState

pub record Run : Type 0 where
  pub id : String
  pub task_id : String
  pub state : RunState
  pub agent_id : Option String
  pub agent_generation : Option Number
  pub assignment_id : Option String
  pub assignment_delivery_state : Option DeliveryState
  pub assignment_connection_generation : Option Number
  pub assignment_generation : Number
  pub endpoint_id : Option String
  pub agent_cycle_id : Option String
  pub first_turn_index : Option Number
  pub pi_session_id : Option String
  pub terminal_id : Option String
  pub started_at : Option String
  pub terminal_at : Option String
  pub settled : Bool
  pub result_recovery_count : Option ℕ
  pub result_id : Option String
  pub timeout_at : Option String
  pub terminal_reason : Option ErrorSummary
  pub cancelled : Option Bool

-- The model metadata are kept as the payload gives them.
pub record Agent : Type 0 where
  pub id : String
  pub state : AgentState
  pub generation : Number
  pub managed : Option Bool
  pub parent_agent_id : Option String
  pub depth : Option Number
  pub display_name : Option String
  pub herdr_name : Option String
  pub profile_id : Option String
  pub requested_model : Option Value
  pub effective_model : Option Value
  pub actual_model : Option Value
  pub model_policy_hash : Option String
  pub lifecycle_class : Option String
  pub keep_for_reuse : Option Bool
  pub terminal_id : Option String
  pub pane_id : Option String
  pub workspace_id : Option String
  pub tab_id : Option String
  pub cwd : Option String
  pub worktree_id : Option String
  pub pi_session_id : Option String
  pub connection_generation : Option Number
  pub current_run_id : Option String
  pub current_assignment_generation : Option Number
  pub last_adapter_seq : Option Number
  pub token_digest : Option String

pub record ReviewContract : Type 0 where
  pub id : String
  pub review_task_id : String
  pub reviewed_task_id : String
  pub reviewed_run_id : String
  pub reviewed_result_id : String
  pub result_digest : String
  pub rubric_version : String
  pub task_profile : String
  pub issued_at : String
  pub expires_at : String

pub data ResultStatus : Type 0 where
  succeeded failed cancelled : ResultStatus

pub record ResultRecord : Type 0 where
  pub id : String
  pub task_id : String
  pub run_id : String
  pub agent_id : String
  pub status : ResultStatus
  pub payload_hash : String
  pub pi_settled : Bool
  pub assignment_generation : Option Number
  pub payload : Option Value
  pub validation : Option Value
  pub published_at : Option String

pub data QuestionState : Type 0 where
  open_ answered cancelled timed_out : QuestionState

pub record QuestionRecord : Type 0 where
  pub id : String
  pub task_id : String
  pub run_id : String
  pub agent_id : String
  pub state : QuestionState
  pub assignment_generation : Option Number
  pub tool_call_id : Option String
  pub payload : Option Value
  pub asked_at : Option String
  pub answered_at : Option String
  pub answered_by : Option String
  pub answer : Option Value

pub data WorkflowState : Type 0 where
  created running blocked succeeded failed cancelled : WorkflowState

pub record Workflow : Type 0 where
  pub id : String
  pub state : WorkflowState
  pub task_ids : List String

pub data GroupState : Type 0 where
  opened stopped closed : GroupState

pub record AgentGroup : Type 0 where
  pub id : String
  pub name : String
  pub agent_ids : List String
  pub state : GroupState
  pub created_at : String
  pub created_by : String
  pub stopped_at : Option String
  pub closed_at : Option String

pub record IdempotencyEntry : Type 0 where
  pub principal_id : String
  pub method : String
  pub params_hash : Option String
  pub response : Value

-- A resource of Herdr, with every text, number and flag that an outcome may add, by field name.
pub record HerdrResource : Type 0 where
  pub agent_id : String
  pub state : String
  pub pane_id : Option String
  pub tab_id : Option String
  pub worktree_id : Option String
  pub worktree_path : Option String
  pub workspace_id : Option String
  pub reason : Option String
  pub parent_agent_id : Option String
  pub owner_id : Option String
  pub terminal_id : Option String
  pub session_id : Option String
  pub generation : Option Number
  pub token_digest : Option String
  pub prompt_file_dev : Option Number
  pub prompt_file_ino : Option Number
  pub token_file_dev : Option Number
  pub token_file_ino : Option Number
  pub registration_deadline : Option String
  pub cleanup_outcome : Option String
  pub dirty : Option Bool
  pub replaced : Option Bool
  pub orphaned : Option Bool
  pub unknown : Option Bool
  pub parent_git_root : Option String
  pub parent_git_head : Option String
  pub parent_git_branch : Option String
  pub parent_git_changed_files : Option (List String)
  pub worktree_git_root : Option String
  pub worktree_git_head : Option String
  pub worktree_git_branch : Option String

pub data HerdrMetadataState : Type 0 where
  requested compiling validated scheduled creating starting working blocked settling settled exited
        cleanup_pending completed failed cancelled orphaned conflict closed :
      HerdrMetadataState

-- The schema version, the placement and the transcript policy have one value each.
pub record HerdrTaskMetadata : Type 0 where
  pub metadata_id : String
  pub orchestration_id : String
  pub workflow_id : String
  pub task_id : String
  pub run_id : String
  pub agent_id : String
  pub parent_agent_id : Option String
  pub profile_id : String
  pub state : HerdrMetadataState
  pub workspace_id : String
  pub tab_id : String
  pub pane_id : String
  pub terminal_id : String
  pub pi_session_ref : String
  pub started_at : String
  pub updated_at : String
  pub settled_at : Option String
  pub exited_at : Option String
  pub transcript_ref : Option String
  pub result_ref : Option String
  pub question_ref : Option String
  pub error_code : Option String
  pub metadata_digest : String

pub record OrchestrationState : Type 0 where
  pub schema_version : ℕ
  pub last_event_seq : ℕ
  pub last_event_hash : String
  pub tasks : Dict Task
  pub runs : Dict Run
  pub agents : Dict Agent
  pub workflows : Dict Workflow
  pub results : Dict ResultRecord
  pub questions : Dict QuestionRecord
  pub groups : Dict AgentGroup
  pub review_contracts : Dict ReviewContract
  pub herdr_resources : Dict HerdrResource
  pub herdr_metadata : Dict HerdrTaskMetadata
  pub idempotency : Dict IdempotencyEntry

-- `taskTerminal` of src/state/reducer.ts
abbrev pub task_terminal : TaskState → Bool
task_terminal TaskState.succeeded = true
task_terminal TaskState.failed = true
task_terminal TaskState.cancelled = true
task_terminal TaskState.timed_out = true
task_terminal _ = false

-- `runSharedTerminal` of src/state/reducer.ts
abbrev pub run_shared_terminal : RunState → Bool
run_shared_terminal RunState.succeeded = true
run_shared_terminal RunState.failed = true
run_shared_terminal RunState.cancelled = true
run_shared_terminal RunState.timed_out = true
run_shared_terminal RunState.lost = true
run_shared_terminal _ = false
