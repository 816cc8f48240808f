-- ===== src/Workflow/Types.antt =====
-- The types of src/scheduler/workflows.ts and src/scheduler/workflow-engine.ts that the engine uses.
use my_shtty_pi_herdr_deck.Base.{ℕ, String, Bool, true, false, List, Option}
use my_shtty_pi_herdr_deck.Base.Json.{Value}

pub data WorkflowMode : Type 0 where
  single parallel chain dag implement_review_fix : WorkflowMode

pub data IsolationMode : Type 0 where
  profile_default shared_readonly worktree shared_explicit reuse_worktree : IsolationMode

pub record PlannedStep : Type 0 where
  pub key : String
  pub task_id : String
  pub profile_id : String
  pub objective : String
  pub constraints : List String
  pub depends_on : List String
  pub isolation_mode : IsolationMode

pub record WorkflowPlan : Type 0 where
  pub workflow_id : String
  pub mode : WorkflowMode
  pub dry_run : Bool
  pub steps : List PlannedStep
  pub estimated_agent_count : ℕ
  pub max_active_agents : ℕ
  pub max_tasks : ℕ

pub data ExecutionState : Type 0 where
  queued running succeeded failed blocked cancelled timed_out : ExecutionState

pub record WorkflowExecution : Type 0 where
  pub state : ExecutionState
  pub result : Option Value

-- `terminalStates`
abbrev pub is_terminal : ExecutionState → Bool
is_terminal queued = false
is_terminal running = false
is_terminal _ = true

-- `unsuccessfulDependencyStates`
abbrev pub is_unsuccessful : ExecutionState → Bool
is_unsuccessful failed = true
is_unsuccessful blocked = true
is_unsuccessful cancelled = true
is_unsuccessful timed_out = true
is_unsuccessful _ = false

abbrev pub is_queued : ExecutionState → Bool
is_queued queued = true
is_queued _ = false

abbrev pub is_running : ExecutionState → Bool
is_running running = true
is_running _ = false

abbrev pub is_succeeded : ExecutionState → Bool
is_succeeded succeeded = true
is_succeeded _ = false

abbrev pub is_blocked : ExecutionState → Bool
is_blocked blocked = true
is_blocked _ = false

abbrev pub is_cancelled : ExecutionState → Bool
is_cancelled cancelled = true
is_cancelled _ = false

-- `value === "failed" || value === "timed_out"`
abbrev pub has_failed : ExecutionState → Bool
has_failed failed = true
has_failed timed_out = true
has_failed _ = false
