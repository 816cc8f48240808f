-- ===== src/Scheduler/Types.antt =====
-- src/scheduler/types.ts, and the errors that src/scheduler/scheduler.ts throws.
use my_shtty_pi_herdr_deck.Base.{ℕ, String, Bool, true, false, List, Option}

pub data Priority : Type 0 where
  low normal high : Priority

pub data State : Type 0 where
  queued provisioning running blocked collecting succeeded failed cancelled timed_out : State

pub data Requirement : Type 0 where
  succeeded terminal : Requirement

pub record Dependency : Type 0 where
  pub task_id : String
  pub requirement : Requirement

-- `queuedAt` is a time in milliseconds.
pub record SchedulerTask : Type 0 where
  pub id : String
  pub parent_agent_id : String
  pub profile_id : String
  pub priority : Priority
  pub queued_at : ℕ
  pub depth : ℕ
  pub dependencies : List Dependency
  pub state : State
  pub endpoint_id : Option String
  pub project_key : Option String
  pub worktree_key : Option String
  pub allow_reuse : Option Bool

pub record SchedulerLimits : Type 0 where
  pub max_active_agents : ℕ
  pub max_active_per_parent : ℕ
  pub max_queued_tasks : ℕ
  pub max_tasks_per_delegate : ℕ
  pub max_delegation_depth : ℕ
  pub max_provisioning : ℕ

abbrev pub default_scheduler_limits : SchedulerLimits
default_scheduler_limits = record {
  max_active_agents = 4;
  max_active_per_parent = 4;
  max_queued_tasks = 32;
  max_tasks_per_delegate = 8;
  max_delegation_depth = 2;
  max_provisioning = 2;
}

abbrev pub hard_scheduler_limits : SchedulerLimits
hard_scheduler_limits = record {
  max_active_agents = 32;
  max_active_per_parent = 16;
  max_queued_tasks = 1000;
  max_tasks_per_delegate = 32;
  max_delegation_depth = 4;
  max_provisioning = 8;
}

pub record ReuseCandidate : Type 0 where
  pub agent_id : String
  pub profile_id : String
  pub project_key : Option String
  pub worktree_key : Option String
  pub trust_key : String
  pub tool_policy_hash : String
  pub model_policy_hash : String
  pub cleanup_pending : Bool
  pub idle : Bool

pub record ReuseRequest : Type 0 where
  pub profile_id : String
  pub project_key : Option String
  pub worktree_key : Option String
  pub trust_key : String
  pub tool_policy_hash : String
  pub model_policy_hash : String

abbrev pub is_queued : State → Bool
is_queued State.queued = true
is_queued _ = false

abbrev pub is_succeeded : State → Bool
is_succeeded State.succeeded = true
is_succeeded _ = false

-- `["provisioning", "running", "blocked", "collecting"].includes(state)`
abbrev pub active_state : State → Bool
active_state State.provisioning = true
active_state State.running = true
active_state State.blocked = true
active_state State.collecting = true
active_state _ = false

-- `["succeeded", "failed", "cancelled", "timed_out"].includes(state)`
abbrev pub terminal_state : State → Bool
terminal_state State.succeeded = true
terminal_state State.failed = true
terminal_state State.cancelled = true
terminal_state State.timed_out = true
terminal_state _ = false
