-- ===== src/State/Event.antt =====
-- The events that src/state/reducer.ts reads, and how it reads a payload.
use my_shtty_pi_herdr_deck.Base.{
  ℕ, suc, ◌*◌, String, Bool, true, false, not, ◌&&◌, ◌||◌, Option, none, some, eqb, if◌then◌else◌,
  ◌==◌, Result, ok, err,
}
use my_shtty_pi_herdr_deck.Base.Int.{ℤ, pos, ◌+ℤ◌}
use my_shtty_pi_herdr_deck.Base.Text.{is_endpoint_id}
use my_shtty_pi_herdr_deck.Base.Json.{
  Number, integer, Value, undefined, null, string, object, Fields, end, field, get, as_text,
  as_integer, is_text,
}
use my_shtty_pi_herdr_deck.State.Types.{
  AgentState, TaskState, RunState, WorkflowState, ErrorSummary, timeout, budget_exceeded,
  IsolationMode, profile_default, shared_readonly, worktree, shared_explicit, reuse_worktree,
  BlockedReason, global_limit, parent_limit, endpoint_capacity, provisioning_limit,
  dependency_blocked, depth_exceeded, queue_full, not_queued,
}
use my_shtty_pi_herdr_deck.State.Host.{Host, to_text}

-- The event types, without those of the model evidence. `unknown` is any type that the set `known` does not hold.
pub data EventType : Type 0 where
  task_created task_project_bound task_state_changed audit_action audit_authorization_denied
        herdr_provision_intent herdr_provision_outcome herdr_reconciled agent_registered
        agent_heartbeat agent_state_changed agent_moved agent_replaced task_created_m3 run_created
        assignment_delivered assignment_accepted assignment_delivery_failed run_pi_started
        run_pi_settled run_state_changed task_cancel_requested result_published result_validated
        run_result_recovery_requested run_result_missing question_opened question_answered
        question_timed_out question_cancelled group_created group_stopped group_closed
        workflow_created workflow_state_changed scheduler_admitted scheduler_blocked task_collected
        review_contract_issued compact_delegation_scheduled herdr_metadata_projected :
      EventType
  unknown : String → EventType

-- A stored event has a sequence number, a hash and a time; an input may lack them. The references
-- and the payload are those that the event carries.
pub record Event : Type 0 where
  pub type : EventType
  pub principal_id : String
  pub task_ref : Option String
  pub run_ref : Option String
  pub agent_ref : Option String
  pub result_ref : Option String
  pub question_ref : Option String
  pub group_ref : Option String
  pub workflow_ref : Option String
  pub workflow_digest_ref : Option String
  pub payload : Fields
  pub seq : Option ℕ
  pub hash : Option String
  pub timestamp : Option String

pub data ErrorCode : Type 0 where
  invalid_request state_corrupt range_error type_error : ErrorCode

pub record OrchestratorError : Type 0 where
  pub code : ErrorCode
  pub message : String

abbrev pub corrupt : String → OrchestratorError
corrupt m = record { code = state_corrupt; message = m }

abbrev pub invalid : String → OrchestratorError
invalid m = record { code = invalid_request; message = m }

abbrev pub Reduced {ℓ} : Type ℓ → Type ℓ
Reduced A = Result OrchestratorError A

-- Sequencing is shut: a proof goes by the rules of `Reducer.OnOk`.

-- `if (bad) throw error;`
unfoldable pub throw_if : Bool → OrchestratorError → Reduced (Unit {0})
throw_if false error = ok tt
throw_if true error = err error

module _ {ℓ} {B : Type ℓ} where
  infixl 5 ◌>>=◌ ◌>>◌
  unfoldable pub ◌>>=◌ {κ} : {A : Type κ} → Reduced A → (A → Reduced B) → Reduced B
  err error >>= next = err error
  ok value >>= next = next value

  abbrev pub ◌>>◌ : Reduced (Unit {0}) → Reduced B → Reduced B
  check >> next = check >>= λ _. next

-- `if (!value) throw error;`
unfoldable pub need {ℓ} : {A : Type ℓ} → Option A → OrchestratorError → Reduced A
need none e = err e
need (some a) e = ok a

-- `...(value ? { field: value } : {})` over the field's old value.
abbrev pub override {ℓ} : {A : Type ℓ} → Option A → Option A → Option A
override none old = old
override (some new) old = some new

-- `typeof p.key === "string" ? { key: p.key } : {}`
abbrev pub text_at : String → Event → Option String
text_at k e = as_text (get k e.payload)

-- `Number.isSafeInteger(p.key) ? { key: p.key } : {}`
abbrev pub integer_of : Option ℤ → Option Number
integer_of none = none
integer_of (some z) = some (integer z)

abbrev pub integer_at : String → Event → Option Number
integer_at k e = integer_of (as_integer (get k e.payload))

-- `event.entityRefs?.key ?? String(p.key)`
abbrev pub ref_or : Option String → String → Event → String
ref_or (some r) k e = r
ref_or none k e = to_text (get k e.payload)

-- `String(value ?? "")`
abbrev pub text_or_empty : Value → String
text_or_empty undefined = ""
text_or_empty null = ""
text_or_empty v = to_text v

-- `event.entityRefs?.key ?? String(p.key ?? "")`
abbrev pub ref_or_text : Option String → String → Event → String
ref_or_text (some r) k e = r
ref_or_text none k e = text_or_empty (get k e.payload)

-- `Object.keys(fields).length`
unfoldable pub key_count : Fields → ℕ
key_count end = 0
key_count (field k v fs) = suc (key_count fs)

-- `Object.hasOwn(fields, key)`
unfoldable pub has_own : String → Fields → Bool
has_own k end = false
has_own k (field j v fs) = j == k || has_own k fs

timeout_summary : Fields → Option ErrorSummary
timeout_summary fs =
    if not (eqb (key_count fs) 2)
    then none
    else if is_text "TIMEOUT" (get "code" fs)
        && is_text "The task wall deadline expired." (get "message" fs)
    then some (record { code = timeout; message = "The task wall deadline expired." })
    else if is_text "BUDGET_EXCEEDED" (get "code" fs)
        && is_text "The configured budget was exceeded." (get "message" fs)
    then some (record { code = budget_exceeded; message = "The configured budget was exceeded." })
    else none

-- `timeoutReason`, with the reason that it accepts.
unfoldable pub timeout_reason : Value → Option ErrorSummary
unfolding timeout_summary key_count get
timeout_reason (object fs) = timeout_summary fs
timeout_reason _ = none

abbrev pub default_task_wall_ms : ℕ
default_task_wall_ms = 15 * 60000

deadline_text : Option String → Reduced (Option String)
deadline_text none = err (record { code = range_error; message = "Invalid time value" })
deadline_text (some s) = ok (some s)

unfoldable pub deadline_after : Host → Option ℤ → Reduced (Option String)
unfolding deadline_text
deadline_after host none = ok none
deadline_after host (some created) =
    deadline_text (host.to_iso (created +ℤ pos default_task_wall_ms))

-- `derivedDeadline`
unfoldable pub derived_deadline : Host → Value → Reduced (Option String)
unfolding deadline_after
derived_deadline host (string created_at) = deadline_after host (host.parse_date created_at)
derived_deadline host _ = ok none

-- `validEndpointId(value)`, with the text.
abbrev pub endpoint_text : Option String → Option String
endpoint_text none = none
endpoint_text (some s) = if is_endpoint_id s then some s else none

abbrev pub valid_endpoint_id : Value → Option String
valid_endpoint_id v = endpoint_text (as_text v)

-- The states that `task.state_changed` allows.
unfoldable pub task_state_of : String → Option TaskState
task_state_of s =
    if s == "draft"
    then some TaskState.draft
    else if s == "queued"
    then some TaskState.queued
    else if s == "provisioning"
    then some TaskState.provisioning
    else if s == "assigned"
    then some TaskState.assigned
    else if s == "running"
    then some TaskState.running
    else if s == "blocked"
    then some TaskState.blocked
    else if s == "collecting"
    then some TaskState.collecting
    else if s == "succeeded"
    then some TaskState.succeeded
    else if s == "failed"
    then some TaskState.failed
    else if s == "cancelled"
    then some TaskState.cancelled
    else if s == "timed_out"
    then some TaskState.timed_out
    else none

unfoldable pub run_state_of : String → RunState
run_state_of s =
    if s == "created"
    then RunState.created
    else if s == "prompting"
    then RunState.prompting
    else if s == "working"
    then RunState.working
    else if s == "blocked"
    then RunState.blocked
    else if s == "settled"
    then RunState.settled
    else if s == "result_pending"
    then RunState.result_pending
    else if s == "result_pending_missing"
    then RunState.result_pending_missing
    else if s == "succeeded"
    then RunState.succeeded
    else if s == "failed"
    then RunState.failed
    else if s == "cancelled"
    then RunState.cancelled
    else if s == "timed_out"
    then RunState.timed_out
    else if s == "lost"
    then RunState.lost
    else RunState.unlisted s

unfoldable pub agent_state_of : String → AgentState
agent_state_of s =
    if s == "provisioning"
    then AgentState.provisioning
    else if s == "starting"
    then AgentState.starting
    else if s == "idle"
    then AgentState.idle
    else if s == "working"
    then AgentState.working
    else if s == "blocked"
    then AgentState.blocked
    else if s == "stopping"
    then AgentState.stopping
    else if s == "stopped"
    then AgentState.stopped
    else if s == "failed"
    then AgentState.failed
    else if s == "orphaned"
    then AgentState.orphaned
    else if s == "replaced"
    then AgentState.replaced
    else AgentState.unlisted s

unfoldable pub workflow_state_of : String → Option WorkflowState
workflow_state_of s =
    if s == "created"
    then some WorkflowState.created
    else if s == "running"
    then some WorkflowState.running
    else if s == "blocked"
    then some WorkflowState.blocked
    else if s == "succeeded"
    then some WorkflowState.succeeded
    else if s == "failed"
    then some WorkflowState.failed
    else if s == "cancelled"
    then some WorkflowState.cancelled
    else none

-- The isolation modes that `task.created_m3` keeps.
unfoldable pub isolation_of : Option String → Option IsolationMode
isolation_of none = none
isolation_of (some s) =
    if s == "profile-default"
    then some profile_default
    else if s == "shared-readonly"
    then some shared_readonly
    else if s == "worktree"
    then some worktree
    else if s == "shared-explicit"
    then some shared_explicit
    else if s == "reuse-worktree"
    then some reuse_worktree
    else none

-- The set `admissionReasons`.
unfoldable pub admission_reason_of : String → Option BlockedReason
admission_reason_of s =
    if s == "global_limit"
    then some global_limit
    else if s == "parent_limit"
    then some parent_limit
    else if s == "endpoint_capacity"
    then some endpoint_capacity
    else if s == "provisioning_limit"
    then some provisioning_limit
    else if s == "dependency_blocked"
    then some dependency_blocked
    else if s == "depth_exceeded"
    then some depth_exceeded
    else if s == "queue_full"
    then some queue_full
    else if s == "not_queued"
    then some not_queued
    else none

-- The equality of two run states.
abbrev pub same_run_state : RunState → RunState → Bool
same_run_state RunState.created RunState.created = true
same_run_state RunState.prompting RunState.prompting = true
same_run_state RunState.working RunState.working = true
same_run_state RunState.blocked RunState.blocked = true
same_run_state RunState.settled RunState.settled = true
same_run_state RunState.result_pending RunState.result_pending = true
same_run_state RunState.result_pending_missing RunState.result_pending_missing = true
same_run_state RunState.succeeded RunState.succeeded = true
same_run_state RunState.failed RunState.failed = true
same_run_state RunState.cancelled RunState.cancelled = true
same_run_state RunState.timed_out RunState.timed_out = true
same_run_state RunState.lost RunState.lost = true
same_run_state (RunState.unlisted a) (RunState.unlisted b) = a == b
same_run_state _ _ = false

abbrev pub same_task_state : TaskState → TaskState → Bool
same_task_state TaskState.draft TaskState.draft = true
same_task_state TaskState.queued TaskState.queued = true
same_task_state TaskState.provisioning TaskState.provisioning = true
same_task_state TaskState.assigned TaskState.assigned = true
same_task_state TaskState.running TaskState.running = true
same_task_state TaskState.blocked TaskState.blocked = true
same_task_state TaskState.collecting TaskState.collecting = true
same_task_state TaskState.succeeded TaskState.succeeded = true
same_task_state TaskState.failed TaskState.failed = true
same_task_state TaskState.cancelled TaskState.cancelled = true
same_task_state TaskState.timed_out TaskState.timed_out = true
same_task_state TaskState.lost TaskState.lost = true
same_task_state _ _ = false
