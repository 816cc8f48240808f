-- ===== src/State/Reducer/Runs.antt =====
-- The run events of `reduce` in src/state/reducer.ts.
use my_shtty_pi_herdr_deck.Base.{
  String, Bool, true, false, not, ◌&&◌, ◌||◌, [], ◌∷◌, ◌++◌, Option, none, some, eqb, if◌then◌else◌,
  ◌==◌, ok, or_default, same_text?, is_some, find,
}
use my_shtty_pi_herdr_deck.Base.Dict.{Dict, lookup, insert, values}
use my_shtty_pi_herdr_deck.Base.Int.{pos}
use my_shtty_pi_herdr_deck.Base.Json.{Number, integer, Value, number, get, is_undefined, is_text}
use my_shtty_pi_herdr_deck.State.Host.{Host, to_text, to_number_or_one}
use my_shtty_pi_herdr_deck.State.Types.{
  TaskState, RunState, Task, Run, Agent, ResultRecord, OrchestrationState, DeliveryState, pending,
  accepted, failed, ErrorSummary, result_missing, task_terminal, run_shared_terminal,
}
use my_shtty_pi_herdr_deck.State.Event.{
  ◌>>=◌, ◌>>◌, throw_if, Event, EventType, assignment_delivered, assignment_accepted,
  assignment_delivery_failed, run_pi_started, run_pi_settled, run_state_changed, corrupt, Reduced,
  need, override, text_at, integer_at, ref_or, timeout_reason, valid_endpoint_id, run_state_of,
  same_run_state,
}
use my_shtty_pi_herdr_deck.State.Reducer.Tasks.{nonempty, referenced, unusable}

abbrev pub in_conflict : Option String → Option String → Bool
in_conflict none p = false
in_conflict (some t) p = not (same_text? (some t) p)

abbrev pub first_of_texts : Option String → Option String → Option String
first_of_texts none b = b
first_of_texts (some a) b = some a

-- The run that `run.created` makes.
abbrev pub created_run : Host → Event → String → Task → Option String → Option String → Run
created_run host e id task run_timeout_at endpoint_id = record {
  id = id;
  task_id = task.id;
  state = RunState.created;
  agent_id = text_at "agentId" e;
  agent_generation = integer_at "agentGeneration" e;
  assignment_id = text_at "assignmentId" e;
  assignment_delivery_state = none;
  assignment_connection_generation = none;
  assignment_generation = to_number_or_one host (get "assignmentGeneration" e.payload);
  endpoint_id = nonempty endpoint_id;
  agent_cycle_id = none;
  first_turn_index = none;
  pi_session_id = text_at "piSessionId" e;
  terminal_id = text_at "terminalId" e;
  started_at = some (or_default e.timestamp task.created_at);
  terminal_at = none;
  settled = false;
  result_recovery_count = some 0;
  result_id = none;
  timeout_at = run_timeout_at;
  terminal_reason = none;
  cancelled = none;
}

-- The agent of a new run works on it.
abbrev pub occupy : Run → Dict Agent → Option String → Option Agent → Dict Agent
occupy run agents none _ = agents
occupy run agents (some id) none = agents
occupy run agents (some id) (some agent) =
    insert id
      (record agent {
        current_run_id = some run.id;
        current_assignment_generation = some run.assignment_generation;
      })
      agents

abbrev pub assigned_task : Event → String → Option String → Task → Task
assigned_task e id endpoint_id task = record task {
  current_run_id = some id;
  assigned_agent_id = override (text_at "agentId" e) task.assigned_agent_id;
  run_ids = some (or_default task.run_ids [] ++ (id ∷ []));
  state = TaskState.assigned;
  admission_reason = none;
  endpoint_id = override (nonempty endpoint_id) task.endpoint_id;
}

unfoldable pub reduce_run_created : Host → OrchestrationState → Event → Reduced OrchestrationState
reduce_run_created host s e = do
  let id = to_text (get "runId" e.payload)
  throw_if (unusable id s.runs) (corrupt "Run or task is invalid.")
  task ←
      need (lookup (to_text (get "taskId" e.payload)) s.tasks) (corrupt "Run or task is invalid.")
  throw_if (task_terminal task.state) (corrupt "Run cannot be created for a terminal task.")
  let run_timeout_at = first_of_texts (text_at "timeoutAt" e) task.timeout_at
  throw_if (not (same_text? task.timeout_at run_timeout_at))
      (corrupt "Run deadline does not match its task deadline.")
  let endpoint = get "endpointId" e.payload
  let valid = valid_endpoint_id endpoint
  throw_if
      (not (is_undefined endpoint) && (not (is_some valid) || in_conflict task.endpoint_id valid))
      (corrupt "Run endpoint is invalid.")
  let endpoint_id = first_of_texts valid task.endpoint_id
  let run = created_run host e id task run_timeout_at endpoint_id
  ok (record s {
    runs = insert id run s.runs;
    agents = occupy run s.agents run.agent_id (referenced run.agent_id s.agents);
    tasks = insert task.id (assigned_task e id endpoint_id task) s.tasks;
  })

abbrev pub is_state_change : EventType → Bool
is_state_change run_state_changed = true
is_state_change _ = false

abbrev pub is_start : EventType → Bool
is_start run_pi_started = true
is_start _ = false

abbrev pub is_assignment : EventType → Bool
is_assignment assignment_delivered = true
is_assignment assignment_accepted = true
is_assignment assignment_delivery_failed = true
is_assignment _ = false

abbrev pub is_settled_state : RunState → Bool
is_settled_state RunState.settled = true
is_settled_state _ = false

abbrev pub is_timed_out : Option RunState → Bool
is_timed_out (some RunState.timed_out) = true
is_timed_out _ = false

-- `p.state`; the empty text counts as absent.
abbrev pub run_state_at : Option String → Option RunState
run_state_at none = none
run_state_at (some t) = if t == "" then none else some (run_state_of t)

abbrev pub same_state? : Option RunState → RunState → Bool
same_state? none r = false
same_state? (some q) r = same_run_state q r

abbrev pub settled_after : EventType → Bool → Bool
settled_after run_pi_settled old = true
settled_after run_pi_started old = false
settled_after _ old = old

abbrev pub delivery_after : EventType → Option DeliveryState → Option DeliveryState
delivery_after assignment_delivered old = some pending
delivery_after assignment_accepted old = some accepted
delivery_after assignment_delivery_failed old = some failed
delivery_after _ old = old

abbrev pub ends_run : Option RunState → Bool
ends_run none = false
ends_run (some q) = run_shared_terminal q

-- The terminal states of a run, written into its task by a cast.
abbrev pub task_state_after : Option RunState → Option TaskState
task_state_after (some RunState.succeeded) = some TaskState.succeeded
task_state_after (some RunState.failed) = some TaskState.failed
task_state_after (some RunState.cancelled) = some TaskState.cancelled
task_state_after (some RunState.timed_out) = some TaskState.timed_out
task_state_after (some RunState.lost) = some TaskState.lost
task_state_after _ = none

abbrev pub kept_if {ℓ} : {A : Type ℓ} → Bool → Option A → Option A
kept_if true v = v
kept_if false v = none

-- The first guard: an adapter's progress on a run that is over.
abbrev pub stale_progress : EventType → Run → Bool
stale_progress type run =
    not (is_state_change type)
    && (run_shared_terminal run.state
        || (not (is_start type) && (run.settled || is_settled_state run.state)))

abbrev pub leaves_terminal : EventType → Option RunState → Run → Bool
leaves_terminal type state run =
    is_state_change type && run_shared_terminal run.state && not (same_state? state run.state)

abbrev pub progressed_run : Event → Option RunState → Option ErrorSummary → Run → Run
progressed_run e state reason run = record run {
  state = or_default state run.state;
  settled = settled_after e.type run.settled;
  terminal_reason = override reason run.terminal_reason;
  terminal_at =
      override (kept_if (is_state_change e.type && ends_run state) e.timestamp) run.terminal_at;
  pi_session_id = override (text_at "piSessionId" e) run.pi_session_id;
  agent_id = override (text_at "agentId" e) run.agent_id;
  agent_cycle_id =
      override (kept_if (is_start e.type) (text_at "agentCycleId" e)) run.agent_cycle_id;
  first_turn_index =
      override (kept_if (is_start e.type) (integer_at "turnIndex" e)) run.first_turn_index;
  assignment_id =
      override (kept_if (is_assignment e.type) (text_at "assignmentId" e)) run.assignment_id;
  assignment_connection_generation =
      override (kept_if (is_assignment e.type) (integer_at "connectionGeneration" e))
        run.assignment_connection_generation;
  assignment_delivery_state = delivery_after e.type run.assignment_delivery_state;
}

-- The last sequence number of the adapter, on the agent of the run.
abbrev pub note_adapter : Option Number → Dict Agent → Option String → Option Agent → Dict Agent
note_adapter (some n) agents (some id) (some agent) =
    insert id (record agent { last_adapter_seq = some n }) agents
note_adapter _ agents _ _ = agents

-- The task of a run that ended takes the run's state.
abbrev pub end_task :
    Option TaskState → Option ErrorSummary → String → Dict Task → Option Task → Dict Task
end_task (some state) reason id tasks (some task) =
    insert id
      (record task { state = state; terminal_reason = override reason task.terminal_reason }) tasks
end_task _ reason id tasks _ = tasks

-- The first result of the run counts as settled.
abbrev pub settle_result : EventType → Option ResultRecord → Dict ResultRecord → Dict ResultRecord
settle_result run_pi_settled (some r) results = insert r.id (record r { pi_settled = true }) results
settle_result _ _ results = results

-- `assignment.*`, `run.pi_started`, `run.pi_settled` and `run.state_changed`.
unfoldable pub reduce_run_progress : OrchestrationState → Event → Reduced OrchestrationState
reduce_run_progress s e = do
  let id = ref_or e.run_ref "runId" e
  run ← need (lookup id s.runs) (corrupt "Run is missing.")
  let state = run_state_at (text_at "state" e)
  throw_if (stale_progress e.type run) (corrupt "Adapter progress cannot mutate a terminal run.")
  throw_if (leaves_terminal e.type state run)
      (corrupt "A terminal run cannot transition to another state.")
  let given = timeout_reason (get "reason" e.payload)
  throw_if
      (not (is_undefined (get "reason" e.payload))
        && (not (is_timed_out state) || not (is_some given)))
      (corrupt "Invalid terminal reason.")
  let reason = kept_if (is_timed_out state) given
  ok (record s {
    runs = insert id (progressed_run e state reason run) s.runs;
    agents =
        note_adapter (integer_at "adapterSeq" e) s.agents run.agent_id
          (referenced run.agent_id s.agents);
    tasks =
        end_task (kept_if (is_state_change e.type) (task_state_after state)) reason run.task_id
          s.tasks (lookup run.task_id s.tasks);
    results = settle_result e.type (find (λ r. r.run_id == id) (values s.results)) s.results;
  })

-- `p.attempt === 1`
abbrev pub is_one : Value → Bool
is_one (number (integer (pos n))) = eqb n 1
is_one _ = false

unfoldable pub reduce_run_result_recovery_requested :
    OrchestrationState → Event → Reduced OrchestrationState
reduce_run_result_recovery_requested s e = do
  let id = ref_or e.run_ref "runId" e
  run ← need (lookup id s.runs) (corrupt "Result recovery request is invalid.")
  throw_if
      (not run.settled
        || is_some run.result_id
        || not (eqb (or_default run.result_recovery_count 0) 0)
        || not (is_one (get "attempt" e.payload)))
      (corrupt "Result recovery request is invalid.")
  ok (record s {
    runs =
        insert id
          (record run { state = RunState.result_pending_missing; result_recovery_count = some 1 })
          s.runs;
  })

abbrev pub missing_reason : ErrorSummary
missing_reason = record {
  code = result_missing;
  message = "The managed agent settled without a structured result.";
}

unfoldable pub reduce_run_result_missing : OrchestrationState → Event → Reduced OrchestrationState
reduce_run_result_missing s e = do
  let id = ref_or e.run_ref "runId" e
  run ← need (lookup id s.runs) (corrupt "Missing result outcome is invalid.")
  task ← need (lookup run.task_id s.tasks) (corrupt "Missing result outcome is invalid.")
  throw_if
      (is_some run.result_id
        || not (eqb (or_default run.result_recovery_count 0) 1)
        || not (is_text "RESULT_MISSING" (get "code" e.payload)))
      (corrupt "Missing result outcome is invalid.")
  ok (record s {
    runs =
        insert id
          (record run {
            state = RunState.failed;
            terminal_reason = some missing_reason;
            terminal_at = override e.timestamp run.terminal_at;
          })
          s.runs;
    tasks =
        insert task.id
          (record task { state = TaskState.failed; terminal_reason = some missing_reason }) s.tasks;
  })
