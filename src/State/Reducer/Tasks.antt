-- ===== src/State/Reducer/Tasks.antt =====
-- The task events of `reduce` in src/state/reducer.ts.
use my_shtty_pi_herdr_deck.Base.{
  String, Bool, true, false, not, ◌&&◌, ◌||◌, List, [], Option, none, some, if◌then◌else◌, ◌==◌, ok,
  is_some,
}
use my_shtty_pi_herdr_deck.Base.Dict.{Dict, lookup, insert}
use my_shtty_pi_herdr_deck.Base.Json.{Items, get, as_record, as_array, is_undefined, texts}
use my_shtty_pi_herdr_deck.State.Host.{Host, to_text}
use my_shtty_pi_herdr_deck.State.Types.{
  TaskState, RunState, Task, Run, OrchestrationState, IdempotencyEntry, BlockedReason,
  task_terminal,
}
use my_shtty_pi_herdr_deck.State.Event.{
  ◌>>=◌, ◌>>◌, throw_if, Event, corrupt, invalid, Reduced, need, override, text_at, ref_or,
  ref_or_text, timeout_reason, derived_deadline, valid_endpoint_id, task_state_of, isolation_of,
  admission_reason_of, same_task_state,
}

-- A task with nothing but what every creation gives.
abbrev pub new_task : String → String → String → String → Task
new_task id title objective created_at = record {
  id = id;
  title = title;
  objective = objective;
  state = TaskState.queued;
  created_at = created_at;
  parent_agent_id = none;
  workflow_id = none;
  profile_id = none;
  isolation_mode = none;
  constraints = none;
  dependencies = none;
  current_run_id = none;
  assigned_agent_id = none;
  run_ids = none;
  result_id = none;
  result_collected_at = none;
  timeout_at = none;
  terminal_reason = none;
  endpoint_id = none;
  admission_reason = none;
  project = none;
}

-- The entry that `task.created` leaves under its idempotency key.
abbrev pub remember : Option String → Event → Dict IdempotencyEntry → Dict IdempotencyEntry
remember none e entries = entries
remember (some key) e entries =
    insert key
      (record {
        principal_id = e.principal_id;
        method = "task.create";
        params_hash = text_at "paramsHash" e;
        response = get "response" e.payload;
      })
      entries

-- The id is missing or taken.
abbrev pub unusable {ℓ} : {A : Type ℓ} → String → Dict A → Bool
unusable id table = id == "" || is_some (lookup id table)

unfoldable pub reduce_task_created : OrchestrationState → Event → Reduced OrchestrationState
reduce_task_created s e = do
  let id = ref_or e.task_ref "id" e
  throw_if (unusable id s.tasks) (invalid "Task already exists or has no ID.")
  title ← need (text_at "title" e) (corrupt "Task payload is invalid.")
  objective ← need (text_at "objective" e) (corrupt "Task payload is invalid.")
  let created = new_task id title objective (to_text (get "createdAt" e.payload))
  ok (record s {
    tasks = insert id (record created { parent_agent_id = text_at "parentAgentId" e }) s.tasks;
    idempotency = remember (text_at "idempotencyKey" e) e s.idempotency;
  })

abbrev pub is_timed_out : TaskState → Bool
is_timed_out TaskState.timed_out = true
is_timed_out _ = false

abbrev pub is_queued : TaskState → Bool
is_queued TaskState.queued = true
is_queued _ = false

-- `reference ? table[reference] : undefined`
abbrev pub referenced {ℓ} : {A : Type ℓ} → Option String → Dict A → Option A
referenced none table = none
referenced (some id) table = if id == "" then none else lookup id table

unfoldable pub reduce_task_state_changed : OrchestrationState → Event → Reduced OrchestrationState
reduce_task_state_changed s e = do
  id ← need e.task_ref (corrupt "Task reference is missing.")
  throw_if (id == "") (corrupt "Task reference is missing.")
  task ← need (lookup id s.tasks) (corrupt "Invalid task transition.")
  to ← need (task_state_of (to_text (get "to" e.payload))) (corrupt "Invalid task transition.")
  throw_if (task_terminal task.state && not (same_task_state task.state to))
      (corrupt "Invalid task transition.")
  let reason = timeout_reason (get "reason" e.payload)
  throw_if
      (not (is_undefined (get "reason" e.payload))
        && (not (is_timed_out to) || not (is_some reason)))
      (corrupt "Invalid terminal reason.")
  ok (record s {
    tasks =
        insert id
          (record task {
            state = to;
            admission_reason = if is_queued to then task.admission_reason else none;
            terminal_reason =
                if is_timed_out to
                then override reason task.terminal_reason
                else task.terminal_reason;
          })
          s.tasks;
  })

-- `value ? { field: value } : {}`: the empty text counts as absent.
abbrev pub nonempty : Option String → Option String
nonempty none = none
nonempty (some t) = if t == "" then none else some t

abbrev texts_of : Option Items → Option (List String)
texts_of none = none
texts_of (some xs) = some (texts xs)

-- The deadline of a new task: the payload's, or one derived from its creation.
unfoldable pub deadline_of : Host → Option String → Event → Reduced (Option String)
deadline_of host (some t) e = ok (nonempty (some t))
deadline_of host none e = derived_deadline host (get "createdAt" e.payload) >>= λ t. ok (nonempty t)

unfoldable pub reduce_task_created_m3 :
    Host → OrchestrationState → Event → Reduced OrchestrationState
reduce_task_created_m3 host s e = do
  let id = to_text (get "taskId" e.payload)
  throw_if (unusable id s.tasks) (invalid "Task already exists.")
  let endpoint = get "endpointId" e.payload
  throw_if (not (is_undefined endpoint) && not (is_some (valid_endpoint_id endpoint)))
      (corrupt "Task endpoint is invalid.")
  timeout_at ← deadline_of host (text_at "timeoutAt" e) e
  let created =
      new_task id (to_text (get "title" e.payload)) (to_text (get "objective" e.payload))
        (to_text (get "createdAt" e.payload))
  ok (record s {
    tasks =
        insert id
          (record created {
            parent_agent_id = text_at "parentAgentId" e;
            workflow_id = text_at "workflowId" e;
            profile_id = text_at "profileId" e;
            endpoint_id = valid_endpoint_id endpoint;
            constraints = texts_of (as_array (get "constraints" e.payload));
            isolation_mode = isolation_of (text_at "isolationMode" e);
            dependencies = texts_of (as_array (get "dependencies" e.payload));
            timeout_at = timeout_at;
            project = as_record (get "project" e.payload);
            run_ids = some [];
          })
          s.tasks;
  })

unfoldable pub reduce_task_project_bound : OrchestrationState → Event → Reduced OrchestrationState
reduce_task_project_bound s e = do
  let id = to_text (get "taskId" e.payload)
  task ← need (lookup id s.tasks) (corrupt "Task project binding is invalid.")
  project ← need (as_record (get "project" e.payload)) (corrupt "Task project binding is invalid.")
  ok (record s { tasks = insert id (record task { project = some project }) s.tasks })

-- The run of a cancelled task is cancelled with it.
abbrev pub cancel_run : Option String → Dict Run → Option Run → Dict Run
cancel_run none runs _ = runs
cancel_run (some id) runs none = runs
cancel_run (some id) runs (some run) =
    insert id (record run { state = RunState.cancelled; cancelled = some true }) runs

-- A task that is missing or terminal is left alone.
unfoldable pub cancel_task : OrchestrationState → String → Option Task → OrchestrationState
cancel_task s id none = s
cancel_task s id (some task) = if task_terminal task.state then s else record s {
  tasks = insert id (record task { state = TaskState.cancelled }) s.tasks;
  runs = cancel_run task.current_run_id s.runs (referenced task.current_run_id s.runs);
}

unfoldable pub reduce_task_cancel_requested :
    OrchestrationState → Event → Reduced OrchestrationState
unfolding cancel_task
reduce_task_cancel_requested s e =
    let id = ref_or e.task_ref "taskId" e in ok (cancel_task s id (lookup id s.tasks))

-- A task that is missing is left alone.
unfoldable pub note_admission :
    OrchestrationState → String → Option BlockedReason → Option Task → OrchestrationState
note_admission s id reason none = s
note_admission s id reason (some task) = record s {
  tasks = insert id (record task { admission_reason = reason }) s.tasks;
}

-- A reason that the scheduler does not give is passed over.
unfoldable pub note_blocked :
    OrchestrationState → String → Option BlockedReason → Option Task → OrchestrationState
unfolding note_admission
note_blocked s id none found = s
note_blocked s id (some reason) found = note_admission s id (some reason) found

unfoldable pub reduce_scheduler_admitted : OrchestrationState → Event → Reduced OrchestrationState
unfolding note_admission
reduce_scheduler_admitted s e =
    let id = ref_or_text e.task_ref "taskId" e in ok (note_admission s id none (lookup id s.tasks))

unfoldable pub reduce_scheduler_blocked : OrchestrationState → Event → Reduced OrchestrationState
unfolding note_blocked
reduce_scheduler_blocked s e =
    let id = ref_or_text e.task_ref "taskId" e in
    ok (
      note_blocked s id (admission_reason_of (to_text (get "reason" e.payload)))
        (lookup id s.tasks))

-- A text that `Date.parse` reads as a finite time.
abbrev pub date_text : Host → Option String → Option String
date_text host none = none
date_text host (some t) = if is_some (host.parse_date t) then some t else none

unfoldable pub reduce_task_collected :
    Host → OrchestrationState → Event → Reduced OrchestrationState
reduce_task_collected host s e = do
  let id = ref_or_text e.task_ref "taskId" e
  task ← need (lookup id s.tasks) (corrupt "Task collection evidence is invalid.")
  at ←
      need (date_text host (text_at "collectedAt" e))
        (corrupt "Task collection evidence is invalid.")
  ok (record s { tasks = insert id (record task { result_collected_at = some at }) s.tasks })
