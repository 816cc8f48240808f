-- ===== src/State/Reducer/Resources.antt =====
-- The group, workflow, review and Herdr events of `reduce` in src/state/reducer.ts.
use my_shtty_pi_herdr_deck.Base.{
  String, Bool, true, false, not, ◌&&◌, ◌||◌, List, [], Option, none, some, if◌then◌else◌, ◌==◌, ok,
  any,
}
use my_shtty_pi_herdr_deck.Base.Dict.{lookup, insert, values}
use my_shtty_pi_herdr_deck.Base.Json.{
  Items, nil, cons, get, as_boolean, as_array, is_true, texts, all_texts,
}
use my_shtty_pi_herdr_deck.State.Host.{to_text}
use my_shtty_pi_herdr_deck.State.Types.{
  AgentGroup, GroupState, opened, stopped, closed, WorkflowState, HerdrResource, ReviewContract,
  OrchestrationState,
}
use my_shtty_pi_herdr_deck.State.Event.{
  ◌>>=◌, ◌>>◌, throw_if, Event, EventType, group_closed, OrchestratorError, corrupt, Reduced, need,
  override, text_at, integer_at, ref_or, text_or_empty, workflow_state_of,
}
use my_shtty_pi_herdr_deck.State.Reducer.Tasks.{nonempty, unusable}

-- A list of texts that is not empty.
abbrev pub agent_list : Option Items → Option (List String)
agent_list none = none
agent_list (some nil) = none
agent_list (some (cons x xs)) = if all_texts (cons x xs) then some (texts (cons x xs)) else none

unfoldable pub reduce_group_created : OrchestrationState → Event → Reduced OrchestrationState
reduce_group_created s e = do
  let id = ref_or e.group_ref "groupId" e
  throw_if (unusable id s.groups) (corrupt "Group payload is invalid.")
  name ← need (text_at "name" e) (corrupt "Group payload is invalid.")
  agent_ids ←
      need (agent_list (as_array (get "agentIds" e.payload))) (corrupt "Group payload is invalid.")
  created_at ← need (text_at "createdAt" e) (corrupt "Group payload is invalid.")
  ok (record s {
    groups =
        insert id
          (record {
            id = id;
            name = name;
            agent_ids = agent_ids;
            state = opened;
            created_at = created_at;
            created_by = e.principal_id;
            stopped_at = none;
            closed_at = none;
          })
          s.groups;
  })

abbrev pub is_closing : EventType → Bool
is_closing group_closed = true
is_closing _ = false

abbrev pub is_closed : GroupState → Bool
is_closed closed = true
is_closed _ = false

abbrev pub ended_group : Bool → String → AgentGroup → AgentGroup
ended_group true at g = record g { state = closed; closed_at = some at }
ended_group false at g = record g { state = stopped; stopped_at = some at }

-- `group.stopped` and `group.closed`.
unfoldable pub reduce_group_ended : OrchestrationState → Event → Reduced OrchestrationState
reduce_group_ended s e = do
  let id = ref_or e.group_ref "groupId" e
  group ← need (lookup id s.groups) (corrupt "Group transition is invalid.")
  throw_if (is_closed group.state || (is_closing e.type && not (is_true (get "confirm" e.payload))))
      (corrupt "Group transition is invalid.")
  ok (record s {
    groups =
        insert id (ended_group (is_closing e.type) (to_text (get "at" e.payload)) group) s.groups;
  })

abbrev pub texts_or_none : Option Items → List String
texts_or_none none = []
texts_or_none (some xs) = texts xs

unfoldable pub reduce_workflow_created : OrchestrationState → Event → Reduced OrchestrationState
reduce_workflow_created s e = do
  let id = to_text (get "workflowId" e.payload)
  throw_if (unusable id s.workflows) (corrupt "Workflow already exists.")
  ok (record s {
    workflows =
        insert id
          (record {
            id = id;
            state = WorkflowState.created;
            task_ids = texts_or_none (as_array (get "taskIds" e.payload));
          })
          s.workflows;
  })

unfoldable pub reduce_workflow_state_changed :
    OrchestrationState → Event → Reduced OrchestrationState
reduce_workflow_state_changed s e = do
  let id = ref_or e.workflow_ref "workflowId" e
  workflow ← need (lookup id s.workflows) (corrupt "Workflow is missing.")
  state ←
      need (workflow_state_of (to_text (get "state" e.payload)))
        (corrupt "Workflow state is invalid.")
  ok (record s { workflows = insert id (record workflow { state = state }) s.workflows })

-- The payload's fields as the contract that the source casts it to.
abbrev pub contract_of : Event → ReviewContract
contract_of e = record {
  id = text_or_empty (get "id" e.payload);
  review_task_id = to_text (get "reviewTaskId" e.payload);
  reviewed_task_id = to_text (get "reviewedTaskId" e.payload);
  reviewed_run_id = to_text (get "reviewedRunId" e.payload);
  reviewed_result_id = to_text (get "reviewedResultId" e.payload);
  result_digest = to_text (get "resultDigest" e.payload);
  rubric_version = to_text (get "rubricVersion" e.payload);
  task_profile = to_text (get "taskProfile" e.payload);
  issued_at = to_text (get "issuedAt" e.payload);
  expires_at = to_text (get "expiresAt" e.payload);
}

abbrev pub bad_contract : OrchestratorError
bad_contract = corrupt "Review contract is invalid or already exists."

unfoldable pub reduce_review_contract_issued :
    OrchestrationState → Event → Reduced OrchestrationState
reduce_review_contract_issued s e = do
  let contract = contract_of e
  throw_if (unusable contract.id s.review_contracts) bad_contract
  throw_if (any (λ c. c.review_task_id == contract.review_task_id) (values s.review_contracts))
      bad_contract
  need (lookup contract.review_task_id s.tasks) bad_contract >>= λ _. ok tt
  task ← need (lookup contract.reviewed_task_id s.tasks) bad_contract
  profile ← need (nonempty task.profile_id) bad_contract
  run ← need (lookup contract.reviewed_run_id s.runs) bad_contract
  result ← need (lookup contract.reviewed_result_id s.results) bad_contract
  throw_if
      (not (run.task_id == task.id)
        || not (result.task_id == task.id)
        || not (result.run_id == run.id)
        || not (result.payload_hash == contract.result_digest)
        || not (contract.task_profile == profile))
      bad_contract
  ok (record s { review_contracts = insert contract.id contract s.review_contracts })

-- A resource with nothing but the agent and the first state.
abbrev pub new_resource : String → HerdrResource
new_resource id = record {
  agent_id = id;
  state = "provisioning";
  pane_id = none;
  tab_id = none;
  worktree_id = none;
  worktree_path = none;
  workspace_id = none;
  reason = none;
  parent_agent_id = none;
  owner_id = none;
  terminal_id = none;
  session_id = none;
  generation = none;
  token_digest = none;
  prompt_file_dev = none;
  prompt_file_ino = none;
  token_file_dev = none;
  token_file_ino = none;
  registration_deadline = none;
  cleanup_outcome = none;
  dirty = none;
  replaced = none;
  orphaned = none;
  unknown = none;
  parent_git_root = none;
  parent_git_head = none;
  parent_git_branch = none;
  parent_git_changed_files = none;
  worktree_git_root = none;
  worktree_git_head = none;
  worktree_git_branch = none;
}

unfoldable pub reduce_herdr_provision_intent :
    OrchestrationState → Event → Reduced OrchestrationState
reduce_herdr_provision_intent s e = do
  let id = to_text (get "agentId" e.payload)
  throw_if (id == "") (corrupt "Herdr intent agent is invalid.")
  ok (record s { herdr_resources = insert id (new_resource id) s.herdr_resources })

abbrev pub flag_at : String → Event → Option Bool
flag_at k e = as_boolean (get k e.payload)

abbrev pub text_list : Option Items → Option (List String)
text_list none = none
text_list (some xs) = if all_texts xs then some (texts xs) else none

abbrev pub outcome_resource : Event → HerdrResource → HerdrResource
outcome_resource e r = record r {
  state = to_text (get "state" e.payload);
  pane_id = override (text_at "paneId" e) r.pane_id;
  tab_id = override (text_at "tabId" e) r.tab_id;
  worktree_id = override (text_at "worktreeId" e) r.worktree_id;
  worktree_path = override (text_at "worktreePath" e) r.worktree_path;
  workspace_id = override (text_at "workspaceId" e) r.workspace_id;
  reason = override (text_at "reason" e) r.reason;
  parent_agent_id = override (text_at "parentAgentId" e) r.parent_agent_id;
  owner_id = override (text_at "ownerId" e) r.owner_id;
  terminal_id = override (text_at "terminalId" e) r.terminal_id;
  session_id = override (text_at "sessionId" e) r.session_id;
  generation = override (integer_at "generation" e) r.generation;
  token_digest = override (text_at "tokenDigest" e) r.token_digest;
  prompt_file_dev = override (integer_at "promptFileDev" e) r.prompt_file_dev;
  prompt_file_ino = override (integer_at "promptFileIno" e) r.prompt_file_ino;
  token_file_dev = override (integer_at "tokenFileDev" e) r.token_file_dev;
  token_file_ino = override (integer_at "tokenFileIno" e) r.token_file_ino;
  registration_deadline = override (text_at "registrationDeadline" e) r.registration_deadline;
  cleanup_outcome = override (text_at "cleanupOutcome" e) r.cleanup_outcome;
  dirty = override (flag_at "dirty" e) r.dirty;
  replaced = override (flag_at "replaced" e) r.replaced;
  orphaned = override (flag_at "orphaned" e) r.orphaned;
  unknown = override (flag_at "unknown" e) r.unknown;
  parent_git_root = override (text_at "parentGitRoot" e) r.parent_git_root;
  parent_git_head = override (text_at "parentGitHead" e) r.parent_git_head;
  parent_git_branch = override (text_at "parentGitBranch" e) r.parent_git_branch;
  parent_git_changed_files =
      override (text_list (as_array (get "parentGitChangedFiles" e.payload)))
        r.parent_git_changed_files;
  worktree_git_root = override (text_at "worktreeGitRoot" e) r.worktree_git_root;
  worktree_git_head = override (text_at "worktreeGitHead" e) r.worktree_git_head;
  worktree_git_branch = override (text_at "worktreeGitBranch" e) r.worktree_git_branch;
}

-- `herdr.provision.outcome` and `herdr.reconciled`. A closed resource stays closed.
unfoldable pub reduce_herdr_outcome : OrchestrationState → Event → Reduced OrchestrationState
reduce_herdr_outcome s e = do
  let id = to_text (get "agentId" e.payload)
  resource ← need (lookup id s.herdr_resources) (corrupt "Herdr resource has no intent.")
  ok (
      if resource.state == "closed" && not (to_text (get "state" e.payload) == "closed")
      then s
      else record s { herdr_resources = insert id (outcome_resource e resource) s.herdr_resources })
