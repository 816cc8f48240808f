-- ===== src/State/Reducer/Agents.antt =====
-- The agent events of `reduce` in src/state/reducer.ts.
use my_shtty_pi_herdr_deck.Base.{
  String, Bool, true, false, ◌||◌, Option, none, some, if◌then◌else◌, ◌==◌, ok, or_default, is_some,
}
use my_shtty_pi_herdr_deck.Base.Dict.{lookup, insert}
use my_shtty_pi_herdr_deck.Base.Int.{ℤ, pos, leb_ℤ}
use my_shtty_pi_herdr_deck.Base.Json.{
  Number, integer, get, as_integer, as_boolean, as_object, is_true,
}
use my_shtty_pi_herdr_deck.State.Host.{Host, to_text, to_number_or_one}
use my_shtty_pi_herdr_deck.State.Types.{AgentState, Agent, OrchestrationState}
use my_shtty_pi_herdr_deck.State.Event.{
  ◌>>=◌, ◌>>◌, throw_if, Event, EventType, agent_replaced, corrupt, invalid, Reduced, need,
  override, text_at, integer_at, ref_or, agent_state_of,
}

unfoldable pub reduce_agent_registered :
    Host → OrchestrationState → Event → Reduced OrchestrationState
reduce_agent_registered host s e = do
  let id = to_text (get "agentId" e.payload)
  throw_if (id == "" || is_some (lookup id s.agents)) (invalid "Agent already exists.")
  ok (record s {
    agents =
        insert id
          (record {
            id = id;
            state = AgentState.idle;
            generation = to_number_or_one host (get "generation" e.payload);
            managed = some (is_true (get "managed" e.payload));
            parent_agent_id = text_at "parentAgentId" e;
            depth = none;
            display_name = text_at "displayName" e;
            herdr_name = none;
            profile_id = text_at "profileId" e;
            requested_model = as_object (get "requestedModel" e.payload);
            effective_model = as_object (get "effectiveModel" e.payload);
            actual_model = as_object (get "actualModel" e.payload);
            model_policy_hash = text_at "modelPolicyHash" e;
            lifecycle_class = text_at "lifecycleClass" e;
            keep_for_reuse = as_boolean (get "keepForReuse" e.payload);
            terminal_id = text_at "terminalId" e;
            pane_id = text_at "paneId" e;
            workspace_id = text_at "workspaceId" e;
            tab_id = text_at "tabId" e;
            cwd = text_at "cwd" e;
            worktree_id = text_at "worktreeId" e;
            pi_session_id = text_at "piSessionId" e;
            connection_generation =
                some (to_number_or_one host (get "connectionGeneration" e.payload));
            current_run_id = none;
            current_assignment_generation = some (integer (pos 0));
            last_adapter_seq = none;
            token_digest = none;
          })
          s.agents;
  })

-- `Number.isSafeInteger(p.generation) && p.generation >= 1`, on `agent.replaced` alone.
abbrev pub at_least_one : Option ℤ → Option Number
at_least_one none = none
at_least_one (some z) = if leb_ℤ (pos 1) z then some (integer z) else none

abbrev pub new_generation : EventType → Event → Option Number
new_generation agent_replaced e = at_least_one (as_integer (get "generation" e.payload))
new_generation _ e = none

abbrev pub state_at : Option String → Option AgentState
state_at none = none
state_at (some t) = some (agent_state_of t)

-- `clearCurrentRun` removes the two fields before the payload's are written.
abbrev pub base_agent : Bool → Agent → Agent
base_agent true a = record a { current_run_id = none; current_assignment_generation = none }
base_agent false a = a

abbrev pub updated_agent : Event → Agent → Agent
updated_agent e a = record a {
  state = or_default (state_at (text_at "state" e)) a.state;
  generation = or_default (new_generation e.type e) a.generation;
  pane_id = override (text_at "paneId" e) a.pane_id;
  terminal_id = override (text_at "terminalId" e) a.terminal_id;
  workspace_id = override (text_at "workspaceId" e) a.workspace_id;
  tab_id = override (text_at "tabId" e) a.tab_id;
  cwd = override (text_at "cwd" e) a.cwd;
  worktree_id = override (text_at "worktreeId" e) a.worktree_id;
  actual_model = override (as_object (get "actualModel" e.payload)) a.actual_model;
  pi_session_id = override (text_at "piSessionId" e) a.pi_session_id;
  current_run_id = override (text_at "currentRunId" e) a.current_run_id;
  connection_generation = override (integer_at "connectionGeneration" e) a.connection_generation;
  current_assignment_generation =
      override (integer_at "currentAssignmentGeneration" e) a.current_assignment_generation;
  last_adapter_seq = override (integer_at "adapterSeq" e) a.last_adapter_seq;
}

-- `agent.heartbeat`, `agent.moved`, `agent.state_changed` and `agent.replaced`.
unfoldable pub reduce_agent_update : OrchestrationState → Event → Reduced OrchestrationState
reduce_agent_update s e = do
  let id = ref_or e.agent_ref "agentId" e
  agent ← need (lookup id s.agents) (corrupt "Agent is missing.")
  ok (record s {
    agents =
        insert id (updated_agent e (base_agent (is_true (get "clearCurrentRun" e.payload)) agent))
          s.agents;
  })
