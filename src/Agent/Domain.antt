-- ===== src/Agent/Domain.antt =====
-- src/state/agent-domain.ts: the transitions of an agent's state and the graph of parents. An error
-- is its message; a state whose name only a cast lets in has no list of transitions.
pub mod Graph
use Prim.Native.String.{◌++◌}
use my_shtty_pi_herdr_deck.Base.{
  ℕ, zero, suc, String, Bool, true, false, not, ◌&&◌, ◌||◌, List, [], ◌∷◌, Option, none, some,
  if◌then◌else◌, ◌==◌, eqb, any, same_text?, includes, is_some, Result, ok, err, throw_if, ◌>>=◌,
  ◌>>◌,
}
use my_shtty_pi_herdr_deck.Base.Int.{ℤ, pos, negsuc}
use my_shtty_pi_herdr_deck.Base.Json.{Number, integer, other}
use my_shtty_pi_herdr_deck.Base.Dict.{Dict, lookup, values}
use my_shtty_pi_herdr_deck.State.Types.{AgentState, Agent, OrchestrationState}
use my_shtty_pi_herdr_deck.State.Reducer.Tasks.{nonempty}

abbrev pub state_name : AgentState → String
state_name AgentState.provisioning = "provisioning"
state_name AgentState.starting = "starting"
state_name AgentState.idle = "idle"
state_name AgentState.working = "working"
state_name AgentState.blocked = "blocked"
state_name AgentState.stopping = "stopping"
state_name AgentState.stopped = "stopped"
state_name AgentState.failed = "failed"
state_name AgentState.orphaned = "orphaned"
state_name AgentState.replaced = "replaced"
state_name (AgentState.unlisted name) = name

-- `terminal`
abbrev pub is_terminal : AgentState → Bool
is_terminal AgentState.stopped = true
is_terminal AgentState.failed = true
is_terminal AgentState.replaced = true
is_terminal _ = false

-- `allowed`, by name
abbrev pub allowed : AgentState → Option (List String)
allowed AgentState.provisioning = some ("starting" ∷ "failed" ∷ "orphaned" ∷ [])
allowed AgentState.starting = some ("idle" ∷ "failed" ∷ "orphaned" ∷ [])
allowed AgentState.idle = some ("working" ∷ "stopping" ∷ "orphaned" ∷ "replaced" ∷ [])
allowed AgentState.working = some ("idle" ∷ "blocked" ∷ "stopping" ∷ "orphaned" ∷ "replaced" ∷ [])
allowed AgentState.blocked = some ("working" ∷ "stopping" ∷ "orphaned" ∷ "replaced" ∷ [])
allowed AgentState.stopping = some ("stopped" ∷ "orphaned" ∷ [])
allowed AgentState.stopped = some []
allowed AgentState.failed = some []
allowed AgentState.orphaned = some ("idle" ∷ "stopped" ∷ [])
allowed AgentState.replaced = some []
allowed (AgentState.unlisted name) = none

-- `allowed[from].includes(to)`, which throws where there is no list.
abbrev pub listed : Option (List String) → String → Result String Bool
listed none to = err "Cannot read properties of undefined."
listed (some states) to = ok (includes states to)

unfoldable pub can_transition_agent : AgentState → AgentState → Result String Bool
can_transition_agent from to =
    if state_name from == state_name to then ok true else listed (allowed from) (state_name to)

unfoldable pub transition_agent : Agent → AgentState → Result String Agent
unfolding can_transition_agent
transition_agent agent to = can_transition_agent agent.state to >>= λ possible.
    throw_if (not possible)
      ("Invalid agent transition " ++ state_name agent.state ++ " -> " ++ state_name to ++ ".")
    >> ok (record agent { state = to })

abbrev pub parent_found : Option Agent → Result String Agent
parent_found none = err "Agent parent is missing."
parent_found (some parent) = ok parent

-- The `while` loop. `left` is what the bound of 2 leaves for `depth` to grow.
unfoldable pub climb : Dict Agent → ℕ → ℕ → List String → Agent → Option String → Result String ℕ
climb agents left depth seen current none = ok depth
climb agents zero depth seen current (some parent) = err "Delegation depth exceeded."
climb agents (suc left) depth seen current (some parent) =
    throw_if (includes seen current.id) "Agent parent cycle."
    >> parent_found (lookup parent agents)
    >>= λ next.
        climb agents left (suc depth) (current.id ∷ seen) next (nonempty next.parent_agent_id)

-- `agent.depth !== undefined && agent.depth !== depth`
abbrev pub other_depth : Option Number → ℕ → Bool
other_depth none depth = false
other_depth (some (integer (pos n))) depth = not (eqb n depth)
other_depth (some _) depth = true

-- A round of the `for` loop.
unfoldable pub check_agent : Dict Agent → Agent → Result String (Unit {0})
unfolding climb
check_agent agents agent =
    throw_if (same_text? agent.parent_agent_id (some agent.id)) "Agent parent cycle."
    >> climb agents 2 0 [] agent (nonempty agent.parent_agent_id)
    >>= λ depth.
        throw_if (other_depth agent.depth depth) "Agent depth invariant failed."
        >> throw_if (is_some (nonempty agent.current_run_id) && is_terminal agent.state)
            "Terminal agent has active run."

unfoldable pub check_agents : Dict Agent → List Agent → Result String (Unit {0})
unfolding check_agent
check_agents agents [] = ok tt
check_agents agents (agent ∷ rest) = check_agent agents agent >> check_agents agents rest

unfoldable pub assert_agent_graph : OrchestrationState → Result String (Unit {0})
unfolding check_agents
assert_agent_graph s = check_agents s.agents (values s.agents)

-- The agent without its token digest.
unfoldable pub agent_view : Agent → Agent
agent_view agent = record agent { token_digest = none }
