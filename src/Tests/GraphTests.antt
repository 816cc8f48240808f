-- ===== src/Tests/GraphTests.antt =====
-- A chain of three agents, for src/state/agent-domain.ts.
use my_shtty_pi_herdr_deck.Base.{String, [], ◌∷◌, Option, none, some, ◌≡◌, refl, ok, err, All, ◌↔◌}
use my_shtty_pi_herdr_deck.Base.Int.{pos}
use my_shtty_pi_herdr_deck.Base.Json.{integer}
use my_shtty_pi_herdr_deck.Base.Dict.{lookup, values}
use my_shtty_pi_herdr_deck.State.Types.{Agent, AgentState, OrchestrationState}
use my_shtty_pi_herdr_deck.State.Reducer.{empty_state}
use my_shtty_pi_herdr_deck.Agent.Domain.{
  assert_agent_graph, check_agents, check_agent, climb, transition_agent, can_transition_agent,
}
use my_shtty_pi_herdr_deck.Agent.Domain.Graph.{IsPlaced, IsKeyed, assert_agent_graph-IsPlaced}
use my_shtty_pi_herdr_deck.Tests.AgentTests.{idle_agent}

abbrev child : String → Option String → Agent
child id parent = record idle_agent { id = id; parent_agent_id = parent }

abbrev chain : OrchestrationState
chain = record empty_state {
  agents =
      ("root", child "root" none)
      ∷ ("lead", child "lead" (some "root"))
      ∷ ("helper", record (child "helper" (some "lead")) { depth = some (integer (pos 2)) })
      ∷ [];
}

abbrev too_deep : OrchestrationState
too_deep = record chain { agents = ("fourth", child "fourth" (some "helper")) ∷ chain.agents }

deep_chain : assert_agent_graph too_deep ≡ err "Delegation depth exceeded."
unfolding assert_agent_graph check_agents check_agent climb lookup
deep_chain = refl

stopped_agent :
    transition_agent (record idle_agent { state = AgentState.stopped }) AgentState.idle
    ≡ err "Invalid agent transition stopped -> idle."
unfolding transition_agent can_transition_agent
stopped_agent = refl

chain-IsKeyed : IsKeyed chain.agents
chain-IsKeyed = (refl, (refl, (refl, tt)))

assert_agent_graph-IsPlaced_example :
    (assert_agent_graph chain ≡ ok tt) ↔ All (IsPlaced chain.agents) (values chain.agents)
assert_agent_graph-IsPlaced_example = assert_agent_graph-IsPlaced chain chain-IsKeyed

chain-IsPlaced : All (IsPlaced chain.agents) (values chain.agents)
unfolding assert_agent_graph check_agents check_agent climb lookup
chain-IsPlaced = assert_agent_graph-IsPlaced_example.0 refl
