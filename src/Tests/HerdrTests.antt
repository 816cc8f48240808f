-- ===== src/Tests/HerdrTests.antt =====
-- An agent, its pane and its worktree, for src/herdr/reconciler.ts.
use my_shtty_pi_herdr_deck.Base.{
  String, not, List, [], ◌∷◌, map, Option, none, some, ◌≡◌, refl, All, filter,
}
use my_shtty_pi_herdr_deck.Base.Dict.{Dict, lookup, insert}
use my_shtty_pi_herdr_deck.State.Types.{Agent, HerdrResource}
use my_shtty_pi_herdr_deck.State.Reducer.Resources.{new_resource}
use my_shtty_pi_herdr_deck.Herdr.Types.{HerdrOccupant, HerdrPane, HerdrWorktree, HerdrSnapshot}
use my_shtty_pi_herdr_deck.Herdr.Reconciler.{
  present, moved, missing, replaced, orphaned, is_closed, reconcile_agents, pane_map, find_pane,
  check_live, check_worktree, check_pane,
}
use my_shtty_pi_herdr_deck.Herdr.Reconciler.Worktree.{is_found}
use my_shtty_pi_herdr_deck.Herdr.Reconciler.Verified.{
  IsVerified, reconcile_agents-IsVerified, reconcile_agents-agent_ids,
}
use my_shtty_pi_herdr_deck.Tests.AgentTests.{idle_agent}

abbrev sample_agent : String → Option String → Option String → Agent
sample_agent id pane_id terminal_id = record idle_agent {
  id = id;
  pane_id = pane_id;
  terminal_id = terminal_id;
}

abbrev sample_pane : String → String → Option HerdrOccupant → HerdrPane
sample_pane id terminal_id occupant = record {
  id = id;
  terminal_id = some terminal_id;
  workspace_id = none;
  tab_id = none;
  cwd = none;
  occupant = occupant;
}

abbrev pi : HerdrOccupant
pi = record {
  kind = some "pi";
  name = none;
  agent_id = none;
  terminal_id = none;
  status = none;
  session_id = none;
  session_reference = none;
  generation = none;
}

abbrev sample_worktree : String → String → HerdrWorktree
sample_worktree id path = record {
  id = some id;
  workspace_id = some "ws";
  path = path;
  branch = none;
  base = none;
  tab_id = none;
  root_pane_id = none;
}

abbrev sample_resource : String → HerdrResource
sample_resource id = record (new_resource id) {
  state = "ready";
  worktree_id = some "w1";
  worktree_path = some "/w1";
  workspace_id = some "ws";
}

abbrev sample_snapshot : HerdrSnapshot
sample_snapshot = record {
  sequence = none;
  panes =
      sample_pane "p1" "t1" (some pi)
      ∷ sample_pane "p2" "t2" (some pi)
      ∷ sample_pane "p3" "t3" none
      ∷ [];
  worktrees = sample_worktree "w1" "/w1" ∷ sample_worktree "w2" "/w2" ∷ [];
}

-- In place with a worktree, moved to another pane, on a pane that is empty, with a terminal that
-- changed, without a pane, and closed.
abbrev sample_agents : List Agent
sample_agents =
    sample_agent "a1" (some "p1") (some "t1")
    ∷ sample_agent "a2" (some "gone") (some "t2")
    ∷ sample_agent "a3" (some "p3") none
    ∷ sample_agent "a4" (some "p2") (some "t9")
    ∷ sample_agent "a5" none none
    ∷ sample_agent "a6" (some "p1") none
    ∷ []

abbrev sample_resources : Dict HerdrResource
sample_resources =
    ("a1", sample_resource "a1") ∷ ("a6", record (sample_resource "a6") { state = "closed" }) ∷ []

reconciled_sample :
    map (λ r. r.kind) (reconcile_agents sample_agents sample_snapshot sample_resources)
    ≡ present ∷ moved ∷ orphaned ∷ replaced ∷ missing ∷ []
unfolding reconcile_agents find_pane check_pane check_worktree check_live pane_map lookup insert
reconciled_sample = refl

reconcile_agents-IsVerified_example :
    All (IsVerified sample_agents sample_snapshot sample_resources) (
      filter
        (λ r. is_found r.kind)
        (reconcile_agents sample_agents sample_snapshot sample_resources))
reconcile_agents-IsVerified_example =
    reconcile_agents-IsVerified sample_agents sample_snapshot sample_resources

reconcile_agents-agent_ids_example :
    map (λ r. r.agent_id) (reconcile_agents sample_agents sample_snapshot sample_resources)
    ≡ map
        (λ agent. agent.id)
        (filter (λ agent. not (is_closed (lookup agent.id sample_resources))) sample_agents)
reconcile_agents-agent_ids_example =
    reconcile_agents-agent_ids sample_agents sample_snapshot sample_resources
