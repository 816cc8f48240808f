-- ===== src/Herdr/Reconciler.antt =====
-- `reconcileAgents` of src/herdr/reconciler.ts.
pub mod Worktree
pub mod Verified
use my_shtty_pi_herdr_deck.Base.{
  String, Bool, true, false, not, ◌&&◌, ◌||◌, List, [], ◌∷◌, Option, none, some, if◌then◌else◌,
  ◌==◌, same_text?, truthy?, filter, find,
}
use my_shtty_pi_herdr_deck.Base.Dict.{Dict, lookup, insert}
use my_shtty_pi_herdr_deck.State.Types.{Agent, HerdrResource}
use my_shtty_pi_herdr_deck.State.Reducer.Tasks.{nonempty}
use my_shtty_pi_herdr_deck.Herdr.Types.{HerdrOccupant, HerdrPane, HerdrWorktree, HerdrSnapshot}

pub data ReconciliationKind : Type 0 where
  present moved missing replaced orphaned unknown : ReconciliationKind

pub record Reconciliation : Type 0 where
  pub agent_id : String
  pub kind : ReconciliationKind
  pub pane_id : Option String
  pub terminal_id : Option String
  pub worktree_id : Option String
  pub worktree_path : Option String
  pub workspace_id : Option String
  pub reason : Option String

-- An entry without worktree, of some kind and reason.
abbrev pub entry :
    Agent → ReconciliationKind → Option String → Option String → String → Reconciliation
entry agent kind pane_id terminal_id reason = record {
  agent_id = agent.id;
  kind = kind;
  pane_id = pane_id;
  terminal_id = terminal_id;
  worktree_id = none;
  worktree_path = none;
  workspace_id = none;
  reason = some reason;
}

-- `new Map(snapshot.panes.map((pane) => [pane.id, pane]))`, on what is there already.
unfoldable pub pane_map : Dict HerdrPane → List HerdrPane → Dict HerdrPane
pane_map panes [] = panes
pane_map panes (pane ∷ rest) = pane_map (insert pane.id pane panes) rest

-- `value ?? other`
abbrev pub either : Option String → Option String → Option String
either none other = other
either (some text) other = some text

abbrev pub occupant_terminal : Option HerdrOccupant → Option String
occupant_terminal none = none
occupant_terminal (some occupant) = occupant.terminal_id

abbrev pub pane_terminal : HerdrPane → Option String
pane_terminal pane = either (occupant_terminal pane.occupant) pane.terminal_id

abbrev pub pane_by_id : HerdrSnapshot → Option String → Option HerdrPane
pane_by_id snapshot none = none
pane_by_id snapshot (some id) = lookup id (pane_map [] snapshot.panes)

abbrev pub pane_by_terminal : HerdrSnapshot → Option String → Option HerdrPane
pane_by_terminal snapshot none = none
pane_by_terminal snapshot (some terminal) =
    find (λ pane. same_text? (pane_terminal pane) (some terminal)) snapshot.panes

abbrev pub pane_or : Option HerdrPane → Option HerdrPane → Option HerdrPane
pane_or none other = other
pane_or (some pane) other = some pane

-- By the recorded pane, else by the recorded terminal.
unfoldable pub find_pane : Agent → HerdrSnapshot → Option HerdrPane
unfolding pane_map
find_pane agent snapshot =
    pane_or (pane_by_id snapshot (nonempty agent.pane_id))
      (pane_by_terminal snapshot (nonempty agent.terminal_id))

-- `agent.terminalId && terminalId && agent.terminalId !== terminalId`
abbrev pub terminal_changed : Option String → Option String → Bool
terminal_changed (some old) (some new) = not (old == new)
terminal_changed _ _ = false

-- `worktreeIdentity`
pub record WorktreeIdentity : Type 0 where
  pub worktree_id : String
  pub worktree_path : String
  pub workspace_id : String

abbrev pub worktree_field : (WorktreeIdentity → String) → Option WorktreeIdentity → Option String
worktree_field field none = none
worktree_field field (some worktree) = some (field worktree)

-- The last entry; `worktree` is the identity that was verified, if one is recorded.
abbrev pub found : Agent → HerdrPane → Option WorktreeIdentity → Reconciliation
found agent pane worktree = record {
  agent_id = agent.id;
  kind = if same_text? agent.pane_id (some pane.id) then present else moved;
  pane_id = some pane.id;
  terminal_id = nonempty (pane_terminal pane);
  worktree_id = worktree_field (λ w. w.worktree_id) worktree;
  worktree_path = worktree_field (λ w. w.worktree_path) worktree;
  workspace_id = worktree_field (λ w. w.workspace_id) worktree;
  reason = none;
}

-- An entry about the pane that says why the agent is not where it was.
abbrev pub lost_worktree : Agent → HerdrPane → ReconciliationKind → String → Reconciliation
lost_worktree agent pane kind reason =
    entry agent kind (some pane.id) (nonempty (pane_terminal pane)) reason

-- The live worktrees with the recorded id.
abbrev pub live_matches : HerdrSnapshot → String → List HerdrWorktree
live_matches snapshot id = filter (λ worktree. same_text? worktree.id (some id)) snapshot.worktrees

unfoldable pub check_live :
    Agent → HerdrPane → String → String → String → List HerdrWorktree → Reconciliation
check_live agent pane id path workspace [] =
    lost_worktree agent pane missing "Recorded worktree is absent."
check_live agent pane id path workspace (live ∷ []) =
    if not (live.path == path) || not (same_text? live.workspace_id (some workspace))
    then lost_worktree agent pane replaced "Recorded worktree identity changed."
    else found agent pane
        (some (record { worktree_id = id; worktree_path = live.path; workspace_id = workspace }))
check_live agent pane id path workspace (live ∷ other ∷ rest) =
    lost_worktree agent pane replaced "Recorded worktree identity is ambiguous."

-- The recorded id, path and workspace, where none of them is empty.
unfoldable pub check_worktree :
    Agent
    → HerdrSnapshot
    → HerdrPane
    → Option String
    → Option String
    → Option String
    → Reconciliation
unfolding check_live
check_worktree agent snapshot pane none none none = found agent pane none
check_worktree agent snapshot pane (some id) (some path) (some workspace) =
    check_live agent pane id path workspace (live_matches snapshot id)
check_worktree agent snapshot pane _ _ _ =
    lost_worktree agent pane replaced "Recorded worktree identity is incomplete."

abbrev pub check_resource :
    Agent → HerdrSnapshot → HerdrPane → Option HerdrResource → Reconciliation
check_resource agent snapshot pane none = check_worktree agent snapshot pane none none none
check_resource agent snapshot pane (some r) =
    check_worktree agent snapshot pane (nonempty r.worktree_id) (nonempty r.worktree_path)
      (nonempty r.workspace_id)

abbrev pub no_occupant : Option HerdrOccupant → Bool
no_occupant none = true
no_occupant (some occupant) = false

unfoldable pub check_pane :
    Agent → HerdrSnapshot → Option HerdrResource → HerdrPane → Reconciliation
unfolding check_worktree
check_pane agent snapshot resource pane =
    if no_occupant pane.occupant
    then entry agent orphaned (some pane.id) none "Managed pane has no verified occupant."
    else if terminal_changed (nonempty agent.terminal_id) (nonempty (pane_terminal pane))
    then entry agent replaced (some pane.id) (pane_terminal pane) "Terminal occupant changed."
    else check_resource agent snapshot pane resource

abbrev pub check_found :
    Agent → HerdrSnapshot → Option HerdrResource → Option HerdrPane → Reconciliation
check_found agent snapshot resource none = entry agent missing none none "Recorded pane is absent."
check_found agent snapshot resource (some pane) = check_pane agent snapshot resource pane

abbrev pub is_closed : Option HerdrResource → Bool
is_closed none = false
is_closed (some resource) = resource.state == "closed"

unfoldable pub reconcile_agents :
    List Agent → HerdrSnapshot → Dict HerdrResource → List Reconciliation
unfolding find_pane check_pane
reconcile_agents [] snapshot resources = []
reconcile_agents (agent ∷ agents) snapshot resources =
    let resource = lookup agent.id resources in
    let rest = reconcile_agents agents snapshot resources in
    if is_closed resource
    then rest
    else check_found agent snapshot resource (find_pane agent snapshot) ∷ rest
