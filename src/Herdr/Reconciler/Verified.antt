-- ===== src/Herdr/Reconciler/Verified.antt =====
-- What `reconcileAgents` of src/herdr/reconciler.ts has checked before it reports an agent as found.
use my_shtty_pi_herdr_deck.Base.{
  String, Bool, true, false, not, List, [], ◌∷◌, map, Option, none, some, ◌≡◌, refl, ◌⊎◌, inl, inr,
  same_text?, filter, find, All, All-Among, Among, Bool-cases,
}
use my_shtty_pi_herdr_deck.Base.Dict.{Dict, lookup, insert, Entries, Entries-insert, Entries-lookup}
use my_shtty_pi_herdr_deck.State.Types.{Agent, HerdrResource}
use my_shtty_pi_herdr_deck.State.Reducer.Tasks.{nonempty}
use my_shtty_pi_herdr_deck.Herdr.Types.{HerdrPane, HerdrSnapshot}
use my_shtty_pi_herdr_deck.Herdr.Reconciler.{
  Reconciliation, pane_map, pane_terminal, pane_by_id, pane_by_terminal, pane_or, find_pane,
  terminal_changed, check_pane, check_found, no_occupant, is_closed, reconcile_agents,
}
use my_shtty_pi_herdr_deck.Herdr.Reconciler.Worktree.{
  is_found, recorded, IsOpen, check_resource-Names, check_resource-IsOpen,
}

-- The entry is about an agent and an occupied pane of the snapshot, whose terminal is not another
-- than the recorded one, and about the worktree that is recorded, if there is one.
pub record IsVerified (agents : List Agent) (snapshot : HerdrSnapshot)
    (resources : Dict HerdrResource) (r : Reconciliation) : Type 0 where
  pub agent : Agent
  pub known : Among agent agents
  pub agent_id : r.agent_id ≡ agent.id
  pub pane : HerdrPane
  pub live : Among pane snapshot.panes
  pub pane_id : r.pane_id ≡ some pane.id
  pub occupied : no_occupant pane.occupant ≡ false
  pub same_terminal :
      terminal_changed (nonempty agent.terminal_id) (nonempty (pane_terminal pane)) ≡ false
  pub same_worktree :
      IsOpen snapshot
        (recorded (λ w. w.worktree_id) (lookup agent.id resources))
        (recorded (λ w. w.worktree_path) (lookup agent.id resources))
        (recorded (λ w. w.workspace_id) (lookup agent.id resources))
        r

-- A pane that the lookups find is one of the snapshot's.
pane_map-Among :
    (all : List HerdrPane) (panes : Dict HerdrPane) (rest : List HerdrPane)
    → Entries (λ id pane. Among pane all) panes
    → All (λ pane. Among pane all) rest
    → Entries (λ id pane. Among pane all) (pane_map panes rest)
unfolding pane_map
pane_map-Among all panes [] h k = h
pane_map-Among all panes (pane ∷ rest) h k =
    pane_map-Among all (insert pane.id pane panes) rest
      (Entries-insert (λ id pane. Among pane all) pane.id pane panes h k.0) k.1

find-Among :
    (p : HerdrPane → Bool) (panes : List HerdrPane) {pane : HerdrPane}
    → find p panes ≡ some pane
    → Among pane panes
find-Among p [] h = cc h
find-Among p (x ∷ xs) {pane} h = elim (Bool-cases (p x)) [
  | inl e ↦ let same : Path (Option HerdrPane) (some x) (some pane) = rw e at h in inl (cc same)
  | inr e ↦ inr (find-Among p xs (rw e at h))
]

pane_by_id-Among :
    (snapshot : HerdrSnapshot) (id : Option String) {pane : HerdrPane}
    → pane_by_id snapshot id ≡ some pane
    → Among pane snapshot.panes
pane_by_id-Among snapshot none h = cc h
pane_by_id-Among snapshot (some id) {pane} h =
    Entries-lookup (λ id pane. Among pane snapshot.panes) id (pane_map [] snapshot.panes)
      (pane_map-Among snapshot.panes [] snapshot.panes tt (All-Among snapshot.panes)) h

pane_by_terminal-Among :
    (snapshot : HerdrSnapshot) (terminal : Option String) {pane : HerdrPane}
    → pane_by_terminal snapshot terminal ≡ some pane
    → Among pane snapshot.panes
pane_by_terminal-Among snapshot none h = cc h
pane_by_terminal-Among snapshot (some terminal) h =
    find-Among (λ pane. same_text? (pane_terminal pane) (some terminal)) snapshot.panes h

pane_or-some :
    (first second : Option HerdrPane) {pane : HerdrPane}
    → pane_or first second ≡ some pane
    → (first ≡ some pane) ⊎ (second ≡ some pane)
pane_or-some none second h = inr h
pane_or-some (some pane) second h = inl h

find_pane-Among :
    (agent : Agent) (snapshot : HerdrSnapshot) {pane : HerdrPane}
    → find_pane agent snapshot ≡ some pane
    → Among pane snapshot.panes
unfolding find_pane
find_pane-Among agent snapshot h =
    elim (pane_or-some (pane_by_id snapshot (nonempty agent.pane_id))
      (pane_by_terminal snapshot (nonempty agent.terminal_id)) h) [
        | inl e ↦ pane_by_id-Among snapshot (nonempty agent.pane_id) e
        | inr e ↦ pane_by_terminal-Among snapshot (nonempty agent.terminal_id) e
      ]

check_pane-IsVerified :
    (agents : List Agent) (snapshot : HerdrSnapshot) (resources : Dict HerdrResource)
    (agent : Agent) (pane : HerdrPane)
    → Among agent agents
    → Among pane snapshot.panes
    → is_found (check_pane agent snapshot (lookup agent.id resources) pane).kind ≡ true
    → IsVerified agents snapshot resources
        (check_pane agent snapshot (lookup agent.id resources) pane)
unfolding check_pane
check_pane-IsVerified agents snapshot resources agent pane a m h =
    elim (Bool-cases (no_occupant pane.occupant)) [
      | inl e ↦ absurd (cc (rw e at h))
      | inr e ↦
          elim (Bool-cases
            (terminal_changed (nonempty agent.terminal_id) (nonempty (pane_terminal pane)))) [
              | inl q ↦ absurd (cc (rw (e, q) at h))
              | inr q ↦
                  let names =
                    check_resource-Names agent snapshot pane (lookup agent.id resources) in
                  rw (e, q)
                    (record {
                      agent = agent;
                      known = a;
                      agent_id = names.0;
                      pane = pane;
                      live = m;
                      pane_id = names.1;
                      occupied = e;
                      same_terminal = q;
                      same_worktree =
                          check_resource-IsOpen agent snapshot pane (lookup agent.id resources)
                            (rw (e, q) at h);
                    })
            ]
    ]

check_found-IsVerified :
    (agents : List Agent) (snapshot : HerdrSnapshot) (resources : Dict HerdrResource)
    (agent : Agent) (pane : Option HerdrPane)
    → Among agent agents
    → find_pane agent snapshot ≡ pane
    → is_found (check_found agent snapshot (lookup agent.id resources) pane).kind ≡ true
    → IsVerified agents snapshot resources
        (check_found agent snapshot (lookup agent.id resources) pane)
check_found-IsVerified agents snapshot resources agent none a e h = cc h
check_found-IsVerified agents snapshot resources agent (some pane) a e h =
    check_pane-IsVerified agents snapshot resources agent pane a (find_pane-Among agent snapshot e)
      h

reconcile-IsVerified :
    (all : List Agent) (agents : List Agent) (snapshot : HerdrSnapshot)
    (resources : Dict HerdrResource)
    → All (λ agent. Among agent all) agents
    → All
        (IsVerified all snapshot resources)
        (filter (λ r. is_found r.kind) (reconcile_agents agents snapshot resources))
unfolding reconcile_agents
reconcile-IsVerified all [] snapshot resources h = tt
reconcile-IsVerified all (agent ∷ agents) snapshot resources h =
    let rest = reconcile-IsVerified all agents snapshot resources h.1 in
    elim (Bool-cases (is_closed (lookup agent.id resources))) [
      | inl e ↦ rw e rest
      | inr e ↦
          elim (Bool-cases (
            is_found
              (check_found agent snapshot (lookup agent.id resources)
                (find_pane agent snapshot)).kind)) [
                  | inr q ↦ rw e (rw q rest)
                  | inl q ↦ rw e (
                      rw q (
                        check_found-IsVerified all snapshot resources agent
                            (find_pane agent snapshot) h.0 refl q,
                        rest,
                      ))
                ]
    ]

-- An agent is reported as present or as moved only if it is verified. The entry names an agent of
-- the list and a pane of the snapshot that has an occupant. Where the agent and the pane both have
-- a terminal, it is the same one. The entry's worktree is the recorded one. Where an id of a
-- worktree is recorded, the snapshot has exactly one worktree with this id, with the recorded path
-- and workspace; where none is recorded, no path and no workspace are recorded either.
pub reconcile_agents-IsVerified :
    (agents : List Agent) (snapshot : HerdrSnapshot) (resources : Dict HerdrResource)
    → All
        (IsVerified agents snapshot resources)
        (filter (λ r. is_found r.kind) (reconcile_agents agents snapshot resources))
reconcile_agents-IsVerified agents snapshot resources =
    reconcile-IsVerified agents agents snapshot resources (All-Among agents)

check_pane-agent_id :
    (agent : Agent) (snapshot : HerdrSnapshot) (resource : Option HerdrResource) (pane : HerdrPane)
    → (check_pane agent snapshot resource pane).agent_id ≡ agent.id
unfolding check_pane
check_pane-agent_id agent snapshot resource pane = elim (Bool-cases (no_occupant pane.occupant)) [
  | inl e ↦ rw e refl
  | inr e ↦
      elim (Bool-cases
        (terminal_changed (nonempty agent.terminal_id) (nonempty (pane_terminal pane)))) [
          | inl q ↦ rw (e, q) refl
          | inr q ↦ rw (e, q) ((check_resource-Names agent snapshot pane resource).0)
        ]
]

check_found-agent_id :
    (agent : Agent) (snapshot : HerdrSnapshot) (resource : Option HerdrResource)
    (pane : Option HerdrPane)
    → (check_found agent snapshot resource pane).agent_id ≡ agent.id
check_found-agent_id agent snapshot resource none = refl
check_found-agent_id agent snapshot resource (some pane) =
    check_pane-agent_id agent snapshot resource pane

-- Each agent whose recorded resource is not closed is reported exactly once, in the order of the
-- list, and no other agent is.
pub reconcile_agents-agent_ids :
    (agents : List Agent) (snapshot : HerdrSnapshot) (resources : Dict HerdrResource)
    → map (λ r. r.agent_id) (reconcile_agents agents snapshot resources)
      ≡ map
          (λ agent. agent.id)
          (filter (λ agent. not (is_closed (lookup agent.id resources))) agents)
unfolding reconcile_agents
reconcile_agents-agent_ids [] snapshot resources = refl
reconcile_agents-agent_ids (agent ∷ agents) snapshot resources =
    let rest = reconcile_agents-agent_ids agents snapshot resources in
    elim (Bool-cases (is_closed (lookup agent.id resources))) [
      | inl e ↦ rw e rest
      | inr e ↦ rw e (
          cc (
            check_found-agent_id agent snapshot (lookup agent.id resources)
                (find_pane agent snapshot),
            rest,
          ))
    ]
