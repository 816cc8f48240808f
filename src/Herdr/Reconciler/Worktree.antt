-- ===== src/Herdr/Reconciler/Worktree.antt =====
-- The worktree of an agent that src/herdr/reconciler.ts reports as found.
use my_shtty_pi_herdr_deck.Base.{
  String, Bool, true, false, not, ◌||◌, List, [], ◌∷◌, Option, none, some, ◌≡◌, refl, sym, ap,
  arith, inl, inr, ◌==◌, eq_iff, same_text?, Bool-cases,
}
use my_shtty_pi_herdr_deck.State.Types.{Agent, HerdrResource}
use my_shtty_pi_herdr_deck.State.Reducer.Tasks.{nonempty}
use my_shtty_pi_herdr_deck.Herdr.Types.{HerdrPane, HerdrWorktree, HerdrSnapshot}
use my_shtty_pi_herdr_deck.Herdr.Reconciler.{
  ReconciliationKind, present, moved, Reconciliation, live_matches, check_live, check_worktree,
  check_resource,
}

abbrev pub is_found : ReconciliationKind → Bool
is_found present = true
is_found moved = true
is_found _ = false

abbrev pub recorded : (HerdrResource → Option String) → Option HerdrResource → Option String
recorded field none = none
recorded field (some resource) = nonempty (field resource)

-- The worktree that is recorded is the only live one with its id, and it has the recorded path and
-- workspace.
abbrev pub IsLive : HerdrSnapshot → Option String → Option String → Option String → Type 0
IsLive snapshot none path workspace = (path ≡ none) × (workspace ≡ none)
IsLive snapshot (some id) path workspace =
    (live : HerdrWorktree) × (live_matches snapshot id ≡ live ∷ [])
    × (path ≡ some live.path)
    × (workspace ≡ live.workspace_id)

abbrev pub IsOpen :
    HerdrSnapshot → Option String → Option String → Option String → Reconciliation → Type 0
IsOpen snapshot id path workspace r =
    IsLive snapshot id path workspace
    × (r.worktree_id ≡ id)
    × (r.worktree_path ≡ path)
    × (r.workspace_id ≡ workspace)

same_text?-some : (o : Option String) (s : String) → same_text? o (some s) ≡ true → o ≡ some s
same_text?-some none s h = cc h
same_text?-some (some t) s h = ap some ((eq_iff t s).0 h)

check_live-IsOpen :
    (agent : Agent) (snapshot : HerdrSnapshot) (pane : HerdrPane) (id path workspace : String)
    (matches : List HerdrWorktree)
    → live_matches snapshot id ≡ matches
    → is_found (check_live agent pane id path workspace matches).kind ≡ true
    → IsOpen snapshot
        (some id)
        (some path)
        (some workspace)
        (check_live agent pane id path workspace matches)
unfolding check_live
check_live-IsOpen agent snapshot pane id path workspace [] m h = cc h
check_live-IsOpen agent snapshot pane id path workspace (live ∷ other ∷ rest) m h = cc h
check_live-IsOpen agent snapshot pane id path workspace (live ∷ []) m h =
    elim (Bool-cases (live.path == path)) [
      | inr e ↦ absurd (ground (arith, e, h))
      | inl e ↦ elim (Bool-cases (same_text? live.workspace_id (some workspace))) [
        | inr q ↦ absurd (ground (arith, e, q, h))
        | inl q ↦
            let same_path : live.path ≡ path = (eq_iff live.path path).0 e in
            let same_workspace = same_text?-some live.workspace_id workspace q in
            rw e (
              rw q (
                (live, m, ap some (sym same_path), sym same_workspace),
                refl,
                ap some same_path,
                refl,
              ))
      ]
    ]

check_worktree-IsOpen :
    (agent : Agent) (snapshot : HerdrSnapshot) (pane : HerdrPane)
    (id path workspace : Option String)
    → is_found (check_worktree agent snapshot pane id path workspace).kind ≡ true
    → IsOpen snapshot id path workspace (check_worktree agent snapshot pane id path workspace)
unfolding check_worktree
check_worktree-IsOpen agent snapshot pane none none none h = ((refl, refl), refl, refl, refl)
check_worktree-IsOpen agent snapshot pane (some id) (some path) (some workspace) h =
    check_live-IsOpen agent snapshot pane id path workspace (live_matches snapshot id) refl h
check_worktree-IsOpen agent snapshot pane none none (some c) h = cc h
check_worktree-IsOpen agent snapshot pane none (some b) none h = cc h
check_worktree-IsOpen agent snapshot pane none (some b) (some c) h = cc h
check_worktree-IsOpen agent snapshot pane (some a) none none h = cc h
check_worktree-IsOpen agent snapshot pane (some a) none (some c) h = cc h
check_worktree-IsOpen agent snapshot pane (some a) (some b) none h = cc h

-- An entry of the last part names the agent and the pane.
abbrev pub Names : Agent → HerdrPane → Reconciliation → Type 0
Names agent pane r = (r.agent_id ≡ agent.id) × (r.pane_id ≡ some pane.id)

check_live-Names :
    (agent : Agent) (pane : HerdrPane) (id path workspace : String) (matches : List HerdrWorktree)
    → Names agent pane (check_live agent pane id path workspace matches)
unfolding check_live
check_live-Names agent pane id path workspace [] = (refl, refl)
check_live-Names agent pane id path workspace (live ∷ other ∷ rest) = (refl, refl)
check_live-Names agent pane id path workspace (live ∷ []) =
    elim (Bool-cases
      (not (live.path == path) || not (same_text? live.workspace_id (some workspace)))) [
        | inl e ↦ rw e (refl, refl)
        | inr e ↦ rw e (refl, refl)
      ]

check_worktree-Names :
    (agent : Agent) (snapshot : HerdrSnapshot) (pane : HerdrPane)
    (id path workspace : Option String)
    → Names agent pane (check_worktree agent snapshot pane id path workspace)
unfolding check_worktree
check_worktree-Names agent snapshot pane none none none = (refl, refl)
check_worktree-Names agent snapshot pane (some id) (some path) (some workspace) =
    check_live-Names agent pane id path workspace (live_matches snapshot id)
check_worktree-Names agent snapshot pane none none (some c) = (refl, refl)
check_worktree-Names agent snapshot pane none (some b) none = (refl, refl)
check_worktree-Names agent snapshot pane none (some b) (some c) = (refl, refl)
check_worktree-Names agent snapshot pane (some a) none none = (refl, refl)
check_worktree-Names agent snapshot pane (some a) none (some c) = (refl, refl)
check_worktree-Names agent snapshot pane (some a) (some b) none = (refl, refl)

pub check_resource-Names :
    (agent : Agent) (snapshot : HerdrSnapshot) (pane : HerdrPane) (resource : Option HerdrResource)
    → Names agent pane (check_resource agent snapshot pane resource)
check_resource-Names agent snapshot pane none =
    check_worktree-Names agent snapshot pane none none none
check_resource-Names agent snapshot pane (some r) =
    check_worktree-Names agent snapshot pane (nonempty r.worktree_id) (nonempty r.worktree_path)
      (nonempty r.workspace_id)

pub check_resource-IsOpen :
    (agent : Agent) (snapshot : HerdrSnapshot) (pane : HerdrPane) (resource : Option HerdrResource)
    → is_found (check_resource agent snapshot pane resource).kind ≡ true
    → IsOpen snapshot
        (recorded (λ w. w.worktree_id) resource)
        (recorded (λ w. w.worktree_path) resource)
        (recorded (λ w. w.workspace_id) resource)
        (check_resource agent snapshot pane resource)
check_resource-IsOpen agent snapshot pane none h =
    check_worktree-IsOpen agent snapshot pane none none none h
check_resource-IsOpen agent snapshot pane (some r) h =
    check_worktree-IsOpen agent snapshot pane (nonempty r.worktree_id) (nonempty r.worktree_path)
      (nonempty r.workspace_id) h
