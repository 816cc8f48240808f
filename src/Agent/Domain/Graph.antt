-- ===== src/Agent/Domain/Graph.antt =====
-- The graphs of agents that `assertAgentGraph` of src/state/agent-domain.ts accepts.
use my_shtty_pi_herdr_deck.Base.{
  ℕ, zero, suc, ◌+◌, ◌≤◌, String, Bool, true, false, ◌&&◌, List, [], ◌∷◌, Option, none, some, ◌≡◌,
  refl, ◌∙◌, subst, arith, ◌↔◌, inl, inr, ◌==◌, eq_iff, same_text?, includes, is_some, All,
  Bool-cases, Result, ok, throw_if, ◌>>◌, >>=-eq-ok,
}
use my_shtty_pi_herdr_deck.Base.Dict.{Dict, lookup, values, Entries, Entries-lookup}
use my_shtty_pi_herdr_deck.State.Types.{Agent, OrchestrationState}
use my_shtty_pi_herdr_deck.State.Reducer.Tasks.{nonempty}
use my_shtty_pi_herdr_deck.Agent.Domain.{
  is_terminal, parent_found, climb, other_depth, check_agent, check_agents, assert_agent_graph,
}

-- The agent has this many agents above it, all of them known, up to one without a parent.
abbrev pub HasDepth : Dict Agent → ℕ → Agent → Type 0
HasDepth agents zero a = nonempty a.parent_agent_id ≡ none
HasDepth agents (suc n) a =
    (id : String) × (parent : Agent) × (nonempty a.parent_agent_id ≡ some id)
    × (lookup id agents ≡ some parent)
    × HasDepth agents n parent

-- The agent is not its own parent, at most two agents are above it, its recorded depth is that
-- number, and if its state is final then it has no run.
pub record IsPlaced (agents : Dict Agent) (a : Agent) : Type 0 where
  pub not_own : same_text? a.parent_agent_id (some a.id) ≡ false
  pub above : ℕ
  pub within : above ≤ 2
  pub chain : HasDepth agents above a
  pub same_depth : other_depth a.depth above ≡ false
  pub settled : is_some (nonempty a.current_run_id) && is_terminal a.state ≡ false

-- Every agent is stored under its own id.
abbrev pub IsKeyed : Dict Agent → Type 0
IsKeyed agents = Entries (λ id agent. agent.id ≡ id) agents

throw_if-passes :
    {E : Type 0} (bad : Bool) (thrown : E) {value : Unit {0}}
    → throw_if bad thrown ≡ ok value
    → bad ≡ false
throw_if-passes true thrown h = cc h
throw_if-passes false thrown h = refl

parent_found-ok : (o : Option Agent) {parent : Agent} → parent_found o ≡ ok parent → o ≡ some parent
parent_found-ok none h = cc h
parent_found-ok (some a) {parent} h = cc h

climb-HasDepth :
    (agents : Dict Agent) (left depth : ℕ) (seen : List String) (a : Agent) (o : Option String)
    {d : ℕ}
    → nonempty a.parent_agent_id ≡ o
    → climb agents left depth seen a o ≡ ok d
    → (n : ℕ) × (d ≡ depth + n) × (n ≤ left) × HasDepth agents n a
unfolding climb
climb-HasDepth agents left depth seen a none {d} e h =
    let same : depth ≡ d = cc h in (0, omega (arith, same), omega arith, e)
climb-HasDepth agents zero depth seen a (some parent) e h = cc h
climb-HasDepth agents (suc left) depth seen a (some parent) {d} e h =
    let known : Result String Agent =
      throw_if (includes seen a.id) "Agent parent cycle." >> parent_found (lookup parent agents) in
    let (next, first, rest) =
      >>=-eq-ok known
        (λ next. climb agents left (suc depth) (a.id ∷ seen) next (nonempty next.parent_agent_id))
        h in
    let (_, _, found) =
      >>=-eq-ok (throw_if (includes seen a.id) "Agent parent cycle.")
        (λ _. parent_found (lookup parent agents)) first in
    let (n, sum, bound, above) =
      climb-HasDepth agents left (suc depth) (a.id ∷ seen) next (nonempty next.parent_agent_id) refl
        rest in
    (
      suc n,
      omega (arith, sum),
      omega (arith, bound),
      (parent, next, e, parent_found-ok (lookup parent agents) found, above),
    )

check_agent-IsPlaced :
    (agents : Dict Agent) (a : Agent) → check_agent agents a ≡ ok tt → IsPlaced agents a
unfolding check_agent
check_agent-IsPlaced agents a h =
    let climbed : Result String ℕ =
      throw_if (same_text? a.parent_agent_id (some a.id)) "Agent parent cycle."
      >> climb agents 2 0 [] a (nonempty a.parent_agent_id) in
    let placed : ℕ → Result String (Unit {0}) =
      λ depth. throw_if (other_depth a.depth depth) "Agent depth invariant failed." in
    let idle : Result String (Unit {0}) =
      throw_if (is_some (nonempty a.current_run_id) && is_terminal a.state)
        "Terminal agent has active run." in
    let (depth, walk, rest) = >>=-eq-ok climbed (λ depth. placed depth >> idle) h in
    let (_, same, last) = >>=-eq-ok (placed depth) (λ _. idle) rest in
    let (_, own, up) =
      >>=-eq-ok (throw_if (same_text? a.parent_agent_id (some a.id)) "Agent parent cycle.")
        (λ _. climb agents 2 0 [] a (nonempty a.parent_agent_id)) walk in
    let (n, sum, bound, above) =
      climb-HasDepth agents 2 0 [] a (nonempty a.parent_agent_id) refl up in
    let at : depth ≡ n = omega (arith, sum) in
    record {
      not_own =
          throw_if-passes (same_text? a.parent_agent_id (some a.id)) "Agent parent cycle." own;
      above = n;
      within = bound;
      chain = above;
      same_depth =
          subst (λ d. other_depth a.depth d ≡ false) at
            (throw_if-passes (other_depth a.depth depth) "Agent depth invariant failed." same);
      settled =
          throw_if-passes (is_some (nonempty a.current_run_id) && is_terminal a.state)
            "Terminal agent has active run." last;
    }

-- The loop reaches an agent without a parent, where the seen ids do not come up again.
climb-root :
    (agents : Dict Agent) (left depth : ℕ) (seen : List String) (a : Agent)
    → nonempty a.parent_agent_id ≡ none
    → climb agents left depth seen a (nonempty a.parent_agent_id) ≡ ok depth
unfolding climb
climb-root agents left depth seen a e = rw e refl

climb-up :
    (agents : Dict Agent) (left depth : ℕ) (seen : List String) (a next : Agent) (id : String)
    → nonempty a.parent_agent_id ≡ some id
    → lookup id agents ≡ some next
    → includes seen a.id ≡ false
    → climb agents (suc left) depth seen a (nonempty a.parent_agent_id)
      ≡ climb agents left (suc depth) (a.id ∷ seen) next (nonempty next.parent_agent_id)
unfolding climb
climb-up agents left depth seen a next id e f new = rw (e, new, f) refl

nonempty-some : (o : Option String) (s : String) → nonempty o ≡ some s → o ≡ some s
nonempty-some none s h = cc h
nonempty-some (some t) s h = elim (Bool-cases (t == "")) [
  | inl e ↦ absurd (cc (rw e at h))
  | inr e ↦ rw e at h
]

-- The parent of an agent, under its own id, has another id than the agent.
other_parent :
    (agents : Dict Agent) (a next : Agent) (id : String)
    → IsKeyed agents
    → same_text? a.parent_agent_id (some a.id) ≡ false
    → nonempty a.parent_agent_id ≡ some id
    → lookup id agents ≡ some next
    → includes (a.id ∷ []) next.id ≡ false
other_parent agents a next id keyed own e f =
    let key : next.id ≡ id = Entries-lookup (λ key agent. agent.id ≡ key) id agents keyed f in
    let named : a.parent_agent_id ≡ some id = nonempty-some a.parent_agent_id id e in
    let differ : (id == a.id) ≡ false = rw named at own in
    rw key (ground (arith, differ, eq_iff a.id id, eq_iff id a.id))

climb-ok :
    (agents : Dict Agent) (n : ℕ) (a : Agent)
    → IsKeyed agents
    → same_text? a.parent_agent_id (some a.id) ≡ false
    → n ≤ 2
    → HasDepth agents n a
    → climb agents 2 0 [] a (nonempty a.parent_agent_id) ≡ ok n
climb-ok agents zero a keyed own bound h = climb-root agents 2 0 [] a h
climb-ok agents (suc zero) a keyed own bound (id, next, e, f, h) =
    climb-up agents 1 0 [] a next id e f refl ∙ climb-root agents 1 1 (a.id ∷ []) next h
climb-ok agents (suc (suc zero)) a keyed own bound (id, next, e, f, (id', top, e', f', h)) =
    climb-up agents 1 0 [] a next id e f refl
    ∙ climb-up agents 0 1 (a.id ∷ []) next top id' e' f'
        (other_parent agents a next id keyed own e f)
    ∙ climb-root agents 0 2 (next.id ∷ a.id ∷ []) top h
climb-ok agents (suc (suc (suc n))) a keyed own bound h = absurd (omega (arith, bound))

check_agent-passes :
    (agents : Dict Agent) (a : Agent)
    → IsKeyed agents
    → IsPlaced agents a
    → check_agent agents a ≡ ok tt
unfolding check_agent
check_agent-passes agents a keyed p =
    rw
      (
        p.not_own,
        climb-ok agents p.above a keyed p.not_own p.within p.chain,
        p.same_depth,
        p.settled,
      )
      refl

check_agents-All :
    (agents : Dict Agent) (rest : List Agent)
    → IsKeyed agents
    → (check_agents agents rest ≡ ok tt) ↔ All (IsPlaced agents) rest
unfolding check_agents
check_agents-All agents [] keyed = (λ h. tt, λ h. refl)
check_agents-All agents (a ∷ rest) keyed = (
  λ h.
      let (_, first, later) = >>=-eq-ok (check_agent agents a) (λ _. check_agents agents rest) h in
      (check_agent-IsPlaced agents a first, (check_agents-All agents rest keyed).0 later),
  λ h. rw (check_agent-passes agents a keyed h.0, (check_agents-All agents rest keyed).1 h.1) refl,
)

-- Where every agent is stored under its own id, the check passes exactly for the graphs of agents
-- in which no agent is its own parent, every agent has at most two agents above it, all known and
-- the last without a parent, a recorded depth is the number of agents above, and no agent in a
-- final state has a run.
pub assert_agent_graph-IsPlaced :
    (s : OrchestrationState)
    → IsKeyed s.agents
    → (assert_agent_graph s ≡ ok tt) ↔ All (IsPlaced s.agents) (values s.agents)
unfolding assert_agent_graph
assert_agent_graph-IsPlaced s keyed = check_agents-All s.agents (values s.agents) keyed
