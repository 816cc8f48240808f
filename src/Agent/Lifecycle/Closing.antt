-- ===== src/Agent/Lifecycle/Closing.antt =====
-- When src/broker/agent-lifecycle.ts recommends to close an agent.
use my_shtty_pi_herdr_deck.Base.{
  Bool, true, false, not, ◌||◌, List, [], ◌∷◌, Option, none, some, ◌==◌, ◌≡◌, refl, ap, subst,
  arith, Option-cases, truthy?, find, All, ◌↔◌, Bool-cases, inl, inr,
}
use my_shtty_pi_herdr_deck.State.Types.{Agent, Task, OrchestrationState, task_terminal}
use my_shtty_pi_herdr_deck.Agent.Lifecycle.{
  is_active, is_blocked, assigned_tasks, is_uncollected, chosen_task, current_run, task_for_agent,
  close, lifecycle_class_of, is_kept, close_by_task, close_decision, project_agent_lifecycle,
}

-- A task that is over and whose result was collected.
abbrev pub IsCollected : Task → Type 0
IsCollected t =
    (task_terminal t.state ≡ true)
    × (truthy? t.result_id ≡ true)
    × (truthy? t.result_collected_at ≡ true)

-- What it takes to close an agent, in terms of the helpers.
pub record IsClosable (agent : Agent) (s : OrchestrationState) : Type 0 where
  pub class_closes :
      (lifecycle_class_of agent == "pinned" || lifecycle_class_of agent == "retained") ≡ false
  pub no_reuse : is_kept agent.keep_for_reuse (lifecycle_class_of agent) ≡ false
  pub idle : (is_blocked agent.state || is_active agent.state) ≡ false
  pub done : (t : Task) × (task_for_agent agent s ≡ some t) × IsCollected t

close_by_task-IsCollected :
    (found : Option Task)
    → (close_by_task found).0 ≡ close
    → (t : Task) × (found ≡ some t) × IsCollected t
close_by_task-IsCollected none h = absurd (cc h)
close_by_task-IsCollected (some t) h =
    (t, refl, (ground (arith, h), ground (arith, h), ground (arith, h)))

close_by_task-close :
    (found : Option Task) (t : Task)
    → found ≡ some t
    → IsCollected t
    → (close_by_task found).0 ≡ close
close_by_task-close found t e (a, b, c) = rw (e, a, b, c) refl

module _ (agent : Agent) (s : OrchestrationState) where
  decision_closes : (close_decision agent s).0 ≡ close → IsClosable agent s
  unfolding close_decision
  decision_closes h = elim (Bool-cases (lifecycle_class_of agent == "pinned")) [
    | inl e ↦ absurd (cc (rw e at h))
    | inr e ↦ elim (Bool-cases (lifecycle_class_of agent == "retained")) [
      | inl f ↦ absurd (cc (rw (e, f) at h))
      | inr f ↦ elim (Bool-cases (is_kept agent.keep_for_reuse (lifecycle_class_of agent))) [
        | inl k ↦ absurd (cc (rw (e, f, k) at h))
        | inr k ↦ elim (Bool-cases (is_blocked agent.state)) [
          | inl b ↦ absurd (cc (rw (e, f, k, b) at h))
          | inr b ↦ elim (Bool-cases (is_active agent.state)) [
            | inl a ↦ absurd (cc (rw (e, f, k, b, a) at h))
            | inr a ↦ record {
              class_closes = rw (e, f) refl;
              no_reuse = k;
              idle = rw (b, a) refl;
              done = close_by_task-IsCollected (task_for_agent agent s) (rw (e, f, k, b, a) at h);
            }
          ]
        ]
      ]
    ]
  ]

  closable_closes : IsClosable agent s → (close_decision agent s).0 ≡ close
  unfolding close_decision
  closable_closes c =
      let (t, found, collected) = c.done in
      let ending = close_by_task-close (task_for_agent agent s) t found collected in
      ground (arith, c.class_closes, c.no_reuse, c.idle, ending)

-- The decision in terms of the helpers: an agent is recommended for closing exactly if it is neither
-- pinned nor retained nor to be reused, neither blocked nor active, and the task that is chosen for
-- it is over, with a result that was collected.
pub project_agent_lifecycle_close :
    (agent : Agent) (s : OrchestrationState)
    → ((project_agent_lifecycle agent s).close_recommendation ≡ close) ↔ IsClosable agent s
unfolding project_agent_lifecycle close_decision
project_agent_lifecycle_close agent s = (decision_closes agent s, closable_closes agent s)

find-none {ℓ} :
    {A : Type ℓ} (p : A → Bool) (xs : List A) → find p xs ≡ none → All (λ x. p x ≡ false) xs
find-none p [] h = tt
find-none p (x ∷ xs) h = elim (Bool-cases (p x)) [
  | inl e ↦ absurd (cc (rw e at h))
  | inr e ↦ (e, find-none p xs (rw e at h))
]

find-some {ℓ} : {A : Type ℓ} (p : A → Bool) (xs : List A) {x : A} → find p xs ≡ some x → p x ≡ true
find-some p [] h = absurd (cc h)
find-some p (y ∷ xs) {x} h = elim (Bool-cases (p y)) [
  | inl e ↦
      let one : Path (Option _) (some y) (some x) = rw e at h in
      let same : y ≡ x = cc one in subst (λ z. p z ≡ true) same e
  | inr e ↦ find-some p xs (rw e at h)
]

pub chosen-IsCollected :
    (assigned : List Task) {t : Task}
    → chosen_task assigned ≡ some t
    → IsCollected t
    → All (λ u. not (task_terminal u.state) ≡ false) assigned
      × All (λ u. is_uncollected u ≡ false) assigned
chosen-IsCollected assigned {t} h c =
    elim (Option-cases (find (λ u. not (task_terminal u.state)) assigned)) [
      | inr (u, found) ↦
          let live = find-some (λ v. not (task_terminal v.state)) assigned found in
          let same : Path (Option Task) (some u) (some t) = rw found at h in
          let one : u ≡ t = cc same in
          absurd (ground (arith, ap (λ v. task_terminal v.state) one, live, c.0))
      | inl none_live ↦ elim (Option-cases (find is_uncollected assigned)) [
        | inr (u, found) ↦
            let open_yet = find-some is_uncollected assigned found in
            let same : Path (Option Task) (some u) (some t) = rw (none_live, found) at h in
            let one : u ≡ t = cc same in
            let both : is_uncollected t ≡ true =
              subst (λ v. is_uncollected v ≡ true) one open_yet in
            absurd (ground (arith, both, c.1, c.2))
        | inl none_open ↦ (find-none _ assigned none_live, find-none _ assigned none_open)
      ]
    ]

-- If an agent with no run is recommended for closing, then every task that names the agent is over,
-- and none of them has a result that was not collected.
pub project_agent_lifecycle_idle :
    (agent : Agent) (s : OrchestrationState)
    → current_run agent.current_run_id s.runs ≡ none
    → (project_agent_lifecycle agent s).close_recommendation ≡ close
    → All (λ t. not (task_terminal t.state) ≡ false) (assigned_tasks agent s)
      × All (λ t. is_uncollected t ≡ false) (assigned_tasks agent s)
project_agent_lifecycle_idle agent s free h =
    let (t, found, collected) = ((project_agent_lifecycle_close agent s).0 h).done in
    chosen-IsCollected (assigned_tasks agent s) (rw free at found) collected
