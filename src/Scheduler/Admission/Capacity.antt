-- ===== src/Scheduler/Admission/Capacity.antt =====
-- How many tasks `admitReady` of src/scheduler/scheduler.ts starts: the three capacities.
use my_shtty_pi_herdr_deck.Base.{
  ℕ, ◌+◌, ◌≤◌, ◌<◌, max, String, ◌≡◌, refl, true, false, List, [], ◌∷◌, arith, if◌then◌else◌,
  length, count, any, ◌==◌, eq_iff, Bool-cases, inl, inr,
}
use my_shtty_pi_herdr_deck.Base.Dict.{Dict, lookup, lookup-insert}
use my_shtty_pi_herdr_deck.Scheduler.Types.{SchedulerTask}
use my_shtty_pi_herdr_deck.Scheduler.Queue.{Scheduler, active_tasks}
use my_shtty_pi_herdr_deck.Scheduler.Admission.{
  Collation, available, task_endpoint_id, count_of, bump, tally, Counts, start_counts,
  endpoint_limit, reason_for, is_admitted, take_slot, after_decision, admit_loop, admit_ready,
  admitted_tasks, unmet,
}

pub count_of-bump :
    (counts : Dict ℕ) (j k : String)
    → count_of (bump counts j) k ≡ (if j == k then 1 else 0) + count_of counts k
count_of-bump counts j k =
    ground (arith, lookup-insert j k (count_of counts j + 1) counts, eq_iff j k)

pub count_of-nil : (k : String) → count_of [] k ≡ 0
unfolding lookup
count_of-nil k = refl

pub count_of-tally :
    (key : SchedulerTask → String) (counts : Dict ℕ) (ts : List SchedulerTask) (k : String)
    → count_of (tally key counts ts) k ≡ count_of counts k + count (λ t. key t == k) ts
unfolding tally
count_of-tally key counts [] k = omega arith
count_of-tally key counts (t ∷ ts) k =
    omega (arith, count_of-tally key (bump counts (key t)) ts k, count_of-bump counts (key t) k)

module _ (s : Scheduler) (tasks : Dict SchedulerTask) where
  -- What the tests of the loop leave of an admitted task.
  pub record Room (c : Counts) (t : SchedulerTask) : Type 0 where
    pub met : any (unmet tasks) t.dependencies ≡ false
    pub shallow : t.depth ≤ s.limits.max_delegation_depth
    pub slot : 0 < c.slots
    pub parent_room : count_of c.by_parent t.parent_agent_id < s.limits.max_active_per_parent
    pub endpoint_room :
        count_of c.by_endpoint (task_endpoint_id t) < endpoint_limit s (task_endpoint_id t)

  pub reason_for-Room :
      (c : Counts) (t : SchedulerTask) → is_admitted (reason_for s tasks c t) ≡ true → Room c t
  unfolding reason_for
  reason_for-Room c t h = ground arith

  slots_bound :
      (c : Counts) (ts : List SchedulerTask)
      → length (admitted_tasks ts (admit_loop s tasks c ts)) ≤ c.slots
  unfolding admit_loop
  slots_bound c [] = omega arith
  slots_bound c (t ∷ ts) = elim (Bool-cases (is_admitted (reason_for s tasks c t))) [
    | inl e ↦
        rw (e, after_decision)
          (omega (arith, reason_for-Room c t e, slots_bound (take_slot c t) ts))
    | inr e ↦ rw (e, after_decision) (slots_bound c ts)
  ]

  parent_bound :
      (p : String) (c : Counts) (ts : List SchedulerTask)
      → count_of c.by_parent p
          + count (λ t. t.parent_agent_id == p) (admitted_tasks ts (admit_loop s tasks c ts))
        ≤ max (count_of c.by_parent p) s.limits.max_active_per_parent
  unfolding admit_loop
  parent_bound p c [] = omega arith
  parent_bound p c (t ∷ ts) = elim (Bool-cases (is_admitted (reason_for s tasks c t))) [
    | inl e ↦
        rw (e, after_decision)
          (ground (
            arith,
            reason_for-Room c t e,
            parent_bound p (take_slot c t) ts,
            count_of-bump c.by_parent t.parent_agent_id p,
            eq_iff t.parent_agent_id p,
          ))
    | inr e ↦ rw (e, after_decision) (parent_bound p c ts)
  ]

  endpoint_bound :
      (e : String) (c : Counts) (ts : List SchedulerTask)
      → count_of c.by_endpoint e
          + count (λ t. task_endpoint_id t == e) (admitted_tasks ts (admit_loop s tasks c ts))
        ≤ max (count_of c.by_endpoint e) (endpoint_limit s e)
  unfolding admit_loop
  endpoint_bound e c [] = omega arith
  endpoint_bound e c (t ∷ ts) = elim (Bool-cases (is_admitted (reason_for s tasks c t))) [
    | inl q ↦
        rw (q, after_decision)
          (ground (
            arith,
            reason_for-Room c t q,
            endpoint_bound e (take_slot c t) ts,
            count_of-bump c.by_endpoint (task_endpoint_id t) e,
            eq_iff (task_endpoint_id t) e,
          ))
    | inr q ↦ rw (q, after_decision) (endpoint_bound e c ts)
  ]

module _ (c : Collation) (s : Scheduler) (tasks : Dict SchedulerTask) where
  -- The tasks that one call of `admitReady` admits.
  abbrev pub admissions : List SchedulerTask
  admissions = admitted_tasks (available c tasks) (admit_ready c s tasks)

  -- The tasks that run already and those that one call admits are together at most the global
  -- limit, or at most the number that ran already where that is larger.
  pub admit_ready_global :
      length (active_tasks tasks) + length admissions
      ≤ max (length (active_tasks tasks)) s.limits.max_active_agents
  unfolding admit_ready
  admit_ready_global = omega (arith, slots_bound s tasks (start_counts s tasks) (available c tasks))

  -- The tasks of one parent agent that run already and those that one call admits are together at
  -- most the limit per parent, or at most the number that ran already where that is larger.
  pub admit_ready_parent :
      (p : String)
      → count (λ t. t.parent_agent_id == p) (active_tasks tasks)
          + count (λ t. t.parent_agent_id == p) admissions
        ≤ max
            (count (λ t. t.parent_agent_id == p) (active_tasks tasks))
            s.limits.max_active_per_parent
  unfolding admit_ready
  admit_ready_parent p = omega (
    arith,
    parent_bound s tasks p (start_counts s tasks) (available c tasks),
    count_of-tally (λ t. t.parent_agent_id) [] (active_tasks tasks) p,
    count_of-nil p,
  )

  -- The tasks of one endpoint that run already and those that one call admits are together at most
  -- the limit of that endpoint (the global limit where it has none), or at most the number that
  -- ran already where that is larger.
  pub admit_ready_endpoint :
      (e : String)
      → count (λ t. task_endpoint_id t == e) (active_tasks tasks)
          + count (λ t. task_endpoint_id t == e) admissions
        ≤ max (count (λ t. task_endpoint_id t == e) (active_tasks tasks)) (endpoint_limit s e)
  unfolding admit_ready
  admit_ready_endpoint e = omega (
    arith,
    endpoint_bound s tasks e (start_counts s tasks) (available c tasks),
    count_of-tally task_endpoint_id [] (active_tasks tasks) e,
    count_of-nil e,
  )
