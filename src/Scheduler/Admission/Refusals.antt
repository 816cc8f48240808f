-- ===== src/Scheduler/Admission/Refusals.antt =====
-- Why `admitReady` of src/scheduler/scheduler.ts refuses a task: a capacity refusal is given only
-- when the capacity is used up.
use my_shtty_pi_herdr_deck.Base.{
  ◌+◌, ◌≤◌, String, ◌≡◌, Bool, true, List, [], ◌∷◌, arith, length, count, ◌==◌, eq_iff, Bool-cases,
  inl, inr, ◌⊎◌,
}
use my_shtty_pi_herdr_deck.Base.Dict.{Dict}
use my_shtty_pi_herdr_deck.Scheduler.Types.{SchedulerTask}
use my_shtty_pi_herdr_deck.Scheduler.Queue.{Scheduler, active_tasks}
use my_shtty_pi_herdr_deck.Scheduler.Admission.{
  AdmissionReason, global_limit, parent_limit, endpoint_capacity, Admission, Collation, available,
  task_endpoint_id, count_of, Counts, start_counts, endpoint_limit, reason_for, is_admitted,
  take_slot, after_decision, admit_loop, admit_ready, admitted_tasks,
}
use my_shtty_pi_herdr_deck.Scheduler.Admission.Capacity.{
  count_of-nil, count_of-bump, count_of-tally, admissions,
}

-- Some task that passes the test was refused for the reason.
abbrev pub Refused :
    AdmissionReason → (SchedulerTask → Bool) → List SchedulerTask → List Admission → Type 0
Refused r p (t ∷ ts) (d ∷ ds) = ((d.reason ≡ r) × (p t ≡ true)) ⊎ Refused r p ts ds
Refused r p _ _ = ⊥

module _ (s : Scheduler) (tasks : Dict SchedulerTask) where
  refused_global :
      (c : Counts) (t : SchedulerTask) → reason_for s tasks c t ≡ global_limit → c.slots ≡ 0
  unfolding reason_for
  refused_global c t h = ground arith

  refused_parent :
      (c : Counts) (t : SchedulerTask)
      → reason_for s tasks c t ≡ parent_limit
      → s.limits.max_active_per_parent ≤ count_of c.by_parent t.parent_agent_id
  unfolding reason_for
  refused_parent c t h = ground arith

  refused_endpoint :
      (c : Counts) (t : SchedulerTask)
      → reason_for s tasks c t ≡ endpoint_capacity
      → endpoint_limit s (task_endpoint_id t) ≤ count_of c.by_endpoint (task_endpoint_id t)
  unfolding reason_for
  refused_endpoint c t h = ground arith

  slots_used :
      (c : Counts) (ts : List SchedulerTask)
      → Refused global_limit (λ t. true) ts (admit_loop s tasks c ts)
      → c.slots ≤ length (admitted_tasks ts (admit_loop s tasks c ts))
  unfolding admit_loop
  slots_used c [] h = absurd h
  slots_used c (t ∷ ts) (inl (e, _)) = omega (arith, refused_global c t e)
  slots_used c (t ∷ ts) (inr h) = elim (Bool-cases (is_admitted (reason_for s tasks c t))) [
    | inl e ↦
        rw (e, after_decision)
          (omega (arith, slots_used (take_slot c t) ts (rw (e, after_decision) at h)))
    | inr e ↦ rw (e, after_decision) (slots_used c ts (rw (e, after_decision) at h))
  ]

  parent_used :
      (p : String) (c : Counts) (ts : List SchedulerTask)
      → Refused parent_limit (λ t. t.parent_agent_id == p) ts (admit_loop s tasks c ts)
      → s.limits.max_active_per_parent
        ≤ count_of c.by_parent p
          + count (λ t. t.parent_agent_id == p) (admitted_tasks ts (admit_loop s tasks c ts))
  unfolding admit_loop
  parent_used p c [] h = absurd h
  parent_used p c (t ∷ ts) (inl (e, q)) =
      let same : t.parent_agent_id ≡ p = (eq_iff t.parent_agent_id p).0 q in
      ground (arith, refused_parent c t e)
  parent_used p c (t ∷ ts) (inr h) = elim (Bool-cases (is_admitted (reason_for s tasks c t))) [
    | inl e ↦
        rw (e, after_decision)
          (omega (
            arith,
            parent_used p (take_slot c t) ts (rw (e, after_decision) at h),
            count_of-bump c.by_parent t.parent_agent_id p,
          ))
    | inr e ↦ rw (e, after_decision) (parent_used p c ts (rw (e, after_decision) at h))
  ]

  endpoint_used :
      (p : String) (c : Counts) (ts : List SchedulerTask)
      → Refused endpoint_capacity (λ t. task_endpoint_id t == p) ts (admit_loop s tasks c ts)
      → endpoint_limit s p
        ≤ count_of c.by_endpoint p
          + count (λ t. task_endpoint_id t == p) (admitted_tasks ts (admit_loop s tasks c ts))
  unfolding admit_loop
  endpoint_used p c [] h = absurd h
  endpoint_used p c (t ∷ ts) (inl (e, q)) =
      let same : task_endpoint_id t ≡ p = (eq_iff (task_endpoint_id t) p).0 q in
      ground (arith, refused_endpoint c t e)
  endpoint_used p c (t ∷ ts) (inr h) = elim (Bool-cases (is_admitted (reason_for s tasks c t))) [
    | inl e ↦
        rw (e, after_decision)
          (omega (
            arith,
            endpoint_used p (take_slot c t) ts (rw (e, after_decision) at h),
            count_of-bump c.by_endpoint (task_endpoint_id t) p,
          ))
    | inr e ↦ rw (e, after_decision) (endpoint_used p c ts (rw (e, after_decision) at h))
  ]

module _ (c : Collation) (s : Scheduler) (tasks : Dict SchedulerTask) where
  -- If any queued task is refused for the global limit, then the running and the admitted tasks
  -- together reach that limit.
  pub admit_ready_global_used :
      Refused global_limit (λ t. true) (available c tasks) (admit_ready c s tasks)
      → s.limits.max_active_agents ≤ length (active_tasks tasks) + length (admissions c s tasks)
  unfolding admit_ready
  admit_ready_global_used h =
      omega (arith, slots_used s tasks (start_counts s tasks) (available c tasks) h)

  -- If any task of a parent is refused for the parent limit, then that parent's running and
  -- admitted tasks together reach the limit.
  admit_ready_parent_used :
      (p : String)
      → Refused parent_limit
          (λ t. t.parent_agent_id == p)
          (available c tasks)
          (admit_ready c s tasks)
      → s.limits.max_active_per_parent
        ≤ count (λ t. t.parent_agent_id == p) (active_tasks tasks)
          + count (λ t. t.parent_agent_id == p) (admissions c s tasks)
  unfolding admit_ready
  admit_ready_parent_used p h = omega (
    arith,
    parent_used s tasks p (start_counts s tasks) (available c tasks) h,
    count_of-tally (λ t. t.parent_agent_id) [] (active_tasks tasks) p,
    count_of-nil p,
  )

  -- If any task of an endpoint is refused for the endpoint's capacity, then that endpoint's running
  -- and admitted tasks together reach its limit.
  admit_ready_endpoint_used :
      (e : String)
      → Refused endpoint_capacity
          (λ t. task_endpoint_id t == e)
          (available c tasks)
          (admit_ready c s tasks)
      → endpoint_limit s e
        ≤ count (λ t. task_endpoint_id t == e) (active_tasks tasks)
          + count (λ t. task_endpoint_id t == e) (admissions c s tasks)
  unfolding admit_ready
  admit_ready_endpoint_used e h = omega (
    arith,
    endpoint_used s tasks e (start_counts s tasks) (available c tasks) h,
    count_of-tally task_endpoint_id [] (active_tasks tasks) e,
    count_of-nil e,
  )
