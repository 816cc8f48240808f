-- ===== src/Scheduler/Admission/Eligible.antt =====
-- Which tasks `admitReady` of src/scheduler/scheduler.ts may admit.
use my_shtty_pi_herdr_deck.Base.{
  ◌≤◌, ◌≡◌, refl, true, false, List, [], ◌∷◌, Option, none, some, arith, filter, any, All,
  Bool-cases, inl, inr,
}
use my_shtty_pi_herdr_deck.Base.Dict.{Dict, lookup, values}
use my_shtty_pi_herdr_deck.Base.Sort.{All-sort}
use my_shtty_pi_herdr_deck.Scheduler.Types.{
  State, Requirement, Dependency, SchedulerTask, is_queued, terminal_state,
}
use my_shtty_pi_herdr_deck.Scheduler.Queue.{Scheduler, queued_tasks}
use my_shtty_pi_herdr_deck.Scheduler.Admission.{
  Collation, available, comes_before, Counts, start_counts, reason_for, is_admitted, take_slot,
  after_decision, admit_loop, admit_ready, admitted_tasks, unmet, unmet_state,
}
use my_shtty_pi_herdr_deck.Scheduler.Admission.Capacity.{reason_for-Room, admissions}

-- What a dependency asks of the state of the task that it names.
abbrev pub Fulfils : Requirement → State → Type 0
Fulfils Requirement.succeeded st = st ≡ State.succeeded
Fulfils Requirement.terminal st = terminal_state st ≡ true

-- The task that a dependency names exists, in a state that the dependency asks for.
abbrev pub IsMet : Dict SchedulerTask → Dependency → Type 0
IsMet tasks d =
    (t : SchedulerTask) × (lookup d.task_id tasks ≡ some t) × Fulfils d.requirement t.state

pub record IsEligible (s : Scheduler) (tasks : Dict SchedulerTask) (t : SchedulerTask)
    : Type 0 where
  pub waiting : t.state ≡ State.queued
  pub met : All (IsMet tasks) t.dependencies
  pub shallow : t.depth ≤ s.limits.max_delegation_depth

met_of_state :
    (r : Requirement) (found : Option SchedulerTask)
    → unmet_state r found ≡ false
    → (t : SchedulerTask) × (found ≡ some t) × Fulfils r t.state
met_of_state Requirement.succeeded none h = cc
met_of_state Requirement.terminal none h = cc
met_of_state Requirement.succeeded (some t) h = (t, refl, ground arith)
met_of_state Requirement.terminal (some t) h = (t, refl, ground arith)

module _ (tasks : Dict SchedulerTask) where
  unmet-IsMet : (ds : List Dependency) → any (unmet tasks) ds ≡ false → All (IsMet tasks) ds
  unmet-IsMet [] h = tt
  unmet-IsMet (d ∷ ds) h = elim (Bool-cases (unmet tasks d)) [
    | inl e ↦ absurd (ground arith)
    | inr e ↦ (met_of_state d.requirement (lookup d.task_id tasks) e, unmet-IsMet ds (ground arith))
  ]

IsQueued : SchedulerTask → Type 0
IsQueued t = t.state ≡ State.queued

filter-IsQueued : (ts : List SchedulerTask) → All IsQueued (filter (λ t. is_queued t.state) ts)
unfolding IsQueued
filter-IsQueued [] = tt
filter-IsQueued (t ∷ ts) = elim (Bool-cases (is_queued t.state)) [
  | inl e ↦ rw e (ground arith, filter-IsQueued ts)
  | inr e ↦ rw e (filter-IsQueued ts)
]

module _ (s : Scheduler) (tasks : Dict SchedulerTask) where
  loop-IsEligible :
      (c : Counts) (ts : List SchedulerTask)
      → All IsQueued ts
      → All (IsEligible s tasks) (admitted_tasks ts (admit_loop s tasks c ts))
  unfolding admit_loop IsQueued
  loop-IsEligible c [] h = tt
  loop-IsEligible c (t ∷ ts) h = elim (Bool-cases (is_admitted (reason_for s tasks c t))) [
    | inl e ↦
        let room = reason_for-Room s tasks c t e in
        rw (e, after_decision)
          (
            record {
              waiting = h.0;
              met = unmet-IsMet tasks t.dependencies room.met;
              shallow = room.shallow;
            },
            loop-IsEligible (take_slot c t) ts h.1,
          )
    | inr e ↦ rw (e, after_decision) (loop-IsEligible c ts h.1)
  ]

-- Every admitted task is queued, has all of its dependencies in a state that they ask for, and is
-- within the delegation depth.
pub admit_ready-IsEligible :
    (c : Collation) (s : Scheduler) (tasks : Dict SchedulerTask)
    → All (IsEligible s tasks) (admissions c s tasks)
unfolding admit_ready available
admit_ready-IsEligible c s tasks =
    loop-IsEligible s tasks (start_counts s tasks) (available c tasks)
      (All-sort (comes_before c) IsQueued (queued_tasks tasks) (filter-IsQueued (values tasks)))
