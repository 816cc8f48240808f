-- ===== src/Scheduler/Admission/Order.antt =====
-- In which order `admitReady` of src/scheduler/scheduler.ts considers the queue.
use my_shtty_pi_herdr_deck.Base.{
  ℕ, String, ◌≡◌, refl, Bool, true, false, List, [], ◌∷◌, map, arith, if◌then◌else◌, ltb, eqb,
  count, ap, All, All-map, All-filter, ◌⊎◌, inl, inr, ◌<◌, Bool-cases,
}
use my_shtty_pi_herdr_deck.Base.Dict.{Dict, values}
use my_shtty_pi_herdr_deck.Base.Sort.{IsSorted, sort-IsSorted, All-sort, count-sort}
use my_shtty_pi_herdr_deck.Scheduler.Types.{
  SchedulerTask, Priority, high, normal, low, State, is_queued,
}
use my_shtty_pi_herdr_deck.Scheduler.Queue.{Scheduler, queued_tasks}
use my_shtty_pi_herdr_deck.Scheduler.Queue.Laws.{is_queued-eq}
use my_shtty_pi_herdr_deck.Scheduler.Admission.{
  Collation, available, comes_before, priority_value, Counts, start_counts, reason_for,
  after_decision, admit_loop, admit_ready,
}

ids-loop :
    (s : Scheduler) (tasks : Dict SchedulerTask) (c : Counts) (ts : List SchedulerTask)
    → map (λ d. d.task_id) (admit_loop s tasks c ts) ≡ map (λ t. t.id) ts
unfolding admit_loop
ids-loop s tasks c [] = refl
ids-loop s tasks c (t ∷ ts) =
    ap (◌∷◌ t.id) (ids-loop s tasks (after_decision (reason_for s tasks c t) c t) ts)

module _ (c : Collation) where
  -- The comparison reads a task as a priority, a time and an id.
  key_le : ℕ → ℕ → String → ℕ → ℕ → String → Bool
  key_le p q i p' q' i' = if eqb p p' then (if eqb q q' then c.le i i' else ltb q q') else ltb p p'

  key_le_total :
      (p q : ℕ) (i : String) (p' q' : ℕ) (i' : String)
      → key_le p q i p' q' i' ≡ false
      → key_le p' q' i' p q i ≡ true
  unfolding key_le
  key_le_total p q i p' q' i' h = ground (arith, c.total i i')

  key_le_trans :
      (p q : ℕ) (i : String) (p' q' : ℕ) (i' : String) (p'' q'' : ℕ) (i'' : String)
      → key_le p q i p' q' i' ≡ true
      → key_le p' q' i' p'' q'' i'' ≡ true
      → key_le p q i p'' q'' i'' ≡ true
  unfolding key_le
  key_le_trans p q i p' q' i' p'' q'' i'' h k = ground (arith, c.trans i i' i'')

  comes_before_total :
      (a b : SchedulerTask) → comes_before c a b ≡ false → comes_before c b a ≡ true
  unfolding key_le
  comes_before_total a b h =
      key_le_total (priority_value a.priority) a.queued_at a.id (priority_value b.priority)
        b.queued_at b.id h

  comes_before_trans :
      (a b d : SchedulerTask)
      → comes_before c a b ≡ true
      → comes_before c b d ≡ true
      → comes_before c a d ≡ true
  unfolding key_le
  comes_before_trans a b d h k =
      key_le_trans (priority_value a.priority) a.queued_at a.id (priority_value b.priority)
        b.queued_at b.id (priority_value d.priority) d.queued_at d.id h k

every_one {ℓ} : {A : Type ℓ} (xs : List A) → All (λ x. Unit {0}) xs
every_one [] = tt
every_one (x ∷ xs) = (tt, every_one xs)

-- One priority goes before another.
pub data Higher : Priority → Priority → Type 0 where
  high_normal : Higher high normal
  high_low : Higher high low
  normal_low : Higher normal low

-- The task of the higher priority goes first; of the same priority, the one that was queued earlier;
-- of the same time, the one whose id does not come later.
abbrev pub GoesFirst : Collation → SchedulerTask → SchedulerTask → Type 0
GoesFirst c a b =
    Higher a.priority b.priority
    ⊎ ((a.priority ≡ b.priority)
        × ((a.queued_at < b.queued_at) ⊎ ((a.queued_at ≡ b.queued_at) × (c.le a.id b.id ≡ true))))

-- Every task goes before all that follow it.
abbrev pub InOrder : Collation → List SchedulerTask → Type 0
InOrder c [] = Unit
InOrder c (t ∷ ts) = All (GoesFirst c t) ts × InOrder c ts

priorities :
    (p q : Priority)
    → Higher p q
      ⊎ ((p ≡ q) × (priority_value p ≡ priority_value q))
      ⊎ (priority_value q < priority_value p)
priorities high high = inr (inl (refl, refl))
priorities high normal = inl high_normal
priorities high low = inl high_low
priorities normal high = inr (inr (omega arith))
priorities normal normal = inr (inl (refl, refl))
priorities normal low = inl normal_low
priorities low high = inr (inr (omega arith))
priorities low normal = inr (inr (omega arith))
priorities low low = inr (inl (refl, refl))

comes_before-GoesFirst :
    (c : Collation) (a b : SchedulerTask) → comes_before c a b ≡ true → GoesFirst c a b
comes_before-GoesFirst c a b h = elim (priorities a.priority b.priority) [
  | inl first ↦ inl first
  | inr (inr later) ↦ absurd (ground (arith, h, later))
  | inr (inl (same, value)) ↦ elim (Bool-cases (eqb a.queued_at b.queued_at)) [
    | inl e ↦ inr (same, inr (ground (arith, e), ground (arith, h, value, e)))
    | inr e ↦ inr (same, inl (ground (arith, h, value, e)))
  ]
]

sorted-InOrder :
    (c : Collation) (ts : List SchedulerTask) → IsSorted (comes_before c) ts → InOrder c ts
sorted-InOrder c [] h = tt
sorted-InOrder c (t ∷ ts) h = (
  All-map (λ u. comes_before c t u ≡ true) (GoesFirst c t) ts (comes_before-GoesFirst c t) h.0,
  sorted-InOrder c ts h.1,
)

-- There is one decision for each queued task, high priority before normal before low, of the same
-- priority the one queued earlier first, and of the same time by id: the decisions name the tasks of
-- a list in this order, on which every test passes as often as on the tasks in state queued.
pub admit_ready-order :
    (c : Collation) (s : Scheduler) (tasks : Dict SchedulerTask)
    → (ts : List SchedulerTask) × (map (λ d. d.task_id) (admit_ready c s tasks)
        ≡ map (λ t. t.id) ts)
      × InOrder c ts
      × All (λ t. t.state ≡ State.queued) ts
      × ((p : SchedulerTask → Bool) → count p ts ≡ count p (queued_tasks tasks))
unfolding admit_ready available
admit_ready-order c s tasks = (
  available c tasks,
  ids-loop s tasks (start_counts s tasks) (available c tasks),
  sorted-InOrder c (available c tasks) (
      sort-IsSorted (comes_before c) (comes_before_total c) (comes_before_trans c)
        (queued_tasks tasks)),
  All-sort (comes_before c) (λ t. t.state ≡ State.queued) (queued_tasks tasks)
      (All-map (λ t. Unit {0} × (is_queued t.state ≡ true)) (λ t. t.state ≡ State.queued)
        (queued_tasks tasks) (λ t q. is_queued-eq t.state q.1)
        (All-filter (λ t. Unit {0}) (λ t. is_queued t.state) (values tasks)
          (every_one (values tasks)))),
  λ p. count-sort (comes_before c) p (queued_tasks tasks),
)
