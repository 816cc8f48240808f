-- ===== src/Scheduler/Queue/Laws.antt =====
-- What the methods of `DeterministicScheduler` keep: src/scheduler/scheduler.ts.
use my_shtty_pi_herdr_deck.Base.{
  ◌+◌, ◌≤◌, ◌<◌, String, ◌≡◌, refl, sym, subst, true, false, List, [], ◌∷◌, Option, none, some,
  arith, ltb, leb, if◌then◌else◌, Result, ok, err, ◌>>=◌, throw_if, length, is_some, Bool-cases,
  inl, inr, ◌≢◌, All, Option-cases,
}
use my_shtty_pi_herdr_deck.Base.Dict.{Dict, lookup, insert, Entries, Entries-insert, Entries-lookup}
use my_shtty_pi_herdr_deck.Scheduler.Types.{State, SchedulerTask, is_queued}
use my_shtty_pi_herdr_deck.Scheduler.Queue.{
  Scheduler, QueueError, not_queued, delegation_depth_exceeded, queue_full, task_already_queued,
  task_not_found, queued_tasks, enqueue, replace, cancel, cancel_found, Delta, plus_one, minus_one,
  set_provisioning,
}

-- Every task stands under its own id.
abbrev pub IsKeyed : Dict SchedulerTask → Type 0
IsKeyed tasks = Entries (λ id t. t.id ≡ id) tasks

-- One call of a method.
pub data Call : Type 0 where
  enqueues replaces : SchedulerTask → Call
  cancels : String → Call
  provisions : Delta → Call

-- A call that throws leaves the scheduler as it was.
abbrev pub after : Scheduler → Result QueueError Scheduler → Scheduler
after s (ok s') = s'
after s (err e) = s

unfoldable pub step : Scheduler → Call → Scheduler
step s (enqueues t) = after s (enqueue s t)
step s (replaces t) = after s (replace s t)
step s (cancels id) = after s (cancel s id)
step s (provisions d) = set_provisioning s d

unfoldable pub run : Scheduler → List Call → Scheduler
unfolding step
run s [] = s
run s (c ∷ cs) = run (step s c) cs

-- How each outcome of `enqueue` comes about: the tests before the one that fails pass.
abbrev pub Enqueued : Scheduler → SchedulerTask → Result QueueError Scheduler → Type 0
Enqueued s t (ok s') =
    (t.state ≡ State.queued)
    × (t.depth ≤ s.limits.max_delegation_depth)
    × (length (queued_tasks s.tasks) < s.limits.max_queued_tasks)
    × (lookup t.id s.tasks ≡ none)
    × (s' ≡ record s { tasks = insert t.id t s.tasks })
Enqueued s t (err not_queued) = t.state ≢ State.queued
Enqueued s t (err delegation_depth_exceeded) =
    (t.state ≡ State.queued) × (s.limits.max_delegation_depth < t.depth)
Enqueued s t (err queue_full) =
    (t.state ≡ State.queued)
    × (t.depth ≤ s.limits.max_delegation_depth)
    × (s.limits.max_queued_tasks ≤ length (queued_tasks s.tasks))
Enqueued s t (err task_already_queued) =
    (t.state ≡ State.queued)
    × (t.depth ≤ s.limits.max_delegation_depth)
    × (length (queued_tasks s.tasks) < s.limits.max_queued_tasks)
    × ((u : SchedulerTask) × (lookup t.id s.tasks ≡ some u))
Enqueued s t (err task_not_found) = ⊥

lookup-Enqueued :
    (s : Scheduler) (t : SchedulerTask) (found : Option SchedulerTask)
    → lookup t.id s.tasks ≡ found
    → t.state ≡ State.queued
    → t.depth ≤ s.limits.max_delegation_depth
    → length (queued_tasks s.tasks) < s.limits.max_queued_tasks
    → Enqueued s t (
        throw_if (is_some found) task_already_queued >>= λ _.
        ok (record s { tasks = insert t.id t s.tasks }))
lookup-Enqueued s t none e q d l = (q, d, l, e, refl)
lookup-Enqueued s t (some u) e q d l = (q, d, l, (u, e))

pub is_queued-eq : (st : State) → is_queued st ≡ true → st ≡ State.queued
is_queued-eq st h = ground arith

-- `enqueue` adds the task exactly when it is queued, not too deep, the queue has room and its id is
-- new; each error names the first test that fails, in the order state, depth, room, id: what made
-- it fail holds, and the tests before it pass.
pub enqueue-Enqueued : (s : Scheduler) (t : SchedulerTask) → Enqueued s t (enqueue s t)
unfolding enqueue
enqueue-Enqueued s t = elim (Bool-cases (is_queued t.state)) [
  | inr e ↦ rw e (λ q. ground arith)
  | inl e ↦ elim (Bool-cases (ltb s.limits.max_delegation_depth t.depth)) [
    | inl d ↦ rw e (rw d (is_queued-eq t.state e, ground arith))
    | inr d ↦ elim (Bool-cases (leb s.limits.max_queued_tasks (length (queued_tasks s.tasks)))) [
      | inl f ↦ rw e (rw d (rw f (is_queued-eq t.state e, ground arith, ground arith)))
      | inr f ↦ rw e (
          rw d (
            rw f (
              lookup-Enqueued s t (lookup t.id s.tasks) refl (is_queued-eq t.state e) (ground arith)
                (ground arith))))
    ]
  ]
]

enqueue-IsKeyed :
    (s : Scheduler) (t : SchedulerTask) (r : Result QueueError Scheduler)
    → Enqueued s t r
    → IsKeyed s.tasks
    → IsKeyed (after s r).tasks
enqueue-IsKeyed s t (err e) h k = k
enqueue-IsKeyed s t (ok s') h k =
    subst (λ u. IsKeyed u.tasks) (sym h.4)
      (Entries-insert (λ id u. u.id ≡ id) t.id t s.tasks k refl)

replace-IsKeyed :
    (s : Scheduler) (t : SchedulerTask) → IsKeyed s.tasks → IsKeyed (after s (replace s t)).tasks
unfolding replace
replace-IsKeyed s t k = elim (Bool-cases (is_some (lookup t.id s.tasks))) [
  | inl e ↦ rw e (Entries-insert (λ id u. u.id ≡ id) t.id t s.tasks k refl)
  | inr e ↦ rw e k
]

cancel-IsKeyed :
    (s : Scheduler) (id : String) (found : Option SchedulerTask)
    → lookup id s.tasks ≡ found
    → IsKeyed s.tasks
    → IsKeyed (after s (cancel_found s id found)).tasks
unfolding cancel_found
cancel-IsKeyed s id none e k = k
cancel-IsKeyed s id (some t) e k =
    Entries-insert (λ i u. u.id ≡ i) id (record t { state = State.cancelled }) s.tasks k
      (Entries-lookup (λ i u. u.id ≡ i) id s.tasks k e)

step-IsKeyed : (s : Scheduler) (c : Call) → IsKeyed s.tasks → IsKeyed (step s c).tasks
unfolding step cancel set_provisioning
step-IsKeyed s (enqueues t) k = enqueue-IsKeyed s t (enqueue s t) (enqueue-Enqueued s t) k
step-IsKeyed s (replaces t) k = replace-IsKeyed s t k
step-IsKeyed s (cancels id) k = cancel-IsKeyed s id (lookup id s.tasks) refl k
step-IsKeyed s (provisions plus_one) k = k
step-IsKeyed s (provisions minus_one) k = k

-- Whatever calls are made, every task stays under its own id.
pub run-IsKeyed : (s : Scheduler) (cs : List Call) → IsKeyed s.tasks → IsKeyed (run s cs).tasks
unfolding run
run-IsKeyed s [] k = k
run-IsKeyed s (c ∷ cs) k = run-IsKeyed (step s c) cs (step-IsKeyed s c k)

queued-insert :
    (k : String) (t : SchedulerTask) (m : Dict SchedulerTask)
    → length (queued_tasks (insert k t m))
      ≤ (if is_queued t.state then 1 else 0) + length (queued_tasks m)
unfolding insert
queued-insert k t [] = ground arith
queued-insert k t ((j, u) ∷ m) = ground (arith, queued-insert k t m)

-- The queue is within its limit.
abbrev pub IsBounded : Scheduler → Type 0
IsBounded s = length (queued_tasks s.tasks) ≤ s.limits.max_queued_tasks

-- A call that puts no task back into the queue.
abbrev pub Forward : Call → Type 0
Forward (replaces t) = is_queued t.state ≡ false
Forward (enqueues t) = Unit
Forward (cancels id) = Unit
Forward (provisions d) = Unit

enqueue-IsBounded :
    (s : Scheduler) (t : SchedulerTask) (r : Result QueueError Scheduler)
    → Enqueued s t r
    → IsBounded s
    → IsBounded (after s r)
enqueue-IsBounded s t (err e) h b = b
enqueue-IsBounded s t (ok s') h b =
    subst IsBounded (sym h.4) (ground (arith, queued-insert t.id t s.tasks, h.2))

step-IsBounded : (s : Scheduler) (c : Call) → Forward c → IsBounded s → IsBounded (step s c)
unfolding step cancel cancel_found replace set_provisioning
step-IsBounded s (enqueues t) f b = enqueue-IsBounded s t (enqueue s t) (enqueue-Enqueued s t) b
step-IsBounded s (replaces t) f b = elim (Bool-cases (is_some (lookup t.id s.tasks))) [
  | inl e ↦ rw e (ground (arith, queued-insert t.id t s.tasks))
  | inr e ↦ rw e b
]
step-IsBounded s (cancels id) f b = elim (Option-cases (lookup id s.tasks)) [
  | inl e ↦ rw e b
  | inr (t, e) ↦
      rw e (omega (arith, queued-insert id (record t { state = State.cancelled }) s.tasks))
]
step-IsBounded s (provisions plus_one) f b = b
step-IsBounded s (provisions minus_one) f b = b

-- As long as no call puts a task back into the queue, the queue stays within its limit.
pub run-IsBounded :
    (s : Scheduler) (cs : List Call) → All Forward cs → IsBounded s → IsBounded (run s cs)
unfolding run
run-IsBounded s [] f b = b
run-IsBounded s (c ∷ cs) f b = run-IsBounded (step s c) cs f.1 (step-IsBounded s c f.0 b)
