-- ===== src/Tests/SchedulerTests.antt =====
-- The scheduler of src/scheduler on sample inputs.
use my_shtty_pi_herdr_deck.Base.{
  ◌+◌, ◌≤◌, max, ◌≡◌, refl, Bool, true, false, List, [], ◌∷◌, map, Option, some, arith, length,
  count, All, ◌==◌, inl,
}
use my_shtty_pi_herdr_deck.Base.Dict.{Dict, lookup, insert}
use my_shtty_pi_herdr_deck.Base.Json.{Number, integer}
use my_shtty_pi_herdr_deck.Base.Int.{pos}
use my_shtty_pi_herdr_deck.Base.Sort.{sort}
use my_shtty_pi_herdr_deck.Scheduler.Types.{State, SchedulerTask, normal, default_scheduler_limits}
use my_shtty_pi_herdr_deck.Scheduler.Limits.{
  clamp_limits, known_keys, override, clamped, within, WithinHard, clamp_limits-WithinHard,
}
use my_shtty_pi_herdr_deck.Scheduler.Queue.{active_tasks, queued_tasks, enqueue, plus_one}
use my_shtty_pi_herdr_deck.Scheduler.Queue.Laws.{
  Enqueued, enqueue-Enqueued, IsKeyed, run-IsKeyed, run-IsBounded, IsBounded, enqueues, cancels,
  provisions, run,
}
use my_shtty_pi_herdr_deck.Scheduler.Admission.{
  admit_ready, available, task_endpoint_id, tally, reason_for, admit_loop,
}
use my_shtty_pi_herdr_deck.Scheduler.Admission.Capacity.{
  admissions, admit_ready_global, admit_ready_parent, admit_ready_endpoint,
}
use my_shtty_pi_herdr_deck.Scheduler.Admission.Eligible.{IsEligible, admit_ready-IsEligible}
use my_shtty_pi_herdr_deck.Scheduler.Admission.Order.{InOrder, admit_ready-order}
use my_shtty_pi_herdr_deck.Scheduler.Admission.Refusals.{admit_ready_global_used}
use my_shtty_pi_herdr_deck.Scheduler.Reuse.{
  find_reusable_agent, is_reusable_candidate, IsChoice, find_reusable_agent-IsChoice,
}
use my_shtty_pi_herdr_deck.Tests.SchedulerSamples.{
  by_length, sample_task, sample_tasks, sample, narrow, request, candidates,
}

-- What a run of `admitReady` computes with.
admission : Unit {0}
unfolding admit_ready available tally reason_for admit_loop lookup insert sort by_length
admission = tt

-- The high task goes first; then the parent's dependency-blocked task; then the low one, for which
-- the endpoint has no room left.
admit_sample :
    map (λ d. d.admitted) (admit_ready by_length sample sample_tasks) ≡ true ∷ false ∷ false ∷ []
unfolding admission
admit_sample = refl

admit_ready_global_example :
    length (active_tasks sample_tasks) + length (admissions by_length sample sample_tasks) ≤ max 1 4
admit_ready_global_example = admit_ready_global by_length sample sample_tasks

admit_ready_parent_example :
    count (λ t. t.parent_agent_id == "p") (active_tasks sample_tasks)
      + count (λ t. t.parent_agent_id == "p") (admissions by_length sample sample_tasks)
    ≤ max 1 4
admit_ready_parent_example = admit_ready_parent by_length sample sample_tasks "p"

admit_ready_endpoint_example :
    count (λ t. task_endpoint_id t == "derived-v1-legacy") (active_tasks sample_tasks)
      + count
          (λ t. task_endpoint_id t == "derived-v1-legacy")
          (admissions by_length sample sample_tasks)
    ≤ max 1 2
unfolding lookup
admit_ready_endpoint_example =
    admit_ready_endpoint by_length sample sample_tasks "derived-v1-legacy"

admit_ready-IsEligible_example :
    All (IsEligible sample sample_tasks) (admissions by_length sample sample_tasks)
admit_ready-IsEligible_example = admit_ready-IsEligible by_length sample sample_tasks

admit_ready-order_example :
    (ts : List SchedulerTask) × (map (λ d. d.task_id) (admit_ready by_length sample sample_tasks)
      ≡ map (λ t. t.id) ts)
    × InOrder by_length ts
    × All (λ t. t.state ≡ State.queued) ts
    × ((p : SchedulerTask → Bool) → count p ts ≡ count p (queued_tasks sample_tasks))
admit_ready-order_example = admit_ready-order by_length sample sample_tasks

admit_ready_global_used_example :
    1 ≤ length (active_tasks sample_tasks) + length (admissions by_length narrow sample_tasks)
unfolding admission
admit_ready_global_used_example =
    admit_ready_global_used by_length narrow sample_tasks (inl (refl, refl))

abbrev fresh_task : SchedulerTask
fresh_task = sample_task "new" "p" State.queued normal []

enqueue-Enqueued_example : Enqueued sample fresh_task (enqueue sample fresh_task)
enqueue-Enqueued_example = enqueue-Enqueued sample fresh_task

run-IsKeyed_example :
    IsKeyed (run sample (enqueues fresh_task ∷ cancels "a" ∷ provisions plus_one ∷ [])).tasks
run-IsKeyed_example =
    run-IsKeyed sample (enqueues fresh_task ∷ cancels "a" ∷ provisions plus_one ∷ [])
      (refl, (refl, (refl, (refl, (refl, tt)))))

run-IsBounded_example : IsBounded (run sample (enqueues fresh_task ∷ cancels "a" ∷ []))
run-IsBounded_example =
    run-IsBounded sample (enqueues fresh_task ∷ cancels "a" ∷ []) (tt, (tt, tt)) (omega arith)

abbrev input : Dict (Option Number)
input = ("maxActiveAgents", some (integer (pos 12))) ∷ []

clamp_limits-WithinHard_example :
    WithinHard (record default_scheduler_limits { max_active_agents = 12 })
unfolding clamp_limits known_keys override clamped within lookup
clamp_limits-WithinHard_example = clamp_limits-WithinHard input refl

find_sample : find_reusable_agent by_length request candidates ≡ some "xy"
unfolding find_reusable_agent is_reusable_candidate sort by_length
find_sample = refl

find_reusable_agent-IsChoice_example :
    IsChoice by_length request candidates (find_reusable_agent by_length request candidates)
find_reusable_agent-IsChoice_example = find_reusable_agent-IsChoice by_length request candidates
