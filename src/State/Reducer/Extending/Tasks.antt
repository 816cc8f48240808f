-- ===== src/State/Reducer/Extending/Tasks.antt =====
-- The task events of `reduce` (src/state/reducer.ts) add to the history and take nothing away.
use my_shtty_pi_herdr_deck.Base.{
  String, Option, none, some, ◌≡◌, refl, arith, Bool-cases, inl, inr, ◌==◌,
}
use my_shtty_pi_herdr_deck.Base.Dict.{Dict, lookup}
use my_shtty_pi_herdr_deck.State.Types.{Task, Run, OrchestrationState, BlockedReason, task_terminal}
use my_shtty_pi_herdr_deck.State.Host.{Host}
use my_shtty_pi_herdr_deck.State.Event.{Event}
use my_shtty_pi_herdr_deck.State.History.{
  Extends, Extends-refl, Grows, SameTask, SameRun, same_runs, same_questions, put_task, put_run,
  add_fresh,
}
use my_shtty_pi_herdr_deck.State.Reducer.OnOk.{
  fresh_of_usable, OnOk, on_ok, on_need, on_bind, on_throw,
}
use my_shtty_pi_herdr_deck.State.Reducer.Tasks.{
  reduce_task_created, reduce_task_state_changed, reduce_task_created_m3, reduce_task_project_bound,
  reduce_task_cancel_requested, reduce_scheduler_admitted, reduce_scheduler_blocked,
  reduce_task_collected, note_admission, note_blocked, cancel_task, cancel_run, referenced,
}

-- Only the tasks change.
pub by_tasks :
    (s : OrchestrationState) {s' : OrchestrationState}
    → Grows SameTask s.tasks s'.tasks
    → s'.runs ≡ s.runs
    → s'.questions ≡ s.questions
    → Extends s s'
by_tasks s t r q = record {
  tasks_kept = t;
  runs_kept = rw r (same_runs s);
  questions_kept = rw q (same_questions s);
}

module _ (s : OrchestrationState) (e : Event) where
  pub task_created-Extends : OnOk (Extends s) (reduce_task_created s e)
  unfolding reduce_task_created
  task_created-Extends = on_throw _ _ _ λ usable. on_need _ _ _ λ title _.
      on_need _ _ _ λ objective _. on_ok (
        by_tasks s (add_fresh SameTask (λ t. refl) s.tasks _ _ (fresh_of_usable _ s.tasks usable))
          refl refl)

  pub task_created_m3-Extends : (host : Host) → OnOk (Extends s) (reduce_task_created_m3 host s e)
  unfolding reduce_task_created_m3
  task_created_m3-Extends host = on_throw _ _ _ λ usable. on_throw _ _ _ λ _. on_bind _ _ λ at _.
      on_ok (
        by_tasks s (add_fresh SameTask (λ t. refl) s.tasks _ _ (fresh_of_usable _ s.tasks usable))
          refl refl)

  pub task_state_changed-Extends : OnOk (Extends s) (reduce_task_state_changed s e)
  unfolding reduce_task_state_changed
  task_state_changed-Extends = on_need _ _ _ λ id _. on_throw _ _ _ λ _. on_need _ _ _ λ task found.
      on_need _ _ _ λ to _.
        on_throw _ _ _
          λ _. on_throw _ _ _ λ _. on_ok (by_tasks s (put_task s.tasks id _ found refl) refl refl)

  pub task_project_bound-Extends : OnOk (Extends s) (reduce_task_project_bound s e)
  unfolding reduce_task_project_bound
  task_project_bound-Extends = on_need _ _ _ λ task found.
      on_need _ _ _ λ project _. on_ok (by_tasks s (put_task s.tasks _ _ found refl) refl refl)

  pub task_collected-Extends : (host : Host) → OnOk (Extends s) (reduce_task_collected host s e)
  unfolding reduce_task_collected
  task_collected-Extends host = on_need _ _ _ λ task found.
      on_need _ _ _ λ at _. on_ok (by_tasks s (put_task s.tasks _ _ found refl) refl refl)

note_admission-Extends :
    (s : OrchestrationState) (id : String) (reason : Option BlockedReason) (found : Option Task)
    → lookup id s.tasks ≡ found
    → Extends s (note_admission s id reason found)
unfolding note_admission
note_admission-Extends s id reason none e = Extends-refl s
note_admission-Extends s id reason (some task) e =
    by_tasks s (put_task s.tasks id _ e refl) refl refl

note_blocked-Extends :
    (s : OrchestrationState) (id : String) (reason : Option BlockedReason) (found : Option Task)
    → lookup id s.tasks ≡ found
    → Extends s (note_blocked s id reason found)
unfolding note_blocked
note_blocked-Extends s id none found e = Extends-refl s
note_blocked-Extends s id (some reason) found e = note_admission-Extends s id (some reason) found e

pub scheduler_admitted-Extends :
    (s : OrchestrationState) (e : Event) → OnOk (Extends s) (reduce_scheduler_admitted s e)
unfolding reduce_scheduler_admitted
scheduler_admitted-Extends s e = on_ok (note_admission-Extends s _ _ _ refl)

pub scheduler_blocked-Extends :
    (s : OrchestrationState) (e : Event) → OnOk (Extends s) (reduce_scheduler_blocked s e)
unfolding reduce_scheduler_blocked
scheduler_blocked-Extends s e = on_ok (note_blocked-Extends s _ _ _ refl)

cancel_run-Grows :
    (runs : Dict Run) (current : Option String) (found : Option Run)
    → referenced current runs ≡ found
    → Grows SameRun runs (cancel_run current runs found)
cancel_run-Grows runs none found e = λ k v at. (v, at, refl)
cancel_run-Grows runs (some id) none e = λ k v at. (v, at, refl)
cancel_run-Grows runs (some id) (some run) e = elim (Bool-cases (id == "")) [
  | inl empty ↦ absurd (ground arith)
  | inr named ↦ put_run runs id _ (rw named at e) refl
]

cancel_task-Extends :
    (s : OrchestrationState) (id : String) (found : Option Task)
    → lookup id s.tasks ≡ found
    → Extends s (cancel_task s id found)
unfolding cancel_task
cancel_task-Extends s id none e = Extends-refl s
cancel_task-Extends s id (some task) e = elim (Bool-cases (task_terminal task.state)) [
  | inl over ↦ rw over (Extends-refl s)
  | inr live ↦ rw live (record {
    tasks_kept = put_task s.tasks id _ e refl;
    runs_kept = cancel_run-Grows s.runs task.current_run_id _ refl;
    questions_kept = same_questions s;
  })
]

pub task_cancel_requested-Extends :
    (s : OrchestrationState) (e : Event) → OnOk (Extends s) (reduce_task_cancel_requested s e)
unfolding reduce_task_cancel_requested
task_cancel_requested-Extends s e = on_ok (cancel_task-Extends s _ _ refl)
