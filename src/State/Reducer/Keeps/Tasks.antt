-- ===== src/State/Reducer/Keeps/Tasks.antt =====
-- The task events of `reduce` (src/state/reducer.ts) keep the state consistent.
use my_shtty_pi_herdr_deck.Base.{
  String, Option, none, some, ◌≡◌, refl, arith, Bool-cases, inl, inr, ◌==◌,
}
use my_shtty_pi_herdr_deck.Base.Dict.{Dict, lookup}
use my_shtty_pi_herdr_deck.State.Types.{Task, Run, OrchestrationState, BlockedReason, task_terminal}
use my_shtty_pi_herdr_deck.State.Host.{Host}
use my_shtty_pi_herdr_deck.State.Event.{Event}
use my_shtty_pi_herdr_deck.State.Consistent.{IsConsistent, put_task, add_task, put_run}
use my_shtty_pi_herdr_deck.State.Reducer.OnOk.{OnOk, on_ok, on_need, on_bind, on_throw}
use my_shtty_pi_herdr_deck.State.Reducer.Tasks.{
  reduce_task_created, reduce_task_state_changed, reduce_task_created_m3, reduce_task_project_bound,
  reduce_task_cancel_requested, reduce_scheduler_admitted, reduce_scheduler_blocked,
  reduce_task_collected, note_admission, note_blocked, cancel_task, cancel_run, referenced,
}

abbrev pub Good : OrchestrationState → Type 0
Good s = IsConsistent s.tasks s.runs

module _ (s : OrchestrationState) (e : Event) (g : Good s) where
  pub task_created-Good : OnOk Good (reduce_task_created s e)
  unfolding reduce_task_created
  task_created-Good =
      on_throw _ _ _
        λ _. on_need _ _ _ λ title _. on_need _ _ _ λ objective _. on_ok (add_task g _ _ refl refl)

  pub task_state_changed-Good : OnOk Good (reduce_task_state_changed s e)
  unfolding reduce_task_state_changed
  task_state_changed-Good = on_need _ _ _ λ id _. on_throw _ _ _ λ _. on_need _ _ _ λ task found.
      on_need _ _ _
        λ to _. on_throw _ _ _ λ _. on_throw _ _ _ λ _. on_ok (put_task g id _ found refl refl)

  pub task_project_bound-Good : OnOk Good (reduce_task_project_bound s e)
  unfolding reduce_task_project_bound
  task_project_bound-Good =
      on_need _ _ _ λ task found. on_need _ _ _ λ project _. on_ok (put_task g _ _ found refl refl)

  pub task_created_m3-Good : (host : Host) → OnOk Good (reduce_task_created_m3 host s e)
  unfolding reduce_task_created_m3
  task_created_m3-Good host =
      on_throw _ _ _
        λ _. on_throw _ _ _ λ _. on_bind _ _ λ timeout_at _. on_ok (add_task g _ _ refl refl)

  pub task_collected-Good : (host : Host) → OnOk Good (reduce_task_collected host s e)
  unfolding reduce_task_collected
  task_collected-Good host =
      on_need _ _ _ λ task found. on_need _ _ _ λ at _. on_ok (put_task g _ _ found refl refl)

note_admission-Good :
    (s : OrchestrationState) (id : String) (reason : Option BlockedReason) (found : Option Task)
    → lookup id s.tasks ≡ found
    → Good s
    → Good (note_admission s id reason found)
unfolding note_admission
note_admission-Good s id reason none e g = g
note_admission-Good s id reason (some task) e g = put_task g id _ e refl refl

note_blocked-Good :
    (s : OrchestrationState) (id : String) (reason : Option BlockedReason) (found : Option Task)
    → lookup id s.tasks ≡ found
    → Good s
    → Good (note_blocked s id reason found)
unfolding note_blocked
note_blocked-Good s id none found e g = g
note_blocked-Good s id (some reason) found e g = note_admission-Good s id (some reason) found e g

pub scheduler_admitted-Good :
    (s : OrchestrationState) (e : Event) → Good s → OnOk Good (reduce_scheduler_admitted s e)
unfolding reduce_scheduler_admitted
scheduler_admitted-Good s e g = on_ok (note_admission-Good s _ _ _ refl g)

pub scheduler_blocked-Good :
    (s : OrchestrationState) (e : Event) → Good s → OnOk Good (reduce_scheduler_blocked s e)
unfolding reduce_scheduler_blocked
scheduler_blocked-Good s e g = on_ok (note_blocked-Good s _ _ _ refl g)

cancel_run-Good :
    {tasks : Dict Task} {runs : Dict Run}
    → IsConsistent tasks runs
    → (current : Option String) (found : Option Run) → referenced current runs ≡ found
    → IsConsistent tasks (cancel_run current runs found)
cancel_run-Good c none found e = c
cancel_run-Good c (some id) none e = c
cancel_run-Good {runs = runs} c (some id) (some run) e = elim (Bool-cases (id == "")) [
  | inl empty ↦ absurd (ground arith)
  | inr named ↦ put_run c id _ (rw named at e) refl refl
]

cancel_task-Good :
    (s : OrchestrationState) (id : String) (found : Option Task)
    → lookup id s.tasks ≡ found
    → Good s
    → Good (cancel_task s id found)
unfolding cancel_task
cancel_task-Good s id none e g = g
cancel_task-Good s id (some task) e g = elim (Bool-cases (task_terminal task.state)) [
  | inl over ↦ rw over g
  | inr live ↦ rw live (cancel_run-Good (put_task g id _ e refl refl) task.current_run_id _ refl)
]

pub task_cancel_requested-Good :
    (s : OrchestrationState) (e : Event) → Good s → OnOk Good (reduce_task_cancel_requested s e)
unfolding reduce_task_cancel_requested
task_cancel_requested-Good s e g = on_ok (cancel_task-Good s _ _ refl g)
