-- ===== src/State/Reducer/Keeps/Runs.antt =====
-- The run and result events of `reduce` (src/state/reducer.ts) keep the state consistent.
use my_shtty_pi_herdr_deck.Base.{String, Option, none, some, ◌≡◌, refl}
use my_shtty_pi_herdr_deck.Base.Dict.{Dict, lookup}
use my_shtty_pi_herdr_deck.State.Types.{Task, Run, TaskState, ErrorSummary, OrchestrationState}
use my_shtty_pi_herdr_deck.State.Host.{Host}
use my_shtty_pi_herdr_deck.State.Event.{Event}
use my_shtty_pi_herdr_deck.State.Consistent.{
  IsConsistent, put_task, put_run, start_run, put_own_task, put_own_run,
}
use my_shtty_pi_herdr_deck.State.Reducer.OnOk.{fresh_of_usable, OnOk, on_ok, on_need, on_throw}
use my_shtty_pi_herdr_deck.State.Reducer.Runs.{
  reduce_run_created, reduce_run_progress, reduce_run_result_recovery_requested,
  reduce_run_result_missing, end_task,
}
use my_shtty_pi_herdr_deck.State.Reducer.Results.{reduce_result_published, link_task, link_run}
use my_shtty_pi_herdr_deck.State.Reducer.Keeps.Tasks.{Good}

end_task-Good :
    {tasks : Dict Task} {runs : Dict Run}
    → IsConsistent tasks runs
    → (state : Option TaskState) (reason : Option ErrorSummary) (id : String) (found : Option Task)
    → lookup id tasks ≡ found
    → IsConsistent (end_task state reason id tasks found) runs
end_task-Good c none reason id none e = c
end_task-Good c none reason id (some t) e = c
end_task-Good c (some st) reason id none e = c
end_task-Good c (some st) reason id (some t) e = put_task c id _ e refl refl

link_task-Good :
    {tasks : Dict Task} {runs : Dict Run}
    → IsConsistent tasks runs
    → (result id : String) (found : Option Task) → lookup id tasks ≡ found
    → IsConsistent (link_task result tasks found) runs
link_task-Good c result id none e = c
link_task-Good c result id (some t) e = put_own_task c id _ e refl refl

link_run-Good :
    {tasks : Dict Task} {runs : Dict Run}
    → IsConsistent tasks runs
    → (result id : String) (found : Option Run) → lookup id runs ≡ found
    → IsConsistent tasks (link_run result runs found)
link_run-Good c result id none e = c
link_run-Good c result id (some r) e = put_own_run c id _ e refl refl

module _ (s : OrchestrationState) (e : Event) (g : Good s) where
  pub run_created-Good : (host : Host) → OnOk Good (reduce_run_created host s e)
  unfolding reduce_run_created
  run_created-Good host = on_throw _ _ _ λ usable. on_need _ _ _ λ task found. on_throw _ _ _ λ _.
      on_throw _ _ _ λ _.
        on_throw _ _ _
          λ _. on_ok (start_run g _ _ task _ (fresh_of_usable _ s.runs usable) refl refl refl refl)

  pub run_progress-Good : OnOk Good (reduce_run_progress s e)
  unfolding reduce_run_progress
  run_progress-Good = on_need _ _ _ λ run found. on_throw _ _ _ λ _. on_throw _ _ _ λ _.
      on_throw _ _ _
        λ _. on_ok (end_task-Good (put_run g _ _ found refl refl) _ _ run.task_id _ refl)

  pub run_result_recovery_requested-Good : OnOk Good (reduce_run_result_recovery_requested s e)
  unfolding reduce_run_result_recovery_requested
  run_result_recovery_requested-Good =
      on_need _ _ _ λ run found. on_throw _ _ _ λ _. on_ok (put_run g _ _ found refl refl)

  pub run_result_missing-Good : OnOk Good (reduce_run_result_missing s e)
  unfolding reduce_run_result_missing
  run_result_missing-Good = on_need _ _ _ λ (run : Run) found. on_need _ _ _ λ task at.
      on_throw _ _ _
        λ _. on_ok (put_own_task (put_run g _ _ found refl refl) run.task_id _ at refl refl)

  pub result_published-Good : OnOk Good (reduce_result_published s e)
  unfolding reduce_result_published
  result_published-Good = on_throw _ _ _ λ _. on_need _ _ _ λ task_id _. on_need _ _ _ λ run_id _.
      on_need _ _ _ λ agent_id _.
        on_need _ _ _
          λ hash _. on_ok (link_run-Good (link_task-Good g _ task_id _ refl) _ run_id _ refl)
