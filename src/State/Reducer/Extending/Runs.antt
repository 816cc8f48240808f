-- ===== src/State/Reducer/Extending/Runs.antt =====
-- The run and result events of `reduce` (src/state/reducer.ts) add to the history and take nothing
-- away.
use my_shtty_pi_herdr_deck.Base.{String, Option, none, some, ◌≡◌, refl, ap, ◌∙◌}
use my_shtty_pi_herdr_deck.Base.Dict.{Dict, lookup}
use my_shtty_pi_herdr_deck.State.Types.{Task, Run, TaskState, ErrorSummary, OrchestrationState}
use my_shtty_pi_herdr_deck.State.Host.{Host}
use my_shtty_pi_herdr_deck.State.Event.{Event}
use my_shtty_pi_herdr_deck.State.Consistent.{task_key, run_key}
use my_shtty_pi_herdr_deck.State.History.{
  Extends, Grows, SameTask, SameRun, same_tasks, same_questions, put_task, put_run, add_fresh,
}
use my_shtty_pi_herdr_deck.State.Reducer.OnOk.{fresh_of_usable, OnOk, on_ok, on_need, on_throw}
use my_shtty_pi_herdr_deck.State.Reducer.Runs.{
  reduce_run_created, reduce_run_progress, reduce_run_result_recovery_requested,
  reduce_run_result_missing, end_task,
}
use my_shtty_pi_herdr_deck.State.Reducer.Results.{reduce_result_published, link_task, link_run}
use my_shtty_pi_herdr_deck.State.Reducer.Keeps.{Good}

end_task-Grows :
    (tasks : Dict Task) (state : Option TaskState) (reason : Option ErrorSummary) (id : String)
    (found : Option Task)
    → lookup id tasks ≡ found
    → Grows SameTask tasks (end_task state reason id tasks found)
end_task-Grows tasks none reason id none e = λ k v at. (v, at, refl)
end_task-Grows tasks none reason id (some t) e = λ k v at. (v, at, refl)
end_task-Grows tasks (some st) reason id none e = λ k v at. (v, at, refl)
end_task-Grows tasks (some st) reason id (some t) e = put_task tasks id _ e refl

module _ (s : OrchestrationState) (e : Event) (g : Good s) where
  -- A task and a run are found under the ids that they carry.
  own_task : (id : String) (t : Task) → lookup id s.tasks ≡ some t → lookup t.id s.tasks ≡ some t
  own_task id t at = ap (λ k. lookup k s.tasks) (task_key g id at) ∙ at

  own_run : (id : String) (r : Run) → lookup id s.runs ≡ some r → lookup r.id s.runs ≡ some r
  own_run id r at = ap (λ k. lookup k s.runs) (run_key g id at) ∙ at

  link_task-Grows :
      (result id : String) (found : Option Task)
      → lookup id s.tasks ≡ found
      → Grows SameTask s.tasks (link_task result s.tasks found)
  link_task-Grows result id none at = λ k v there. (v, there, refl)
  link_task-Grows result id (some t) at = put_task s.tasks t.id _ (own_task id t at) refl

  link_run-Grows :
      (result id : String) (found : Option Run)
      → lookup id s.runs ≡ found
      → Grows SameRun s.runs (link_run result s.runs found)
  link_run-Grows result id none at = λ k v there. (v, there, refl)
  link_run-Grows result id (some r) at = put_run s.runs r.id _ (own_run id r at) refl

  pub run_created-Extends : (host : Host) → OnOk (Extends s) (reduce_run_created host s e)
  unfolding reduce_run_created
  run_created-Extends host = on_throw _ _ _ λ usable. on_need _ _ _ λ task found.
      on_throw _ _ _ λ _. on_throw _ _ _ λ _. on_throw _ _ _ λ _. on_ok (record {
        tasks_kept = put_task s.tasks task.id _ (own_task _ task found) refl;
        runs_kept = add_fresh SameRun (λ r. refl) s.runs _ _ (fresh_of_usable _ s.runs usable);
        questions_kept = same_questions s;
      })

  pub run_progress-Extends : OnOk (Extends s) (reduce_run_progress s e)
  unfolding reduce_run_progress
  run_progress-Extends = on_need _ _ _ λ run found. on_throw _ _ _ λ _. on_throw _ _ _ λ _.
      on_throw _ _ _ λ _. on_ok (record {
        tasks_kept = end_task-Grows s.tasks _ _ run.task_id _ refl;
        runs_kept = put_run s.runs _ _ found refl;
        questions_kept = same_questions s;
      })

  pub run_result_recovery_requested-Extends :
      OnOk (Extends s) (reduce_run_result_recovery_requested s e)
  unfolding reduce_run_result_recovery_requested
  run_result_recovery_requested-Extends = on_need _ _ _ λ run found. on_throw _ _ _ λ _.
      on_ok (record {
        tasks_kept = same_tasks s;
        runs_kept = put_run s.runs _ _ found refl;
        questions_kept = same_questions s;
      })

  pub run_result_missing-Extends : OnOk (Extends s) (reduce_run_result_missing s e)
  unfolding reduce_run_result_missing
  run_result_missing-Extends = on_need _ _ _ λ (run : Run) found. on_need _ _ _ λ (task : Task) at.
      on_throw _ _ _ λ _. on_ok (record {
        tasks_kept = put_task s.tasks task.id _ (own_task run.task_id task at) refl;
        runs_kept = put_run s.runs _ _ found refl;
        questions_kept = same_questions s;
      })

  pub result_published-Extends : OnOk (Extends s) (reduce_result_published s e)
  unfolding reduce_result_published
  result_published-Extends = on_throw _ _ _ λ _. on_need _ _ _ λ task_id _.
      on_need _ _ _ λ run_id _. on_need _ _ _ λ agent_id _. on_need _ _ _ λ hash _. on_ok (record {
        tasks_kept = link_task-Grows _ task_id _ refl;
        runs_kept = link_run-Grows _ run_id _ refl;
        questions_kept = same_questions s;
      })
