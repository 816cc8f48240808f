-- ===== src/State/Reducer/Extending.antt =====
-- `reduce` of src/state/reducer.ts adds to the history and takes nothing away.
mod Tasks
mod Runs
use Tasks.{
  by_tasks, task_created-Extends, task_state_changed-Extends, task_project_bound-Extends,
  task_created_m3-Extends, task_collected-Extends, scheduler_admitted-Extends,
  scheduler_blocked-Extends, task_cancel_requested-Extends,
}
use Runs.{
  run_created-Extends, run_progress-Extends, run_result_recovery_requested-Extends,
  run_result_missing-Extends, result_published-Extends,
}
use my_shtty_pi_herdr_deck.Base.{
  String, Bool, true, false, if◌then◌else◌, List, [], ◌∷◌, Option, none, some, ◌≡◌, refl, sym,
  subst, ◌∙◌, arith, ok, err,
}
use my_shtty_pi_herdr_deck.State.Types.{OrchestrationState, HerdrResource, QuestionRecord}
use my_shtty_pi_herdr_deck.Base.Dict.{Dict, insert}
use my_shtty_pi_herdr_deck.State.Host.{Host}
use my_shtty_pi_herdr_deck.State.Event.{Event, EventType, Reduced, ◌>>=◌}
use my_shtty_pi_herdr_deck.State.Consistent.{IsConsistent}
use my_shtty_pi_herdr_deck.State.History.{
  Extends, Extends-refl, Extends-trans, untouched, Grows, Grows-trans, SameTask, SettledStays,
  same_tasks, same_runs, put_question, add_fresh,
}
use my_shtty_pi_herdr_deck.State.Reducer.Keeps.{Good, dispatch-Good}
use my_shtty_pi_herdr_deck.State.Reducer.{dispatch, reduce, replay, empty_state, advanced}
use my_shtty_pi_herdr_deck.State.Reducer.OnOk.{
  OnOk-map, fresh_of_usable, OnOk, OnOk-elim, on_ok, on_err, on_need, on_bind, on_throw,
}
use my_shtty_pi_herdr_deck.State.Reducer.Agents.{reduce_agent_registered, reduce_agent_update}
use my_shtty_pi_herdr_deck.State.Reducer.Results.{
  reduce_result_validated, reduce_question_opened, reduce_question_answered, reduce_question_closed,
}
use my_shtty_pi_herdr_deck.State.Reducer.Compact.{reduce_compact_delegation_scheduled}
use my_shtty_pi_herdr_deck.State.Reducer.Compact.Scheduled.{compact-OnOk}
use my_shtty_pi_herdr_deck.State.Reducer.Metadata.{reduce_herdr_metadata_projected}
use my_shtty_pi_herdr_deck.State.Reducer.Metadata.Single.{metadata_projected-IsProjection}
use my_shtty_pi_herdr_deck.State.Reducer.Resources.{
  reduce_group_created, reduce_group_ended, reduce_workflow_created, reduce_workflow_state_changed,
  reduce_review_contract_issued, reduce_herdr_provision_intent, reduce_herdr_outcome,
}

-- Either branch has the tasks, the runs and the questions of `s`.
either_Extends :
    (s : OrchestrationState) (b : Bool) (resources : Dict HerdrResource)
    → Extends s (if b then s else record s { herdr_resources = resources })
either_Extends s true resources = Extends-refl s
either_Extends s false resources = untouched s _ refl refl refl

by_questions :
    (s s' : OrchestrationState)
    → Grows SettledStays s.questions s'.questions
    → s'.tasks ≡ s.tasks
    → s'.runs ≡ s.runs
    → Extends s s'
by_questions s s' q t r = record {
  tasks_kept = rw t (same_tasks s);
  runs_kept = rw r (same_runs s);
  questions_kept = q;
}

module _ (s : OrchestrationState) (e : Event) (g : Good s) where
  agent_registered-Extends : (host : Host) → OnOk (Extends s) (reduce_agent_registered host s e)
  unfolding reduce_agent_registered
  agent_registered-Extends host = on_throw _ _ _ λ _. on_ok (untouched s _ refl refl refl)

  agent_update-Extends : OnOk (Extends s) (reduce_agent_update s e)
  unfolding reduce_agent_update
  agent_update-Extends = on_need _ _ _ λ agent _. on_ok (untouched s _ refl refl refl)

  result_validated-Extends : OnOk (Extends s) (reduce_result_validated s e)
  unfolding reduce_result_validated
  result_validated-Extends =
      on_need _ _ _ λ id _. on_need _ _ _ λ result _. on_ok (untouched s _ refl refl refl)

  question_opened-Extends : OnOk (Extends s) (reduce_question_opened s e)
  unfolding reduce_question_opened
  question_opened-Extends = on_throw _ _ _ λ usable. on_need _ _ _ λ task _. on_need _ _ _ λ run _.
      on_need _ _ _ λ agent _. on_ok (
        by_questions s _
          (add_fresh SettledStays (λ q over. refl) s.questions _ _
            (fresh_of_usable _ s.questions usable))
          refl refl)

  question_answered-Extends : OnOk (Extends s) (reduce_question_answered s e)
  unfolding reduce_question_answered
  question_answered-Extends = on_need _ _ _ λ id _. on_need _ _ _ λ q found.
      on_throw _ _ _ λ unsettled. on_ok (
        by_questions s _ (put_question s.questions id _ found (ground (arith, unsettled))) refl
          refl)

  question_closed-Extends : OnOk (Extends s) (reduce_question_closed s e)
  unfolding reduce_question_closed
  question_closed-Extends = on_need _ _ _ λ id _. on_need _ _ _ λ q found.
      on_throw _ _ _ λ unsettled. on_ok (
        by_questions s _ (put_question s.questions id _ found (ground (arith, unsettled))) refl
          refl)

  group_created-Extends : OnOk (Extends s) (reduce_group_created s e)
  unfolding reduce_group_created
  group_created-Extends = on_throw _ _ _ λ _. on_need _ _ _ λ name _.
      on_need _ _ _ λ agents _. on_need _ _ _ λ created _. on_ok (untouched s _ refl refl refl)

  group_ended-Extends : OnOk (Extends s) (reduce_group_ended s e)
  unfolding reduce_group_ended
  group_ended-Extends =
      on_need _ _ _ λ group _. on_throw _ _ _ λ _. on_ok (untouched s _ refl refl refl)

  workflow_created-Extends : OnOk (Extends s) (reduce_workflow_created s e)
  unfolding reduce_workflow_created
  workflow_created-Extends = on_throw _ _ _ λ _. on_ok (untouched s _ refl refl refl)

  workflow_state_changed-Extends : OnOk (Extends s) (reduce_workflow_state_changed s e)
  unfolding reduce_workflow_state_changed
  workflow_state_changed-Extends =
      on_need _ _ _ λ workflow _. on_need _ _ _ λ state _. on_ok (untouched s _ refl refl refl)

  review_contract_issued-Extends : OnOk (Extends s) (reduce_review_contract_issued s e)
  unfolding reduce_review_contract_issued
  review_contract_issued-Extends = on_throw _ _ _ λ _. on_throw _ _ _ λ _. on_bind _ _ λ reviewer _.
      on_need _ _ _ λ task _. on_need _ _ _ λ profile _.
        on_need _ _ _ λ run _.
          on_need _ _ _ λ result _. on_throw _ _ _ λ _. on_ok (untouched s _ refl refl refl)

  herdr_provision_intent-Extends : OnOk (Extends s) (reduce_herdr_provision_intent s e)
  unfolding reduce_herdr_provision_intent
  herdr_provision_intent-Extends = on_throw _ _ _ λ _. on_ok (untouched s _ refl refl refl)

  herdr_outcome-Extends : OnOk (Extends s) (reduce_herdr_outcome s e)
  unfolding reduce_herdr_outcome
  herdr_outcome-Extends = on_need _ _ _ λ resource _. on_ok (either_Extends s _ _)

  compact-Extends : (host : Host) → OnOk (Extends s) (reduce_compact_delegation_scheduled host s e)
  compact-Extends host =
      OnOk-map (λ s' kept. by_tasks s kept.0 kept.1 kept.2)
        (compact-OnOk host s e (λ tasks. Grows SameTask s.tasks tasks)
          (λ workflow tasks task before new.
            Grows-trans SameTask (λ _ _ _ p q. q ∙ p) s.tasks tasks (insert task.id task tasks)
              before (add_fresh SameTask (λ t. refl) tasks task.id task new.free))
          (same_tasks s))

  metadata_projected-Extends :
      (host : Host) → OnOk (Extends s) (reduce_herdr_metadata_projected host s e)
  metadata_projected-Extends host =
      OnOk-map (λ s' p. subst (Extends s) (sym p.written) (untouched s _ refl refl refl))
        (metadata_projected-IsProjection host s e)

  dispatch-Extends : (host : Host) (type : EventType) → OnOk (Extends s) (dispatch host type s e)
  unfolding dispatch
  dispatch-Extends host EventType.task_created = task_created-Extends s e
  dispatch-Extends host EventType.task_project_bound = task_project_bound-Extends s e
  dispatch-Extends host EventType.task_state_changed = task_state_changed-Extends s e
  dispatch-Extends host EventType.audit_action = on_ok (untouched s _ refl refl refl)
  dispatch-Extends host EventType.audit_authorization_denied = on_ok (untouched s _ refl refl refl)
  dispatch-Extends host EventType.herdr_provision_intent = herdr_provision_intent-Extends
  dispatch-Extends host EventType.herdr_provision_outcome = herdr_outcome-Extends
  dispatch-Extends host EventType.herdr_reconciled = herdr_outcome-Extends
  dispatch-Extends host EventType.agent_registered = agent_registered-Extends host
  dispatch-Extends host EventType.agent_heartbeat = agent_update-Extends
  dispatch-Extends host EventType.agent_state_changed = agent_update-Extends
  dispatch-Extends host EventType.agent_moved = agent_update-Extends
  dispatch-Extends host EventType.agent_replaced = agent_update-Extends
  dispatch-Extends host EventType.task_created_m3 = task_created_m3-Extends s e host
  dispatch-Extends host EventType.run_created = run_created-Extends s e g host
  dispatch-Extends host EventType.task_cancel_requested = task_cancel_requested-Extends s e
  dispatch-Extends host EventType.result_published = result_published-Extends s e g
  dispatch-Extends host EventType.result_validated = result_validated-Extends
  dispatch-Extends host EventType.run_result_recovery_requested =
      run_result_recovery_requested-Extends s e g
  dispatch-Extends host EventType.run_result_missing = run_result_missing-Extends s e g
  dispatch-Extends host EventType.question_opened = question_opened-Extends
  dispatch-Extends host EventType.question_answered = question_answered-Extends
  dispatch-Extends host EventType.question_timed_out = question_closed-Extends
  dispatch-Extends host EventType.question_cancelled = question_closed-Extends
  dispatch-Extends host EventType.group_created = group_created-Extends
  dispatch-Extends host EventType.group_stopped = group_ended-Extends
  dispatch-Extends host EventType.group_closed = group_ended-Extends
  dispatch-Extends host EventType.workflow_created = workflow_created-Extends
  dispatch-Extends host EventType.workflow_state_changed = workflow_state_changed-Extends
  dispatch-Extends host EventType.scheduler_admitted = scheduler_admitted-Extends s e
  dispatch-Extends host EventType.scheduler_blocked = scheduler_blocked-Extends s e
  dispatch-Extends host EventType.task_collected = task_collected-Extends s e host
  dispatch-Extends host EventType.review_contract_issued = review_contract_issued-Extends
  dispatch-Extends host EventType.compact_delegation_scheduled = compact-Extends host
  dispatch-Extends host EventType.herdr_metadata_projected = metadata_projected-Extends host
  dispatch-Extends host (EventType.unknown name) = on_err
  dispatch-Extends host _ = run_progress-Extends s e g

-- The sequence number and the hash are no part of the history.
from_advanced :
    (s : OrchestrationState) (e : Event) {s' : OrchestrationState}
    → Extends (advanced s e) s'
    → Extends s s'
from_advanced s e x = record {
  tasks_kept = x.tasks_kept;
  runs_kept = x.runs_kept;
  questions_kept = x.questions_kept;
}

replay-OnOk :
    (host : Host) (s : OrchestrationState) (es : List Event)
    → Good s
    → OnOk (Extends s) (replay host s es)
unfolding replay reduce
replay-OnOk host s [] g = on_ok (Extends-refl s)
replay-OnOk host s (e ∷ es) g = on_bind _ _ λ s' ran.
    OnOk-map
      (λ s''.
        Extends-trans s s' s''
          (from_advanced s e (OnOk-elim (dispatch-Extends (advanced s e) e g host e.type) ran)))
      (replay-OnOk host s' es (OnOk-elim (dispatch-Good (advanced s e) e g host e.type) ran))

-- Whatever events are applied to a consistent state, nothing of its history is lost. Every task is
-- still there under the same key, with its id, title, objective, time of creation, parent agent,
-- workflow, profile, isolation mode, constraints, dependencies and deadline. Every run is still
-- there under the same key, with its id, task, assignment generation, endpoint, start and deadline.
-- Every question is still there, and one that was answered, timed out or cancelled is the same in
-- every field.
pub replay-Extends :
    (host : Host) (s : OrchestrationState) (es : List Event) {s' : OrchestrationState}
    → IsConsistent s.tasks s.runs
    → replay host s es ≡ ok s'
    → Extends s s'
replay-Extends host s es g h = OnOk-elim (replay-OnOk host s es g) h
