-- ===== src/State/Reducer/Keeps.antt =====
-- `reduce` of src/state/reducer.ts keeps the tasks and the runs consistent, whatever the event.
mod Tasks
mod Runs
pub use Tasks.{Good}
use Tasks.{
  task_created-Good, task_state_changed-Good, task_project_bound-Good, task_created_m3-Good,
  task_collected-Good, scheduler_admitted-Good, scheduler_blocked-Good, task_cancel_requested-Good,
}
use Runs.{
  run_created-Good, run_progress-Good, run_result_recovery_requested-Good, run_result_missing-Good,
  result_published-Good,
}
use my_shtty_pi_herdr_deck.Base.{
  String, Bool, true, false, if◌then◌else◌, List, [], ◌∷◌, Option, none, some, ◌≡◌, refl, sym,
  subst, ok, err,
}
use my_shtty_pi_herdr_deck.State.Types.{OrchestrationState, HerdrResource}
use my_shtty_pi_herdr_deck.Base.Dict.{Dict}
use my_shtty_pi_herdr_deck.State.Host.{Host}
use my_shtty_pi_herdr_deck.State.Event.{Event, EventType, Reduced, ◌>>=◌}
use my_shtty_pi_herdr_deck.State.Consistent.{IsConsistent, add_task}
use my_shtty_pi_herdr_deck.State.Reducer.{dispatch, reduce, replay, empty_state, advanced}
use my_shtty_pi_herdr_deck.State.Reducer.OnOk.{
  OnOk, OnOk-elim, OnOk-map, on_ok, on_err, on_need, on_bind, on_throw,
}
use my_shtty_pi_herdr_deck.State.Reducer.Agents.{reduce_agent_registered, reduce_agent_update}
use my_shtty_pi_herdr_deck.State.Reducer.Results.{
  reduce_result_validated, reduce_question_opened, reduce_question_answered, reduce_question_closed,
}
use my_shtty_pi_herdr_deck.State.Reducer.Compact.{reduce_compact_delegation_scheduled}
use my_shtty_pi_herdr_deck.State.Reducer.Compact.Scheduled.{compact-OnOk}
use my_shtty_pi_herdr_deck.State.Reducer.Metadata.{reduce_herdr_metadata_projected}
use my_shtty_pi_herdr_deck.State.Reducer.Metadata.Single.{metadata_projected-IsProjection}
use my_shtty_pi_herdr_deck.State.Reducer.Resources.{
  reduce_group_created, reduce_group_ended, reduce_workflow_created, reduce_workflow_state_changed,
  reduce_review_contract_issued, reduce_herdr_provision_intent, reduce_herdr_outcome,
}

-- Either branch has the tasks and the runs of `s`.
either_Good :
    (s : OrchestrationState) (b : Bool) (resources : Dict HerdrResource)
    → Good s
    → Good (if b then s else record s { herdr_resources = resources })
either_Good s true resources g = g
either_Good s false resources g = g

module _ (s : OrchestrationState) (e : Event) (g : Good s) where
  agent_registered-Good : (host : Host) → OnOk Good (reduce_agent_registered host s e)
  unfolding reduce_agent_registered
  agent_registered-Good host = on_throw _ _ _ λ _. on_ok g

  agent_update-Good : OnOk Good (reduce_agent_update s e)
  unfolding reduce_agent_update
  agent_update-Good = on_need _ _ _ λ agent _. on_ok g

  result_validated-Good : OnOk Good (reduce_result_validated s e)
  unfolding reduce_result_validated
  result_validated-Good = on_need _ _ _ λ id _. on_need _ _ _ λ result _. on_ok g

  question_opened-Good : OnOk Good (reduce_question_opened s e)
  unfolding reduce_question_opened
  question_opened-Good =
      on_throw _ _ _
        λ _. on_need _ _ _ λ task _. on_need _ _ _ λ run _. on_need _ _ _ λ agent _. on_ok g

  question_answered-Good : OnOk Good (reduce_question_answered s e)
  unfolding reduce_question_answered
  question_answered-Good = on_need _ _ _ λ id _. on_need _ _ _ λ q _. on_throw _ _ _ λ _. on_ok g

  question_closed-Good : OnOk Good (reduce_question_closed s e)
  unfolding reduce_question_closed
  question_closed-Good = on_need _ _ _ λ id _. on_need _ _ _ λ q _. on_throw _ _ _ λ _. on_ok g

  group_created-Good : OnOk Good (reduce_group_created s e)
  unfolding reduce_group_created
  group_created-Good =
      on_throw _ _ _
        λ _. on_need _ _ _ λ name _. on_need _ _ _ λ agents _. on_need _ _ _ λ created _. on_ok g

  group_ended-Good : OnOk Good (reduce_group_ended s e)
  unfolding reduce_group_ended
  group_ended-Good = on_need _ _ _ λ group _. on_throw _ _ _ λ _. on_ok g

  workflow_created-Good : OnOk Good (reduce_workflow_created s e)
  unfolding reduce_workflow_created
  workflow_created-Good = on_throw _ _ _ λ _. on_ok g

  workflow_state_changed-Good : OnOk Good (reduce_workflow_state_changed s e)
  unfolding reduce_workflow_state_changed
  workflow_state_changed-Good = on_need _ _ _ λ workflow _. on_need _ _ _ λ state _. on_ok g

  review_contract_issued-Good : OnOk Good (reduce_review_contract_issued s e)
  unfolding reduce_review_contract_issued
  review_contract_issued-Good = on_throw _ _ _ λ _. on_throw _ _ _ λ _. on_bind _ _ λ reviewer _.
      on_need _ _ _ λ task _.
        on_need _ _ _
          λ profile _. on_need _ _ _ λ run _. on_need _ _ _ λ result _. on_throw _ _ _ λ _. on_ok g

  herdr_provision_intent-Good : OnOk Good (reduce_herdr_provision_intent s e)
  unfolding reduce_herdr_provision_intent
  herdr_provision_intent-Good = on_throw _ _ _ λ _. on_ok g

  herdr_outcome-Good : OnOk Good (reduce_herdr_outcome s e)
  unfolding reduce_herdr_outcome
  herdr_outcome-Good = on_need _ _ _ λ resource _. on_ok (either_Good s _ _ g)

  compact-Good : (host : Host) → OnOk Good (reduce_compact_delegation_scheduled host s e)
  compact-Good host =
      OnOk-map (λ s' kept. subst (IsConsistent s'.tasks) (sym kept.1) kept.0)
        (compact-OnOk host s e (λ tasks. IsConsistent tasks s.runs)
          (λ workflow tasks task c new. add_task c task.id task refl new.idle) g)

  metadata_projected-Good : (host : Host) → OnOk Good (reduce_herdr_metadata_projected host s e)
  metadata_projected-Good host =
      OnOk-map (λ s' p. subst Good (sym p.written) g) (metadata_projected-IsProjection host s e)

  pub dispatch-Good : (host : Host) (type : EventType) → OnOk Good (dispatch host type s e)
  unfolding dispatch
  dispatch-Good host EventType.task_created = task_created-Good s e g
  dispatch-Good host EventType.task_project_bound = task_project_bound-Good s e g
  dispatch-Good host EventType.task_state_changed = task_state_changed-Good s e g
  dispatch-Good host EventType.audit_action = on_ok g
  dispatch-Good host EventType.audit_authorization_denied = on_ok g
  dispatch-Good host EventType.herdr_provision_intent = herdr_provision_intent-Good
  dispatch-Good host EventType.herdr_provision_outcome = herdr_outcome-Good
  dispatch-Good host EventType.herdr_reconciled = herdr_outcome-Good
  dispatch-Good host EventType.agent_registered = agent_registered-Good host
  dispatch-Good host EventType.agent_heartbeat = agent_update-Good
  dispatch-Good host EventType.agent_state_changed = agent_update-Good
  dispatch-Good host EventType.agent_moved = agent_update-Good
  dispatch-Good host EventType.agent_replaced = agent_update-Good
  dispatch-Good host EventType.task_created_m3 = task_created_m3-Good s e g host
  dispatch-Good host EventType.run_created = run_created-Good s e g host
  dispatch-Good host EventType.task_cancel_requested = task_cancel_requested-Good s e g
  dispatch-Good host EventType.result_published = result_published-Good s e g
  dispatch-Good host EventType.result_validated = result_validated-Good
  dispatch-Good host EventType.run_result_recovery_requested =
      run_result_recovery_requested-Good s e g
  dispatch-Good host EventType.run_result_missing = run_result_missing-Good s e g
  dispatch-Good host EventType.question_opened = question_opened-Good
  dispatch-Good host EventType.question_answered = question_answered-Good
  dispatch-Good host EventType.question_timed_out = question_closed-Good
  dispatch-Good host EventType.question_cancelled = question_closed-Good
  dispatch-Good host EventType.group_created = group_created-Good
  dispatch-Good host EventType.group_stopped = group_ended-Good
  dispatch-Good host EventType.group_closed = group_ended-Good
  dispatch-Good host EventType.workflow_created = workflow_created-Good
  dispatch-Good host EventType.workflow_state_changed = workflow_state_changed-Good
  dispatch-Good host EventType.scheduler_admitted = scheduler_admitted-Good s e g
  dispatch-Good host EventType.scheduler_blocked = scheduler_blocked-Good s e g
  dispatch-Good host EventType.task_collected = task_collected-Good s e g host
  dispatch-Good host EventType.review_contract_issued = review_contract_issued-Good
  dispatch-Good host EventType.compact_delegation_scheduled = compact-Good host
  dispatch-Good host EventType.herdr_metadata_projected = metadata_projected-Good host
  dispatch-Good host (EventType.unknown name) = on_err
  dispatch-Good host _ = run_progress-Good s e g

replay-OnOk :
    (host : Host) (s : OrchestrationState) (es : List Event) → Good s → OnOk Good (replay host s es)
unfolding replay reduce
replay-OnOk host s [] g = on_ok g
replay-OnOk host s (e ∷ es) g =
    on_bind _ _ λ s' ran.
      replay-OnOk host s' es (OnOk-elim (dispatch-Good (advanced s e) e g host e.type) ran)

-- Whatever events are applied to a consistent state, the state that comes out is consistent: every
-- task and every run stands under its own id, and the current run of a task exists and belongs to it.
pub replay-IsConsistent :
    (host : Host) (s : OrchestrationState) (es : List Event) {s' : OrchestrationState}
    → IsConsistent s.tasks s.runs
    → replay host s es ≡ ok s'
    → IsConsistent s'.tasks s'.runs
replay-IsConsistent host s es g h = OnOk-elim (replay-OnOk host s es g) h
