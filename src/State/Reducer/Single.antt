-- ===== src/State/Reducer/Single.antt =====
-- `reduce` of src/state/reducer.ts keeps the metadata of Herdr single, whatever the event.
use my_shtty_pi_herdr_deck.Base.{
  subst, sym, Bool-cases, inl, inr, String, Bool, true, false, if◌then◌else◌, List, [], ◌∷◌, Option,
  none, some, ◌≡◌, refl, ok,
}
use my_shtty_pi_herdr_deck.State.Types.{
  OrchestrationState, HerdrResource, task_terminal, Task, BlockedReason,
}
use my_shtty_pi_herdr_deck.Base.Dict.{Dict}
use my_shtty_pi_herdr_deck.State.Host.{Host}
use my_shtty_pi_herdr_deck.State.Event.{Event, EventType}
use my_shtty_pi_herdr_deck.State.Reducer.Tasks.{
  reduce_task_created, reduce_task_state_changed, reduce_task_created_m3, reduce_task_project_bound,
  reduce_task_cancel_requested, cancel_task, reduce_scheduler_admitted, reduce_scheduler_blocked,
  reduce_task_collected, note_admission, note_blocked,
}
use my_shtty_pi_herdr_deck.State.Reducer.Runs.{
  reduce_run_created, reduce_run_progress, reduce_run_result_recovery_requested,
  reduce_run_result_missing,
}
use my_shtty_pi_herdr_deck.State.Reducer.{dispatch, reduce, replay, advanced}
use my_shtty_pi_herdr_deck.State.Reducer.OnOk.{
  bind_ok, OnOk-map, OnOk, OnOk-elim, on_ok, on_err, on_need, on_bind, on_throw,
}
use my_shtty_pi_herdr_deck.State.Reducer.Agents.{reduce_agent_registered, reduce_agent_update}
use my_shtty_pi_herdr_deck.State.Reducer.Results.{
  reduce_result_published, reduce_result_validated, reduce_question_opened,
  reduce_question_answered, reduce_question_closed,
}
use my_shtty_pi_herdr_deck.State.Reducer.Compact.{reduce_compact_delegation_scheduled}
use my_shtty_pi_herdr_deck.State.Reducer.Compact.Scheduled.{compact-OnOk}
use my_shtty_pi_herdr_deck.State.Reducer.Metadata.Single.{IsSingle, metadata_projected-IsSingle}
use my_shtty_pi_herdr_deck.State.Reducer.Resources.{
  reduce_group_created, reduce_group_ended, reduce_workflow_created, reduce_workflow_state_changed,
  reduce_review_contract_issued, reduce_herdr_provision_intent, reduce_herdr_outcome,
}

-- The metadata are the same.
abbrev Kept : OrchestrationState → OrchestrationState → Type 0
Kept s s' = s'.herdr_metadata ≡ s.herdr_metadata

abbrev is_projection : EventType → Bool
is_projection EventType.herdr_metadata_projected = true
is_projection _ = false

either_Kept :
    (s : OrchestrationState) (b : Bool) (resources : Dict HerdrResource)
    → Kept s (if b then s else record s { herdr_resources = resources })
either_Kept s true resources = refl
either_Kept s false resources = refl

module _ (s : OrchestrationState) (e : Event) where
  agent_registered-Kept : (host : Host) → OnOk (Kept s) (reduce_agent_registered host s e)
  unfolding reduce_agent_registered
  agent_registered-Kept host = on_throw _ _ _ λ _. on_ok refl

  agent_update-Kept : OnOk (Kept s) (reduce_agent_update s e)
  unfolding reduce_agent_update
  agent_update-Kept = on_need _ _ _ λ agent _. on_ok refl

  result_validated-Kept : OnOk (Kept s) (reduce_result_validated s e)
  unfolding reduce_result_validated
  result_validated-Kept = on_need _ _ _ λ id _. on_need _ _ _ λ result _. on_ok refl

  question_opened-Kept : OnOk (Kept s) (reduce_question_opened s e)
  unfolding reduce_question_opened
  question_opened-Kept =
      on_throw _ _ _
        λ _. on_need _ _ _ λ task _. on_need _ _ _ λ run _. on_need _ _ _ λ agent _. on_ok refl

  question_answered-Kept : OnOk (Kept s) (reduce_question_answered s e)
  unfolding reduce_question_answered
  question_answered-Kept = on_need _ _ _ λ id _. on_need _ _ _ λ q _. on_throw _ _ _ λ _. on_ok refl

  question_closed-Kept : OnOk (Kept s) (reduce_question_closed s e)
  unfolding reduce_question_closed
  question_closed-Kept = on_need _ _ _ λ id _. on_need _ _ _ λ q _. on_throw _ _ _ λ _. on_ok refl

  group_created-Kept : OnOk (Kept s) (reduce_group_created s e)
  unfolding reduce_group_created
  group_created-Kept =
      on_throw _ _ _
        λ _. on_need _ _ _ λ name _. on_need _ _ _ λ agents _. on_need _ _ _ λ created _. on_ok refl

  group_ended-Kept : OnOk (Kept s) (reduce_group_ended s e)
  unfolding reduce_group_ended
  group_ended-Kept = on_need _ _ _ λ group _. on_throw _ _ _ λ _. on_ok refl

  workflow_created-Kept : OnOk (Kept s) (reduce_workflow_created s e)
  unfolding reduce_workflow_created
  workflow_created-Kept = on_throw _ _ _ λ _. on_ok refl

  workflow_state_changed-Kept : OnOk (Kept s) (reduce_workflow_state_changed s e)
  unfolding reduce_workflow_state_changed
  workflow_state_changed-Kept = on_need _ _ _ λ workflow _. on_need _ _ _ λ state _. on_ok refl

  review_contract_issued-Kept : OnOk (Kept s) (reduce_review_contract_issued s e)
  unfolding reduce_review_contract_issued
  review_contract_issued-Kept = on_throw _ _ _ λ _. on_throw _ _ _ λ _. on_bind _ _ λ reviewer _.
      on_need _ _ _ λ task _.
        on_need _ _ _ λ profile _.
          on_need _ _ _ λ run _. on_need _ _ _ λ result _. on_throw _ _ _ λ _. on_ok refl

  herdr_provision_intent-Kept : OnOk (Kept s) (reduce_herdr_provision_intent s e)
  unfolding reduce_herdr_provision_intent
  herdr_provision_intent-Kept = on_throw _ _ _ λ _. on_ok refl

  herdr_outcome-Kept : OnOk (Kept s) (reduce_herdr_outcome s e)
  unfolding reduce_herdr_outcome
  herdr_outcome-Kept = on_need _ _ _ λ resource _. on_ok (either_Kept s _ _)

  task_created-Kept : OnOk (Kept s) (reduce_task_created s e)
  unfolding reduce_task_created
  task_created-Kept =
      on_throw _ _ _ λ _. on_need _ _ _ λ title _. on_need _ _ _ λ objective _. on_ok refl

  task_state_changed-Kept : OnOk (Kept s) (reduce_task_state_changed s e)
  unfolding reduce_task_state_changed
  task_state_changed-Kept = on_need _ _ _ λ id _. on_throw _ _ _ λ _.
      on_need _ _ _
        λ task found. on_need _ _ _ λ to _. on_throw _ _ _ λ _. on_throw _ _ _ λ _. on_ok refl

  task_project_bound-Kept : OnOk (Kept s) (reduce_task_project_bound s e)
  unfolding reduce_task_project_bound
  task_project_bound-Kept = on_need _ _ _ λ task found. on_need _ _ _ λ project _. on_ok refl

  task_created_m3-Kept : (host : Host) → OnOk (Kept s) (reduce_task_created_m3 host s e)
  unfolding reduce_task_created_m3
  task_created_m3-Kept host =
      on_throw _ _ _ λ _. on_throw _ _ _ λ _. on_bind _ _ λ timeout_at _. on_ok refl

  task_collected-Kept : (host : Host) → OnOk (Kept s) (reduce_task_collected host s e)
  unfolding reduce_task_collected
  task_collected-Kept host = on_need _ _ _ λ task found. on_need _ _ _ λ at _. on_ok refl

  note_admission-Kept :
      (id : String) (reason : Option BlockedReason) (found : Option Task)
      → Kept s (note_admission s id reason found)
  unfolding note_admission
  note_admission-Kept id reason none = refl
  note_admission-Kept id reason (some task) = refl

  note_blocked-Kept :
      (id : String) (reason : Option BlockedReason) (found : Option Task)
      → Kept s (note_blocked s id reason found)
  unfolding note_blocked
  note_blocked-Kept id none found = refl
  note_blocked-Kept id (some reason) found = note_admission-Kept id (some reason) found

  scheduler_admitted-Kept : OnOk (Kept s) (reduce_scheduler_admitted s e)
  unfolding reduce_scheduler_admitted
  scheduler_admitted-Kept = on_ok (note_admission-Kept _ _ _)

  scheduler_blocked-Kept : OnOk (Kept s) (reduce_scheduler_blocked s e)
  unfolding reduce_scheduler_blocked
  scheduler_blocked-Kept = on_ok (note_blocked-Kept _ _ _)

  run_created-Kept : (host : Host) → OnOk (Kept s) (reduce_run_created host s e)
  unfolding reduce_run_created
  run_created-Kept host = on_throw _ _ _ λ _.
      on_need _ _ _ λ task _. on_throw _ _ _ λ _. on_throw _ _ _ λ _. on_throw _ _ _ λ _. on_ok refl

  run_progress-Kept : OnOk (Kept s) (reduce_run_progress s e)
  unfolding reduce_run_progress
  run_progress-Kept =
      on_need _ _ _ λ run _. on_throw _ _ _ λ _. on_throw _ _ _ λ _. on_throw _ _ _ λ _. on_ok refl

  run_result_recovery_requested-Kept : OnOk (Kept s) (reduce_run_result_recovery_requested s e)
  unfolding reduce_run_result_recovery_requested
  run_result_recovery_requested-Kept = on_need _ _ _ λ run _. on_throw _ _ _ λ _. on_ok refl

  run_result_missing-Kept : OnOk (Kept s) (reduce_run_result_missing s e)
  unfolding reduce_run_result_missing
  run_result_missing-Kept =
      on_need _ _ _ λ run _. on_need _ _ _ λ task _. on_throw _ _ _ λ _. on_ok refl

  result_published-Kept : OnOk (Kept s) (reduce_result_published s e)
  unfolding reduce_result_published
  result_published-Kept = on_throw _ _ _ λ _. on_need _ _ _ λ task_id _.
      on_need _ _ _ λ run_id _. on_need _ _ _ λ agent_id _. on_need _ _ _ λ hash _. on_ok refl

  cancel_task-Kept : (id : String) (found : Option Task) → Kept s (cancel_task s id found)
  unfolding cancel_task
  cancel_task-Kept id none = refl
  cancel_task-Kept id (some task) = elim (Bool-cases (task_terminal task.state)) [
    | inl over ↦ rw over refl
    | inr live ↦ rw live refl
  ]

  task_cancel_requested-Kept : OnOk (Kept s) (reduce_task_cancel_requested s e)
  unfolding reduce_task_cancel_requested
  task_cancel_requested-Kept = on_ok (cancel_task-Kept _ _)

  compact-Kept : (host : Host) → OnOk (Kept s) (reduce_compact_delegation_scheduled host s e)
  compact-Kept host =
      OnOk-map (λ s' kept. kept.3)
        (compact-OnOk host s e (λ tasks. Unit {0}) (λ workflow tasks task _ _. tt) tt)

  dispatch-Kept :
      (host : Host) (type : EventType)
      → is_projection type ≡ false
      → OnOk (Kept s) (dispatch host type s e)
  unfolding dispatch
  dispatch-Kept host EventType.task_created h = task_created-Kept
  dispatch-Kept host EventType.task_project_bound h = task_project_bound-Kept
  dispatch-Kept host EventType.task_state_changed h = task_state_changed-Kept
  dispatch-Kept host EventType.audit_action h = on_ok refl
  dispatch-Kept host EventType.audit_authorization_denied h = on_ok refl
  dispatch-Kept host EventType.herdr_provision_intent h = herdr_provision_intent-Kept
  dispatch-Kept host EventType.herdr_provision_outcome h = herdr_outcome-Kept
  dispatch-Kept host EventType.herdr_reconciled h = herdr_outcome-Kept
  dispatch-Kept host EventType.agent_registered h = agent_registered-Kept host
  dispatch-Kept host EventType.agent_heartbeat h = agent_update-Kept
  dispatch-Kept host EventType.agent_state_changed h = agent_update-Kept
  dispatch-Kept host EventType.agent_moved h = agent_update-Kept
  dispatch-Kept host EventType.agent_replaced h = agent_update-Kept
  dispatch-Kept host EventType.task_created_m3 h = task_created_m3-Kept host
  dispatch-Kept host EventType.run_created h = run_created-Kept host
  dispatch-Kept host EventType.task_cancel_requested h = task_cancel_requested-Kept
  dispatch-Kept host EventType.result_published h = result_published-Kept
  dispatch-Kept host EventType.result_validated h = result_validated-Kept
  dispatch-Kept host EventType.run_result_recovery_requested h = run_result_recovery_requested-Kept
  dispatch-Kept host EventType.run_result_missing h = run_result_missing-Kept
  dispatch-Kept host EventType.question_opened h = question_opened-Kept
  dispatch-Kept host EventType.question_answered h = question_answered-Kept
  dispatch-Kept host EventType.question_timed_out h = question_closed-Kept
  dispatch-Kept host EventType.question_cancelled h = question_closed-Kept
  dispatch-Kept host EventType.group_created h = group_created-Kept
  dispatch-Kept host EventType.group_stopped h = group_ended-Kept
  dispatch-Kept host EventType.group_closed h = group_ended-Kept
  dispatch-Kept host EventType.workflow_created h = workflow_created-Kept
  dispatch-Kept host EventType.workflow_state_changed h = workflow_state_changed-Kept
  dispatch-Kept host EventType.scheduler_admitted h = scheduler_admitted-Kept
  dispatch-Kept host EventType.scheduler_blocked h = scheduler_blocked-Kept
  dispatch-Kept host EventType.task_collected h = task_collected-Kept host
  dispatch-Kept host EventType.review_contract_issued h = review_contract_issued-Kept
  dispatch-Kept host EventType.compact_delegation_scheduled h = compact-Kept host
  dispatch-Kept host EventType.herdr_metadata_projected h = absurd (cc h)
  dispatch-Kept host (EventType.unknown name) h = on_err
  dispatch-Kept host _ h = run_progress-Kept

dispatch-IsSingle :
    (host : Host) (s : OrchestrationState) (e : Event) (type : EventType) {s' : OrchestrationState}
    → IsSingle s.herdr_metadata
    → dispatch host type s e ≡ ok s'
    → IsSingle s'.herdr_metadata
unfolding dispatch
dispatch-IsSingle host s e EventType.herdr_metadata_projected single h =
    metadata_projected-IsSingle host s e single h
dispatch-IsSingle host s e type single h =
    subst IsSingle (sym (OnOk-elim (dispatch-Kept s e host type refl) h)) single

-- Whatever events are applied to a state whose Herdr metadata are single, those of the state that
-- comes out are: all stand under their own ids, and no two of them are for the same run.
pub replay-IsSingle :
    (host : Host) (s : OrchestrationState) (es : List Event) {s' : OrchestrationState}
    → IsSingle s.herdr_metadata
    → replay host s es ≡ ok s'
    → IsSingle s'.herdr_metadata
unfolding replay reduce
replay-IsSingle host s [] {s'} single h =
    let same : s ≡ s' = cc h in subst (λ t. IsSingle t.herdr_metadata) same single
replay-IsSingle host s (e ∷ es) single h =
    let (next, first, rest) =
      bind_ok (dispatch host e.type (advanced s e) e) (λ t. replay host t es) h in
    replay-IsSingle host next es (dispatch-IsSingle host (advanced s e) e e.type single first) rest
