-- ===== src/State/Reducer/Ended.antt =====
-- `reduce` of src/state/reducer.ts leaves a run that ended in its state, but for three events.
use my_shtty_pi_herdr_deck.Base.{
  subst, sym, All, ap, ◌∙◌, or_default, arith, String, Bool, true, false, if◌then◌else◌, List, [],
  ◌∷◌, Option, none, some, ◌≡◌, refl, ok,
}
use my_shtty_pi_herdr_deck.State.Types.{
  OrchestrationState, HerdrResource, Task, Run, RunState, BlockedReason, run_shared_terminal,
}
use my_shtty_pi_herdr_deck.Base.Dict.{Dict, lookup, insert}
use my_shtty_pi_herdr_deck.State.Host.{Host}
use my_shtty_pi_herdr_deck.State.Event.{Event, EventType}
use my_shtty_pi_herdr_deck.State.Consistent.{IsConsistent, run_key}
use my_shtty_pi_herdr_deck.State.History.{Grows, Grows-refl, Grows-insert, Grows-trans, add_fresh}
use my_shtty_pi_herdr_deck.State.Event.{text_at, same_run_state}
use my_shtty_pi_herdr_deck.State.Reducer.Keeps.{Good, dispatch-Good}
use my_shtty_pi_herdr_deck.State.Reducer.Tasks.{
  reduce_task_created, reduce_task_state_changed, reduce_task_created_m3, reduce_task_project_bound,
  reduce_scheduler_admitted, reduce_scheduler_blocked, reduce_task_collected, note_admission,
  note_blocked,
}
use my_shtty_pi_herdr_deck.State.Reducer.Runs.{
  reduce_run_created, reduce_run_progress, stale_progress, leaves_terminal, run_state_at,
}
use my_shtty_pi_herdr_deck.State.Reducer.{dispatch, reduce, replay, advanced}
use my_shtty_pi_herdr_deck.State.Reducer.OnOk.{
  fresh_of_usable, OnOk-map, OnOk, OnOk-elim, on_ok, on_err, on_need, on_bind, on_throw,
}
use my_shtty_pi_herdr_deck.State.Reducer.Agents.{reduce_agent_registered, reduce_agent_update}
use my_shtty_pi_herdr_deck.State.Reducer.Results.{
  reduce_result_published, link_run, reduce_result_validated, reduce_question_opened,
  reduce_question_answered, reduce_question_closed,
}
use my_shtty_pi_herdr_deck.State.Reducer.Compact.{reduce_compact_delegation_scheduled}
use my_shtty_pi_herdr_deck.State.Reducer.Compact.Scheduled.{compact-OnOk}
use my_shtty_pi_herdr_deck.State.Reducer.Metadata.{reduce_herdr_metadata_projected}
use my_shtty_pi_herdr_deck.State.Reducer.Metadata.Single.{metadata_projected-IsProjection}
use my_shtty_pi_herdr_deck.State.Reducer.Resources.{
  reduce_group_created, reduce_group_ended, reduce_workflow_created, reduce_workflow_state_changed,
  reduce_review_contract_issued, reduce_herdr_provision_intent, reduce_herdr_outcome,
}

-- A run that is over stays in its state.
abbrev pub StaysEnded : Run → Run → Type 0
StaysEnded r r' = run_shared_terminal r.state ≡ true → r'.state ≡ r.state

StaysEnded-trans : (a b c : Run) → StaysEnded a b → StaysEnded b c → StaysEnded a c
StaysEnded-trans a b c first second over =
    second (ap run_shared_terminal (first over) ∙ over) ∙ first over

-- Every run is still there, and in its state if it is over.
abbrev pub RunsEnd : OrchestrationState → OrchestrationState → Type 0
RunsEnd s s' = Grows StaysEnded s.runs s'.runs

-- The events that write a run's state without regard to the old one.
abbrev pub overrides : EventType → Bool
overrides EventType.task_cancel_requested = true
overrides EventType.run_result_recovery_requested = true
overrides EventType.run_result_missing = true
overrides _ = false

same_terminal : (q r : RunState) → run_shared_terminal r ≡ true → same_run_state q r ≡ true → q ≡ r
same_terminal RunState.succeeded RunState.succeeded over same = refl
same_terminal RunState.failed RunState.failed over same = refl
same_terminal RunState.cancelled RunState.cancelled over same = refl
same_terminal RunState.timed_out RunState.timed_out over same = refl
same_terminal RunState.lost RunState.lost over same = refl
same_terminal _ _ over same = absurd (ground (arith, over, same))

-- What the guards of a run's progress leave to its new state.
kept_state :
    (type : EventType) (state : Option RunState) (run : Run)
    → stale_progress type run ≡ false
    → leaves_terminal type state run ≡ false
    → run_shared_terminal run.state ≡ true
    → or_default state run.state ≡ run.state
kept_state type none run fresh stays over = refl
kept_state type (some q) run fresh stays over =
    same_terminal q run.state over (ground (arith, fresh, stays, over))

write_run :
    (runs : Dict Run) (id : String) (old new : Run)
    → lookup id runs ≡ some old
    → StaysEnded old new
    → Grows StaysEnded runs (insert id new runs)
write_run runs id old new at ended =
    Grows-insert StaysEnded (λ r over. refl) runs id new
      (λ other there.
        let one : old ≡ other = cc (at, there) in subst (λ r. StaysEnded r new) one ended)

either_RunsEnd :
    (s : OrchestrationState) (b : Bool) (resources : Dict HerdrResource)
    → RunsEnd s (if b then s else record s { herdr_resources = resources })
either_RunsEnd s true resources k v at = (v, at, λ over. refl)
either_RunsEnd s false resources k v at = (v, at, λ over. refl)

module _ (s : OrchestrationState) (e : Event) (g : Good s) where
  same : Grows StaysEnded s.runs s.runs
  same k v at = (v, at, λ over. refl)

  agent_registered-RunsEnd : (host : Host) → OnOk (RunsEnd s) (reduce_agent_registered host s e)
  unfolding reduce_agent_registered
  agent_registered-RunsEnd host = on_throw _ _ _ λ _. on_ok same

  agent_update-RunsEnd : OnOk (RunsEnd s) (reduce_agent_update s e)
  unfolding reduce_agent_update
  agent_update-RunsEnd = on_need _ _ _ λ agent _. on_ok same

  result_validated-RunsEnd : OnOk (RunsEnd s) (reduce_result_validated s e)
  unfolding reduce_result_validated
  result_validated-RunsEnd = on_need _ _ _ λ id _. on_need _ _ _ λ result _. on_ok same

  question_opened-RunsEnd : OnOk (RunsEnd s) (reduce_question_opened s e)
  unfolding reduce_question_opened
  question_opened-RunsEnd =
      on_throw _ _ _
        λ _. on_need _ _ _ λ task _. on_need _ _ _ λ run _. on_need _ _ _ λ agent _. on_ok same

  question_answered-RunsEnd : OnOk (RunsEnd s) (reduce_question_answered s e)
  unfolding reduce_question_answered
  question_answered-RunsEnd =
      on_need _ _ _ λ id _. on_need _ _ _ λ q _. on_throw _ _ _ λ _. on_ok same

  question_closed-RunsEnd : OnOk (RunsEnd s) (reduce_question_closed s e)
  unfolding reduce_question_closed
  question_closed-RunsEnd =
      on_need _ _ _ λ id _. on_need _ _ _ λ q _. on_throw _ _ _ λ _. on_ok same

  group_created-RunsEnd : OnOk (RunsEnd s) (reduce_group_created s e)
  unfolding reduce_group_created
  group_created-RunsEnd =
      on_throw _ _ _
        λ _. on_need _ _ _ λ name _. on_need _ _ _ λ agents _. on_need _ _ _ λ created _. on_ok same

  group_ended-RunsEnd : OnOk (RunsEnd s) (reduce_group_ended s e)
  unfolding reduce_group_ended
  group_ended-RunsEnd = on_need _ _ _ λ group _. on_throw _ _ _ λ _. on_ok same

  workflow_created-RunsEnd : OnOk (RunsEnd s) (reduce_workflow_created s e)
  unfolding reduce_workflow_created
  workflow_created-RunsEnd = on_throw _ _ _ λ _. on_ok same

  workflow_state_changed-RunsEnd : OnOk (RunsEnd s) (reduce_workflow_state_changed s e)
  unfolding reduce_workflow_state_changed
  workflow_state_changed-RunsEnd = on_need _ _ _ λ workflow _. on_need _ _ _ λ state _. on_ok same

  review_contract_issued-RunsEnd : OnOk (RunsEnd s) (reduce_review_contract_issued s e)
  unfolding reduce_review_contract_issued
  review_contract_issued-RunsEnd = on_throw _ _ _ λ _. on_throw _ _ _ λ _. on_bind _ _ λ reviewer _.
      on_need _ _ _ λ task _.
        on_need _ _ _ λ profile _.
          on_need _ _ _ λ run _. on_need _ _ _ λ result _. on_throw _ _ _ λ _. on_ok same

  herdr_provision_intent-RunsEnd : OnOk (RunsEnd s) (reduce_herdr_provision_intent s e)
  unfolding reduce_herdr_provision_intent
  herdr_provision_intent-RunsEnd = on_throw _ _ _ λ _. on_ok same

  herdr_outcome-RunsEnd : OnOk (RunsEnd s) (reduce_herdr_outcome s e)
  unfolding reduce_herdr_outcome
  herdr_outcome-RunsEnd = on_need _ _ _ λ resource _. on_ok (either_RunsEnd s _ _)

  task_created-RunsEnd : OnOk (RunsEnd s) (reduce_task_created s e)
  unfolding reduce_task_created
  task_created-RunsEnd =
      on_throw _ _ _ λ _. on_need _ _ _ λ title _. on_need _ _ _ λ objective _. on_ok same

  task_state_changed-RunsEnd : OnOk (RunsEnd s) (reduce_task_state_changed s e)
  unfolding reduce_task_state_changed
  task_state_changed-RunsEnd = on_need _ _ _ λ id _. on_throw _ _ _ λ _.
      on_need _ _ _
        λ task found. on_need _ _ _ λ to _. on_throw _ _ _ λ _. on_throw _ _ _ λ _. on_ok same

  task_project_bound-RunsEnd : OnOk (RunsEnd s) (reduce_task_project_bound s e)
  unfolding reduce_task_project_bound
  task_project_bound-RunsEnd = on_need _ _ _ λ task found. on_need _ _ _ λ project _. on_ok same

  task_created_m3-RunsEnd : (host : Host) → OnOk (RunsEnd s) (reduce_task_created_m3 host s e)
  unfolding reduce_task_created_m3
  task_created_m3-RunsEnd host =
      on_throw _ _ _ λ _. on_throw _ _ _ λ _. on_bind _ _ λ timeout_at _. on_ok same

  task_collected-RunsEnd : (host : Host) → OnOk (RunsEnd s) (reduce_task_collected host s e)
  unfolding reduce_task_collected
  task_collected-RunsEnd host = on_need _ _ _ λ task found. on_need _ _ _ λ at _. on_ok same

  note_admission-RunsEnd :
      (id : String) (reason : Option BlockedReason) (found : Option Task)
      → RunsEnd s (note_admission s id reason found)
  unfolding note_admission
  note_admission-RunsEnd id reason none = same
  note_admission-RunsEnd id reason (some task) = same

  note_blocked-RunsEnd :
      (id : String) (reason : Option BlockedReason) (found : Option Task)
      → RunsEnd s (note_blocked s id reason found)
  unfolding note_blocked
  note_blocked-RunsEnd id none found = same
  note_blocked-RunsEnd id (some reason) found = note_admission-RunsEnd id (some reason) found

  scheduler_admitted-RunsEnd : OnOk (RunsEnd s) (reduce_scheduler_admitted s e)
  unfolding reduce_scheduler_admitted
  scheduler_admitted-RunsEnd = on_ok (note_admission-RunsEnd _ _ _)

  scheduler_blocked-RunsEnd : OnOk (RunsEnd s) (reduce_scheduler_blocked s e)
  unfolding reduce_scheduler_blocked
  scheduler_blocked-RunsEnd = on_ok (note_blocked-RunsEnd _ _ _)

  run_created-RunsEnd : (host : Host) → OnOk (RunsEnd s) (reduce_run_created host s e)
  unfolding reduce_run_created
  run_created-RunsEnd host = on_throw _ _ _ λ usable. on_need _ _ _ λ task found.
      on_throw _ _ _ λ _. on_throw _ _ _ λ _. on_throw _ _ _ λ _.
        on_ok (add_fresh StaysEnded (λ r over. refl) s.runs _ _ (fresh_of_usable _ s.runs usable))

  run_progress-RunsEnd : OnOk (RunsEnd s) (reduce_run_progress s e)
  unfolding reduce_run_progress
  run_progress-RunsEnd = on_need _ _ _ λ run found. on_throw _ _ _ λ fresh. on_throw _ _ _ λ stays.
      on_throw _ _ _ λ _. on_ok (
        write_run s.runs _ run _ found
          (kept_state e.type (run_state_at (text_at "state" e)) run fresh stays))

  own_run : (id : String) (r : Run) → lookup id s.runs ≡ some r → lookup r.id s.runs ≡ some r
  own_run id r at = ap (λ k. lookup k s.runs) (run_key g id at) ∙ at

  link_run-RunsEnd :
      (result id : String) (found : Option Run)
      → lookup id s.runs ≡ found
      → Grows StaysEnded s.runs (link_run result s.runs found)
  link_run-RunsEnd result id none at = same
  link_run-RunsEnd result id (some r) at =
      write_run s.runs r.id r _ (own_run id r at) (λ over. refl)

  result_published-RunsEnd : OnOk (RunsEnd s) (reduce_result_published s e)
  unfolding reduce_result_published
  result_published-RunsEnd = on_throw _ _ _ λ _. on_need _ _ _ λ task_id _.
      on_need _ _ _ λ run_id _.
        on_need _ _ _ λ agent_id _. on_need _ _ _ λ hash _. on_ok (link_run-RunsEnd _ run_id _ refl)

  compact-RunsEnd : (host : Host) → OnOk (RunsEnd s) (reduce_compact_delegation_scheduled host s e)
  compact-RunsEnd host =
      OnOk-map (λ s' kept. subst (Grows StaysEnded s.runs) (sym kept.1) same)
        (compact-OnOk host s e (λ tasks. Unit {0}) (λ workflow tasks task _ _. tt) tt)

  metadata_projected-RunsEnd :
      (host : Host) → OnOk (RunsEnd s) (reduce_herdr_metadata_projected host s e)
  metadata_projected-RunsEnd host =
      OnOk-map (λ s' p. subst (RunsEnd s) (sym p.written) same)
        (metadata_projected-IsProjection host s e)

  dispatch-RunsEnd :
      (host : Host) (type : EventType)
      → overrides type ≡ false
      → OnOk (RunsEnd s) (dispatch host type s e)
  unfolding dispatch
  dispatch-RunsEnd host EventType.task_created h = task_created-RunsEnd
  dispatch-RunsEnd host EventType.task_project_bound h = task_project_bound-RunsEnd
  dispatch-RunsEnd host EventType.task_state_changed h = task_state_changed-RunsEnd
  dispatch-RunsEnd host EventType.audit_action h = on_ok same
  dispatch-RunsEnd host EventType.audit_authorization_denied h = on_ok same
  dispatch-RunsEnd host EventType.herdr_provision_intent h = herdr_provision_intent-RunsEnd
  dispatch-RunsEnd host EventType.herdr_provision_outcome h = herdr_outcome-RunsEnd
  dispatch-RunsEnd host EventType.herdr_reconciled h = herdr_outcome-RunsEnd
  dispatch-RunsEnd host EventType.agent_registered h = agent_registered-RunsEnd host
  dispatch-RunsEnd host EventType.agent_heartbeat h = agent_update-RunsEnd
  dispatch-RunsEnd host EventType.agent_state_changed h = agent_update-RunsEnd
  dispatch-RunsEnd host EventType.agent_moved h = agent_update-RunsEnd
  dispatch-RunsEnd host EventType.agent_replaced h = agent_update-RunsEnd
  dispatch-RunsEnd host EventType.task_created_m3 h = task_created_m3-RunsEnd host
  dispatch-RunsEnd host EventType.run_created h = run_created-RunsEnd host
  dispatch-RunsEnd host EventType.task_cancel_requested h = absurd (cc h)
  dispatch-RunsEnd host EventType.result_published h = result_published-RunsEnd
  dispatch-RunsEnd host EventType.result_validated h = result_validated-RunsEnd
  dispatch-RunsEnd host EventType.run_result_recovery_requested h = absurd (cc h)
  dispatch-RunsEnd host EventType.run_result_missing h = absurd (cc h)
  dispatch-RunsEnd host EventType.question_opened h = question_opened-RunsEnd
  dispatch-RunsEnd host EventType.question_answered h = question_answered-RunsEnd
  dispatch-RunsEnd host EventType.question_timed_out h = question_closed-RunsEnd
  dispatch-RunsEnd host EventType.question_cancelled h = question_closed-RunsEnd
  dispatch-RunsEnd host EventType.group_created h = group_created-RunsEnd
  dispatch-RunsEnd host EventType.group_stopped h = group_ended-RunsEnd
  dispatch-RunsEnd host EventType.group_closed h = group_ended-RunsEnd
  dispatch-RunsEnd host EventType.workflow_created h = workflow_created-RunsEnd
  dispatch-RunsEnd host EventType.workflow_state_changed h = workflow_state_changed-RunsEnd
  dispatch-RunsEnd host EventType.scheduler_admitted h = scheduler_admitted-RunsEnd
  dispatch-RunsEnd host EventType.scheduler_blocked h = scheduler_blocked-RunsEnd
  dispatch-RunsEnd host EventType.task_collected h = task_collected-RunsEnd host
  dispatch-RunsEnd host EventType.review_contract_issued h = review_contract_issued-RunsEnd
  dispatch-RunsEnd host EventType.compact_delegation_scheduled h = compact-RunsEnd host
  dispatch-RunsEnd host EventType.herdr_metadata_projected h = metadata_projected-RunsEnd host
  dispatch-RunsEnd host (EventType.unknown name) h = on_err
  dispatch-RunsEnd host _ h = run_progress-RunsEnd

replay-OnOk :
    (host : Host) (s : OrchestrationState) (es : List Event)
    → Good s
    → All (λ e. overrides e.type ≡ false) es
    → OnOk (RunsEnd s) (replay host s es)
unfolding replay reduce
replay-OnOk host s [] g plain = on_ok (Grows-refl StaysEnded (λ r over. refl) s.runs)
replay-OnOk host s (e ∷ es) g plain = on_bind _ _ λ s' ran.
    OnOk-map
      (λ s''.
        Grows-trans StaysEnded StaysEnded-trans s.runs s'.runs s''.runs
          (OnOk-elim (dispatch-RunsEnd (advanced s e) e g host e.type plain.0) ran))
      (replay-OnOk host s' es (OnOk-elim (dispatch-Good (advanced s e) e g host e.type) ran)
        plain.1)

-- Whatever events are applied to a consistent state, if none of them is a cancellation of a task, a
-- request to recover a result or the report that a result is missing, then every run that is over
-- is still there and in the same final state.
pub replay-RunsEnd :
    (host : Host) (s : OrchestrationState) (es : List Event) {s' : OrchestrationState}
    → IsConsistent s.tasks s.runs
    → All (λ e. overrides e.type ≡ false) es
    → replay host s es ≡ ok s'
    → RunsEnd s s'
replay-RunsEnd host s es g plain h = OnOk-elim (replay-OnOk host s es g plain) h
