-- ===== src/Workflow/Engine/Cancellation.antt =====
-- `applyWorkflowState` and `cancelWorkflow` of src/scheduler/workflow-engine.ts.
use my_shtty_pi_herdr_deck.Base.{
  String, Bool, true, false, not, ◌&&◌, ◌||◌, List, [], ◌∷◌, map, none, some, ◌≡◌, refl, sym, ◌∙◌,
  arith, any, includes, Bool-cases, inl, inr, if◌then◌else◌, eq_iff, eq_refl, subst,
}
use my_shtty_pi_herdr_deck.Base.Dict.{lookup, insert, lookup-insert}
use my_shtty_pi_herdr_deck.Workflow.Types.{
  PlannedStep, WorkflowPlan, ExecutionState, WorkflowExecution, is_terminal, is_cancelled,
}
use my_shtty_pi_herdr_deck.Workflow.Engine.{
  ExecutionStates, execution_for, state_of, sort_steps, workflow_readiness, apply_workflow_state,
  cancelled_execution, cancel_keys, cancel_workflow,
}

-- Updates that arrive one after another.
unfoldable pub apply_all : WorkflowExecution → List WorkflowExecution → WorkflowExecution
apply_all current [] = current
apply_all current (next ∷ rest) = apply_all (apply_workflow_state current next) rest

apply_kept :
    (current next : WorkflowExecution)
    → is_cancelled current.state || not (is_cancelled next.state || not (is_terminal current.state))
      ≡ true
    → apply_workflow_state current next ≡ current
unfolding apply_workflow_state
apply_kept current next h = ground (arith, h)

apply_taken :
    (current next : WorkflowExecution)
    → is_cancelled current.state ≡ false
    → is_cancelled next.state || not (is_terminal current.state) ≡ true
    → apply_workflow_state current next ≡ next
unfolding apply_workflow_state
apply_taken current next e f = rw (e, f) refl

abbrev pub cancels : List WorkflowExecution → Bool
cancels updates = any (λ next. is_cancelled next.state) updates

-- How a step may end after some updates: cancelled if it was or is cancelled, and unchanged if it
-- was over and nothing cancels it.
pub record Outcome (current final : WorkflowExecution) (updates : List WorkflowExecution)
    : Type 0 where
  pub cancelled :
      is_cancelled current.state || cancels updates ≡ true → is_cancelled final.state ≡ true
  pub unchanged : is_terminal current.state && not (cancels updates) ≡ true → final ≡ current

-- Updates that arrive in any number and order leave a step cancelled if it was cancelled or one of
-- them cancels it, and leave it as it was if it was over and none of them cancels it.
pub apply_all-Outcome :
    (current : WorkflowExecution) (updates : List WorkflowExecution)
    → Outcome current (apply_all current updates) updates
unfolding apply_all
apply_all-Outcome current [] = record { cancelled = λ h. ground (arith, h); unchanged = λ h. refl }
apply_all-Outcome current (next ∷ rest) = elim (Bool-cases (is_cancelled current.state)) [
  | inl e ↦
      let kept = apply_all-Outcome current rest in
      subst (λ x. Outcome current (apply_all x rest) (next ∷ rest))
        (sym (apply_kept current next (ground (arith, e))))
        (record {
          cancelled = λ h. kept.cancelled (ground (arith, e));
          unchanged = λ h. kept.unchanged (ground (arith, h));
        })
  | inr e ↦ elim (Bool-cases (is_cancelled next.state || not (is_terminal current.state))) [
    | inl f ↦
        subst (λ x. Outcome current (apply_all x rest) (next ∷ rest))
          (sym (apply_taken current next e f))
          (record {
            cancelled = λ h. (apply_all-Outcome next rest).cancelled (ground (arith, e, h));
            unchanged = λ h. absurd (ground (arith, f, h));
          })
    | inr f ↦
        let kept = apply_all-Outcome current rest in
        subst (λ x. Outcome current (apply_all x rest) (next ∷ rest))
          (sym (apply_kept current next (ground (arith, f))))
          (record {
            cancelled = λ h. kept.cancelled (ground (arith, f, h));
            unchanged = λ h. kept.unchanged (ground (arith, h));
          })
  ]
]

lookup-cancel_keys :
    (states cancelled : ExecutionStates) (keys : List String) (k : String)
    → lookup k (cancel_keys states cancelled keys) ≡ (
        if includes keys k
        then some (cancelled_execution (execution_for states k))
        else lookup k cancelled)
unfolding cancel_keys
lookup-cancel_keys states cancelled [] k = refl
lookup-cancel_keys states cancelled (key ∷ keys) k =
    let later =
      lookup-cancel_keys states
        (insert key (cancelled_execution (execution_for states key)) cancelled) keys k in
    let here = lookup-insert key k (cancelled_execution (execution_for states key)) cancelled in
    later ∙ (rw here (ground (arith, eq_iff key k)))

abbrev pub step_keys : WorkflowPlan → List String
step_keys plan = map (λ step. step.key) plan.steps

-- After the cancellation of a plan there is an entry for each of its steps and for nothing else: the
-- old one where that is over, and `cancelled` otherwise.
lookup-cancel_workflow :
    (plan : WorkflowPlan) (states : ExecutionStates) (k : String)
    → lookup k (cancel_workflow (some plan) states) ≡ (
        if includes (step_keys plan) k
        then some (
            if is_terminal (state_of states k)
            then execution_for states k
            else record { state = ExecutionState.cancelled; result = none })
        else none)
unfolding cancel_workflow lookup
lookup-cancel_workflow plan states k =
    lookup-cancel_keys states [] (step_keys plan) k ∙ ground arith

-- A step of a cancelled plan is over.
pub cancelled_over :
    (plan : WorkflowPlan) (states : ExecutionStates) (k : String)
    → includes (step_keys plan) k ≡ true
    → is_terminal (state_of (cancel_workflow (some plan) states) k) ≡ true
cancelled_over plan states k member =
    let found = lookup-cancel_workflow plan states k in ground (arith, found, member)

none_queued :
    (states : ExecutionStates) (steps : List PlannedStep)
    → ((k : String)
        → includes (map (λ step. step.key) steps) k ≡ true
        → is_terminal (state_of states k) ≡ true)
    → sort_steps states steps ≡ record { ready = []; waiting = []; blocked = [] }
unfolding sort_steps
none_queued states [] over = refl
none_queued states (step ∷ steps) over =
    let here = over step.key (rw (eq_refl step.key) refl) in
    let rest = none_queued states steps (λ k member. over k (ground (arith, member))) in
    rw rest (ground (arith, here))

-- Nothing of a cancelled plan can be admitted any more, and nothing waits: of its steps none is
-- ready, waiting or blocked.
pub workflow_readiness-cancel_workflow :
    (plan : WorkflowPlan) (states : ExecutionStates)
    → workflow_readiness plan (cancel_workflow (some plan) states)
      ≡ record { ready = []; waiting = []; blocked = [] }
unfolding workflow_readiness
workflow_readiness-cancel_workflow plan states =
    none_queued (cancel_workflow (some plan) states) plan.steps
      (λ k member. cancelled_over plan states k member)
