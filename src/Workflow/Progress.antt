-- ===== src/Workflow/Progress.antt =====
-- The engine of src/scheduler/workflow-engine.ts on a plan whose definition `validateWorkflow` of
-- src/scheduler/workflows.ts accepts.
use my_shtty_pi_herdr_deck.Base.{
  String, Bool, true, false, ◌||◌, List, [], ◌∷◌, map, Option, some, ◌≡◌, refl, ◌∙◌, sym, ap, subst,
  arith, any, every, filter, includes, ok, ◌==◌, eq_iff, Bool-cases, inl, inr,
}
use my_shtty_pi_herdr_deck.Workflow.Types.{
  PlannedStep, WorkflowPlan, is_running, is_succeeded, is_unsuccessful,
}
use my_shtty_pi_herdr_deck.Workflow.Engine.{
  ExecutionStates, state_of, workflow_readiness, fan_in_workflow, FanInState,
}
use my_shtty_pi_herdr_deck.Workflow.Engine.Readiness.{is_ready, workflow_readiness-filter}
use my_shtty_pi_herdr_deck.Workflow.Engine.Join.{states_of, fan_in_workflow-succeeded}
use my_shtty_pi_herdr_deck.Workflow.Validation.{
  WorkflowStep, WorkflowDefinition, step_for, keys_of, validate_workflow,
}
use my_shtty_pi_herdr_deck.Workflow.Validation.Search.{Ordered}
use my_shtty_pi_herdr_deck.Workflow.Validation.Runnable.{validate_workflow-IsRunnable}

-- The planned steps have the keys and the dependencies of the definition's.
abbrev pub Matches : List WorkflowStep → List PlannedStep → Type 0
Matches [] [] = Unit
Matches (s ∷ steps) (p ∷ planned) =
    (p.key ≡ s.key) × (p.depends_on ≡ s.depends_on) × Matches steps planned
Matches _ _ = ⊥

module _ (states : ExecutionStates) where
  -- A step that is running, that has ended without success, or that can be admitted.
  abbrev pub is_busy : PlannedStep → Bool
  is_busy p =
      is_running (state_of states p.key)
      || is_unsuccessful (state_of states p.key)
      || is_ready states p

  abbrev pub done : String → Bool
  done key = is_succeeded (state_of states key)

  idle_done :
      (p : PlannedStep) → is_busy p ≡ false → every done p.depends_on ≡ true → done p.key ≡ true
  idle_done p idle needed = ground (arith, idle, needed)

  -- The planned step of a key.
  planned_for :
      (steps : List WorkflowStep) (planned : List PlannedStep) (key : String) {s : WorkflowStep}
      → Matches steps planned
      → any is_busy planned ≡ false
      → step_for steps key ≡ some s
      → (p : PlannedStep) × (p.key ≡ key) × (p.depends_on ≡ s.depends_on) × (is_busy p ≡ false)
  planned_for [] [] key m idle h = absurd (cc h)
  planned_for [] (p ∷ planned) key m idle h = absurd m
  planned_for (x ∷ steps) [] key m idle h = absurd m
  planned_for (x ∷ steps) (p ∷ planned) key {s} m idle h = elim (Bool-cases (x.key == key)) [
    | inl e ↦
        let one : Path (Option WorkflowStep) (some x) (some s) = rw e at h in
        let same : x ≡ s = cc one in
        (p, m.0 ∙ (eq_iff x.key key).0 e, m.1 ∙ ap (λ y. y.depends_on) same, ground (arith, idle))
    | inr e ↦ planned_for steps planned key m.2 (ground (arith, idle)) (rw e at h)
  ]

  included :
      (order : List String) (k : String)
      → every done order ≡ true
      → includes order k ≡ true
      → done k ≡ true
  included [] k d h = absurd (cc h)
  included (o ∷ order) k d h = elim (Bool-cases (o == k)) [
    | inl e ↦ subst (λ x. done x ≡ true) ((eq_iff o k).0 e) (ground (arith, d))
    | inr e ↦ included order k (ground (arith, d)) (rw e at h)
  ]

  every_included :
      (order keys : List String)
      → every done order ≡ true
      → every (λ k. includes order k) keys ≡ true
      → every done keys ≡ true
  every_included order [] d h = refl
  every_included order (k ∷ keys) d h =
      let here = included order k d (ground (arith, h)) in
      rw here (every_included order keys d (ground (arith, h)))

  Ordered-done :
      (steps : List WorkflowStep) (planned : List PlannedStep)
      → Matches steps planned
      → any is_busy planned ≡ false
      → (order : List String) → Ordered steps order
      → every done order ≡ true
  Ordered-done steps planned m idle [] o = refl
  Ordered-done steps planned m idle (key ∷ keys) ((s, at, needed), rest) =
      let below = Ordered-done steps planned m idle keys rest in
      let (p, named, same, quiet) = planned_for steps planned key m idle at in
      let ready = every_included keys s.depends_on below needed in
      let here = idle_done p quiet (subst (λ ds. every done ds ≡ true) (sym same) ready) in
      rw (subst (λ k. done k ≡ true) named here) below

  planned_done :
      (steps : List WorkflowStep) (planned : List PlannedStep)
      → Matches steps planned
      → every done (keys_of steps) ≡ true
      → every is_succeeded (map (λ p. state_of states p.key) planned) ≡ true
  planned_done [] [] m h = refl
  planned_done [] (p ∷ planned) m h = absurd m
  planned_done (s ∷ steps) [] m h = absurd m
  planned_done (s ∷ steps) (p ∷ planned) m h =
      rw (subst (λ k. done k ≡ true) (sym m.0) (ground (arith, h)))
        (planned_done steps planned m.2 (ground (arith, h)))

  none_busy :
      (planned : List PlannedStep)
      → any is_running (map (λ p. state_of states p.key) planned) ≡ false
      → any is_unsuccessful (map (λ p. state_of states p.key) planned) ≡ false
      → filter (is_ready states) planned ≡ []
      → any is_busy planned ≡ false
  none_busy [] r u f = refl
  none_busy (p ∷ planned) r u f = elim (Bool-cases (is_ready states p)) [
    | inl e ↦ absurd (cc (rw e at f))
    | inr e ↦
        let rest = none_busy planned (ground (arith, r)) (ground (arith, u)) (rw e at f) in
        ground (arith, e, rest, r, u)
  ]

-- A plan does not get stuck: if the definition that it was made from is valid, none of its steps is
-- running or has ended without success, and none is ready, then the whole plan has succeeded.
pub validate_workflow-progress :
    (d : WorkflowDefinition) (plan : WorkflowPlan) (states : ExecutionStates)
    → validate_workflow d ≡ ok tt
    → Matches d.steps plan.steps
    → any is_running (states_of plan states) ≡ false
    → any is_unsuccessful (states_of plan states) ≡ false
    → (workflow_readiness plan states).ready ≡ []
    → (fan_in_workflow plan states).state ≡ FanInState.succeeded
validate_workflow-progress d plan states valid m r u none_ready =
    let runnable = validate_workflow-IsRunnable d valid in
    let ready = (workflow_readiness-filter plan states).0 in
    let idle = none_busy states plan.steps r u (sym ready ∙ none_ready) in
    let order = Ordered-done states d.steps plan.steps m idle runnable.order runnable.ordered in
    let keys = every_included states runnable.order (keys_of d.steps) order runnable.complete in
    (fan_in_workflow-succeeded plan states).1 (planned_done states d.steps plan.steps m keys)
