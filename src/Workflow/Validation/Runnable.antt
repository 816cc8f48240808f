-- ===== src/Workflow/Validation/Runnable.antt =====
-- What `validateWorkflow` of src/scheduler/workflows.ts guarantees for the engine that runs the plan.
use my_shtty_pi_herdr_deck.Base.{
  suc, ◌<◌, ◌≤◌, String, Bool, true, false, not, ◌&&◌, ◌||◌, List, [], ◌∷◌, ◌≡◌, refl, arith, any,
  every, includes, length, eqb, ltb, ok, err, throw_if, >>=-eq-ok, >>=-eq-err, Bool-cases, inl, inr,
}
use my_shtty_pi_herdr_deck.Workflow.Validation.{
  WorkflowStep, WorkflowDefinition, WorkflowError, workflow_invalid, workflow_single_arity,
  fuel_spent, visit_all, visit, check_steps, keys_of, is_single, validate_workflow,
}
use my_shtty_pi_herdr_deck.Workflow.Validation.Search.{
  Ordered, visit_all-Grown, visit-Grown, outside, visit_all-enough, visit-enough,
}

-- No key of the list occurs twice, nor among the keys given.
abbrev pub Distinct : List String → List WorkflowStep → Type 0
Distinct keys [] = Unit
Distinct keys (step ∷ steps) = (includes keys step.key ≡ false) × Distinct (step.key ∷ keys) steps

check_steps-Distinct :
    (keys : List String) (steps : List WorkflowStep)
    → check_steps keys steps ≡ ok tt
    → Distinct keys steps
unfolding check_steps
check_steps-Distinct keys [] h = tt
check_steps-Distinct keys (step ∷ steps) h = elim (Bool-cases (includes keys step.key)) [
  | inl e ↦ absurd (cc (rw e at h))
  | inr e ↦
      let (_, _, rest) = >>=-eq-ok (throw_if (includes keys step.key) _) _ h in
      let (_, _, rest') = >>=-eq-ok (throw_if (any _ step.result_projection) _) _ rest in
      (e, check_steps-Distinct (step.key ∷ keys) steps rest')
]

-- A definition that can be run to its end.
pub record IsRunnable (d : WorkflowDefinition) : Type 0 where
  pub size : (0 < length d.steps) × (length d.steps ≤ 32)
  pub distinct : Distinct [] d.steps
  -- An order of keys in which each step comes with all that it depends on.
  pub order : List String
  pub ordered : Ordered d.steps order
  pub complete : every (λ key. includes order key) (keys_of d.steps) ≡ true

-- A definition that `validateWorkflow` accepts has 1 to 32 steps with keys of their own, and an order
-- of keys exists in which every step of the definition stands and in which all that a step depends
-- on are steps that come earlier: no dependency is missing, and none is part of a cycle.
pub validate_workflow-IsRunnable :
    (d : WorkflowDefinition) → validate_workflow d ≡ ok tt → IsRunnable d
unfolding validate_workflow
validate_workflow-IsRunnable d h =
    let (_, sized, h1) =
      >>=-eq-ok
        (throw_if (not (eqb d.version 1) || eqb (length d.steps) 0 || ltb 32 (length d.steps)) _) _
        h in
    let (u, checked, h2) = >>=-eq-ok (check_steps [] d.steps) _ h1 in
    let (visited, searched, _) =
      >>=-eq-ok (visit_all (visit (suc (length d.steps)) d.steps []) [] (keys_of d.steps)) _ h2 in
    let (grown, all) =
      visit_all-Grown d.steps (visit (suc (length d.steps)) d.steps [])
        (λ before key later o run. visit-Grown (suc (length d.steps)) d.steps [] before key o run)
        [] (keys_of d.steps) tt searched in
    record {
      size = (ground (arith, sized), ground (arith, sized));
      distinct = check_steps-Distinct [] d.steps checked;
      order = visited;
      ordered = grown.ordered;
      complete = all;
    }

outside-nil : (steps : List WorkflowStep) → outside steps [] ≡ length steps
outside-nil [] = refl
outside-nil (step ∷ steps) = omega (arith, outside-nil steps)

throw_if-other :
    (bad : Bool) (x : WorkflowError) → ¬ (x ≡ fuel_spent) → ¬ (throw_if bad x ≡ err fuel_spent)
throw_if-other false x other h = cc h
throw_if-other true x other h = other (cc h)

check_steps-enough :
    (keys : List String) (steps : List WorkflowStep) → ¬ (check_steps keys steps ≡ err fuel_spent)
unfolding check_steps
check_steps-enough keys [] h = cc h
check_steps-enough keys (step ∷ steps) h = elim (Bool-cases (includes keys step.key)) [
  | inl e ↦ cc (rw e at h)
  | inr e ↦ elim (>>=-eq-err (throw_if (any _ step.result_projection) _) _ (rw e at h)) [
    | inl first ↦ throw_if-other _ _ (λ same. cc same) first
    | inr (_, _, rest) ↦ check_steps-enough (step.key ∷ keys) steps rest
  ]
]

-- The search of `validateWorkflow` ends: the fuel of the model, one more than the steps, is never
-- spent, whatever the definition.
pub validate_workflow_enough : (d : WorkflowDefinition) → ¬ (validate_workflow d ≡ err fuel_spent)
unfolding validate_workflow
validate_workflow_enough d h =
    elim (>>=-eq-err
      (throw_if (not (eqb d.version 1) || eqb (length d.steps) 0 || ltb 32 (length d.steps))
        workflow_invalid)
      _ h) [
        | inl first ↦ throw_if-other _ _ (λ same. cc same) first
        | inr (_, _, h1) ↦ elim (>>=-eq-err (check_steps [] d.steps) _ h1) [
          | inl first ↦ check_steps-enough [] d.steps first
          | inr (_, _, h2) ↦
              elim (>>=-eq-err
                (visit_all (visit (suc (length d.steps)) d.steps []) [] (keys_of d.steps)) _ h2) [
                  | inl first ↦
                      visit_all-enough (visit (suc (length d.steps)) d.steps [])
                        (λ visited key.
                          visit-enough (suc (length d.steps)) d.steps [] visited key
                            (omega (arith, outside-nil d.steps)))
                        [] (keys_of d.steps) first
                  | inr (_, _, h3) ↦
                      elim (>>=-eq-err
                        (throw_if (is_single d.mode && not (eqb (length d.steps) 1))
                          workflow_single_arity)
                        _ h3) [
                          | inl first ↦ throw_if-other _ _ (λ same. cc same) first
                          | inr (_, _, h4) ↦ throw_if-other _ _ (λ same. cc same) h4
                        ]
                ]
        ]
      ]
