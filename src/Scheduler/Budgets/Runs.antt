-- ===== src/Scheduler/Budgets/Runs.antt =====
-- A budget controller (src/scheduler/budget-controller.ts) over many evaluations.
use my_shtty_pi_herdr_deck.Base.{
  ℕ, ◌≤◌, String, Bool, true, false, not, List, [], ◌∷◌, Option, some, ◌≡◌, refl, sym, ap, ◌∙◌,
  subst, arith, inl, inr, if◌then◌else◌, Result, ok, throw_if, ◌>>=◌, ◌>>◌, >>=-eq-ok, count, All,
  Bool-cases,
}
use my_shtty_pi_herdr_deck.Scheduler.Budgets.{
  Numbers, EffectiveBudget, UsageSnapshot, BudgetAssessment, BudgetControllerState,
  BudgetControllerSnapshot, is_warning, assess_budget, evaluated, evaluate,
}

-- What `evaluate` is called with.
pub record Reading (N : Type 0) : Type 0 where
  pub usage : UsageSnapshot N
  pub now_ms : N
  pub now_percent : Option N

module _ {N : Type 0} (num : Numbers N) (b : EffectiveBudget N) where
  -- One evaluation after another, with the snapshots they return.
  unfoldable pub evaluate_all :
      BudgetControllerState N → List (Reading N) → Result String (List (BudgetControllerSnapshot N))
  unfolding evaluate
  evaluate_all state [] = ok []
  evaluate_all state (r ∷ rs) = evaluate num b state r.usage r.now_ms r.now_percent >>= λ step.
      evaluate_all step.0 rs >>= λ rest. ok (step.1 ∷ rest)

  evaluate-evaluated :
      (state : BudgetControllerState N) (r : Reading N)
      {step : BudgetControllerState N × BudgetControllerSnapshot N}
      → evaluate num b state r.usage r.now_ms r.now_percent ≡ ok step
      → (a : BudgetAssessment N) × (evaluated num b state a r.now_ms ≡ step)
  unfolding evaluate
  evaluate-evaluated state r h =
      let checked : Result String (BudgetAssessment N) =
        throw_if (not (num.is_finite r.now_ms)) "nowMs must be finite."
        >> assess_budget num b r.usage r.now_percent in
      let (a, _, made) = >>=-eq-ok checked (λ a. ok (evaluated num b state a r.now_ms)) h in
      (a, cc made)

  -- A run of the controller is a first evaluation and a run from the state that it leaves.
  run_step :
      (state : BudgetControllerState N) (r : Reading N) (rs : List (Reading N))
      {snapshots : List (BudgetControllerSnapshot N)}
      → evaluate_all state (r ∷ rs) ≡ ok snapshots
      → (a : BudgetAssessment N) × (rest : List (BudgetControllerSnapshot N)) × (evaluate_all
            (evaluated num b state a r.now_ms).0
            rs
          ≡ ok rest)
        × (snapshots ≡ (evaluated num b state a r.now_ms).1 ∷ rest)
  unfolding evaluate_all
  run_step state r rs {snapshots} h =
      let (step, first, later) =
        >>=-eq-ok (evaluate num b state r.usage r.now_ms r.now_percent)
          (λ step. evaluate_all step.0 rs >>= λ rest. ok (step.1 ∷ rest)) h in
      let (rest, ran, joined) =
        >>=-eq-ok (evaluate_all step.0 rs) (λ rest. ok (step.1 ∷ rest)) later in
      let (a, made) = evaluate-evaluated state r first in
      let same : step.1 ∷ rest ≡ snapshots = cc joined in
      (a, rest, ap (λ p. evaluate_all p.0 rs) made ∙ ran, sym (ap (λ p. p.1 ∷ rest) made ∙ same))

  warnings_left : Bool → ℕ
  warnings_left true = 0
  warnings_left false = 1

  one_more :
      (state : BudgetControllerState N) (a : BudgetAssessment N) (r : Reading N)
      (rest : List (BudgetControllerSnapshot N))
      → count (λ s. s.warning) rest
        ≤ warnings_left (evaluated num b state a r.now_ms).0.warning_sent
      → count (λ s. s.warning) ((evaluated num b state a r.now_ms).1 ∷ rest)
        ≤ warnings_left state.warning_sent
  unfolding evaluated warnings_left
  one_more state a r rest bound = elim (Bool-cases state.warning_sent) [
    | inl e ↦ elim (Bool-cases (is_warning a.action)) [
      | inl q ↦ ground (arith, e, q, bound)
      | inr q ↦ ground (arith, e, q, bound)
    ]
    | inr e ↦ elim (Bool-cases (is_warning a.action)) [
      | inl q ↦ ground (arith, e, q, bound)
      | inr q ↦ ground (arith, e, q, bound)
    ]
  ]

  count-warnings :
      (state : BudgetControllerState N) (rs : List (Reading N))
      {snapshots : List (BudgetControllerSnapshot N)}
      → evaluate_all state rs ≡ ok snapshots
      → count (λ s. s.warning) snapshots ≤ warnings_left state.warning_sent
  unfolding evaluated warnings_left evaluate_all
  count-warnings state [] {snapshots} h =
      let none_yet : [] ≡ snapshots = cc h in
      subst (λ list. count (λ s. s.warning) list ≤ warnings_left state.warning_sent) none_yet
        (omega arith)
  count-warnings state (r ∷ rs) h =
      let (a, rest, ran, list) = run_step state r rs h in
      let bound = count-warnings (evaluated num b state a r.now_ms).0 rs ran in
      subst (λ l. count (λ s. s.warning) l ≤ warnings_left state.warning_sent) (sym list)
        (one_more state a r rest bound)

  started_stays :
      (state : BudgetControllerState N) (a : BudgetAssessment N) (now started : N)
      → state.grace_started_at_ms ≡ some started
      → (evaluated num b state a now).0.grace_started_at_ms ≡ some started
  unfolding evaluated
  started_stays state a now started h = rw h refl

  snapshot_start :
      (state : BudgetControllerState N) (a : BudgetAssessment N) (now started : N)
      → state.grace_started_at_ms ≡ some started
      → ((evaluated num b state a now).1.grace_started_at_ms ≡ some started)
        × ((evaluated num b state a now).1.grace_expires_at_ms ≡ some (num.add started b.grace_ms))
  unfolding evaluated
  snapshot_start state a now started h = rw h (refl, refl)

-- However often a controller is evaluated, from whatever state, at most one of the snapshots has
-- `warning` set, and none has it if a warning was sent before.
pub evaluate_all-warnings :
    {N : Type 0} (num : Numbers N) (b : EffectiveBudget N) (state : BudgetControllerState N)
    (rs : List (Reading N)) {snapshots : List (BudgetControllerSnapshot N)}
    → evaluate_all num b state rs ≡ ok snapshots
    → count (λ s. s.warning) snapshots ≤ (if state.warning_sent then 0 else 1)
unfolding warnings_left
evaluate_all-warnings num b state rs h = elim (Bool-cases state.warning_sent) [
  | inl e ↦ ground (arith, count-warnings num b state rs h, e)
  | inr e ↦ ground (arith, count-warnings num b state rs h, e)
]

-- Once the grace has started it neither starts again nor ends later: all later snapshots have the
-- same start, and the end that the budget's grace gives for it.
pub evaluate_all-grace_start :
    {N : Type 0} (num : Numbers N) (b : EffectiveBudget N) (state : BudgetControllerState N)
    (rs : List (Reading N)) (started : N) {snapshots : List (BudgetControllerSnapshot N)}
    → state.grace_started_at_ms ≡ some started
    → evaluate_all num b state rs ≡ ok snapshots
    → All
        (λ s.
          (s.grace_started_at_ms ≡ some started)
          × (s.grace_expires_at_ms ≡ some (num.add started b.grace_ms)))
        snapshots
unfolding evaluate_all
evaluate_all-grace_start num b state [] started {snapshots} at h =
    let none_yet : [] ≡ snapshots = cc h in subst (All _) none_yet tt
evaluate_all-grace_start num b state (r ∷ rs) started at h =
    let (a, rest, ran, list) = run_step num b state r rs h in
    subst (All _) (sym list) (
      snapshot_start num b state a r.now_ms started at,
      evaluate_all-grace_start num b (evaluated num b state a r.now_ms).0 rs started
          (started_stays num b state a r.now_ms started at) ran,
    )
