-- ===== src/Tests/BudgetTests.antt =====
-- src/scheduler/budget-controller.ts with numbers in hundredths.
use my_shtty_pi_herdr_deck.Base.{
  ℕ, String, ◌+◌, ◌-◌, ◌*◌, ◌/◌, ◌≤◌, Bool, true, false, List, [], ◌∷◌, map, none, some, ◌≡◌, refl,
  ltb, leb, Result, ok, err, count, All, if◌then◌else◌,
}
use my_shtty_pi_herdr_deck.Scheduler.Budgets.{
  Numbers, EffectiveBudget, BudgetControllerState, BudgetControllerSnapshot, BudgetAction,
  no_action, warning, graceful_stop, force_stop, new_controller_state, evaluate, evaluated,
  assess_budget, assess_metrics, validate_budget, force_stop_after_grace,
}
use my_shtty_pi_herdr_deck.Scheduler.Budgets.Runs.{
  Reading, evaluate_all, evaluate_all-warnings, evaluate_all-grace_start,
}

abbrev larger : ℕ → ℕ → ℕ
larger a b = if leb a b then b else a

abbrev hundredths : Numbers ℕ
hundredths = record {
  of_nat = λ n. n * 100;
  is_safe_integer = λ n. true;
  is_finite = λ n. true;
  le = leb;
  lt = ltb;
  add = λ a b. a + b;
  sub = λ a b. a - b;
  mul = λ a b. (a * b) / 100;
  div = λ a b. (a * 100) / b;
  max = larger;
}

abbrev sample_budget : EffectiveBudget ℕ
sample_budget = record {
  wall_time_ms = 2_000_000;
  max_turns = none;
  max_context_percent = none;
  max_input_tokens = none;
  max_output_tokens = none;
  max_cost_usd = none;
  soft_percent = 8_000;
  grace_ms = 100_000;
}

abbrev reading : ℕ → ℕ → Reading ℕ
reading wall now = record {
  usage = record {
    wall_time_ms = wall;
    turns = none;
    context_percent = none;
    input_tokens = none;
    output_tokens = none;
    cost_usd = none;
    unavailable = [];
  };
  now_ms = now;
  now_percent = none;
}

-- Below the soft limit, twice above it, at the limit, and after the grace.
abbrev readings : List (Reading ℕ)
readings =
    reading 1_000_000 1_000_000
    ∷ reading 1_700_000 1_700_000
    ∷ reading 1_800_000 1_800_000
    ∷ reading 2_000_000 2_000_000
    ∷ reading 2_150_000 2_150_000
    ∷ []

-- The actions and the warnings of a run.
abbrev outcomes : Result String (List (BudgetControllerSnapshot ℕ)) → List (BudgetAction × Bool)
outcomes (ok snapshots) = map (λ s. (s.action, s.warning)) snapshots
outcomes (err thrown) = []

abbrev snapshots_of :
    Result String (List (BudgetControllerSnapshot ℕ)) → List (BudgetControllerSnapshot ℕ)
snapshots_of (ok snapshots) = snapshots
snapshots_of (err thrown) = []

evaluated_readings :
    outcomes (evaluate_all hundredths sample_budget new_controller_state readings)
    ≡ (no_action, false)
      ∷ (warning, true)
      ∷ (warning, false)
      ∷ (graceful_stop, false)
      ∷ (force_stop, false)
      ∷ []
unfolding evaluate_all evaluate evaluated assess_budget assess_metrics validate_budget
    force_stop_after_grace
evaluated_readings = refl

-- A controller whose grace has started.
abbrev in_grace : BudgetControllerState ℕ
in_grace = record {
  warning_sent = true;
  graceful_stop_requested = true;
  grace_started_at_ms = some 2_000_000;
}

ran_new :
    evaluate_all hundredths sample_budget new_controller_state readings
    ≡ ok (snapshots_of (evaluate_all hundredths sample_budget new_controller_state readings))
unfolding evaluate_all evaluate assess_budget validate_budget
ran_new = refl

ran_in_grace :
    evaluate_all hundredths sample_budget in_grace readings
    ≡ ok (snapshots_of (evaluate_all hundredths sample_budget in_grace readings))
unfolding evaluate_all evaluate assess_budget validate_budget
ran_in_grace = refl

evaluate_all-warnings_example :
    count
      (λ s. s.warning)
      (snapshots_of (evaluate_all hundredths sample_budget new_controller_state readings))
    ≤ 1
evaluate_all-warnings_example =
    evaluate_all-warnings hundredths sample_budget new_controller_state readings ran_new

evaluate_all-grace_start_example :
    All
      (λ s. (s.grace_started_at_ms ≡ some 2_000_000) × (s.grace_expires_at_ms ≡ some 2_100_000))
      (snapshots_of (evaluate_all hundredths sample_budget in_grace readings))
evaluate_all-grace_start_example =
    evaluate_all-grace_start hundredths sample_budget in_grace readings 2_000_000 refl ran_in_grace
