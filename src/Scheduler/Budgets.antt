-- ===== src/Scheduler/Budgets.antt =====
-- src/scheduler/budgets.ts and src/scheduler/budget-controller.ts: what an agent has used of its
-- budget, and when it is warned and stopped. The numbers are JavaScript's, by their operations.
pub mod Runs
use my_shtty_pi_herdr_deck.Base.{
  ℕ, String, Bool, true, false, not, ◌&&◌, ◌||◌, List, [], ◌∷◌, ◌++◌, Option, none, some,
  if◌then◌else◌, Result, ok, err, throw_if, ◌>>=◌, ◌>>◌, is_some, includes,
}

-- What the code uses of the type `number`: `le a b` is `a <= b` and `lt a b` is `a < b`, both false
-- where one is NaN.
pub record Numbers (N : Type 0) : Type 0 where
  pub of_nat : ℕ → N
  pub is_safe_integer : N → Bool
  pub is_finite : N → Bool
  pub le : N → N → Bool
  pub lt : N → N → Bool
  pub add : N → N → N
  pub sub : N → N → N
  pub mul : N → N → N
  pub div : N → N → N
  pub max : N → N → N

pub record EffectiveBudget (N : Type 0) : Type 0 where
  pub wall_time_ms : N
  pub max_turns : Option N
  pub max_context_percent : Option N
  pub max_input_tokens : Option N
  pub max_output_tokens : Option N
  pub max_cost_usd : Option N
  pub soft_percent : N
  pub grace_ms : N

pub record UsageSnapshot (N : Type 0) : Type 0 where
  pub wall_time_ms : N
  pub turns : Option N
  pub context_percent : Option N
  pub input_tokens : Option N
  pub output_tokens : Option N
  pub cost_usd : Option N
  pub unavailable : List String

-- `none` is the action "none".
pub data BudgetAction : Type 0 where
  no_action warning graceful_stop force_stop : BudgetAction

pub record BudgetAssessment (N : Type 0) : Type 0 where
  pub action : BudgetAction
  pub breached : List String
  pub unavailable : List String
  pub percent : N

-- A row of `metrics` with its values.
pub record Metric (N : Type 0) : Type 0 where
  pub usage_key : String
  pub limit_key : String
  pub value : Option N
  pub limit : Option N

pub data BudgetTerminalOutcome : Type 0 where
  succeeded failed cancelled timed_out : BudgetTerminalOutcome

pub record BudgetControllerState (N : Type 0) : Type 0 where
  pub warning_sent : Bool
  pub graceful_stop_requested : Bool
  pub grace_started_at_ms : Option N

pub record BudgetControllerSnapshot (N : Type 0) : Type 0 where
  pub assessment : BudgetAssessment N
  pub action : BudgetAction
  pub warning : Bool
  pub grace_started_at_ms : Option N
  pub grace_expires_at_ms : Option N

-- The findings of the loop so far.
pub record Findings (N : Type 0) : Type 0 where
  pub breached : List String
  pub unavailable : List String
  pub max_percent : N

abbrev pub is_warning : BudgetAction → Bool
is_warning warning = true
is_warning _ = false

abbrev pub is_graceful_stop : BudgetAction → Bool
is_graceful_stop graceful_stop = true
is_graceful_stop _ = false

-- `list.length > 0`
abbrev pub is_nonempty : List String → Bool
is_nonempty [] = false
is_nonempty (x ∷ xs) = true

abbrev pub new_controller_state : {N : Type 0} → BudgetControllerState N
new_controller_state = record {
  warning_sent = false;
  graceful_stop_requested = false;
  grace_started_at_ms = none;
}

-- `graceStartedAtMs ??= nowMs`, where a graceful stop is due.
abbrev pub grace_start : {N : Type 0} → BudgetAction → N → Option N → Option N
grace_start assessed now (some started) = some started
grace_start assessed now none = if is_graceful_stop assessed then some now else none

unfoldable pub select_terminal_outcome :
    BudgetAction → Option BudgetTerminalOutcome → Option BudgetTerminalOutcome
select_terminal_outcome _ (some outcome) = some outcome
select_terminal_outcome force_stop none = some timed_out
select_terminal_outcome _ none = none

abbrev pub mark_warning_sent : {N : Type 0} → BudgetControllerState N → BudgetControllerState N
mark_warning_sent state = record state { warning_sent = true }

module _ {N : Type 0} (num : Numbers N) where
  abbrev pub metrics : EffectiveBudget N → UsageSnapshot N → List (Metric N)
  metrics b u =
      metric "wallTimeMs" "wallTimeMs" (some u.wall_time_ms) (some b.wall_time_ms)
      ∷ metric "turns" "maxTurns" u.turns b.max_turns
      ∷ metric "contextPercent" "maxContextPercent" u.context_percent b.max_context_percent
      ∷ metric "inputTokens" "maxInputTokens" u.input_tokens b.max_input_tokens
      ∷ metric "outputTokens" "maxOutputTokens" u.output_tokens b.max_output_tokens
      ∷ metric "costUsd" "maxCostUsd" u.cost_usd b.max_cost_usd
      ∷ []
    where
      metric : String → String → Option N → Option N → Metric N
      metric usage_key limit_key value limit = record {
        usage_key = usage_key;
        limit_key = limit_key;
        value = value;
        limit = limit;
      }

  unfoldable pub validate_budget : EffectiveBudget N → Result String (Unit {0})
  validate_budget b =
      throw_if
        (not (num.is_safe_integer b.wall_time_ms)
          || num.lt b.wall_time_ms (num.of_nat 10_000)
          || num.lt (num.of_nat 86_400_000) b.wall_time_ms)
        "wallTimeMs is outside the supported range."
      >> throw_if
          (num.le b.soft_percent (num.of_nat 0)
            || num.le (num.of_nat 100) b.soft_percent
            || num.lt b.grace_ms (num.of_nat 1_000)
            || num.lt (num.of_nat 300_000) b.grace_ms)
          "Budget thresholds are invalid."

  -- A finite number.
  abbrev pub measured : Option N → Option N
  measured none = none
  measured (some n) = if num.is_finite n then some n else none

  abbrev pub note_missing : String → Findings N → Findings N
  note_missing key f =
      if includes f.unavailable key
      then f
      else record f { unavailable = f.unavailable ++ (key ∷ []) }

  abbrev pub note_value : String → N → N → Findings N → Findings N
  note_value key limit value f = record f {
    max_percent = num.max f.max_percent (num.mul (num.div value limit) (num.of_nat 100));
    breached = if num.le limit value then f.breached ++ (key ∷ []) else f.breached;
  }

  -- A round of the loop over `metrics`.
  abbrev pub note_metric : Metric N → Option N → Option N → Findings N → Findings N
  note_metric m none value f = f
  note_metric m (some limit) none f = note_missing m.usage_key f
  note_metric m (some limit) (some value) f = note_value m.limit_key limit value f

  unfoldable pub assess_metrics : List (Metric N) → Findings N → Findings N
  assess_metrics [] f = f
  assess_metrics (m ∷ ms) f = assess_metrics ms (note_metric m m.limit (measured m.value) f)

  abbrev pub action_of : EffectiveBudget N → Findings N → BudgetAction
  action_of b f =
      if is_nonempty f.breached
      then graceful_stop
      else if num.le b.soft_percent f.max_percent
      then warning
      else no_action

  abbrev pub first_percent : EffectiveBudget N → UsageSnapshot N → Option N → N
  first_percent b u (some percent) = percent
  first_percent b u none = num.mul (num.div u.wall_time_ms b.wall_time_ms) (num.of_nat 100)

  abbrev pub assessment_of : EffectiveBudget N → Findings N → BudgetAssessment N
  assessment_of b f = record {
    action = action_of b f;
    breached = f.breached;
    unavailable = f.unavailable;
    percent = f.max_percent;
  }

  unfoldable pub assess_budget :
      EffectiveBudget N → UsageSnapshot N → Option N → Result String (BudgetAssessment N)
  unfolding validate_budget assess_metrics
  assess_budget b u percent =
      validate_budget b
      >> ok (
          assessment_of b (
            assess_metrics (metrics b u) (record {
              breached = [];
              unavailable = u.unavailable;
              max_percent = first_percent b u percent;
            })))

  unfoldable pub force_stop_after_grace : BudgetAssessment N → N → N → BudgetAction
  force_stop_after_grace a elapsed grace =
      if is_graceful_stop a.action && num.le grace elapsed then force_stop else a.action

  unfoldable pub grace_expired : Option N → N → N → Bool
  grace_expired none now grace = false
  grace_expired (some started) now grace = num.le grace (num.sub now started)

  abbrev pub grace_elapsed : Option N → N → N
  grace_elapsed none now = num.of_nat 0
  grace_elapsed (some started) now = num.max (num.of_nat 0) (num.sub now started)

  abbrev pub grace_end : Option N → N → Option N
  grace_end none grace = none
  grace_end (some started) grace = some (num.add started grace)

  -- `evaluate` after the assessment: the next state of the controller, and the snapshot.
  unfoldable pub evaluated :
      EffectiveBudget N
      → BudgetControllerState N
      → BudgetAssessment N
      → N
      → BudgetControllerState N × BudgetControllerSnapshot N
  unfolding force_stop_after_grace
  evaluated b state a now =
      let started = grace_start a.action now state.grace_started_at_ms in
      (
        record {
          warning_sent = state.warning_sent || is_warning a.action;
          graceful_stop_requested = state.graceful_stop_requested || is_graceful_stop a.action;
          grace_started_at_ms = started;
        },
        record {
          assessment = a;
          action = force_stop_after_grace a (grace_elapsed started now) b.grace_ms;
          warning = is_warning a.action && not state.warning_sent;
          grace_started_at_ms = started;
          grace_expires_at_ms = grace_end started b.grace_ms;
        },
      )

  unfoldable pub evaluate :
      EffectiveBudget N
      → BudgetControllerState N
      → UsageSnapshot N
      → N
      → Option N
      → Result String (BudgetControllerState N × BudgetControllerSnapshot N)
  unfolding assess_budget evaluated
  evaluate b state u now percent =
      throw_if (not (num.is_finite now)) "nowMs must be finite."
      >> assess_budget b u percent
      >>= λ a. ok (evaluated b state a now)
