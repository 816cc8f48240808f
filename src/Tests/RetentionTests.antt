-- ===== src/Tests/RetentionTests.antt =====
-- Sample resources for src/ops/retention-policy.ts.
use my_shtty_pi_herdr_deck.Base.{
  ℕ, String, List, [], ◌∷◌, none, some, ◌≡◌, refl, ◌≤◌, ◌<◌, ◌^◌, arith, inl, filter, ◌==◌, All,
}
use my_shtty_pi_herdr_deck.Base.Int.{pos, ◌-ℤ◌}
use my_shtty_pi_herdr_deck.Base.Json.{integer}
use my_shtty_pi_herdr_deck.Retention.{
  RetentionResource, RetentionPolicy, ResourceStatus, clean, live, max_bytes, validate_policy,
  validate_resource,
}
use my_shtty_pi_herdr_deck.Retention.Plan.{
  plan_of, plan_retention, planned_paths, sum_bytes, is_eligible, kept, select_expired,
  select_over_budget, select_listed, select_over_items, budget_kind, after_expiry, after_budgets,
  final_selection,
}
use my_shtty_pi_herdr_deck.Retention.Candidates.{IsBacked, plan_retention-IsBacked}
use my_shtty_pi_herdr_deck.Retention.Budget.{kept-max_bytes}
use my_shtty_pi_herdr_deck.Retention.Sums.{exact_bytes}
use my_shtty_pi_herdr_deck.Base.Dict.{insert, lookup}
use my_shtty_pi_herdr_deck.Base.Double.{to_double}
use my_shtty_pi_herdr_deck.Base.Sort.{sort}
use my_shtty_pi_herdr_deck.Tests.SchedulerSamples.{by_length, shorter}

abbrev sample_resource : String → String → ℕ → ℕ → ResourceStatus → RetentionResource
sample_resource id kind bytes modified_at status = record {
  id = id;
  path = id;
  kind = kind;
  bytes = integer (pos bytes);
  modified_at = integer (pos modified_at);
  status = status;
  deletion_eligible = none;
  sha256 = none;
}

-- One expired, three artifacts over the budget of 50 bytes together, one live.
abbrev sample_resources : List RetentionResource
sample_resources =
    sample_resource "old" "log" 5 10 clean
    ∷ sample_resource "a" "artifact" 30 950 clean
    ∷ sample_resource "bb" "artifact" 30 960 clean
    ∷ sample_resource "ccc" "artifact" 20 970 clean
    ∷ sample_resource "busy" "artifact" 90 980 live
    ∷ []

abbrev sample_policy : RetentionPolicy
sample_policy = record {
  now = integer (pos 1_000);
  max_age_artifact = integer (pos 100);
  max_age_log = integer (pos 100);
  max_bytes_artifact = integer (pos 50);
  max_bytes_log = integer (pos 50);
  max_items = integer (pos 1);
}

-- What a run of `planRetention` computes with.
planning : Unit {0}
unfolding planned_paths final_selection after_budgets after_expiry budget_kind select_expired
    select_over_budget select_over_items select_listed validate_resource by_length shorter sort ◌-ℤ◌
    insert lookup sum_bytes to_double
planning = tt

planned_sample :
    planned_paths (plan_of by_length sample_resources sample_policy) ≡ "a" ∷ "bb" ∷ "old" ∷ []
unfolding planning
planned_sample = refl

accepted_sample :
    plan_retention by_length sample_resources sample_policy
    ≡ some (plan_of by_length sample_resources sample_policy)
unfolding plan_retention validate_policy
accepted_sample = refl

plan_retention-IsBacked_example :
    All (IsBacked sample_resources) (plan_of by_length sample_resources sample_policy).candidates
plan_retention-IsBacked_example =
    plan_retention-IsBacked by_length sample_resources sample_policy accepted_sample

sample_small :
    exact_bytes (filter (λ r. r.kind == "artifact") (filter is_eligible sample_resources)) < 2 ^ 53
unfolding validate_resource
sample_small = omega arith

kept-max_bytes_example :
    exact_bytes (filter (λ r. r.kind == "artifact") (kept by_length sample_policy sample_resources))
    ≤ max_bytes sample_policy "artifact"
kept-max_bytes_example =
    kept-max_bytes by_length sample_resources sample_policy "artifact" (inl refl) sample_small

-- One byte, 2 ^ 53 - 1 bytes and one byte, in the order of their times.
abbrev rounding_resources : List RetentionResource
rounding_resources =
    sample_resource "first" "artifact" 1 950 clean
    ∷ sample_resource "huge" "artifact" 9_007_199_254_740_991 960 clean
    ∷ sample_resource "last" "artifact" 1 970 clean
    ∷ []

abbrev rounding_policy : RetentionPolicy
rounding_policy = record sample_policy {
  max_bytes_artifact = integer (pos 9_007_199_254_740_991);
  max_items = integer (pos 9);
}

-- The sum of the sizes is rounded down, and 2 ^ 53 bytes stay, more than the budget.
rounding_over_budget :
    exact_bytes (kept by_length rounding_policy rounding_resources) ≡ 9_007_199_254_740_992
unfolding planning
rounding_over_budget = refl
