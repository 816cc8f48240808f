-- ===== src/Retention/Plan.antt =====
-- `planRetention` and `planDeletion` of src/ops/retention-policy.ts, step by step.
use my_shtty_pi_herdr_deck.Base.{
  ℕ, zero, suc, ◌+◌, ◌-◌, String, Bool, true, false, not, ◌&&◌, List, [], ◌∷◌, ◌++◌, map, Option,
  none, some, if◌then◌else◌, leb, ◌==◌, filter, includes, is_some, or_default,
}
use my_shtty_pi_herdr_deck.Base.Int.{pos, ◌-ℤ◌, ltb_ℤ}
use my_shtty_pi_herdr_deck.Base.Dict.{Dict, lookup, insert, values}
use my_shtty_pi_herdr_deck.Base.Sort.{sort}
use my_shtty_pi_herdr_deck.Base.Double.{to_double}
use my_shtty_pi_herdr_deck.Scheduler.Admission.{Collation}
use my_shtty_pi_herdr_deck.Retention.{
  RetentionResource, RetentionPolicy, RetentionCandidate, CandidateReason, expired, over_budget,
  over_item_limit, RefusalReason, dirty_resource, live_resource, unknown_resource, unknown_kind,
  not_deletion_eligible, invalid_resource, RetentionRefusal, RetentionPlan, validate_resource,
  refusal, validate_policy, count_of, time_of, max_age, max_bytes,
}

abbrev pub candidate : CandidateReason → RetentionResource → RetentionCandidate
candidate reason r = record {
  id = r.id;
  path = r.path;
  kind = r.kind;
  bytes = r.bytes;
  reason = reason;
}

abbrev pub is_eligible : RetentionResource → Bool
is_eligible r = not (is_some (validate_resource r))

abbrev pub refused :
    RetentionResource → Option RefusalReason → List RetentionRefusal → List RetentionRefusal
refused r none rest = rest
refused r (some reason) rest = refusal r reason ∷ rest

-- The refusals of the first loop.
abbrev pub refusals_of : List RetentionResource → List RetentionRefusal
refusals_of [] = []
refusals_of (r ∷ rs) = refused r (validate_resource r) (refusals_of rs)

-- The ids that are selected, and the candidates, so far.
pub record Selection : Type 0 where
  pub selected : List String
  pub candidates : List RetentionCandidate

abbrev pub select : CandidateReason → RetentionResource → Selection → Selection
select reason r s = record {
  selected = r.id ∷ s.selected;
  candidates = s.candidates ++ (candidate reason r ∷ []);
}

abbrev pub is_selected : Selection → RetentionResource → Bool
is_selected s r = includes s.selected r.id

abbrev pub is_expired : RetentionPolicy → RetentionResource → Bool
is_expired p r = ltb_ℤ (pos (max_age p r.kind)) (time_of p.now -ℤ time_of r.modified_at)

unfoldable pub select_expired : RetentionPolicy → Selection → List RetentionResource → Selection
select_expired p s [] = s
select_expired p s (r ∷ rs) = select_expired p (if is_expired p r then select expired r s else s) rs

-- Older first, then by id.
abbrev pub older : Collation → RetentionResource → RetentionResource → Bool
older c a b =
    if ltb_ℤ (time_of a.modified_at) (time_of b.modified_at)
    then true
    else if ltb_ℤ (time_of b.modified_at) (time_of a.modified_at)
    then false
    else c.le a.id b.id

-- Newer first, then by id.
abbrev pub newer : Collation → RetentionResource → RetentionResource → Bool
newer c a b =
    if ltb_ℤ (time_of b.modified_at) (time_of a.modified_at)
    then true
    else if ltb_ℤ (time_of a.modified_at) (time_of b.modified_at)
    then false
    else c.le a.id b.id

abbrev pub available :
    Collation → String → Selection → List RetentionResource → List RetentionResource
available c kind s eligible =
    sort (older c) (filter (λ r. r.kind == kind && not (is_selected s r)) eligible)

-- The sum of doubles, from the front on.
unfoldable pub sum_bytes : ℕ → List RetentionResource → ℕ
sum_bytes sum [] = sum
sum_bytes sum (r ∷ rs) = sum_bytes (to_double (sum + count_of r.bytes)) rs

abbrev pub total_bytes : List RetentionResource → ℕ
total_bytes rs = sum_bytes 0 rs

-- The loop that breaks when the rest is within the budget. Where the source gets below 0, the
-- difference is 0 here: the loop ends with either.
unfoldable pub select_over_budget : ℕ → ℕ → Selection → List RetentionResource → Selection
select_over_budget limit bytes s [] = s
select_over_budget limit bytes s (r ∷ rs) =
    let rest =
      select_over_budget limit (to_double (bytes - count_of r.bytes)) (select over_budget r s) rs in
    if leb bytes limit then s else rest

unfoldable pub budget_kind :
    Collation → RetentionPolicy → List RetentionResource → Selection → String → Selection
unfolding select_over_budget
budget_kind c p eligible s kind =
    let list = available c kind s eligible in
    select_over_budget (max_bytes p kind) (total_bytes list) s list

-- `byKind`, in the order in which the kinds come up.
abbrev pub group_by_kind :
    Selection
    → Dict (List RetentionResource)
    → List RetentionResource
    → Dict (List RetentionResource)
group_by_kind s groups [] = groups
group_by_kind s groups (r ∷ rs) =
    if is_selected s r
    then group_by_kind s groups rs
    else group_by_kind s (insert r.kind (or_default (lookup r.kind groups) [] ++ (r ∷ [])) groups)
        rs

-- `list.slice(n)`
abbrev pub drop {ℓ} : {A : Type ℓ} → ℕ → List A → List A
drop zero xs = xs
drop (suc n) [] = []
drop (suc n) (x ∷ xs) = drop n xs

unfoldable pub select_listed : Selection → List RetentionResource → Selection
select_listed s [] = s
select_listed s (r ∷ rs) = select_listed (select over_item_limit r s) rs

unfoldable pub select_over_items :
    Collation → ℕ → Selection → List (List RetentionResource) → Selection
unfolding select_listed
select_over_items c limit s [] = s
select_over_items c limit s (list ∷ lists) =
    select_over_items c limit (select_listed s (drop limit (sort (newer c) list))) lists

-- The selections, one after another.
unfoldable pub after_expiry : RetentionPolicy → List RetentionResource → Selection
unfolding select_expired
after_expiry p eligible = select_expired p (record { selected = []; candidates = [] }) eligible

unfoldable pub after_budgets : Collation → RetentionPolicy → List RetentionResource → Selection
unfolding after_expiry budget_kind
after_budgets c p eligible =
    budget_kind c p eligible (budget_kind c p eligible (after_expiry p eligible) "artifact") "log"

unfoldable pub final_selection : Collation → RetentionPolicy → List RetentionResource → Selection
unfolding after_budgets select_over_items
final_selection c p eligible =
    let s = after_budgets c p eligible in
    select_over_items c (count_of p.max_items) s (values (group_by_kind s [] eligible))

-- The eligible resources that stay.
abbrev pub kept : Collation → RetentionPolicy → List RetentionResource → List RetentionResource
kept c p resources =
    filter (λ r. not (is_selected (final_selection c p (filter is_eligible resources)) r))
      (filter is_eligible resources)

abbrev pub reason_text : RefusalReason → String
reason_text dirty_resource = "dirty-resource"
reason_text live_resource = "live-resource"
reason_text unknown_resource = "unknown-resource"
reason_text unknown_kind = "unknown-kind"
reason_text not_deletion_eligible = "not-deletion-eligible"
reason_text invalid_resource = "invalid-resource"

-- By reason, then by path.
abbrev pub refusal_before : Collation → RetentionRefusal → RetentionRefusal → Bool
refusal_before c a b =
    if not (c.le (reason_text a.reason) (reason_text b.reason))
    then false
    else if not (c.le (reason_text b.reason) (reason_text a.reason))
    then true
    else c.le a.path b.path

-- The plan for accepted limits.
abbrev pub plan_of : Collation → List RetentionResource → RetentionPolicy → RetentionPlan
plan_of c resources p = record {
  candidates =
      sort (λ a b. c.le a.path b.path)
        (final_selection c p (filter is_eligible resources)).candidates;
  retained =
      map (λ r. r.path) (filter (λ r. not (is_eligible r)) resources)
      ++ map (λ r. r.path) (kept c p resources);
  refusals = sort (refusal_before c) (refusals_of resources);
}

-- `none` where the limits are refused.
unfoldable pub plan_retention :
    Collation → List RetentionResource → RetentionPolicy → Option RetentionPlan
plan_retention c resources p =
    if not (validate_policy p) then none else some (plan_of c resources p)

unfoldable pub planned_paths : RetentionPlan → List String
planned_paths plan = map (λ candidate. candidate.path) plan.candidates
