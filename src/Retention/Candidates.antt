-- ===== src/Retention/Candidates.antt =====
-- Where the candidates of `planRetention` (src/ops/retention-policy.ts) come from.
use my_shtty_pi_herdr_deck.Base.{
  ℕ, zero, suc, ◌-◌, String, Bool, true, false, not, ◌&&◌, List, [], ◌∷◌, ◌++◌, Option, none, some,
  ◌≡◌, refl, subst, inl, inr, if◌then◌else◌, leb, All, Among, All-map, All-filter, All-append,
  All-Among, filter, or_default, Bool-cases, ◌==◌,
}
use my_shtty_pi_herdr_deck.Base.Dict.{
  Dict, lookup, insert, values, Entries, Entries-insert, Entries-lookup,
}
use my_shtty_pi_herdr_deck.Base.Sort.{sort, All-sort}
use my_shtty_pi_herdr_deck.Base.Double.{to_double}
use my_shtty_pi_herdr_deck.Scheduler.Admission.{Collation}
use my_shtty_pi_herdr_deck.Retention.{
  RetentionResource, RetentionPolicy, RetentionCandidate, CandidateReason, expired, over_budget,
  over_item_limit, RetentionPlan, validate_policy, count_of, max_bytes,
}
use my_shtty_pi_herdr_deck.Retention.Plan.{
  candidate, is_eligible, Selection, select, is_selected, is_expired, select_expired, newer, older,
  available, total_bytes, select_over_budget, budget_kind, group_by_kind, drop, select_listed,
  select_over_items, plan_of, after_expiry, after_budgets, final_selection, plan_retention,
}
use my_shtty_pi_herdr_deck.Retention.Deletable.{IsDeletable, valid, valid-IsDeletable}

All-drop {ℓ κ} : {A : Type ℓ} (P : A → Type κ) (n : ℕ) (xs : List A) → All P xs → All P (drop n xs)
All-drop P zero xs h = h
All-drop P (suc n) [] h = tt
All-drop P (suc n) (x ∷ xs) h = All-drop P n xs h.1

-- If the resources of a list fit, then so do the candidates that a selection makes of them.
module _ {κ μ} (Q : RetentionResource → Type κ) (P : RetentionCandidate → Type μ)
    (make : (reason : CandidateReason) (r : RetentionResource) → Q r → P (candidate reason r)) where
  abbrev Fits : Selection → Type μ
  Fits s = All P s.candidates

  select-Fits :
      (reason : CandidateReason) (r : RetentionResource) (s : Selection)
      → Q r
      → Fits s
      → Fits (select reason r s)
  select-Fits reason r s q h =
      All-append P s.candidates (candidate reason r ∷ []) h (make reason r q, tt)

  select_if-Fits :
      (test : Bool) (r : RetentionResource) (s : Selection)
      → Q r
      → Fits s
      → Fits (if test then select expired r s else s)
  select_if-Fits true r s q h = select-Fits expired r s q h
  select_if-Fits false r s q h = h

  select_expired-Fits :
      (p : RetentionPolicy) (s : Selection) (rs : List RetentionResource)
      → All Q rs
      → Fits s
      → Fits (select_expired p s rs)
  unfolding select_expired
  select_expired-Fits p s [] q h = h
  select_expired-Fits p s (r ∷ rs) q h =
      select_expired-Fits p (if is_expired p r then select expired r s else s) rs q.1
        (select_if-Fits (is_expired p r) r s q.0 h)

  select_over_budget-Fits :
      (limit bytes : ℕ) (s : Selection) (rs : List RetentionResource)
      → All Q rs
      → Fits s
      → Fits (select_over_budget limit bytes s rs)
  unfolding select_over_budget
  select_over_budget-Fits limit bytes s [] q h = h
  select_over_budget-Fits limit bytes s (r ∷ rs) q h = elim (Bool-cases (leb bytes limit)) [
    | inl e ↦ rw e h
    | inr e ↦ rw e (
        select_over_budget-Fits limit (to_double (bytes - count_of r.bytes))
          (select over_budget r s) rs q.1 (select-Fits over_budget r s q.0 h))
  ]

  budget_kind-Fits :
      (c : Collation) (p : RetentionPolicy) (eligible : List RetentionResource) (s : Selection)
      (kind : String)
      → All Q eligible
      → Fits s
      → Fits (budget_kind c p eligible s kind)
  unfolding budget_kind
  budget_kind-Fits c p eligible s kind q h =
      let of_kind = λ (r : RetentionResource). r.kind == kind && not (is_selected s r) in
      select_over_budget-Fits (max_bytes p kind) (total_bytes (available c kind s eligible)) s
        (available c kind s eligible)
        (All-sort (older c) Q (filter of_kind eligible) (
          All-map (λ r. Q r × (of_kind r ≡ true)) Q (filter of_kind eligible) (λ r both. both.0)
            (All-filter Q of_kind eligible q)))
        h

  abbrev GroupFits : String → List RetentionResource → Type κ
  GroupFits kind rs = All Q rs

  found_Fits :
      (groups : Dict (List RetentionResource)) (kind : String)
      (found : Option (List RetentionResource))
      → lookup kind groups ≡ found
      → Entries GroupFits groups
      → All Q (or_default found [])
  found_Fits groups kind none e h = tt
  found_Fits groups kind (some rs) e h = Entries-lookup GroupFits kind groups h e

  group_by_kind-Fits :
      (s : Selection) (groups : Dict (List RetentionResource)) (rs : List RetentionResource)
      → Entries GroupFits groups
      → All Q rs
      → Entries GroupFits (group_by_kind s groups rs)
  group_by_kind-Fits s groups [] h q = h
  group_by_kind-Fits s groups (r ∷ rs) h q = elim (Bool-cases (is_selected s r)) [
    | inl e ↦ rw e (group_by_kind-Fits s groups rs h q.1)
    | inr e ↦ rw e (
        group_by_kind-Fits s
          (insert r.kind (or_default (lookup r.kind groups) [] ++ (r ∷ [])) groups) rs
          (Entries-insert GroupFits r.kind _ groups h (
            All-append Q (or_default (lookup r.kind groups) []) (r ∷ [])
              (found_Fits groups r.kind (lookup r.kind groups) refl h) (q.0, tt)))
          q.1)
  ]

  values-Fits :
      (groups : Dict (List RetentionResource))
      → Entries GroupFits groups
      → All (λ rs. All Q rs) (values groups)
  values-Fits [] h = tt
  values-Fits ((kind, rs) ∷ groups) h = (h.0, values-Fits groups h.1)

  select_listed-Fits :
      (s : Selection) (rs : List RetentionResource) → All Q rs → Fits s → Fits (select_listed s rs)
  unfolding select_listed
  select_listed-Fits s [] q h = h
  select_listed-Fits s (r ∷ rs) q h =
      select_listed-Fits (select over_item_limit r s) rs q.1 (select-Fits over_item_limit r s q.0 h)

  select_over_items-Fits :
      (c : Collation) (limit : ℕ) (s : Selection) (lists : List (List RetentionResource))
      → All (λ rs. All Q rs) lists
      → Fits s
      → Fits (select_over_items c limit s lists)
  unfolding select_over_items
  select_over_items-Fits c limit s [] q h = h
  select_over_items-Fits c limit s (rs ∷ lists) q h =
      select_over_items-Fits c limit (select_listed s (drop limit (sort (newer c) rs))) lists q.1 (
        select_listed-Fits s (drop limit (sort (newer c) rs))
          (All-drop Q limit (sort (newer c) rs) (All-sort (newer c) Q rs q.0)) h)

  final_selection-Fits :
      (c : Collation) (p : RetentionPolicy) (eligible : List RetentionResource)
      → All Q eligible
      → Fits (final_selection c p eligible)
  unfolding final_selection after_budgets after_expiry
  final_selection-Fits c p eligible q =
      let s = after_budgets c p eligible in
      select_over_items-Fits c (count_of p.max_items) s (values (group_by_kind s [] eligible))
        (values-Fits (group_by_kind s [] eligible) (group_by_kind-Fits s [] eligible tt q))
        (budget_kind-Fits c p eligible _ "log" q
          (budget_kind-Fits c p eligible _ "artifact" q (select_expired-Fits p _ eligible q tt)))

-- A resource that may be deleted stands behind the candidate.
abbrev pub IsBacked : List RetentionResource → RetentionCandidate → Type 0
IsBacked resources c =
    (r : RetentionResource) × Among r resources × IsDeletable r × (c.id ≡ r.id) × (c.path ≡ r.path)

-- Each candidate of a plan has the id and the path of one of the resources, and of one that may be
-- deleted: its id and path are not empty, its size is a natural number below 2 ^ 53 and its time a
-- finite number, its status is clean (not dirty, not live, not unknown), it is an artifact or a log,
-- and it is not marked as ineligible.
pub plan_retention-IsBacked :
    (c : Collation) (resources : List RetentionResource) (p : RetentionPolicy)
    {plan : RetentionPlan}
    → plan_retention c resources p ≡ some plan
    → All (IsBacked resources) plan.candidates
unfolding plan_retention
plan_retention-IsBacked c resources p {plan} h = elim (Bool-cases (validate_policy p)) [
  | inr e ↦ absurd (cc (rw e at h))
  | inl e ↦
      let made : Path (Option RetentionPlan) (some (plan_of c resources p)) (some plan) =
        rw e at h in
      let same : plan_of c resources p ≡ plan = cc made in
      let behind =
        All-map (λ r. Among r resources × (is_eligible r ≡ true))
          (λ r. Among r resources × IsDeletable r) (filter is_eligible resources)
          (λ r both. (both.0, valid-IsDeletable r (valid r both.1)))
          (All-filter (λ r. Among r resources) is_eligible resources (All-Among resources)) in
      subst (λ made_plan. All (IsBacked resources) made_plan.candidates) same
        (All-sort (λ a b. c.le a.path b.path) (IsBacked resources)
          (final_selection c p (filter is_eligible resources)).candidates
          (final_selection-Fits (λ r. Among r resources × IsDeletable r) (IsBacked resources)
            (λ reason r q. (r, q.0, q.1, refl, refl)) c p (filter is_eligible resources) behind))
]
