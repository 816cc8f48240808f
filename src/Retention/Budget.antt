-- ===== src/Retention/Budget.antt =====
-- What a plan of src/ops/retention-policy.ts leaves in place is within the limits.
use my_shtty_pi_herdr_deck.Base.{
  ℕ, ◌-◌, ◌^◌, ◌≤◌, ◌<◌, String, true, false, not, ◌&&◌, List, [], ◌∷◌, ◌≡◌, refl, sym, subst,
  arith, ◌⊎◌, inl, inr, if◌then◌else◌, leb, filter, includes, Bool-cases, ◌==◌, eq_refl, leb→le,
}
use my_shtty_pi_herdr_deck.Base.Dict.{values}
use my_shtty_pi_herdr_deck.Base.Sort.{sort}
use my_shtty_pi_herdr_deck.Base.Double.{to_double, to_double-exact}
use my_shtty_pi_herdr_deck.Scheduler.Admission.{Collation}
use my_shtty_pi_herdr_deck.Retention.{
  RetentionResource, RetentionPolicy, CandidateReason, over_budget, over_item_limit, count_of,
  max_bytes,
}
use my_shtty_pi_herdr_deck.Retention.Plan.{
  is_eligible, Selection, select, is_selected, newer, older, available, total_bytes,
  select_over_budget, budget_kind, group_by_kind, drop, select_listed, select_over_items,
  after_expiry, after_budgets, final_selection, kept,
}
use my_shtty_pi_herdr_deck.Retention.Sums.{
  sum_of, exact_bytes, sum_of-sort, exact_bytes-filter, sum_bytes-exact,
}

-- What is selected stays selected.
abbrev pub Grows : Selection → Selection → Type 0
Grows s s' = (id : String) → includes s.selected id ≡ true → includes s'.selected id ≡ true

Grows-select :
    (reason : CandidateReason) (r : RetentionResource) (s : Selection) → Grows s (select reason r s)
Grows-select reason r s id h = ground (arith, h)

Grows-over_budget :
    (limit bytes : ℕ) (s : Selection) (rs : List RetentionResource)
    → Grows s (select_over_budget limit bytes s rs)
unfolding select_over_budget
Grows-over_budget limit bytes s [] id h = h
Grows-over_budget limit bytes s (r ∷ rs) id h = elim (Bool-cases (leb bytes limit)) [
  | inl e ↦ rw e h
  | inr e ↦ rw e (
      Grows-over_budget limit (to_double (bytes - count_of r.bytes)) (select over_budget r s) rs id
        (Grows-select over_budget r s id h))
]

Grows-listed : (s : Selection) (rs : List RetentionResource) → Grows s (select_listed s rs)
unfolding select_listed
Grows-listed s [] id h = h
Grows-listed s (r ∷ rs) id h =
    Grows-listed (select over_item_limit r s) rs id (Grows-select over_item_limit r s id h)

Grows-over_items :
    (c : Collation) (limit : ℕ) (s : Selection) (lists : List (List RetentionResource))
    → Grows s (select_over_items c limit s lists)
unfolding select_over_items
Grows-over_items c limit s [] id h = h
Grows-over_items c limit s (rs ∷ lists) id h =
    Grows-over_items c limit (select_listed s (drop limit (sort (newer c) rs))) lists id
      (Grows-listed s (drop limit (sort (newer c) rs)) id h)

-- The bytes of one kind that are not selected.
abbrev pub left_bytes : String → Selection → List RetentionResource → ℕ
left_bytes kind s rs =
    sum_of (λ r. if r.kind == kind && not (is_selected s r) then count_of r.bytes else 0) rs

left_bytes-Grows :
    (kind : String) (s s' : Selection)
    → Grows s s'
    → (rs : List RetentionResource) → left_bytes kind s' rs ≤ left_bytes kind s rs
left_bytes-Grows kind s s' g [] = omega arith
left_bytes-Grows kind s s' g (r ∷ rs) = ground (arith, g r.id, left_bytes-Grows kind s s' g rs)

left_bytes-filter :
    (kind : String) (s s' : Selection)
    → Grows s s'
    → (rs : List RetentionResource)
    → left_bytes kind s' (filter (λ r. r.kind == kind && not (is_selected s r)) rs)
      ≡ left_bytes kind s' rs
left_bytes-filter kind s s' g [] = refl
left_bytes-filter kind s s' g (r ∷ rs) = ground (arith, g r.id, left_bytes-filter kind s s' g rs)

left_bytes-le_total :
    (kind : String) (s : Selection) (rs : List RetentionResource)
    → left_bytes kind s rs ≤ exact_bytes rs
left_bytes-le_total kind s [] = omega arith
left_bytes-le_total kind s (r ∷ rs) = ground (arith, left_bytes-le_total kind s rs)

-- The loop stops as soon as what is left is within the limit.
over_budget-stops :
    (limit bytes : ℕ) (s : Selection) (r : RetentionResource) (rs : List RetentionResource)
    → leb bytes limit ≡ true
    → select_over_budget limit bytes s (r ∷ rs) ≡ s
unfolding select_over_budget
over_budget-stops limit bytes s r rs e = rw e refl

over_budget-goes_on :
    (limit bytes : ℕ) (s : Selection) (r : RetentionResource) (rs : List RetentionResource)
    → leb bytes limit ≡ false
    → select_over_budget limit bytes s (r ∷ rs)
      ≡ select_over_budget limit (to_double (bytes - count_of r.bytes)) (select over_budget r s) rs
unfolding select_over_budget
over_budget-goes_on limit bytes s r rs e = rw e refl

-- The loop ends within the budget.
left_bytes-over_budget :
    (kind : String) (limit bytes : ℕ) (s : Selection) (rs : List RetentionResource)
    → bytes ≡ exact_bytes rs
    → bytes < 2 ^ 53
    → left_bytes kind (select_over_budget limit bytes s rs) rs ≤ limit
left_bytes-over_budget kind limit bytes s [] h b = omega arith
left_bytes-over_budget kind limit bytes s (r ∷ rs) h b = elim (Bool-cases (leb bytes limit)) [
  | inl e ↦
      let small : bytes ≤ limit = leb→le bytes limit e in
      let most : left_bytes kind s (r ∷ rs) ≤ exact_bytes (r ∷ rs) =
        left_bytes-le_total kind s (r ∷ rs) in
      let total : bytes ≡ exact_bytes (r ∷ rs) = h in
      subst (λ s'. left_bytes kind s' (r ∷ rs) ≤ limit)
        (sym (over_budget-stops limit bytes s r rs e)) (omega (arith, small, most, total))
  | inr e ↦
      let exact = to_double-exact (bytes - count_of r.bytes) (omega (arith, b)) in
      let s' =
        select_over_budget limit (to_double (bytes - count_of r.bytes)) (select over_budget r s)
          rs in
      let here : includes s'.selected r.id ≡ true =
        Grows-over_budget limit (to_double (bytes - count_of r.bytes)) (select over_budget r s) rs
          r.id (rw (eq_refl r.id) refl) in
      let rest : left_bytes kind s' rs ≤ limit =
        left_bytes-over_budget kind limit (to_double (bytes - count_of r.bytes))
          (select over_budget r s) rs (rw exact (omega (arith, h))) (rw exact (omega (arith, b))) in
      subst (λ s'. left_bytes kind s' (r ∷ rs) ≤ limit)
        (sym (over_budget-goes_on limit bytes s r rs e)) (ground (arith, here, rest))
]

-- Together, the eligible resources of a kind are so few bytes that their sum is exact.
abbrev pub IsSmall : String → List RetentionResource → Type 0
IsSmall kind eligible = exact_bytes (filter (λ r. r.kind == kind) eligible) < 2 ^ 53

total_bytes-available :
    (c : Collation) (eligible : List RetentionResource) (s : Selection) (kind : String)
    → IsSmall kind eligible
    → (total_bytes (available c kind s eligible) ≡ exact_bytes (available c kind s eligible))
      × (exact_bytes (available c kind s eligible) < 2 ^ 53)
total_bytes-available c eligible s kind small =
    let below : exact_bytes (available c kind s eligible) < 2 ^ 53 = omega (
      arith,
      sum_of-sort (λ r. count_of r.bytes) (older c)
          (filter (λ r. r.kind == kind && not (is_selected s r)) eligible),
      exact_bytes-filter kind s eligible,
      small,
    ) in
    (omega (arith, sum_bytes-exact 0 (available c kind s eligible) (omega (arith, below))), below)

left_bytes-budget_kind :
    (c : Collation) (p : RetentionPolicy) (eligible : List RetentionResource) (s : Selection)
    (kind : String)
    → IsSmall kind eligible
    → left_bytes kind (budget_kind c p eligible s kind) eligible ≤ max_bytes p kind
unfolding budget_kind
left_bytes-budget_kind c p eligible s kind small =
    let list = available c kind s eligible in
    let s' = select_over_budget (max_bytes p kind) (total_bytes list) s list in
    let (exact, below) = total_bytes-available c eligible s kind small in
    let fits =
      left_bytes-over_budget kind (max_bytes p kind) (total_bytes list) s list exact
        (omega (arith, exact, below)) in
    let sorted =
      sum_of-sort (λ r. if r.kind == kind && not (is_selected s' r) then count_of r.bytes else 0)
        (older c) (filter (λ r. r.kind == kind && not (is_selected s r)) eligible) in
    let whole =
      left_bytes-filter kind s s' (Grows-over_budget (max_bytes p kind) (total_bytes list) s list)
        eligible in
    omega (arith, fits, sorted, whole)

Grows-budget_kind :
    (c : Collation) (p : RetentionPolicy) (eligible : List RetentionResource) (s : Selection)
    (kind : String)
    → Grows s (budget_kind c p eligible s kind)
unfolding budget_kind
Grows-budget_kind c p eligible s kind =
    Grows-over_budget (max_bytes p kind) (total_bytes (available c kind s eligible)) s
      (available c kind s eligible)

Grows-final :
    (c : Collation) (p : RetentionPolicy) (eligible : List RetentionResource)
    → Grows (after_budgets c p eligible) (final_selection c p eligible)
unfolding final_selection
Grows-final c p eligible =
    Grows-over_items c (count_of p.max_items) (after_budgets c p eligible)
      (values (group_by_kind (after_budgets c p eligible) [] eligible))

left_bytes-after_budgets :
    (c : Collation) (p : RetentionPolicy) (eligible : List RetentionResource) (kind : String)
    → (kind ≡ "artifact") ⊎ (kind ≡ "log")
    → IsSmall kind eligible
    → left_bytes kind (after_budgets c p eligible) eligible ≤ max_bytes p kind
unfolding after_budgets
left_bytes-after_budgets c p eligible kind (inr e) small =
    let log =
      left_bytes-budget_kind c p eligible
        (budget_kind c p eligible (after_expiry p eligible) "artifact") "log" (rw e at small) in
    rw e log
left_bytes-after_budgets c p eligible kind (inl e) small =
    let s = budget_kind c p eligible (after_expiry p eligible) "artifact" in
    let first =
      left_bytes-budget_kind c p eligible (after_expiry p eligible) "artifact" (rw e at small) in
    let later =
      left_bytes-Grows "artifact" s (budget_kind c p eligible s "log")
        (Grows-budget_kind c p eligible s "log") eligible in
    rw e (omega (arith, first, later))

left_bytes-kept :
    (kind : String) (s : Selection) (rs : List RetentionResource)
    → exact_bytes (filter (λ r. r.kind == kind) (filter (λ r. not (is_selected s r)) rs))
      ≡ left_bytes kind s rs
left_bytes-kept kind s [] = refl
left_bytes-kept kind s (r ∷ rs) = ground (arith, left_bytes-kept kind s rs)

-- If the eligible artifacts are together less than 2 ^ 53 bytes, so that the sums of the source are
-- exact, then those that a plan keeps are together within the byte budget for artifacts; the same
-- holds of the logs.
pub kept-max_bytes :
    (c : Collation) (resources : List RetentionResource) (p : RetentionPolicy) (kind : String)
    → (kind ≡ "artifact") ⊎ (kind ≡ "log")
    → exact_bytes (filter (λ r. r.kind == kind) (filter is_eligible resources)) < 2 ^ 53
    → exact_bytes (filter (λ r. r.kind == kind) (kept c p resources)) ≤ max_bytes p kind
kept-max_bytes c resources p kind known small =
    let eligible = filter is_eligible resources in
    omega (
      arith,
      left_bytes-kept kind (final_selection c p eligible) eligible,
      left_bytes-Grows kind (after_budgets c p eligible) (final_selection c p eligible)
          (Grows-final c p eligible) eligible,
      left_bytes-after_budgets c p eligible kind known small,
    )
