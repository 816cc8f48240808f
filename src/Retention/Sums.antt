-- ===== src/Retention/Sums.antt =====
-- The sums of sizes in src/ops/retention-policy.ts.
use my_shtty_pi_herdr_deck.Base.{
  ℕ, ◌+◌, ◌^◌, ◌≤◌, ◌<◌, String, Bool, not, ◌&&◌, List, [], ◌∷◌, ◌≡◌, refl, arith, inl, inr, filter,
  Bool-cases, ◌==◌,
}
use my_shtty_pi_herdr_deck.Base.Sort.{sort, insert_sorted}
use my_shtty_pi_herdr_deck.Base.Double.{to_double-exact}
use my_shtty_pi_herdr_deck.Retention.{RetentionResource, count_of}
use my_shtty_pi_herdr_deck.Retention.Plan.{Selection, is_selected, sum_bytes}

-- The sum of a number for each resource.
abbrev pub sum_of : (RetentionResource → ℕ) → List RetentionResource → ℕ
sum_of size [] = 0
sum_of size (r ∷ rs) = size r + sum_of size rs

-- The bytes of some resources, together.
abbrev pub exact_bytes : List RetentionResource → ℕ
exact_bytes rs = sum_of (λ r. count_of r.bytes) rs

module _ (size : RetentionResource → ℕ) (le : RetentionResource → RetentionResource → Bool) where
  sum_of-insert_sorted :
      (r : RetentionResource) (rs : List RetentionResource)
      → sum_of size (insert_sorted le r rs) ≡ size r + sum_of size rs
  unfolding insert_sorted
  sum_of-insert_sorted r [] = refl
  sum_of-insert_sorted r (x ∷ rs) = elim (Bool-cases (le r x)) [
    | inl e ↦ rw e refl
    | inr e ↦ rw e (omega (arith, sum_of-insert_sorted r rs))
  ]

  pub sum_of-sort : (rs : List RetentionResource) → sum_of size (sort le rs) ≡ sum_of size rs
  unfolding sort
  sum_of-sort [] = refl
  sum_of-sort (r ∷ rs) = omega (arith, sum_of-insert_sorted r (sort le rs), sum_of-sort rs)

pub exact_bytes-filter :
    (kind : String) (s : Selection) (rs : List RetentionResource)
    → exact_bytes (filter (λ r. r.kind == kind && not (is_selected s r)) rs)
      ≤ exact_bytes (filter (λ r. r.kind == kind) rs)
exact_bytes-filter kind s [] = omega arith
exact_bytes-filter kind s (r ∷ rs) = ground (arith, exact_bytes-filter kind s rs)

-- A sum of doubles that stays below 2 ^ 53 is exact.
pub sum_bytes-exact :
    (sum : ℕ) (rs : List RetentionResource)
    → sum + exact_bytes rs < 2 ^ 53
    → sum_bytes sum rs ≡ sum + exact_bytes rs
unfolding sum_bytes
sum_bytes-exact sum [] h = omega arith
sum_bytes-exact sum (r ∷ rs) h =
    let here = to_double-exact (sum + count_of r.bytes) (omega arith) in
    let rest = sum_bytes-exact (sum + count_of r.bytes) rs (omega arith) in
    rw here (omega (arith, rest))
