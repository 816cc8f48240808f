-- ===== src/Retention/Deletable.antt =====
-- What the checks of `validateResource` (src/ops/retention-policy.ts) leave.
use my_shtty_pi_herdr_deck.Base.{
  ℕ, ◌<◌, ◌^◌, ◌⊎◌, ◌≢◌, eq_iff, not_equal, Bool, true, false, Option, none, some, ◌≡◌, refl, arith,
  inl, inr, Bool-cases, Option-cases, ◌==◌,
}
use my_shtty_pi_herdr_deck.Base.Int.{ℤ, pos, negsuc}
use my_shtty_pi_herdr_deck.Base.Json.{Number, integer, other}
use my_shtty_pi_herdr_deck.Retention.{
  RetentionResource, is_count, is_finite, ResourceStatus, clean, dirty, live, unknown, is_dirty,
  is_live, is_unknown, is_kept_back, validate_resource,
}
use my_shtty_pi_herdr_deck.Retention.Plan.{is_eligible}

-- A resource that may be deleted: complete, clean, an artifact or a log, and not marked as kept.
pub record IsDeletable (r : RetentionResource) : Type 0 where
  pub named : r.id ≢ ""
  pub placed : r.path ≢ ""
  pub counted : (n : ℕ) × (r.bytes ≡ integer (pos n)) × (n < 2 ^ 53)
  pub dated : (z : ℤ) × (r.modified_at ≡ integer z)
  pub status_clean : r.status ≡ clean
  pub kind_known : (r.kind ≡ "artifact") ⊎ (r.kind ≡ "log")
  pub unmarked : r.deletion_eligible ≢ some false

is_count-integer : (b : Number) → is_count b ≡ true → (n : ℕ) × (b ≡ integer (pos n)) × (n < 2 ^ 53)
is_count-integer (integer (pos n)) h = (n, refl, ground (arith, h))
is_count-integer (integer (negsuc n)) h = absurd (cc h)
is_count-integer (other s) h = absurd (cc h)

is_finite-integer : (b : Number) → is_finite b ≡ true → (z : ℤ) × (b ≡ integer z)
is_finite-integer (integer z) h = (z, refl)
is_finite-integer (other s) h = absurd (cc h)

status-clean :
    (st : ResourceStatus)
    → is_dirty st ≡ false
    → is_live st ≡ false
    → is_unknown st ≡ false
    → st ≡ clean
status-clean clean d l u = refl
status-clean dirty d l u = absurd (cc d)
status-clean live d l u = absurd (cc l)
status-clean unknown d l u = absurd (cc u)

unmarked_flag : (flag : Option Bool) → is_kept_back flag ≡ false → flag ≢ some false
unmarked_flag none h e = absurd (cc e)
unmarked_flag (some true) h e = absurd (cc e)
unmarked_flag (some false) h e = absurd (cc h)

pub valid-IsDeletable : (r : RetentionResource) → validate_resource r ≡ none → IsDeletable r
unfolding validate_resource
valid-IsDeletable r h =
    let named : (r.id == "") ≡ false = ground (arith, h) in
    let placed : (r.path == "") ≡ false = ground (arith, h) in
    let counted : is_count r.bytes ≡ true = ground (arith, h) in
    let dated : is_finite r.modified_at ≡ true = ground (arith, h) in
    let not_dirty : is_dirty r.status ≡ false = ground (arith, h) in
    let not_live : is_live r.status ≡ false = ground (arith, h) in
    let known : is_unknown r.status ≡ false = ground (arith, h) in
    let unmarked : is_kept_back r.deletion_eligible ≡ false = ground (arith, h) in
    record {
      named = not_equal r.id "" named;
      placed = not_equal r.path "" placed;
      counted = is_count-integer r.bytes counted;
      dated = is_finite-integer r.modified_at dated;
      status_clean = status-clean r.status not_dirty not_live known;
      kind_known = elim (Bool-cases (r.kind == "artifact")) [
        | inl e ↦ inl ((eq_iff r.kind "artifact").0 e)
        | inr e ↦ inr ((eq_iff r.kind "log").0 (ground (arith, h, e)))
      ];
      unmarked = unmarked_flag r.deletion_eligible unmarked;
    }

pub valid : (r : RetentionResource) → is_eligible r ≡ true → validate_resource r ≡ none
valid r h = elim (Option-cases (validate_resource r)) [
  | inl e ↦ e
  | inr (reason, e) ↦ absurd (ground (arith, e, h))
]
