-- ===== src/Retention.antt =====
-- src/ops/retention-policy.ts: which artifacts and logs may be deleted. Times are whole milliseconds;
-- an `other` number stands for one that is not finite.
pub mod Plan
pub mod Deletable
pub mod Candidates
pub mod Sums
pub mod Budget
pub mod Export
use my_shtty_pi_herdr_deck.Base.{
  ℕ, String, Bool, true, false, not, ◌&&◌, ◌||◌, List, Option, none, some, if◌then◌else◌, ltb, ◌==◌,
  truthy?,
}
use my_shtty_pi_herdr_deck.Base.Int.{ℤ, pos, negsuc, leb_ℤ}
use my_shtty_pi_herdr_deck.Base.Json.{Number, integer, other, is_safe_integer}

pub data ResourceStatus : Type 0 where
  clean dirty live unknown : ResourceStatus

pub record RetentionResource : Type 0 where
  pub id : String
  pub path : String
  pub kind : String
  pub bytes : Number
  pub modified_at : Number
  pub status : ResourceStatus
  pub deletion_eligible : Option Bool
  pub sha256 : Option String

-- The two kinds have their own fields here.
pub record RetentionPolicy : Type 0 where
  pub now : Number
  pub max_age_artifact : Number
  pub max_age_log : Number
  pub max_bytes_artifact : Number
  pub max_bytes_log : Number
  pub max_items : Number

pub data CandidateReason : Type 0 where
  expired over_budget over_item_limit : CandidateReason

pub record RetentionCandidate : Type 0 where
  pub id : String
  pub path : String
  pub kind : String
  pub bytes : Number
  pub reason : CandidateReason

pub data RefusalReason : Type 0 where
  dirty_resource live_resource unknown_resource unknown_kind not_deletion_eligible
        invalid_resource :
      RefusalReason

pub record RetentionRefusal : Type 0 where
  pub id : String
  pub path : String
  pub reason : RefusalReason

pub record RetentionPlan : Type 0 where
  pub candidates : List RetentionCandidate
  pub retained : List String
  pub refusals : List RetentionRefusal

-- `SAFE_INTEGER`
abbrev pub is_count : Number → Bool
is_count (integer (pos n)) = is_safe_integer (integer (pos n))
is_count _ = false

abbrev pub is_finite : Number → Bool
is_finite (integer z) = true
is_finite (other s) = false

abbrev pub is_dirty : ResourceStatus → Bool
is_dirty dirty = true
is_dirty _ = false

abbrev pub is_live : ResourceStatus → Bool
is_live live = true
is_live _ = false

abbrev pub is_unknown : ResourceStatus → Bool
is_unknown unknown = true
is_unknown _ = false

-- `resource.deletionEligible === false`
abbrev pub is_kept_back : Option Bool → Bool
is_kept_back (some b) = not b
is_kept_back none = false

-- `validateResource`, without the refusal's id and path.
unfoldable pub validate_resource : RetentionResource → Option RefusalReason
validate_resource r =
    if r.id == "" || r.path == "" || not (is_count r.bytes) || not (is_finite r.modified_at)
    then some invalid_resource
    else if is_dirty r.status
    then some dirty_resource
    else if is_live r.status
    then some live_resource
    else if is_unknown r.status
    then some unknown_resource
    else if not (r.kind == "artifact") && not (r.kind == "log")
    then some unknown_kind
    else if is_kept_back r.deletion_eligible
    then some not_deletion_eligible
    else none

abbrev pub refusal : RetentionResource → RefusalReason → RetentionRefusal
refusal r reason = record { id = r.id; path = r.path; reason = reason }

-- The limits are accepted.
unfoldable pub validate_policy : RetentionPolicy → Bool
validate_policy p =
    is_finite p.now
    && is_count p.max_items
    && is_count p.max_age_artifact
    && is_count p.max_age_log
    && is_count p.max_bytes_artifact
    && is_count p.max_bytes_log

-- Numbers that were validated.
abbrev pub count_of : Number → ℕ
count_of (integer (pos n)) = n
count_of _ = 0

abbrev pub time_of : Number → ℤ
time_of (integer z) = z
time_of (other s) = pos 0

abbrev pub max_age : RetentionPolicy → String → ℕ
max_age p kind = if kind == "artifact" then count_of p.max_age_artifact else count_of p.max_age_log

abbrev pub max_bytes : RetentionPolicy → String → ℕ
max_bytes p kind =
    if kind == "artifact" then count_of p.max_bytes_artifact else count_of p.max_bytes_log
