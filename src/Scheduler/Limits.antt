-- ===== src/Scheduler/Limits.antt =====
-- `clampLimits` and `clampEndpointLimits` of src/scheduler/scheduler.ts.
use my_shtty_pi_herdr_deck.Base.{
  ℕ, ◌≤◌, String, ◌≡◌, refl, subst, Bool, true, false, ◌&&◌, List, [], ◌∷◌, Option, none, some,
  arith, leb, if◌then◌else◌, includes, Result, ok, err, ◌>>=◌, ◌>>◌, >>=-eq-ok,
}
use my_shtty_pi_herdr_deck.Base.Dict.{Dict, lookup, insert, Entries, Entries-insert}
use my_shtty_pi_herdr_deck.Base.Json.{Number, integer, other, is_safe_integer}
use my_shtty_pi_herdr_deck.Base.Int.{pos, negsuc}
use my_shtty_pi_herdr_deck.Base.Text.{is_endpoint_id}
use my_shtty_pi_herdr_deck.Scheduler.Types.{SchedulerLimits}

pub data LimitError : Type 0 where
  unknown_limit invalid_limit invalid_endpoint_limit : String → LimitError

-- `Number.isSafeInteger(value) && low <= value && value <= high`, with the value.
unfoldable pub within : ℕ → ℕ → Number → Option ℕ
within low high (integer (pos n)) =
    if is_safe_integer (integer (pos n)) && leb low n && leb n high then some n else none
within low high (integer (negsuc n)) = none
within low high (other _) = none

abbrev pub limit_keys : List String
limit_keys =
    "maxActiveAgents" ∷ "maxActivePerParent" ∷ "maxQueuedTasks" ∷ "maxTasksPerDelegate"
    ∷ "maxDelegationDepth" ∷ "maxProvisioning" ∷ []

-- The first loop of `clampLimits`: every key is a limit.
unfoldable pub known_keys : Dict (Option Number) → Result LimitError (Unit {0})
known_keys [] = ok tt
known_keys ((key, v) ∷ input) =
    let rest = known_keys input in if includes limit_keys key then rest else err (unknown_limit key)

unfoldable pub clamped : String → Option ℕ → Result LimitError ℕ
clamped key none = err (invalid_limit key)
clamped key (some n) = ok n

-- One round of the second loop: an override must lie between 0 and the hard limit.
unfoldable pub override : String → ℕ → ℕ → Option (Option Number) → Result LimitError ℕ
unfolding within clamped
override key default hard none = ok default
override key default hard (some none) = ok default
override key default hard (some (some v)) = clamped key (within 0 hard v)

unfoldable pub clamp_limits : Dict (Option Number) → Result LimitError SchedulerLimits
clamp_limits input = do
  known_keys input
  a ← override "maxActiveAgents" 4 32 (lookup "maxActiveAgents" input)
  b ← override "maxActivePerParent" 4 16 (lookup "maxActivePerParent" input)
  c ← override "maxQueuedTasks" 32 1000 (lookup "maxQueuedTasks" input)
  d ← override "maxTasksPerDelegate" 8 32 (lookup "maxTasksPerDelegate" input)
  e ← override "maxDelegationDepth" 2 4 (lookup "maxDelegationDepth" input)
  f ← override "maxProvisioning" 2 8 (lookup "maxProvisioning" input)
  ok (record {
    max_active_agents = a;
    max_active_per_parent = b;
    max_queued_tasks = c;
    max_tasks_per_delegate = d;
    max_delegation_depth = e;
    max_provisioning = f;
  })

unfoldable pub clamped_endpoint : String → Bool → Option ℕ → Result LimitError ℕ
clamped_endpoint id true (some n) = ok n
clamped_endpoint id true none = err (invalid_endpoint_limit id)
clamped_endpoint id false _ = err (invalid_endpoint_limit id)

-- The loop of `clampEndpointLimits`, with the result so far.
unfoldable pub clamp_entries : Dict ℕ → Dict Number → Result LimitError (Dict ℕ)
unfolding clamped_endpoint
clamp_entries result [] = ok result
clamp_entries result ((id, value) ∷ input) =
    clamped_endpoint id (is_endpoint_id id) (within 1 32 value) >>= λ n.
    clamp_entries (insert id n result) input

unfoldable pub clamp_endpoint_limits : Dict Number → Result LimitError (Dict ℕ)
unfolding clamp_entries
clamp_endpoint_limits input = clamp_entries [] input

pub record WithinHard (l : SchedulerLimits) : Type 0 where
  pub active : l.max_active_agents ≤ 32
  pub per_parent : l.max_active_per_parent ≤ 16
  pub queued : l.max_queued_tasks ≤ 1000
  pub per_delegate : l.max_tasks_per_delegate ≤ 32
  pub depth : l.max_delegation_depth ≤ 4
  pub provisioning : l.max_provisioning ≤ 8

override-le :
    (key : String) (default hard : ℕ) (v : Option (Option Number)) {n : ℕ}
    → default ≤ hard
    → override key default hard v ≡ ok n
    → n ≤ hard
unfolding override
override-le key default hard none h e = ground arith
override-le key default hard (some none) h e = ground arith
override-le key default hard (some (some (integer (pos m)))) h e = ground arith
override-le key default hard (some (some (integer (negsuc m)))) h e = cc
override-le key default hard (some (some (other t))) h e = cc

-- Accepted limits never pass the hard ones.
pub clamp_limits-WithinHard :
    (input : Dict (Option Number)) {l : SchedulerLimits} → clamp_limits input ≡ ok l → WithinHard l
unfolding clamp_limits
clamp_limits-WithinHard input h =
    let (_, _, h) = >>=-eq-ok (known_keys input) _ h in
    let (a, ea, h) = >>=-eq-ok (override "maxActiveAgents" 4 32 _) _ h in
    let (b, eb, h) = >>=-eq-ok (override "maxActivePerParent" 4 16 _) _ h in
    let (c, ec, h) = >>=-eq-ok (override "maxQueuedTasks" 32 1000 _) _ h in
    let (d, ed, h) = >>=-eq-ok (override "maxTasksPerDelegate" 8 32 _) _ h in
    let (e, ee, h) = >>=-eq-ok (override "maxDelegationDepth" 2 4 _) _ h in
    let (f, ef, h) = >>=-eq-ok (override "maxProvisioning" 2 8 _) _ h in
    ground (
      arith,
      override-le _ 4 32 _ (omega arith) ea,
      override-le _ 4 16 _ (omega arith) eb,
      override-le _ 32 1000 _ (omega arith) ec,
      override-le _ 8 32 _ (omega arith) ed,
      override-le _ 2 4 _ (omega arith) ee,
      override-le _ 2 8 _ (omega arith) ef,
    )

-- What a map of endpoint limits holds: endpoint ids, with a limit from 1 to 32.
abbrev pub EndpointLimit : String → ℕ → Type 0
EndpointLimit id n = (is_endpoint_id id ≡ true) × (1 ≤ n) × (n ≤ 32)

within_bounds :
    (low high : ℕ) (v : Number) {n : ℕ} → within low high v ≡ some n → (low ≤ n) × (n ≤ high)
unfolding within
within_bounds low high (integer (pos m)) h = ground arith
within_bounds low high (integer (negsuc m)) h = cc
within_bounds low high (other t) h = cc

clamped_endpoint-EndpointLimit :
    (id : String) (v : Number) (valid : Bool) (clamped : Option ℕ) {n : ℕ}
    → is_endpoint_id id ≡ valid
    → within 1 32 v ≡ clamped
    → clamped_endpoint id valid clamped ≡ ok n
    → EndpointLimit id n
unfolding clamped_endpoint
clamped_endpoint-EndpointLimit id v true (some m) p q h =
    let (above, below) = within_bounds 1 32 v q in ground arith
clamped_endpoint-EndpointLimit id v true none p q h = cc
clamped_endpoint-EndpointLimit id v false none p q h = cc
clamped_endpoint-EndpointLimit id v false (some m) p q h = cc

clamp_entries-Entries :
    (result : Dict ℕ) (input : Dict Number) {out : Dict ℕ}
    → Entries EndpointLimit result
    → clamp_entries result input ≡ ok out
    → Entries EndpointLimit out
unfolding clamp_entries
clamp_entries-Entries result [] {out} h e =
    let same : result ≡ out = ground arith in subst (Entries EndpointLimit) same h
clamp_entries-Entries result ((id, v) ∷ input) h e =
    let (n, en, e) = >>=-eq-ok (clamped_endpoint id (is_endpoint_id id) (within 1 32 v)) _ e in
    clamp_entries-Entries (insert id n result) input
      (Entries-insert EndpointLimit id n result h
        (clamped_endpoint-EndpointLimit id v _ _ refl refl en))
      e

-- Accepted endpoint limits have valid endpoint ids and values from 1 to 32.
clamp_endpoint_limits-Entries :
    (input : Dict Number) {out : Dict ℕ}
    → clamp_endpoint_limits input ≡ ok out
    → Entries EndpointLimit out
unfolding clamp_endpoint_limits
clamp_endpoint_limits-Entries input h = clamp_entries-Entries [] input tt h
