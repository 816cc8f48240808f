-- ===== src/Scheduler/Reuse.antt =====
-- `findReusableAgent` of src/scheduler/scheduler.ts and src/scheduler/admission.ts.
use my_shtty_pi_herdr_deck.Base.{
  String, ◌≡◌, refl, Bool, true, false, not, ◌&&◌, List, [], ◌∷◌, map, Option, none, some, arith,
  filter, All, All-map, All-filter, All-Among, Among, same_text?, ◌==◌, eq_iff, eq_refl, Bool-cases,
  inl, inr, ap, subst, sym,
}
use my_shtty_pi_herdr_deck.Base.Dict.{Dict}
use my_shtty_pi_herdr_deck.Base.Sort.{sort, IsSorted, sort-IsSorted, All-sort, All-of_sort}
use my_shtty_pi_herdr_deck.Scheduler.Types.{SchedulerTask, ReuseCandidate, ReuseRequest}
use my_shtty_pi_herdr_deck.Scheduler.Queue.{Scheduler}
use my_shtty_pi_herdr_deck.Scheduler.Admission.{Admission, Collation, admit_ready}

pub record AdmissionPlan : Type 0 where
  pub decisions : List Admission
  pub admitted_task_ids : List String
  pub blocked_task_ids : List String

unfoldable pub plan_admission : Collation → Scheduler → Dict SchedulerTask → AdmissionPlan
plan_admission c s tasks =
    let decisions = admit_ready c s tasks in
    record {
      decisions = decisions;
      admitted_task_ids = map (λ d. d.task_id) (filter (λ d. d.admitted) decisions);
      blocked_task_ids = map (λ d. d.task_id) (filter (λ d. not d.admitted) decisions);
    }

unfoldable pub is_reusable_candidate : ReuseRequest → ReuseCandidate → Bool
is_reusable_candidate r a =
    a.idle
    && not a.cleanup_pending
    && a.profile_id == r.profile_id
    && same_text? a.project_key r.project_key
    && same_text? a.worktree_key r.worktree_key
    && a.trust_key == r.trust_key
    && a.tool_policy_hash == r.tool_policy_hash
    && a.model_policy_hash == r.model_policy_hash

abbrev pub agent_before : Collation → ReuseCandidate → ReuseCandidate → Bool
agent_before c a b = c.le a.agent_id b.agent_id

-- `list[0]?.agentId`
abbrev pub first_agent : List ReuseCandidate → Option String
first_agent [] = none
first_agent (a ∷ _) = some a.agent_id

-- The filter of the source repeats the tests of `isReusableCandidate`.
unfoldable pub find_reusable_agent : Collation → ReuseRequest → List ReuseCandidate → Option String
find_reusable_agent c r candidates =
    first_agent (sort (agent_before c) (filter (is_reusable_candidate r) candidates))

unfoldable pub select_reusable_agent :
    Collation → ReuseRequest → List ReuseCandidate → Option String
select_reusable_agent c r candidates =
    find_reusable_agent c r (filter (is_reusable_candidate r) candidates)

filter_twice {ℓ} : {A : Type ℓ} (p : A → Bool) (xs : List A) → filter p (filter p xs) ≡ filter p xs
filter_twice p [] = refl
filter_twice p (x ∷ xs) = elim (Bool-cases (p x)) [
  | inl e ↦ rw e (rw e (rw (filter_twice p xs)))
  | inr e ↦ rw e (filter_twice p xs)
]

-- The stricter wrapper of the broker chooses the agent that the scheduler's function chooses.
select-find :
    (c : Collation) (r : ReuseRequest) (candidates : List ReuseCandidate)
    → select_reusable_agent c r candidates ≡ find_reusable_agent c r candidates
unfolding select_reusable_agent find_reusable_agent
select-find c r candidates = rw (filter_twice (is_reusable_candidate r) candidates)

-- A candidate that a request may take over: idle, not in cleanup, and alike in every key.
pub record Matches (r : ReuseRequest) (a : ReuseCandidate) : Type 0 where
  pub idle : a.idle ≡ true
  pub clean : a.cleanup_pending ≡ false
  pub profile : a.profile_id ≡ r.profile_id
  pub project : a.project_key ≡ r.project_key
  pub worktree : a.worktree_key ≡ r.worktree_key
  pub trust : a.trust_key ≡ r.trust_key
  pub tools : a.tool_policy_hash ≡ r.tool_policy_hash
  pub model : a.model_policy_hash ≡ r.model_policy_hash

same_text?-eq : (a b : Option String) → same_text? a b ≡ true → a ≡ b
same_text?-eq none none h = refl
same_text?-eq none (some b) h = cc
same_text?-eq (some a) none h = cc
same_text?-eq (some a) (some b) h = ap some ((eq_iff a b).0 h)

same_text?-refl : (a : Option String) → same_text? a a ≡ true
same_text?-refl none = refl
same_text?-refl (some a) = eq_refl a

candidate-Matches :
    (r : ReuseRequest) (a : ReuseCandidate) → is_reusable_candidate r a ≡ true → Matches r a
unfolding is_reusable_candidate
candidate-Matches r a h = ground (
  arith,
  eq_iff a.profile_id r.profile_id,
  same_text?-eq a.project_key r.project_key,
  same_text?-eq a.worktree_key r.worktree_key,
  eq_iff a.trust_key r.trust_key,
  eq_iff a.tool_policy_hash r.tool_policy_hash,
  eq_iff a.model_policy_hash r.model_policy_hash,
)

Matches-candidate :
    (r : ReuseRequest) (a : ReuseCandidate) → Matches r a → is_reusable_candidate r a ≡ true
unfolding is_reusable_candidate
Matches-candidate r a m =
    rw (m.idle, m.clean, m.profile, m.project, m.worktree, m.trust, m.tools, m.model)
      (ground (
        arith,
        eq_refl r.profile_id,
        same_text?-refl r.project_key,
        same_text?-refl r.worktree_key,
        eq_refl r.trust_key,
        eq_refl r.tool_policy_hash,
        eq_refl r.model_policy_hash,
      ))

-- What the search for an agent promises of its answer.
abbrev pub IsChoice : Collation → ReuseRequest → List ReuseCandidate → Option String → Type 0
IsChoice c r candidates none = All (λ a. ¬ Matches r a) candidates
IsChoice c r candidates (some id) =
    ((a : ReuseCandidate) × Among a candidates × (a.agent_id ≡ id) × Matches r a)
    × All (λ b. Matches r b → c.le id b.agent_id ≡ true) candidates

filter-nil {ℓ} :
    {A : Type ℓ} (p : A → Bool) (xs : List A) → filter p xs ≡ [] → All (λ x. p x ≡ false) xs
filter-nil p [] h = tt
filter-nil p (x ∷ xs) h = elim (Bool-cases (p x)) [
  | inl e ↦ absurd (ground arith)
  | inr e ↦ (e, filter-nil p xs (rw e at h))
]

-- A predicate on what passes the filter is an implication on every entry.
All-of_filter {ℓ κ} :
    {A : Type ℓ} (p : A → Bool) (P : A → Type κ) (xs : List A)
    → All P (filter p xs)
    → All (λ x. p x ≡ true → P x) xs
All-of_filter p P [] h = tt
All-of_filter p P (x ∷ xs) h = elim (Bool-cases (p x)) [
  | inl e ↦ let k : P x × All P (filter p xs) = rw e at h in ((λ _. k.0), All-of_filter p P xs k.1)
  | inr e ↦ ((λ q. cc), All-of_filter p P xs (rw e at h))
]

All-nil {ℓ} : {A : Type ℓ} {xs : List A} → All (λ _. ⊥) xs → xs ≡ []
All-nil {xs = []} h = refl
All-nil {xs = x ∷ xs} h = absurd h.0

le_refl : (c : Collation) (a : String) → c.le a a ≡ true
le_refl c a = elim (Bool-cases (c.le a a)) [ inl e ↦ e | inr e ↦ c.total a a e ]

sorted-IsChoice :
    (c : Collation) (r : ReuseRequest) (candidates sorted : List ReuseCandidate)
    → sort (agent_before c) (filter (is_reusable_candidate r) candidates) ≡ sorted
    → IsChoice c r candidates (first_agent sorted)
sorted-IsChoice c r candidates [] e =
    let none_left = filter-nil (is_reusable_candidate r) candidates (
      All-nil (
        All-of_sort (agent_before c) (λ _. ⊥) (filter (is_reusable_candidate r) candidates)
          (subst (All (λ _. ⊥)) (sym e) tt))) in
    All-map (λ a. is_reusable_candidate r a ≡ false) (λ a. ¬ Matches r a) candidates
      (λ a no m. ground (arith, no, Matches-candidate r a m)) none_left
sorted-IsChoice c r candidates (a ∷ rest) e =
    let chosen = filter (is_reusable_candidate r) candidates in
    let order : IsSorted (agent_before c) (a ∷ rest) = subst (IsSorted (agent_before c)) e (
      sort-IsSorted (agent_before c) (λ x y. c.total x.agent_id y.agent_id)
        (λ x y z. c.trans x.agent_id y.agent_id z.agent_id) chosen) in
    let Passed : ReuseCandidate → Type 0 =
      λ x. Among x candidates × (is_reusable_candidate r x ≡ true) in
    let passed : All Passed (a ∷ rest) = subst (All Passed) e (
      All-sort (agent_before c) Passed chosen (
        All-filter (λ x. Among x candidates) (is_reusable_candidate r) candidates
          (All-Among candidates))) in
    let first : All (λ b. c.le a.agent_id b.agent_id ≡ true) (a ∷ rest) =
      (le_refl c a.agent_id, order.0) in
    (
      (a, passed.0.0, refl, candidate-Matches r a passed.0.1),
      All-map (λ b. is_reusable_candidate r b ≡ true → c.le a.agent_id b.agent_id ≡ true)
          (λ b. Matches r b → c.le a.agent_id b.agent_id ≡ true) candidates
          (λ b before m. before (Matches-candidate r b m))
          (All-of_filter (is_reusable_candidate r) (λ b. c.le a.agent_id b.agent_id ≡ true)
            candidates
            (All-of_sort (agent_before c) (λ b. c.le a.agent_id b.agent_id ≡ true) chosen
              (subst (All (λ b. c.le a.agent_id b.agent_id ≡ true)) (sym e) first))),
    )

-- The search answers with the id of one of the candidates that is idle, not in cleanup and alike the
-- request in every key, and that id comes first among all such candidates; it answers with none only
-- when no candidate is such.
pub find_reusable_agent-IsChoice :
    (c : Collation) (r : ReuseRequest) (candidates : List ReuseCandidate)
    → IsChoice c r candidates (find_reusable_agent c r candidates)
unfolding find_reusable_agent
find_reusable_agent-IsChoice c r candidates = sorted-IsChoice c r candidates _ refl
