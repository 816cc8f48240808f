-- ===== src/Workflow/Isolation.antt =====
-- src/broker/isolation-policy.ts: where the agent of a profile works.
use my_shtty_pi_herdr_deck.Base.{
  String, Bool, true, false, not, ◌&&◌, List, [], ◌∷◌, Option, none, some, if◌then◌else◌, ◌==◌,
  Result, ok, err, ◌>>=◌, >>=-eq-ok, subst, includes, Among, ◌≡◌, sym, ap, ◌∙◌, eq_iff, arith, ◌⊎◌,
  inl, inr, Bool-cases,
}
use my_shtty_pi_herdr_deck.Base.Json.{
  Value, undefined, null, boolean, number, string, array, object, is_undefined, is_text,
}

pub data ProductionIsolation : Type 0 where
  shared_readonly worktree : ProductionIsolation

pub data IsolationError : Type 0 where
  unknown_profile shared_not_permitted unsupported_mode : IsolationError

-- A profile's contract; what an object inherits has neither field.
pub record ProfileContract : Type 0 where
  pub default_isolation : Option ProductionIsolation
  pub allow_shared_override : Bool

-- The members of `Object.prototype`: the table is an object and inherits them.
abbrev pub object_members : List String
object_members =
    "constructor" ∷ "__defineGetter__" ∷ "__defineSetter__" ∷ "hasOwnProperty" ∷ "__lookupGetter__"
    ∷ "__lookupSetter__" ∷ "isPrototypeOf" ∷ "propertyIsEnumerable" ∷ "toString" ∷ "valueOf"
    ∷ "__proto__" ∷ "toLocaleString" ∷ []

abbrev pub contract : ProductionIsolation → ProfileContract
contract mode = record { default_isolation = some mode; allow_shared_override = false }

unfoldable pub profile_contract : String → Result IsolationError ProfileContract
profile_contract id =
    if id == "implementer"
    then ok (contract worktree)
    else if id == "planner"
    then ok (contract shared_readonly)
    else if id == "reviewer"
    then ok (contract shared_readonly)
    else if id == "scout"
    then ok (contract shared_readonly)
    else if id == "test-runner"
    then ok (contract shared_readonly)
    else if includes object_members id
    then ok (record { default_isolation = none; allow_shared_override = false })
    else err unknown_profile

abbrev pub is_worktree : Option ProductionIsolation → Bool
is_worktree (some worktree) = true
is_worktree _ = false

-- What a contract makes of a request; `none` is `undefined`.
unfoldable pub resolve_by :
    ProfileContract → Value → Result IsolationError (Option ProductionIsolation)
resolve_by c requested =
    if is_undefined requested
    then ok c.default_isolation
    else if is_text "profile-default" requested
    then ok c.default_isolation
    else if is_text "worktree" requested
    then ok (some worktree)
    else if is_text "shared-readonly" requested
    then (if is_worktree c.default_isolation && not c.allow_shared_override
        then err shared_not_permitted
        else ok (some shared_readonly))
    else err unsupported_mode

unfoldable pub resolve_isolation :
    String → Value → Result IsolationError (Option ProductionIsolation)
unfolding profile_contract resolve_by
resolve_isolation id requested = do c ← profile_contract id; resolve_by c requested

unfoldable pub resolve_workflow_isolation :
    String → Value → Result IsolationError (Option ProductionIsolation)
unfolding resolve_isolation
resolve_workflow_isolation id requested =
    if is_text "reuse-worktree" requested
    then (profile_contract id >>= λ c. ok c.default_isolation)
    else resolve_isolation id requested

-- The shipped profiles that work in the shared checkout by default.
abbrev pub shared_profiles : List String
shared_profiles = "planner" ∷ "reviewer" ∷ "scout" ∷ "test-runner" ∷ []

-- What a profile may be given for a request: an implementer its own worktree, another shipped
-- profile the shared checkout or, if that is requested, a worktree.
pub data Granted (id : String) (requested : Value) : Option ProductionIsolation → Type 0 where
  by_default : id ≡ "implementer" → Granted id requested (some worktree)
  on_request :
      Among id shared_profiles
      → requested ≡ string "worktree"
      → Granted id requested (some worktree)
  shared : Among id shared_profiles → Granted id requested (some shared_readonly)

ok-eq : {A : Type 0} {a b : A} → ◌≡◌ {A = Result IsolationError A} (ok a) (ok b) → a ≡ b
ok-eq h = cc h

is_text-string : (text : String) (v : Value) → is_text text v ≡ true → v ≡ string text
is_text-string text (string t) h = ap string ((eq_iff t text).0 h)
is_text-string text undefined h = absurd (cc h)
is_text-string text null h = absurd (cc h)
is_text-string text (boolean b) h = absurd (cc h)
is_text-string text (number n) h = absurd (cc h)
is_text-string text (array xs) h = absurd (cc h)
is_text-string text (object fs) h = absurd (cc h)

-- The contract of a shipped profile.
abbrev Shipped : String → ProfileContract → Type 0
Shipped id c =
    ((id ≡ "implementer") × (c ≡ contract worktree))
    ⊎ (Among id shared_profiles × (c ≡ contract shared_readonly))

profile_contract-Shipped :
    (id : String)
    → includes object_members id ≡ false
    → {c : ProfileContract} → profile_contract id ≡ ok c
    → Shipped id c
unfolding profile_contract
profile_contract-Shipped id own {c} h = elim (Bool-cases (id == "implementer")) [
  | inl e ↦ inl ((eq_iff id "implementer").0 e, sym (ok-eq (rw e at h)))
  | inr e ↦ elim (Bool-cases (id == "planner")) [
    | inl f ↦ inr (inl ((eq_iff id "planner").0 f), sym (ok-eq (rw (e, f) at h)))
    | inr f ↦ elim (Bool-cases (id == "reviewer")) [
      | inl g ↦ inr (inr (inl ((eq_iff id "reviewer").0 g)), sym (ok-eq (rw (e, f, g) at h)))
      | inr g ↦ elim (Bool-cases (id == "scout")) [
        | inl k ↦
            inr (inr (inr (inl ((eq_iff id "scout").0 k))), sym (ok-eq (rw (e, f, g, k) at h)))
        | inr k ↦ elim (Bool-cases (id == "test-runner")) [
          | inl l ↦ inr (
            inr (inr (inr (inl ((eq_iff id "test-runner").0 l)))),
            sym (ok-eq (rw (e, f, g, k, l) at h)),
          )
          | inr l ↦ absurd (cc (rw (e, f, g, k, l, own) at h))
        ]
      ]
    ]
  ]
]

default-Granted :
    (id : String) (requested : Value) {c : ProfileContract} {mode : Option ProductionIsolation}
    → Shipped id c
    → c.default_isolation ≡ mode
    → Granted id requested mode
default-Granted id requested (inl (here, at)) e =
    subst (Granted id requested) (sym (ap (λ x. x.default_isolation) at) ∙ e) (by_default here)
default-Granted id requested (inr (here, at)) e =
    subst (Granted id requested) (sym (ap (λ x. x.default_isolation) at) ∙ e) (shared here)

worktree-Granted :
    (id : String) (requested : Value) {c : ProfileContract}
    → Shipped id c
    → is_text "worktree" requested ≡ true
    → Granted id requested (some worktree)
worktree-Granted id requested (inl (here, at)) e = by_default here
worktree-Granted id requested (inr (here, at)) e =
    on_request here (is_text-string "worktree" requested e)

shared-Granted :
    (id : String) (requested : Value) {c : ProfileContract}
    → Shipped id c
    → is_worktree c.default_isolation && not c.allow_shared_override ≡ false
    → Granted id requested (some shared_readonly)
shared-Granted id requested (inl (here, at)) e = absurd (cc (rw at at e))
shared-Granted id requested (inr (here, at)) e = shared here

resolve_by-Granted :
    (id : String) (c : ProfileContract) (requested : Value) {mode : Option ProductionIsolation}
    → Shipped id c
    → resolve_by c requested ≡ ok mode
    → Granted id requested mode
unfolding resolve_by
resolve_by-Granted id c requested s h = elim (Bool-cases (is_undefined requested)) [
  | inl e ↦ default-Granted id requested s (ok-eq (rw e at h))
  | inr e ↦ elim (Bool-cases (is_text "profile-default" requested)) [
    | inl f ↦ default-Granted id requested s (ok-eq (rw (e, f) at h))
    | inr f ↦ elim (Bool-cases (is_text "worktree" requested)) [
      | inl g ↦
          subst (Granted id requested) (ok-eq (rw (e, f, g) at h))
            (worktree-Granted id requested s g)
      | inr g ↦ elim (Bool-cases (is_text "shared-readonly" requested)) [
        | inr k ↦ absurd (cc (rw (e, f, g, k) at h))
        | inl k ↦
            elim (Bool-cases (is_worktree c.default_isolation && not c.allow_shared_override)) [
              | inl l ↦ absurd (cc (rw (e, f, g, k, l) at h))
              | inr l ↦
                  subst (Granted id requested) (ok-eq (rw (e, f, g, k, l) at h))
                    (shared-Granted id requested s l)
            ]
      ]
    ]
  ]
]

-- Let the id of a profile be none of the names that every object inherits. If a workflow's step is
-- given an isolation, then its profile is a shipped one: an implementer is given a worktree, and a
-- planner, reviewer, scout or test-runner the shared checkout or, only where a worktree was
-- requested, a worktree. So an id that is not shipped is refused whatever is requested.
pub resolve_workflow_isolation-Granted :
    (id : String) (requested : Value) {mode : Option ProductionIsolation}
    → includes object_members id ≡ false
    → resolve_workflow_isolation id requested ≡ ok mode
    → Granted id requested mode
unfolding resolve_workflow_isolation resolve_isolation
resolve_workflow_isolation-Granted id requested own h =
    elim (Bool-cases (is_text "reuse-worktree" requested)) [
      | inl e ↦
          let (c, at, run) = >>=-eq-ok (profile_contract id) _ (rw e at h) in
          default-Granted id requested (profile_contract-Shipped id own at) (ok-eq run)
      | inr e ↦
          let (c, at, run) = >>=-eq-ok (profile_contract id) _ (rw e at h) in
          resolve_by-Granted id c requested (profile_contract-Shipped id own at) run
    ]

-- The agent of the implementer profile works in a worktree whatever is requested, or the request is
-- refused.
resolve_workflow_isolation_implementer :
    (requested : Value)
    → (resolve_workflow_isolation "implementer" requested ≡ ok (some worktree))
      ⊎ ((x : IsolationError) × (resolve_workflow_isolation "implementer" requested ≡ err x))
unfolding resolve_workflow_isolation resolve_isolation resolve_by profile_contract
resolve_workflow_isolation_implementer requested = ground arith
