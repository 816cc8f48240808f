-- ===== src/State/Invariants/Sound.antt =====
-- What `assertInvariants` of src/state/invariants.ts accepts.
use my_shtty_pi_herdr_deck.Base.{
  String, true, false, List, [], ◌∷◌, Option, none, some, ◌==◌, ok, includes, is_some, ◌≡◌, refl,
  sym, ◌∙◌, ap, subst, arith, eq_iff, Bool-cases, Option-cases, inl, inr, ◌↔◌, ◌⊎◌,
}
use my_shtty_pi_herdr_deck.Base.Dict.{Dict, lookup, values, Entries}
use my_shtty_pi_herdr_deck.State.Types.{Task, Run, OrchestrationState}
use my_shtty_pi_herdr_deck.State.Event.{◌>>=◌, throw_if}
use my_shtty_pi_herdr_deck.State.Reducer.OnOk.{bind_ok}
use my_shtty_pi_herdr_deck.State.Consistent.{IsConsistent, TaskOk, Linked, Owned}
use my_shtty_pi_herdr_deck.State.Invariants.{
  occupied, claim_agent, check_runs, dangling, check_tasks, assert_invariants,
}
use my_shtty_pi_herdr_deck.State.Reducer.Tasks.{nonempty}

-- No agent of the list is one of those that are busy before, or occupied twice.
abbrev pub Busy : List Run → String → Type 0
Busy [] a = ⊥
Busy (r ∷ rs) a = (occupied r ≡ some a) ⊎ Busy rs a

-- No two runs of the list that are not over name one agent.
abbrev pub Exclusive : List Run → Type 0
Exclusive [] = Unit
Exclusive (r ∷ rs) = ((a : String) → occupied r ≡ some a → ¬ Busy rs a) × Exclusive rs

-- The first loop succeeds exactly if no run meets a busy agent.
claim_ok :
    (active : List String) (found : Option String) {out : List String}
    → claim_agent active found ≡ ok out
    → ((found ≡ none) × (out ≡ active))
      ⊎ ((a : String) × (found ≡ some a) × (includes active a ≡ false) × (out ≡ a ∷ active))
unfolding claim_agent
claim_ok active none h = inl (refl, cc)
claim_ok active (some a) h = elim (Bool-cases (includes active a)) [
  | inl e ↦ absurd (ground arith)
  | inr e ↦ inr (a, refl, e, ground arith)
]

abbrev Fresh : List String → List Run → Type 0
Fresh active rs = (a : String) → includes active a ≡ true → ¬ Busy rs a

first_busy :
    (active next : List String) (a b : String) → next ≡ b ∷ active → b ≡ a → includes next a ≡ true
first_busy active next a b same one = ground (arith, eq_iff b a)

later_busy :
    (active next : List String) (a b : String)
    → next ≡ b ∷ active
    → includes active a ≡ true
    → includes next a ≡ true
later_busy active next a b same busy = ground (arith, eq_iff b a)

check_runs-Exclusive :
    (active : List String) (rs : List Run) {out : List String}
    → check_runs active rs ≡ ok out
    → Exclusive rs × Fresh active rs
unfolding check_runs
check_runs-Exclusive active [] h = (tt, λ a _ b. b)
check_runs-Exclusive active (r ∷ rs) h =
    let (next, claimed, rest) = bind_ok (claim_agent active (occupied r)) _ h in
    let (exclusive, fresh) = check_runs-Exclusive next rs rest in
    elim (claim_ok active (occupied r) claimed) [
      | inl (idle, same) ↦ (
        ((λ a e. absurd (cc (idle, e))), exclusive),
        λ a busy. elim [
          | inl e ↦ absurd (cc (idle, e))
          | inr later ↦ fresh a (subst (λ l. includes l a ≡ true) (sym same) busy) later
        ],
      )
      | inr (b, named, unclaimed, same) ↦ (
        ((λ a e. fresh a (first_busy active next a b same (cc (named, e)))), exclusive),
        λ a busy. elim [
          | inl e ↦ let one : b ≡ a = cc (named, e) in absurd (ground (arith, busy, unclaimed, one))
          | inr later ↦ fresh a (later_busy active next a b same busy) later
        ],
      )
    ]

check_runs-ok :
    (active : List String) (rs : List Run)
    → Exclusive rs
    → Fresh active rs
    → (out : List String) × (check_runs active rs ≡ ok out)
unfolding check_runs claim_agent ◌>>=◌
check_runs-ok active [] x f = (active, refl)
check_runs-ok active (r ∷ rs) x f = elim (Option-cases (occupied r)) [
  | inl idle ↦
      let (out, done) = check_runs-ok active rs x.1 (λ a busy later. f a busy (inr later)) in
      (out, rw (idle, claim_agent) done)
  | inr (a, named) ↦ elim (Bool-cases (includes active a)) [
    | inl busy ↦ absurd (f a busy (inl named))
    | inr free ↦
        let (out, done) = check_runs-ok (a ∷ active) rs x.1 (λ b busy later.
          elim (Bool-cases (a == b)) [
            | inl e ↦ x.0 b (named ∙ ap some ((eq_iff a b).0 e)) later
            | inr e ↦ f b (rw e at busy) (inr later)
          ]) in
        (out, rw (named, claim_agent) (rw free done))
  ]
]

linked_in :
    (runs : Dict Run) (id task_id : String)
    → Owned runs id task_id
    → is_some (lookup id runs) ≡ true
linked_in runs id task_id (run, at, of) = rw at

check_tasks-ok :
    (runs : Dict Run) (tasks : Dict Task)
    → Entries (TaskOk runs) tasks
    → check_tasks runs (values tasks) ≡ ok tt
unfolding check_tasks ◌>>=◌ throw_if
check_tasks-ok runs [] h = refl
check_tasks-ok runs ((id, t) ∷ tasks) h =
    rw (not_dangling t.id t.current_run_id h.0.1) (check_tasks-ok runs tasks h.1)
  where
    not_dangling :
        (task_id : String) (current : Option String)
        → Linked runs task_id current
        → dangling runs (nonempty current) ≡ false
    not_dangling task_id none l = refl
    not_dangling task_id (some r) l = elim (Bool-cases (r == "")) [
      | inl e ↦ rw e
      | inr e ↦ rw e (rw (linked_in runs r task_id l))
    ]

-- On a state whose tasks and runs are consistent, `assertInvariants` accepts exactly when no two
-- runs that are not over name the same agent.
pub assert_invariants_iff :
    (s : OrchestrationState)
    → IsConsistent s.tasks s.runs
    → (assert_invariants s ≡ ok tt) ↔ Exclusive (values s.runs)
unfolding assert_invariants ◌>>=◌
assert_invariants_iff s c = (
  λ h.
      let (_, ran, _) = bind_ok (check_runs [] (values s.runs)) _ h in
      (check_runs-Exclusive [] (values s.runs) ran).0,
  λ x. let (out, ran) = check_runs-ok [] (values s.runs) x (λ a none_busy. cc) in accepted out ran,
)
  where
    accepted :
        (out : List String)
        → check_runs [] (values s.runs) ≡ ok out
        → (check_runs [] (values s.runs) >>= λ _. check_tasks s.runs (values s.tasks)) ≡ ok tt
    accepted out ran = rw ran (check_tasks-ok s.runs s.tasks c.tasks_ok)
