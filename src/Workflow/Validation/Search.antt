-- ===== src/Workflow/Validation/Search.antt =====
-- The depth-first search of `validateWorkflow` (src/scheduler/workflows.ts): what it finds, and that
-- its fuel is enough.
use my_shtty_pi_herdr_deck.Base.{
  ℕ, zero, suc, ◌<◌, ◌≤◌, String, true, false, not, List, [], ◌∷◌, Option, none, some, ◌≡◌, refl,
  subst, arith, every, includes, count, ok, err, >>=-eq-ok, >>=-eq-err, ◌==◌, eq_iff, eq_refl,
  Bool-cases, inl, inr,
}
use my_shtty_pi_herdr_deck.Workflow.Validation.{
  WorkflowStep, fuel_spent, Checked, visit_all, enter, visit, step_for,
}

-- Each key names a step, and what the step depends on stands later in the list.
abbrev pub Ordered : List WorkflowStep → List String → Type 0
Ordered steps [] = Unit
Ordered steps (key ∷ keys) =
    ((step : WorkflowStep) × (step_for steps key ≡ some step)
      × (every (λ needed. includes keys needed) step.depends_on ≡ true))
    × Ordered steps keys

-- The visited keys grow, and stay ordered.
pub record Grown (steps : List WorkflowStep) (visited later : List String) : Type 0 where
  pub ordered : Ordered steps later
  pub kept : (k : String) → includes visited k ≡ true → includes later k ≡ true

abbrev pub Visits : List WorkflowStep → (List String → String → Checked (List String)) → Type 0
Visits steps visit_one =
    (visited : List String) (key : String) (later : List String)
    → Ordered steps visited
    → visit_one visited key ≡ ok later
    → Grown steps visited later × (includes later key ≡ true)

pub visit_all-Grown :
    (steps : List WorkflowStep) (visit_one : List String → String → Checked (List String))
    → Visits steps visit_one
    → (visited keys : List String) {later : List String} → Ordered steps visited
    → visit_all visit_one visited keys ≡ ok later
    → Grown steps visited later × (every (λ k. includes later k) keys ≡ true)
unfolding visit_all
visit_all-Grown steps visit_one one visited [] {later} o h =
    let same : visited ≡ later = cc h in
    (
      record {
        ordered = subst (λ ks. Ordered steps ks) same o;
        kept = λ k at. subst (λ ks. includes ks k ≡ true) same at;
      },
      refl,
    )
visit_all-Grown steps visit_one one visited (key ∷ keys) {later} o h =
    let (middle, first, rest) = >>=-eq-ok (visit_one visited key) _ h in
    let (g, here) = one visited key middle o first in
    let (g', all) = visit_all-Grown steps visit_one one middle keys g.ordered rest in
    (
      record { ordered = g'.ordered; kept = λ k at. g'.kept k (g.kept k at) },
      rw (g'.kept key here) all,
    )

enter-Grown :
    (steps : List WorkflowStep) (visit_one : List String → String → Checked (List String))
    → Visits steps visit_one
    → (visited : List String) (key : String) (found : Option WorkflowStep) {later : List String}
    → step_for steps key ≡ found
    → Ordered steps visited
    → enter visit_one visited key found ≡ ok later
    → Grown steps visited later × (includes later key ≡ true)
unfolding enter
enter-Grown steps visit_one one visited key none at o h = absurd (cc h)
enter-Grown steps visit_one one visited key (some step) {later} at o h =
    let (below, run, end) = >>=-eq-ok (visit_all visit_one visited step.depends_on) _ h in
    let (g, all) = visit_all-Grown steps visit_one one visited step.depends_on o run in
    let same : (key ∷ below) ≡ later = cc end in
    subst (λ ks. Grown steps visited ks × (includes ks key ≡ true)) same
      (
        record {
          ordered = ((step, at, all), g.ordered);
          kept = λ k there. ground (arith, g.kept k there);
        },
        rw (eq_refl key) refl,
      )

pub visit-Grown :
    (n : ℕ) (steps : List WorkflowStep) (visiting visited : List String) (key : String)
    {later : List String}
    → Ordered steps visited
    → visit n steps visiting visited key ≡ ok later
    → Grown steps visited later × (includes later key ≡ true)
unfolding visit
visit-Grown zero steps visiting visited key o h = absurd (cc h)
visit-Grown (suc n) steps visiting visited key {later} o h =
    elim (Bool-cases (includes visiting key)) [
      | inl e ↦ absurd (cc (rw e at h))
      | inr e ↦ elim (Bool-cases (includes visited key)) [
        | inl f ↦
            let run : Path (Checked (List String)) (ok visited) (ok later) = rw (e, f) at h in
            let same : visited ≡ later = cc run in
            subst (λ ks. Grown steps visited ks × (includes ks key ≡ true)) same
              (record { ordered = o; kept = λ k at. at }, f)
        | inr f ↦
            enter-Grown steps (visit n steps (key ∷ visiting))
              (λ visited' key' later' o' h'.
                visit-Grown n steps (key ∷ visiting) visited' key' o' h')
              visited key (step_for steps key) refl o (rw (e, f) at h)
      ]
    ]

-- The steps that the search is not inside of.
abbrev pub outside : List WorkflowStep → List String → ℕ
outside steps visiting = count (λ step. not (includes visiting step.key)) steps

outside-le :
    (steps : List WorkflowStep) (visiting : List String) (key : String)
    → outside steps (key ∷ visiting) ≤ outside steps visiting
outside-le [] visiting key = omega arith
outside-le (step ∷ steps) visiting key = ground (arith, outside-le steps visiting key)

outside-lt :
    (steps : List WorkflowStep) (visiting : List String) (key : String) {step : WorkflowStep}
    → step_for steps key ≡ some step
    → includes visiting key ≡ false
    → outside steps (key ∷ visiting) < outside steps visiting
outside-lt [] visiting key h free = absurd (cc h)
outside-lt (step ∷ steps) visiting key h free = elim (Bool-cases (step.key == key)) [
  | inl e ↦
      let same : step.key ≡ key = (eq_iff step.key key).0 e in
      rw same (rw (eq_refl key, free) (omega (arith, outside-le steps visiting key)))
  | inr e ↦
      let rest = outside-lt steps visiting key (rw e at h) free in
      ground (arith, eq_iff step.key key, eq_iff key step.key, rest, outside-le steps visiting key)
]

pub visit_all-enough :
    (visit_one : List String → String → Checked (List String))
    → ((visited : List String) (key : String) → ¬ (visit_one visited key ≡ err fuel_spent))
    → (visited keys : List String) → ¬ (visit_all visit_one visited keys ≡ err fuel_spent)
unfolding visit_all
visit_all-enough visit_one enough visited [] h = cc h
visit_all-enough visit_one enough visited (key ∷ keys) h =
    elim (>>=-eq-err (visit_one visited key) _ h) [
      | inl here ↦ enough visited key here
      | inr (later, _, rest) ↦ visit_all-enough visit_one enough later keys rest
    ]

enter-enough :
    (visit_one : List String → String → Checked (List String))
    → (visited : List String) (key : String) (found : Option WorkflowStep)
    → ((step : WorkflowStep)
        → found ≡ some step
        → (visited' : List String) (key' : String) → ¬ (visit_one visited' key' ≡ err fuel_spent))
    → ¬ (enter visit_one visited key found ≡ err fuel_spent)
unfolding enter
enter-enough visit_one visited key none enough h = cc h
enter-enough visit_one visited key (some step) enough h =
    elim (>>=-eq-err (visit_all visit_one visited step.depends_on) _ h) [
      | inl here ↦ visit_all-enough visit_one (enough step refl) visited step.depends_on here
      | inr (later, _, rest) ↦ cc rest
    ]

-- The search does not run out of fuel if the fuel is more than the steps that it is outside of.
pub visit-enough :
    (n : ℕ) (steps : List WorkflowStep) (visiting visited : List String) (key : String)
    → outside steps visiting < n
    → ¬ (visit n steps visiting visited key ≡ err fuel_spent)
unfolding visit
visit-enough zero steps visiting visited key less h = absurd (omega (arith, less))
visit-enough (suc n) steps visiting visited key less h = elim (Bool-cases (includes visiting key)) [
  | inl e ↦ cc (rw e at h)
  | inr e ↦ elim (Bool-cases (includes visited key)) [
    | inl f ↦ cc (rw (e, f) at h)
    | inr f ↦
        enter-enough (visit n steps (key ∷ visiting)) visited key (step_for steps key)
          (λ step found visited' key'.
            visit-enough n steps (key ∷ visiting) visited' key'
              (let fewer = outside-lt steps visiting key found e in omega (arith, fewer, less)))
          (rw (e, f) at h)
  ]
]
