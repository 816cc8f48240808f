-- ===== src/State/Reducer/OnOk.antt =====
-- Postconditions of code that may throw: what holds of the result, if there is one.
use my_shtty_pi_herdr_deck.Base.{
  String, Bool, true, false, Option, none, some, ◌≡◌, refl, subst, ok, err, arith, Option-cases,
  inl, inr,
}
use my_shtty_pi_herdr_deck.Base.Dict.{Dict, lookup}
use my_shtty_pi_herdr_deck.State.Reducer.Tasks.{unusable}
use my_shtty_pi_herdr_deck.State.Event.{OrchestratorError, Reduced, ◌>>=◌, throw_if, need}

pub data OnOk {ℓ κ} {A : Type ℓ} (P : A → Type κ) : Reduced A → Type (ℓ ⊔ κ) where
  on_ok : {a : A} → P a → OnOk P (ok a)
  on_err : {x : OrchestratorError} → OnOk P (err x)

module _ {ℓ κ μ} {A : Type ℓ} {B : Type μ} {P : B → Type κ} where
  pub on_need :
      (o : Option A) (x : OrchestratorError) (f : A → Reduced B)
      → ((a : A) → o ≡ some a → OnOk P (f a))
      → OnOk P (need o x >>= f)
  unfolding need ◌>>=◌
  on_need none x f h = on_err
  on_need (some a) x f h = h a refl

  pub on_bind :
      (m : Reduced A) (f : A → Reduced B) → ((a : A) → m ≡ ok a → OnOk P (f a)) → OnOk P (m >>= f)
  unfolding ◌>>=◌
  on_bind (ok a) f h = h a refl
  on_bind (err x) f h = on_err

pub on_throw {κ μ} :
    {B : Type μ} {P : B → Type κ} (b : Bool) (x : OrchestratorError) (f : Unit {0} → Reduced B)
    → (b ≡ false → OnOk P (f tt))
    → OnOk P (throw_if b x >>= f)
unfolding throw_if ◌>>=◌
on_throw true x f h = on_err
on_throw false x f h = h refl

pub OnOk-elim {ℓ κ} :
    {A : Type ℓ} {P : A → Type κ} {r : Reduced A} {a : A} → OnOk P r → r ≡ ok a → P a
OnOk-elim {P = P} (on_ok {a = b} p) e = subst P (cc e) p
OnOk-elim on_err e = cc

-- A sequence that succeeds went through its first part.
pub bind_ok {ℓ κ} :
    {A : Type ℓ} {B : Type κ} (first : Reduced A) (next : A → Reduced B) {result : B}
    → (first >>= next) ≡ ok result
    → (value : A) × (first ≡ ok value) × (next value ≡ ok result)
unfolding ◌>>=◌
bind_ok (err error) next run = cc
bind_ok (ok value) next run = (value, refl, run)

-- An id that a creation accepts is free.
pub fresh_of_usable {ℓ} :
    {V : Type ℓ} (id : String) (table : Dict V) → unusable id table ≡ false → lookup id table ≡ none
fresh_of_usable id table h = elim (Option-cases (lookup id table)) [
  | inl absent ↦ absent
  | inr (v, found) ↦ absurd (ground (arith, found))
]

-- A weaker postcondition.
pub OnOk-map {ℓ κ μ} :
    {A : Type ℓ} {P : A → Type κ} {Q : A → Type μ} {r : Reduced A}
    → ((a : A) → P a → Q a)
    → OnOk P r
    → OnOk Q r
OnOk-map f (on_ok {a = a} p) = on_ok (f a p)
OnOk-map f on_err = on_err
