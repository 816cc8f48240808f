-- ===== src/Base/Results.antt =====
-- Code that throws: a value or the error, with `do`.

use mathlib.Core.Path.{◌≡◌, refl}
use mathlib.Core.Logic.{◌⊎◌, inl, inr}
use mathlib.Core.Bool.{Bool, true, false}

pub data Result {ℓ κ} (E : Type ℓ) (A : Type κ) : Type (ℓ ⊔ κ) where
  ok : A → Result E A
  err : E → Result E A

-- `if (bad) throw error;`
abbrev pub throw_if {ℓ} : {E : Type ℓ} → Bool → E → Result E (Unit {0})
throw_if false thrown = ok tt
throw_if true thrown = err thrown

module _ {ℓ κ} {E : Type ℓ} {B : Type κ} where
  infixl 5 ◌>>=◌ ◌>>◌
  abbrev pub ◌>>=◌ {μ} : {A : Type μ} → Result E A → (A → Result E B) → Result E B
  err thrown >>= next = err thrown
  ok value >>= next = next value

  -- The next statement, after one without a value.
  abbrev pub ◌>>◌ : Result E (Unit {0}) → Result E B → Result E B
  first >> next = first >>= λ _. next

-- What succeeds has a first part that succeeds.
pub >>=-eq-ok {ℓ κ μ} :
    {E : Type ℓ} {A : Type κ} {B : Type μ} (first : Result E A) (next : A → Result E B) {result : B}
    → (first >>= next) ≡ ok result
    → (value : A) × (first ≡ ok value) × (next value ≡ ok result)
>>=-eq-ok (err thrown) next run = cc
>>=-eq-ok (ok value) next run = (value, refl, run)

-- What fails does so in its first part or in its second.
pub >>=-eq-err {ℓ κ μ} :
    {E : Type ℓ} {A : Type κ} {B : Type μ} (first : Result E A) (next : A → Result E B) {thrown : E}
    → (first >>= next) ≡ err thrown
    → (first ≡ err thrown) ⊎ ((value : A) × (first ≡ ok value) × (next value ≡ err thrown))
>>=-eq-err (err other) next run = inl (cc run)
>>=-eq-err (ok value) next run = inr (value, refl, run)
