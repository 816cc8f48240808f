-- ===== src/Base/Dict.antt =====
-- A JavaScript `Map` or plain object with text keys, as an association list in the order of
-- insertion. Writing a present key keeps its place, and a new key goes to the end.

use Prim.Native.String.{String}
use mathlib.Core.Path.{◌≡◌, refl, sym, subst}
use mathlib.Core.Logic.{inl, inr}
use mathlib.Core.Option.{Option, none, some}
use mathlib.Core.List.{List, [], ◌∷◌}
use native.Mathlib.Omega.{arith}
use text.Mathlib.Text.{◌==◌}
use text.Mathlib.TextEquality.{eq_iff}
use text.Mathlib.TextPositions.{eq_refl}
use my_shtty_pi_herdr_deck.Base.Tests.{if◌then◌else◌, Bool-cases}

abbrev pub Dict {ℓ} : Type ℓ → Type ℓ
Dict V = List (String × V)

module _ {ℓ} {V : Type ℓ} where
  -- The values, in the order of the keys.
  abbrev pub values : Dict V → List V
  values [] = []
  values ((key, value) ∷ rest) = value ∷ values rest

  unfoldable pub insert : String → V → Dict V → Dict V
  insert key value [] = (key, value) ∷ []
  insert key value ((other, old) ∷ rest) =
      if other == key then (other, value) ∷ rest else (other, old) ∷ insert key value rest

  unfoldable pub lookup : String → Dict V → Option V
  lookup key [] = none
  lookup key ((other, value) ∷ rest) = if other == key then some value else lookup key rest

  -- What is found after an assignment.
  pub lookup-insert :
      (key sought : String) (value : V) (object : Dict V)
      → lookup sought (insert key value object)
        ≡ (if key == sought then some value else lookup sought object)
  unfolding insert lookup
  lookup-insert key sought value [] = refl
  lookup-insert key sought value ((other, old) ∷ rest) = ground (
    arith,
    lookup-insert key sought value rest,
    eq_iff other sought,
    eq_iff other key,
    eq_iff key sought,
  )

  pub lookup-insert_self :
      (key : String) (value : V) (object : Dict V)
      → lookup key (insert key value object) ≡ some value
  lookup-insert_self key value object = simp (eq_refl, lookup-insert)

  -- Every entry, with its key.
  abbrev pub Entries {κ} : (String → V → Type κ) → Dict V → Type κ
  Entries P [] = Unit
  Entries P ((j, v) ∷ m) = P j v × Entries P m

  pub Entries-insert {κ} :
      (P : String → V → Type κ) (k : String) (v : V) (m : Dict V)
      → Entries P m
      → P k v
      → Entries P (insert k v m)
  unfolding insert
  Entries-insert P k v [] h p = (p, tt)
  Entries-insert P k v ((j, w) ∷ m) h p = elim (Bool-cases (j == k)) [
    | inl e ↦ rw e (subst (λ i. P i v) (sym ((eq_iff j k).0 e)) p, h.1)
    | inr e ↦ rw e (h.0, Entries-insert P k v m h.1 p)
  ]

  pub Entries-lookup {κ} :
      (P : String → V → Type κ) (k : String) (m : Dict V) {v : V}
      → Entries P m
      → lookup k m ≡ some v
      → P k v
  unfolding lookup
  Entries-lookup P k [] h e = cc
  Entries-lookup P k ((j, w) ∷ m) {v} h e = elim (Bool-cases (j == k)) [
    | inl q ↦
        let same : Path (Option V) (some w) (some v) = rw q at e in
        let found : w ≡ v = cc same in
        subst (λ u. P k u) found (subst (λ i. P i w) ((eq_iff j k).0 q) h.0)
    | inr q ↦ Entries-lookup P k m h.1 (rw q at e)
  ]
