-- ===== src/State/Reducer/Metadata/Single.antt =====
-- The metadata that `herdr.metadata_projected` of src/state/reducer.ts leaves.
use my_shtty_pi_herdr_deck.Base.{
  String, Bool, true, false, not, ◌&&◌, [], ◌∷◌, Option, some, ◌≡◌, refl, sym, ap, ◌∙◌, subst,
  arith, ◌⊎◌, inl, inr, ◌==◌, eq_iff, ok, any, Bool-cases,
}
use my_shtty_pi_herdr_deck.Base.Dict.{Dict, lookup, insert, values, lookup-insert}
use my_shtty_pi_herdr_deck.State.Host.{Host}
use my_shtty_pi_herdr_deck.State.Types.{HerdrTaskMetadata, OrchestrationState}
use my_shtty_pi_herdr_deck.State.Event.{Event, OrchestratorError, throw_if}
use my_shtty_pi_herdr_deck.State.Reducer.OnOk.{
  OnOk, OnOk-elim, on_ok, on_err, on_need, on_bind, on_throw,
}
use my_shtty_pi_herdr_deck.State.Reducer.Metadata.{
  run_taken, correlated, changed, reduce_herdr_metadata_projected,
}

-- The event writes metadata under their id, with nothing else changed; the old ones there, if any,
-- and those of other runs allow it.
pub record IsProjection (s s' : OrchestrationState) : Type 0 where
  pub metadata : HerdrTaskMetadata
  pub written :
      s' ≡ record s { herdr_metadata = insert metadata.metadata_id metadata s.herdr_metadata }
  pub untaken : run_taken metadata (values s.herdr_metadata) ≡ false
  pub follows : changed metadata (lookup metadata.metadata_id s.herdr_metadata) ≡ false

last_throw : (bad : Bool) (error : OrchestratorError) → OnOk (λ _. bad ≡ false) (throw_if bad error)
unfolding throw_if
last_throw true error = on_err
last_throw false error = on_ok refl

correlated-untaken :
    (host : Host) (s : OrchestrationState) (e : Event) (m : HerdrTaskMetadata)
    → OnOk (λ _. run_taken m (values s.herdr_metadata) ≡ false) (correlated host s e m)
unfolding correlated
correlated-untaken host s e m = on_need _ _ _ λ workflow _. on_throw _ _ _ λ _.
    on_need _ _ _ λ task _. on_throw _ _ _ λ _. on_need _ _ _ λ run _. on_throw _ _ _ λ _.
      on_throw _ _ _
        λ _. on_need _ _ _ λ resource _. on_throw _ _ _ λ _. on_throw _ _ _ λ _. last_throw _ _

pub metadata_projected-IsProjection :
    (host : Host) (s : OrchestrationState) (e : Event)
    → OnOk (IsProjection s) (reduce_herdr_metadata_projected host s e)
unfolding reduce_herdr_metadata_projected
metadata_projected-IsProjection host s e = on_throw _ _ _ λ _. on_bind _ _ λ m _.
    on_bind _ _ λ _ passed. on_throw _ _ _ λ follows. on_ok (record {
      metadata = m;
      written = refl;
      untaken = OnOk-elim (correlated-untaken host s e m) passed;
      follows = follows;
    })

-- Metadata stand under their own ids, and no two of them are for the same run.
pub record IsSingle (table : Dict HerdrTaskMetadata) : Type 0 where
  pub own_id : (id : String) (m : HerdrTaskMetadata) → lookup id table ≡ some m → m.metadata_id ≡ id
  pub one :
      (id id' : String) (m m' : HerdrTaskMetadata)
      → lookup id table ≡ some m
      → lookup id' table ≡ some m'
      → m.run_id ≡ m'.run_id
      → id ≡ id'

any-none :
    (test : HerdrTaskMetadata → Bool) (table : Dict HerdrTaskMetadata) (id : String)
    {m : HerdrTaskMetadata}
    → any test (values table) ≡ false
    → lookup id table ≡ some m
    → test m ≡ false
unfolding lookup
any-none test [] id h at = cc at
any-none test ((other, v) ∷ rest) id {m} h at = elim (Bool-cases (test v)) [
  | inl e ↦ absurd (cc (rw e at h))
  | inr e ↦ elim (Bool-cases (other == id)) [
    | inl q ↦
        let same : Path (Option HerdrTaskMetadata) (some v) (some m) = rw q at at in
        ap test (sym (cc same)) ∙ e
    | inr q ↦ any-none test rest id (rw e at h) (rw q at at)
  ]
]

-- Metadata that stand under another id are for another run.
other_run :
    (m old : HerdrTaskMetadata) (table : Dict HerdrTaskMetadata) (id : String)
    → IsSingle table
    → run_taken m (values table) ≡ false
    → lookup id table ≡ some old
    → (m.metadata_id == id) ≡ false
    → old.run_id ≡ m.run_id
    → ⊥
other_run m old table id single untaken at apart same =
    let test =
      any-none (λ item. not (item.metadata_id == m.metadata_id) && item.run_id == m.run_id) table id
        untaken at in
    let own : old.metadata_id ≡ id = single.own_id id old at in
    ground (
      arith,
      test,
      apart,
      (eq_iff old.run_id m.run_id).1 same,
      eq_iff old.metadata_id m.metadata_id,
      eq_iff m.metadata_id id,
      own,
    )

insert-IsSingle :
    (m : HerdrTaskMetadata) (table : Dict HerdrTaskMetadata)
    → IsSingle table
    → run_taken m (values table) ≡ false
    → IsSingle (insert m.metadata_id m table)
insert-IsSingle m table single untaken = record { own_id = own; one = one }
  where
    found :
        (id : String) {v : HerdrTaskMetadata}
        → lookup id (insert m.metadata_id m table) ≡ some v
        → ((m.metadata_id ≡ id) × (m ≡ v))
          ⊎ (((m.metadata_id == id) ≡ false) × (lookup id table ≡ some v))
    found id {v} at = elim (Bool-cases (m.metadata_id == id)) [
      | inl e ↦
          let new : Path (Option HerdrTaskMetadata) (some m) (some v) =
            rw e at (sym (lookup-insert m.metadata_id id m table) ∙ at) in
          inl ((eq_iff m.metadata_id id).0 e, cc new)
      | inr e ↦ inr (e, rw e at (sym (lookup-insert m.metadata_id id m table) ∙ at))
    ]

    own :
        (id : String) (v : HerdrTaskMetadata)
        → lookup id (insert m.metadata_id m table) ≡ some v
        → v.metadata_id ≡ id
    own id v at = elim (found id at) [
      | inl (key, new) ↦ ap (λ n. n.metadata_id) (sym new) ∙ key
      | inr (_, old) ↦ single.own_id id v old
    ]

    one :
        (id id' : String) (v v' : HerdrTaskMetadata)
        → lookup id (insert m.metadata_id m table) ≡ some v
        → lookup id' (insert m.metadata_id m table) ≡ some v'
        → v.run_id ≡ v'.run_id
        → id ≡ id'
    one id id' v v' at at' same = elim (found id at) [
      | inl (key, new) ↦ elim (found id' at') [
        | inl (key', new') ↦ sym key ∙ key'
        | inr (apart, old') ↦ absurd (
            other_run m v' table id' single untaken old' apart
              (sym same ∙ ap (λ n. n.run_id) (sym new)))
      ]
      | inr (apart, old) ↦ elim (found id' at') [
        | inl (key', new') ↦
            absurd (
              other_run m v table id single untaken old apart
                (same ∙ ap (λ n. n.run_id) (sym new')))
        | inr (_, old') ↦ single.one id id' v v' old old' same
      ]
    ]

-- A projection of metadata that is accepted keeps them single: if they stood under their own ids,
-- with no two for the same run, then they still do.
pub metadata_projected-IsSingle :
    (host : Host) (s : OrchestrationState) (e : Event) {s' : OrchestrationState}
    → IsSingle s.herdr_metadata
    → reduce_herdr_metadata_projected host s e ≡ ok s'
    → IsSingle s'.herdr_metadata
metadata_projected-IsSingle host s e single h =
    let p = OnOk-elim (metadata_projected-IsProjection host s e) h in
    subst (λ table. IsSingle table) (sym (ap (λ t. t.herdr_metadata) p.written))
      (insert-IsSingle p.metadata s.herdr_metadata single p.untaken)
