-- ===== src/Shared/Ids/Increase.antt =====
-- The ids of src/shared/ids.ts that are made one after another.
use my_shtty_pi_herdr_deck.Base.{
  ℕ, suc, ◌+◌, ◌*◌, ◌<◌, max, Bool, true, false, not, ◌||◌, ltb, List, [], ◌∷◌, ◌≡◌, refl, arith,
  ◌⊎◌, inl, inr, eqb, any, All, All-map, Bool-cases,
}
use my_shtty_pi_herdr_deck.Shared.Ids.{
  digits, encode_random, Generator, increment, is_empty, advance,
}

-- The number that the places stand for, the last one first.
abbrev pub value : List ℕ → ℕ
value [] = 0
value (d ∷ ds) = d + 32 * value ds

-- Some character is not the last letter of the alphabet.
abbrev pub has_room : List ℕ → Bool
has_room ds = any (λ d. not (eqb d 31)) ds

value-increment : (ds : List ℕ) → has_room ds ≡ true → value (increment ds) ≡ suc (value ds)
unfolding increment
value-increment [] h = cc h
value-increment (d ∷ ds) h = elim (Bool-cases (eqb d 31)) [
  | inl e ↦ ground (arith, e, value-increment ds (ground (arith, e, h)))
  | inr e ↦ ground (arith, e)
]

-- The time is later, or it is the same and the random part is larger.
abbrev pub Later : Generator → Generator → Type 0
Later g g' =
    (g.last_time < g'.last_time)
    ⊎ ((g'.last_time ≡ g.last_time) × (value g.last_random < value g'.last_random))

Later-trans : (a b c : Generator) → Later a b → Later b c → Later a c
Later-trans a b c (inl p) (inl q) = inl (omega arith)
Later-trans a b c (inl p) (inr q) = inl (omega (arith, q.0))
Later-trans a b c (inr p) (inl q) = inl (omega (arith, p.0))
Later-trans a b c (inr p) (inr q) = inr (omega (arith, p.0, q.0), omega (arith, p.1, q.1))

advance-Later :
    (g : Generator) (now : ℕ) (bytes : List ℕ)
    → is_empty g.last_random ≡ false
    → (ltb g.last_time now || has_room g.last_random) ≡ true
    → Later g (advance g now bytes)
unfolding advance
advance-Later g now bytes full room = elim (Bool-cases (eqb (max now g.last_time) g.last_time)) [
  | inl e ↦
      let counts : has_room g.last_random ≡ true = ground (arith, e, room) in
      rw (e, full) (inr (ground (arith, e), omega (arith, value-increment g.last_random counts)))
  | inr e ↦ inl (ground (arith, e))
]

is_empty-increment : (ds : List ℕ) → is_empty ds ≡ false → is_empty (increment ds) ≡ false
unfolding increment
is_empty-increment [] h = h
is_empty-increment (d ∷ ds) h = ground arith

is_empty-advance :
    (g : Generator) (now : ℕ) (bytes : List ℕ)
    → is_empty g.last_random ≡ false
    → is_empty (advance g now bytes).last_random ≡ false
unfolding advance encode_random digits
is_empty-advance g now bytes full = elim (Bool-cases (eqb (max now g.last_time) g.last_time)) [
  | inl e ↦ rw (e, full) (is_empty-increment g.last_random full)
  | inr e ↦ rw e refl
]

-- What a call is made with: the clock, and the random bytes.
pub record Draw : Type 0 where
  pub now : ℕ
  pub bytes : List ℕ

-- The generator after each of some calls.
unfoldable pub draw_all : Generator → List Draw → List Generator
unfolding advance
draw_all g [] = []
draw_all g (d ∷ ds) = advance g d.now d.bytes ∷ draw_all (advance g d.now d.bytes) ds

-- Each generator is later than all before it.
abbrev pub Increasing : Generator → List Generator → Type 0
Increasing g [] = Unit
Increasing g (g' ∷ gs) = All (Later g) (g' ∷ gs) × Increasing g' gs

All-Later :
    (g g' : Generator) (gs : List Generator) → Later g g' → Increasing g' gs → All (Later g) gs
All-Later g g' [] first rest = tt
All-Later g g' (x ∷ gs) first rest =
    All-map (Later g') (Later g) (x ∷ gs) (λ y q. Later-trans g g' y first q) rest.0

-- At each draw, the clock is later than the last time or the last random part, which is then counted
-- on from, has room.
abbrev pub HasRoom : Generator → List Draw → Type 0
HasRoom g [] = Unit
HasRoom g (d ∷ ds) =
    ((ltb g.last_time d.now || has_room g.last_random) ≡ true)
    × HasRoom (advance g d.now d.bytes) ds

-- The ids that one generator gives after its first increase strictly, whatever the clock does: each
-- has a later time than any before it, or the same time and a larger random part. This needs that
-- no random part that is counted on from consists of the last letter only; the part of a call that a
-- later time follows, or no call, may.
pub draw_all-Increasing :
    (g : Generator) (ds : List Draw)
    → is_empty g.last_random ≡ false
    → HasRoom g ds
    → Increasing g (draw_all g ds)
unfolding draw_all
draw_all-Increasing g [] full room = tt
draw_all-Increasing g (d ∷ ds) full room =
    let next = advance g d.now d.bytes in
    let first = advance-Later g d.now d.bytes full room.0 in
    let rest = draw_all-Increasing next ds (is_empty-advance g d.now d.bytes full) room.1 in
    ((first, All-Later g next (draw_all next ds) first rest), rest)
