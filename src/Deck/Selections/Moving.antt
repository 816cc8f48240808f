-- ===== src/Deck/Selections/Moving.antt =====
-- Moving through the list of agents of src/deck/selections.ts.
use my_shtty_pi_herdr_deck.Base.{
  ℕ, zero, suc, ◌+◌, ◌-◌, ◌*◌, ◌/◌, ◌<◌, min, String, false, List, [], ◌∷◌, Option, some, ◌≡◌, refl,
  sym, ap, ◌∙◌, subst, arith, ◌⊎◌, inl, inr, ◌==◌, eq_iff, find, length, All, Bool-cases,
}
use my_shtty_pi_herdr_deck.Base.Int.{ℤ, pos, pos_part}
use my_shtty_pi_herdr_deck.State.Types.{Agent}
use my_shtty_pi_herdr_deck.State.Reducer.Tasks.{nonempty}
use my_shtty_pi_herdr_deck.Retention.Plan.{drop}
use my_shtty_pi_herdr_deck.Deck.Selections.{
  nth, take, effective_ordered_selection, AgentListPresentation, page_count_of, present, id_of,
  moved_index, move_agent_list_selection,
}

module _ {A : Type 0} where
  nth_within : (n : ℕ) (xs : List A) → n < length xs → (x : A) × (nth n xs ≡ some x)
  nth_within n [] h = absurd (omega (arith, h))
  nth_within zero (x ∷ xs) h = (x, refl)
  nth_within (suc n) (x ∷ xs) h = nth_within n xs (omega (arith, h))

  nth-drop : (n k i : ℕ) (xs : List A) → i ≡ n + k → nth k (drop n xs) ≡ nth i xs
  nth-drop zero k i xs e = let same : k ≡ i = omega (arith, e) in ap (λ j. nth j xs) same
  nth-drop (suc n) k i [] e = refl
  nth-drop (suc n) k zero (x ∷ xs) e = absurd (omega (arith, e))
  nth-drop (suc n) k (suc i) (x ∷ xs) e = nth-drop n k i xs (omega (arith, e))

  nth-take : (n k : ℕ) (xs : List A) → k < n → nth k (take n xs) ≡ nth k xs
  nth-take zero k xs h = absurd (omega (arith, h))
  nth-take (suc n) k [] h = refl
  nth-take (suc n) zero (x ∷ xs) h = refl
  nth-take (suc n) (suc k) (x ∷ xs) h = nth-take n k xs (omega (arith, h))

  All-nth : (P : A → Type 0) (n : ℕ) (xs : List A) {x : A} → All P xs → nth n xs ≡ some x → P x
  All-nth P n [] h e = absurd (cc e)
  All-nth P zero (y ∷ ys) {x} h e =
      let same : Path (Option A) (some y) (some x) = e in subst P (cc same) h.0
  All-nth P (suc n) (y ∷ ys) h e = All-nth P n ys h.1 e

  -- The search finds an item of the id that a place has.
  find-nth :
      (id : A → String) (k : ℕ) (xs : List A) {x : A}
      → nth k xs ≡ some x
      → (y : A) × (find (λ item. id item == id x) xs ≡ some y) × (id y ≡ id x)
  find-nth id k [] {x} h = absurd (cc h)
  find-nth id zero (y ∷ ys) {x} h =
      let same : Path (Option A) (some y) (some x) = h in
      let one : id y ≡ id x = ap id (cc same) in (y, rw ((eq_iff (id y) (id x)).1 one) refl, one)
  find-nth id (suc k) (y ∷ ys) {x} h = elim (Bool-cases (id y == id x)) [
    | inl e ↦ (y, rw e refl, (eq_iff (id y) (id x)).0 e)
    | inr e ↦ let (z, found, one) = find-nth id k ys h in (z, rw e found, one)
  ]

-- The page of a place shows the item of that place.
on_page :
    (i : ℕ) (matching : List Agent)
    → i < length matching
    → (k : ℕ) × (nth k (
          take 12 (
            drop
              (min (pos_part (pos (i / 12))) (page_count_of (length matching) 12 - 1) * 12)
              matching))
        ≡ nth i matching)
on_page i matching h =
    let page = min (i / 12) (page_count_of (length matching) 12 - 1) in
    let same : page ≡ i / 12 = ground (arith, h) in
    let start : i ≡ page * 12 + (i - page * 12) = omega (arith, same) in
    (
      i - page * 12,
      nth-take 12 (i - page * 12) (drop (page * 12) matching) (omega (arith, same))
          ∙ nth-drop (page * 12) (i - page * 12) i matching start,
    )

nonempty-id : (id : String) → (id == "") ≡ false → nonempty (some id) ≡ some id
nonempty-id id h = rw h refl

-- An agent that stands on a page is selected by its id.
selected_by_id :
    (visible : List Agent) (k : ℕ) {a : Agent}
    → nth k visible ≡ some a
    → (a.id == "") ≡ false
    → id_of (effective_ordered_selection (λ b. b.id) visible (some a.id)) ≡ some a.id
unfolding effective_ordered_selection
selected_by_id visible k {a} at named =
    let (b, found, same) = find-nth (λ b. b.id) k visible at in
    rw (nonempty-id a.id named, found) (ap some same)

List-cases : {A : Type 0} (xs : List A) → (xs ≡ []) ⊎ ((x : A) × (ys : List A) × (xs ≡ x ∷ ys))
List-cases [] = inl refl
List-cases (x ∷ xs) = inr (x, xs, refl)

move_somewhere :
    (p : AgentListPresentation) (delta : ℤ) (size : ℕ)
    → 0 < length p.matching
    → move_agent_list_selection p delta size
      ≡ (id_of (nth (moved_index p delta) p.matching), moved_index p delta / size)
unfolding move_agent_list_selection
move_somewhere p delta size some_match = elim (List-cases p.matching) [
  | inl e ↦ absurd (ground (arith, rw e at some_match))
  | inr (x, xs, e) ↦ rw e refl
]

-- After a move in the list of agents, the page that the move gives shows the agent that it selects,
-- and that is the agent of the new place: the list, the current place and the step decide it. The
-- list is not empty, no id is empty, and a page has twelve entries.
pub present-move :
    (p : AgentListPresentation) (delta : ℤ)
    → 0 < length p.matching
    → All (λ a. (a.id == "") ≡ false) p.matching
    → (a : Agent) × (nth (moved_index p delta) p.matching ≡ some a)
      × ((move_agent_list_selection p delta 12).0 ≡ some a.id)
      × (id_of
            (present p.matching
              (pos (move_agent_list_selection p delta 12).1)
              (move_agent_list_selection p delta 12).0
              12).selected
          ≡ some a.id)
unfolding present
present-move p delta some_match named =
    let i = moved_index p delta in
    let inside : i < length p.matching = omega (arith, some_match) in
    let (a, at) = nth_within i p.matching inside in
    let (k, shown) = on_page i p.matching inside in
    let moved : move_agent_list_selection p delta 12 ≡ (some a.id, i / 12) =
      move_somewhere p delta 12 some_match ∙ ap (λ o. (id_of o, i / 12)) at in
    (
      a,
      at,
      ap (λ m. m.0) moved,
      subst (λ m. id_of (present p.matching (pos m.1) m.0 12).selected ≡ some a.id) (sym moved)
          (selected_by_id
            (take 12 (
              drop (min (pos_part (pos (i / 12))) (page_count_of (length p.matching) 12 - 1) * 12)
                p.matching))
            k (shown ∙ at) (All-nth (λ b. (b.id == "") ≡ false) i p.matching named at)),
    )
