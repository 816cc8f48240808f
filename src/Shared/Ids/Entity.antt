-- ===== src/Shared/Ids/Entity.antt =====
-- `isEntityId` of src/shared/ids.ts on the ids that `createId` makes.
use my_shtty_pi_herdr_deck.Base.{
  ℕ, zero, suc, ◌/◌, ◌<◌, max, Bool, true, not, ◌&&◌, List, [], ◌∷◌, ◌++◌, map, some, ◌≡◌, refl,
  sym, ap, ◌∙◌, subst, arith, ◌⊎◌, inl, inr, eqb, every, any, length, length-append, All, Among,
  Bool-cases,
}
use my_shtty_pi_herdr_deck.Base.Text.{codes}
use my_shtty_pi_herdr_deck.Shared.Ids.{
  EntityKind, orc, agt, tsk, run, wfl, grp, asg, qst, res, rvc, art, evt, prn, idem, kind_text,
  alphabet, digits, bytes_value, encode_random, Generator, increment, is_empty, advance, backwards,
  digit_text, id_text, create_id, is_entity_char, strip, has_kind, kinds, is_entity_id,
}

-- Places of the alphabet, so many.
abbrev pub Places : ℕ → List ℕ → Type 0
Places n ds = All (λ d. d < 32) ds × (length ds ≡ n)

-- The random part is empty or has 16 places.
abbrev pub IsWhole : Generator → Type 0
IsWhole g = (g.last_random ≡ []) ⊎ Places 16 g.last_random

digits-Places : (n value : ℕ) → Places n (digits n value)
unfolding digits
digits-Places zero value = (tt, refl)
digits-Places (suc n) value =
    let rest = digits-Places n (value / 32) in ((omega arith, rest.0), omega (arith, rest.1))

increment-Places : (n : ℕ) (ds : List ℕ) → Places n ds → Places n (increment ds)
unfolding increment
increment-Places n [] p = p
increment-Places n (d ∷ ds) p = elim (Bool-cases (eqb d 31)) [
  | inl e ↦
      let rest = increment-Places (length ds) ds (p.0.1, refl) in
      rw e ((omega arith, rest.0), omega (arith, rest.1, p.1))
  | inr e ↦ rw e ((ground (arith, e, p.0.0), p.0.1), p.1)
]

advance-Places :
    (g : Generator) (now : ℕ) (bytes : List ℕ)
    → IsWhole g
    → Places 16 (advance g now bytes).last_random
unfolding advance encode_random
advance-Places g now bytes whole =
    elim (Bool-cases (eqb (max now g.last_time) g.last_time && not (is_empty g.last_random))) [
      | inr e ↦ rw e (digits-Places 16 (bytes_value 0 bytes))
      | inl e ↦ elim whole [
        | inl empty ↦ absurd (ground (arith, rw empty at e))
        | inr places ↦ rw e (increment-Places 16 g.last_random places)
      ]
    ]

alphabet_known : (d : ℕ) → d < 32 → is_entity_char (alphabet d) ≡ true
alphabet_known d h = ground (arith, h)

every-append :
    (test : ℕ → Bool) (xs ys : List ℕ)
    → every test xs ≡ true
    → every test ys ≡ true
    → every test (xs ++ ys) ≡ true
every-append test [] ys h k = k
every-append test (x ∷ xs) ys h k =
    ground (arith, h, k, every-append test xs ys (ground (arith, h)) k)

map-append : (f : ℕ → ℕ) (xs ys : List ℕ) → map f (xs ++ ys) ≡ map f xs ++ map f ys
map-append f [] ys = refl
map-append f (x ∷ xs) ys = rw (map-append f xs ys) refl

digit_text-known :
    (ds : List ℕ) → All (λ d. d < 32) ds → every is_entity_char (digit_text ds) ≡ true
digit_text-known [] h = refl
digit_text-known (d ∷ ds) h = rw (map-append alphabet (backwards ds) (d ∷ [])) (
    every-append is_entity_char (digit_text ds) (alphabet d ∷ []) (digit_text-known ds h.1)
      (rw (alphabet_known d h.0) refl))

length-digit_text : (ds : List ℕ) → length (digit_text ds) ≡ length ds
length-digit_text [] = refl
length-digit_text (d ∷ ds) =
    rw (map-append alphabet (backwards ds) (d ∷ []))
      (omega (arith, length-append (digit_text ds) (alphabet d ∷ []), length-digit_text ds))

strip-append : (prefix text : List ℕ) → strip prefix (prefix ++ text) ≡ some text
strip-append [] text = refl
strip-append (p ∷ prefix) text = ground (arith, strip-append prefix text)

snoc-append : (xs : List ℕ) (c : ℕ) (text : List ℕ) → (xs ++ (c ∷ [])) ++ text ≡ xs ++ (c ∷ text)
snoc-append [] c text = refl
snoc-append (x ∷ xs) c text = rw (snoc-append xs c text) refl

kind_known : (kind : EntityKind) → Among kind kinds
kind_known orc = inl refl
kind_known agt = inr (inl refl)
kind_known tsk = inr (inr (inl refl))
kind_known run = inr (inr (inr (inl refl)))
kind_known wfl = inr (inr (inr (inr (inl refl))))
kind_known grp = inr (inr (inr (inr (inr (inl refl)))))
kind_known asg = inr (inr (inr (inr (inr (inr (inl refl))))))
kind_known qst = inr (inr (inr (inr (inr (inr (inr (inl refl)))))))
kind_known res = inr (inr (inr (inr (inr (inr (inr (inr (inl refl))))))))
kind_known rvc = inr (inr (inr (inr (inr (inr (inr (inr (inr (inl refl)))))))))
kind_known art = inr (inr (inr (inr (inr (inr (inr (inr (inr (inr (inl refl))))))))))
kind_known evt = inr (inr (inr (inr (inr (inr (inr (inr (inr (inr (inr (inl refl)))))))))))
kind_known prn = inr (inr (inr (inr (inr (inr (inr (inr (inr (inr (inr (inr (inl refl))))))))))))
kind_known idem =
    inr (inr (inr (inr (inr (inr (inr (inr (inr (inr (inr (inr (inr (inl refl)))))))))))))

any-Among :
    {A : Type 0} (test : A → Bool) (x : A) (xs : List A)
    → Among x xs
    → test x ≡ true
    → any test xs ≡ true
any-Among test x [] m h = absurd m
any-Among test x (y ∷ ys) (inl same) h =
    let here : test y ≡ true = ap test (sym same) ∙ h in rw here refl
any-Among test x (y ∷ ys) (inr m) h = ground (arith, any-Among test x ys m h)

-- The text after the kind of an id that is made.
abbrev tail : Generator → List ℕ
tail g = digit_text (digits 10 g.last_time) ++ digit_text g.last_random

tail_known :
    (g : Generator)
    → Places 16 g.last_random
    → eqb (length (tail g)) 26 && every is_entity_char (tail g) ≡ true
tail_known g places =
    let time = digits-Places 10 g.last_time in
    let size : length (tail g) ≡ 26 = omega (
      arith,
      length-append (digit_text (digits 10 g.last_time)) (digit_text g.last_random),
      length-digit_text (digits 10 g.last_time),
      length-digit_text g.last_random,
      time.1,
      places.1,
    ) in
    rw size (
      every-append is_entity_char (digit_text (digits 10 g.last_time)) (digit_text g.last_random)
        (digit_text-known (digits 10 g.last_time) time.0) (digit_text-known g.last_random places.0))

-- Every id that `createId` makes passes `isEntityId` with its kind, and the generator that it
-- leaves is whole again, whatever the clock and the random bytes are.
pub is_entity_id-create_id :
    (kind : EntityKind) (g : Generator) (now : ℕ) (bytes : List ℕ)
    → IsWhole g
    → (is_entity_id (create_id kind g now bytes).1 (some kind) ≡ true)
      × IsWhole (create_id kind g now bytes).0
unfolding create_id is_entity_id
is_entity_id-create_id kind g now bytes whole =
    let next = advance g now bytes in
    let places = advance-Places g now bytes whole in
    let stripped : strip (codes (kind_text kind) ++ (b'_' ∷ [])) (id_text kind next)
        ≡ some (tail next) =
      subst (λ text. strip (codes (kind_text kind) ++ (b'_' ∷ [])) text ≡ some (tail next))
        (snoc-append (codes (kind_text kind)) b'_' (tail next))
        (strip-append (codes (kind_text kind) ++ (b'_' ∷ [])) (tail next)) in
    let known : has_kind (id_text kind next) kind ≡ true = rw stripped (tail_known next places) in
    let listed : any (has_kind (id_text kind next)) kinds ≡ true =
      any-Among (has_kind (id_text kind next)) kind kinds (kind_known kind) known in
    (rw listed (rw stripped refl), inr places)
