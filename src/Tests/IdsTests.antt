-- ===== src/Tests/IdsTests.antt =====
-- Ids of src/shared/ids.ts.
use my_shtty_pi_herdr_deck.Base.{ℕ, zero, suc, List, [], ◌∷◌, ◌++◌, map, some, true, ◌≡◌, refl, inl}
use my_shtty_pi_herdr_deck.Base.Text.{codes}
use my_shtty_pi_herdr_deck.Shared.Ids.{
  tsk, agt, alphabet, digits, encode_random, Generator, new_generator, increment, advance,
  create_id, is_entity_id,
}
use my_shtty_pi_herdr_deck.Shared.Ids.Increase.{Draw, draw_all, Increasing, draw_all-Increasing}
use my_shtty_pi_herdr_deck.Shared.Ids.Entity.{IsWhole, is_entity_id-create_id}

abbrev up_to : ℕ → List ℕ
up_to zero = []
up_to (suc n) = up_to n ++ (n ∷ [])

alphabet_text : map alphabet (up_to 32) ≡ codes "0123456789ABCDEFGHJKMNPQRSTVWXYZ"
alphabet_text = refl

first_id :
    (create_id tsk new_generator 33 (0 ∷ 0 ∷ 0 ∷ 0 ∷ 0 ∷ 0 ∷ 0 ∷ 0 ∷ 0 ∷ 31 ∷ [])).1
    ≡ codes "tsk_0000000011000000000000000Z"
unfolding create_id advance encode_random digits
first_id = refl

is_entity_id-create_id_example :
    (is_entity_id (create_id agt new_generator 33 (7 ∷ [])).1 (some agt) ≡ true)
    × IsWhole (create_id agt new_generator 33 (7 ∷ [])).0
is_entity_id-create_id_example = is_entity_id-create_id agt new_generator 33 (7 ∷ []) (inl refl)

-- A generator after its first call, a call in the same millisecond, one after the clock went back,
-- and a later one.
abbrev in_use : Generator
in_use = advance new_generator 40 (1 ∷ 2 ∷ 3 ∷ 4 ∷ 5 ∷ 6 ∷ 7 ∷ 8 ∷ 9 ∷ 31 ∷ [])

abbrev draws : List Draw
draws =
    record { now = 40; bytes = [] }
    ∷ record { now = 39; bytes = [] }
    ∷ record { now = 41; bytes = 9 ∷ 8 ∷ 7 ∷ 6 ∷ 5 ∷ 4 ∷ 3 ∷ 2 ∷ 1 ∷ 0 ∷ [] }
    ∷ []

draw_all-Increasing_example : Increasing in_use (draw_all in_use draws)
unfolding draw_all advance increment encode_random digits
draw_all-Increasing_example = draw_all-Increasing in_use draws refl (refl, (refl, (refl, tt)))
