-- ===== src/Tests/ProtocolTests.antt =====
-- src/shared/protocol/codec.ts with Booleans as values.
use my_shtty_pi_herdr_deck.Base.{
  ℕ, Bool, true, false, List, [], ◌∷◌, map, Option, none, some, ◌≡◌, ◌≢◌, refl, if◌then◌else◌, eqb,
  ok, All,
}
use my_shtty_pi_herdr_deck.Protocol.Codec.{
  accepted, refused, malformed_frame, Format, new_decoder, newline, validated, take_part, push_from,
  push, push_all, encode_frame,
}
use my_shtty_pi_herdr_deck.Protocol.Codec.Chunks.{joined, push_all-joined}
use my_shtty_pi_herdr_deck.Protocol.Codec.Lines.{split_lines, frames_of_lines, push_all-split_lines}
use my_shtty_pi_herdr_deck.Protocol.Codec.RoundTrip.{IsLossless, encode_all, push_all-encode_all}

abbrev text_of : Bool → List ℕ
text_of true = 116 ∷ 49 ∷ []
text_of false = 102 ∷ []

abbrev value_of : List ℕ → Option Bool
value_of [] = none
value_of (byte ∷ bytes) =
    if eqb byte 116 then some true else if eqb byte 102 then some false else none

-- A text is read by its first byte, and every value is valid.
abbrev bits : Format Bool Bool
bits = record { stringify = text_of; parse = value_of; validate = λ b. ok b }

value-text : (b : Bool) → value_of (text_of b) ≡ some b
value-text true = refl
value-text false = refl

text_ne_nil : (b : Bool) → text_of b ≢ []
text_ne_nil true h = cc h
text_ne_nil false h = cc h

text_line : (b : Bool) → All (λ byte. eqb byte newline ≡ false) (text_of b)
text_line true = (refl, (refl, tt))
text_line false = (refl, tt)

bits-IsLossless : IsLossless bits
bits-IsLossless = record {
  parse-stringify = value-text;
  stringify_ne_nil = text_ne_nil;
  stringify_line = text_line;
}

-- Two frames in three chunks, one of them cut inside a frame.
abbrev two_frames : List (List ℕ)
two_frames = (116 ∷ []) ∷ (49 ∷ 10 ∷ 102 ∷ []) ∷ (10 ∷ []) ∷ []

-- A line that is not a value, an empty line, and a line that has not ended.
abbrev bad_frames : List (List ℕ)
bad_frames = (120 ∷ 10 ∷ []) ∷ (10 ∷ 102 ∷ 10 ∷ 116 ∷ []) ∷ []

push_all-two_frames :
    push_all bits new_decoder two_frames ≡ (new_decoder, accepted true ∷ accepted false ∷ [])
unfolding push_all push push_from take_part
push_all-two_frames = refl

push_all-bad_frames :
    push_all bits new_decoder bad_frames
    ≡ (record new_decoder { buffer = 116 ∷ [] }, refused malformed_frame ∷ accepted false ∷ [])
unfolding push_all push push_from take_part
push_all-bad_frames = refl

push_all-joined_example :
    push_all bits new_decoder two_frames ≡ push bits new_decoder (joined two_frames)
push_all-joined_example = push_all-joined bits new_decoder two_frames

push_all-split_lines_example :
    (push_all bits new_decoder bad_frames).1
    ≡ frames_of_lines bits
        (split_lines (joined bad_frames)).lines
        (split_lines (joined bad_frames)).rest
push_all-split_lines_example = push_all-split_lines bits bad_frames

encode_two_frames : encode_all bits (true ∷ false ∷ []) ≡ ok (joined two_frames)
unfolding encode_all encode_frame
encode_two_frames = refl

push_all-encode_all_example :
    push_all bits new_decoder two_frames
    ≡ (new_decoder, map (λ v. validated bits (ok v)) (true ∷ false ∷ []))
push_all-encode_all_example =
    push_all-encode_all bits bits-IsLossless (true ∷ false ∷ []) two_frames encode_two_frames
