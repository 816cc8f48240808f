-- ===== src/Protocol/Codec/Lines.antt =====
-- What the decoder of src/shared/protocol/codec.ts promises: the lines of the stream, one by one.
use my_shtty_pi_herdr_deck.Base.{
  ℕ, true, false, List, [], ◌∷◌, ◌++◌, ◌≡◌, refl, sym, ap, ◌∙◌, if◌then◌else◌, eqb, Bool-cases, inl,
  inr,
}
use mathlib.Core.List.{append-nil, append_assoc}
use my_shtty_pi_herdr_deck.Protocol.Codec.{
  newline, frame_too_large, Frame, refused, Format, new_decoder, line_frames, take_part, push_from,
  push, push_all,
}
use my_shtty_pi_herdr_deck.Protocol.Codec.Chunks.{
  fits, take_part_over, take_part_line, take_part_more, push_from_nothing, push_from_end,
  push_from-newline, push_from_byte, joined, push_all-joined,
}

-- The complete lines of a text, without their newlines, and what follows the last of them.
pub record Split : Type 0 where
  pub lines : List (List ℕ)
  pub rest : List ℕ

abbrev pub begin_with : ℕ → List (List ℕ) → List ℕ → Split
begin_with byte [] rest = record { lines = []; rest = byte ∷ rest }
begin_with byte (line ∷ lines) rest = record { lines = (byte ∷ line) ∷ lines; rest = rest }

unfoldable pub split_lines : List ℕ → Split
split_lines [] = record { lines = []; rest = [] }
split_lines (byte ∷ bytes) =
    let after = split_lines bytes in
    if eqb byte newline
    then record { lines = [] ∷ after.lines; rest = after.rest }
    else begin_with byte after.lines after.rest

module _ {ℓ κ} {V : Type ℓ} {T : Type κ} (f : Format V T) where
  -- What a complete line gives.
  abbrev pub frames_of_line : List ℕ → List (Frame T)
  frames_of_line line = if fits f [] line then line_frames f line else refused frame_too_large ∷ []

  -- What an unfinished line gives.
  abbrev pub frames_of_rest : List ℕ → List (Frame T)
  frames_of_rest rest = if fits f [] rest then [] else refused frame_too_large ∷ []

  abbrev pub frames_of_lines : List (List ℕ) → List ℕ → List (Frame T)
  frames_of_lines [] rest = frames_of_rest rest
  frames_of_lines (line ∷ lines) rest = frames_of_line line ++ frames_of_lines lines rest

  -- The same, with the start of the first line.
  abbrev frames_from : List ℕ → List (List ℕ) → List ℕ → List (Frame T)
  frames_from part [] rest = frames_of_rest (part ++ rest)
  frames_from part (line ∷ lines) rest = frames_of_line (part ++ line) ++ frames_of_lines lines rest

  take_line :
      (part : List ℕ) → take_part f new_decoder part true ≡ (new_decoder, frames_of_line part)
  take_line part = elim (Bool-cases (fits f [] part)) [
    | inl e ↦ rw e (take_part_line f [] part e)
    | inr e ↦ rw e (take_part_over f [] part true e)
  ]

  take_rest : (part : List ℕ) → (take_part f new_decoder part false).1 ≡ frames_of_rest part
  take_rest part = elim (Bool-cases (fits f [] part)) [
    | inl e ↦ rw e (ap (λ m. m.1) (take_part_more f [] part e))
    | inr e ↦ rw e (ap (λ m. m.1) (take_part_over f [] part false e))
  ]

  frames_from-begin_with :
      (part : List ℕ) (byte : ℕ) (lines : List (List ℕ)) (rest : List ℕ)
      → frames_from (part ++ (byte ∷ [])) lines rest
        ≡ frames_from part (begin_with byte lines rest).lines (begin_with byte lines rest).rest
  frames_from-begin_with part byte [] rest = ap frames_of_rest (append_assoc part (byte ∷ []) rest)
  frames_from-begin_with part byte (line ∷ lines) rest =
      ap (λ l. frames_of_line l ++ frames_of_lines lines rest) (append_assoc part (byte ∷ []) line)

  frames_from_nil :
      (lines : List (List ℕ)) (rest : List ℕ)
      → frames_from [] lines rest ≡ frames_of_lines lines rest
  frames_from_nil [] rest = refl
  frames_from_nil (line ∷ lines) rest = refl

  push_from_lem :
      (part bytes : List ℕ)
      → (push_from f new_decoder part bytes).1
        ≡ frames_from part (split_lines bytes).lines (split_lines bytes).rest
  unfolding split_lines
  push_from_lem [] [] = ap (λ m. m.1) (push_from_nothing f new_decoder)
  push_from_lem (p ∷ part) [] =
      (ap (λ m. m.1) (push_from_end f new_decoder p part) ∙ take_rest (p ∷ part))
      ∙ sym (ap (λ ps. frames_of_rest (p ∷ ps)) (append-nil part))
  push_from_lem part (byte ∷ bytes) = elim (Bool-cases (eqb byte newline)) [
    | inl e ↦
        let after = split_lines bytes in
        rw e (
          ap (λ m. m.1) (push_from-newline f new_decoder part byte bytes e)
          ∙ ((ap (λ m. m.1 ++ (push_from f m.0 [] bytes).1) (take_line part)
                ∙ ap (λ out. frames_of_line part ++ out)
                    (push_from_lem [] bytes ∙ frames_from_nil after.lines after.rest))
              ∙ sym (
                  ap (λ l. frames_of_line l ++ frames_of_lines after.lines after.rest)
                    (append-nil part))))
    | inr e ↦
        let after = split_lines bytes in
        rw e (
          ap (λ m. m.1) (push_from_byte f new_decoder part byte bytes e)
          ∙ (push_from_lem (part ++ (byte ∷ [])) bytes
              ∙ frames_from-begin_with part byte after.lines after.rest))
  ]

-- However the stream is cut, a new decoder gives for each complete line of the stream, in order, the
-- frame that the line holds, an error if the line is too long or holds none, and nothing if the line
-- is empty; an unfinished line gives nothing, or the error as soon as it is too long.
pub push_all-split_lines {ℓ κ} :
    {V : Type ℓ} {T : Type κ} (f : Format V T) (chunks : List (List ℕ))
    → (push_all f new_decoder chunks).1
      ≡ frames_of_lines f (split_lines (joined chunks)).lines (split_lines (joined chunks)).rest
unfolding push
push_all-split_lines f chunks =
    ap (λ m. m.1) (push_all-joined f new_decoder chunks)
    ∙ (push_from_lem f [] (joined chunks)
        ∙ frames_from_nil f (split_lines (joined chunks)).lines (split_lines (joined chunks)).rest)
