-- ===== src/Protocol/Codec.antt =====
-- src/shared/protocol/codec.ts: frames as lines of JSON, in bytes, and the decoder of a byte stream.
pub mod Chunks
pub mod Lines
pub mod RoundTrip
use my_shtty_pi_herdr_deck.Base.{
  ℕ, ◌+◌, String, Bool, true, false, not, List, [], ◌∷◌, ◌++◌, Option, none, some, if◌then◌else◌,
  ltb, eqb, length, Result, ok, err,
}

-- `LIMITS.maxLineBytes` of src/shared/limits.ts
abbrev pub max_line_bytes : ℕ
max_line_bytes = 1_048_576

abbrev pub newline : ℕ
newline = 10

pub record ProtocolError : Type 0 where
  pub code : String
  pub message : String

abbrev pub frame_too_large : ProtocolError
frame_too_large = record { code = "FRAME_TOO_LARGE"; message = "Frame exceeds the maximum size." }

abbrev pub malformed_frame : ProtocolError
malformed_frame = record { code = "MALFORMED_FRAME"; message = "Frame is invalid." }

-- What a validation throws.
pub data Thrown : Type 0 where
  protocol_error : ProtocolError → Thrown
  other_error : Thrown

-- An entry of the decoder's output.
pub data Frame {ℓ} (T : Type ℓ) : Type ℓ where
  accepted : T → Frame T
  refused : ProtocolError → Frame T

-- `JSON.stringify`, `JSON.parse` on the text of a line (`none` where either throws), and the
-- `validate` that the decoder is made with.
pub record Format {ℓ κ} (V : Type ℓ) (T : Type κ) : Type (ℓ ⊔ κ) where
  pub stringify : V → List ℕ
  pub parse : List ℕ → Option V
  pub validate : V → Result Thrown T

pub record Decoder : Type 0 where
  pub buffer : List ℕ
  pub discard : Bool

abbrev pub new_decoder : Decoder
new_decoder = record { buffer = []; discard = false }

abbrev pub Pushed {ℓ} : Type ℓ → Type ℓ
Pushed T = Decoder × List (Frame T)

module _ {ℓ κ} {V : Type ℓ} {T : Type κ} (f : Format V T) where
  unfoldable pub encode_frame : V → Result ProtocolError (List ℕ)
  encode_frame value =
      let line = f.stringify value ++ (newline ∷ []) in
      if ltb max_line_bytes (length line) then err frame_too_large else ok line

  abbrev pub validated : Result Thrown T → Frame T
  validated (ok value) = accepted value
  validated (err (protocol_error error)) = refused error
  validated (err other_error) = refused malformed_frame

  abbrev pub parsed : Option V → Frame T
  parsed none = refused malformed_frame
  parsed (some value) = validated (f.validate value)

  -- A whole line; an empty one is passed over.
  abbrev pub line_frames : List ℕ → List (Frame T)
  line_frames [] = []
  line_frames (byte ∷ bytes) = parsed (f.parse (byte ∷ bytes)) ∷ []

  -- A round of the loop on the part of a chunk up to a newline (`ended`) or to the chunk's end.
  unfoldable pub take_part : Decoder → List ℕ → Bool → Pushed T
  take_part d part ended =
      if d.discard
      then (record d { discard = not ended }, [])
      else if ltb max_line_bytes (length d.buffer + length part)
      then (record { buffer = []; discard = not ended }, refused frame_too_large ∷ [])
      else if ended
      then (record d { buffer = [] }, line_frames (d.buffer ++ part))
      else (record d { buffer = d.buffer ++ part }, [])

  -- The loop with its search for the next newline: `part` is what lies between `start` and here.
  unfoldable pub push_from : Decoder → List ℕ → List ℕ → Pushed T
  unfolding take_part
  push_from d [] [] = (d, [])
  push_from d (p ∷ part) [] = take_part d (p ∷ part) false
  push_from d part (byte ∷ bytes) =
      let next = push_from (take_part d part true).0 [] bytes in
      let more = push_from d (part ++ (byte ∷ [])) bytes in
      if eqb byte newline then (next.0, (take_part d part true).1 ++ next.1) else more

  unfoldable pub push : Decoder → List ℕ → Pushed T
  unfolding push_from
  push d chunk = push_from d [] chunk

  -- Chunks as they arrive.
  unfoldable pub push_all : Decoder → List (List ℕ) → Pushed T
  unfolding push
  push_all d [] = (d, [])
  push_all d (chunk ∷ chunks) =
      let first = push d chunk in let rest = push_all first.0 chunks in (rest.0, first.1 ++ rest.1)
