-- ===== src/Protocol/Codec/RoundTrip.antt =====
-- Encoding and decoding frames with src/shared/protocol/codec.ts.
use my_shtty_pi_herdr_deck.Base.{
  ℕ, true, false, List, [], ◌∷◌, ◌++◌, map, some, ◌≡◌, ◌≢◌, refl, sym, ap, ◌∙◌, arith, ltb, eqb,
  length, length-append, All, Result, ok, ◌>>=◌, >>=-eq-ok, Bool-cases, inl, inr,
}
use mathlib.Core.List.{append-nil, append_assoc}
use my_shtty_pi_herdr_deck.Protocol.Codec.{
  parsed, max_line_bytes, newline, ProtocolError, Format, new_decoder, validated, line_frames,
  take_part, encode_frame, push_from, push, push_all,
}
use my_shtty_pi_herdr_deck.Protocol.Codec.Chunks.{
  fits, then_push, take_part_line, push_from-newline, push_from_byte, push_from_nothing,
  push_from-append, joined, push_all-joined,
}

-- What the decoder relies on of `JSON.stringify` and `JSON.parse`: a text of a value is read back as
-- the value, is not empty, and has no newline, which JSON writes as an escape.
pub record IsLossless {ℓ κ} {V : Type ℓ} {T : Type κ} (f : Format V T) : Type ℓ where
  pub parse-stringify : (v : V) → f.parse (f.stringify v) ≡ some v
  pub stringify_ne_nil : (v : V) → f.stringify v ≢ []
  pub stringify_line : (v : V) → All (λ byte. eqb byte newline ≡ false) (f.stringify v)

module _ {ℓ κ} {V : Type ℓ} {T : Type κ} (f : Format V T) where
  -- The frames of some values, one after another.
  unfoldable pub encode_all : List V → Result ProtocolError (List ℕ)
  encode_all [] = ok []
  encode_all (v ∷ vs) = do frame ← encode_frame f v; frames ← encode_all vs; ok (frame ++ frames)

  push_line :
      (part line : List ℕ)
      → All (λ byte. eqb byte newline ≡ false) line
      → push_from f new_decoder part (line ++ (newline ∷ []))
        ≡ then_push f (take_part f new_decoder (part ++ line) true) (λ d. (d, []))
  unfolding push_from
  push_line part [] h =
      push_from-newline f new_decoder part newline [] refl
      ∙ sym (
          ap (λ ps. then_push f (take_part f new_decoder ps true) (λ d. (d, []))) (append-nil part))
  push_line part (byte ∷ line) h =
      push_from_byte f new_decoder part byte (line ++ (newline ∷ [])) h.0
      ∙ (push_line (part ++ (byte ∷ [])) line h.1
          ∙ ap (λ ps. then_push f (take_part f new_decoder ps true) (λ d. (d, [])))
              (append_assoc part (byte ∷ []) line))

  line_frames_full : (line : List ℕ) → line ≢ [] → line_frames f line ≡ parsed f (f.parse line) ∷ []
  line_frames_full [] h = absurd (h refl)
  line_frames_full (byte ∷ line) h = refl

  encode_frame-ok :
      (v : V) {frame : List ℕ}
      → encode_frame f v ≡ ok frame
      → (f.stringify v ++ (newline ∷ []) ≡ frame) × (fits f [] (f.stringify v) ≡ true)
  unfolding encode_frame
  encode_frame-ok v {frame} h =
      elim (Bool-cases (ltb max_line_bytes (length (f.stringify v ++ (newline ∷ []))))) [
        | inl e ↦ absurd (cc (rw e at h))
        | inr e ↦
            let same : Path (Result ProtocolError (List ℕ)) (ok (f.stringify v ++ (newline ∷ [])))
                (ok frame) =
              rw e at h in
            (cc same, ground (arith, e, length-append (f.stringify v) (newline ∷ [])))
      ]

  module _ (lossless : IsLossless f) where
    push_frame :
        (v : V) {frame : List ℕ}
        → encode_frame f v ≡ ok frame
        → push_from f new_decoder [] frame ≡ (new_decoder, validated f (f.validate v) ∷ [])
    push_frame v {frame} h =
        let (same, fit) = encode_frame-ok v h in
        let line = f.stringify v in
        (ap (λ bytes. push_from f new_decoder [] bytes) (sym same)
          ∙ push_line [] line (lossless.stringify_line v))
        ∙ (ap (λ m. then_push f m (λ d. (d, []))) (take_part_line f [] line fit)
            ∙ ap (λ out. (new_decoder, out ++ []))
                (line_frames_full line (lossless.stringify_ne_nil v)
                  ∙ ap (λ o. parsed f o ∷ []) (lossless.parse-stringify v)))

    push-encode_all :
        (vs : List V) {bytes : List ℕ}
        → encode_all vs ≡ ok bytes
        → push_from f new_decoder [] bytes ≡ (new_decoder, map (λ v. validated f (f.validate v)) vs)
    unfolding encode_all
    push-encode_all [] {bytes} h =
        let same : [] ≡ bytes = cc h in
        sym (ap (λ b. push_from f new_decoder [] b) same) ∙ push_from_nothing f new_decoder
    push-encode_all (v ∷ vs) {bytes} h =
        let (frame, first, h1) = >>=-eq-ok (encode_frame f v) _ h in
        let (frames, rest, h2) = >>=-eq-ok (encode_all vs) _ h1 in
        let same : frame ++ frames ≡ bytes = cc h2 in
        (sym (ap (λ b. push_from f new_decoder [] b) same)
          ∙ push_from-append f new_decoder [] frame frames)
        ∙ (ap (λ m. then_push f m (λ d. push_from f d [] frames)) (push_frame v first)
            ∙ ap (λ m. (m.0, validated f (f.validate v) ∷ m.1)) (push-encode_all vs rest))

-- Values that are encoded into frames and sent one after another, cut into chunks anywhere, come out
-- of a new decoder as they were sent, each as its validation judges it, with nothing left over.
-- JSON is relied on to read back what it wrote, on one line.
pub push_all-encode_all {ℓ κ} :
    {V : Type ℓ} {T : Type κ} (f : Format V T)
    → IsLossless f
    → (vs : List V) (chunks : List (List ℕ)) → encode_all f vs ≡ ok (joined chunks)
    → push_all f new_decoder chunks ≡ (new_decoder, map (λ v. validated f (f.validate v)) vs)
unfolding push
push_all-encode_all f lossless vs chunks h =
    push_all-joined f new_decoder chunks ∙ push-encode_all f lossless vs h
