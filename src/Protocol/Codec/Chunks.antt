-- ===== src/Protocol/Codec/Chunks.antt =====
-- The decoder of src/shared/protocol/codec.ts does not depend on where a stream is cut into chunks.
use mathlib.Core.List.{append-nil, append_assoc}
use my_shtty_pi_herdr_deck.Base.{
  ℕ, ◌+◌, Bool, true, false, not, List, [], ◌∷◌, ◌++◌, ◌≡◌, refl, sym, ap, ◌∙◌, arith, ltb, eqb,
  length, length-append, Bool-cases, inl, inr,
}
use my_shtty_pi_herdr_deck.Protocol.Codec.{
  max_line_bytes, newline, frame_too_large, refused, Format, Decoder, Pushed, line_frames,
  take_part, push_from, push, push_all,
}

module _ {ℓ κ} {V : Type ℓ} {T : Type κ} (f : Format V T) where
  -- One push after another.
  abbrev pub then_push : Pushed T → (Decoder → Pushed T) → Pushed T
  then_push first next = ((next first.0).0, first.1 ++ (next first.0).1)

  abbrev pub decoder : List ℕ → Bool → Decoder
  decoder buffer discard = record { buffer = buffer; discard = discard }

  abbrev pub fits : List ℕ → List ℕ → Bool
  fits buffer part = not (ltb max_line_bytes (length buffer + length part))

  over_sum :
      (buffer part rest : List ℕ)
      → fits (buffer ++ part) rest ≡ false
      → fits buffer (part ++ rest) ≡ false
  over_sum buffer part rest h =
      ground (arith, h, length-append buffer part, length-append part rest)

  over_more :
      (buffer part rest : List ℕ) → fits buffer part ≡ false → fits buffer (part ++ rest) ≡ false
  over_more buffer part rest h = ground (arith, h, length-append part rest)

  fits_sum :
      (buffer part rest : List ℕ)
      → fits (buffer ++ part) rest ≡ true
      → fits buffer (part ++ rest) ≡ true
  fits_sum buffer part rest h =
      ground (arith, h, length-append buffer part, length-append part rest)

  pub take_part_over :
      (buffer part : List ℕ) (ended : Bool)
      → fits buffer part ≡ false
      → take_part f (decoder buffer false) part ended
        ≡ (decoder [] (not ended), refused frame_too_large ∷ [])
  unfolding take_part
  take_part_over buffer part ended h =
      let over : ltb max_line_bytes (length buffer + length part) ≡ true = ground (arith, h) in
      rw over refl

  pub take_part_line :
      (buffer part : List ℕ)
      → fits buffer part ≡ true
      → take_part f (decoder buffer false) part true
        ≡ (decoder [] false, line_frames f (buffer ++ part))
  unfolding take_part
  take_part_line buffer part h =
      let small : ltb max_line_bytes (length buffer + length part) ≡ false = ground (arith, h) in
      rw small refl

  pub take_part_more :
      (buffer part : List ℕ)
      → fits buffer part ≡ true
      → take_part f (decoder buffer false) part false ≡ (decoder (buffer ++ part) false, [])
  unfolding take_part
  take_part_more buffer part h =
      let small : ltb max_line_bytes (length buffer + length part) ≡ false = ground (arith, h) in
      rw small refl

  take_part_discard :
      (buffer part : List ℕ) (ended : Bool)
      → take_part f (decoder buffer true) part ended ≡ (decoder buffer (not ended), [])
  unfolding take_part
  take_part_discard buffer part ended = refl

  within :
      (buffer part rest : List ℕ) (ended : Bool)
      → fits (buffer ++ part) rest ≡ true
      → take_part f (decoder buffer false) (part ++ rest) ended
        ≡ take_part f (decoder (buffer ++ part) false) rest ended
  within buffer part rest true g =
      rw
        (
          take_part_line buffer (part ++ rest) (fits_sum buffer part rest g),
          take_part_line (buffer ++ part) rest g,
          append_assoc buffer part rest,
        )
        refl
  within buffer part rest false g =
      rw
        (
          take_part_more buffer (part ++ rest) (fits_sum buffer part rest g),
          take_part_more (buffer ++ part) rest g,
          append_assoc buffer part rest,
        )
        refl

  -- A part of a line can be taken in two pieces.
  append_by :
      (buffer : List ℕ) (discard : Bool) (part rest : List ℕ) (ended : Bool)
      → take_part f (decoder buffer discard) (part ++ rest) ended
        ≡ then_push
            (take_part f (decoder buffer discard) part false)
            (λ d. take_part f d rest ended)
  append_by buffer true part rest ended =
      rw
        (
          take_part_discard buffer (part ++ rest) ended,
          take_part_discard buffer part false,
          take_part_discard buffer rest ended,
        )
        refl
  append_by buffer false part rest ended = elim (Bool-cases (fits buffer part)) [
    | inl e ↦ elim (Bool-cases (fits (buffer ++ part) rest)) [
      | inl g ↦ rw (take_part_more buffer part e) (within buffer part rest ended g)
      | inr g ↦
          rw
            (
              take_part_more buffer part e,
              take_part_over (buffer ++ part) rest ended g,
              take_part_over buffer (part ++ rest) ended (over_sum buffer part rest g),
            )
            refl
    ]
    | inr e ↦
        rw
          (
            take_part_over buffer part false e,
            take_part_discard [] rest ended,
            take_part_over buffer (part ++ rest) ended (over_more buffer part rest e),
          )
          refl
  ]

  pub push_from_nothing : (d : Decoder) → push_from f d [] [] ≡ (d, [])
  unfolding push_from
  push_from_nothing d = refl

  pub push_from_end :
      (d : Decoder) (p : ℕ) (part : List ℕ)
      → push_from f d (p ∷ part) [] ≡ take_part f d (p ∷ part) false
  unfolding push_from
  push_from_end d p part = refl

  pub push_from-newline :
      (d : Decoder) (part : List ℕ) (byte : ℕ) (bytes : List ℕ)
      → eqb byte newline ≡ true
      → push_from f d part (byte ∷ bytes)
        ≡ then_push (take_part f d part true) (λ d'. push_from f d' [] bytes)
  unfolding push_from
  push_from-newline d [] byte bytes e = rw e refl
  push_from-newline d (p ∷ part) byte bytes e = rw e refl

  pub push_from_byte :
      (d : Decoder) (part : List ℕ) (byte : ℕ) (bytes : List ℕ)
      → eqb byte newline ≡ false
      → push_from f d part (byte ∷ bytes) ≡ push_from f d (part ++ (byte ∷ [])) bytes
  unfolding push_from
  push_from_byte d [] byte bytes e = rw e refl
  push_from_byte d (p ∷ part) byte bytes e = rw e refl

  then_push_assoc :
      (first : Pushed T) (g h : Decoder → Pushed T)
      → then_push (then_push first g) h ≡ then_push first (λ d. then_push (g d) h)
  then_push_assoc first g h =
      ap (λ out. ((h (g first.0).0).0, out))
        (append_assoc first.1 (g first.0).1 (h (g first.0).0).1)

  then_push_ext :
      (first : Pushed T) (g h : Decoder → Pushed T)
      → g first.0 ≡ h first.0
      → then_push first g ≡ then_push first h
  then_push_ext first g h e = ap (λ m. (m.0, first.1 ++ m.1)) e

  then_push_end : (first : Pushed T) → then_push first (λ d. (d, [])) ≡ first
  then_push_end first = ap (λ out. (first.0, out)) (append-nil first.1)

  -- The part of a line can be taken before the rest of the line is known.
  flush :
      (d : Decoder) (p : ℕ) (part rest bytes : List ℕ)
      → push_from f d ((p ∷ part) ++ rest) bytes
        ≡ then_push (take_part f d (p ∷ part) false) (λ d'. push_from f d' rest bytes)
  flush d p part [] [] =
      (push_from_end d p (part ++ []) ∙ ap (λ ps. take_part f d (p ∷ ps) false) (append-nil part))
      ∙ (sym (then_push_end (take_part f d (p ∷ part) false))
          ∙ then_push_ext (take_part f d (p ∷ part) false) (λ d'. (d', []))
              (λ d'. push_from f d' [] [])
              (sym (push_from_nothing (take_part f d (p ∷ part) false).0)))
  flush d p part (q ∷ rest) [] =
      (push_from_end d p (part ++ (q ∷ rest))
        ∙ append_by d.buffer d.discard (p ∷ part) (q ∷ rest) false)
      ∙ then_push_ext (take_part f d (p ∷ part) false) (λ d'. take_part f d' (q ∷ rest) false)
          (λ d'. push_from f d' (q ∷ rest) [])
          (sym (push_from_end (take_part f d (p ∷ part) false).0 q rest))
  flush d p part rest (byte ∷ bytes) = elim (Bool-cases (eqb byte newline)) [
    | inl e ↦
        (push_from-newline d ((p ∷ part) ++ rest) byte bytes e
          ∙ ap (λ m. then_push m (λ d'. push_from f d' [] bytes))
              (append_by d.buffer d.discard (p ∷ part) rest true))
        ∙ (then_push_assoc (take_part f d (p ∷ part) false) (λ d'. take_part f d' rest true)
              (λ d'. push_from f d' [] bytes)
            ∙ then_push_ext (take_part f d (p ∷ part) false)
                (λ d'. then_push (take_part f d' rest true) (λ d''. push_from f d'' [] bytes))
                (λ d'. push_from f d' rest (byte ∷ bytes))
                (sym (push_from-newline (take_part f d (p ∷ part) false).0 rest byte bytes e)))
    | inr e ↦
        (push_from_byte d ((p ∷ part) ++ rest) byte bytes e
          ∙ ap (λ ps. push_from f d (p ∷ ps) bytes) (append_assoc part rest (byte ∷ [])))
        ∙ (flush d p part (rest ++ (byte ∷ [])) bytes
            ∙ then_push_ext (take_part f d (p ∷ part) false)
                (λ d'. push_from f d' (rest ++ (byte ∷ [])) bytes)
                (λ d'. push_from f d' rest (byte ∷ bytes))
                (sym (push_from_byte (take_part f d (p ∷ part) false).0 rest byte bytes e)))
  ]

  pub push_from-append :
      (d : Decoder) (part front back : List ℕ)
      → push_from f d part (front ++ back)
        ≡ then_push (push_from f d part front) (λ d'. push_from f d' [] back)
  push_from-append d [] [] back =
      sym (ap (λ m. then_push m (λ d'. push_from f d' [] back)) (push_from_nothing d))
  push_from-append d (p ∷ part) [] back =
      (sym (ap (λ ps. push_from f d (p ∷ ps) back) (append-nil part)) ∙ flush d p part [] back)
      ∙ sym (ap (λ m. then_push m (λ d'. push_from f d' [] back)) (push_from_end d p part))
  push_from-append d part (byte ∷ front) back = elim (Bool-cases (eqb byte newline)) [
    | inl e ↦
        (push_from-newline d part byte (front ++ back) e
          ∙ then_push_ext (take_part f d part true) (λ d'. push_from f d' [] (front ++ back))
              (λ d'. then_push (push_from f d' [] front) (λ d''. push_from f d'' [] back))
              (push_from-append (take_part f d part true).0 [] front back))
        ∙ sym (
            ap (λ m. then_push m (λ d'. push_from f d' [] back))
              (push_from-newline d part byte front e)
            ∙ then_push_assoc (take_part f d part true) (λ d'. push_from f d' [] front)
                (λ d'. push_from f d' [] back))
    | inr e ↦
        (push_from_byte d part byte (front ++ back) e
          ∙ push_from-append d (part ++ (byte ∷ [])) front back)
        ∙ sym (
            ap (λ m. then_push m (λ d'. push_from f d' [] back))
              (push_from_byte d part byte front e))
  ]

-- All the bytes, in order.
abbrev pub joined : List (List ℕ) → List ℕ
joined [] = []
joined (chunk ∷ chunks) = chunk ++ joined chunks

-- However a stream of bytes is cut into chunks, the decoder ends in the same state and gives the
-- same frames and errors as for the whole stream in one chunk.
pub push_all-joined {ℓ κ} :
    {V : Type ℓ} {T : Type κ} (f : Format V T) (d : Decoder) (chunks : List (List ℕ))
    → push_all f d chunks ≡ push f d (joined chunks)
unfolding push_all push
push_all-joined f d [] = sym (push_from_nothing f d)
push_all-joined f d (chunk ∷ chunks) =
    then_push_ext f (push_from f d [] chunk) (λ d'. push_all f d' chunks)
      (λ d'. push_from f d' [] (joined chunks))
      (push_all-joined f (push_from f d [] chunk).0 chunks)
    ∙ sym (push_from-append f d [] chunk (joined chunks))
