-- ===== src/Shared/Ids.antt =====
-- src/shared/ids.ts: the ids of entities. A text is the list of its code points, and the random part
-- of an id is kept as the places of its characters in the alphabet, the last character first.
pub mod Increase
pub mod Entity
use my_shtty_pi_herdr_deck.Base.{
  ℕ, zero, suc, ◌+◌, ◌-◌, ◌*◌, ◌/◌, ◌%◌, ◌^◌, max, String, Bool, true, false, not, ◌&&◌, ◌||◌, List,
  [], ◌∷◌, ◌++◌, map, Option, none, some, if◌then◌else◌, eqb, leb, ltb, every, any, length,
}
use my_shtty_pi_herdr_deck.Base.Text.{codes}

pub data EntityKind : Type 0 where
  orc agt tsk run wfl grp asg qst res rvc art evt prn idem : EntityKind

abbrev pub kind_text : EntityKind → String
kind_text orc = "orc"
kind_text agt = "agt"
kind_text tsk = "tsk"
kind_text run = "run"
kind_text wfl = "wfl"
kind_text grp = "grp"
kind_text asg = "asg"
kind_text qst = "qst"
kind_text res = "res"
kind_text rvc = "rvc"
kind_text art = "art"
kind_text evt = "evt"
kind_text prn = "prn"
kind_text idem = "idem"

-- `alphabet[place]`: the digits, and the letters without I, L, O and U.
abbrev pub alphabet : ℕ → ℕ
alphabet d =
    if ltb d 10
    then b'0' + d
    else if ltb d 18
    then b'A' + (d - 10)
    else if ltb d 20
    then b'J' + (d - 18)
    else if ltb d 22
    then b'M' + (d - 20)
    else if ltb d 27
    then b'P' + (d - 22)
    else b'V' + (d - 27)

-- The loops of `encodeTime` and `encodeRandom`: so many digits of base 32, the last one first.
unfoldable pub digits : ℕ → ℕ → List ℕ
digits zero value = []
digits (suc count) value = value % 32 ∷ digits count (value / 32)

abbrev pub bytes_value : ℕ → List ℕ → ℕ
bytes_value value [] = value
bytes_value value (byte ∷ bytes) = bytes_value (value * 256 + byte) bytes

unfoldable pub encode_random : List ℕ → List ℕ
unfolding digits
encode_random bytes = digits 16 (bytes_value 0 bytes)

-- `lastTime` and `lastRandom`, which is empty at first.
pub record Generator : Type 0 where
  pub last_time : ℕ
  pub last_random : List ℕ

abbrev pub new_generator : Generator
new_generator = record { last_time = 0; last_random = [] }

-- The loop that carries, and the character after it. A text of the last letter only ends as zeros.
unfoldable pub increment : List ℕ → List ℕ
increment [] = []
increment (d ∷ ds) = let carried = 0 ∷ increment ds in if eqb d 31 then carried else suc d ∷ ds

abbrev pub is_empty : List ℕ → Bool
is_empty [] = true
is_empty (d ∷ ds) = false

-- What the next id has; `bytes` are what `randomBytes(10)` draws, if it is called.
unfoldable pub advance : Generator → ℕ → List ℕ → Generator
unfolding increment encode_random
advance g now bytes = record {
  last_time = max now g.last_time;
  last_random =
      if eqb (max now g.last_time) g.last_time && not (is_empty g.last_random)
      then increment g.last_random
      else encode_random bytes;
}

abbrev pub backwards : List ℕ → List ℕ
backwards [] = []
backwards (d ∷ ds) = backwards ds ++ (d ∷ [])

abbrev pub digit_text : List ℕ → List ℕ
digit_text ds = map alphabet (backwards ds)

abbrev pub id_text : EntityKind → Generator → List ℕ
id_text kind g =
    codes (kind_text kind)
    ++ (b'_' ∷ (digit_text (digits 10 g.last_time) ++ digit_text g.last_random))

unfoldable pub create_id : EntityKind → Generator → ℕ → List ℕ → Generator × List ℕ
unfolding advance digits
create_id kind g now bytes = (advance g now bytes, id_text kind (advance g now bytes))

-- `[0-9A-HJKMNP-TV-Z]`
abbrev pub is_entity_char : ℕ → Bool
is_entity_char c =
    (leb b'0' c && leb c b'9')
    || (leb b'A' c && leb c b'H')
    || eqb c b'J'
    || eqb c b'K'
    || eqb c b'M'
    || eqb c b'N'
    || (leb b'P' c && leb c b'T')
    || (leb b'V' c && leb c b'Z')

-- The rest of a text that begins with the given one.
abbrev pub strip : List ℕ → List ℕ → Option (List ℕ)
strip [] text = some text
strip (p ∷ prefix) [] = none
strip (p ∷ prefix) (c ∷ text) = if eqb p c then strip prefix text else none

abbrev pub is_tail : Option (List ℕ) → Bool
is_tail none = false
is_tail (some text) = eqb (length text) 26 && every is_entity_char text

abbrev pub has_kind : List ℕ → EntityKind → Bool
has_kind text kind = is_tail (strip (codes (kind_text kind) ++ (b'_' ∷ [])) text)

abbrev pub kinds : List EntityKind
kinds = orc ∷ agt ∷ tsk ∷ run ∷ wfl ∷ grp ∷ asg ∷ qst ∷ res ∷ rvc ∷ art ∷ evt ∷ prn ∷ idem ∷ []

abbrev pub starts_with : Option (List ℕ) → Bool
starts_with none = false
starts_with (some rest) = true

abbrev pub of_kind : List ℕ → Option EntityKind → Bool
of_kind text none = true
of_kind text (some kind) = starts_with (strip (codes (kind_text kind) ++ (b'_' ∷ [])) text)

unfoldable pub is_entity_id : List ℕ → Option EntityKind → Bool
is_entity_id text kind = any (has_kind text) kinds && of_kind text kind
