-- ===== src/Base/Text.antt =====
-- Texts read character by character, for the regular expressions that the source tests.
use Prim.Native.Char.{code}
use Prim.Native.Nat.{ℕ, zero, suc, ◌+◌}
use Prim.Native.String.{String}
use mathlib.Core.Bool.{Bool, false, ◌&&◌, ◌||◌}
use mathlib.Core.List.{List, [], ◌∷◌}
use my_shtty_pi_herdr_deck.Base.Tests.{ltb, leb, eqb, every, if◌then◌else◌}
use my_shtty_pi_herdr_deck.Base.Lists.{length}

-- The code points of a text.
abbrev pub codes : String → List ℕ
codes String.[] = []
codes (String.◌∷◌ first rest) = code first ∷ codes rest

abbrev pub is_lower : ℕ → Bool
is_lower c = leb b'a' c && leb c b'z'

abbrev pub is_upper : ℕ → Bool
is_upper c = leb b'A' c && leb c b'Z'

abbrev pub is_digit : ℕ → Bool
is_digit c = leb b'0' c && leb c b'9'

-- `[a-z0-9_-]`
abbrev pub is_slug : ℕ → Bool
is_slug c = is_lower c || is_digit c || eqb c b'_' || eqb c b'-'

slug_tail : List ℕ → Bool
slug_tail [] = false
slug_tail (c ∷ cs) = is_lower c && every is_slug cs && leb (length cs) 63

-- `/^[a-z][a-z0-9_-]{0,63}$/u.test(text)`
unfoldable pub is_endpoint_id : String → Bool
unfolding slug_tail
is_endpoint_id s = slug_tail (codes s)

-- `[a-f0-9]`
abbrev pub is_hex : ℕ → Bool
is_hex c = is_digit c || (leb b'a' c && leb c b'f')

units : List ℕ → ℕ
units [] = 0
units (c ∷ cs) = (if ltb c 65_536 then 1 else 2) + units cs

bytes : List ℕ → ℕ
bytes [] = 0
bytes (c ∷ cs) =
    (if ltb c 128 then 1 else if ltb c 2_048 then 2 else if ltb c 65_536 then 3 else 4) + bytes cs

-- `text.length`: the code units of UTF-16.
unfoldable pub utf16_length : String → ℕ
unfolding units
utf16_length s = units (codes s)

-- `Buffer.byteLength(text, "utf8")`
unfoldable pub utf8_length : String → ℕ
unfolding bytes
utf8_length s = bytes (codes s)

-- `/^[a-f0-9]{64}$/u.test(text)`
unfoldable pub is_digest : String → Bool
is_digest s = eqb (length (codes s)) 64 && every is_hex (codes s)

-- `[A-Za-z0-9_-]`
abbrev pub is_word : ℕ → Bool
is_word c = is_lower c || is_upper c || is_digit c || eqb c b'_' || eqb c b'-'

-- `/^prefix[A-Za-z0-9_-]{1,128}$/u.test(text)`, on the code points of both.
unfoldable pub is_prefixed_id : List ℕ → List ℕ → Bool
is_prefixed_id (p ∷ prefix) [] = false
is_prefixed_id (p ∷ prefix) (c ∷ cs) = eqb p c && is_prefixed_id prefix cs
is_prefixed_id [] cs = leb 1 (length cs) && leb (length cs) 128 && every is_word cs

-- `text.slice(0, n)`, for a text of single code units.
abbrev pub prefix : ℕ → String → String
prefix zero text = String.[]
prefix (suc n) String.[] = String.[]
prefix (suc n) (String.◌∷◌ first rest) = String.◌∷◌ first (prefix n rest)

-- `/^[A-Za-z][A-Za-z0-9_-]{1,255}$/u.test(text)`
abbrev ref_tail : List ℕ → Bool
ref_tail [] = false
ref_tail (c ∷ cs) =
    (is_lower c || is_upper c) && leb 1 (length cs) && leb (length cs) 255 && every is_word cs

unfoldable pub is_ref : String → Bool
is_ref s = ref_tail (codes s)

-- `/^[A-Z][A-Z0-9_]{0,127}$/u.test(text)`
abbrev code_tail : List ℕ → Bool
code_tail [] = false
code_tail (c ∷ cs) =
    is_upper c && leb (length cs) 127 && every (λ d. is_upper d || is_digit d || eqb d b'_') cs

unfoldable pub is_error_code : String → Bool
is_error_code s = code_tail (codes s)
