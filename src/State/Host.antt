-- ===== src/State/Host.antt =====
-- What the reducer uses of the JavaScript runtime on values of unknown type.
use Prim.Native.String.{◌++◌}
use my_shtty_pi_herdr_deck.Base.{
  ℕ, zero, suc, ◌/◌, ◌%◌, String, Bool, true, false, Option, ltb, if◌then◌else◌,
}
use my_shtty_pi_herdr_deck.Base.Int.{ℤ, pos, negsuc}
use my_shtty_pi_herdr_deck.Base.Json.{
  Number, integer, other, Value, undefined, null, boolean, number, string, array, object, Items,
  nil, cons,
}

-- Text conversions whose result the language leaves to the engine or to long tables.
-- `parse_number` is `Number(text)`, `parse_date` is `Date.parse(text)` with `none` for NaN, and
-- `to_iso` is `new Date(ms).toISOString()` with `none` for a RangeError. `quote` is `JSON.stringify`
-- of a text, `locale_le a b` is `a.localeCompare(b) <= 0`, and `sha256` is the digest in hexadecimal.
pub record Host : Type 0 where
  pub parse_number : String → Number
  pub parse_date : String → Option ℤ
  pub to_iso : ℤ → Option String
  pub quote : String → String
  pub locale_le : String → String → Bool
  pub sha256 : String → String

digit_text : ℕ → String
digit_text zero = "0"
digit_text (suc zero) = "1"
digit_text (suc (suc zero)) = "2"
digit_text (suc (suc (suc zero))) = "3"
digit_text (suc (suc (suc (suc zero)))) = "4"
digit_text (suc (suc (suc (suc (suc zero))))) = "5"
digit_text (suc (suc (suc (suc (suc (suc zero)))))) = "6"
digit_text (suc (suc (suc (suc (suc (suc (suc zero))))))) = "7"
digit_text (suc (suc (suc (suc (suc (suc (suc (suc zero)))))))) = "8"
digit_text (suc (suc (suc (suc (suc (suc (suc (suc (suc n))))))))) = "9"

-- The decimal digits of a number below 10 to the fuel. From 10^21 on JavaScript prints an exponent,
-- and such a number is an `other`.
decimal : ℕ → ℕ → String
unfolding digit_text
decimal zero n = ""
decimal (suc fuel) n =
    let front = decimal fuel (n / 10) in
    if ltb n 10 then digit_text n else front ++ digit_text (n % 10)

unfoldable pub number_text : Number → String
unfolding decimal
number_text (integer (pos n)) = decimal 21 n
number_text (integer (negsuc n)) = "-" ++ decimal 21 (suc n)
number_text (other s) = s

abbrev pub boolean_text : Bool → String
boolean_text true = "true"
boolean_text false = "false"

-- `String(value)`; an array joins its items with commas, `null` and `undefined` as empty texts.
unfoldable mutual
  unfolding number_text

  pub to_text : Value → String
  to_text undefined = "undefined"
  to_text null = "null"
  to_text (boolean b) = boolean_text b
  to_text (number n) = number_text n
  to_text (string s) = s
  to_text (array xs) = join xs
  to_text (object fs) = "[object Object]"

  pub item_text : Value → String
  item_text undefined = ""
  item_text null = ""
  item_text (boolean b) = boolean_text b
  item_text (number n) = number_text n
  item_text (string s) = s
  item_text (array xs) = join xs
  item_text (object fs) = "[object Object]"

  pub join : Items → String
  join nil = ""
  join (cons x nil) = item_text x
  join (cons x (cons y ys)) = item_text x ++ ("," ++ join (cons y ys))

-- `Number(value ?? 1)`
unfoldable pub to_number_or_one : Host → Value → Number
unfolding to_text
to_number_or_one host undefined = integer (pos 1)
to_number_or_one host null = integer (pos 1)
to_number_or_one host (boolean true) = integer (pos 1)
to_number_or_one host (boolean false) = integer (pos 0)
to_number_or_one host (number n) = n
to_number_or_one host (string s) = host.parse_number s
to_number_or_one host (array xs) = host.parse_number (join xs)
to_number_or_one host (object fs) = host.parse_number "[object Object]"
