-- ===== src/Base/Json.antt =====
-- The values that a payload may hold, as JavaScript sees them, and the operators that the source
-- applies to values of unknown type.
use mathlib.Core.Bool.{Bool, true, false}
use mathlib.Core.List.{List, [], ◌∷◌}
use mathlib.Core.Option.{Option, none, some}
use Prim.Native.Nat.{suc, ◌^◌}
use Prim.Native.String.{String}
use text.Mathlib.Text.{◌==◌}
use my_shtty_pi_herdr_deck.Base.Tests.{ltb, if◌then◌else◌}
use my_shtty_pi_herdr_deck.Base.Int.{ℤ, pos, negsuc}

-- A number that is an integer, or any other one by the text that `String` gives. -0 is 0 here.
pub data Number : Type 0 where
  integer : ℤ → Number
  other : String → Number

mutual
  pub data Value : Type 0 where
    undefined null : Value
    boolean : Bool → Value
    number : Number → Value
    string : String → Value
    array : Items → Value
    object : Fields → Value

  pub data Items : Type 0 where
    nil : Items
    cons : Value → Items → Items

  pub data Fields : Type 0 where
    end : Fields
    field : String → Value → Fields → Fields

-- The largest safe integer is 2^53 - 1.
abbrev pub is_safe_integer : Number → Bool
is_safe_integer (integer (pos n)) = ltb n (2 ^ 53)
is_safe_integer (integer (negsuc n)) = ltb (suc n) (2 ^ 53)
is_safe_integer (other _) = false

-- `fields.key`; a field that is not there reads as `undefined`.
unfoldable pub get : String → Fields → Value
get k end = undefined
get k (field j v fs) = if j == k then v else get k fs

-- `typeof value === "string"`, with the text.
abbrev pub as_text : Value → Option String
as_text (string s) = some s
as_text _ = none

-- `Number.isSafeInteger(value)`, with the integer.
abbrev pub as_integer : Value → Option ℤ
as_integer (number (integer z)) = if is_safe_integer (integer z) then some z else none
as_integer _ = none

-- `typeof value === "boolean"`, with the truth value.
abbrev pub as_boolean : Value → Option Bool
as_boolean (boolean b) = some b
as_boolean _ = none

-- `value && typeof value === "object"`: an object or an array.
abbrev pub as_object : Value → Option Value
as_object (object fs) = some (object fs)
as_object (array xs) = some (array xs)
as_object _ = none

-- `value && typeof value === "object" && !Array.isArray(value)`
abbrev pub as_record : Value → Option Fields
as_record (object fs) = some fs
as_record _ = none

abbrev pub as_array : Value → Option Items
as_array (array xs) = some xs
as_array _ = none

-- `value === undefined`
abbrev pub is_undefined : Value → Bool
is_undefined undefined = true
is_undefined _ = false

-- `value === true`
abbrev pub is_true : Value → Bool
is_true (boolean b) = b
is_true _ = false

-- `value === "text"`
abbrev pub is_text : String → Value → Bool
is_text s (string t) = t == s
is_text s _ = false

-- `items.filter((item) => typeof item === "string")`
unfoldable pub texts : Items → List String
texts nil = []
texts (cons (string s) xs) = s ∷ texts xs
texts (cons _ xs) = texts xs

-- `items.every((item) => typeof item === "string")`
unfoldable pub all_texts : Items → Bool
all_texts nil = true
all_texts (cons (string s) xs) = all_texts xs
all_texts (cons _ xs) = false
