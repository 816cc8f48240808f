-- ===== src/State/Canonical.antt =====
-- `canonicalJson` of src/shared/canonical-json.ts. -0, which it refuses, is 0 here.
use Prim.Native.String.{◌++◌}
use my_shtty_pi_herdr_deck.Base.{String, List, [], ◌∷◌, map, if◌then◌else◌, ok, err, includes}
use my_shtty_pi_herdr_deck.Base.Sort.{sort}
use my_shtty_pi_herdr_deck.Base.Json.{
  Number, integer, other, Value, undefined, null, boolean, number, string, array, object, Items,
  nil, cons, Fields, end, field,
}
use my_shtty_pi_herdr_deck.State.Host.{Host, number_text, boolean_text}
use my_shtty_pi_herdr_deck.State.Event.{◌>>=◌, OrchestratorError, type_error, Reduced}

abbrev pub not_canonical : OrchestratorError
not_canonical = record { code = type_error; message = "Value is not canonical JSON." }

-- `list.join(",")`
unfoldable pub comma_joined : List String → String
comma_joined [] = ""
comma_joined (text ∷ []) = text
comma_joined (text ∷ next ∷ rest) = text ++ ("," ++ comma_joined (next ∷ rest))

-- `JSON.stringify` of a finite number.
abbrev pub number_json : Number → Reduced String
number_json (integer z) = ok (number_text (integer z))
number_json (other s) =
    if includes ("NaN" ∷ "Infinity" ∷ "-Infinity" ∷ []) s then err not_canonical else ok s

-- The entries of an object as text, in the order of their keys.
abbrev pub object_json : Host → List (String × String) → String
object_json host entries =
    "{"
    ++ (comma_joined (
          map (λ entry. host.quote entry.0 ++ (":" ++ entry.1))
            (sort (λ a b. host.locale_le a.0 b.0) entries))
        ++ "}")

unfoldable mutual
  unfolding comma_joined

  pub canonical_json : Host → Value → Reduced String
  canonical_json host undefined = err not_canonical
  canonical_json host null = ok "null"
  canonical_json host (boolean b) = ok (boolean_text b)
  canonical_json host (number n) = number_json n
  canonical_json host (string s) = ok (host.quote s)
  canonical_json host (array xs) = do
    texts ← canonical_items host xs
    ok ("[" ++ (comma_joined texts ++ "]"))
  canonical_json host (object fs) = do
    entries ← canonical_fields host fs
    ok (object_json host entries)

  pub canonical_items : Host → Items → Reduced (List String)
  canonical_items host nil = ok []
  canonical_items host (cons x xs) = do
    first ← canonical_json host x
    rest ← canonical_items host xs
    ok (first ∷ rest)

  -- A field that is `undefined` is left out.
  pub canonical_fields : Host → Fields → Reduced (List (String × String))
  canonical_fields host end = ok []
  canonical_fields host (field key undefined rest) = canonical_fields host rest
  canonical_fields host (field key value rest) = do
    first ← canonical_json host value
    others ← canonical_fields host rest
    ok ((key, first) ∷ others)
