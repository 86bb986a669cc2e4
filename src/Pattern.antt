-- ===== src/Pattern.antt =====
-- The lines of the stock importer: `parseInventoryPatternLine` and `formatInventoryPatternPayload`
-- (packages/shared/src/index.ts). A pattern is a text in front, and for each key the text behind its
-- value. The values of a line stand in the order of the keys.
pub mod RoundTrip
pub mod Template
use cdk_gpt.Prelude.{
  ℕ, zero, suc, Bool, true, false, Option, none, some, List, [], ◌∷◌, ◌++◌, Text, text_eq,
  starts_with, drop, length, if◌then◌else◌,
}

-- `InventoryPatternDefinition`, each key with the literal behind it.
pub record Pattern : Type 0 where
  pub prefix : Text
  pub fields : List (Text × Text)

abbrev pub cons_left : ℕ → Option (Text × Text) → Option (Text × Text)
cons_left c none = none
cons_left c (some (v, rest)) = some (c ∷ v, rest)

-- `line.indexOf(literal, cursor)`: the text in front of the first occurrence, and the text behind it.
unfoldable pub split_at_first : Text → Text → Option (Text × Text)
split_at_first literal [] = if starts_with literal [] then some ([], []) else none
split_at_first literal (c ∷ s) =
    if starts_with literal (c ∷ s)
    then some ([], drop (length literal) (c ∷ s))
    else cons_left c (split_at_first literal s)

abbrev pub cons_value : ℕ → Option Text → Option Text
cons_value c none = none
cons_value c (some v) = some (c ∷ v)

-- `line.endsWith(literal)`, behind the cursor: the text in front of the suffix.
unfoldable pub strip_suffix : Text → Text → Option Text
strip_suffix literal [] = if text_eq [] literal then some [] else none
strip_suffix literal (c ∷ s) =
    if text_eq (c ∷ s) literal then some [] else cons_value c (strip_suffix literal s)

abbrev pub cons_entry : Text → Text → Option (List (Text × Text)) → Option (List (Text × Text))
cons_entry key v none = none
cons_entry key v (some entries) = some ((key, v) ∷ entries)

-- The loop over the keys, from the cursor on. The last value ends where the suffix of the line begins.
unfoldable pub parse_fields : List (Text × Text) → Text → Option (List (Text × Text))
parse_fields [] rest = some []
parse_fields ((key, literal) ∷ []) rest = elim (strip_suffix literal rest) [
  | none ↦ none
  | some v ↦ some ((key, v) ∷ [])
]
parse_fields ((key, literal) ∷ field ∷ fields) rest = elim (split_at_first literal rest) [
  | none ↦ none
  | some r ↦ cons_entry key r.0 (parse_fields (field ∷ fields) r.1)
]

-- `parseInventoryPatternLine`: the keys with their values, or nothing where it throws.
unfoldable pub parse_line : Text → Pattern → Option (List (Text × Text))
parse_line line pattern =
    if starts_with pattern.prefix line
    then parse_fields pattern.fields (drop (length pattern.prefix) line)
    else none

-- The value of a key in a payload, and nothing if it has none.
unfoldable pub value_of : Text → List (Text × Text) → Text
value_of key [] = []
value_of key ((k, v) ∷ payload) = if text_eq k key then v else value_of key payload

unfoldable pub format_fields : List (Text × Text) → List (Text × Text) → Text
format_fields payload [] = []
format_fields payload ((key, literal) ∷ fields) =
    value_of key payload ++ literal ++ format_fields payload fields

-- `formatInventoryPatternPayload`
unfoldable pub format_payload : List (Text × Text) → Pattern → Text
format_payload payload pattern = pattern.prefix ++ format_fields payload pattern.fields
