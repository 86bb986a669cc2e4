-- ===== src/Pattern/Template.antt =====
-- The parsing of a template: `parseInventoryPatternTemplate` and `parseCustomInventoryPattern`
-- (packages/shared/src/index.ts). White space is that of ASCII text.
pub mod Reads
use cdk_gpt.Prelude.{
  ℕ, zero, suc, ◌+◌, Bool, true, false, ◌&&◌, ◌||◌, not, Option, none, some, List, [], ◌∷◌, Text,
  codes, starts_with, drop, length, trim, leb, ◌==◌, if◌then◌else◌, every_row, any_row,
}
use cdk_gpt.Pattern.{Pattern}

abbrev pub is_lower_or_digit : ℕ → Bool
is_lower_or_digit c = (leb b'a' c && leb c b'z') || (leb b'0' c && leb c b'9')

-- `[A-Za-z0-9_]`
abbrev pub is_word_char : ℕ → Bool
is_word_char c = is_lower_or_digit c || (leb b'A' c && leb c b'Z') || c == b'_'

-- `LEGACY_INVENTORY_KEY_PATTERN`
unfoldable pub is_legacy_key : Text → Bool
is_legacy_key [] = false
is_legacy_key (c ∷ s) =
    is_lower_or_digit c && every_row (λ d. is_lower_or_digit d || d == b'_') s && leb (length s) 63

abbrev pub put_word : ℕ → List (Text × Text) → List (Text × Text)
put_word c [] = (c ∷ [], []) ∷ []
put_word c ((w, l) ∷ fields) = (c ∷ w, l) ∷ fields

abbrev pub put_separator : ℕ → List (Text × Text) → List (Text × Text)
put_separator c (([], d ∷ l) ∷ fields) = ([], c ∷ d ∷ l) ∷ fields
put_separator c fields = ([], c ∷ []) ∷ fields

-- `pattern.split(/([^A-Za-z0-9_]+)/)`: each word, which may be empty, with the separator behind it.
unfoldable pub split_words : Text → List (Text × Text)
split_words [] = ([], []) ∷ []
split_words (c ∷ s) =
    let fields = split_words s in
    if is_word_char c then put_word c fields else put_separator c fields

-- The part of `parseInventoryPatternTemplate` for the compact form.
unfoldable pub parse_legacy : Text → Option Pattern
parse_legacy pattern =
    if every_row (λ (f : Text × Text). is_legacy_key f.0) (split_words pattern)
    then some (record { prefix = []; fields = split_words pattern })
    else none

abbrev pub is_brace : ℕ → Bool
is_brace c = c == b'{' || c == b'}'

abbrev pub put_front : ℕ → Text × Text → Text × Text
put_front c (k, rest) = (c ∷ k, rest)

-- `[^{}]+`, as much of it as there is, and what is behind.
unfoldable pub before_brace : Text → Text × Text
before_brace [] = ([], [])
before_brace (c ∷ s) = let r = before_brace s in if is_brace c then ([], c ∷ s) else put_front c r

-- `/\{\{\s*([^{}]+?)\s*\}\}/`, at the front: the trimmed key, and the length of the match less one.
unfoldable pub match_key : Text → Option (Text × ℕ)
match_key s =
    let (k, rest) = before_brace (drop 2 s) in
    if starts_with (codes "{{") s && leb 1 (length k) && starts_with (codes "}}") rest
    then some (trim k, length k + 3)
    else none

abbrev pub put_literal : ℕ → Text × List (Text × Text) → Text × List (Text × Text)
put_literal c (l, fields) = (c ∷ l, fields)

abbrev pub put_key : Text → Text × List (Text × Text) → Text × List (Text × Text)
put_key k (l, fields) = ([], (k, l) ∷ fields)

-- The loop over the matches: the literal in front, and each key with the literal behind it. So many
-- characters belong to the last match.
unfoldable pub scan_keys : ℕ → Text → Text × List (Text × Text)
scan_keys n [] = ([], [])
scan_keys (suc n) (c ∷ s) = scan_keys n s
scan_keys zero (c ∷ s) = elim (match_key (c ∷ s)) [
  | none ↦ put_literal c (scan_keys zero s)
  | some m ↦ put_key m.0 (scan_keys m.1 s)
]

-- `UNSAFE_INVENTORY_KEY_PATTERN`, of one character.
abbrev pub is_unsafe_char : ℕ → Bool
is_unsafe_char c = c == b'.' || c == b'$' || leb c 31 || c == 127 || is_brace c

abbrev pub is_custom_key : Text → Bool
is_custom_key key = leb 1 (length key) && leb (length key) 64 && not (any_row is_unsafe_char key)

unfoldable pub has_braces : Text → Bool
has_braces [] = false
has_braces (c ∷ s) =
    starts_with (codes "{{") (c ∷ s) || starts_with (codes "}}") (c ∷ s) || has_braces s

-- No literal between two keys is empty.
unfoldable pub parted : List (Text × Text) → Bool
parted [] = true
parted (f ∷ []) = true
parted (f ∷ g ∷ fields) = leb 1 (length f.1) && parted (g ∷ fields)

abbrev pub pattern_of : Text × List (Text × Text) → Option Pattern
pattern_of (prefix, fields) =
    if every_row (λ (f : Text × Text). is_custom_key f.0) fields
      && leb 1 (length fields)
      && not (has_braces prefix)
      && not (any_row (λ (f : Text × Text). has_braces f.1) fields)
      && parted fields
    then some (record { prefix = prefix; fields = fields })
    else none

-- `parseCustomInventoryPattern`
unfoldable pub parse_custom : Text → Option Pattern
parse_custom pattern = pattern_of (scan_keys 0 pattern)

-- `parseInventoryPatternTemplate`: nothing where it throws.
unfoldable pub parse_template : Text → Option Pattern
parse_template value =
    let pattern = trim value in
    if leb (length pattern) 0
    then none
    else (if has_braces pattern then parse_custom pattern else parse_legacy pattern)
