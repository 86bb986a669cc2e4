-- ===== src/Pattern/RoundTrip.antt =====
-- A payload that is written by a pattern is read back by it.
use mathlib.Core.List.{append-nil}
use cdk_gpt.Prelude.{
  ℕ, zero, suc, ◌≤◌, ◌≡◌, refl, ap, true, false, Option, none, some, List, [], ◌∷◌, ◌++◌, Text,
  arith, text_eq, text_eq_refl, text_eq→eq, starts_with, drop, length, length-append, Bool-cases,
  inl, inr,
}
use cdk_gpt.Pattern.{
  Pattern, split_at_first, strip_suffix, cons_left, parse_fields, parse_line, value_of,
  format_fields, format_payload,
}

-- A text starts with what is in front.
starts_with-append : (p s : Text) → starts_with p (p ++ s) ≡ true
unfolding starts_with
starts_with-append [] s = refl
starts_with-append (c ∷ p) s = ground (arith, starts_with-append p s)

drop-append : (p s : Text) → drop (length p) (p ++ s) ≡ s
drop-append [] s = refl
drop-append (c ∷ p) s = drop-append p s

-- More text behind changes nothing for a text that is long enough.
starts_with-longer :
    (p s rest : Text) → length p ≤ length s → starts_with p (s ++ rest) ≡ starts_with p s
unfolding starts_with
starts_with-longer [] s rest h = refl
starts_with-longer (c ∷ p) [] rest h = absurd (omega arith)
starts_with-longer (c ∷ p) (d ∷ s) rest h = ground (arith, starts_with-longer p s rest)

drop-longer : (n : ℕ) (s rest : Text) → n ≤ length s → drop n (s ++ rest) ≡ drop n s ++ rest
drop-longer zero s rest h = refl
drop-longer (suc n) [] rest h = absurd (omega arith)
drop-longer (suc n) (c ∷ s) rest h = drop-longer n s rest (omega arith)

starts_with-length : (p s : Text) → starts_with p s ≡ true → length p ≤ length s
unfolding starts_with
starts_with-length [] s h = omega arith
starts_with-length (c ∷ p) [] h = cc
starts_with-length (c ∷ p) (d ∷ s) h = ground (arith, starts_with-length p s)

cons_left-some :
    (c : ℕ) (r : Option (Text × Text)) (a b : Text)
    → cons_left c r ≡ some (a, b)
    → (v : Text) × (r ≡ some (v, b)) × (a ≡ c ∷ v)
cons_left-some c none a b e = cc
cons_left-some c (some (v, rest)) a b e = (v, ground arith, ground arith)

split-length :
    (literal s a b : Text) → split_at_first literal s ≡ some (a, b) → length literal ≤ length s
unfolding split_at_first
split-length literal [] a b e = ground (arith, starts_with-length literal [])
split-length literal (c ∷ s) a b e = elim (Bool-cases (starts_with literal (c ∷ s))) [
  | inl here ↦ starts_with-length literal (c ∷ s) here
  | inr there ↦
      let (v, found, same) = cons_left-some c (split_at_first literal s) a b (rw there at e) in
      let shorter : length literal ≤ length s = split-length literal s v b found in omega arith
]

-- The first occurrence stays the first, whatever comes behind.
split-longer :
    (literal s rest a b : Text)
    → split_at_first literal s ≡ some (a, b)
    → split_at_first literal (s ++ rest) ≡ some (a, b ++ rest)
unfolding split_at_first starts_with
split-longer [] [] [] a b e = ground arith
split-longer [] [] (d ∷ rest) a b e = ground arith
split-longer (c ∷ literal) [] rest a b e = cc
split-longer literal (c ∷ s) rest a b e = elim (Bool-cases (starts_with literal (c ∷ s))) [
  | inl here ↦
      let enough : length literal ≤ length (c ∷ s) = starts_with-length literal (c ∷ s) here in
      rw
        (
          starts_with-longer literal (c ∷ s) rest enough,
          here,
          drop-longer (length literal) (c ∷ s) rest enough,
        )
        (ground arith)
  | inr there ↦
      let (v, found, same) = cons_left-some c (split_at_first literal s) a b (rw there at e) in
      let shorter : length literal ≤ length s = split-length literal s v b found in
      rw
        (
          starts_with-longer literal (c ∷ s) rest (omega arith),
          there,
          split-longer literal s rest v b found,
          same,
        )
        refl
]

not_its_own_tail : (c : ℕ) (v literal : Text) → text_eq (c ∷ v ++ literal) literal ≡ false
not_its_own_tail c v literal = elim (Bool-cases (text_eq (c ∷ v ++ literal) literal)) [
  | inl same ↦ absurd (
      omega
        (arith, ap length (text_eq→eq (c ∷ v ++ literal) literal same), length-append v literal))
  | inr other ↦ other
]

-- What is in front of a suffix comes back.
strip_suffix-append : (v literal : Text) → strip_suffix literal (v ++ literal) ≡ some v
unfolding strip_suffix
strip_suffix-append [] [] = ground (arith, text_eq_refl [])
strip_suffix-append [] (c ∷ literal) = rw (text_eq_refl (c ∷ literal)) refl
strip_suffix-append (c ∷ v) literal =
    rw (not_its_own_tail c v literal, strip_suffix-append v literal) refl

-- The values of the payload, in the order of the pattern.
abbrev pub entries_of : List (Text × Text) → List (Text × Text) → List (Text × Text)
entries_of payload [] = []
entries_of payload ((key, literal) ∷ fields) =
    (key, value_of key payload) ∷ entries_of payload fields

-- Each value but the last ends where the literal behind it first occurs.
abbrev pub Separated : List (Text × Text) → List (Text × Text) → Type 0
Separated payload [] = Unit
Separated payload ((key, literal) ∷ []) = Unit
Separated payload ((key, literal) ∷ field ∷ fields) =
    (split_at_first literal (value_of key payload ++ literal) ≡ some (value_of key payload, []))
    × Separated payload (field ∷ fields)

parse_fields-format :
    (payload fields : List (Text × Text))
    → Separated payload fields
    → parse_fields fields (format_fields payload fields) ≡ some (entries_of payload fields)
unfolding parse_fields format_fields
parse_fields-format payload [] h = refl
parse_fields-format payload ((key, literal) ∷ []) h =
    rw
      (
        append-nil (value_of key payload ++ literal),
        parse_fields,
        strip_suffix-append (value_of key payload) literal,
      )
      refl
parse_fields-format payload ((key, literal) ∷ field ∷ fields) h =
    let v : Text = value_of key payload in
    let rest : Text = format_fields payload (field ∷ fields) in
    let split : split_at_first literal (v ++ literal ++ rest) ≡ some (v, rest) =
      split-longer literal (v ++ literal) rest v [] h.0 in
    rw (parse_fields, split, parse_fields-format payload (field ∷ fields) h.1) refl

-- A line that is written from a payload by a pattern is read back, by the same pattern, as the values of the
-- payload: under the condition that each value but the last is followed by the first occurrence of
-- the literal behind it. The last value may contain anything.
pub parse_line-format :
    (payload : List (Text × Text)) (pattern : Pattern)
    → Separated payload pattern.fields
    → parse_line (format_payload payload pattern) pattern ≡ some (entries_of payload pattern.fields)
unfolding parse_line format_payload
parse_line-format payload pattern h =
    let body : Text = format_fields payload pattern.fields in
    rw (starts_with-append pattern.prefix body, drop-append pattern.prefix body)
      (parse_fields-format payload pattern.fields h)
