-- ===== src/Pattern/Template/Reads.antt =====
-- The lines of a pattern that a template gives.
use cdk_gpt.Prelude.{
  ℕ, ◌≡◌, refl, Bool, true, not, some, List, [], ◌∷◌, ◌++◌, Text, arith, starts_with, drop, length,
  ◌==◌, every_row, trim, Bool-cases, inl, inr,
}
use cdk_gpt.Pattern.{Pattern, split_at_first, parse_line, value_of, format_payload}
use cdk_gpt.Pattern.RoundTrip.{Separated, entries_of, parse_line-format}
use cdk_gpt.Pattern.Template.{
  put_word, put_separator, split_words, parse_legacy, parse_custom, scan_keys, parted, pattern_of,
  parse_template, is_word_char,
}

parted-put_word :
    (c : ℕ) (fields : List (Text × Text)) → parted fields ≡ true → parted (put_word c fields) ≡ true
unfolding parted
parted-put_word c [] h = refl
parted-put_word c ((w, l) ∷ []) h = refl
parted-put_word c ((w, l) ∷ g ∷ fields) h = h

parted-put_separator :
    (c : ℕ) (fields : List (Text × Text))
    → parted fields ≡ true
    → parted (put_separator c fields) ≡ true
unfolding parted
parted-put_separator c [] h = refl
parted-put_separator c (([], []) ∷ fields) h = h
parted-put_separator c (([], d ∷ l) ∷ []) h = refl
parted-put_separator c (([], d ∷ l) ∷ g ∷ fields) h = ground arith
parted-put_separator c ((x ∷ w, l) ∷ fields) h = h

parted-split_words : (s : Text) → parted (split_words s) ≡ true
unfolding split_words parted
parted-split_words [] = refl
parted-split_words (c ∷ s) = elim (Bool-cases (is_word_char c)) [
  | inl word ↦ rw word (parted-put_word c (split_words s) (parted-split_words s))
  | inr other ↦ rw other (parted-put_separator c (split_words s) (parted-split_words s))
]

parted-parse_legacy : (s : Text) (p : Pattern) → parse_legacy s ≡ some p → parted p.fields ≡ true
unfolding parse_legacy
parted-parse_legacy s p e = ground (arith, parted-split_words s)

parted-pattern_of :
    (r : Text × List (Text × Text)) (p : Pattern) → pattern_of r ≡ some p → parted p.fields ≡ true
parted-pattern_of (prefix, fields) p e = ground arith

parted-parse_template :
    (value : Text) (p : Pattern) → parse_template value ≡ some p → parted p.fields ≡ true
unfolding parse_template parse_custom
parted-parse_template value p e =
    ground
      (arith, parted-parse_legacy (trim value) p, parted-pattern_of (scan_keys 0 (trim value)) p)

starts_with_refl : (s : Text) → starts_with s s ≡ true
unfolding starts_with
starts_with_refl [] = refl
starts_with_refl (c ∷ s) = ground (arith, starts_with_refl s)

drop_all : (s : Text) → drop (length s) s ≡ []
drop_all [] = refl
drop_all (c ∷ s) = drop_all s

-- The value has nothing of the first character of the literal.
abbrev pub avoids : Text → Text → Bool
avoids [] v = true
avoids (c ∷ literal) v = every_row (λ d. not (c == d)) v

-- Each value but the last avoids the literal behind it.
abbrev pub Apart : List (Text × Text) → List (Text × Text) → Type 0
Apart payload [] = Unit
Apart payload ((key, literal) ∷ []) = Unit
Apart payload ((key, literal) ∷ field ∷ fields) =
    (avoids literal (value_of key payload) ≡ true) × Apart payload (field ∷ fields)

split-avoids :
    (c : ℕ) (literal v : Text)
    → every_row (λ d. not (c == d)) v ≡ true
    → split_at_first (c ∷ literal) (v ++ c ∷ literal) ≡ some (v, [])
unfolding split_at_first every_row starts_with
split-avoids c literal [] h = ground (arith, starts_with_refl literal, drop_all literal)
split-avoids c literal (d ∷ v) h = ground (arith, split-avoids c literal v)

Apart-Separated :
    (payload fields : List (Text × Text))
    → parted fields ≡ true
    → Apart payload fields
    → Separated payload fields
unfolding parted
Apart-Separated payload [] h a = tt
Apart-Separated payload ((key, literal) ∷ []) h a = tt
Apart-Separated payload ((key, []) ∷ field ∷ fields) h a = cc
Apart-Separated payload ((key, c ∷ literal) ∷ field ∷ fields) h a = (
  split-avoids c literal (value_of key payload) a.0,
  Apart-Separated payload (field ∷ fields) (ground arith) a.1,
)

-- A template that is accepted, in either form, gives a pattern by which a line is read back as it was
-- written: for every payload of which each value but the last has nothing of the first character of the
-- literal behind it.
pub template_reads_back :
    (value : Text) (pattern : Pattern) (payload : List (Text × Text))
    → parse_template value ≡ some pattern
    → Apart payload pattern.fields
    → parse_line (format_payload payload pattern) pattern ≡ some (entries_of payload pattern.fields)
template_reads_back value pattern payload e a =
    parse_line-format payload pattern
      (Apart-Separated payload pattern.fields (parted-parse_template value pattern e) a)
