-- ===== src/Tests/Lines.antt =====
-- A line of the stock importer.
use cdk_gpt.Prelude.{
  ◌≡◌, refl, List, [], ◌∷◌, Text, codes, some, starts_with, text_eq, trim, trim_start, every_row,
  any_row,
}
use cdk_gpt.Pattern.{Pattern, split_at_first, parse_line, value_of, format_payload}
use cdk_gpt.Pattern.RoundTrip.{Separated, entries_of, parse_line-format}
use cdk_gpt.Pattern.Template.{
  parse_template, has_braces, parse_custom, scan_keys, match_key, before_brace, parted,
}
use cdk_gpt.Pattern.Template.Reads.{template_reads_back}

-- `Email={{email}} | Pass={{password}}`
abbrev pattern_of_mail : Pattern
pattern_of_mail = record {
  prefix = codes "Email=";
  fields = (codes "email", codes " | Pass=") ∷ (codes "password", []) ∷ [];
}

-- The password has the literal in it.
abbrev account : List (Text × Text)
account = (codes "email", codes "a@b.c") ∷ (codes "password", codes "x | Pass=y") ∷ []

account-Separated : Separated account pattern_of_mail.fields
unfolding split_at_first value_of starts_with text_eq
account-Separated = (refl, tt)

parse_line-format_example :
    parse_line (format_payload account pattern_of_mail) pattern_of_mail
    ≡ some (entries_of account pattern_of_mail.fields)
parse_line-format_example = parse_line-format account pattern_of_mail account-Separated

template_reads_back_example :
    parse_line (format_payload account pattern_of_mail) pattern_of_mail
    ≡ some (entries_of account pattern_of_mail.fields)
unfolding parse_template trim trim_start has_braces starts_with parse_custom scan_keys match_key
    before_brace every_row any_row parted value_of text_eq
template_reads_back_example =
    template_reads_back (codes " Email={{ email }} | Pass={{password}}") pattern_of_mail account
      refl (refl, tt)
