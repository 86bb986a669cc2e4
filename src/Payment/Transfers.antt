-- ===== src/Payment/Transfers.antt =====
-- The texts of bank transfers: `extractTransferCodes` and `scopedBankReference`
-- (apps/api/src/payment/payment.service.ts). The expression looks for words, runs of letters and digits
-- with nothing of the kind before and behind; here the text is parted into such words.
use cdk_gpt.Prelude.{
  ℕ, Bool, true, false, ◌&&◌, ◌||◌, Option, none, some, List, [], ◌∷◌, ◌++◌, Text, codes, text_eq,
  to_upper, starts_with, drop, length, every_row, any_row, leb, ◌==◌, find_all,
}

abbrev pub is_word_char : ℕ → Bool
is_word_char c = (leb b'A' c && leb c b'Z') || (leb b'0' c && leb c b'9')

abbrev pub is_hex_char : ℕ → Bool
is_hex_char c = (leb b'A' c && leb c b'F') || (leb b'0' c && leb c b'9')

-- The maximal words of a text: `current` is the word that is being read.
unfoldable pub words_from : Text → Text → List Text
words_from current [] = current ∷ []
words_from current (c ∷ s) = elim (is_word_char c) [
  | true ↦ words_from (current ++ c ∷ []) s
  | false ↦ current ∷ words_from [] s
]

-- (?:NAP|DON)[A-F0-9]{16}
unfoldable pub is_transfer_code : Text → Bool
is_transfer_code w =
    (starts_with (codes "NAP") w || starts_with (codes "DON") w)
    && length w == 19
    && every_row is_hex_char (drop 3 w)

-- `[...new Set(codes)]`: the first of each.
unfoldable pub distinct_from : List Text → List Text → List Text
distinct_from seen [] = []
distinct_from seen (x ∷ xs) = elim (any_row (text_eq x) seen) [
  | true ↦ distinct_from seen xs
  | false ↦ x ∷ distinct_from (x ∷ seen) xs
]

-- `extractTransferCodes`
unfoldable pub extract_transfer_codes : Text → List Text
extract_transfer_codes description =
    distinct_from [] (find_all is_transfer_code (words_from [] (to_upper description)))

-- `scopedBankReference`
unfoldable pub scoped_bank_reference : Text → Option Text → Text
scoped_bank_reference reference none = reference
scoped_bank_reference reference (some id) = elim id [
  | [] ↦ reference
  | c ∷ cs ↦ codes "bank:" ++ (c ∷ cs) ++ codes ":" ++ reference
]
