-- ===== src/Tests/Reports.antt =====
-- A report on an account: a transfer that the bank shows twice, and one that is not in the ledger.
use cdk_gpt.Prelude.{
  ℕ, ◌≡◌, refl, ◌≤◌, ◌+◌, ◌↔◌, false, Option, none, some, List, [], ◌∷◌, codes, int, pos, text_eq,
  total, length, pos_part, neg_part, to_upper, any_row, find_all, starts_with, every_row, eq_text?,
  find_first, trim, trim_start, find_and_update, update_all, count_if, ◌+ℤ◌,
}
use cdk_gpt.Store.{Provider, PaymentRequestStatus, deposit, payment_request}
use cdk_gpt.Payment.Bank.{BankTransaction}
use cdk_gpt.Reconcile.{
  RequestDoc, WalletDoc, WorkingTransaction, deduplicate_transactions, normalize_type,
  integer_amount, merge_lines, merge_line, add_entry, same_key, same_id, same_transaction,
}
use cdk_gpt.Reconcile.Rows.{
  CustomerNames, build_item, matched, legacy_bank_id, status_of, scope_uncertain, request_in_row,
  wallet_belongs_to_row, is_expected_key, public_request, row_notes,
}
use cdk_gpt.Reconcile.Report.{
  BankHistorySnapshot, reconcile, summary_of, rows_of, find_wallet_transactions,
  find_payment_requests, codes_of, references_of, sum_differences,
}
use cdk_gpt.Payment.Transfers.{extract_transfer_codes, distinct_from, words_from, is_transfer_code}
use cdk_gpt.Reconcile.Duplicates.{Distinct, transactions_of, lines_of, deduplicate_keeps_lines}
use cdk_gpt.Reconcile.Matched.{IsSettled, build_item-matched}
use cdk_gpt.Reconcile.Ledger.{ledger_amount, reconcile_counts_once}
use cdk_gpt.Reconcile.Totals.{reconcile_accounts}

abbrev line : BankTransaction
line = record {
  transaction_id = codes "FT1";
  amount = int (pos 100);
  description = codes "DON0123456789ABCDEF";
  transaction_date = none;
  kind = some (codes "IN");
}

abbrev stray : BankTransaction
stray = record line { transaction_id = codes "FT2"; description = codes "hello" }

abbrev history : List BankTransaction
history = line ∷ stray ∷ line ∷ []

abbrev asked : RequestDoc
asked = record {
  id = 40;
  request_code = codes "DON0123456789ABCDEF";
  user_id = 1;
  amount = int (pos 100);
  provider = Provider.bank_api;
  provider_reference = some (codes "bank:B1:FT1");
  status = PaymentRequestStatus.approved;
  rejection_reason = none;
  wallet_transaction_id = some 50;
  metadata = record {
    bank_config_id = some (codes "B1");
    user_cancelled = false;
    amount_mismatch = none;
    quick_checkout_status = none;
  };
  deleted_at = none;
}

abbrev credited : WalletDoc
credited = record {
  id = 50;
  user_id = 1;
  amount = int (pos 100);
  kind = deposit;
  reference_type = payment_request;
  reference_id = some 40;
  idempotency_key = codes "deposit:bank:bank:B1:FT1";
  metadata = record { bank_config_id = none; transaction_id = none };
}

abbrev nobody : ℕ → Option CustomerNames
nobody id = none

abbrev snapshot : BankHistorySnapshot
snapshot = record {
  transactions = history;
  raw_count = 3;
  valid_count = 3;
  discarded_count = 0;
  truncated = false;
}

abbrev seen_twice : WorkingTransaction
seen_twice = record { transaction = line; duplicate_count = 1; duplicate_conflict = false }

deduplicate_keeps_lines_example :
    Distinct (transactions_of (deduplicate_transactions history))
    × (total lines_of (deduplicate_transactions history) ≡ 3)
deduplicate_keeps_lines_example = deduplicate_keeps_lines history

build_item-matched_example :
    ((build_item (codes "B1") (asked ∷ []) (credited ∷ []) nobody seen_twice).status ≡ matched)
    ↔ IsSettled (codes "B1") (asked ∷ []) (credited ∷ []) seen_twice
build_item-matched_example =
    build_item-matched (codes "B1") (asked ∷ []) (credited ∷ []) nobody seen_twice

other_bank : text_eq (codes "B1") legacy_bank_id ≡ false
unfolding text_eq
other_bank = refl

reconcile_counts_once_example :
    (reconcile (codes "B1") nobody (asked ∷ []) (credited ∷ []) snapshot).summary.credited_amount
    ≤ total ledger_amount (credited ∷ [])
reconcile_counts_once_example =
    reconcile_counts_once (codes "B1") nobody (asked ∷ []) (credited ∷ []) snapshot other_bank

reconcile_accounts_example :
    ((reconcile (codes "B1") nobody (asked ∷ []) (credited ∷ []) snapshot).duplicate_count
        + length (reconcile (codes "B1") nobody (asked ∷ []) (credited ∷ []) snapshot).items
      ≡ 3)
    × (pos_part
            (reconcile (codes "B1") nobody (asked ∷ []) (credited ∷ []) snapshot).summary.difference
          + (reconcile
              (codes "B1")
              nobody
              (asked ∷ [])
              (credited ∷ [])
              snapshot).summary.credited_amount
        ≡ neg_part
            (reconcile (codes "B1") nobody (asked ∷ []) (credited ∷ []) snapshot).summary.difference
          + (reconcile
              (codes "B1")
              nobody
              (asked ∷ [])
              (credited ∷ [])
              snapshot).summary.incoming_amount)
reconcile_accounts_example =
    reconcile_accounts (codes "B1") nobody (asked ∷ []) (credited ∷ []) snapshot

shown_as_matched :
    (build_item (codes "B1") (asked ∷ []) (credited ∷ []) nobody seen_twice).status ≡ matched
unfolding build_item normalize_type text_eq to_upper status_of scope_uncertain any_row find_all
    request_in_row extract_transfer_codes distinct_from words_from is_transfer_code starts_with
    every_row eq_text? total wallet_belongs_to_row find_first trim trim_start is_expected_key
    public_request row_notes integer_amount
shown_as_matched = refl

credited_in_report :
    (reconcile (codes "B1") nobody (asked ∷ []) (credited ∷ []) snapshot).summary.credited_amount
    ≡ 100
unfolding build_item normalize_type text_eq to_upper status_of scope_uncertain any_row find_all
    request_in_row extract_transfer_codes distinct_from words_from is_transfer_code starts_with
    every_row eq_text? total wallet_belongs_to_row find_first trim trim_start is_expected_key
    public_request row_notes integer_amount reconcile summary_of rows_of merge_lines merge_line
    find_and_update add_entry update_all same_key same_id same_transaction find_wallet_transactions
    find_payment_requests codes_of references_of sum_differences count_if ◌+ℤ◌
credited_in_report = refl
