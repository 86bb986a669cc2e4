-- ===== src/Reconcile/Report.antt =====
-- The report of `BankReconciliationService`: its queries, `result` and `reconcile`. A query clause with no
-- values finds nothing, as the membership tests here do. The names of customers and the account's own data
-- are shown as they are and left out, and so are the texts of the warnings.
use cdk_gpt.Prelude.{
  ℕ, ◌+◌, Bool, true, false, ◌&&◌, ◌||◌, Option, none, some, List, [], ◌∷◌, ◌++◌, map, Text,
  text_eq, ltb, ◌==◌, if◌then◌else◌, any_row, find_all, count_if, total, length, ℤ, int, pos,
  Number, ◌+ℤ◌,
}
use cdk_gpt.Store.{WalletTransactionType, WalletReferenceType, deposit, payment_request}
use cdk_gpt.Payment.{is_bank}
use cdk_gpt.Payment.Bank.{BankTransaction}
use cdk_gpt.Payment.Transfers.{extract_transfer_codes, distinct_from}
use cdk_gpt.Reconcile.{
  RequestDoc, WalletDoc, incoming, outgoing, WorkingTransaction, deduplicate_transactions,
  same_flow,
}
use cdk_gpt.Reconcile.Rows.{
  ReconciliationStatus, matched, amount_mismatch, not_credited, unmatched, ambiguous,
  outgoing_transfer, received_rejected, received_expired, received_cancelled, duplicate, ReportItem,
  CustomerNames, legacy_bank_id, deposit_key, bank_reference, build_item,
}

-- `BankHistorySnapshot`
pub record BankHistorySnapshot : Type 0 where
  pub transactions : List BankTransaction
  pub raw_count : ℕ
  pub valid_count : ℕ
  pub discarded_count : ℕ
  pub truncated : Bool

-- The summary of a report.
pub record Summary : Type 0 where
  pub incoming_count : ℕ
  pub incoming_amount : ℕ
  pub outgoing_count : ℕ
  pub outgoing_amount : ℕ
  pub credited_amount : ℕ
  pub difference : ℤ
  pub matched_count : ℕ
  pub uncredited_count : ℕ
  pub mismatch_count : ℕ
  pub ambiguous_count : ℕ
  pub unmatched_count : ℕ
  pub rejected_received_count : ℕ
  pub rejected_received_amount : ℕ

pub record Report : Type 0 where
  pub duplicate_count : ℕ
  pub truncated : Bool
  pub summary : Summary
  pub items : List ReportItem

-- `flatMap`
unfoldable pub codes_of : List BankTransaction → List Text
codes_of [] = []
codes_of (t ∷ ts) = extract_transfer_codes t.description ++ codes_of ts

-- `unique`
abbrev pub unique : List Text → List Text
unique xs = distinct_from [] (find_all (λ x. ltb 0 (length x)) xs)

unfoldable pub references_of : Text → List BankTransaction → List Text
references_of bank ts = unique (
    map (λ t. bank_reference bank t.transaction_id) ts
    ++ (if text_eq bank legacy_bank_id then map (λ t. t.transaction_id) ts else []))

abbrev pub among : List Text → Option Text → Bool
among xs none = false
among xs (some x) = any_row (text_eq x) xs

-- `findPaymentRequests`
unfoldable pub find_payment_requests : List Text → List Text → List RequestDoc → List RequestDoc
find_payment_requests request_codes references docs =
    find_all
      (λ (r : RequestDoc).
        is_bank r.provider
        && (among request_codes (some r.request_code) || among references r.provider_reference))
      docs

abbrev pub is_deposit : WalletTransactionType → Bool
is_deposit deposit = true
is_deposit _ = false

abbrev pub is_for_payment : WalletReferenceType → Bool
is_for_payment payment_request = true
is_for_payment _ = false

abbrev pub id_among : List ℕ → Option ℕ → Bool
id_among ids none = false
id_among ids (some i) = any_row (λ j. j == i) ids

-- `amount: { $gt: 0 }`
abbrev pub is_positive : Number → Bool
is_positive (int (pos n)) = ltb 0 n
is_positive _ = false

-- `findWalletTransactions`
unfoldable pub find_wallet_transactions : List Text → List ℕ → List WalletDoc → List WalletDoc
find_wallet_transactions keys ids docs =
    find_all
      (λ (w : WalletDoc).
        is_deposit w.kind
        && is_for_payment w.reference_type
        && is_positive w.amount
        && (among keys (some w.idempotency_key) || id_among ids w.reference_id))
      docs

abbrev pub is_incoming : ReportItem → Bool
is_incoming x = same_flow x.flow incoming

abbrev pub is_outgoing : ReportItem → Bool
is_outgoing x = same_flow x.flow outgoing

-- The statuses, numbered.
abbrev pub status_number : ReconciliationStatus → ℕ
status_number matched = 0
status_number amount_mismatch = 1
status_number not_credited = 2
status_number unmatched = 3
status_number ambiguous = 4
status_number outgoing_transfer = 5
status_number received_rejected = 6
status_number received_expired = 7
status_number received_cancelled = 8
status_number duplicate = 9

-- `statusCounts[status]`
abbrev pub status_count : ReconciliationStatus → List ReportItem → ℕ
status_count st items = count_if (λ x. status_number x.status == status_number st) items

abbrev pub is_rejected : ReportItem → Bool
is_rejected x = status_number x.status == status_number received_rejected

unfoldable pub sum_differences : List ReportItem → ℤ
sum_differences [] = pos 0
sum_differences (x ∷ xs) = x.difference +ℤ sum_differences xs

-- The summary of `result`.
unfoldable pub summary_of : List ReportItem → Summary
summary_of items =
    let received : List ReportItem = find_all is_incoming items in
    let sent : List ReportItem = find_all is_outgoing items in
    let rejected : List ReportItem = find_all is_rejected items in
    record {
      incoming_count = length received;
      incoming_amount = total (λ (x : ReportItem). x.amount) received;
      outgoing_count = length sent;
      outgoing_amount = total (λ (x : ReportItem). x.amount) sent;
      credited_amount = total (λ (x : ReportItem). x.credited_amount) received;
      difference = sum_differences received;
      matched_count = status_count matched items;
      uncredited_count = count_if (λ (x : ReportItem). x.credited_amount == 0) received;
      mismatch_count = status_count amount_mismatch items;
      ambiguous_count = status_count ambiguous items + status_count duplicate items;
      unmatched_count = status_count unmatched items;
      rejected_received_count = length rejected;
      rejected_received_amount = total (λ (x : ReportItem). x.amount) rejected;
    }

-- The rows of a report on an account.
unfoldable pub rows_of :
    Text
    → (ℕ → Option CustomerNames)
    → List RequestDoc
    → List WalletDoc
    → List WorkingTransaction
    → List ReportItem
rows_of bank users requests wallets working = map (build_item bank requests wallets users) working

-- `reconcile`, behind the fetching of the history.
unfoldable pub reconcile :
    Text
    → (ℕ → Option CustomerNames)
    → List RequestDoc
    → List WalletDoc
    → BankHistorySnapshot
    → Report
reconcile bank users request_docs wallet_docs snapshot =
    let working : List WorkingTransaction = deduplicate_transactions snapshot.transactions in
    let transactions : List BankTransaction = map (λ w. w.transaction) working in
    let references : List Text = references_of bank transactions in
    let requests : List RequestDoc =
      find_payment_requests (unique (codes_of transactions)) references request_docs in
    let wallets : List WalletDoc =
      find_wallet_transactions (unique (map deposit_key references)) (map (λ r. r.id) requests)
        wallet_docs in
    let items : List ReportItem = rows_of bank users requests wallets working in
    record {
      duplicate_count = total (λ (w : WorkingTransaction). w.duplicate_count) working;
      truncated = snapshot.truncated;
      summary = summary_of items;
      items = items;
    }
