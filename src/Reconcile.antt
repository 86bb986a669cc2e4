-- ===== src/Reconcile.antt =====
-- `BankReconciliationService` (apps/api/src/payment/bank-reconciliation.service.ts) compares the history of
-- a bank account with the payment requests and the wallet transactions. Here: the documents that it reads
-- and the merging of lines that the bank sends twice. Its children have the rows of the report and the
-- report. The history is the bank's, and the two collections are arguments.
pub mod Rows
pub mod Report
pub mod Duplicates
pub mod Matched
pub mod Ledger
pub mod Totals
use cdk_gpt.Prelude.{
  ℕ, ◌+◌, Bool, true, false, ◌&&◌, ◌||◌, not, Option, none, some, List, [], ◌∷◌, ◌++◌, Text, codes,
  text_eq, eq_text?, trim, to_upper, nonempty, int, pos, negsuc, other, Number, ◌==◌, leb, ltb,
  if◌then◌else◌, any_row, find_and_update, update_all,
}
use cdk_gpt.Store.{Provider, PaymentRequestStatus, WalletTransactionType, WalletReferenceType}
use cdk_gpt.Payment.Bank.{BankTransaction}

-- The fields of a request's `metadata` that the service reads.
pub record RequestMetadata : Type 0 where
  pub bank_config_id : Option Text
  pub user_cancelled : Bool
  pub amount_mismatch : Option (Number × Number)
  pub quick_checkout_status : Option Text

-- `ReconciliationRequestDoc`
pub record RequestDoc : Type 0 where
  pub id : ℕ
  pub request_code : Text
  pub user_id : ℕ
  pub amount : Number
  pub provider : Provider
  pub provider_reference : Option Text
  pub status : PaymentRequestStatus
  pub rejection_reason : Option Text
  pub wallet_transaction_id : Option ℕ
  pub metadata : RequestMetadata
  pub deleted_at : Option ℕ

-- The fields of a wallet transaction's `metadata` that the service reads.
pub record WalletMetadata : Type 0 where
  pub bank_config_id : Option Text
  pub transaction_id : Option Text

-- `ReconciliationWalletDoc`
pub record WalletDoc : Type 0 where
  pub id : ℕ
  pub user_id : ℕ
  pub amount : Number
  pub kind : WalletTransactionType
  pub reference_type : WalletReferenceType
  pub reference_id : Option ℕ
  pub idempotency_key : Text
  pub metadata : WalletMetadata

pub data Flow : Type 0 where
  incoming outgoing : Flow

-- `WorkingTransaction`
pub record WorkingTransaction : Type 0 where
  pub transaction : BankTransaction
  pub duplicate_count : ℕ
  pub duplicate_conflict : Bool

abbrev pub max_amount : ℕ
max_amount = 9999999999999

-- `integerAmount`
unfoldable pub integer_amount : Number → ℕ
integer_amount (int (pos n)) = if ltb 0 n && leb n max_amount then n else 0
integer_amount (int (negsuc n)) = 0
integer_amount other = 0

-- `normalizeType`
unfoldable pub normalize_type : Option Text → Flow
normalize_type none = incoming
normalize_type (some t) = if text_eq (to_upper t) (codes "OUT") then outgoing else incoming

abbrev pub same_flow : Flow → Flow → Bool
same_flow incoming incoming = true
same_flow outgoing outgoing = true
same_flow _ _ = false

abbrev pub or_empty : Option Text → Text
or_empty none = []
or_empty (some t) = t

-- `sameTransaction`
unfoldable pub same_transaction : BankTransaction → BankTransaction → Bool
same_transaction a b =
    integer_amount a.amount == integer_amount b.amount
    && same_flow (normalize_type a.kind) (normalize_type b.kind)
    && text_eq a.description b.description
    && text_eq (or_empty a.transaction_date) (or_empty b.transaction_date)

-- Two lines name one transaction of the bank: the key of the map `byId`.
unfoldable pub same_id : BankTransaction → BankTransaction → Bool
same_id a b = text_eq (trim a.transaction_id) (trim b.transaction_id)

-- The key of the map `byKey`: the direction and the transaction.
unfoldable pub same_key : BankTransaction → BankTransaction → Bool
same_key a b = same_flow (normalize_type a.kind) (normalize_type b.kind) && same_id a b

-- The entry, seen once more.
abbrev pub repeated : BankTransaction → WorkingTransaction → WorkingTransaction
repeated t w = record w {
  duplicate_count = w.duplicate_count + 1;
  duplicate_conflict = w.duplicate_conflict || not (same_transaction w.transaction t);
}

abbrev pub conflicting : WorkingTransaction → WorkingTransaction
conflicting w = record w { duplicate_conflict = true }

-- A transaction that is seen for the first time in its direction; its siblings are those of the other.
unfoldable pub add_entry : List WorkingTransaction → BankTransaction → List WorkingTransaction
add_entry ws t =
    update_all (λ w. same_id w.transaction t) conflicting ws
    ++ (record {
      transaction = t;
      duplicate_count = 0;
      duplicate_conflict = any_row (λ w. same_id w.transaction t) ws;
    })
      ∷ []

abbrev pub merged_or :
    List WorkingTransaction
    → Option (WorkingTransaction × List WorkingTransaction)
    → List WorkingTransaction
merged_or otherwise none = otherwise
merged_or otherwise (some (w, ws)) = ws

-- One round of the loop of `deduplicateTransactions`; the entries stand in the order of the map `byKey`.
unfoldable pub merge_line : List WorkingTransaction → BankTransaction → List WorkingTransaction
merge_line ws t =
    merged_or (add_entry ws t) (find_and_update (λ w. same_key w.transaction t) (repeated t) ws)

unfoldable pub merge_lines :
    List WorkingTransaction → List BankTransaction → List WorkingTransaction
merge_lines ws [] = ws
merge_lines ws (t ∷ ts) = merge_lines (merge_line ws t) ts

-- `deduplicateTransactions`
abbrev pub deduplicate_transactions : List BankTransaction → List WorkingTransaction
deduplicate_transactions ts = merge_lines [] ts
