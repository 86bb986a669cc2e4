-- ===== src/Reconcile/Rows.antt =====
-- A row of the report: `buildItem`, `walletBelongsToRow` and `publicRequest`. The date of a row, and the
-- texts of its notes, which only the screen shows, are left out; each note is a constructor.
use cdk_gpt.Prelude.{
  ℕ, ◌+◌, Bool, true, false, ◌&&◌, ◌||◌, not, Option, none, some, is_some, List, [], ◌∷◌, ◌++◌, map,
  Text, codes, text_eq, eq_text?, trim, to_upper, starts_with, nonempty, pos, ℤ, sub_ℕ, Number,
  is_safe_integer, ◌==◌, ltb, if◌then◌else◌, any_row, find_all, find_first, total, length,
}
use cdk_gpt.Store.{PaymentRequestStatus}
use cdk_gpt.Payment.Bank.{BankTransaction}
use cdk_gpt.Payment.Transfers.{extract_transfer_codes}
use cdk_gpt.Reconcile.{
  RequestDoc, WalletDoc, Flow, incoming, outgoing, WorkingTransaction, integer_amount,
  normalize_type, or_empty,
}

pub data ReconciliationStatus : Type 0 where
  matched amount_mismatch not_credited unmatched ambiguous outgoing_transfer : ReconciliationStatus
  received_rejected received_expired received_cancelled duplicate : ReconciliationStatus

-- The notes of a row, in the order of the code.
pub data Note : Type 0 where
  repeated_lines : ℕ → Note
  conflicting_lines money_out : Note
  foreign_scope unscoped_request raw_reference : Bool → Note
  ledger_scope_differs several_credits : Note
  request_rejected : Option Text → Note
  request_expired request_cancelled : Note
  amount_differs : ℕ → ℕ → Note
  nothing_in_ledger ledger_without_request matched_unscoped : Note

-- `BankReconciliationUser`
pub record CustomerNames : Type 0 where
  pub telegram_id : Option Text
  pub username : Option Text
  pub display_name : Option Text

-- `BankReconciliationRequest`
pub record PublicRequest : Type 0 where
  pub id : ℕ
  pub request_code : Text
  pub status : PaymentRequestStatus
  pub requested_amount : ℕ
  pub user_id : ℕ
  pub customer : Option CustomerNames
  pub rejection_reason : Option Text
  pub provider_reference : Option Text
  pub deleted_at : Option ℕ
  pub wallet_transaction_id : Option ℕ
  pub amount_mismatch : Option (Number × Number)
  pub quick_checkout_status : Option Text
  pub cancelled : Bool

-- `BankReconciliationItem`
pub record ReportItem : Type 0 where
  pub transaction_id : Text
  pub flow : Flow
  pub amount : ℕ
  pub description : Text
  pub status : ReconciliationStatus
  pub credited_amount : ℕ
  pub difference : ℤ
  pub payment_requests : List PublicRequest
  pub wallet_transaction_ids : List ℕ
  pub notes : List Note

abbrev pub legacy_bank_id : Text
legacy_bank_id = codes "legacy"

abbrev pub deposit_key : Text → Text
deposit_key reference = codes "deposit:bank:" ++ reference

-- `scopedBankReference` of this file.
abbrev pub bank_reference : Text → Text → Text
bank_reference bank id = codes "bank:" ++ (bank ++ (codes ":" ++ id))

-- `bankConfigIdFrom`
abbrev pub bank_config_id_from : RequestDoc → Option Text
bank_config_id_from r = nonempty (or_empty r.metadata.bank_config_id)

-- The requests of a row: by a code in the text, or by the reference of the transfer.
unfoldable pub request_in_row : Text → BankTransaction → RequestDoc → Bool
request_in_row bank t r =
    any_row (text_eq (to_upper r.request_code)) (extract_transfer_codes t.description)
    || eq_text? r.provider_reference (some (bank_reference bank t.transaction_id))
    || (text_eq bank legacy_bank_id
        && is_some (nonempty t.transaction_id)
        && eq_text? r.provider_reference (some t.transaction_id))

-- `expectedKeys.has(key)`
unfoldable pub is_expected_key : Text → Text → Text → Bool
is_expected_key bank id key =
    text_eq key (deposit_key (bank_reference bank id))
    || (text_eq bank legacy_bank_id && is_some (nonempty id) && text_eq key (deposit_key id))

-- `metadataBank ? metadataBank !== bankConfigId : bankConfigId !== LEGACY_BANK_ID`
abbrev pub other_scope : Text → Option Text → Bool
other_scope bank none = not (text_eq bank legacy_bank_id)
other_scope bank (some b) = not (text_eq b bank)

abbrev pub reference_among : List ℕ → Option ℕ → Bool
reference_among ids none = false
reference_among ids (some i) = any_row (λ j. j == i) ids

abbrev pub pinned_elsewhere : Option Text → Bool
pinned_elsewhere none = false
pinned_elsewhere (some b) = not (text_eq b legacy_bank_id)

-- `walletBelongsToRow`
unfoldable pub wallet_belongs_to_row : Text → Text → List ℕ → WalletDoc → Bool
wallet_belongs_to_row bank id request_ids w =
    let bank_of : Option Text = nonempty (or_empty w.metadata.bank_config_id) in
    let named : Text = trim (or_empty w.metadata.transaction_id) in
    let direct : Bool = is_expected_key bank id w.idempotency_key in
    let raw_legacy : Bool =
      text_eq bank legacy_bank_id && text_eq w.idempotency_key (deposit_key id) in
    if is_some (nonempty named) && not (text_eq named id)
    then false
    else if direct && not (raw_legacy && pinned_elsewhere bank_of)
    then true
    else if other_scope bank bank_of
    then false
    else if starts_with (codes "deposit:bank:") w.idempotency_key
    then false
    else direct || (reference_among request_ids w.reference_id && text_eq named id)

abbrev pub row_requests : Text → List RequestDoc → BankTransaction → List RequestDoc
row_requests bank requests t = find_all (request_in_row bank t) requests

abbrev pub row_wallets : Text → List RequestDoc → List WalletDoc → BankTransaction → List WalletDoc
row_wallets bank requests wallets t =
    find_all
      (wallet_belongs_to_row bank t.transaction_id (map (λ r. r.id) (row_requests bank requests t)))
      wallets

-- `creditedAmount`
abbrev pub credited_amount_of : List WalletDoc → ℕ
credited_amount_of ws = total (λ (w : WalletDoc). integer_amount w.amount) ws

abbrev pub has_status : PaymentRequestStatus → RequestDoc → Bool
has_status st r = same st r.status
  where
    same : PaymentRequestStatus → PaymentRequestStatus → Bool
    same PaymentRequestStatus.pending PaymentRequestStatus.pending = true
    same PaymentRequestStatus.approved PaymentRequestStatus.approved = true
    same PaymentRequestStatus.rejected PaymentRequestStatus.rejected = true
    same PaymentRequestStatus.expired PaymentRequestStatus.expired = true
    same _ _ = false

abbrev pub is_pinned_elsewhere : Text → RequestDoc → Bool
is_pinned_elsewhere bank r = differs (bank_config_id_from r)
  where
    differs : Option Text → Bool
    differs none = false
    differs (some b) = not (text_eq b bank)

abbrev pub has_scoped_evidence : Text → Text → List WalletDoc → Bool
has_scoped_evidence bank id ws =
    any_row (λ (w : WalletDoc). text_eq w.idempotency_key (deposit_key (bank_reference bank id))) ws

abbrev pub has_unscoped : Text → List RequestDoc → Bool
has_unscoped bank rs =
    not (text_eq bank legacy_bank_id) && any_row (λ r. not (is_some (bank_config_id_from r))) rs

abbrev pub has_raw_reference : Text → Text → List RequestDoc → Bool
has_raw_reference bank id rs =
    not (text_eq bank legacy_bank_id)
    && any_row (λ (r : RequestDoc). eq_text? r.provider_reference (some id)) rs

-- `scopeUncertainty`
unfoldable pub scope_uncertain : Text → Text → List RequestDoc → List WalletDoc → Bool
scope_uncertain bank id rs ws =
    (any_row (is_pinned_elsewhere bank) rs || has_unscoped bank rs || has_raw_reference bank id rs)
    && not (has_scoped_evidence bank id ws)

-- The status of an incoming row, by the conditions in their order.
unfoldable pub status_of :
    Bool → Bool → List RequestDoc → List WalletDoc → ℕ → ℕ → ReconciliationStatus
status_of conflict uncertain rs ws amount credited =
    if conflict
    then duplicate
    else if uncertain
    then ambiguous
    else if any_row (has_status PaymentRequestStatus.rejected) rs
    then received_rejected
    else if any_row (has_status PaymentRequestStatus.expired) rs
    then received_expired
    else if any_row (λ (r : RequestDoc). r.metadata.user_cancelled) rs
    then received_cancelled
    else if ltb 1 (length rs)
    then ambiguous
    else if length rs == 0 && length ws == 0
    then unmatched
    else if credited == 0
    then not_credited
    else if not (amount == credited)
    then amount_mismatch
    else if length rs == 0
    then ambiguous
    else matched

abbrev pub safe_pair : Option (Number × Number) → Option (Number × Number)
safe_pair none = none
safe_pair (some (a, b)) = if is_safe_integer a && is_safe_integer b then some (a, b) else none

-- `publicRequest`
unfoldable pub public_request : (ℕ → Option CustomerNames) → RequestDoc → PublicRequest
public_request users r = record {
  id = r.id;
  request_code = r.request_code;
  status = r.status;
  requested_amount = integer_amount r.amount;
  user_id = r.user_id;
  customer = users r.user_id;
  rejection_reason = nonempty (or_empty r.rejection_reason);
  provider_reference = nonempty (or_empty r.provider_reference);
  deleted_at = r.deleted_at;
  wallet_transaction_id = r.wallet_transaction_id;
  amount_mismatch = safe_pair r.metadata.amount_mismatch;
  quick_checkout_status = nonempty (or_empty r.metadata.quick_checkout_status);
  cancelled = r.metadata.user_cancelled;
}

abbrev pub note_if : Bool → Note → List Note
note_if b n = if b then n ∷ [] else []

abbrev pub duplicate_notes : WorkingTransaction → List Note
duplicate_notes w =
    note_if (ltb 0 w.duplicate_count) (repeated_lines (w.duplicate_count + 1))
    ++ note_if w.duplicate_conflict conflicting_lines

abbrev pub rejection_note : Option RequestDoc → List Note
rejection_note none = []
rejection_note (some r) = request_rejected (nonempty (or_empty r.rejection_reason)) ∷ []

abbrev pub amount_note : ℕ → Option RequestDoc → List Note
amount_note amount none = []
amount_note amount (some r) = amount_differs amount (integer_amount r.amount) ∷ []

abbrev pub has_other_scope : Text → WalletDoc → Bool
has_other_scope bank w = differs w.metadata.bank_config_id
  where
    differs : Option Text → Bool
    differs none = false
    differs (some b) = not (text_eq b bank)

unfoldable pub row_notes : Text → Text → ℕ → List RequestDoc → List WalletDoc → List Note
row_notes bank id amount rs ws =
    let evidence : Bool = has_scoped_evidence bank id ws in
    note_if (any_row (is_pinned_elsewhere bank) rs) (foreign_scope evidence)
    ++ note_if (has_unscoped bank rs) (unscoped_request evidence)
    ++ note_if (has_raw_reference bank id rs) (raw_reference evidence)
    ++ note_if (any_row (has_other_scope bank) ws) ledger_scope_differs
    ++ note_if (ltb 1 (length ws)) several_credits
    ++ rejection_note (find_first (has_status PaymentRequestStatus.rejected) rs)
    ++ note_if (any_row (has_status PaymentRequestStatus.expired) rs) request_expired
    ++ note_if (any_row (λ (r : RequestDoc). r.metadata.user_cancelled) rs) request_cancelled
    ++ amount_note amount
        (find_first (λ (r : RequestDoc). not (integer_amount r.amount == amount)) rs)
    ++ note_if (length ws == 0) nothing_in_ledger
    ++ note_if (length rs == 0 && ltb 0 (length ws)) ledger_without_request
    ++ note_if
        (text_eq bank legacy_bank_id && any_row (λ r. not (is_some (bank_config_id_from r))) rs)
        matched_unscoped

abbrev pub outgoing_item : WorkingTransaction → ReportItem
outgoing_item w = record {
  transaction_id = w.transaction.transaction_id;
  flow = outgoing;
  amount = integer_amount w.transaction.amount;
  description = w.transaction.description;
  status = if w.duplicate_conflict then duplicate else outgoing_transfer;
  credited_amount = 0;
  difference = pos 0;
  payment_requests = [];
  wallet_transaction_ids = [];
  notes = duplicate_notes w ++ money_out ∷ [];
}

-- `unique` on ids: each at its first place.
unfoldable pub distinct_ids : List ℕ → List ℕ → List ℕ
distinct_ids seen [] = []
distinct_ids seen (n ∷ ns) =
    let rest = distinct_ids (n ∷ seen) ns in
    let again = distinct_ids seen ns in if any_row (λ m. m == n) seen then again else n ∷ rest

abbrev pub incoming_item :
    Text
    → (ℕ → Option CustomerNames)
    → List RequestDoc
    → List WalletDoc
    → WorkingTransaction
    → ReportItem
incoming_item bank users rs ws w = record {
  transaction_id = w.transaction.transaction_id;
  flow = incoming;
  amount = integer_amount w.transaction.amount;
  description = w.transaction.description;
  status =
      status_of w.duplicate_conflict (scope_uncertain bank w.transaction.transaction_id rs ws) rs ws
        (integer_amount w.transaction.amount) (credited_amount_of ws);
  credited_amount = credited_amount_of ws;
  difference = sub_ℕ (integer_amount w.transaction.amount) (credited_amount_of ws);
  payment_requests = map (public_request users) rs;
  wallet_transaction_ids = distinct_ids [] (map (λ (x : WalletDoc). x.id) ws);
  notes =
      duplicate_notes w
      ++ row_notes bank w.transaction.transaction_id (integer_amount w.transaction.amount) rs ws;
}

-- `buildItem`
unfoldable pub build_item :
    Text
    → List RequestDoc
    → List WalletDoc
    → (ℕ → Option CustomerNames)
    → WorkingTransaction
    → ReportItem
build_item bank requests wallets users w = elim (normalize_type w.transaction.kind) [
  | outgoing ↦ outgoing_item w
  | incoming ↦
      incoming_item bank users (row_requests bank requests w.transaction)
        (row_wallets bank requests wallets w.transaction) w
]
