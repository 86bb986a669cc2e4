-- ===== src/Payment/Approval.antt =====
-- `approveBankRequest`, `reconcileFailedSoftCheckout` and `processBankTransaction`
-- (apps/api/src/payment/payment.service.ts).
pub mod Checkouts
pub mod Books
pub mod Late
use cdk_gpt.Prelude.{
  ℕ, suc, ◌+◌, Bool, true, false, ◌&&◌, ◌||◌, not, Option, none, some, is_some, is_none, List, [],
  ◌∷◌, ◌++◌, map, Text, codes, text_eq, eq_text?, trim, int, pos, Number, positive_safe, nonempty,
  ◌==◌, if◌then◌else◌, find_first, any_row, length,
}
use cdk_gpt.Store.{
  Db, User, Order, PaymentRequest, PaymentRequestStatus, PaymentMetadata, Provider, QuickCheckout,
  CheckoutStatus, FulfillmentError, WalletTransaction, Tx, Result, ok, err, Error, out_of_stock,
  coupon_unavailable, duplicate_key, approval_claim_lost, ◌>>=◌, ◌>>◌, pure, gets, or_throw,
}
use cdk_gpt.Wallet.{credit_received_change}
use cdk_gpt.Purchase.Session.{purchase_batch_in_session}
use cdk_gpt.Payment.{is_bank, is_unpaid, find_request, failed_checkout, map_checkout}
use cdk_gpt.Payment.Bank.{
  BankTransaction, transfer_credit, credit_supplemental, is_from, reference_used, claim_request,
  save_request, release_if, bank_only, false_on_duplicate, reconcile_mismatched_bank_transfer,
  is_late, checkout_input, refusal_in_time,
}
use cdk_gpt.Payment.Transfers.{extract_transfer_codes, scoped_bank_reference}

-- What is to become of the checkout of an unpaid request: why it is refused, or nothing if it may be
-- served. A late payment is refused whatever the stock.
unfoldable pub refusal : PaymentRequest → QuickCheckout → Bool → Tx (Option FulfillmentError)
refusal r c true = pure (
    if is_some r.metadata.user_cancelled_at
    then some FulfillmentError.paid_after_cancel
    else some FulfillmentError.late)
refusal r c false =
    if is_some r.metadata.user_cancelled_at then pure none else refusal_in_time r c c.soft

-- A checkout with its orders.
abbrev pub fulfilled_checkout : List Order → ℕ → QuickCheckout → QuickCheckout
fulfilled_checkout orders now c = record c {
  status = CheckoutStatus.fulfilled;
  order_ids = map (λ o. o.id) orders;
  fulfilled_at = some now;
  fulfillment_error = none;
  processing_at = none;
}

-- The purchase of a checkout that may be served.
unfoldable pub serve_checkout :
    PaymentRequest → QuickCheckout → PaymentMetadata → ℕ → Tx (List Order)
serve_checkout r c metadata transaction_id = do
  orders ← purchase_batch_in_session (checkout_input r c)
  now ← gets λ s. s.now
  save_request r.id transaction_id
      (record metadata { quick_checkout = some (fulfilled_checkout orders now c) })
  pure orders

-- The claim and the credit, which every approval begins with.
unfoldable pub claim_and_credit : PaymentRequest → Text → PaymentMetadata → Tx ℕ
claim_and_credit r reference metadata = do
  claimed ← or_throw approval_claim_lost (← claim_request r.id reference metadata)
  made ←
      credit_received_change
        (transfer_credit claimed reference (codes "Bank deposit ") [] claimed.amount)
  pure made.id

-- An approval that buys nothing: an ordinary deposit, or a checkout that is refused.
unfoldable pub approve_deposit : PaymentRequest → Text → PaymentMetadata → Bool → Tx (List Order)
approve_deposit r reference metadata held = do
  transaction_id ← claim_and_credit r reference metadata
  save_request r.id transaction_id metadata
  release_if held r.id
  pure []

unfoldable pub approve_checkout :
    PaymentRequest
    → Text
    → PaymentMetadata
    → QuickCheckout
    → Option FulfillmentError
    → Tx (List Order)
approve_checkout r reference metadata c none = do
  transaction_id ← claim_and_credit r reference metadata
  serve_checkout r c metadata transaction_id
approve_checkout r reference metadata c (some e) =
    approve_deposit r reference (record metadata { quick_checkout = some (failed_checkout e c) })
      true

-- An unpaid request under a transfer that is new.
unfoldable pub approve_unpaid :
    PaymentRequest → Text → Text → Bool → Option QuickCheckout → Tx (List Order)
approve_unpaid r reference raw late none =
    approve_deposit r reference
      (record r.metadata { bank_transaction_id = some raw; late_payment = some late }) false
approve_unpaid r reference raw late (some c) = do
  why ← refusal r c late
  approve_checkout r reference
      (record r.metadata { bank_transaction_id = some raw; late_payment = some late }) c why

unfoldable pub approve_if_unused : PaymentRequest → Text → Text → Bool → Tx Bool
approve_if_unused r reference raw true = pure false
approve_if_unused r reference raw false = do
  now ← gets λ s. s.now
  orders ← approve_unpaid r reference raw (is_late r now) r.metadata.quick_checkout
  pure true

abbrev pub approval_by_status :
    PaymentRequest → Text → Text → Option Text → PaymentRequestStatus → Tx Bool
approval_by_status r reference raw trimmed PaymentRequestStatus.approved =
    if is_from r reference trimmed then pure true else credit_supplemental r reference r.amount
approval_by_status r reference raw trimmed PaymentRequestStatus.pending =
    reference_used reference >>= approve_if_unused r reference raw
approval_by_status r reference raw trimmed PaymentRequestStatus.expired =
    reference_used reference >>= approve_if_unused r reference raw
approval_by_status r reference raw trimmed PaymentRequestStatus.rejected = pure false

-- The transaction of `approveBankRequest`.
unfoldable pub approve_once : ℕ → Text → Text → Option Text → Tx Bool
approve_once id reference raw trimmed = do
  existing ← find_request (λ x. x.id == id)
  bank_only (λ r. approval_by_status r reference raw trimmed r.status) existing

-- `checkoutErrorMessage`, of the errors that are passed to it.
abbrev pub fulfillment_error_of : Error → FulfillmentError
fulfillment_error_of coupon_unavailable = FulfillmentError.coupon_unavailable
fulfillment_error_of e = FulfillmentError.out_of_stock

unfoldable pub settle_failed : PaymentRequest → QuickCheckout → Text → Text → Error → Bool → Tx Bool
settle_failed r c reference raw e true = pure false
settle_failed r c reference raw e false = do
  let metadata : PaymentMetadata = record r.metadata {
    quick_checkout = some (failed_checkout (fulfillment_error_of e) c);
    bank_transaction_id = some raw;
  }
  claimed ← claim_request r.id reference metadata
  elim claimed [
    | none ↦ pure false
    | some x ↦ do
      made ← credit_received_change (
          transfer_credit x reference (codes "Bank deposit ") (codes " (checkout fallback)")
            x.amount)
      save_request x.id made.id x.metadata
      pure true
  ]

abbrev pub failed_by_status :
    PaymentRequest → QuickCheckout → Text → Text → Error → PaymentRequestStatus → Tx Bool
failed_by_status r c reference raw e PaymentRequestStatus.approved =
    pure (is_from r reference (some raw))
failed_by_status r c reference raw e PaymentRequestStatus.pending =
    reference_used reference >>= settle_failed r c reference raw e
failed_by_status r c reference raw e PaymentRequestStatus.expired =
    reference_used reference >>= settle_failed r c reference raw e
failed_by_status r c reference raw e PaymentRequestStatus.rejected = pure false

abbrev pub failed_checkout_of :
    PaymentRequest → Text → Text → Error → Option QuickCheckout → Tx Bool
failed_checkout_of r reference raw e none = pure false
failed_checkout_of r reference raw e (some c) =
    if c.soft then failed_by_status r c reference raw e r.status else pure false

-- The transaction of `reconcileFailedSoftCheckout`.
unfoldable pub reconcile_failed : ℕ → Text → Text → Error → Tx Bool
reconcile_failed id reference raw e = do
  existing ← find_request (λ x. x.id == id)
  bank_only (λ r. failed_checkout_of r reference raw e r.metadata.quick_checkout) existing

abbrev pub is_approved : PaymentRequestStatus → Bool
is_approved PaymentRequestStatus.approved = true
is_approved _ = false

-- After a duplicate key the answer is whether the request was approved by this transfer.
abbrev pub settled_on_duplicate : ℕ → Text → Db → Result (Bool × Db) → Result (Bool × Db)
settled_on_duplicate id reference s (ok (x, t)) = ok (x, t)
settled_on_duplicate id reference s (err duplicate_key) = ok (
  any_row
      (λ x.
        x.id == id
        && is_bank x.provider
        && eq_text? x.provider_reference (some reference)
        && is_approved x.status)
      s.payment_requests,
  s,
)
settled_on_duplicate id reference s (err e) = err e

-- `reconcileFailedSoftCheckout`
unfoldable pub reconcile_failed_soft_checkout : ℕ → Text → Text → Error → Tx Bool
reconcile_failed_soft_checkout id reference raw e s =
    settled_on_duplicate id reference s (reconcile_failed id reference raw e s)

-- `if (await reconcile(...)) return true; throw error`
abbrev pub true_or_throw : Error → Result (Bool × Db) → Result (Bool × Db)
true_or_throw e (ok (true, t)) = ok (true, t)
true_or_throw e (ok (false, t)) = err e
true_or_throw e (err x) = err x

-- The catch clause of `approveBankRequest`.
unfoldable pub approve_failed : ℕ → Text → Text → Result (Bool × Db) → Tx Bool
approve_failed id reference raw (ok (x, t)) s = ok (x, t)
approve_failed id reference raw (err duplicate_key) s = ok (false, s)
approve_failed id reference raw (err out_of_stock) s =
    true_or_throw out_of_stock (reconcile_failed_soft_checkout id reference raw out_of_stock s)
approve_failed id reference raw (err coupon_unavailable) s =
    true_or_throw coupon_unavailable
      (reconcile_failed_soft_checkout id reference raw coupon_unavailable s)
approve_failed id reference raw (err e) s = err e

-- `approveBankRequest`
unfoldable pub approve_bank_request : ℕ → Text → Text → Option Text → Tx Bool
approve_bank_request id reference raw trimmed s =
    approve_failed id reference raw (approve_once id reference raw trimmed s) s

abbrev pub is_matchable : PaymentRequestStatus → Bool
is_matchable PaymentRequestStatus.rejected = false
is_matchable _ = true

-- What becomes of a transfer of `amount` for a request.
unfoldable pub settle_transfer : Text → Text → BankTransaction → ℕ → Option PaymentRequest → Tx Bool
settle_transfer reference trimmed transaction amount none = pure false
settle_transfer reference trimmed transaction amount (some r) =
    if not (r.amount == amount)
    then reconcile_mismatched_bank_transfer r.id reference transaction.transaction_id amount
    else if is_approved r.status && not (is_from r reference (some trimmed))
    then credit_supplemental r reference amount
    else approve_bank_request r.id reference transaction.transaction_id (some trimmed)

-- The oldest request that one of the codes in the text of the transfer names.
unfoldable pub match_request : Text → Tx (Option PaymentRequest)
match_request description = find_request (λ x.
    is_bank x.provider
    && any_row (text_eq x.request_code) (extract_transfer_codes description)
    && is_matchable x.status
    && not x.deleted)

-- `processBankTransaction`
unfoldable pub process_bank_transaction : BankTransaction → Option Text → Tx Bool
process_bank_transaction transaction bank_config_id = elim (positive_safe transaction.amount) [
  | none ↦ pure false
  | some amount ↦ do
    let trimmed : Text = trim transaction.transaction_id
    let reference : Text = scoped_bank_reference trimmed bank_config_id
    request ← match_request transaction.description
    settle_transfer reference trimmed transaction amount
        (if is_some (nonempty reference) then request else none)
]
