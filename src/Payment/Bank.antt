-- ===== src/Payment/Bank.antt =====
-- The bank's transfers in `PaymentService` (apps/api/src/payment/payment.service.ts): each is matched to
-- a payment request, credited to the wallet and, where a checkout can still be served, spent on it. The
-- messages to the queues, and the resumption of a checkout of an earlier version, are left out.
use cdk_gpt.Prelude.{
  ℕ, ◌+◌, Bool, true, false, ◌&&◌, ◌||◌, Option, none, some, is_some, is_none, [], ◌++◌, Text,
  codes, eq_text?, int, pos, Number, ◌==◌, if◌then◌else◌, any_row,
}
use cdk_gpt.Store.{
  Db, PaymentRequest, PaymentRequestStatus, PaymentMetadata, QuickCheckout, FulfillmentError,
  deposit, payment_request, webhook, Tx, Result, ok, err, duplicate_key, ◌>>=◌, ◌>>◌, pure, gets,
}
use cdk_gpt.Users.{find_active}
use cdk_gpt.Wallet.{WalletChange, credit_received_change}
use cdk_gpt.Inventory.{release_payment_reservations, extend_payment_reservations}
use cdk_gpt.Purchase.{PurchaseBatchInput, object_id, validate_batch_input, reservation_ms}
use cdk_gpt.Purchase.Quote.{
  SoftCheckoutAvailability, can_buy, inactive, unavailable, limited, sold_out,
  soft_checkout_availability,
}
use cdk_gpt.Payment.{
  is_bank, is_unpaid, find_request, update_request, failed_checkout, map_checkout, expired_by,
}

-- `BankTransaction`
pub record BankTransaction : Type 0 where
  pub transaction_id : Text
  pub amount : Number
  pub description : Text
  pub transaction_date : Option Text
  pub kind : Option Text

-- The credit of a transfer: its key names the transfer, not the request.
abbrev pub transfer_credit : PaymentRequest → Text → Text → Text → ℕ → WalletChange
transfer_credit r reference before after amount = record {
  user_id = r.user_id;
  amount = int (pos amount);
  kind = deposit;
  reason = before ++ r.request_code ++ after;
  reference_type = payment_request;
  reference_id = some r.id;
  idempotency_key = codes "deposit:bank:" ++ reference;
  actor_type = webhook;
  actor_id = none;
}

-- `creditSupplementalBankTransfer`
unfoldable pub credit_supplemental : PaymentRequest → Text → ℕ → Tx Bool
credit_supplemental r reference amount = do
  credit_received_change
      (transfer_credit r reference (codes "Additional bank transfer for ") [] amount)
  pure true

-- The request was approved by this transfer.
abbrev pub is_from : PaymentRequest → Text → Option Text → Bool
is_from r reference raw =
    eq_text? r.provider_reference (some reference) || eq_text_if r.provider_reference raw
  where
    eq_text_if : Option Text → Option Text → Bool
    eq_text_if found none = is_none found
    eq_text_if found (some x) = eq_text? found (some x)

unfoldable pub reference_used : Text → Tx Bool
reference_used reference = gets λ s.
    any_row (λ x. is_bank x.provider && eq_text? x.provider_reference (some reference))
      s.payment_requests

-- The request is approved by the transfer, unless another has been faster.
unfoldable pub claim_request : ℕ → Text → PaymentMetadata → Tx (Option PaymentRequest)
claim_request id reference metadata = do
  now ← gets λ s. s.now
  update_request (λ x. x.id == id && is_unpaid x.status && is_none x.provider_reference)
      (λ x. record x {
        status = PaymentRequestStatus.approved;
        provider_reference = some reference;
        reviewed_at = some now;
        metadata = metadata;
      })

-- `request.save()`
unfoldable pub save_request : ℕ → ℕ → PaymentMetadata → Tx (Option PaymentRequest)
save_request id transaction_id metadata =
    update_request (λ x. x.id == id)
      (λ x. record x { wallet_transaction_id = some transaction_id; metadata = metadata })

-- Stock that is held for the request goes back.
unfoldable pub release_if : Bool → ℕ → Tx (Unit {0})
release_if false id = pure tt
release_if true id = do release_payment_reservations id; pure tt

-- An unpaid request that a transfer of another amount settles: the money goes to the wallet.
unfoldable pub settle_mismatch : PaymentRequest → Text → Text → ℕ → Bool → Tx Bool
settle_mismatch r reference raw received true = pure false
settle_mismatch r reference raw received false = do
  let metadata : PaymentMetadata =
      map_checkout
        (λ c. failed_checkout (FulfillmentError.mismatched_amount received c.total_amount) c)
        (record r.metadata {
          bank_transaction_id = some raw;
          amount_mismatch = some (r.amount, received);
        })
  claimed ← claim_request r.id reference metadata
  elim claimed [
    | none ↦ pure false
    | some x ↦ do
      made ← credit_received_change (
          transfer_credit x reference (codes "Bank deposit ") (codes " (amount adjusted)") received)
      save_request x.id made.id x.metadata
      release_if (is_some r.metadata.quick_checkout) x.id
      pure true
  ]

abbrev pub mismatch_by_status : PaymentRequest → Text → Text → ℕ → PaymentRequestStatus → Tx Bool
mismatch_by_status r reference raw received PaymentRequestStatus.approved =
    if is_from r reference (some raw) then pure false else credit_supplemental r reference received
mismatch_by_status r reference raw received PaymentRequestStatus.pending =
    reference_used reference >>= settle_mismatch r reference raw received
mismatch_by_status r reference raw received PaymentRequestStatus.expired =
    reference_used reference >>= settle_mismatch r reference raw received
mismatch_by_status r reference raw received PaymentRequestStatus.rejected = pure false

abbrev pub bank_only : (PaymentRequest → Tx Bool) → Option PaymentRequest → Tx Bool
bank_only f none = pure false
bank_only f (some r) = if is_bank r.provider then f r else pure false

-- The transaction of `reconcileMismatchedBankTransfer`.
unfoldable pub reconcile_mismatched : ℕ → Text → Text → ℕ → Tx Bool
reconcile_mismatched id reference raw received = do
  existing ← find_request (λ x. x.id == id)
  bank_only (λ r. mismatch_by_status r reference raw received r.status) existing

-- A duplicate key means that another delivery of the transfer has won.
abbrev pub false_on_duplicate : Db → Result (Bool × Db) → Result (Bool × Db)
false_on_duplicate s (ok (x, t)) = ok (x, t)
false_on_duplicate s (err duplicate_key) = ok (false, s)
false_on_duplicate s (err e) = err e

unfoldable pub reconcile_mismatched_bank_transfer : ℕ → Text → Text → ℕ → Tx Bool
reconcile_mismatched_bank_transfer id reference raw received s =
    false_on_duplicate s (reconcile_mismatched id reference raw received s)

-- `latePayment`
abbrev pub is_late : PaymentRequest → ℕ → Bool
is_late r now = is_expired r.status || expired_by now r.metadata.expires_at
  where
    is_expired : PaymentRequestStatus → Bool
    is_expired PaymentRequestStatus.expired = true
    is_expired _ = false

-- The checkout of a request as the input of a purchase.
abbrev pub checkout_input : PaymentRequest → QuickCheckout → PurchaseBatchInput
checkout_input r c = record {
  user_id = object_id r.user_id;
  product_id = object_id c.product_id;
  expected_unit_price = int (pos c.unit_price);
  quantity = int (pos c.quantity);
  coupon_code = c.coupon_code;
  expected_total_amount = some (int (pos c.total_amount));
  idempotency_prefix = c.idempotency_prefix;
  payment_request_id = some (object_id r.id);
  allow_unreserved_payment = c.soft;
}

-- The input of `softCheckoutAvailability`, which leaves out the coupon, the total and the payment.
abbrev pub availability_input : PaymentRequest → QuickCheckout → PurchaseBatchInput
availability_input r c = record (checkout_input r c) {
  coupon_code = none;
  expected_total_amount = none;
  idempotency_prefix = codes "soft-payment-check";
  payment_request_id = none;
  allow_unreserved_payment = false;
}

abbrev pub refusal_of : SoftCheckoutAvailability → Option FulfillmentError
refusal_of can_buy = none
refusal_of inactive = some FulfillmentError.user_inactive
refusal_of limited = some FulfillmentError.purchase_limit
refusal_of unavailable = some FulfillmentError.product_unavailable
refusal_of sold_out = some FulfillmentError.out_of_stock

-- The checkout may be served: a soft one by the stock, an earlier one by its hold.
unfoldable pub refusal_in_time :
    PaymentRequest → QuickCheckout → Bool → Tx (Option FulfillmentError)
refusal_in_time r c true = do
  b ← validate_batch_input (availability_input r c)
  answer ← soft_checkout_availability b
  pure (refusal_of answer)
refusal_in_time r c false = do
  user ← find_active r.user_id
  now ← gets λ s. s.now
  elim user [
    | none ↦ pure (some FulfillmentError.user_inactive)
    | some _ ↦ do
      held ← extend_payment_reservations r.id (now + reservation_ms)
      pure (if held == c.quantity then none else some FulfillmentError.out_of_stock)
  ]
