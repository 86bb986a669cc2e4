-- ===== src/Payment/Checkout.antt =====
-- `createBankCheckout` (apps/api/src/payment/payment.service.ts): a payment request for a purchase, with a
-- code for the transfer. The bank's account, which only the answer shows, is a setting.
pub mod Keyed
pub mod Same
use cdk_gpt.Prelude.{
  ℕ, ◌+◌, ◌*◌, Bool, true, false, ◌&&◌, ◌||◌, not, Option, none, some, is_some, is_none, List, [],
  ◌∷◌, ◌++◌, Text, codes, eq_text?, Number, int, pos, negsuc, other, ◌==◌, ltb, find_first, any_row,
}
use cdk_gpt.Store.{
  Db, PaymentRequest, PaymentRequestStatus, PaymentMetadata, Provider, QuickCheckout,
  CheckoutStatus, Tx, Result, ok, err, Error, duplicate_key, invalid_payment_request,
  payment_not_found, idempotency_conflict, ◌>>=◌, ◌>>◌, pure, gets, modify, or_throw, throw_if,
  new_id,
}
use cdk_gpt.Coupons.{normalize_coupon_code}
use cdk_gpt.Purchase.{
  IdText, object_id_of, object_id, natural_safe, in_range, PurchaseBatchInput, validate_batch_input,
}
use cdk_gpt.Purchase.Quote.{PurchaseQuote, quote_batch_for_payment}
use cdk_gpt.Payment.{is_bank, is_pending_payment, find_request}
use cdk_gpt.Payment.Requests.{new_request, no_metadata, request_has_key, insert_request}

-- The arguments of `createBankCheckout`.
pub record CheckoutInput : Type 0 where
  pub user_id : IdText
  pub product_id : IdText
  pub quantity : Number
  pub expected_unit_price : Number
  pub idempotency_key : Text
  pub coupon_code : Option Text
  pub expected_total_amount : Option Number

-- The bank in use, and how many minutes a code is good.
pub record BankSetting : Type 0 where
  pub bank_config_id : Text
  pub ttl_minutes : ℕ

abbrev pub is_number : ℕ → Number → Bool
is_number n (int (pos k)) = k == n
is_number n (int (negsuc k)) = false
is_number n other = false

abbrev pub is_id : ℕ → IdText → Bool
is_id n (object_id k) = k == n
is_id n IdText.malformed = false

abbrev pub is_total : ℕ → Option Number → Bool
is_total n none = true
is_total n (some k) = is_number n k

-- The request has a checkout that asks for what the input asks for.
abbrev pub same_checkout : PaymentRequest → CheckoutInput → QuickCheckout → Bool
same_checkout r input c =
    is_id r.user_id input.user_id
    && is_bank r.provider
    && is_id c.product_id input.product_id
    && is_number c.quantity input.quantity
    && is_number c.unit_price input.expected_unit_price
    && eq_text? c.coupon_code (normalize_coupon_code input.coupon_code)
    && is_total c.total_amount input.expected_total_amount
    && r.amount == c.total_amount

-- `assertSameBankCheckout`
unfoldable pub assert_same_checkout : CheckoutInput → PaymentRequest → Tx PaymentRequest
assert_same_checkout input r = do
  c ← or_throw idempotency_conflict r.metadata.quick_checkout
  throw_if (not (same_checkout r input c)) idempotency_conflict
  pure r

-- `{ idempotencyKey, deletedAt: null }`
abbrev pub kept_with_key : Text → PaymentRequest → Bool
kept_with_key key x = request_has_key key x && not x.deleted

-- A checkout of the customer that still waits for its transfer.
abbrev pub open_checkout : ℕ → ℕ → PaymentRequest → Bool
open_checkout user_id now x =
    x.user_id == user_id
    && is_bank x.provider
    && is_pending_payment x.status
    && not x.deleted
    && is_some x.metadata.quick_checkout
    && expires_after now x.metadata.expires_at
  where
    expires_after : ℕ → Option ℕ → Bool
    expires_after now none = false
    expires_after now (some t) = ltb now t

-- The checkout that a quote is written down as.
abbrev pub checkout_of : PurchaseQuote → Text → QuickCheckout
checkout_of quote code = record {
  product_id = quote.product_id;
  product_name = quote.product_name;
  quantity = quote.quantity;
  unit_price = quote.unit_price;
  total_amount = quote.total_amount;
  subtotal = some quote.subtotal;
  discount_amount = some quote.discount_amount;
  coupon_code = quote.coupon_code;
  idempotency_prefix = codes "quickpay:" ++ code;
  status = CheckoutStatus.pending_payment;
  soft = true;
  order_ids = [];
  fulfillment_error = none;
  processing_at = none;
  fulfilled_at = none;
}

-- The input of the quote.
abbrev pub quote_input : CheckoutInput → PurchaseBatchInput
quote_input input = record {
  user_id = input.user_id;
  product_id = input.product_id;
  expected_unit_price = input.expected_unit_price;
  quantity = input.quantity;
  coupon_code = normalize_coupon_code input.coupon_code;
  expected_total_amount = input.expected_total_amount;
  idempotency_prefix = codes "soft-payment-quote";
  payment_request_id = none;
  allow_unreserved_payment = false;
}

abbrev pub checkout_metadata : BankSetting → PurchaseQuote → ℕ → Text → PaymentMetadata
checkout_metadata bank quote now code = record no_metadata {
  transfer_content = some code;
  bank_config_id = some bank.bank_config_id;
  expires_at = some (now + bank.ttl_minutes * 60000);
  quick_checkout = some (checkout_of quote code);
}

-- A new checkout: quoted, and refused while another one waits for its transfer.
unfoldable pub new_checkout : BankSetting → CheckoutInput → ℕ → Text → Tx PaymentRequest
new_checkout bank input user_id code = do
  b ← validate_batch_input (quote_input input)
  quote ← quote_batch_for_payment b
  throw_if (ltb quote.total_amount 1) invalid_payment_request
  now ← gets λ s. s.now
  waiting ← gets λ s. any_row (open_checkout user_id s.now) s.payment_requests
  throw_if waiting idempotency_conflict
  insert_request input.idempotency_key (λ id drawn.
      new_request user_id quote.total_amount Provider.bank_api none input.idempotency_key
        (checkout_metadata bank quote now code) id code)

unfoldable pub found_or_new : Tx PaymentRequest → Option PaymentRequest → Tx PaymentRequest
found_or_new otherwise none = otherwise
found_or_new otherwise (some r) = pure r

-- The catch clause: the request that another delivery has made under the key.
unfoldable pub recover_checkout : Text → Result (PaymentRequest × Db) → Tx PaymentRequest
recover_checkout key (ok (r, t)) s = ok (r, t)
recover_checkout key (err duplicate_key) s =
    (find_request (kept_with_key key) >>= or_throw payment_not_found) s
recover_checkout key (err e) s = err e

-- The checkout of a quantity that is in range, in its transaction.
unfoldable pub checkout_once : BankSetting → CheckoutInput → ℕ → Tx PaymentRequest
checkout_once bank input user_id = do
  quantity ← or_throw invalid_payment_request (in_range 1 100 (natural_safe input.quantity))
  code ← gets λ s. codes "DON" ++ s.draw s.next_id
  λ s.
      recover_checkout input.idempotency_key
        ((find_request (kept_with_key input.idempotency_key)
            >>= found_or_new (new_checkout bank input user_id code))
          s)
        s

-- `createBankCheckout`, with the request as its result.
unfoldable pub create_bank_checkout : BankSetting → CheckoutInput → Tx PaymentRequest
create_bank_checkout bank input = do
  throw_if
      (is_some (normalize_coupon_code input.coupon_code) && is_none input.expected_total_amount)
      invalid_payment_request
  user_id ← or_throw invalid_payment_request (object_id_of input.user_id)
  product_id ← or_throw invalid_payment_request (object_id_of input.product_id)
  price ← or_throw invalid_payment_request (natural_safe input.expected_unit_price)
  prior ← find_request (kept_with_key input.idempotency_key)
  r ← found_or_new (checkout_once bank input user_id) prior
  assert_same_checkout input r
