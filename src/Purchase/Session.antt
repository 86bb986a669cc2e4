-- ===== src/Purchase/Session.antt =====
-- `purchaseBatch` and `purchaseBatchInSession` (apps/api/src/purchase/purchase.service.ts): a batch
-- that is there already is the answer, and a new one is made by `createBatch`.
pub mod Books
use cdk_gpt.Prelude.{
  ℕ, Bool, true, false, ◌&&◌, ◌||◌, not, Option, none, some, List, [], ◌∷◌, Text, text_eq, eq_text?,
  eq_option, ◌==◌, any_row, find_all, find_first, length, total, is_none, if◌then◌else◌,
}
use cdk_gpt.Store.{
  Db, Order, Tx, Result, ok, err, duplicate_key, idempotency_conflict, ◌>>=◌, ◌>>◌, pure, gets,
  throw_if, or_throw,
}
use cdk_gpt.Orders.{order_has_key}
use cdk_gpt.Coupons.{normalize_coupon_code, differs}
use cdk_gpt.Purchase.{ValidBatch, PurchaseBatchInput, batch_keys, validate_batch_input}
use cdk_gpt.Purchase.Batch.{create_batch}

-- `findBatch`
unfoldable pub find_batch : List Text → Tx (List Order)
find_batch keys = gets λ s. find_all (λ o. any_row (λ key. order_has_key key o) keys) s.orders

abbrev pub other_quantity : ℕ → Option ℕ → Bool
other_quantity n none = false
other_quantity n (some k) = not (k == n)

-- An order under a key of the batch that is not of this batch.
abbrev pub is_other_order : ValidBatch → Order → Bool
is_other_order b o =
    not (o.user_id == b.user_id)
    || not (o.product_id == b.product_id)
    || not (o.unit_price == b.expected_unit_price)
    || not (eq_text? o.coupon_code (normalize_coupon_code b.coupon_code))
    || other_quantity b.quantity o.metadata.batch_quantity
    || not (eq_option o.metadata.payment_request_id b.payment_request_id)

-- The orders of the keys, in the order of the keys.
unfoldable pub orders_of_keys : ValidBatch → List Order → List Text → Tx (List Order)
orders_of_keys b found [] = pure []
orders_of_keys b found (key ∷ keys) = do
  o ← or_throw idempotency_conflict (find_first (order_has_key key) found)
  throw_if (is_other_order b o) idempotency_conflict
  rest ← orders_of_keys b found keys
  pure (o ∷ rest)

-- `assertCompleteBatch`
unfoldable pub assert_complete_batch : ValidBatch → List Order → List Text → Tx (List Order)
assert_complete_batch b found keys = do
  throw_if (not (length found == b.quantity)) idempotency_conflict
  throw_if (differs b.expected_total_amount (total (λ o. o.total_amount) found))
      idempotency_conflict
  orders_of_keys b found keys

abbrev pub complete_or : ValidBatch → List Text → Tx (List Order) → List Order → Tx (List Order)
complete_or b keys otherwise [] = otherwise
complete_or b keys otherwise (o ∷ found) = assert_complete_batch b (o ∷ found) keys

unfoldable pub purchase_valid_batch_in_session : ValidBatch → Tx (List Order)
purchase_valid_batch_in_session b = do
  existing ← find_batch (batch_keys b)
  complete_or b (batch_keys b) (create_batch b) existing

-- `purchaseBatchInSession`
unfoldable pub purchase_batch_in_session : PurchaseBatchInput → Tx (List Order)
purchase_batch_in_session input = do
  b ← validate_batch_input input
  purchase_valid_batch_in_session b

-- The catch clause of `purchaseBatch`.
unfoldable pub recover_batch : ValidBatch → Result (List Order × Db) → Tx (List Order)
recover_batch b (ok (o, t)) s = ok (o, t)
recover_batch b (err duplicate_key) s =
    (find_batch (batch_keys b) >>= complete_or b (batch_keys b) (λ x. err duplicate_key)) s
recover_batch b (err e) s = err e

-- `purchaseBatch`
unfoldable pub purchase_batch : PurchaseBatchInput → Tx (List Order)
purchase_batch input = do
  b ← validate_batch_input input
  prior ← find_batch (batch_keys b)
  complete_or b (batch_keys b) (λ s. recover_batch b (purchase_batch_in_session input s) s) prior
