-- ===== src/Purchase/Single.antt =====
-- `purchase` (apps/api/src/purchase/purchase.service.ts): one item for one order, paid from the wallet.
-- The messages to the queues are left out.
pub mod Books
pub mod Replay
use cdk_gpt.Prelude.{
  ℕ, suc, ◌+◌, Bool, true, false, ◌&&◌, not, Option, none, some, Text, codes, ◌++◌, neg, ltb, ◌==◌,
  if◌then◌else◌, find_first,
}
use cdk_gpt.Store.{
  Db, User, Product, Order, pending_delivery, DeliveryStatus, WalletTransaction, purchase, order,
  user, Tx, Result, ok, err, Error, user_inactive, product_unavailable, price_changed,
  insufficient_balance, purchase_limit_reached, out_of_stock, idempotency_conflict, duplicate_key,
  ◌>>=◌, ◌>>◌, pure, gets, or_throw, throw_if, new_id,
}
use cdk_gpt.Users.{find_active, lock_for_checkout, debit}
use cdk_gpt.Wallet
use cdk_gpt.Inventory.{
  reserve_one, release_expired_payment_reservations_for_product, count_active_payment_reservations,
}
use cdk_gpt.Orders.{create_order, attach_wallet_transaction, order_has_key, find_order_by_key}
use cdk_gpt.Purchase.{find_product, product_on_sale, count_purchases, reservation_ms, order_code}
use cdk_gpt.Purchase.Quote.{over_limit}

-- `PurchaseDto`, whose decorators have checked it.
pub record PurchaseInput : Type 0 where
  pub user_id : ℕ
  pub product_id : ℕ
  pub expected_unit_price : ℕ
  pub idempotency_key : Text

-- `assertSameRequest`
abbrev pub same_request : PurchaseInput → Order → Bool
same_request input o =
    o.user_id == input.user_id
    && o.product_id == input.product_id
    && o.unit_price == input.expected_unit_price

-- An order that is there already answers the request, if it is for the same purchase.
unfoldable pub confirm : PurchaseInput → Order → Tx Order
confirm input o = do throw_if (not (same_request input o)) idempotency_conflict; pure o

unfoldable pub check_purchase_limit : PurchaseInput → ℕ → Tx (Unit {0})
check_purchase_limit input limit =
    if ltb 0 limit
    then (do
      release_expired_payment_reservations_for_product input.product_id
      held ← count_active_payment_reservations input.product_id input.user_id
      purchased ← count_purchases input.user_id input.product_id
      throw_if (over_limit limit (purchased + held + 1)) purchase_limit_reached)
    else pure tt

abbrev pub single_order : PurchaseInput → Product → ℕ → Text → ℕ → Order
single_order input product id code item_id = record {
  id = id;
  order_code = code;
  user_id = input.user_id;
  product_id = input.product_id;
  inventory_item_id = item_id;
  unit_price = product.price;
  discount_amount = 0;
  total_amount = product.price;
  coupon_code = none;
  coupon_id = none;
  status = pending_delivery;
  delivery_status = DeliveryStatus.pending;
  wallet_transaction_id = none;
  failure_reason = none;
  idempotency_key = input.idempotency_key;
  metadata = record {
    payment_request_id = none;
    purchase_group_id = none;
    batch_quantity = none;
    batch_total_amount = none;
  };
}

abbrev pub single_charge : PurchaseInput → User → User → ℕ → Order → WalletTransaction
single_charge input before after amount o = record {
  id = 0;
  user_id = input.user_id;
  balance_before = before.wallet_balance;
  balance_after = after.wallet_balance;
  amount = neg amount;
  kind = purchase;
  reason = codes "Purchase " ++ o.order_code;
  reference_type = order;
  reference_id = some o.id;
  idempotency_key = codes "purchase:" ++ input.idempotency_key;
  actor_type = user;
  actor_id = some input.user_id;
}

-- The order with its charge, once its product and its customer are known.
unfoldable pub order_product : PurchaseInput → User → Product → Tx Order
order_product input buyer product = do
  order_id ← new_id
  release_expired_payment_reservations_for_product input.product_id
  now ← gets λ s. s.now
  item ←
      or_throw out_of_stock
        (← reserve_one input.product_id input.user_id order_id (now + reservation_ms))
  code ← order_code
  o ← create_order (single_order input product order_id code item.id)
  debited ← or_throw insufficient_balance (← debit input.user_id product.price)
  made ← Wallet.create (single_charge input buyer debited product.price o)
  attach_wallet_transaction o.id made.id
  pure (record o { wallet_transaction_id = some made.id })

-- The transaction, behind the lookup of the key.
unfoldable pub purchase_new : PurchaseInput → Tx Order
purchase_new input = do
  buyer ← or_throw user_inactive (← find_active input.user_id)
  lock_for_checkout input.user_id
  product ← or_throw product_unavailable (← find_product (product_on_sale input.product_id))
  throw_if (not (product.price == input.expected_unit_price)) price_changed
  throw_if (ltb buyer.wallet_balance product.price) insufficient_balance
  check_purchase_limit input product.purchase_limit_per_user
  order_product input buyer product

unfoldable pub confirm_or : PurchaseInput → Tx Order → Option Order → Tx Order
confirm_or input otherwise none = otherwise
confirm_or input otherwise (some o) = confirm input o

-- The catch clause: what another transaction has made under the same key is the answer.
unfoldable pub recover : PurchaseInput → Result (Order × Db) → Tx Order
recover input (ok (o, t)) s = ok (o, t)
recover input (err duplicate_key) s =
    confirm_or input (λ x. err duplicate_key)
      (find_first (order_has_key input.idempotency_key) s.orders) s
recover input (err e) s = err e

-- The transaction of `purchase`.
unfoldable pub purchase_once : PurchaseInput → Tx Order
purchase_once input = do
  existing ← find_order_by_key input.idempotency_key
  confirm_or input (purchase_new input) existing

-- `purchase`
unfoldable pub purchase_one : PurchaseInput → Tx Order
purchase_one input = do
  prior ← find_order_by_key input.idempotency_key
  confirm_or input (λ s. recover input (purchase_once input s) s) prior
