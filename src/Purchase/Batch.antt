-- ===== src/Purchase/Batch.antt =====
-- `purchaseBatch` (apps/api/src/purchase/purchase.service.ts): one order for each unit, reserved and
-- charged in one transaction. The messages to the queues that follow a commit are left out.
pub mod Books
pub mod Charges
use cdk_gpt.Prelude.{
  ℕ, zero, suc, ◌+◌, ◌-◌, ◌*◌, Bool, true, false, ◌&&◌, ◌||◌, not, Option, none, some, is_some,
  List, [], ◌∷◌, ◌++◌, Text, codes, neg, leb, ltb, ◌==◌, if◌then◌else◌, length, holds, any_row,
  find_first, find_all, total, eq_option, eq_text?, text_eq,
}
use cdk_gpt.Store.{
  Db, User, Product, InventoryItem, Order, OrderMetadata, pending_delivery, DeliveryStatus,
  WalletTransaction, purchase, order, user, Tx, Result, ok, err, Error, user_inactive,
  product_unavailable, price_changed, invalid_total, coupon_unavailable, insufficient_balance,
  purchase_limit_reached, out_of_stock, idempotency_conflict, duplicate_key, ◌>>=◌, ◌>>◌, pure,
  throw, gets, modify, or_throw, throw_if, new_id,
}
use cdk_gpt.Users.{find_active, lock_for_checkout, debit}
use cdk_gpt.Wallet
use cdk_gpt.Inventory.{
  reserve_one, assign_payment_reservation, find_payment_reservations,
  release_expired_payment_reservations_for_product, count_active_payment_reservations,
}
use cdk_gpt.Orders.{create_order, attach_wallet_transaction, order_has_key}
use cdk_gpt.Coupons.{CouponPricing, redeem, normalize_coupon_code}
use cdk_gpt.Purchase.{
  PurchaseBatchInput, ValidBatch, validate_batch_input, batch_key, batch_keys, find_product,
  product_on_sale, product_kept, count_purchases, bad_total, reservation_ms, order_code,
}
use cdk_gpt.Purchase.Split.{discount_share}
use cdk_gpt.Purchase.Quote.{coupon_pricing, over_limit}

-- `InventoryReservationService.reserveOne`
unfoldable pub reserve_from_stock : ℕ → ℕ → ℕ → ℕ → Tx (Option InventoryItem)
reserve_from_stock product_id user_id order_id expires_at = do
  release_expired_payment_reservations_for_product product_id
  reserve_one product_id user_id order_id expires_at

-- The item of one order: the held one, if the checkout holds stock, or else one from stock.
unfoldable pub take_item : ValidBatch → Option InventoryItem → ℕ → ℕ → Tx (Option InventoryItem)
take_item b none order_id expires_at = reserve_from_stock b.product_id b.user_id order_id expires_at
take_item b (some held) order_id expires_at = elim b.payment_request_id [
  | none ↦ reserve_from_stock b.product_id b.user_id order_id expires_at
  | some request_id ↦ assign_payment_reservation held.id request_id order_id expires_at
]

-- The wallet transaction of one order.
abbrev pub charge_of : ValidBatch → ℕ → ℕ → ℕ → Order → Text → WalletTransaction
charge_of b before after amount o key = record {
  id = 0;
  user_id = b.user_id;
  balance_before = before;
  balance_after = after;
  amount = neg amount;
  kind = purchase;
  reason = codes "Purchase " ++ o.order_code;
  reference_type = order;
  reference_id = some o.id;
  idempotency_key = codes "purchase:" ++ key;
  actor_type = user;
  actor_id = some b.user_id;
}

-- `if (totalAmount > 0)`: the charge is written down and attached to its order.
unfoldable pub record_charge : ValidBatch → ℕ → ℕ → ℕ → Order → Text → Tx Order
record_charge b before after zero o key = pure o
record_charge b before after (suc n) o key = do
  made ← Wallet.create (charge_of b before after (suc n) o key)
  attach_wallet_transaction o.id made.id
  pure (record o { wallet_transaction_id = some made.id })

-- What the whole batch has settled before its loop.
pub record Terms : Type 0 where
  pub batch : ValidBatch
  pub unit_price : ℕ
  pub pricing : CouponPricing
  pub held : List InventoryItem

abbrev pub new_order : Terms → ℕ → ℕ → Text → ℕ → ℕ → Order
new_order terms index id code item_id total_amount = record {
  id = id;
  order_code = code;
  user_id = terms.batch.user_id;
  product_id = terms.batch.product_id;
  inventory_item_id = item_id;
  unit_price = terms.unit_price;
  discount_amount = discount_share terms.pricing.discount_amount terms.batch.quantity index;
  total_amount = total_amount;
  coupon_code = terms.pricing.coupon_code;
  coupon_id = terms.pricing.coupon_id;
  status = pending_delivery;
  delivery_status = DeliveryStatus.pending;
  wallet_transaction_id = none;
  failure_reason = none;
  idempotency_key = batch_key terms.batch.idempotency_prefix index;
  metadata = record {
    payment_request_id = terms.batch.payment_request_id;
    purchase_group_id = some terms.batch.idempotency_prefix;
    batch_quantity = some terms.batch.quantity;
    batch_total_amount = some terms.pricing.total_amount;
  };
}

abbrev pub share_total : Terms → ℕ → ℕ
share_total terms index =
    terms.unit_price - discount_share terms.pricing.discount_amount terms.batch.quantity index

-- One round of the loop of `createBatch`: the order, and the balance that it leaves.
unfoldable pub place_order : Terms → ℕ → Option InventoryItem → ℕ → Tx (Order × ℕ)
place_order terms index held before = do
  let amount : ℕ = share_total terms index
  order_id ← new_id
  now ← gets λ s. s.now
  item ← or_throw out_of_stock (← take_item terms.batch held order_id (now + reservation_ms))
  code ← order_code
  o ← create_order (new_order terms index order_id code item.id amount)
  debited ← or_throw insufficient_balance (← debit terms.batch.user_id amount)
  charged ← record_charge terms.batch before debited.wallet_balance amount o o.idempotency_key
  pure (charged, debited.wallet_balance)

abbrev pub head_item : List InventoryItem → Option InventoryItem
head_item [] = none
head_item (x ∷ xs) = some x

abbrev pub rest_items : List InventoryItem → List InventoryItem
rest_items [] = []
rest_items (x ∷ xs) = xs

-- The loop of `createBatch`: `n` orders from `index` on, over the held items that are left.
unfoldable pub place_orders : Terms → ℕ → ℕ → List InventoryItem → ℕ → Tx (List Order)
place_orders terms zero index held before = pure []
place_orders terms (suc n) index held before = do
  (o, balance) ← place_order terms index (head_item held) before
  rest ← place_orders terms n (index + 1) (rest_items held) balance
  pure (o ∷ rest)

-- The product that a batch may buy: with a payment, also one that has been paused since.
unfoldable pub purchasable : ValidBatch → Product → Bool
purchasable b x =
    if is_some b.payment_request_id
    then (if b.allow_unreserved_payment then product_kept b.product_id x else x.id == b.product_id)
    else product_on_sale b.product_id x

-- The price of the batch: a coupon is redeemed, and without one the price is as it stands.
unfoldable pub settle_price : ValidBatch → ℕ → Option Text → Tx CouponPricing
settle_price b subtotal none = coupon_pricing b subtotal
settle_price b subtotal (some code) = do
  throw_if (not (is_some b.expected_total_amount)) coupon_unavailable
  redeem
      (record {
        user_id = b.user_id;
        product_id = b.product_id;
        subtotal = subtotal;
        coupon_code = some code;
      })
      b.quantity b.idempotency_prefix b.expected_total_amount

-- Legacy checkouts hold their stock, and are exempt from the limit.
abbrev pub is_soft : ValidBatch → Bool
is_soft b = not (is_some b.payment_request_id) || b.allow_unreserved_payment

unfoldable pub check_limit : ValidBatch → Product → Tx (Unit {0})
check_limit b product =
    if is_soft b && ltb 0 product.purchase_limit_per_user
    then (do
      release_expired_payment_reservations_for_product b.product_id
      held ← count_active_payment_reservations b.product_id b.user_id
      purchased ← count_purchases b.user_id b.product_id
      throw_if (over_limit product.purchase_limit_per_user (purchased + held + b.quantity))
          purchase_limit_reached)
    else pure tt

-- An item that is not held by this customer for this product.
abbrev pub is_foreign : ValidBatch → InventoryItem → Bool
is_foreign b x = not (x.product_id == b.product_id) || not (holds b.user_id x.reserved_by_user_id)

unfoldable pub held_items : ValidBatch → Tx (List InventoryItem)
held_items b = elim b.payment_request_id [
  | none ↦ pure []
  | some request_id ↦ if b.allow_unreserved_payment then pure [] else (do
    held ← find_payment_reservations request_id
    throw_if (not (length held == b.quantity)) out_of_stock
    throw_if (any_row (is_foreign b) held) idempotency_conflict
    pure held)
]

-- The price to pay for one unit: a paid checkout keeps the price it was made at.
abbrev pub unit_price_of : ValidBatch → Product → ℕ
unit_price_of b product =
    if is_some b.payment_request_id then b.expected_unit_price else product.price

-- The second half of `createBatch`, from the subtotal on.
unfoldable pub sell : ValidBatch → User → Product → ℕ → Tx (List Order)
sell b buyer product unit_price = do
  throw_if (bad_total (unit_price * b.quantity)) invalid_total
  pricing ← settle_price b (unit_price * b.quantity) (normalize_coupon_code b.coupon_code)
  throw_if (ltb buyer.wallet_balance pricing.total_amount) insufficient_balance
  check_limit b product
  held ← held_items b
  place_orders (record { batch = b; unit_price = unit_price; pricing = pricing; held = held })
      b.quantity 0 held buyer.wallet_balance

-- The price that the customer has seen is not the price any more.
abbrev pub price_moved : ValidBatch → Product → Bool
price_moved b product =
    not (is_some b.payment_request_id) && not (product.price == b.expected_unit_price)

-- `createBatch`
unfoldable pub create_batch : ValidBatch → Tx (List Order)
create_batch b = do
  buyer ← or_throw user_inactive (← find_active b.user_id)
  lock_for_checkout b.user_id
  product ← or_throw product_unavailable (← find_product (purchasable b))
  throw_if (price_moved b product) price_changed
  sell b buyer product (unit_price_of b product)
