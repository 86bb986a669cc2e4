-- ===== src/Orders.antt =====
-- `OrderRepository` (packages/database/src/repositories/order.repository.ts), with the unique indexes
-- of packages/database/src/schemas/order.schema.ts on `idempotencyKey` and on `inventoryItemId`.
-- Order codes are drawn at random and taken to be distinct.
use cdk_gpt.Prelude.{
  ℕ, Bool, true, false, ◌&&◌, Option, none, some, List, [], ◌∷◌, ◌++◌, Text, text_eq, ◌==◌,
  find_first, find_and_update, any_row, take,
}
use cdk_gpt.Store.{
  Db, Order, OrderStatus, pending_delivery, delivering, delivered, delivery_failed, DeliveryStatus,
  pending, processing, failed, Tx, ok, duplicate_key, ◌>>=◌, ◌>>◌, pure, gets, modify, throw_if,
}

abbrev pub order_has_key : Text → Order → Bool
order_has_key key o = text_eq o.idempotency_key key

unfoldable pub find_order_by_key : Text → Tx (Option Order)
find_order_by_key key = gets λ s. find_first (order_has_key key) s.orders

unfoldable pub find_order : ℕ → Tx (Option Order)
find_order id = gets λ s. find_first (λ o. o.id == id) s.orders

-- `orders.create([data])`
unfoldable pub create_order : Order → Tx Order
create_order row = do
  key_taken ← gets λ s. any_row (order_has_key row.idempotency_key) s.orders
  throw_if key_taken duplicate_key
  item_taken ← gets λ s. any_row (λ o. o.inventory_item_id == row.inventory_item_id) s.orders
  throw_if item_taken duplicate_key
  modify λ s. record s { orders = s.orders ++ row ∷ [] }
  pure row

abbrev pub store_order : Db → Option (Order × List Order) → Option Order × Db
store_order s none = (none, s)
store_order s (some (x, xs)) = (some x, record s { orders = xs })

-- `orders.findOneAndUpdate(filter, update, { new: true })`
unfoldable pub update_order : (Order → Bool) → (Order → Order) → Tx (Option Order)
update_order p f s = ok (store_order s (find_and_update p f s.orders))

unfoldable pub attach_wallet_transaction : ℕ → ℕ → Tx (Option Order)
attach_wallet_transaction order_id transaction_id =
    update_order (λ o. o.id == order_id)
      (λ o. record o { wallet_transaction_id = some transaction_id })

abbrev pub is_pending : OrderStatus → Bool
is_pending pending_delivery = true
is_pending _ = false

-- `status: { $in: [PENDING_DELIVERY, DELIVERING] }`
abbrev pub is_open : OrderStatus → Bool
is_open pending_delivery = true
is_open delivering = true
is_open _ = false

abbrev pub is_waiting : DeliveryStatus → Bool
is_waiting pending = true
is_waiting _ = false

unfoldable pub mark_delivering : ℕ → Tx (Option Order)
mark_delivering order_id =
    update_order (λ o. o.id == order_id && is_pending o.status && is_waiting o.delivery_status)
      (λ o. record o { status = delivering; delivery_status = processing; failure_reason = none })

unfoldable pub mark_delivered : ℕ → Tx (Option Order)
mark_delivered order_id =
    update_order (λ o. o.id == order_id && is_open o.status)
      (λ o. record o {
        status = delivered;
        delivery_status = DeliveryStatus.delivered;
        failure_reason = none;
      })

unfoldable pub mark_delivery_failed : ℕ → Text → Tx (Option Order)
mark_delivery_failed order_id reason =
    update_order (λ o. o.id == order_id && is_open o.status)
      (λ o. record o {
        status = delivery_failed;
        delivery_status = failed;
        failure_reason = some (take 2000 reason);
      })
