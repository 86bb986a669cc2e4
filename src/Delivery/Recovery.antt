-- ===== src/Delivery/Recovery.antt =====
-- `DeliveryRecoveryService` (apps/api/src/delivery/delivery-recovery.service.ts): what an administrator does
-- with an order whose delivery has failed. The notes on the items and on who has acted are left out; whether
-- the queue takes the job is an argument.
pub mod Refunds
use cdk_gpt.Prelude.{
  ℕ, ◌+◌, zero, suc, Bool, true, false, ◌&&◌, not, Option, none, some, List, [], ◌∷◌, ◌++◌, Text,
  codes, decimal, int, pos, ◌==◌, holds, find_first, any_row,
}
use cdk_gpt.Store.{
  Db, Order, OrderStatus, pending_delivery, delivery_failed, refunded, DeliveryStatus, pending,
  failed, InventoryItem, disabled, refund, order, admin, Tx, Result, ok, err, Error, out_of_stock,
  duplicate_key, not_failed_delivery, recovery_not_queued, replacement_failed, ◌>>=◌, ◌>>◌, pure,
  gets, or_throw, throw_if,
}
use cdk_gpt.Wallet.{WalletChange, credit_change}
use cdk_gpt.Inventory.{is_reserved, update_item, reserve_one}
use cdk_gpt.Orders.{is_pending, update_order}
use cdk_gpt.Purchase.{reservation_ms}

abbrev pub is_failed : OrderStatus → Bool
is_failed delivery_failed = true
is_failed _ = false

abbrev pub is_refunded : OrderStatus → Bool
is_refunded refunded = true
is_refunded _ = false

abbrev pub failed_order : ℕ → Order → Bool
failed_order id o = o.id == id && is_failed o.status

abbrev pub waits_again : Order → Order
waits_again o = record o {
  status = pending_delivery;
  delivery_status = pending;
  failure_reason = none;
}

abbrev pub not_queued : Text
not_queued = codes "Recovery delivery could not be queued"

-- `enqueueRecovery`: if the queue refuses the job, the order has failed again.
unfoldable pub enqueue_recovery : Bool → ℕ → Order → Db → Result Order × Db
enqueue_recovery true id o s = (ok o, s)
enqueue_recovery false id o s = give_up (
    update_order (λ x. x.id == id && is_pending x.status)
      (λ x. record x {
        status = delivery_failed;
        delivery_status = failed;
        failure_reason = some not_queued;
      })
      s)
  where
    give_up : Result (Option Order × Db) → Result Order × Db
    give_up (ok (x, t)) = (err recovery_not_queued, t)
    give_up (err e) = (err e, s)

abbrev pub queued_after : Bool → ℕ → Db → Result (Order × Db) → Result Order × Db
queued_after queued id s (ok (o, t)) = enqueue_recovery queued id o t
queued_after queued id s (err e) = (err e, s)

unfoldable pub reopen_order : ℕ → Tx Order
reopen_order id = do o ← update_order (failed_order id) waits_again; or_throw not_failed_delivery o

-- `resend`
unfoldable pub resend : Bool → ℕ → Db → Result Order × Db
resend queued id s = queued_after queued id s (reopen_order id s)

unfoldable pub find_order_where : (Order → Bool) → Tx (Option Order)
find_order_where p = gets λ s. find_first p s.orders

-- The item that may have reached the customer is taken out of circulation.
unfoldable pub disable_held : ℕ → ℕ → Tx (Option InventoryItem)
disable_held item_id order_id =
    update_item
      (λ now x. x.id == item_id && is_reserved x.status && holds order_id x.reserved_order_id)
      (λ now x. record x { status = disabled })

unfoldable pub disable_reserved : ℕ → Tx (Option InventoryItem)
disable_reserved item_id =
    update_item (λ now x. x.id == item_id && is_reserved x.status)
      (λ now x. record x { status = disabled })

-- The order with another item, under the unique index on the item.
unfoldable pub exchange_item : ℕ → ℕ → Tx (Option Order)
exchange_item id item_id = do
  taken ← gets λ s. any_row (λ x. x.inventory_item_id == item_id && not (x.id == id)) s.orders
  throw_if taken duplicate_key
  update_order (λ x. x.id == id) (λ x. record (waits_again x) { inventory_item_id = item_id })

-- The transaction of `replace`.
unfoldable pub replace_item : ℕ → Tx Order
replace_item id = do
  o ← or_throw not_failed_delivery (← find_order_where (failed_order id))
  disable_held o.inventory_item_id o.id
  now ← gets λ s. s.now
  x ← or_throw out_of_stock (← reserve_one o.product_id o.user_id o.id (now + reservation_ms))
  or_throw replacement_failed (← exchange_item o.id x.id)

-- `replace`
unfoldable pub replace : Bool → ℕ → Db → Result Order × Db
replace queued id s = queued_after queued id s (replace_item id s)

-- The refund of a failed delivery.
abbrev pub delivery_refund : Order → ℕ → ℕ → WalletChange
delivery_refund o admin_id amount = record {
  user_id = o.user_id;
  amount = int (pos amount);
  kind = refund;
  reason = codes "Delivery refund for " ++ o.order_code;
  reference_type = order;
  reference_id = some o.id;
  idempotency_key = codes "delivery-refund:" ++ decimal o.id;
  actor_type = admin;
  actor_id = some admin_id;
}

-- A free order has nothing to credit.
unfoldable pub credit_refund : Order → ℕ → ℕ → Tx (Unit {0})
credit_refund o admin_id zero = pure tt
credit_refund o admin_id (suc n) = do credit_change (delivery_refund o admin_id (suc n)); pure tt

unfoldable pub refund_failed_order : ℕ → Order → Tx Order
refund_failed_order admin_id o = do
  credit_refund o admin_id o.total_amount
  disable_reserved o.inventory_item_id
  or_throw not_failed_delivery
      (← update_order (λ x. x.id == o.id) (λ x. record x { status = refunded }))

-- An order that has been refunded already answers as it is.
unfoldable pub refunded_or_throw : ℕ → Tx Order
refunded_or_throw id = do
  o ← find_order_where (λ x. x.id == id && is_refunded x.status)
  or_throw not_failed_delivery o

abbrev pub refund_or_else : ℕ → ℕ → Option Order → Tx Order
refund_or_else admin_id id none = refunded_or_throw id
refund_or_else admin_id id (some o) = refund_failed_order admin_id o

-- `refund`
unfoldable pub refund_delivery : ℕ → ℕ → Tx Order
refund_delivery id admin_id = find_order_where (failed_order id) >>= refund_or_else admin_id id
