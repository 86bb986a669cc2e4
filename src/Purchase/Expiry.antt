-- ===== src/Purchase/Expiry.antt =====
-- `InventoryReservationService.releaseExpired` and `releaseExpiredPaymentHolds`
-- (apps/api/src/inventory/inventory-reservation.service.ts): items whose reservation has run out go
-- back to stock, each in a transaction of its own, and an order that was paid is refunded.
pub mod Books
use cdk_gpt.Prelude.{
  ℕ, ◌+◌, zero, suc, Bool, true, false, ◌&&◌, Option, none, some, is_some, is_none, List, [], ◌∷◌,
  ◌++◌, Text, codes, decimal, pos, ◌==◌, find_first, length, if◌then◌else◌,
}
use cdk_gpt.Store.{
  Db, User, InventoryItem, Order, cancelled, failed, WalletTransaction, refund, order, system, Tx,
  Result, ok, err, user_missing_for_refund, refund_failed, ◌>>=◌, ◌>>◌, pure, gets, or_throw,
}
use cdk_gpt.Users.{find_active, credit}
use cdk_gpt.Wallet
use cdk_gpt.Inventory.{
  find_expired, find_expired_payment_reservations, release_expired, release_expired_payment,
}
use cdk_gpt.Orders.{update_order, is_pending, is_waiting}

-- The order that holds the item, if its delivery has not begun.
unfoldable pub find_undelivered : ℕ → Tx (Option Order)
find_undelivered order_id = gets λ s.
    find_first (λ o. o.id == order_id && is_pending o.status && is_waiting o.delivery_status)
      s.orders

abbrev pub expiry_reason : Text
expiry_reason = codes "Reservation expired before delivery"

unfoldable pub cancel_order : ℕ → Option ℕ → Tx (Option Order)
cancel_order order_id none =
    update_order (λ o. o.id == order_id)
      (λ o. record o {
        status = cancelled;
        delivery_status = failed;
        failure_reason = some expiry_reason;
      })
cancel_order order_id (some transaction_id) =
    update_order (λ o. o.id == order_id)
      (λ o. record o {
        status = cancelled;
        delivery_status = failed;
        failure_reason = some expiry_reason;
        wallet_transaction_id = some transaction_id;
      })

abbrev pub refund_of : Order → ℕ → ℕ → ℕ → WalletTransaction
refund_of o before after amount = record {
  id = 0;
  user_id = o.user_id;
  balance_before = before;
  balance_after = after;
  amount = pos amount;
  kind = refund;
  reason = codes "Reservation expired for " ++ o.order_code;
  reference_type = order;
  reference_id = some o.id;
  idempotency_key = codes "reservation-expired:" ++ decimal o.id;
  actor_type = system;
  actor_id = none;
}

-- The money goes back, and the order is cancelled; a free order is cancelled only.
unfoldable pub refund_order : Order → ℕ → Tx Bool
refund_order o zero = do cancel_order o.id none; pure true
refund_order o (suc n) = do
  before ← or_throw user_missing_for_refund (← find_active o.user_id)
  after ← or_throw refund_failed (← credit o.user_id (suc n))
  made ← Wallet.create (refund_of o before.wallet_balance after.wallet_balance (suc n))
  cancel_order o.id (some made.id)
  pure true

abbrev pub refund_if_released : Order → Option InventoryItem → Tx Bool
refund_if_released o none = pure false
refund_if_released o (some item) = refund_order o o.total_amount

abbrev pub release_for_order : ℕ → Option Order → Tx Bool
release_for_order item_id none = pure false
release_for_order item_id (some o) = do
  item ← release_expired item_id o.id
  refund_if_released o item

-- The item is held for an order.
unfoldable pub release_order_item : InventoryItem → Option ℕ → Tx Bool
release_order_item item none = pure false
release_order_item item (some order_id) = do
  o ← find_undelivered order_id
  release_for_order item.id o

unfoldable pub release_payment_item : ℕ → ℕ → Tx Bool
release_payment_item item_id request_id = do
  freed ← release_expired_payment item_id request_id
  pure (is_some freed)

abbrev pub release_held : InventoryItem → Option ℕ → Option ℕ → Tx Bool
release_held item (some request_id) none = release_payment_item item.id request_id
release_held item (some request_id) (some order_id) = release_order_item item (some order_id)
release_held item none order_id = release_order_item item order_id

-- The body of the loop of `releaseExpired`, with whether it has counted the item as released.
unfoldable pub release_item : InventoryItem → Tx Bool
release_item item = release_held item item.reserved_payment_request_id item.reserved_order_id

abbrev pub then_release : (ℕ → Db → Result ℕ × Db) → ℕ → Db → Result (Bool × Db) → Result ℕ × Db
then_release rest n s (ok (true, t)) = rest (n + 1) t
then_release rest n s (ok (false, t)) = rest n t
then_release rest n s (err e) = (err e, s)

-- The loop: each item in a transaction of its own; what the earlier ones have committed stays when one
-- throws, and the loop ends there.
unfoldable pub release_each : List InventoryItem → ℕ → Db → Result ℕ × Db
release_each [] n s = (ok n, s)
release_each (item ∷ items) n s = then_release (release_each items) n s (release_item item s)

abbrev pub with_examined : ℕ → Result ℕ × Db → Result (ℕ × ℕ) × Db
with_examined examined (ok n, s) = (ok (examined, n), s)
with_examined examined (err e, s) = (err e, s)

-- `releaseExpired`, with the number of the items examined beside the number released.
unfoldable pub release_expired_items : ℕ → Db → Result (ℕ × ℕ) × Db
release_expired_items limit s = elim (find_expired limit s) [
  | err e ↦ (err e, s)
  | ok (items, t) ↦ with_examined (length items) (release_each items 0 t)
]

-- The loop of `releaseExpiredPaymentHolds`.
unfoldable pub release_each_hold : List InventoryItem → ℕ → Tx ℕ
release_each_hold [] n = pure n
release_each_hold (item ∷ items) n = elim item.reserved_payment_request_id [
  | none ↦ release_each_hold items n
  | some request_id ↦ do
    freed ← release_payment_item item.id request_id
    release_each_hold items (if freed then n + 1 else n)
]

-- `releaseExpiredPaymentHolds`
unfoldable pub release_expired_payment_holds : ℕ → Tx (ℕ × ℕ)
release_expired_payment_holds limit = do
  items ← find_expired_payment_reservations limit
  released ← release_each_hold items 0
  pure (length items, released)
