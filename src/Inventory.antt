-- ===== src/Inventory.antt =====
-- `InventoryRepository` (packages/database/src/repositories/inventory.repository.ts): items move
-- between AVAILABLE, RESERVED and SOLD by guarded updates.
pub mod Lifecycle
pub mod History
pub mod Stock
use cdk_gpt.Prelude.{
  ℕ, ◌+◌, Bool, true, false, ◌&&◌, not, Option, none, some, List, [], leb, ltb, ◌==◌, holds,
  is_some, is_none, find_first, find_all, find_and_update, update_all, count_if, any_row, take, min,
  sort_by,
}
use cdk_gpt.Store.{
  Db, InventoryItem, InventoryStatus, available, reserved, sold, disabled, returned, Tx, ok, gets,
}

abbrev pub is_available : InventoryStatus → Bool
is_available available = true
is_available _ = false

abbrev pub is_reserved : InventoryStatus → Bool
is_reserved reserved = true
is_reserved _ = false

-- `reservationExpiresAt: { $lte: now }`, which a missing date does not meet.
abbrev pub expired_at : ℕ → Option ℕ → Bool
expired_at now none = false
expired_at now (some t) = leb t now

-- `reservationExpiresAt: { $gt: now }`
abbrev pub unexpired_at : ℕ → Option ℕ → Bool
unexpired_at now none = false
unexpired_at now (some t) = ltb now t

abbrev pub store_item : Db → Option (InventoryItem × List InventoryItem) → Option InventoryItem × Db
store_item s none = (none, s)
store_item s (some (x, xs)) = (some x, record s { inventory_items = xs })

-- `items.findOneAndUpdate(filter, update, { new: true, sort: { createdAt: 1 } })`; the filter and
-- the update may read the clock.
unfoldable pub update_item :
    (ℕ → InventoryItem → Bool) → (ℕ → InventoryItem → InventoryItem) → Tx (Option InventoryItem)
update_item p f s = ok (store_item s (find_and_update (p s.now) (f s.now) s.inventory_items))

-- `items.updateMany(filter, update)`, with `matchedCount` as its result.
unfoldable pub update_items :
    (ℕ → InventoryItem → Bool) → (ℕ → InventoryItem → InventoryItem) → Tx ℕ
update_items p f s = ok (
  count_if (p s.now) s.inventory_items,
  record s { inventory_items = update_all (p s.now) (f s.now) s.inventory_items },
)

-- `{ productId, status: AVAILABLE, deletedAt: null }`
abbrev pub for_sale : ℕ → InventoryItem → Bool
for_sale product_id x = x.product_id == product_id && is_available x.status && not x.deleted

abbrev pub to_order : ℕ → ℕ → ℕ → ℕ → InventoryItem → InventoryItem
to_order user_id order_id expires_at now x = record x {
  status = reserved;
  reserved_by_user_id = some user_id;
  reserved_order_id = some order_id;
  reserved_at = some now;
  reservation_expires_at = some expires_at;
}

unfoldable pub reserve_one : ℕ → ℕ → ℕ → ℕ → Tx (Option InventoryItem)
reserve_one product_id user_id order_id expires_at =
    update_item (λ now. for_sale product_id) (to_order user_id order_id expires_at)

unfoldable pub count_available : ℕ → Tx ℕ
count_available product_id = gets λ s. count_if (for_sale product_id) s.inventory_items

abbrev pub active_payment_hold : ℕ → ℕ → ℕ → InventoryItem → Bool
active_payment_hold product_id user_id now x =
    x.product_id == product_id
    && holds user_id x.reserved_by_user_id
    && is_reserved x.status
    && is_some x.reserved_payment_request_id
    && unexpired_at now x.reservation_expires_at
    && not x.deleted

unfoldable pub count_active_payment_reservations : ℕ → ℕ → Tx ℕ
count_active_payment_reservations product_id user_id =
    gets λ s. count_if (active_payment_hold product_id user_id s.now) s.inventory_items

abbrev pub to_payment : ℕ → ℕ → ℕ → ℕ → InventoryItem → InventoryItem
to_payment user_id payment_request_id expires_at now x = record x {
  status = reserved;
  reserved_by_user_id = some user_id;
  reserved_payment_request_id = some payment_request_id;
  reserved_at = some now;
  reservation_expires_at = some expires_at;
}

unfoldable pub reserve_for_payment : ℕ → ℕ → ℕ → ℕ → Tx (Option InventoryItem)
reserve_for_payment product_id user_id payment_request_id expires_at =
    update_item (λ now. for_sale product_id) (to_payment user_id payment_request_id expires_at)

-- Back to stock from a hold for a payment.
abbrev pub free_payment_hold : ℕ → InventoryItem → InventoryItem
free_payment_hold now x = record x {
  status = available;
  reserved_by_user_id = none;
  reserved_payment_request_id = none;
  reserved_at = none;
  reservation_expires_at = none;
}

abbrev pub expired_payment_hold : ℕ → InventoryItem → Bool
expired_payment_hold now x =
    is_reserved x.status
    && not x.deleted
    && is_some x.reserved_payment_request_id
    && is_none x.reserved_order_id
    && expired_at now x.reservation_expires_at

unfoldable pub release_expired_payment_reservations_for_product : ℕ → Tx ℕ
release_expired_payment_reservations_for_product product_id =
    update_items (λ now x. x.product_id == product_id && expired_payment_hold now x)
      free_payment_hold

abbrev pub payment_hold : ℕ → InventoryItem → Bool
payment_hold payment_request_id x =
    holds payment_request_id x.reserved_payment_request_id && is_reserved x.status

unfoldable pub find_payment_reservations : ℕ → Tx (List InventoryItem)
find_payment_reservations payment_request_id =
    gets λ s. find_all (λ x. payment_hold payment_request_id x && not x.deleted) s.inventory_items

unfoldable pub assign_payment_reservation : ℕ → ℕ → ℕ → ℕ → Tx (Option InventoryItem)
assign_payment_reservation item_id payment_request_id order_id expires_at =
    update_item (λ now x. x.id == item_id && payment_hold payment_request_id x && not x.deleted)
      (λ now x. record x {
        reserved_order_id = some order_id;
        reserved_at = some now;
        reservation_expires_at = some expires_at;
        reserved_payment_request_id = none;
      })

abbrev pub order_hold : ℕ → InventoryItem → Bool
order_hold order_id x = holds order_id x.reserved_order_id && is_reserved x.status

unfoldable pub find_for_delivery : ℕ → Tx (Option InventoryItem)
find_for_delivery order_id =
    gets λ s. find_first (λ x. order_hold order_id x && not x.deleted) s.inventory_items

unfoldable pub mark_sold : ℕ → ℕ → ℕ → Tx (Option InventoryItem)
mark_sold item_id user_id order_id =
    update_item (λ now x. x.id == item_id && order_hold order_id x && not x.deleted)
      (λ now x. record x {
        status = sold;
        sold_to_user_id = some user_id;
        sold_order_id = some order_id;
        sold_at = some now;
        reservation_expires_at = none;
      })

abbrev pub expiry : InventoryItem → ℕ
expiry x = elim x.reservation_expires_at [ none ↦ 0 | some t ↦ t ]

unfoldable pub find_expired : ℕ → Tx (List InventoryItem)
find_expired limit = gets λ s. take (min limit 500) (
    sort_by expiry (
      find_all
        (λ x. is_reserved x.status && expired_at s.now x.reservation_expires_at && not x.deleted)
        s.inventory_items))

unfoldable pub find_expired_payment_reservations : ℕ → Tx (List InventoryItem)
find_expired_payment_reservations limit = gets λ s.
    take (min limit 500) (sort_by expiry (find_all (expired_payment_hold s.now) s.inventory_items))

unfoldable pub extend_order_reservations : List ℕ → ℕ → Tx ℕ
extend_order_reservations order_ids expires_at =
    update_items (λ now x. any_row (λ order_id. order_hold order_id x) order_ids && not x.deleted)
      (λ now x. record x { reservation_expires_at = some expires_at })

unfoldable pub release_expired_payment : ℕ → ℕ → Tx (Option InventoryItem)
release_expired_payment item_id payment_request_id =
    update_item
      (λ now x.
        x.id == item_id
        && payment_hold payment_request_id x
        && expired_at now x.reservation_expires_at)
      free_payment_hold

unfoldable pub release_payment_reservations : ℕ → Tx ℕ
release_payment_reservations payment_request_id =
    update_items (λ now. payment_hold payment_request_id) free_payment_hold

unfoldable pub extend_payment_reservations : ℕ → ℕ → Tx ℕ
extend_payment_reservations payment_request_id expires_at =
    update_items (λ now x. payment_hold payment_request_id x && not x.deleted)
      (λ now x. record x { reservation_expires_at = some expires_at })

unfoldable pub release_expired : ℕ → ℕ → Tx (Option InventoryItem)
release_expired item_id order_id =
    update_item
      (λ now x. x.id == item_id && order_hold order_id x && expired_at now x.reservation_expires_at)
      (λ now x. record x {
        status = available;
        reserved_by_user_id = none;
        reserved_order_id = none;
        reserved_at = none;
        reservation_expires_at = none;
      })
