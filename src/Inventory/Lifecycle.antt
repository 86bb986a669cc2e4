-- ===== src/Inventory/Lifecycle.antt =====
-- The life of an item of stock as a relation, and the operations as steps of it.
use cdk_gpt.Prelude.{
  ℕ, ◌≡◌, refl, Bool, true, not, Option, none, some, List, [], ◌∷◌, arith, find_and_update, Updated,
  Rows, Rows-find_and_update, Rows-update_all, Rows-refl, any_row, is_some,
}
use cdk_gpt.Store.{
  Db, InventoryItem, InventoryStatus, available, reserved, sold, disabled, returned, Result,
}
use cdk_gpt.Store.Rules.{Committed}
use cdk_gpt.Inventory.{
  update_item, update_items, store_item, reserve_one, reserve_for_payment,
  release_expired_payment_reservations_for_product, assign_payment_reservation, mark_sold,
  extend_order_reservations, release_expired_payment, release_payment_reservations,
  extend_payment_reservations, release_expired, order_hold,
}

-- The fields of an item agree with its status: an item in stock is held by nobody, a reserved one is
-- held by a customer for an order or for a payment and not for both, and has a date of expiry, and a
-- sold one went to the order that had reserved it.
abbrev pub Agrees : InventoryStatus → InventoryItem → Type 0
Agrees available x =
    (x.reserved_by_user_id ≡ none)
    × (x.reserved_order_id ≡ none)
    × (x.reserved_payment_request_id ≡ none)
    × (x.reservation_expires_at ≡ none)
Agrees reserved x =
    (is_some x.reserved_by_user_id ≡ true)
    × (is_some x.reservation_expires_at ≡ true)
    × (is_some x.reserved_payment_request_id ≡ not (is_some x.reserved_order_id))
Agrees sold x =
    (x.sold_order_id ≡ x.reserved_order_id)
    × (is_some x.sold_order_id ≡ true)
    × (x.reserved_payment_request_id ≡ none)
Agrees disabled x = Unit
Agrees returned x = Unit

abbrev pub IsConsistent : InventoryItem → Type 0
IsConsistent x = Agrees x.status x

abbrev pub SameItem : InventoryItem → InventoryItem → Type 0
SameItem x y = (y.id ≡ x.id) × (y.product_id ≡ x.product_id)

-- What one operation may do to one item.
pub data ItemStep (x y : InventoryItem) : Type 0 where
  stay : y ≡ x → ItemStep x y
  hold : x.status ≡ available → y.status ≡ reserved → SameItem x y → ItemStep x y
  rehold :
      x.status ≡ reserved
      → y.status ≡ reserved
      → y.reserved_by_user_id ≡ x.reserved_by_user_id
      → SameItem x y
      → ItemStep x y
  free : x.status ≡ reserved → y.status ≡ available → SameItem x y → ItemStep x y
  sell :
      x.status ≡ reserved
      → y.status ≡ sold
      → y.sold_order_id ≡ x.reserved_order_id
      → SameItem x y
      → ItemStep x y

-- A step that keeps a consistent item consistent.
abbrev pub Evolves : InventoryItem → InventoryItem → Type 0
Evolves x y = ItemStep x y × (IsConsistent x → IsConsistent y)

Evolves-refl : (x : InventoryItem) → Evolves x x
Evolves-refl x = (stay refl, λ c. c)

module _ (p : ℕ → InventoryItem → Bool) (f : ℕ → InventoryItem → InventoryItem)
    (step : (now : ℕ) (x : InventoryItem) → p now x ≡ true → Evolves x (f now x)) (s : Db) where
  update_item-Evolves :
      Committed (λ o t. Rows Evolves s.inventory_items t.inventory_items) (update_item p f s)
  unfolding update_item
  update_item-Evolves =
      stored (find_and_update (p s.now) (f s.now) s.inventory_items) (
        Rows-find_and_update Evolves Evolves-refl (p s.now) (f s.now) (step s.now)
          s.inventory_items)
    where
      stored :
          (r : Option (InventoryItem × List InventoryItem))
          → Updated (λ y ys. Rows Evolves s.inventory_items ys) r
          → Rows Evolves s.inventory_items (store_item s r).1.inventory_items
      stored none u = Rows-refl Evolves Evolves-refl s.inventory_items
      stored (some (y, ys)) u = u

  update_items-Evolves :
      Committed (λ o t. Rows Evolves s.inventory_items t.inventory_items) (update_items p f s)
  unfolding update_items
  update_items-Evolves =
      Rows-update_all Evolves Evolves-refl (p s.now) (f s.now) (step s.now) s.inventory_items

any_order_hold :
    (order_ids : List ℕ) (x : InventoryItem)
    → any_row (λ order_id. order_hold order_id x) order_ids ≡ true
    → x.status ≡ reserved
unfolding any_row
any_order_hold [] x h = cc
any_order_hold (o ∷ os) x h = ground (arith, any_order_hold os x)

module _ (s : Db) where
  abbrev pub AllEvolve : {A : Type 0} → Result (A × Db) → Type 0
  AllEvolve r = Committed (λ o t. Rows Evolves s.inventory_items t.inventory_items) r

  pub reserve_one-Evolves :
      (product_id user_id order_id expires_at : ℕ)
      → AllEvolve (reserve_one product_id user_id order_id expires_at s)
  unfolding reserve_one
  reserve_one-Evolves product_id user_id order_id expires_at =
      update_item-Evolves _ _ (λ now x h. (hold (ground arith) refl (refl, refl), ground arith)) s

  pub reserve_for_payment-Evolves :
      (product_id user_id request_id expires_at : ℕ)
      → AllEvolve (reserve_for_payment product_id user_id request_id expires_at s)
  unfolding reserve_for_payment
  reserve_for_payment-Evolves product_id user_id request_id expires_at =
      update_item-Evolves _ _ (λ now x h. (hold (ground arith) refl (refl, refl), ground arith)) s

  pub release_expired_for_product-Evolves :
      (product_id : ℕ) → AllEvolve (release_expired_payment_reservations_for_product product_id s)
  unfolding release_expired_payment_reservations_for_product
  release_expired_for_product-Evolves product_id =
      update_items-Evolves _ _ (λ now x h. (free (ground arith) refl (refl, refl), ground arith)) s

  pub assign_payment_reservation-Evolves :
      (item_id request_id order_id expires_at : ℕ)
      → AllEvolve (assign_payment_reservation item_id request_id order_id expires_at s)
  unfolding assign_payment_reservation
  assign_payment_reservation-Evolves item_id request_id order_id expires_at =
      update_item-Evolves _ _
        (λ now x h. (rehold (ground arith) (ground arith) refl (refl, refl), ground arith)) s

  pub mark_sold-Evolves :
      (item_id user_id order_id : ℕ) → AllEvolve (mark_sold item_id user_id order_id s)
  unfolding mark_sold
  mark_sold-Evolves item_id user_id order_id =
      update_item-Evolves _ _
        (λ now x h. (sell (ground arith) refl (ground arith) (refl, refl), ground arith)) s

  pub extend_order_reservations-Evolves :
      (order_ids : List ℕ) (expires_at : ℕ)
      → AllEvolve (extend_order_reservations order_ids expires_at s)
  unfolding extend_order_reservations
  extend_order_reservations-Evolves order_ids expires_at =
      update_items-Evolves _ _
        (λ now x h.
          let r : x.status ≡ reserved = any_order_hold order_ids x (ground arith) in
          (rehold r r refl (refl, refl), ground arith))
        s

  pub release_expired_payment-Evolves :
      (item_id request_id : ℕ) → AllEvolve (release_expired_payment item_id request_id s)
  unfolding release_expired_payment
  release_expired_payment-Evolves item_id request_id =
      update_item-Evolves _ _ (λ now x h. (free (ground arith) refl (refl, refl), ground arith)) s

  pub release_payment_reservations-Evolves :
      (request_id : ℕ) → AllEvolve (release_payment_reservations request_id s)
  unfolding release_payment_reservations
  release_payment_reservations-Evolves request_id =
      update_items-Evolves _ _ (λ now x h. (free (ground arith) refl (refl, refl), ground arith)) s

  pub extend_payment_reservations-Evolves :
      (request_id expires_at : ℕ) → AllEvolve (extend_payment_reservations request_id expires_at s)
  unfolding extend_payment_reservations
  extend_payment_reservations-Evolves request_id expires_at =
      update_items-Evolves _ _
        (λ now x h. (rehold (ground arith) (ground arith) refl (refl, refl), ground arith)) s

  pub release_expired-Evolves :
      (item_id order_id : ℕ) → AllEvolve (release_expired item_id order_id s)
  unfolding release_expired
  release_expired-Evolves item_id order_id =
      update_item-Evolves _ _ (λ now x h. (free (ground arith) refl (refl, refl), ground arith)) s
