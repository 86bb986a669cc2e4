-- ===== src/Inventory/Stock.antt =====
-- What a reservation takes from the stock of a product.
use cdk_gpt.Prelude.{
  ℕ, ◌+◌, ◌<◌, ◌≡◌, refl, ap, updated_at, true, none, some, arith, ◌==◌, if◌then◌else◌, count_if,
  count_if-eq-total, total-find_and_update, find_and_update-some, find_and_update-zero,
  find_and_update_passes, any_row, any_row-Updated,
}
use cdk_gpt.Store.{Db, InventoryItem, ok}
use cdk_gpt.Inventory.{reserve_one, update_item, for_sale, to_order, order_hold, store_item}

-- How many items of a product are in stock.
abbrev pub stock_of : ℕ → Db → ℕ
stock_of product_id s = count_if (for_sale product_id) s.inventory_items

abbrev unit_of : ℕ → InventoryItem → ℕ
unit_of product_id x = if for_sale product_id x then 1 else 0

-- One item fewer of the product, and as many as before of any other.
abbrev pub OneFewer : ℕ → Db → Db → Type 0
OneFewer product_id s t = (q : ℕ) → stock_of q t + (if product_id == q then 1 else 0) ≡ stock_of q s

-- Of a product that is out of stock nothing is reserved.
pub reserve_one_out_of_stock :
    (product_id user_id order_id expires_at : ℕ) (s : Db)
    → stock_of product_id s ≡ 0
    → reserve_one product_id user_id order_id expires_at s ≡ ok (none, s)
unfolding reserve_one update_item
reserve_one_out_of_stock product_id user_id order_id expires_at s h =
    rw
      (find_and_update-zero (for_sale product_id) (to_order user_id order_id expires_at s.now)
        s.inventory_items h)
      refl

-- From stock a reservation takes one item of the product and of no other, and that item is held for
-- the order.
pub reserve_one_takes :
    (product_id user_id order_id expires_at : ℕ) (s : Db)
    → 0 < stock_of product_id s
    → (x : InventoryItem) × (t : Db) × (reserve_one product_id user_id order_id expires_at s
        ≡ ok (some x, t))
      × (x.product_id ≡ product_id)
      × (order_hold order_id x ≡ true)
      × (any_row (order_hold order_id) t.inventory_items ≡ true)
      × OneFewer product_id s t
unfolding reserve_one update_item
reserve_one_takes product_id user_id order_id expires_at s h =
    let p = for_sale product_id in
    let f = to_order user_id order_id expires_at s.now in
    let xs = s.inventory_items in
    let ((y, ys), e) = find_and_update-some p f xs h in
    let (x, passes, made) = updated_at _ _ y ys (find_and_update_passes p f xs) e in
    let held : order_hold order_id y ≡ true = rw made (ground arith) in
    (
      y,
      record s { inventory_items = ys },
      ap (λ r. ok (store_item s r)) e,
      rw made (ground arith),
      held,
      updated_at _ _ y ys (any_row-Updated (order_hold order_id) p f xs) e held,
      λ q. omega (
        arith,
        count_if-eq-total (for_sale q) ys,
        count_if-eq-total (for_sale q) xs,
        updated_at _ _ y ys
            (total-find_and_update (unit_of q) p f (if product_id == q then 1 else 0) 0
              (λ x h. ground arith) xs)
            e,
      ),
    )
