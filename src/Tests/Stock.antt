-- ===== src/Tests/Stock.antt =====
-- The stock of the small shop.
use cdk_gpt.Prelude.{
  ℕ, ◌<◌, ◌≡◌, refl, true, some, none, List, [], ◌∷◌, arith, count_if, find_and_update, Rows, All,
  row_at, any_row,
}
use cdk_gpt.Store.{Db, InventoryItem, ok, sold}
use cdk_gpt.Inventory.{reserve_one, update_item, mark_sold, order_hold}
use cdk_gpt.Inventory.Lifecycle.{ItemStep, IsConsistent}
use cdk_gpt.Inventory.History.{
  Call, reserves, sells, releases_expired, reserves_for_payment, releases_expired_for_product,
  apply, run, apply-ItemStep, run_keeps_sold, run-IsConsistent,
}
use cdk_gpt.Inventory.Stock.{stock_of, OneFewer, reserve_one_takes}
use cdk_gpt.Tests.{shop, item}

-- An item is reserved and sold, and later calls try to take it back.
abbrev sale : List (ℕ × Call)
sale = (1000, reserves 10 1 50 2000) ∷ (1001, sells 20 1 50) ∷ []

abbrev sold_out : Db
sold_out = run shop sale

abbrev later : List (ℕ × Call)
later =
    (3000, releases_expired 20 50)
    ∷ (3001, reserves_for_payment 10 2 60 4000)
    ∷ (5000, releases_expired_for_product 10)
    ∷ (5001, reserves 10 2 51 6000)
    ∷ []

abbrev sold_item : InventoryItem
sold_item = record (item 20) {
  status = sold;
  reserved_by_user_id = some 1;
  reserved_order_id = some 50;
  reserved_at = some 1000;
  reservation_expires_at = none;
  sold_to_user_id = some 1;
  sold_order_id = some 50;
  sold_at = some 1001;
}

item_is_sold : row_at 0 sold_out.inventory_items ≡ some sold_item
unfolding run apply reserve_one mark_sold update_item find_and_update
item_is_sold = refl

shop-IsConsistent : All IsConsistent shop.inventory_items
shop-IsConsistent = ((refl, refl, refl, refl), ((refl, refl, refl, refl), tt))

apply-ItemStep_example :
    Rows ItemStep shop.inventory_items (apply shop (reserves 10 1 50 2000)).inventory_items
apply-ItemStep_example = apply-ItemStep shop (reserves 10 1 50 2000)

run_keeps_sold_example : row_at 0 (run sold_out later).inventory_items ≡ some sold_item
run_keeps_sold_example = run_keeps_sold sold_out later 0 sold_item item_is_sold refl

run-IsConsistent_example : All IsConsistent (run shop sale).inventory_items
run-IsConsistent_example = run-IsConsistent shop sale shop-IsConsistent

two_in_stock : 0 < stock_of 10 shop
unfolding count_if
two_in_stock = ground arith

reserve_one_takes_example :
    (x : InventoryItem) × (t : Db) × (reserve_one 10 1 50 2000 shop ≡ ok (some x, t))
    × (x.product_id ≡ 10)
    × (order_hold 50 x ≡ true)
    × (any_row (order_hold 50) t.inventory_items ≡ true)
    × OneFewer 10 shop t
reserve_one_takes_example = reserve_one_takes 10 1 50 2000 shop two_in_stock
