-- ===== src/Tests/Checkouts.antt =====
-- Purchases in the small shop.
use cdk_gpt.Prelude.{
  ◌+◌, ◌≤◌, ◌≡◌, refl, false, none, some, List, [], ◌∷◌, codes, int, pos, arith, find_first,
  find_all, any_row, count_if, total, find_and_update, text_eq, update_all, every_row, to_upper,
  trim, insert_by, sort_by, digits_fuel, decimal,
}
use cdk_gpt.Store.{Db, Order, Result, ok, err, Error, duplicate_key, invalid_transaction}
use cdk_gpt.Users.{find_active, credit, debit, lock_for_checkout, update_user}
use cdk_gpt.Users.Totals.{balance_of}
use cdk_gpt.Wallet
use cdk_gpt.Wallet.Ledger.{Reconciled, credits_of, debits_of}
use cdk_gpt.Inventory.{
  reserve_one, update_item, update_items, release_expired_payment_reservations_for_product,
  count_active_payment_reservations, release_expired, find_expired,
}
use cdk_gpt.Inventory.Stock.{stock_of}
use cdk_gpt.Orders.{create_order, attach_wallet_transaction, update_order, find_order_by_key}
use cdk_gpt.Coupons.{
  redeem, price, price_code, price_with, find_coupon, record_redemption, count_usage,
  create_redemption, discount_of, raw_discount, normalize_coupon_code,
}
use cdk_gpt.Purchase.{
  PurchaseBatchInput, ValidBatch, object_id, validate_batch_input, is_coupon_code, batch_key,
  keys_from, batch_keys, find_product, count_purchases, order_code,
}
use cdk_gpt.Purchase.Split.{discount_share, shares_from, shares_from_all, discount_share_bounds}
use cdk_gpt.Purchase.Single.{
  PurchaseInput, check_purchase_limit, order_product, purchase_new, confirm_or, recover,
  purchase_once, purchase_one,
}
use cdk_gpt.Purchase.Single.Books.{purchase_keeps_books}
use cdk_gpt.Purchase.Single.Replay.{purchase_one_replay}
use cdk_gpt.Purchase.Batch.{
  reserve_from_stock, take_item, record_charge, place_order, place_orders, settle_price,
  check_limit, held_items, sell, create_batch, purchasable,
}
use cdk_gpt.Purchase.Session.{
  find_batch, purchase_valid_batch_in_session, purchase_batch_in_session, recover_batch,
  purchase_batch,
}
use cdk_gpt.Purchase.Session.Books.{purchase_batch_keeps_books}
use cdk_gpt.Purchase.Expiry.{
  find_undelivered, cancel_order, refund_order, release_order_item, release_item, release_each,
  release_expired_items,
}
use cdk_gpt.Purchase.Expiry.Books.{sweep_keeps_books}
use cdk_gpt.Tests.{product, shop, value_or, after}

shop-Reconciled : Reconciled 1 500 shop
unfolding balance_of credits_of debits_of total
shop-Reconciled = refl

abbrev wanted : PurchaseInput
wanted = record {
  user_id = 1;
  product_id = 10;
  expected_unit_price = 100;
  idempotency_key = codes "buy:1";
}

abbrev no_order : Order
no_order = record {
  id = 0;
  order_code = [];
  user_id = 0;
  product_id = 0;
  inventory_item_id = 0;
  unit_price = 0;
  discount_amount = 0;
  total_amount = 0;
  coupon_code = none;
  coupon_id = none;
  status = cdk_gpt.Store.OrderStatus.cancelled;
  delivery_status = cdk_gpt.Store.DeliveryStatus.failed;
  wallet_transaction_id = none;
  failure_reason = none;
  idempotency_key = [];
  metadata = record {
    payment_request_id = none;
    purchase_group_id = none;
    batch_quantity = none;
    batch_total_amount = none;
  };
}

abbrev bought : Order
bought = value_or no_order (purchase_one wanted shop)

abbrev sold_one : Db
sold_one = after shop (purchase_one wanted shop)

bought_one : purchase_one wanted shop ≡ ok (bought, sold_one)
unfolding purchase_one find_order_by_key confirm_or recover purchase_once purchase_new find_active
    lock_for_checkout update_user find_product check_purchase_limit order_product
    release_expired_payment_reservations_for_product update_items count_active_payment_reservations
    count_purchases reserve_one update_item order_code create_order debit Wallet.create
    attach_wallet_transaction update_order find_first find_and_update any_row count_if update_all
bought_one = refl

purchase_keeps_books_example : Reconciled 1 500 sold_one
purchase_keeps_books_example =
    purchase_keeps_books 1 500 wanted shop bought sold_one shop-Reconciled bought_one

purchase_one_replay_example :
    (x : Order) × (x.id ≡ bought.id) × (purchase_one wanted sold_one ≡ ok (x, sold_one))
purchase_one_replay_example = purchase_one_replay wanted shop sold_one bought bought_one

abbrev cart : PurchaseBatchInput
cart = record {
  user_id = object_id 1;
  product_id = object_id 10;
  expected_unit_price = int (pos 100);
  quantity = int (pos 2);
  coupon_code = some (codes "sale15");
  expected_total_amount = some (int (pos 170));
  idempotency_prefix = codes "cart";
  payment_request_id = none;
  allow_unreserved_payment = false;
}

abbrev valid_cart : ValidBatch
valid_cart = record {
  user_id = 1;
  product_id = 10;
  expected_unit_price = 100;
  quantity = 2;
  coupon_code = some (codes "sale15");
  expected_total_amount = some 170;
  idempotency_prefix = codes "cart";
  payment_request_id = none;
  allow_unreserved_payment = false;
}

abbrev cart_orders : List Order
cart_orders = value_or [] (create_batch valid_cart shop)

abbrev sold_cart : Db
sold_cart = after shop (create_batch valid_cart shop)

cart_bought : purchase_batch cart shop ≡ ok (cart_orders, sold_cart)
unfolding purchase_batch validate_batch_input is_coupon_code every_row batch_keys keys_from
    find_batch find_all recover_batch purchase_batch_in_session purchase_valid_batch_in_session
    create_batch sell settle_price redeem price price_code price_with find_coupon record_redemption
    count_usage create_redemption discount_of raw_discount normalize_coupon_code check_limit
    held_items place_orders place_order take_item reserve_from_stock record_charge discount_share
    batch_key decimal digits_fuel find_active lock_for_checkout update_user find_product
    release_expired_payment_reservations_for_product update_items count_active_payment_reservations
    count_purchases reserve_one update_item order_code create_order debit Wallet.create
    attach_wallet_transaction update_order find_first find_and_update any_row count_if update_all
    to_upper trim text_eq purchasable
cart_bought = refl

purchase_batch_keeps_books_example : Reconciled 1 500 sold_cart
purchase_batch_keeps_books_example =
    purchase_batch_keeps_books 1 500 cart shop cart_orders sold_cart shop-Reconciled cart_bought

-- Long after the reservations of the order have run out.
abbrev much_later : Db
much_later = record sold_one { now = 2000000 }

much_later-Reconciled : Reconciled 1 500 much_later
unfolding balance_of credits_of debits_of total purchase_one find_order_by_key confirm_or recover
    purchase_once purchase_new find_active lock_for_checkout update_user find_product
    check_purchase_limit order_product release_expired_payment_reservations_for_product update_items
    count_active_payment_reservations count_purchases reserve_one update_item order_code
    create_order debit Wallet.create attach_wallet_transaction update_order find_first
    find_and_update any_row count_if update_all
much_later-Reconciled = refl

sweep_keeps_books_example : Reconciled 1 500 (release_expired_items 100 much_later).1
sweep_keeps_books_example = sweep_keeps_books 1 500 100 much_later much_later-Reconciled

shares_from_all_example : shares_from 31 2 0 2 ≡ 31
shares_from_all_example = shares_from_all 31 2 (omega arith)

discount_share_bounds_example :
    (discount_share 31 2 0 ≤ 100) × (discount_share 31 2 0 ≤ discount_share 31 2 1 + 1)
discount_share_bounds_example = discount_share_bounds 31 2 100 0 1 (omega arith) (omega arith)

-- The shop once the sweep has put the item of the unfinished order back in stock.
abbrev swept : Db
swept = (release_expired_items 100 much_later).1

-- The cancelled order is still the order of that item, under a unique index: two items are in stock, and
-- the next purchase, which takes the older one first, fails on the index.
resale_is_blocked :
    (stock_of 10 swept ≡ 2)
    × (purchase_one (record wanted { idempotency_key = codes "buy:2" }) swept ≡ err duplicate_key)
unfolding release_expired_items find_expired find_all sort_by insert_by release_each release_item
    release_order_item find_undelivered release_expired refund_order cancel_order credit decimal
    digits_fuel text_eq purchase_one find_order_by_key confirm_or recover purchase_once purchase_new
    find_active lock_for_checkout update_user find_product check_purchase_limit order_product
    release_expired_payment_reservations_for_product update_items count_active_payment_reservations
    count_purchases reserve_one update_item order_code create_order debit Wallet.create
    attach_wallet_transaction update_order find_first find_and_update any_row count_if update_all
resale_is_blocked = (refl, refl)

-- A product that costs nothing cannot be bought alone: its charge of 0 is refused by the schema.
free_purchase_fails :
    purchase_one
      (record wanted { expected_unit_price = 0 })
      (record shop { products = record product { price = 0 } ∷ [] })
    ≡ err invalid_transaction
unfolding purchase_one find_order_by_key confirm_or recover purchase_once purchase_new find_active
    lock_for_checkout update_user find_product check_purchase_limit order_product
    release_expired_payment_reservations_for_product update_items count_active_payment_reservations
    count_purchases reserve_one update_item order_code create_order debit Wallet.create
    attach_wallet_transaction update_order find_first find_and_update any_row count_if update_all
free_purchase_fails = refl
