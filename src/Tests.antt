-- ===== src/Tests.antt =====
-- A small shop, on which the operations are run: two customers, one product with two items in stock, and
-- two coupons.
mod Wallets
mod Stock
mod Checkouts
mod Payments
mod Lines
mod Sales
mod Reports
mod Deliveries
mod Vouchers
mod Warranties
use cdk_gpt.Prelude.{ℕ, Option, none, some, Bool, true, false, List, [], ◌∷◌, Text, codes}
use cdk_gpt.Store.{
  Db, User, Product, InventoryItem, Coupon, UserStatus, active, suspended, ProductStatus, available,
  percent, fixed, Result, ok, err,
}

abbrev pub buyer : User
buyer = record {
  id = 1;
  status = UserStatus.active;
  deleted = false;
  wallet_balance = 500;
  purchase_count = 0;
  checkout_lock_version = 0;
}

abbrev pub other_customer : User
other_customer = record buyer { id = 2; status = suspended; wallet_balance = 70 }

abbrev pub product : Product
product = record {
  id = 10;
  name = codes "Account";
  price = 100;
  status = ProductStatus.active;
  purchase_limit_per_user = 5;
  deleted = false;
}

abbrev pub item : ℕ → InventoryItem
item id = record {
  id = id;
  product_id = 10;
  status = available;
  reserved_by_user_id = none;
  reserved_order_id = none;
  reserved_payment_request_id = none;
  reserved_at = none;
  reservation_expires_at = none;
  sold_to_user_id = none;
  sold_order_id = none;
  sold_at = none;
  deleted = false;
}

abbrev pub coupon : Coupon
coupon = record {
  id = 30;
  code = codes "SALE15";
  kind = percent;
  value = 15;
  min_subtotal = 50;
  max_discount = some 40;
  starts_at = none;
  ends_at = some 2000;
  usage_limit = some 3;
  per_user_limit = 1;
  usage_count = 0;
  product_ids = 10 ∷ [];
  enabled = true;
}

abbrev pub shop : Db
shop = record {
  now = 1000;
  next_id = 100;
  draw = λ n. codes "A";
  users = buyer ∷ other_customer ∷ [];
  products = product ∷ [];
  inventory_items = item 20 ∷ item 21 ∷ [];
  orders = [];
  wallet_transactions = [];
  coupons = coupon ∷ [];
  coupon_redemptions = [];
  payment_requests = [];
}

-- The value and the database of an outcome, with values that stand in if it is an error.
abbrev pub value_or : {A : Type 0} → A → Result (A × Db) → A
value_or a (ok (x, t)) = x
value_or a (err e) = a

abbrev pub after : {A : Type 0} → Db → Result (A × Db) → Db
after s (ok (x, t)) = t
after s (err e) = s
