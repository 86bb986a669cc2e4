-- ===== src/Purchase/Quote.antt =====
-- Quotes and holds: `couponPricing`, `quoteBatch`, `quoteBatchForPayment`, `softCheckoutAvailability`
-- and `reserveBatchForPayment` (apps/api/src/purchase/purchase.service.ts).
use cdk_gpt.Prelude.{
  ℕ, zero, suc, ◌+◌, ◌*◌, Bool, ◌&&◌, not, Option, none, some, leb, ltb, ◌==◌, if◌then◌else◌, Text,
}
use cdk_gpt.Store.{
  Product, Tx, out_of_stock, user_inactive, product_unavailable, price_changed, invalid_total,
  purchase_limit_reached, invalid_payment_reservation, active_checkout_holds_product,
  coupon_unavailable, ◌>>=◌, ◌>>◌, pure, gets, or_throw, throw_if,
}
use cdk_gpt.Users.{find_active, lock_for_checkout}
use cdk_gpt.Inventory.{
  count_available, count_active_payment_reservations, reserve_for_payment,
  release_expired_payment_reservations_for_product,
}
use cdk_gpt.Coupons.{CouponPricing, price_code, normalize_coupon_code, differs}
use cdk_gpt.Purchase.{
  ValidBatch, find_product, product_on_sale, product_kept, count_purchases, bad_total,
}

pub record PurchaseQuote : Type 0 where
  pub product_id : ℕ
  pub product_name : Text
  pub unit_price : ℕ
  pub quantity : ℕ
  pub total_amount : ℕ
  pub subtotal : ℕ
  pub discount_amount : ℕ
  pub coupon_code : Option Text
  pub available : ℕ

-- `couponPricing`: without a code, the undiscounted price.
unfoldable pub coupon_pricing : ValidBatch → ℕ → Tx CouponPricing
coupon_pricing b subtotal = do
  pricing ←
      price_code
        (record {
          user_id = b.user_id;
          product_id = b.product_id;
          subtotal = subtotal;
          coupon_code = b.coupon_code;
        })
        (normalize_coupon_code b.coupon_code)
  throw_if (differs b.expected_total_amount pricing.total_amount) coupon_unavailable
  pure pricing

-- `if (limit > 0 && purchased + quantity > limit)`
abbrev pub over_limit : ℕ → ℕ → Bool
over_limit limit n = ltb 0 limit && ltb limit n

-- The checks and the price that both quotes share once the customer is known.
unfoldable pub quote_product : ValidBatch → Tx PurchaseQuote
quote_product b = do
  product ← or_throw product_unavailable (← find_product (product_on_sale b.product_id))
  throw_if (not (product.price == b.expected_unit_price)) price_changed
  let subtotal : ℕ = product.price * b.quantity
  throw_if (bad_total subtotal) invalid_total
  pricing ← coupon_pricing b subtotal
  available ← count_available b.product_id
  throw_if (ltb available b.quantity) out_of_stock
  purchased ← count_purchases b.user_id b.product_id
  throw_if (over_limit product.purchase_limit_per_user (purchased + b.quantity))
      purchase_limit_reached
  pure (record {
    product_id = product.id;
    product_name = product.name;
    unit_price = product.price;
    quantity = b.quantity;
    total_amount = pricing.total_amount;
    subtotal = subtotal;
    discount_amount = pricing.discount_amount;
    coupon_code = pricing.coupon_code;
    available = available;
  })

-- `quoteBatch`
unfoldable pub quote_batch : ValidBatch → Tx PurchaseQuote
quote_batch b = do user ← or_throw user_inactive (← find_active b.user_id); quote_product b

-- `quoteBatchForPayment`
unfoldable pub quote_batch_for_payment : ValidBatch → Tx PurchaseQuote
quote_batch_for_payment b = do
  user ← or_throw user_inactive (← find_active b.user_id)
  lock_for_checkout b.user_id
  quote_product b

pub data SoftCheckoutAvailability : Type 0 where
  can_buy inactive unavailable limited sold_out : SoftCheckoutAvailability

-- `softCheckoutAvailability` behind the lookup of the product.
unfoldable pub product_availability : ValidBatch → Option Product → Tx SoftCheckoutAvailability
product_availability b none = pure unavailable
product_availability b (some product) = do
  purchased ← count_purchases b.user_id b.product_id
  in_stock ← count_available b.product_id
  pure (
      if over_limit product.purchase_limit_per_user (purchased + b.quantity)
      then limited
      else if leb b.quantity in_stock
      then can_buy
      else sold_out)

unfoldable pub soft_checkout_availability : ValidBatch → Tx SoftCheckoutAvailability
soft_checkout_availability b = do
  user ← find_active b.user_id
  elim user [
    | none ↦ pure inactive
    | some _ ↦ do
      lock_for_checkout b.user_id
      product ← find_product (product_kept b.product_id)
      product_availability b product
  ]

-- The loop of `reserveBatchForPayment`, over the items that are left to reserve.
unfoldable pub reserve_times : ValidBatch → ℕ → ℕ → ℕ → Tx (Unit {0})
reserve_times b request_id expires_at zero = pure tt
reserve_times b request_id expires_at (suc n) = do
  item ← or_throw out_of_stock (← reserve_for_payment b.product_id b.user_id request_id expires_at)
  reserve_times b request_id expires_at n

unfoldable pub reserve_batch_for_payment : ValidBatch → ℕ → ℕ → Tx PurchaseQuote
reserve_batch_for_payment b request_id expires_at = do
  now ← gets λ s. s.now
  throw_if (leb expires_at now) invalid_payment_reservation
  user ← or_throw user_inactive (← find_active b.user_id)
  lock_for_checkout b.user_id
  product ← or_throw product_unavailable (← find_product (product_on_sale b.product_id))
  throw_if (not (product.price == b.expected_unit_price)) price_changed
  let total_amount : ℕ = product.price * b.quantity
  throw_if (bad_total total_amount) invalid_total
  release_expired_payment_reservations_for_product b.product_id
  held ← count_active_payment_reservations b.product_id b.user_id
  throw_if (ltb 0 held) active_checkout_holds_product
  purchased ← count_purchases b.user_id b.product_id
  throw_if (over_limit product.purchase_limit_per_user (purchased + held + b.quantity))
      purchase_limit_reached
  available ← count_available b.product_id
  throw_if (ltb available b.quantity) out_of_stock
  reserve_times b request_id expires_at b.quantity
  pure (record {
    product_id = product.id;
    product_name = product.name;
    unit_price = product.price;
    quantity = b.quantity;
    total_amount = total_amount;
    subtotal = total_amount;
    discount_amount = 0;
    coupon_code = none;
    available = available;
  })
