-- ===== src/Coupons.antt =====
-- `CouponsService` (apps/api/src/coupons/coupons.service.ts): the price of a checkout under a coupon,
-- and its redemption. `trim` and `toUpperCase` are those of ASCII text.
pub mod Discount
pub mod Limits
pub mod Listing
pub mod Fields
pub mod Admin
use cdk_gpt.Prelude.{
  ℕ, suc, ◌+◌, ◌-◌, ◌*◌, ◌/◌, min, Bool, true, false, ◌&&◌, ◌||◌, not, Option, none, some, List, [],
  ◌∷◌, ◌++◌, Text, text_eq, trim, to_upper, nonempty, leb, ltb, ◌==◌, if◌then◌else◌, find_first,
  find_and_update, count_if, any_row, max_safe_integer, is_none,
}
use cdk_gpt.Store.{
  Db, Coupon, CouponType, percent, fixed, CouponRedemption, Tx, ok, coupon_unavailable,
  duplicate_key, ◌>>=◌, ◌>>◌, pure, gets, modify, or_throw, throw_if,
}

-- `code?.trim().toUpperCase() || undefined`
unfoldable pub normalize_coupon_code : Option Text → Option Text
normalize_coupon_code none = none
normalize_coupon_code (some code) = nonempty (to_upper (trim code))

pub record CouponPricingInput : Type 0 where
  pub user_id : ℕ
  pub product_id : ℕ
  pub subtotal : ℕ
  pub coupon_code : Option Text

pub record CouponPricing : Type 0 where
  pub subtotal : ℕ
  pub discount_amount : ℕ
  pub total_amount : ℕ
  pub coupon_code : Option Text
  pub coupon_id : Option ℕ

-- A missing bound holds nothing back.
abbrev pub starts_after : ℕ → Option ℕ → Bool
starts_after now none = false
starts_after now (some t) = ltb now t

abbrev pub ended_by : ℕ → Option ℕ → Bool
ended_by now none = false
ended_by now (some t) = leb t now

abbrev pub used_up : Option ℕ → ℕ → Bool
used_up none count = false
used_up (some limit) count = leb limit count

abbrev pub names : List ℕ → ℕ → Bool
names [] product_id = true
names (p ∷ ps) product_id = any_row (λ q. q == product_id) (p ∷ ps)

abbrev pub or_max_safe : Option ℕ → ℕ
or_max_safe none = max_safe_integer
or_max_safe (some n) = n

-- The discount before its caps: BigInt division drops the remainder.
unfoldable pub raw_discount : CouponType → ℕ → ℕ → ℕ
raw_discount percent value subtotal = subtotal * value / 100
raw_discount fixed value subtotal = value

unfoldable pub discount_of : Coupon → ℕ → ℕ
discount_of c subtotal =
    min subtotal (min (raw_discount c.kind c.value subtotal) (or_max_safe c.max_discount))

-- A redemption of the coupon by the customer.
abbrev pub redeemed_by : ℕ → ℕ → CouponRedemption → Bool
redeemed_by coupon_id user_id r = r.coupon_id == coupon_id && r.user_id == user_id

-- The part of `price` behind the coupon's lookup.
unfoldable pub price_with : CouponPricingInput → Coupon → Tx CouponPricing
price_with input c = do
  now ← gets λ s. s.now
  throw_if (not c.enabled || starts_after now c.starts_at || ended_by now c.ends_at)
      coupon_unavailable
  throw_if (not (names c.product_ids input.product_id)) coupon_unavailable
  throw_if (ltb input.subtotal c.min_subtotal) coupon_unavailable
  throw_if (used_up c.usage_limit c.usage_count) coupon_unavailable
  used ← gets λ s. count_if (redeemed_by c.id input.user_id) s.coupon_redemptions
  throw_if (leb c.per_user_limit used) coupon_unavailable
  let discount_amount = discount_of c input.subtotal
  throw_if (ltb discount_amount 1) coupon_unavailable
  pure (record {
    subtotal = input.subtotal;
    discount_amount = discount_amount;
    total_amount = input.subtotal - discount_amount;
    coupon_code = some c.code;
    coupon_id = some c.id;
  })

abbrev pub undiscounted : ℕ → CouponPricing
undiscounted subtotal = record {
  subtotal = subtotal;
  discount_amount = 0;
  total_amount = subtotal;
  coupon_code = none;
  coupon_id = none;
}

unfoldable pub find_coupon : Text → Tx (Option Coupon)
find_coupon code = gets λ s. find_first (λ c. text_eq c.code code) s.coupons

-- `price` under a normalized code.
unfoldable pub price_code : CouponPricingInput → Option Text → Tx CouponPricing
price_code input none = pure (undiscounted input.subtotal)
price_code input (some code) = do
  c ← or_throw coupon_unavailable (← find_coupon code)
  price_with input c

unfoldable pub price : CouponPricingInput → Tx CouponPricing
price input = price_code input (normalize_coupon_code input.coupon_code)

-- `expectedTotalAmount !== undefined && expectedTotalAmount !== totalAmount`
abbrev pub differs : Option ℕ → ℕ → Bool
differs none n = false
differs (some m) n = not (m == n)

-- `coupons.updateOne({ _id }, { $inc: { usageCount: 1 } })`
unfoldable pub count_usage : ℕ → Tx (Unit {0})
count_usage coupon_id = modify λ s.
    elim (find_and_update (λ c. c.id == coupon_id)
      (λ c. record c { usage_count = c.usage_count + 1 }) s.coupons) [
        | none ↦ s
        | some (c, cs) ↦ record s { coupons = cs }
      ]

-- `redemptions.create`, under the unique index `{ checkoutKey: 1 }`.
unfoldable pub create_redemption : CouponRedemption → Tx (Unit {0})
create_redemption row = do
  taken ← gets λ s. any_row (λ r. text_eq r.checkout_key row.checkout_key) s.coupon_redemptions
  throw_if taken duplicate_key
  modify λ s. record s { coupon_redemptions = s.coupon_redemptions ++ row ∷ [] }

-- What `redeem` writes for a priced coupon.
unfoldable pub record_redemption :
    CouponPricingInput → ℕ → Text → CouponPricing → Option ℕ → Tx CouponPricing
record_redemption input quantity checkout_key pricing none = pure pricing
record_redemption input quantity checkout_key pricing (some coupon_id) = do
  count_usage coupon_id
  create_redemption (record {
    coupon_id = coupon_id;
    user_id = input.user_id;
    product_id = input.product_id;
    checkout_key = checkout_key;
    quantity = quantity;
    subtotal = pricing.subtotal;
    discount_amount = pricing.discount_amount;
    total_amount = pricing.total_amount;
  })
  pure pricing

unfoldable pub redeem : CouponPricingInput → ℕ → Text → Option ℕ → Tx CouponPricing
redeem input quantity checkout_key expected_total_amount = do
  pricing ← price input
  throw_if (differs expected_total_amount pricing.total_amount) coupon_unavailable
  record_redemption input quantity checkout_key pricing pricing.coupon_id
