-- ===== src/Coupons/Discount.antt =====
-- What a coupon takes off a checkout.
use cdk_gpt.Prelude.{
  count_if, find_first, text_eq, ◌⊎◌, inl, inr, Option-cases, ℕ, ◌+◌, ◌*◌, refl, ◌≤◌, ◌<◌, ◌≡◌,
  true, false, Option, none, some, arith, Text,
}
use cdk_gpt.Store.{Db, Coupon, percent, fixed, CouponType, fixed, ok}
use cdk_gpt.Coupons.{
  CouponPricingInput, CouponPricing, discount_of, raw_discount, or_max_safe, price_with, price_code,
  price, find_coupon, used_up, redeemed_by, names, normalize_coupon_code,
}

-- The parts of a price add up.
abbrev pub AddsUp : ℕ → CouponPricing → Type 0
AddsUp subtotal p = (p.subtotal ≡ subtotal) × (p.total_amount + p.discount_amount ≡ subtotal)

-- A hundred times what a coupon may take off.
abbrev pub hundredfold_cap : CouponType → ℕ → ℕ → ℕ
hundredfold_cap percent value subtotal = subtotal * value
hundredfold_cap fixed value subtotal = 100 * value

raw_discount-bound :
    (k : CouponType) (value subtotal : ℕ)
    → 100 * raw_discount k value subtotal ≤ hundredfold_cap k value subtotal
unfolding raw_discount
raw_discount-bound percent value subtotal = omega arith
raw_discount-bound fixed value subtotal = omega arith

-- A discount is at most the price and at most the coupon's cap; a percentage never gives more than
-- its share of the price, and a fixed coupon never more than its value.
pub discount_of_bounds :
    (c : Coupon) (subtotal : ℕ)
    → (discount_of c subtotal ≤ subtotal)
      × (discount_of c subtotal ≤ or_max_safe c.max_discount)
      × (100 * discount_of c subtotal ≤ hundredfold_cap c.kind c.value subtotal)
unfolding discount_of
discount_of_bounds c subtotal =
    (omega arith, omega arith, omega (arith, raw_discount-bound c.kind c.value subtotal))

-- The coupon was within its limits for the customer at that time.
abbrev pub WithinLimits : CouponPricingInput → Db → Coupon → Type 0
WithinLimits input s c =
    (used_up c.usage_limit c.usage_count ≡ false)
    × (count_if (redeemed_by c.id input.user_id) s.coupon_redemptions < c.per_user_limit)
    × (c.min_subtotal ≤ input.subtotal)
    × (c.enabled ≡ true)
    × (names c.product_ids input.product_id ≡ true)

-- The coupon of the database that the checkout names.
abbrev pub Named : CouponPricingInput → Db → Coupon → Type 0
Named input s c =
    (code : Text) × (normalize_coupon_code input.coupon_code ≡ some code)
    × (find_first (λ (x : Coupon). text_eq x.code code) s.coupons ≡ some c)

-- A price without a coupon, or under the coupon of the database that is named, if that allowed it.
abbrev pub Priced : CouponPricingInput → Db → CouponPricing → Type 0
Priced input s p =
    ((p.coupon_id ≡ none) × (p.discount_amount ≡ 0))
    ⊎ ((c : Coupon) × (p.coupon_id ≡ some c.id)
        × (p.discount_amount ≡ discount_of c input.subtotal)
        × (1 ≤ p.discount_amount)
        × Named input s c
        × WithinLimits input s c)

module _ (input : CouponPricingInput) (s : Db) (p : CouponPricing) (t : Db) where
  price_with-ok :
      (c : Coupon)
      → price_with input c s ≡ ok (p, t)
      → (p.coupon_id ≡ some c.id)
        × (p.discount_amount ≡ discount_of c input.subtotal)
        × (1 ≤ p.discount_amount)
        × WithinLimits input s c
        × AddsUp input.subtotal p
        × (t ≡ s)
  unfolding price_with
  price_with-ok c e = ground (arith, discount_of_bounds c input.subtotal)

  price_code-Priced :
      (code : Option Text)
      → normalize_coupon_code input.coupon_code ≡ code
      → price_code input code s ≡ ok (p, t)
      → AddsUp input.subtotal p × (t ≡ s) × Priced input s p
  unfolding price_code find_coupon
  price_code-Priced none named e = (ground arith, ground arith, inl (ground arith, ground arith))
  price_code-Priced (some code) named e =
      elim (Option-cases (find_first (λ c. text_eq c.code code) s.coupons)) [
        | inl missing ↦ cc (rw missing at e)
        | inr (c, found) ↦
            let (id, discount, least, within, adds, same) = price_with-ok c (rw found at e) in
            (adds, same, inr (c, id, discount, least, (code, named, found), within))
      ]

  -- A price that is given adds up, looks only, and is without a coupon and a discount, or is discounted by
  -- at least 1 under the coupon of the database that the checkout names, which is enabled, applies to the
  -- product, asks for no larger purchase, and has uses left, both in all and for this customer.
  pub price-Priced :
      price input s ≡ ok (p, t) → AddsUp input.subtotal p × (t ≡ s) × Priced input s p
  unfolding price
  price-Priced e = price_code-Priced (normalize_coupon_code input.coupon_code) refl e
