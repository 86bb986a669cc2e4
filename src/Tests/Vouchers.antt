-- ===== src/Tests/Vouchers.antt =====
-- The coupons of the small shop: what the bot lists, and what an administrator makes.
use cdk_gpt.Prelude.{
  ◌≡◌, refl, none, some, true, [], ◌∷◌, codes, int, pos, arith, inl, ◌↔◌, find_first, text_eq,
  to_upper, trim, trim_start, any_row, every_row, count_if,
}
use cdk_gpt.Store.{Coupon, percent, ok}
use cdk_gpt.Coupons.{CouponPricingInput, price, normalize_coupon_code, discount_of, raw_discount}
use cdk_gpt.Purchase.{object_id, is_coupon_code}
use cdk_gpt.Coupons.Listing.{available_coupons}
use cdk_gpt.Coupons.Listing.Accepted.{listed_iff_accepted, In, pricing_of}
use cdk_gpt.Coupons.Fields.{
  CouponFields, absent, cleared, given, normalize, normalized_products, object_ids, validate,
}
use cdk_gpt.Coupons.Admin.{create_coupon, validate_products, has_repeated, insert_coupon}
use cdk_gpt.Coupons.Admin.Sound.{Sound, creates, administer, administer-Sound}
use cdk_gpt.Tests.{coupon, shop}

abbrev checkout : CouponPricingInput
checkout = record {
  user_id = 1;
  product_id = 10;
  subtotal = 100;
  coupon_code = some (codes " sale15");
}

listed_iff_accepted_example :
    In coupon (available_coupons 1 shop)
    ↔ (price checkout shop ≡ ok (pricing_of coupon checkout, shop))
unfolding find_first text_eq normalize_coupon_code to_upper trim trim_start discount_of raw_discount
    any_row
listed_iff_accepted_example =
    listed_iff_accepted coupon checkout shop (inl refl) refl refl (refl, refl, refl)

abbrev ten_off : CouponFields
ten_off = record {
  kind = given (some percent);
  value = given (int (pos 10));
  min_subtotal = absent;
  max_discount = cleared;
  usage_limit = given (int (pos 5));
  per_user_limit = absent;
  enabled = absent;
  starts_at = cleared;
  ends_at = given (some 3000);
  product_ids = given (some (object_id 10 ∷ []));
}

abbrev made : Coupon
made = record {
  id = 100;
  code = codes "NEW10";
  kind = percent;
  value = 10;
  min_subtotal = 0;
  max_discount = none;
  starts_at = none;
  ends_at = some 3000;
  usage_limit = some 5;
  per_user_limit = 1;
  usage_count = 0;
  product_ids = 10 ∷ [];
  enabled = true;
}

shop-Sound : Sound shop
shop-Sound = ground arith

administer-Sound_example : Sound (record shop { next_id = 101; coupons = coupon ∷ made ∷ [] })
unfolding administer create_coupon normalize normalized_products object_ids normalize_coupon_code
    to_upper trim trim_start is_coupon_code every_row validate validate_products has_repeated
    any_row count_if insert_coupon text_eq
administer-Sound_example =
    administer-Sound (creates (codes "new10") ten_off) shop made
      (record shop { next_id = 101; coupons = coupon ∷ made ∷ [] }) shop-Sound refl
