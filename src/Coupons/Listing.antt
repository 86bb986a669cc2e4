-- ===== src/Coupons/Listing.antt =====
-- `listAvailable` of `CouponsService` (apps/api/src/coupons/coupons.service.ts): the coupons that the bot
-- shows to a customer, page by page. The names of the products are left out.
pub mod Accepted
use cdk_gpt.Prelude.{
  ℕ, ◌+◌, ◌-◌, ◌*◌, ◌/◌, Bool, ◌&&◌, not, Option, none, some, List, [], ◌∷◌, map, Text, leb, ltb,
  max, find_all, count_if, length, take, drop,
}
use mathlib.Core.List.{reverse}
use cdk_gpt.Store.{Db, Coupon, CouponType, CouponRedemption}
use cdk_gpt.Coupons.{starts_after, ended_by, used_up, redeemed_by}

-- The query and the filter behind it, which repeats it: active, open, and not used up.
abbrev pub is_offered : ℕ → Coupon → Bool
is_offered now c =
    c.enabled
    && not (starts_after now c.starts_at)
    && not (ended_by now c.ends_at)
    && not (used_up c.usage_limit c.usage_count)

-- `usedByCoupon.get(id) ?? 0`
abbrev pub used_by : ℕ → List CouponRedemption → Coupon → ℕ
used_by user_id redemptions c = count_if (redeemed_by c.id user_id) redemptions

-- `available`: the last coupon that was made comes first.
unfoldable pub available_coupons : ℕ → Db → List Coupon
available_coupons user_id s =
    find_all (λ (c : Coupon). ltb (used_by user_id s.coupon_redemptions c) c.per_user_limit)
      (find_all (is_offered s.now) (reverse s.coupons))

-- What the bot shows of a coupon.
pub record CouponItem : Type 0 where
  pub code : Text
  pub kind : CouponType
  pub value : ℕ
  pub min_subtotal : ℕ
  pub max_discount : Option ℕ
  pub ends_at : Option ℕ
  pub remaining_uses : Option ℕ
  pub remaining_user_uses : ℕ
  pub product_ids : List ℕ

abbrev pub remaining : Option ℕ → ℕ → Option ℕ
remaining none used = none
remaining (some limit) used = some (limit - used)

abbrev pub coupon_item : ℕ → List CouponRedemption → Coupon → CouponItem
coupon_item user_id redemptions c = record {
  code = c.code;
  kind = c.kind;
  value = c.value;
  min_subtotal = c.min_subtotal;
  max_discount = c.max_discount;
  ends_at = c.ends_at;
  remaining_uses = remaining c.usage_limit c.usage_count;
  remaining_user_uses = c.per_user_limit - used_by user_id redemptions c;
  product_ids = c.product_ids;
}

pub record CouponPage : Type 0 where
  pub items : List CouponItem
  pub page : ℕ
  pub limit : ℕ
  pub total : ℕ
  pub total_pages : ℕ

-- `Math.ceil(total / limit)`, of a limit of at least 1.
abbrev pub pages_of : ℕ → ℕ → ℕ
pages_of total limit = (total + limit - 1) / limit

-- `listAvailable`
unfoldable pub list_available : ℕ → ℕ → ℕ → Db → CouponPage
list_available user_id page limit s = record {
  items =
      map (coupon_item user_id s.coupon_redemptions)
        (take limit (drop ((page - 1) * limit) (available_coupons user_id s)));
  page = page;
  limit = limit;
  total = length (available_coupons user_id s);
  total_pages = pages_of (length (available_coupons user_id s)) limit;
}
