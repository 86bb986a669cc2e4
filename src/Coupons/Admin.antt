-- ===== src/Coupons/Admin.antt =====
-- The administration of coupons: `create`, `update` and `validateProducts` of
-- `CouponsService` (apps/api/src/coupons/coupons.service.ts). The audit log, and who has made and changed a
-- coupon, are left out.
pub mod Sound
use cdk_gpt.Prelude.{
  ℕ, ◌+◌, Bool, true, false, ◌&&◌, ◌||◌, not, Option, none, some, List, [], ◌∷◌, ◌++◌, Text,
  text_eq, Number, int, pos, leb, ltb, ◌==◌, if◌then◌else◌, any_row, count_if, find_first,
  find_and_update, length,
}
use cdk_gpt.Store.{
  Db, Coupon, CouponType, percent, fixed, Product, Tx, Result, ok, err, Error, duplicate_key,
  invalid_coupon, coupon_not_found, ◌>>=◌, ◌>>◌, pure, gets, modify, or_throw, throw_if, new_id,
}
use cdk_gpt.Coupons.{normalize_coupon_code}
use cdk_gpt.Purchase.{IdText, object_id_of, natural_safe, is_coupon_code}
use cdk_gpt.Coupons.Fields.{
  Patch, CouponFields, CouponDraft, CouponTerms, normalize, merged, validate, given,
}

unfoldable pub has_repeated : List ℕ → Bool
has_repeated [] = false
has_repeated (n ∷ ns) = any_row (λ m. m == n) ns || has_repeated ns

-- `validateProducts`
unfoldable pub validate_products : List ℕ → Tx (Unit {0})
validate_products ids = do
  throw_if (has_repeated ids) invalid_coupon
  found ←
      gets λ s. count_if (λ (p : Product). any_row (λ i. i == p.id) ids && not p.deleted) s.products
  throw_if (not (found == length ids)) invalid_coupon

abbrev pub or_default : {A : Type 0} → A → Option A → A
or_default a none = a
or_default a (some b) = b

abbrev pub flag_or : Bool → Patch (Option Bool) → Bool
flag_or b (given (some c)) = c
flag_or b _ = b

-- Nothing is set yet.
abbrev pub empty_draft : CouponDraft
empty_draft = record {
  kind = none;
  value = none;
  min_subtotal = none;
  max_discount = none;
  usage_limit = none;
  per_user_limit = none;
  starts_at = none;
  ends_at = none;
  usage_count = 0;
}

-- The coupon as it is created, with the defaults of the schema.
abbrev pub new_coupon : ℕ → Text → CouponTerms → List ℕ → Bool → Coupon
new_coupon id code t ids enabled = record {
  id = id;
  code = code;
  kind = t.kind;
  value = t.value;
  min_subtotal = or_default 0 t.min_subtotal;
  max_discount = t.max_discount;
  starts_at = t.starts_at;
  ends_at = t.ends_at;
  usage_limit = t.usage_limit;
  per_user_limit = or_default 1 t.per_user_limit;
  usage_count = 0;
  product_ids = ids;
  enabled = enabled;
}

abbrev pub code_of : Option Text → Option Text
code_of none = none
code_of (some c) = if is_coupon_code c then some c else none

-- `coupons.create`, under the unique index on the code.
unfoldable pub insert_coupon : Text → (ℕ → Coupon) → Tx Coupon
insert_coupon code make = do
  taken ← gets λ s. any_row (λ (c : Coupon). text_eq c.code code) s.coupons
  throw_if taken duplicate_key
  id ← new_id
  modify λ s. record s { coupons = s.coupons ++ make id ∷ [] }
  pure (make id)

-- `create`
unfoldable pub create_coupon : Text → CouponFields → Tx Coupon
create_coupon text f = do
  products ← normalize f
  code ← or_throw invalid_coupon (code_of (normalize_coupon_code (some text)))
  t ← validate (merged empty_draft f)
  validate_products (or_default [] products)
  insert_coupon code (λ id. new_coupon id code t (or_default [] products) (flag_or true f.enabled))

abbrev pub number : ℕ → Number
number n = int (pos n)

abbrev pub number? : Option ℕ → Option Number
number? none = none
number? (some n) = some (number n)

abbrev pub date? : Option ℕ → Option (Option ℕ)
date? none = none
date? (some n) = some (some n)

-- `coupon.toObject()`
abbrev pub draft_of : Coupon → CouponDraft
draft_of c = record {
  kind = some c.kind;
  value = some (number c.value);
  min_subtotal = some (number c.min_subtotal);
  max_discount = number? c.max_discount;
  usage_limit = number? c.usage_limit;
  per_user_limit = some (number c.per_user_limit);
  starts_at = date? c.starts_at;
  ends_at = date? c.ends_at;
  usage_count = c.usage_count;
}

-- `coupon.set(normalized)`
abbrev pub changed_coupon : CouponTerms → Option (List ℕ) → CouponFields → Coupon → Coupon
changed_coupon t products f c = record c {
  kind = t.kind;
  value = t.value;
  min_subtotal = or_default 0 t.min_subtotal;
  max_discount = t.max_discount;
  starts_at = t.starts_at;
  ends_at = t.ends_at;
  usage_limit = t.usage_limit;
  per_user_limit = or_default 1 t.per_user_limit;
  product_ids = or_default c.product_ids products;
  enabled = flag_or c.enabled f.enabled;
}

abbrev pub store_coupon : Db → Option (Coupon × List Coupon) → Option Coupon × Db
store_coupon s none = (none, s)
store_coupon s (some (c, cs)) = (some c, record s { coupons = cs })

-- `coupon.save()`: the document that has been read is written back.
unfoldable pub save_coupon : ℕ → Coupon → Tx (Option Coupon)
save_coupon id new s = ok (store_coupon s (find_and_update (λ c. c.id == id) (λ c. new) s.coupons))

abbrev pub validate_given : Option (List ℕ) → Tx (Unit {0})
validate_given none = pure tt
validate_given (some ids) = validate_products ids

-- `update`
unfoldable pub update_coupon : IdText → CouponFields → Tx Coupon
update_coupon id f = do
  coupon_id ← or_throw invalid_coupon (object_id_of id)
  products ← normalize f
  c ←
      or_throw coupon_not_found
        (← gets λ s. find_first (λ (x : Coupon). x.id == coupon_id) s.coupons)
  t ← validate (merged (draft_of c) f)
  validate_given products
  or_throw coupon_not_found (← save_coupon coupon_id (changed_coupon t products f c))
