-- ===== src/Coupons/Fields.antt =====
-- The fields of a coupon as an administrator gives them: `normalize` and `validate` of `CouponsService`
-- (apps/api/src/coupons/coupons.service.ts).
use cdk_gpt.Prelude.{
  ℕ, Bool, true, false, ◌&&◌, ◌||◌, Option, none, some, List, [], ◌∷◌, Number, leb, ltb,
  if◌then◌else◌, length,
}
use cdk_gpt.Store.{
  CouponType, percent, fixed, Tx, invalid_coupon, ◌>>=◌, ◌>>◌, pure, or_throw, throw_if,
}
use cdk_gpt.Purchase.{IdText, object_id_of, natural_safe}

-- A field of a request: left out, `null`, or given.
pub data Patch (A : Type 0) : Type 0 where
  absent : Patch A
  cleared : Patch A
  given : A → Patch A

-- `UpdateCouponDto`. A type, a flag, a date or a list is an `Option`: `none` is a value of another kind, or
-- a date that is none.
pub record CouponFields : Type 0 where
  pub kind : Patch (Option CouponType)
  pub value : Patch Number
  pub min_subtotal : Patch Number
  pub max_discount : Patch Number
  pub usage_limit : Patch Number
  pub per_user_limit : Patch Number
  pub enabled : Patch (Option Bool)
  pub starts_at : Patch (Option ℕ)
  pub ends_at : Patch (Option ℕ)
  pub product_ids : Patch (Option (List IdText))

-- `Partial<Coupon>`: a coupon as `validate` gets it, its numbers not yet checked.
pub record CouponDraft : Type 0 where
  pub kind : Option CouponType
  pub value : Option Number
  pub min_subtotal : Option Number
  pub max_discount : Option Number
  pub usage_limit : Option Number
  pub per_user_limit : Option Number
  pub starts_at : Option (Option ℕ)
  pub ends_at : Option (Option ℕ)
  pub usage_count : ℕ

-- What `validate` has checked.
pub record CouponTerms : Type 0 where
  pub kind : CouponType
  pub value : ℕ
  pub min_subtotal : Option ℕ
  pub max_discount : Option ℕ
  pub usage_limit : Option ℕ
  pub per_user_limit : Option ℕ
  pub starts_at : Option ℕ
  pub ends_at : Option ℕ

abbrev pub is_cleared : {A : Type 0} → Patch A → Bool
is_cleared absent = false
is_cleared cleared = true
is_cleared (given a) = false

-- A field of another kind than the one that is wanted.
abbrev pub is_wrong : {A : Type 0} → Patch (Option A) → Bool
is_wrong absent = false
is_wrong cleared = false
is_wrong (given none) = true
is_wrong (given (some a)) = false

-- The fields that must not be `null`.
abbrev pub has_cleared : CouponFields → Bool
has_cleared f =
    is_cleared f.kind
    || is_cleared f.value
    || is_cleared f.min_subtotal
    || is_cleared f.per_user_limit
    || is_cleared f.enabled
    || is_cleared f.product_ids

-- Each id, or nothing if one is malformed.
unfoldable pub object_ids : List IdText → Option (List ℕ)
object_ids [] = some []
object_ids (i ∷ is) = both (object_id_of i) (object_ids is)
  where
    both : Option ℕ → Option (List ℕ) → Option (List ℕ)
    both (some n) (some ns) = some (n ∷ ns)
    both _ _ = none

-- The ids of the products: `none` outside if they are refused, `none` inside if they are left out.
unfoldable pub normalized_products : Patch (Option (List IdText)) → Option (Option (List ℕ))
normalized_products absent = some none
normalized_products cleared = none
normalized_products (given none) = none
normalized_products (given (some is)) =
    if ltb 100 (length is) then none else given_ids (object_ids is)
  where
    given_ids : Option (List ℕ) → Option (Option (List ℕ))
    given_ids none = none
    given_ids (some ns) = some (some ns)

-- `normalize`, with the ids of the products as its result.
unfoldable pub normalize : CouponFields → Tx (Option (List ℕ))
normalize f = do
  throw_if (has_cleared f) invalid_coupon
  throw_if (is_wrong f.enabled) invalid_coupon
  or_throw invalid_coupon (normalized_products f.product_ids)

-- `{ ...coupon, ...normalized }` at one field.
abbrev pub merge_field : {A : Type 0} → Option A → Patch A → Option A
merge_field old absent = old
merge_field old cleared = none
merge_field old (given a) = some a

abbrev pub merge_kind : Option CouponType → Patch (Option CouponType) → Option CouponType
merge_kind old absent = old
merge_kind old cleared = none
merge_kind old (given k) = k

abbrev pub merged : CouponDraft → CouponFields → CouponDraft
merged d f = record {
  kind = merge_kind d.kind f.kind;
  value = merge_field d.value f.value;
  min_subtotal = merge_field d.min_subtotal f.min_subtotal;
  max_discount = merge_field d.max_discount f.max_discount;
  usage_limit = merge_field d.usage_limit f.usage_limit;
  per_user_limit = merge_field d.per_user_limit f.per_user_limit;
  starts_at = merge_field d.starts_at f.starts_at;
  ends_at = merge_field d.ends_at f.ends_at;
  usage_count = d.usage_count;
}

-- A number that is missing, or a safe integer of at least `lo`.
abbrev pub at_least : ℕ → Option Number → Option (Option ℕ)
at_least lo none = some none
at_least lo (some n) = checked (natural_safe n)
  where
    checked : Option ℕ → Option (Option ℕ)
    checked none = none
    checked (some k) = if leb lo k then some (some k) else none

abbrev pub value_in_kind : CouponType → Option Number → Option ℕ
value_in_kind kind none = none
value_in_kind kind (some n) = checked (natural_safe n)
  where
    in_kind : CouponType → ℕ → Bool
    in_kind percent k = leb 1 k && leb k 100
    in_kind fixed k = leb 1 k

    checked : Option ℕ → Option ℕ
    checked none = none
    checked (some k) = if in_kind kind k then some k else none

-- A date that is missing, or a date.
abbrev pub date_of : Option (Option ℕ) → Option (Option ℕ)
date_of none = some none
date_of (some none) = none
date_of (some (some t)) = some (some t)

abbrev pub out_of_order : Option ℕ → Option ℕ → Bool
out_of_order (some a) (some b) = leb b a
out_of_order _ _ = false

abbrev pub below_usage : Option ℕ → ℕ → Bool
below_usage none used = false
below_usage (some limit) used = ltb limit used

-- `validate`, with what it has checked as its result.
unfoldable pub validate : CouponDraft → Tx CouponTerms
validate d = do
  kind ← or_throw invalid_coupon d.kind
  value ← or_throw invalid_coupon (value_in_kind kind d.value)
  min_subtotal ← or_throw invalid_coupon (at_least 0 d.min_subtotal)
  max_discount ← or_throw invalid_coupon (at_least 1 d.max_discount)
  usage_limit ← or_throw invalid_coupon (at_least 1 d.usage_limit)
  per_user_limit ← or_throw invalid_coupon (at_least 1 d.per_user_limit)
  starts_at ← or_throw invalid_coupon (date_of d.starts_at)
  ends_at ← or_throw invalid_coupon (date_of d.ends_at)
  throw_if (out_of_order starts_at ends_at) invalid_coupon
  throw_if (below_usage usage_limit d.usage_count) invalid_coupon
  pure (record {
    kind = kind;
    value = value;
    min_subtotal = min_subtotal;
    max_discount = max_discount;
    usage_limit = usage_limit;
    per_user_limit = per_user_limit;
    starts_at = starts_at;
    ends_at = ends_at;
  })
