-- ===== src/Purchase.antt =====
-- `PurchaseService` (apps/api/src/purchase/purchase.service.ts): the inputs, their validation, the keys
-- of a batch and the lookups that its methods share.
pub mod Split
pub mod Quote
pub mod Single
pub mod Batch
pub mod Books
pub mod Session
pub mod Expiry
use cdk_gpt.Prelude.{
  ℕ, suc, ◌+◌, ◌*◌, Bool, true, false, ◌&&◌, ◌||◌, not, Option, none, some, List, [], ◌∷◌, ◌++◌,
  Text, codes, decimal, ℤ, pos, negsuc, Number, int, other, is_safe_integer, max_safe_integer, leb,
  ltb, ◌==◌, if◌then◌else◌, find_first, find_all, count_if, length, is_none, is_some, every_row,
  zero,
}
use cdk_gpt.Store.{
  Db, Product, ProductStatus, active, Order, OrderStatus, cancelled, refunded, Tx, ok, err, Error,
  invalid_checkout_identity, invalid_checkout_price, invalid_checkout_quantity,
  invalid_checkout_key, invalid_payment_request, invalid_total, coupon_unavailable, ◌>>=◌, ◌>>◌,
  pure, throw, gets, or_throw, throw_if,
}
use cdk_gpt.Coupons.{normalize_coupon_code}

-- A text that is to name a document: `Types.ObjectId.isValid` holds of the first kind.
pub data IdText : Type 0 where
  object_id : ℕ → IdText
  malformed : IdText

-- `PurchaseBatchInput`
pub record PurchaseBatchInput : Type 0 where
  pub user_id : IdText
  pub product_id : IdText
  pub expected_unit_price : Number
  pub quantity : Number
  pub coupon_code : Option Text
  pub expected_total_amount : Option Number
  pub idempotency_prefix : Text
  pub payment_request_id : Option IdText
  pub allow_unreserved_payment : Bool

-- The input once it has passed the validation.
pub record ValidBatch : Type 0 where
  pub user_id : ℕ
  pub product_id : ℕ
  pub expected_unit_price : ℕ
  pub quantity : ℕ
  pub coupon_code : Option Text
  pub expected_total_amount : Option ℕ
  pub idempotency_prefix : Text
  pub payment_request_id : Option ℕ
  pub allow_unreserved_payment : Bool

abbrev pub object_id_of : IdText → Option ℕ
object_id_of (object_id n) = some n
object_id_of malformed = none

-- `Number.isSafeInteger(n) && n >= 0`
abbrev pub natural_safe : Number → Option ℕ
natural_safe (int (pos n)) = if leb n max_safe_integer then some n else none
natural_safe (int (negsuc _)) = none
natural_safe other = none

abbrev pub in_range : ℕ → ℕ → Option ℕ → Option ℕ
in_range lo hi none = none
in_range lo hi (some n) = if leb lo n && leb n hi then some n else none

-- A field that may be missing, and is checked if it is there.
abbrev pub optional : {A B : Type 0} → (A → Option B) → Option A → Option (Option B)
optional f none = some none
optional f (some a) = elim (f a) [ none ↦ none | some b ↦ some (some b) ]

abbrev is_code_char : ℕ → Bool
is_code_char c = (leb b'A' c && leb c b'Z') || (leb b'0' c && leb c b'9')

-- /^[A-Z0-9][A-Z0-9_-]{2,39}$/
unfoldable pub is_coupon_code : Text → Bool
is_coupon_code [] = false
is_coupon_code (c ∷ s) =
    is_code_char c
    && every_row (λ d. is_code_char d || d == b'_' || d == b'-') s
    && leb 2 (length s)
    && leb (length s) 39

abbrev pub coupon_code_ok : Option Text → Bool
coupon_code_ok none = true
coupon_code_ok (some code) = elim (normalize_coupon_code (some code)) [
  | none ↦ false
  | some c ↦ is_coupon_code c
]

-- `validateBatchInput`, with the values that it has checked as its result.
unfoldable pub validate_batch_input : PurchaseBatchInput → Tx ValidBatch
validate_batch_input input = do
  user_id ← or_throw invalid_checkout_identity (object_id_of input.user_id)
  product_id ← or_throw invalid_checkout_identity (object_id_of input.product_id)
  price ← or_throw invalid_checkout_price (natural_safe input.expected_unit_price)
  quantity ← or_throw invalid_checkout_quantity (in_range 1 100 (natural_safe input.quantity))
  throw_if (leb (length input.idempotency_prefix) 0 || ltb 115 (length input.idempotency_prefix))
      invalid_checkout_key
  payment ← or_throw invalid_payment_request (optional object_id_of input.payment_request_id)
  expected ← or_throw invalid_total (optional natural_safe input.expected_total_amount)
  throw_if (not (coupon_code_ok input.coupon_code)) coupon_unavailable
  pure (record {
    user_id = user_id;
    product_id = product_id;
    expected_unit_price = price;
    quantity = quantity;
    coupon_code = input.coupon_code;
    expected_total_amount = expected;
    idempotency_prefix = input.idempotency_prefix;
    payment_request_id = payment;
    allow_unreserved_payment = input.allow_unreserved_payment;
  })

-- `${prefix}:${index}`
unfoldable pub batch_key : Text → ℕ → Text
batch_key prefix index = prefix ++ codes ":" ++ decimal index

-- The keys from `index` on.
unfoldable pub keys_from : Text → ℕ → ℕ → List Text
unfolding batch_key
keys_from prefix index zero = []
keys_from prefix index (suc n) = batch_key prefix index ∷ keys_from prefix (index + 1) n

unfoldable pub batch_keys : ValidBatch → List Text
unfolding keys_from
batch_keys b = keys_from b.idempotency_prefix 0 b.quantity

abbrev pub is_on_sale : ProductStatus → Bool
is_on_sale active = true
is_on_sale _ = false

unfoldable pub find_product : (Product → Bool) → Tx (Option Product)
find_product p = gets λ s. find_first p s.products

-- `{ _id, status: ACTIVE, deletedAt: null }`
abbrev pub product_on_sale : ℕ → Product → Bool
product_on_sale id x = x.id == id && is_on_sale x.status && not x.deleted

-- `{ _id, deletedAt: null }`
abbrev pub product_kept : ℕ → Product → Bool
product_kept id x = x.id == id && not x.deleted

-- `status: { $nin: [CANCELLED, REFUNDED] }`
abbrev pub counts_as_purchase : OrderStatus → Bool
counts_as_purchase cancelled = false
counts_as_purchase refunded = false
counts_as_purchase _ = true

unfoldable pub count_purchases : ℕ → ℕ → Tx ℕ
count_purchases user_id product_id = gets λ s.
    count_if
      (λ o. o.user_id == user_id && o.product_id == product_id && counts_as_purchase o.status)
      s.orders

-- `!Number.isSafeInteger(total) || total <= 0`
abbrev pub bad_total : ℕ → Bool
bad_total total = ltb max_safe_integer total || total == 0

-- Fifteen minutes.
abbrev pub reservation_ms : ℕ
reservation_ms = 15 * 60000

-- `orderCode()`: a text drawn at random.
unfoldable pub order_code : Tx Text
order_code = gets λ s. codes "ORD-" ++ s.draw s.next_id
