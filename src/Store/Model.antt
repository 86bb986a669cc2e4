-- ===== src/Store/Model.antt =====
-- The documents of the collections (packages/database/src/schemas) and the statuses of
-- packages/shared/src/index.ts. An ObjectId is a number, a time is a number of milliseconds, a
-- field that may be missing is an `Option`. A soft-deleted document has `deleted`.
use cdk_gpt.Prelude.{ℕ, Bool, Option, List, Text, ℤ}

pub data UserStatus : Type 0 where
  active suspended blocked : UserStatus

pub record User : Type 0 where
  pub id : ℕ
  pub status : UserStatus
  pub deleted : Bool
  pub wallet_balance : ℕ
  pub purchase_count : ℕ
  pub checkout_lock_version : ℕ

pub data ProductStatus : Type 0 where
  draft active inactive archived : ProductStatus

pub record Product : Type 0 where
  pub id : ℕ
  pub name : Text
  pub price : ℕ
  pub status : ProductStatus
  pub purchase_limit_per_user : ℕ
  pub deleted : Bool

pub data InventoryStatus : Type 0 where
  available reserved sold disabled returned : InventoryStatus

pub record InventoryItem : Type 0 where
  pub id : ℕ
  pub product_id : ℕ
  pub status : InventoryStatus
  pub reserved_by_user_id : Option ℕ
  pub reserved_order_id : Option ℕ
  pub reserved_payment_request_id : Option ℕ
  pub reserved_at : Option ℕ
  pub reservation_expires_at : Option ℕ
  pub sold_to_user_id : Option ℕ
  pub sold_order_id : Option ℕ
  pub sold_at : Option ℕ
  pub deleted : Bool

pub data OrderStatus : Type 0 where
  pending_delivery delivering delivered delivery_failed refunded cancelled : OrderStatus

pub data DeliveryStatus : Type 0 where
  pending processing delivered failed : DeliveryStatus

-- The fields of an order's `metadata` that the services read.
pub record OrderMetadata : Type 0 where
  pub payment_request_id : Option ℕ
  pub purchase_group_id : Option Text
  pub batch_quantity : Option ℕ
  pub batch_total_amount : Option ℕ

pub record Order : Type 0 where
  pub id : ℕ
  pub order_code : Text
  pub user_id : ℕ
  pub product_id : ℕ
  pub inventory_item_id : ℕ
  pub unit_price : ℕ
  pub discount_amount : ℕ
  pub total_amount : ℕ
  pub coupon_code : Option Text
  pub coupon_id : Option ℕ
  pub status : OrderStatus
  pub delivery_status : DeliveryStatus
  pub wallet_transaction_id : Option ℕ
  pub failure_reason : Option Text
  pub idempotency_key : Text
  pub metadata : OrderMetadata

pub data WalletTransactionType : Type 0 where
  deposit purchase refund admin_credit admin_debit referral_commission adjustment :
      WalletTransactionType

pub data WalletReferenceType : Type 0 where
  order payment_request user referral manual : WalletReferenceType

pub data ActorType : Type 0 where
  user admin system webhook : ActorType

pub record WalletTransaction : Type 0 where
  pub id : ℕ
  pub user_id : ℕ
  pub balance_before : ℕ
  pub balance_after : ℕ
  pub amount : ℤ
  pub kind : WalletTransactionType
  pub reason : Text
  pub reference_type : WalletReferenceType
  pub reference_id : Option ℕ
  pub idempotency_key : Text
  pub actor_type : ActorType
  pub actor_id : Option ℕ

pub data CouponType : Type 0 where
  percent fixed : CouponType

pub record Coupon : Type 0 where
  pub id : ℕ
  pub code : Text
  pub kind : CouponType
  pub value : ℕ
  pub min_subtotal : ℕ
  pub max_discount : Option ℕ
  pub starts_at : Option ℕ
  pub ends_at : Option ℕ
  pub usage_limit : Option ℕ
  pub per_user_limit : ℕ
  pub usage_count : ℕ
  pub product_ids : List ℕ
  pub enabled : Bool

pub record CouponRedemption : Type 0 where
  pub coupon_id : ℕ
  pub user_id : ℕ
  pub product_id : ℕ
  pub checkout_key : Text
  pub quantity : ℕ
  pub subtotal : ℕ
  pub discount_amount : ℕ
  pub total_amount : ℕ

pub data PaymentRequestStatus : Type 0 where
  pending approved rejected expired : PaymentRequestStatus

pub data CheckoutStatus : Type 0 where
  pending_payment processing fulfilled failed : CheckoutStatus

-- Why a checkout failed: the text of `fulfillmentError`, one constructor for each message.
pub data FulfillmentError : Type 0 where
  user_cancelled paid_after_cancel late user_inactive purchase_limit product_unavailable :
      FulfillmentError
  out_of_stock coupon_unavailable : FulfillmentError
  mismatched_amount : ℕ → ℕ → FulfillmentError

-- `QuickCheckoutMetadata`
pub record QuickCheckout : Type 0 where
  pub product_id : ℕ
  pub product_name : Text
  pub quantity : ℕ
  pub unit_price : ℕ
  pub total_amount : ℕ
  pub subtotal : Option ℕ
  pub discount_amount : Option ℕ
  pub coupon_code : Option Text
  pub idempotency_prefix : Text
  pub status : CheckoutStatus
  pub soft : Bool
  pub order_ids : List ℕ
  pub fulfillment_error : Option FulfillmentError
  pub processing_at : Option ℕ
  pub fulfilled_at : Option ℕ

-- The fields of a payment request's `metadata` that the services read.
pub record PaymentMetadata : Type 0 where
  pub transfer_content : Option Text
  pub bank_config_id : Option Text
  pub expires_at : Option ℕ
  pub user_cancelled_at : Option ℕ
  pub amount_mismatch : Option (ℕ × ℕ)
  pub bank_transaction_id : Option Text
  pub late_payment : Option Bool
  pub quick_checkout : Option QuickCheckout

pub data Provider : Type 0 where
  bank_api : Provider
  named : Text → Provider

pub record PaymentRequest : Type 0 where
  pub id : ℕ
  pub request_code : Text
  pub user_id : ℕ
  pub amount : ℕ
  pub provider : Provider
  pub provider_reference : Option Text
  pub status : PaymentRequestStatus
  pub reviewed_by : Option ℕ
  pub reviewed_at : Option ℕ
  pub wallet_transaction_id : Option ℕ
  pub idempotency_key : Text
  pub metadata : PaymentMetadata
  pub deleted : Bool
  pub updated_at : ℕ

-- The database, with the clock, the supply of ObjectIds and the random texts that an operation
-- draws. `inventory_items` stands in the order of `createdAt`.
pub record Db : Type 0 where
  pub now : ℕ
  pub next_id : ℕ
  pub draw : ℕ → Text
  pub users : List User
  pub products : List Product
  pub inventory_items : List InventoryItem
  pub orders : List Order
  pub wallet_transactions : List WalletTransaction
  pub coupons : List Coupon
  pub coupon_redemptions : List CouponRedemption
  pub payment_requests : List PaymentRequest
