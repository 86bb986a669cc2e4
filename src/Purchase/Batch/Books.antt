-- ===== src/Purchase/Batch/Books.antt =====
-- A batch keeps the books: each unit of money that leaves a wallet is on record.
use cdk_gpt.Prelude.{ℕ, zero, suc, ◌+◌, ◌*◌, ltb, Option, none, some, List, [], Text, arith}
use cdk_gpt.Store.{
  User, Product, Order, InventoryItem, invalid_total, insufficient_balance, user_inactive,
  product_unavailable, price_changed,
}
use cdk_gpt.Store.Rules.{
  Triple, Triple-require, Triple-bind, Triple-gets, Triple-guard, Triple-pure, Triple-check,
  Triple-weaken,
}
use cdk_gpt.Users.Totals.{share, balance_of}
use cdk_gpt.Wallet.Ledger.{Owes, Reconciled, credits_of, debits_of, create-Reconciled}
use cdk_gpt.Inventory.{
  reserve_one, assign_payment_reservation, find_payment_reservations, update_item, update_items,
  release_expired_payment_reservations_for_product, count_active_payment_reservations,
}
use cdk_gpt.Coupons.{
  CouponPricing, CouponPricingInput, redeem, price, price_code, price_with, find_coupon,
  record_redemption, count_usage, create_redemption, normalize_coupon_code,
}
use cdk_gpt.Purchase.{ValidBatch, count_purchases, bad_total}
use cdk_gpt.Purchase.Quote.{coupon_pricing}
use cdk_gpt.Purchase.Batch.{
  reserve_from_stock, take_item, record_charge, Terms, place_order, place_orders, settle_price,
  check_limit, held_items, create_batch, head_item, rest_items, sell, price_moved, purchasable,
  unit_price_of,
}
use cdk_gpt.Purchase.Books.{
  Kept, KeptIfFound, find_active-Kept, lock_for_checkout-Kept, find_product-Kept, create_order-Kept,
  debit-Owes, attach-Kept, new_id-Kept, order_code-Kept,
}

module _ (u opening : ℕ) where
  coupon_pricing-Kept : (b : ValidBatch) (subtotal : ℕ) → Kept u opening (coupon_pricing b subtotal)
  unfolding coupon_pricing price_code price_with find_coupon
  coupon_pricing-Kept b subtotal = record { run = λ s p. ground arith }

  price-Kept : (input : CouponPricingInput) → Kept u opening (price input)
  unfolding price price_code price_with find_coupon
  price-Kept input = record { run = λ s p. ground arith }

  record_redemption-Kept :
      (input : CouponPricingInput) (n : ℕ) (key : Text) (q : CouponPricing) (k : Option ℕ)
      → Kept u opening (record_redemption input n key q k)
  unfolding record_redemption count_usage create_redemption balance_of credits_of debits_of
  record_redemption-Kept input n key q none = record { run = λ s p. p }
  record_redemption-Kept input n key q (some k) = record { run = λ s p. ground arith }

  redeem-Kept :
      (input : CouponPricingInput) (n : ℕ) (key : Text) (expected : Option ℕ)
      → Kept u opening (redeem input n key expected)
  unfolding redeem
  redeem-Kept input n key expected = Triple-bind (price-Kept input) λ q.
      Triple-guard _ _ (record_redemption input n key q q.coupon_id)
        (λ e. record_redemption-Kept input n key q q.coupon_id)

  settle_price-Kept :
      (b : ValidBatch) (subtotal : ℕ) (code : Option Text)
      → Kept u opening (settle_price b subtotal code)
  unfolding settle_price
  settle_price-Kept b subtotal none = coupon_pricing-Kept b subtotal
  settle_price-Kept b subtotal (some code) =
      Triple-guard _ _ (redeem _ _ _ _) (λ e. redeem-Kept _ b.quantity b.idempotency_prefix _)

  check_limit-Kept : (b : ValidBatch) (product : Product) → Kept u opening (check_limit b product)
  unfolding check_limit release_expired_payment_reservations_for_product update_items
      count_active_payment_reservations count_purchases balance_of credits_of debits_of
  check_limit-Kept b product = record { run = λ s p. ground arith }

  held_items-Kept : (b : ValidBatch) → Kept u opening (held_items b)
  unfolding held_items find_payment_reservations
  held_items-Kept b = record { run = λ s p. ground arith }

  take_item-Kept :
      (b : ValidBatch) (held : Option InventoryItem) (order_id expires_at : ℕ)
      → KeptIfFound u opening (take_item b held order_id expires_at)
  unfolding take_item reserve_from_stock reserve_one assign_payment_reservation
      release_expired_payment_reservations_for_product update_items update_item balance_of
      credits_of debits_of
  take_item-Kept b none order_id expires_at = record { run = λ s p. ground arith }
  take_item-Kept b (some held) order_id expires_at = record { run = λ s p. ground arith }

  record_charge-Reconciled :
      (b : ValidBatch) (before after amount : ℕ) (o : Order) (key : Text)
      → Triple
          (Owes u opening 0 (share u b.user_id amount))
          (record_charge b before after amount o key)
          (λ x. Reconciled u opening)
  unfolding record_charge
  record_charge-Reconciled b before after zero o key = record { run = λ s p. ground arith }
  record_charge-Reconciled b before after (suc n) o key =
      Triple-bind (Triple-weaken (λ s p. ground arith) (create-Reconciled u opening _))
        λ made. Triple-bind (attach-Kept u opening o.id made.id) λ x. Triple-pure _ (λ s p. p)

  place_order-Kept :
      (terms : Terms) (index : ℕ) (held : Option InventoryItem) (before : ℕ)
      → Kept u opening (place_order terms index held before)
  unfolding place_order
  place_order-Kept terms index held before = Triple-bind (new_id-Kept u opening) λ order_id.
      Triple-bind (Triple-gets (λ s. s.now) (λ s p. p)) λ now.
        Triple-require _ (take_item-Kept terms.batch held order_id _) λ item.
          Triple-bind (order_code-Kept u opening) λ code.
            Triple-bind (create_order-Kept u opening _) λ o.
              Triple-require _ (debit-Owes u opening terms.batch.user_id _) λ debited.
                Triple-bind
                  (record_charge-Reconciled terms.batch before debited.wallet_balance _ o _)
                  λ charged. Triple-pure _ (λ s p. p)

  place_orders-Kept :
      (terms : Terms) (n index : ℕ) (held : List InventoryItem) (before : ℕ)
      → Kept u opening (place_orders terms n index held before)
  unfolding place_orders
  place_orders-Kept terms zero index held before = Triple-pure [] (λ s p. p)
  place_orders-Kept terms (suc n) index held before =
      Triple-bind (place_order-Kept terms index (head_item held) before) λ placed.
        Triple-bind (place_orders-Kept terms n (index + 1) (rest_items held) placed.1)
          λ rest. Triple-pure _ (λ s p. p)

  sell-Kept :
      (b : ValidBatch) (buyer : User) (product : Product) (unit_price : ℕ)
      → Kept u opening (sell b buyer product unit_price)
  unfolding sell
  sell-Kept b buyer product unit_price =
      Triple-bind (Triple-check (bad_total (unit_price * b.quantity)) invalid_total) λ good_total.
        Triple-bind
          (settle_price-Kept b (unit_price * b.quantity) (normalize_coupon_code b.coupon_code))
          λ pricing.
            Triple-bind
              (Triple-check (ltb buyer.wallet_balance pricing.total_amount) insufficient_balance)
              λ covered. Triple-bind (check_limit-Kept b product) λ checked.
                Triple-bind (held_items-Kept b) λ held.
                  place_orders-Kept
                    (record { batch = b; unit_price = unit_price; pricing = pricing; held = held })
                    b.quantity 0 held buyer.wallet_balance

  pub create_batch-Reconciled : (b : ValidBatch) → Kept u opening (create_batch b)
  unfolding create_batch
  create_batch-Reconciled b =
      Triple-require user_inactive (find_active-Kept u opening b.user_id) λ buyer.
        Triple-bind (lock_for_checkout-Kept u opening b.user_id) λ locked.
          Triple-require product_unavailable (find_product-Kept u opening (purchasable b))
            λ product.
              Triple-bind (Triple-check (price_moved b product) price_changed)
                λ same_price. sell-Kept b buyer product (unit_price_of b product)
