-- ===== src/Purchase/Batch/Charges.antt =====
-- What a batch charges: its orders bear the whole discount, and add up to the price that the customer
-- has confirmed.
use cdk_gpt.Prelude.{ℕ, ◌+◌, ◌*◌, ◌≤◌, ◌<◌, ◌≡◌, false, List, total, length}
use cdk_gpt.Store.{Order, ◌>>=◌, ◌>>◌}
use cdk_gpt.Wallet
use cdk_gpt.Coupons.{CouponPricing, differs}
use cdk_gpt.Coupons.Discount.{AddsUp}
use cdk_gpt.Purchase.{ValidBatch}
use cdk_gpt.Purchase.Split.{discount_share, shares_from}
use cdk_gpt.Purchase.Batch.{Terms, share_total}

-- A price of `subtotal` that the customer has agreed to, if the customer has named one.
abbrev Agreed : ValidBatch → ℕ → CouponPricing → Type 0
Agreed b subtotal p = AddsUp subtotal p × (differs b.expected_total_amount p.total_amount ≡ false)

-- An order that was placed for one share of the price.
abbrev ForShare : Terms → ℕ → Order → Type 0
ForShare terms index o =
    (o.total_amount ≡ share_total terms index)
    × (o.discount_amount ≡ discount_share terms.pricing.discount_amount terms.batch.quantity index)
    × (o.unit_price ≡ terms.unit_price)

-- What the orders of a batch charge from `index` on.
abbrev Charges : Terms → ℕ → ℕ → List Order → Type 0
Charges terms index n os =
    (length os ≡ n)
    × (total (λ o. o.discount_amount) os
        ≡ shares_from terms.pricing.discount_amount terms.batch.quantity index n)
    × (total (λ o. o.total_amount) os + total (λ o. o.discount_amount) os ≡ n * terms.unit_price)
    × (total (λ o. o.unit_price) os ≡ n * terms.unit_price)

-- The discount is at most the price, so that no order has a negative amount.
abbrev Affordable : Terms → Type 0
Affordable terms =
    (0 < terms.batch.quantity)
    × (terms.pricing.discount_amount ≤ terms.unit_price * terms.batch.quantity)

-- The orders of a batch: one for each unit, whose amounts are the prices less the discounts, and add
-- up to the total that the customer has named, if any.
abbrev BatchCharged : ValidBatch → List Order → Type 0
BatchCharged b os =
    (length os ≡ b.quantity)
    × (total (λ o. o.total_amount) os + total (λ o. o.discount_amount) os
        ≡ total (λ o. o.unit_price) os)
    × (differs b.expected_total_amount (total (λ o. o.total_amount) os) ≡ false)
