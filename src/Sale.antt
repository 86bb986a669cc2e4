-- ===== src/Sale.antt =====
-- The price before a sale that a product shows (`productOriginalPriceAfterChange`,
-- packages/shared/src/index.ts), and its upkeep by the update of a product
-- (apps/api/src/product/product.service.ts). Prices are whole amounts of at least 0.
pub mod History
use cdk_gpt.Prelude.{ℕ, max, Bool, Option, none, some, List, [], ◌∷◌, ltb, if◌then◌else◌}

-- The fields `price` and `originalPrice` of a product.
pub record SalePrice : Type 0 where
  pub price : ℕ
  pub original_price : Option ℕ

-- `activeOriginal`: an original price that is above the current one.
unfoldable pub active_original : ℕ → Option ℕ → Option ℕ
active_original current none = none
active_original current (some o) = if ltb current o then some o else none

-- The original price after a raise, or after no change.
unfoldable pub kept_original : Option ℕ → ℕ → Option ℕ
kept_original none next = none
kept_original (some o) next = if ltb next o then some o else none

-- `activeOriginal ?? 0`
abbrev pub or_zero : Option ℕ → ℕ
or_zero none = 0
or_zero (some o) = o

-- `productOriginalPriceAfterChange`
unfoldable pub original_price_after_change : ℕ → Option ℕ → ℕ → Option ℕ
original_price_after_change current original next =
    if ltb next current
    then some (max (or_zero (active_original current original)) current)
    else kept_original (active_original current original) next

-- What the update of a product does to its prices.
unfoldable pub change_price : SalePrice → ℕ → SalePrice
change_price p next = record {
  price = next;
  original_price = original_price_after_change p.price p.original_price next;
}

-- Updates, one after another.
unfoldable pub change_prices : SalePrice → List ℕ → SalePrice
change_prices p [] = p
change_prices p (next ∷ rest) = change_prices (change_price p next) rest
