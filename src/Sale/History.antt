-- ===== src/Sale/History.antt =====
-- A sale from its first reduction to its end.
use cdk_gpt.Prelude.{
  ℕ, Bool, ◌&&◌, ◌≡◌, refl, true, false, none, some, List, [], ◌∷◌, ltb, every_row, arith,
}
use cdk_gpt.Sale.{
  SalePrice, active_original, kept_original, original_price_after_change, change_price,
  change_prices,
}

and_parts : (a b : Bool) → (a && b) ≡ true → (a ≡ true) × (b ≡ true)
and_parts true b h = (refl, h)
and_parts false b h = ground arith

-- The product is on sale from the price `first`.
OnSale : ℕ → SalePrice → Type 0
OnSale first p = (p.original_price ≡ some first) × (ltb p.price first ≡ true)

change_price-OnSale :
    (first current next : ℕ)
    → ltb current first ≡ true
    → ltb next first ≡ true
    → original_price_after_change current (some first) next ≡ some first
unfolding original_price_after_change active_original kept_original
change_price-OnSale first current next h k = ground arith

change_prices-OnSale :
    (first : ℕ) (p : SalePrice) (later : List ℕ)
    → OnSale first p
    → every_row (λ n. ltb n first) later ≡ true
    → OnSale first (change_prices p later)
unfolding change_prices change_price every_row OnSale
change_prices-OnSale first p [] h k = h
change_prices-OnSale first p (n ∷ later) (same, below) k =
    let (n_below, later_below) = and_parts (ltb n first) (every_row (λ m. ltb m first) later) k in
    change_prices-OnSale first (change_price p n) later
      (rw same (change_price-OnSale first p.price n below n_below), n_below) later_below

first_reduction :
    (first next : ℕ)
    → ltb next first ≡ true
    → original_price_after_change first none next ≡ some first
unfolding original_price_after_change active_original
first_reduction first next h = ground arith

sale_ends :
    (first current last : ℕ)
    → ltb current first ≡ true
    → ltb last first ≡ false
    → original_price_after_change current (some first) last ≡ none
unfolding original_price_after_change active_original kept_original
sale_ends first current last h k = ground arith

-- A product without an original price is reduced, and then changed in any way to prices below the one it
-- had: that price stays its original price throughout. Once a change reaches that price, the original price
-- is gone.
pub change_prices-sale :
    (first next : ℕ) (later : List ℕ) (last : ℕ)
    → every_row (λ n. ltb n first) (next ∷ later) ≡ true
    → ltb last first ≡ false
    → ((change_prices
          (record { price = first; original_price = none })
          (next ∷ later)).original_price
        ≡ some first)
      × ((change_price
            (change_prices (record { price = first; original_price = none }) (next ∷ later))
            last).original_price
          ≡ none)
unfolding change_prices change_price every_row original_price_after_change active_original
    kept_original OnSale
change_prices-sale first next later last h k =
    let (next_below, later_below) =
      and_parts (ltb next first) (every_row (λ m. ltb m first) later) h in
    let start : SalePrice = record { price = first; original_price = none } in
    let (same, below) =
      change_prices-OnSale first (change_price start next) later
        (first_reduction first next next_below, next_below) later_below in
    (
      same,
      rw same (sale_ends first (change_prices (change_price start next) later).price last below k),
    )
