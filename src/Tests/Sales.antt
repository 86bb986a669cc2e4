-- ===== src/Tests/Sales.antt =====
-- A product that is reduced from 100 to 80, to 60, raised to 90, and then to 120.
use cdk_gpt.Prelude.{◌≡◌, refl, true, none, some, [], ◌∷◌, every_row, ltb}
use cdk_gpt.Sale.{change_price, change_prices}
use cdk_gpt.Sale.History.{change_prices-sale}

reduced_twice : every_row (λ n. ltb n 100) (80 ∷ 60 ∷ 90 ∷ []) ≡ true
unfolding every_row
reduced_twice = refl

change_prices-sale_example :
    ((change_prices
        (record { price = 100; original_price = none })
        (80 ∷ 60 ∷ 90 ∷ [])).original_price
      ≡ some 100)
    × ((change_price
          (change_prices (record { price = 100; original_price = none }) (80 ∷ 60 ∷ 90 ∷ []))
          120).original_price
        ≡ none)
change_prices-sale_example = change_prices-sale 100 80 (60 ∷ 90 ∷ []) 120 reduced_twice refl
