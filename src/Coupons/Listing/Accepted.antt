-- ===== src/Coupons/Listing/Accepted.antt =====
-- What the bot shows is what a checkout accepts.
use cdk_gpt.Prelude.{
  ℕ, ◌-◌, ◌≡◌, refl, Bool, true, false, some, List, [], ◌∷◌, ◌++◌, ltb, find_all, find_first, arith,
  Bool-cases, inl, inr, ◌⊎◌, ◌↔◌, text_eq,
}
use mathlib.Core.List.{reverse, reverse-append}
use cdk_gpt.Store.{Db, Coupon, ok}
use cdk_gpt.Coupons.{
  CouponPricingInput, CouponPricing, price, price_code, price_with, find_coupon,
  normalize_coupon_code, names, discount_of,
}
use cdk_gpt.Coupons.Listing.{available_coupons, is_offered, used_by}

-- The coupon is in the list.
abbrev pub In : Coupon → List Coupon → Type 0
In c [] = ⊥
In c (x ∷ xs) = (x ≡ c) ⊎ In c xs

module _ (p : Coupon → Bool) (c : Coupon) where
  kept :
      (x : Coupon) (xs : List Coupon)
      → p x ≡ true
      → (In c (find_all p xs) → In c xs × (p c ≡ true))
      → In c (x ∷ find_all p xs)
      → In c (x ∷ xs) × (p c ≡ true)
  kept x xs hit rest (inl e) = (inl e, rw (← e) hit)
  kept x xs hit rest (inr j) = let (i', h) = rest j in (inr i', h)

  In-find_all : (xs : List Coupon) → In c (find_all p xs) → In c xs × (p c ≡ true)
  unfolding find_all
  In-find_all [] i = absurd i
  In-find_all (x ∷ xs) i = elim (Bool-cases (p x)) [
    | inl hit ↦ kept x xs hit (In-find_all xs) (rw hit at i)
    | inr miss ↦ let (i', h) = In-find_all xs (rw miss at i) in (inr i', h)
  ]

  find_all-In : (xs : List Coupon) → In c xs → p c ≡ true → In c (find_all p xs)
  unfolding find_all
  find_all-In [] i h = absurd i
  find_all-In (x ∷ xs) (inl e) h = let hit : p x ≡ true = rw e h in rw hit (inl e)
  find_all-In (x ∷ xs) (inr i) h = elim (Bool-cases (p x)) [
    | inl hit ↦ rw hit (inr (find_all-In xs i h))
    | inr miss ↦ rw miss (find_all-In xs i h)
  ]

In-append_right : (c : Coupon) (xs ys : List Coupon) → In c ys → In c (xs ++ ys)
In-append_right c [] ys i = i
In-append_right c (x ∷ xs) ys i = inr (In-append_right c xs ys i)

In-append_left : (c : Coupon) (xs ys : List Coupon) → In c xs → In c (xs ++ ys)
In-append_left c [] ys i = absurd i
In-append_left c (x ∷ xs) ys (inl e) = inl e
In-append_left c (x ∷ xs) ys (inr i) = inr (In-append_left c xs ys i)

In-reverse : (c : Coupon) (xs : List Coupon) → In c xs → In c (reverse xs)
In-reverse c [] i = i
In-reverse c (x ∷ xs) (inl e) =
    rw (reverse-append (x ∷ []) xs) (In-append_right c (reverse xs) (x ∷ []) (inl e))
In-reverse c (x ∷ xs) (inr i) =
    rw (reverse-append (x ∷ []) xs) (In-append_left c (reverse xs) (x ∷ []) (In-reverse c xs i))

-- What the coupon itself asks of a checkout of the product.
abbrev pub Fits : Coupon → CouponPricingInput → Type 0
Fits c input =
    (names c.product_ids input.product_id ≡ true)
    × (ltb input.subtotal c.min_subtotal ≡ false)
    × (ltb (discount_of c input.subtotal) 1 ≡ false)

-- The pricing of a checkout that a coupon accepts.
abbrev pub pricing_of : Coupon → CouponPricingInput → CouponPricing
pricing_of c input = record {
  subtotal = input.subtotal;
  discount_amount = discount_of c input.subtotal;
  total_amount = input.subtotal - discount_of c input.subtotal;
  coupon_code = some c.code;
  coupon_id = some c.id;
}

offered-price :
    (c : Coupon) (input : CouponPricingInput) (s : Db)
    → Fits c input
    → is_offered s.now c ≡ true
    → ltb (used_by input.user_id s.coupon_redemptions c) c.per_user_limit ≡ true
    → price_with input c s ≡ ok (pricing_of c input, s)
unfolding price_with
offered-price c input s f h k = ground arith

price-offered :
    (c : Coupon) (input : CouponPricingInput) (s t : Db) (p : CouponPricing)
    → price_with input c s ≡ ok (p, t)
    → (is_offered s.now c ≡ true)
      × (ltb (used_by input.user_id s.coupon_redemptions c) c.per_user_limit ≡ true)
unfolding price_with
price-offered c input s t p h = ground arith

listed_parts :
    (user_id : ℕ) (s : Db) (c : Coupon)
    → In c (available_coupons user_id s)
    → (is_offered s.now c ≡ true)
      × (ltb (used_by user_id s.coupon_redemptions c) c.per_user_limit ≡ true)
unfolding available_coupons
listed_parts user_id s c i =
    let (offered, within) =
      In-find_all (λ (x : Coupon). ltb (used_by user_id s.coupon_redemptions x) x.per_user_limit) c
        (find_all (is_offered s.now) (reverse s.coupons)) i in
    ((In-find_all (is_offered s.now) c (reverse s.coupons) offered).1, within)

parts_listed :
    (user_id : ℕ) (s : Db) (c : Coupon)
    → In c s.coupons
    → is_offered s.now c ≡ true
    → ltb (used_by user_id s.coupon_redemptions c) c.per_user_limit ≡ true
    → In c (available_coupons user_id s)
unfolding available_coupons
parts_listed user_id s c i h k =
    find_all-In _ c (find_all (is_offered s.now) (reverse s.coupons))
      (find_all-In (is_offered s.now) c (reverse s.coupons) (In-reverse c s.coupons i) h) k

price_code_found :
    (c : Coupon) (input : CouponPricingInput) (s : Db)
    → find_first (λ (x : Coupon). text_eq x.code c.code) s.coupons ≡ some c
    → normalize_coupon_code input.coupon_code ≡ some c.code
    → price input s ≡ price_with input c s
unfolding price price_code find_coupon
price_code_found c input s found named = rw (named, price_code) (rw found refl)

-- The listing of coupons agrees with the checkout: of the coupons in the database, of which `c` is the one
-- that its code finds, the bot lists `c` to a customer exactly when a checkout of that customer under the
-- code is priced with the discount of `c`, for every product and subtotal that `c` is for.
pub listed_iff_accepted :
    (c : Coupon) (input : CouponPricingInput) (s : Db)
    → In c s.coupons
    → find_first (λ (x : Coupon). text_eq x.code c.code) s.coupons ≡ some c
    → normalize_coupon_code input.coupon_code ≡ some c.code
    → Fits c input
    → In c (available_coupons input.user_id s) ↔ (price input s ≡ ok (pricing_of c input, s))
listed_iff_accepted c input s there found named fits = rw (price_code_found c input s found named) (
  λ i. let (h, k) = listed_parts input.user_id s c i in offered-price c input s fits h k,
  λ e.
      let (h, k) = price-offered c input s s (pricing_of c input) e in
      parts_listed input.user_id s c there h k,
)
