-- ===== src/Coupons/Limits.antt =====
-- Redemptions of a coupon: they are counted once each, and stay within the coupon's limits.
use cdk_gpt.Prelude.{
  ℕ, ◌+◌, ◌≤◌, ◌≡◌, refl, Bool, true, false, Option, none, some, List, [], ◌∷◌, ◌++◌, arith, ◌==◌,
  if◌then◌else◌, Text, text_eq, total, count_if, count_if-append, any_row, any_row-count,
  find_first-any_row, find_and_update, find_and_update-some, total-find_and_update, updated_at, inl,
  inr, ◌⊎◌,
}
use cdk_gpt.Store.{
  Db, Coupon, CouponRedemption, ok, err, Result, coupon_unavailable, continue, throw_if, ◌>>◌,
}
use cdk_gpt.Coupons.{
  CouponPricingInput, CouponPricing, price, redeem, record_redemption, count_usage,
  create_redemption, redeemed_by, differs, used_up,
}
use cdk_gpt.Coupons.Discount.{Priced, price-Priced, Named}

-- The uses that the coupons with this id count.
abbrev usage_by : ℕ → Coupon → ℕ
usage_by id c = if c.id == id then c.usage_count else 0

abbrev pub usage_of : ℕ → Db → ℕ
usage_of id s = total (usage_by id) s.coupons

abbrev pub redemptions_of : ℕ → Db → ℕ
redemptions_of id s = count_if (λ r. r.coupon_id == id) s.coupon_redemptions

-- The count of a coupon's uses is its redemptions on record, beside `base` of before.
abbrev pub IsCounted : ℕ → ℕ → Db → Type 0
IsCounted id base s = usage_of id s ≡ base + redemptions_of id s

-- The coupons after one more use of the coupon `k`.
abbrev counted : ℕ → List Coupon → List Coupon
counted k cs =
    elim (find_and_update (λ c. c.id == k) (λ c. record c { usage_count = c.usage_count + 1 }) cs) [
      | none ↦ cs
      | some (c, ds) ↦ ds
    ]

total-counted :
    (k id : ℕ) (cs : List Coupon)
    → any_row (λ x. x.id == k) cs ≡ true
    → total (usage_by id) (counted k cs) ≡ total (usage_by id) cs + (if k == id then 1 else 0)
total-counted k id cs there =
    let q : Coupon → Bool = λ c. c.id == k in
    let f : Coupon → Coupon = λ c. record c { usage_count = c.usage_count + 1 } in
    let ((c, ds), found) = find_and_update-some q f cs (any_row-count q cs there) in
    let moved : total (usage_by id) ds + 0 ≡ total (usage_by id) cs + (if k == id then 1 else 0) =
      updated_at _ _ c ds
        (total-find_and_update (usage_by id) q f 0 (if k == id then 1 else 0) (λ x h. ground arith)
          cs)
        found in
    rw (found, counted) (omega arith)

module _ (input : CouponPricingInput) (quantity : ℕ) (key : Text) (pricing : CouponPricing) where
  abbrev redemption : ℕ → CouponRedemption
  redemption k = record {
    coupon_id = k;
    user_id = input.user_id;
    product_id = input.product_id;
    checkout_key = key;
    quantity = quantity;
    subtotal = pricing.subtotal;
    discount_amount = pricing.discount_amount;
    total_amount = pricing.total_amount;
  }

  record_redemption-some :
      (k : ℕ) (s : Db) (p : CouponPricing) (t : Db)
      → record_redemption input quantity key pricing (some k) s ≡ ok (p, t)
      → (p ≡ pricing)
        × (t.coupons ≡ counted k s.coupons)
        × (t.coupon_redemptions ≡ s.coupon_redemptions ++ redemption k ∷ [])
        × (any_row (λ r. text_eq r.checkout_key key) s.coupon_redemptions ≡ false)
  unfolding record_redemption count_usage create_redemption
  record_redemption-some k s p t e = ground arith

  record_redemption-none :
      (s : Db) (p : CouponPricing) (t : Db)
      → record_redemption input quantity key pricing none s ≡ ok (p, t)
      → (p ≡ pricing) × (t ≡ s)
  unfolding record_redemption
  record_redemption-none s p t e = (ground arith, ground arith)

count_one :
    (p : CouponRedemption → Bool) (r : CouponRedemption)
    → count_if p (r ∷ []) ≡ (if p r then 1 else 0)
unfolding count_if
count_one p r = omega arith

count_one_le : (p : CouponRedemption → Bool) (r : CouponRedemption) → count_if p (r ∷ []) ≤ 1
unfolding count_if
count_one_le p r = ground arith

module _ (input : CouponPricingInput) (quantity : ℕ) (key : Text) (expected : Option ℕ) (s : Db)
    (p : CouponPricing) (t : Db) where
  -- A redemption prices first, in the same database.
  redeem-parts :
      redeem input quantity key expected s ≡ ok (p, t)
      → (q : CouponPricing) × Priced input s q
        × (differs expected q.total_amount ≡ false)
        × (record_redemption input quantity key q q.coupon_id s ≡ ok (p, t))
  unfolding redeem
  redeem-parts e = priced (price input s) refl e
    where
      priced :
          (r : Result (CouponPricing × Db))
          → price input s ≡ r
          → (continue
              (λ q.
                throw_if (differs expected q.total_amount) coupon_unavailable
                >> record_redemption input quantity key q q.coupon_id)
              r)
            ≡ ok (p, t)
          → (q : CouponPricing) × Priced input s q
            × (differs expected q.total_amount ≡ false)
            × (record_redemption input quantity key q q.coupon_id s ≡ ok (p, t))
      priced (err x) h g = cc
      priced (ok (q, u)) h g =
          let (adds, same, good) = price-Priced input s q u h in
          (q, good, ground arith, rw (← same) (ground arith))

  -- Every committed redemption keeps each coupon's count of uses equal to its redemptions on record.
  pub redeem-IsCounted :
      (id base : ℕ)
      → IsCounted id base s
      → redeem input quantity key expected s ≡ ok (p, t)
      → IsCounted id base t
  redeem-IsCounted id base h e =
      let (q, priced, agreed, written) = redeem-parts e in
      elim priced [
        | inl (no_coupon, free) ↦
            let (same, kept) =
              record_redemption-none input quantity key q s p t (rw no_coupon at written) in
            rw kept h
        | inr (c, coupon, discount, least, (code, named, found), within) ↦
            let (same, cs, rs, free) =
              record_redemption-some input quantity key q c.id s p t (rw coupon at written) in
            rw (cs, rs)
              (omega (
                arith,
                h,
                total-counted c.id id s.coupons
                    (find_first-any_row _ (λ x. x.id == c.id) s.coupons c found (ground arith)),
                count_if-append (λ r. r.coupon_id == id) s.coupon_redemptions
                    (redemption input quantity key q c.id ∷ []),
                count_one (λ r. r.coupon_id == id) (redemption input quantity key q c.id),
              ))
      ]

  -- A redemption that commits either is without a coupon and changes nothing, or is under the coupon of the
  -- database that the checkout names, and was allowed: with it counted, the customer has no more uses of
  -- the coupon than its limit for one customer, and the coupon had a use left in all. The checkout had not
  -- redeemed a coupon before. In either case the total is the expected one, if one was named.
  pub redeem_within_limits :
      redeem input quantity key expected s ≡ ok (p, t)
      → ((p.coupon_id ≡ none) × (t ≡ s) × (differs expected p.total_amount ≡ false))
        ⊎ ((c : Coupon) × (p.coupon_id ≡ some c.id)
            × Named input s c
            × (count_if (redeemed_by c.id input.user_id) t.coupon_redemptions ≤ c.per_user_limit)
            × (used_up c.usage_limit c.usage_count ≡ false)
            × (differs expected p.total_amount ≡ false)
            × (any_row (λ r. text_eq r.checkout_key key) s.coupon_redemptions ≡ false))
  redeem_within_limits e =
      let (q, priced, agreed, written) = redeem-parts e in
      elim priced [
        | inl (no_coupon, free) ↦
            let (same, kept) =
              record_redemption-none input quantity key q s p t (rw no_coupon at written) in
            inl (rw same no_coupon, kept, rw same agreed)
        | inr (c, coupon, discount, least, known, (left, under, min_total, enabled, named)) ↦
            let (same, cs, rs, free) =
              record_redemption-some input quantity key q c.id s p t (rw coupon at written) in
            inr (
              c,
              rw same coupon,
              known,
              rw rs (
                  omega (
                    arith,
                    count_if-append (redeemed_by c.id input.user_id) s.coupon_redemptions
                        (redemption input quantity key q c.id ∷ []),
                    count_one_le (redeemed_by c.id input.user_id)
                        (redemption input quantity key q c.id),
                  )),
              left,
              rw same agreed,
              free,
            )
      ]
