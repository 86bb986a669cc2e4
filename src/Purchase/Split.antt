-- ===== src/Purchase/Split.antt =====
-- The discount of a batch, dealt out to its orders.
use native.Mathlib.Nat.{mul-le-mul_right, div-add-mod}
use cdk_gpt.Prelude.{
  ℕ, zero, suc, ◌+◌, ◌*◌, ◌/◌, ◌%◌, ◌≤◌, ◌<◌, ◌≡◌, ap, Bool-cases, ltb→lt, inl, inr, arith, ltb,
  if◌then◌else◌,
}

-- Order `index` of a batch of `quantity` bears the quotient, and one more while the remainder lasts.
unfoldable pub discount_share : ℕ → ℕ → ℕ → ℕ
discount_share discount quantity index =
    discount / quantity + (if ltb index (discount % quantity) then 1 else 0)

-- The shares of `n` orders from `index` on.
unfoldable pub shares_from : ℕ → ℕ → ℕ → ℕ → ℕ
shares_from discount quantity index zero = 0
shares_from discount quantity index (suc n) =
    discount_share discount quantity index + shares_from discount quantity (index + 1) n

shares_from-closed :
    (discount quantity index n : ℕ)
    → shares_from discount quantity index n
        + index * (discount / quantity)
        + (if ltb index (discount % quantity) then index else discount % quantity)
      ≡ (index + n) * (discount / quantity)
        + (if ltb (index + n) (discount % quantity) then index + n else discount % quantity)
unfolding shares_from discount_share
shares_from-closed d q index zero = ground arith
shares_from-closed d q index (suc n) = ground (arith, shares_from-closed d q (index + 1) n)

-- The shares of the orders of a batch add up to the discount: nothing is lost or made in rounding.
pub shares_from_all :
    (discount quantity : ℕ) → 0 < quantity → shares_from discount quantity 0 quantity ≡ discount
shares_from_all d q h = ground (arith, shares_from-closed d q 0 q)

share-le : (d q price i : ℕ) → 0 < q → d ≤ price * q → discount_share d q i ≤ price
unfolding discount_share
share-le d q price i h b = elim (Bool-cases (ltb (d / q) price)) [
  | inl below ↦ ground arith
  | inr not_below ↦ elim (Bool-cases (ltb price (d / q))) [
    | inl above ↦ absurd (
        omega (
          arith,
          mul-le-mul_right {m = suc price} {n = d / q} q (ltb→lt _ _ above),
          div-add-mod d q,
        ))
    | inr equal ↦
        let same : d / q ≡ price = ground arith in
        let nothing_left : d % q ≡ 0 = omega (arith, div-add-mod d q, ap (λ (t : ℕ). q * t) same) in
        rw (nothing_left, same) (ground arith)
  ]
]

-- A share is at most the price of a unit, if the discount is at most the price of the batch; and the
-- shares of two orders differ by one at most.
pub discount_share_bounds :
    (discount quantity price i j : ℕ)
    → 0 < quantity
    → discount ≤ price * quantity
    → (discount_share discount quantity i ≤ price)
      × (discount_share discount quantity i ≤ discount_share discount quantity j + 1)
unfolding discount_share
discount_share_bounds d q price i j h b = (share-le d q price i h b, ground arith)
