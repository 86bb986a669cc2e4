-- ===== src/Payment/Checkout/Same.antt =====
-- The request that `createBankCheckout` answers with.
use cdk_gpt.Prelude.{
  ℕ, int, pos, Number, Text, text_eq→eq, eq_text?, Option, none, ap, inl, inr, ◌⊎◌, refl, ◌≡◌, Bool,
  true, false, ◌&&◌, not, is_some, is_none, some, arith,
}
use cdk_gpt.Store.{
  Db, PaymentRequest, QuickCheckout, Provider, ok, idempotency_conflict, invalid_payment_request,
  throw_if, pure, ◌>>◌,
}
use cdk_gpt.Store.Rules.{
  Always, Triple-known, Triple, Triple-bind, Triple-check, Triple-found, Triple-value, Triple-pure,
  committed_at,
}
use cdk_gpt.Coupons.{normalize_coupon_code}
use cdk_gpt.Purchase.{IdText, object_id, object_id_of, natural_safe}
use cdk_gpt.Payment.{is_bank}
use cdk_gpt.Payment.Checkout.{
  BankSetting, CheckoutInput, is_id, is_number, is_total, same_checkout, assert_same_checkout,
  checkout_once, create_bank_checkout,
}
use cdk_gpt.Payment.Checkout.Keyed.{kept-Keyed, found_or_new-Keyed, checkout_once-Keyed}

is_id→eq : (n : ℕ) (i : IdText) → is_id n i ≡ true → i ≡ object_id n
is_id→eq n i h = ground arith

is_number→eq : (n : ℕ) (k : Number) → is_number n k ≡ true → k ≡ int (pos n)
is_number→eq n k h = ground arith

is_bank→eq : (p : Provider) → is_bank p ≡ true → p ≡ Provider.bank_api
is_bank→eq p h = ground arith

eq_text?→eq : (a b : Option Text) → eq_text? a b ≡ true → a ≡ b
unfolding eq_text?
eq_text?→eq none none h = refl
eq_text?→eq none (some b) h = cc
eq_text?→eq (some a) none h = cc
eq_text?→eq (some a) (some b) h = ap some (text_eq→eq a b h)

is_total→eq :
    (n : ℕ) (k : Option Number) → is_total n k ≡ true → (k ≡ none) ⊎ (k ≡ some (int (pos n)))
is_total→eq n none h = inl refl
is_total→eq n (some k) h = inr (ap some (is_number→eq n k h))

-- The request asks for what the input asks for: it is of the customer, at the bank, and its checkout is of
-- the product, quantity, unit price and coupon, and of the total if one is named.
abbrev pub AsksFor : CheckoutInput → PaymentRequest → QuickCheckout → Type 0
AsksFor input r c =
    (input.user_id ≡ object_id r.user_id)
    × (r.provider ≡ Provider.bank_api)
    × (input.product_id ≡ object_id c.product_id)
    × (input.quantity ≡ int (pos c.quantity))
    × (input.expected_unit_price ≡ int (pos c.unit_price))
    × (c.coupon_code ≡ normalize_coupon_code input.coupon_code)
    × ((input.expected_total_amount ≡ none)
        ⊎ (input.expected_total_amount ≡ some (int (pos c.total_amount))))
    × (r.amount ≡ c.total_amount)

same_checkout-parts :
    (r : PaymentRequest) (input : CheckoutInput) (c : QuickCheckout)
    → same_checkout r input c ≡ true
    → (is_id r.user_id input.user_id ≡ true)
      × (is_bank r.provider ≡ true)
      × (is_id c.product_id input.product_id ≡ true)
      × (is_number c.quantity input.quantity ≡ true)
      × (is_number c.unit_price input.expected_unit_price ≡ true)
      × (eq_text? c.coupon_code (normalize_coupon_code input.coupon_code) ≡ true)
      × (is_total c.total_amount input.expected_total_amount ≡ true)
      × (r.amount ≡ c.total_amount)
same_checkout-parts r input c h = ground (arith, h)

same_checkout-AsksFor :
    (r : PaymentRequest) (input : CheckoutInput) (c : QuickCheckout)
    → same_checkout r input c ≡ true
    → AsksFor input r c
same_checkout-AsksFor r input c h =
    let (one, two, three, four, five, six, seven, eight) = same_checkout-parts r input c h in
    (
      is_id→eq r.user_id input.user_id one,
      is_bank→eq r.provider two,
      is_id→eq c.product_id input.product_id three,
      is_number→eq c.quantity input.quantity four,
      is_number→eq c.unit_price input.expected_unit_price five,
      eq_text?→eq c.coupon_code (normalize_coupon_code input.coupon_code) six,
      is_total→eq c.total_amount input.expected_total_amount seven,
      eight,
    )

-- What the customer is told to pay for.
abbrev Asked : CheckoutInput → PaymentRequest → Type 0
Asked input r =
    (c : QuickCheckout) × (r.metadata.quick_checkout ≡ some c)
    × AsksFor input r c
    × (r.idempotency_key ≡ input.idempotency_key)

refused_or_same :
    (input : CheckoutInput) (r : PaymentRequest) (c : QuickCheckout) (b : Bool)
    → r.metadata.quick_checkout ≡ some c
    → same_checkout r input c ≡ b
    → r.idempotency_key ≡ input.idempotency_key
    → Triple Always (throw_if (not b) idempotency_conflict >> pure r) (λ x t. Asked input x)
refused_or_same input r c true e h k =
    Triple-pure r (λ s p. (c, e, same_checkout-AsksFor r input c h, k))
refused_or_same input r c false e h k = record { run = λ s p. tt }

assert_same_checkout-Asked :
    (input : CheckoutInput) (r : PaymentRequest)
    → r.idempotency_key ≡ input.idempotency_key
    → Triple Always (assert_same_checkout input r) (λ x t. Asked input x)
unfolding assert_same_checkout
assert_same_checkout-Asked input r k =
    Triple-value r.metadata.quick_checkout idempotency_conflict
      (λ c. throw_if (not (same_checkout r input c)) idempotency_conflict >> pure r)
      λ c e. refused_or_same input r c (same_checkout r input c) e refl k

create_bank_checkout-Asked :
    (bank : BankSetting) (input : CheckoutInput)
    → Triple Always (create_bank_checkout bank input) (λ x t. Asked input x)
unfolding create_bank_checkout
create_bank_checkout-Asked bank input =
    Triple-bind
      (Triple-check
        (is_some (normalize_coupon_code input.coupon_code) && is_none input.expected_total_amount)
        invalid_payment_request)
      λ priced.
        Triple-bind (Triple-found invalid_payment_request (object_id_of input.user_id)) λ user_id.
          Triple-bind (Triple-found invalid_payment_request (object_id_of input.product_id))
            λ product_id.
              Triple-bind
                (Triple-found invalid_payment_request (natural_safe input.expected_unit_price))
                λ price. Triple-bind (kept-Keyed input) λ prior.
                  Triple-bind
                    (found_or_new-Keyed input (checkout_once bank input user_id) prior
                      (checkout_once-Keyed bank input user_id))
                    λ r. Triple-known (assert_same_checkout-Asked input r)

-- A bank checkout that answers, with a new request or with an earlier one under its key, answers with a
-- request at the bank that has the key, of which the checkout is of this customer, for this product, quantity, unit price and
-- coupon, and of the total that was confirmed, if one was named; the amount to transfer is that total.
pub create_bank_checkout_asks :
    (bank : BankSetting) (input : CheckoutInput) (s : Db) (r : PaymentRequest) (t : Db)
    → create_bank_checkout bank input s ≡ ok (r, t)
    → (c : QuickCheckout) × (r.metadata.quick_checkout ≡ some c)
      × AsksFor input r c
      × (r.idempotency_key ≡ input.idempotency_key)
create_bank_checkout_asks bank input s r t e =
    committed_at (create_bank_checkout-Asked bank input) s tt r t e
