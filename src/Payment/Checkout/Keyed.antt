-- ===== src/Payment/Checkout/Keyed.antt =====
-- The request that a bank checkout finds or makes has the key of the checkout.
use cdk_gpt.Prelude.{
  find_first, find_first_passes, Option-cases, ltb, any_row, codes, ◌++◌, ℕ, Text, text_eq→eq,
  Option, none, inl, inr, ◌⊎◌, refl, ◌≡◌, true, some, arith,
}
use cdk_gpt.Store.{
  Tx, Result, Db, PaymentRequest, Provider, idempotency_conflict, invalid_payment_request, ◌>>=◌,
  or_throw, payment_not_found,
}
use cdk_gpt.Store.Rules.{
  Always, Committed, Present, Triple-gets, Triple, Triple-bind, Triple-check, Triple-found,
  Triple-any,
}
use cdk_gpt.Purchase.{in_range, validate_batch_input, natural_safe}
use cdk_gpt.Purchase.Quote.{quote_batch_for_payment}
use cdk_gpt.Payment.{find_request}
use cdk_gpt.Payment.Requests.{insert_request, payment_code, new_request}
use cdk_gpt.Payment.Checkout.{
  new_checkout, quote_input, open_checkout, checkout_metadata, recover_checkout, BankSetting,
  CheckoutInput, kept_with_key, found_or_new, checkout_once,
}

-- The request has the key of the input.
abbrev pub Keyed : CheckoutInput → PaymentRequest → Db → Type 0
Keyed input r t = r.idempotency_key ≡ input.idempotency_key

pub kept-Keyed :
    (input : CheckoutInput)
    → Triple Always (find_request (kept_with_key input.idempotency_key)) (Present (Keyed input))
unfolding find_request
kept-Keyed input = record {
  run = λ s p.
      found s (Option-cases (find_first (kept_with_key input.idempotency_key) s.payment_requests));
}
  where
    found :
        (s : Db)
        → (find_first (kept_with_key input.idempotency_key) s.payment_requests ≡ none)
          ⊎ ((r : PaymentRequest) × (find_first
                  (kept_with_key input.idempotency_key)
                  s.payment_requests
                ≡ some r))
        → Present
            (Keyed input)
            (find_first (kept_with_key input.idempotency_key) s.payment_requests)
            s
    found s (inl missing) = rw missing tt
    found s (inr (r, there)) =
        let passes : kept_with_key input.idempotency_key r ≡ true =
          find_first_passes (kept_with_key input.idempotency_key) s.payment_requests r there in
        rw there (text_eq→eq r.idempotency_key input.idempotency_key (ground (arith, passes)))

pub found_or_new-Keyed :
    (input : CheckoutInput) (otherwise : Tx PaymentRequest) (o : Option PaymentRequest)
    → Triple Always otherwise (Keyed input)
    → Triple (Present (Keyed input) o) (found_or_new otherwise o) (Keyed input)
unfolding found_or_new
found_or_new-Keyed input otherwise none h = record { run = λ s p. h.run s tt }
found_or_new-Keyed input otherwise (some r) h = record { run = λ s p. p }

insert_request-Keyed :
    (input : CheckoutInput) (make : ℕ → Text → PaymentRequest)
    → ((id : ℕ) (code : Text) → (make id code).idempotency_key ≡ input.idempotency_key)
    → Triple Always (insert_request input.idempotency_key make) (Keyed input)
unfolding insert_request
insert_request-Keyed input make h = record {
  run = λ s p. ground (arith, h s.next_id (payment_code s));
}

new_checkout-Keyed :
    (bank : BankSetting) (input : CheckoutInput) (user_id : ℕ) (code : Text)
    → Triple Always (new_checkout bank input user_id code) (Keyed input)
unfolding new_checkout
new_checkout-Keyed bank input user_id code =
    Triple-bind (Triple-any (validate_batch_input (quote_input input))) λ b.
      Triple-bind (Triple-any (quote_batch_for_payment b)) λ quote.
        Triple-bind (Triple-check (ltb quote.total_amount 1) invalid_payment_request) λ worth.
          Triple-bind (Triple-gets (λ s. s.now) (λ s p. p)) λ now.
            Triple-bind
              (Triple-gets (λ s. any_row (open_checkout user_id s.now) s.payment_requests)
                (λ s p. p))
              λ waiting. Triple-bind (Triple-check waiting idempotency_conflict) λ free.
                insert_request-Keyed input
                  (λ id drawn.
                    new_request user_id quote.total_amount Provider.bank_api none
                      input.idempotency_key (checkout_metadata bank quote now code) id code)
                  λ id drawn. refl

or_throw-Keyed :
    (input : CheckoutInput) (o : Option PaymentRequest)
    → Triple (Present (Keyed input) o) (or_throw payment_not_found o) (Keyed input)
or_throw-Keyed input none = record { run = λ s p. tt }
or_throw-Keyed input (some r) = record { run = λ s p. p }

-- The catch clause looks under the key.
recover_checkout-Keyed :
    (input : CheckoutInput) (m : Tx PaymentRequest)
    → Triple Always m (Keyed input)
    → Triple Always (λ s. recover_checkout input.idempotency_key (m s) s) (Keyed input)
unfolding recover_checkout
recover_checkout-Keyed input m h = record { run = λ s p. recovered s (m s) (h.run s tt) }
  where
    recovered :
        (s : Db) (x : Result (PaymentRequest × Db))
        → Committed (Keyed input) x
        → Committed (Keyed input) (recover_checkout input.idempotency_key x s)
    recovered s x c =
        let again : Committed (Keyed input) (
            (find_request (kept_with_key input.idempotency_key) >>= or_throw payment_not_found) s) =
          (Triple-bind (kept-Keyed input) (or_throw-Keyed input)).run s tt in
        ground (arith, again)

pub checkout_once-Keyed :
    (bank : BankSetting) (input : CheckoutInput) (user_id : ℕ)
    → Triple Always (checkout_once bank input user_id) (Keyed input)
unfolding checkout_once
checkout_once-Keyed bank input user_id =
    Triple-bind
      (Triple-found invalid_payment_request (in_range 1 100 (natural_safe input.quantity)))
      λ quantity.
        Triple-bind (Triple-gets (λ s. codes "DON" ++ s.draw s.next_id) (λ s p. tt)) λ code.
          recover_checkout-Keyed input
            (find_request (kept_with_key input.idempotency_key)
              >>= found_or_new (new_checkout bank input user_id code))
            (Triple-bind (kept-Keyed input) λ o.
              found_or_new-Keyed input (new_checkout bank input user_id code) o
                (new_checkout-Keyed bank input user_id code))
