-- ===== src/Purchase/Single/Replay.antt =====
-- A repeated `purchase` with the same key.
use mathlib.Core.Path.{subst}
use cdk_gpt.Prelude.{
  ℕ, ◌+◌, ◌≡◌, refl, Bool, true, false, ◌&&◌, not, Option, none, some, List, [], ◌∷◌, ◌++◌, arith,
  ◌==◌, ltb, find_first, find_and_update, Updated, Option-cases, inl, inr, text_eq_refl,
}
use cdk_gpt.Store.{
  Db, User, Product, Order, WalletTransaction, Tx, Result, ok, err, duplicate_key, out_of_stock,
  insufficient_balance, user_inactive, product_unavailable, price_changed, throw_if, ◌>>◌, new_id,
}
use cdk_gpt.Store.Rules.{
  Committed, Present, Triple, Triple-bind, Triple-require, Triple-gets, Triple-pure, Triple-check,
  Triple-guard,
}
use cdk_gpt.Users.{find_active, lock_for_checkout, debit, update_user}
use cdk_gpt.Wallet
use cdk_gpt.Inventory.{
  reserve_one, release_expired_payment_reservations_for_product, count_active_payment_reservations,
  update_item, update_items,
}
use cdk_gpt.Orders.{
  find_order_by_key, order_has_key, create_order, update_order, attach_wallet_transaction,
}
use cdk_gpt.Purchase.{count_purchases, product_on_sale, find_product, order_code, reservation_ms}
use cdk_gpt.Purchase.Single.{
  PurchaseInput, confirm, same_request, check_purchase_limit, order_product, purchase_new,
  confirm_or, recover, purchase_once, purchase_one, single_charge, single_order,
}

-- The first order with the key is for the request, and it is the order `id`.
abbrev answers : PurchaseInput → ℕ → Option Order → Bool
answers input id none = false
answers input id (some o) = same_request input o && o.id == id

answers-Updated :
    (input : PurchaseInput) (order_id : ℕ) (p : Order → Bool) (id : ℕ) (xs : List Order)
    → answers input order_id (find_first (order_has_key input.idempotency_key) xs) ≡ true
    → Updated
        (λ y ys.
          answers input order_id (find_first (order_has_key input.idempotency_key) ys) ≡ true)
        (find_and_update p (λ o. record o { wallet_transaction_id = some id }) xs)
unfolding find_first find_and_update
answers-Updated input order_id p id [] h = tt
answers-Updated input order_id p id (x ∷ xs) h =
    ground (arith, answers-Updated input order_id p id xs)

answers-append :
    (input : PurchaseInput) (o : Order) (xs : List Order)
    → o.idempotency_key ≡ input.idempotency_key
    → same_request input o ≡ true
    → find_first (order_has_key input.idempotency_key) xs ≡ none
    → answers input o.id (find_first (order_has_key input.idempotency_key) (xs ++ o ∷ [])) ≡ true
unfolding find_first
answers-append input o [] k h e = ground (arith, k, text_eq_refl input.idempotency_key)
answers-append input o (x ∷ xs) k h e = ground (arith, answers-append input o xs k h)

module _ (input : PurchaseInput) where
  -- No order has the key yet, or the first that has it is for the request.
  abbrev Fresh : Db → Type 0
  Fresh s = find_first (order_has_key input.idempotency_key) s.orders ≡ none

  abbrev Answered : ℕ → Db → Type 0
  Answered id s =
      answers input id (find_first (order_has_key input.idempotency_key) s.orders) ≡ true

  active-Fresh : (id : ℕ) → Triple Fresh (find_active id) (Present (λ x. Fresh))
  unfolding find_active
  active-Fresh id = record { run = λ s p. ground arith }

  lock-Fresh : (id : ℕ) → Triple Fresh (lock_for_checkout id) (λ x. Fresh)
  unfolding lock_for_checkout update_user
  lock-Fresh id = record { run = λ s p. ground arith }

  product-Fresh : (p : Product → Bool) → Triple Fresh (find_product p) (Present (λ x. Fresh))
  unfolding find_product
  product-Fresh p = record { run = λ s p. ground arith }

  limit-Fresh : (limit : ℕ) → Triple Fresh (check_purchase_limit input limit) (λ x. Fresh)
  unfolding check_purchase_limit release_expired_payment_reservations_for_product update_items
      count_active_payment_reservations count_purchases
  limit-Fresh limit = record { run = λ s p. ground arith }

  new_id-Fresh : Triple Fresh new_id (λ x. Fresh)
  new_id-Fresh = record { run = λ s p. p }

  order_code-Fresh : Triple Fresh order_code (λ x. Fresh)
  unfolding order_code
  order_code-Fresh = Triple-gets _ (λ s p. p)

  release-Fresh :
      (id : ℕ) → Triple Fresh (release_expired_payment_reservations_for_product id) (λ x. Fresh)
  unfolding release_expired_payment_reservations_for_product update_items
  release-Fresh id = record { run = λ s p. p }

  reserve-Fresh :
      (order_id expires_at : ℕ)
      → Triple Fresh
          (reserve_one input.product_id input.user_id order_id expires_at)
          (Present (λ x. Fresh))
  unfolding reserve_one update_item
  reserve-Fresh order_id expires_at = record { run = λ s p. ground arith }

  create_order-Answered :
      (o : Order)
      → o.idempotency_key ≡ input.idempotency_key
      → same_request input o ≡ true
      → Triple Fresh (create_order o) (λ x. Answered x.id)
  unfolding create_order
  create_order-Answered o k h = record {
    run = λ s p. ground (arith, answers-append input o s.orders k h p);
  }

  debit-Answered :
      (order_id id amount : ℕ)
      → Triple (Answered order_id) (debit id amount) (Present (λ x. Answered order_id))
  unfolding debit update_user
  debit-Answered order_id id amount = record { run = λ s p. ground arith }

  create-Answered :
      (order_id : ℕ) (row : WalletTransaction)
      → Triple (Answered order_id) (Wallet.create row) (λ x. Answered order_id)
  unfolding Wallet.create
  create-Answered order_id row = record { run = λ s p. ground arith }

  attach-Answered :
      (order_id id : ℕ)
      → Triple (Answered order_id) (attach_wallet_transaction order_id id) (λ x. Answered order_id)
  unfolding attach_wallet_transaction update_order
  attach-Answered order_id id = record {
    run =
        λ s p. ground (arith, answers-Updated input order_id (λ o. o.id == order_id) id s.orders p);
  }

  order_product-Answered :
      (buyer : User) (product : Product)
      → (not (product.price == input.expected_unit_price)) ≡ false
      → Triple Fresh (order_product input buyer product) (λ x. Answered x.id)
  unfolding order_product
  order_product-Answered buyer product same_price = Triple-bind new_id-Fresh λ order_id.
      Triple-bind (release-Fresh input.product_id) λ freed.
        Triple-bind (Triple-gets (λ s. s.now) (λ s p. p)) λ now.
          Triple-require out_of_stock (reserve-Fresh order_id (now + reservation_ms)) λ item.
            Triple-bind order_code-Fresh λ code.
              Triple-bind
                (create_order-Answered (single_order input product order_id code item.id) refl
                  (ground arith))
                λ o.
                  Triple-require insufficient_balance
                    (debit-Answered o.id input.user_id product.price)
                    λ debited.
                      Triple-bind
                        (create-Answered o.id (single_charge input buyer debited product.price o))
                        λ made. Triple-bind (attach-Answered o.id made.id) λ x.
                          Triple-pure (record o { wallet_transaction_id = some made.id }) (λ s p. p)

  purchase_new-Answered : Triple Fresh (purchase_new input) (λ x. Answered x.id)
  unfolding purchase_new
  purchase_new-Answered = Triple-require user_inactive (active-Fresh input.user_id) λ buyer.
      Triple-bind (lock-Fresh input.user_id) λ locked.
        Triple-require product_unavailable (product-Fresh (product_on_sale input.product_id))
          λ product.
            Triple-guard (not (product.price == input.expected_unit_price)) price_changed
              (do
                throw_if (ltb buyer.wallet_balance product.price) insufficient_balance
                check_purchase_limit input product.purchase_limit_per_user
                order_product input buyer product)
              λ same_price.
                Triple-bind
                  (Triple-check (ltb buyer.wallet_balance product.price) insufficient_balance)
                  λ covered.
                    Triple-bind (limit-Fresh product.purchase_limit_per_user)
                      λ checked. order_product-Answered buyer product same_price

  confirm_or-Answered :
      (otherwise : Tx Order) (s : Db)
      → (Fresh s → Committed (λ x. Answered x.id) (otherwise s))
      → Committed
          (λ x. Answered x.id)
          (confirm_or input otherwise (find_first (order_has_key input.idempotency_key) s.orders) s)
  unfolding confirm_or confirm
  confirm_or-Answered otherwise s h =
      elim (Option-cases (find_first (order_has_key input.idempotency_key) s.orders)) [
        | inl none_there ↦ rw none_there (h none_there)
        | inr (o, found) ↦ ground arith
      ]

  recover-Answered :
      (r : Result (Order × Db)) (s : Db)
      → Committed (λ x. Answered x.id) r
      → Committed (λ x. Answered x.id) (recover input r s)
  unfolding recover
  recover-Answered (ok (o, t)) s c = c
  recover-Answered (err duplicate_key) s c =
      confirm_or-Answered (λ x. err duplicate_key) s (λ e. tt)
  recover-Answered (err e) s c = ground arith

  purchase_one-Answered : (s : Db) → Committed (λ x. Answered x.id) (purchase_one input s)
  unfolding purchase_one find_order_by_key purchase_once
  purchase_one-Answered s =
      confirm_or-Answered (λ x. recover input (purchase_once input x) x) s
        λ none_there.
          recover-Answered (purchase_once input s) s
            (confirm_or-Answered (purchase_new input) s (purchase_new-Answered.run s))

  again :
      (t : Db) (id : ℕ)
      → Answered id t
      → (o : Order) × (o.id ≡ id) × (purchase_one input t ≡ ok (o, t))
  unfolding purchase_one find_order_by_key confirm_or confirm
  again t id h = elim (Option-cases (find_first (order_has_key input.idempotency_key) t.orders)) [
    | inl none_there ↦ ground arith
    | inr (o, found) ↦ (o, ground arith, ground arith)
  ]

  -- A purchase that has succeeded can be asked for again: the second request with the same key
  -- and the same content answers with the same order, and changes nothing.
  pub purchase_one_replay :
      (s t : Db) (o : Order)
      → purchase_one input s ≡ ok (o, t)
      → (x : Order) × (x.id ≡ o.id) × (purchase_one input t ≡ ok (x, t))
  purchase_one_replay s t o e =
      again t o.id (subst (Committed (λ x. Answered x.id)) e (purchase_one-Answered s))
