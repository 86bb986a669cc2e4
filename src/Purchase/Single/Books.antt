-- ===== src/Purchase/Single/Books.antt =====
-- `purchase` keeps the books: what leaves the wallet is on record.
use cdk_gpt.Prelude.{ℕ, ◌≡◌, not, Option, none, some, arith, ◌==◌, ltb, List}
use cdk_gpt.Store.{
  Db, User, Product, Order, Tx, Result, ok, out_of_stock, insufficient_balance, user_inactive,
  product_unavailable, price_changed, idempotency_conflict,
}
use cdk_gpt.Store.Rules.{
  Committed, Triple-bind, Triple-require, Triple-gets, Triple-pure, Triple-check, Triple-weaken,
  committed_at,
}
use cdk_gpt.Users.Totals.{balance_of}
use cdk_gpt.Wallet.Ledger.{Reconciled, create-Reconciled, credits_of, debits_of}
use cdk_gpt.Inventory.{
  reserve_one, release_expired_payment_reservations_for_product, count_active_payment_reservations,
  update_item, update_items,
}
use cdk_gpt.Orders.{find_order_by_key}
use cdk_gpt.Purchase.{count_purchases, product_on_sale}
use cdk_gpt.Purchase.Books.{
  Kept, KeptIfFound, find_active-Kept, lock_for_checkout-Kept, find_product-Kept, create_order-Kept,
  debit-Owes, attach-Kept, new_id-Kept, order_code-Kept,
}
use cdk_gpt.Purchase.Single.{
  PurchaseInput, confirm, same_request, check_purchase_limit, order_product, purchase_new,
  confirm_or, recover, purchase_once, purchase_one, single_charge,
}

module _ (u opening : ℕ) where
  release-Kept : (id : ℕ) → Kept u opening (release_expired_payment_reservations_for_product id)
  unfolding release_expired_payment_reservations_for_product update_items balance_of credits_of
      debits_of
  release-Kept id = record { run = λ s p. p }

  reserve_one-Kept :
      (product_id user_id order_id expires_at : ℕ)
      → KeptIfFound u opening (reserve_one product_id user_id order_id expires_at)
  unfolding reserve_one update_item balance_of credits_of debits_of
  reserve_one-Kept product_id user_id order_id expires_at = record { run = λ s p. ground arith }

  check_purchase_limit-Kept :
      (input : PurchaseInput) (limit : ℕ) → Kept u opening (check_purchase_limit input limit)
  unfolding check_purchase_limit release_expired_payment_reservations_for_product update_items
      count_active_payment_reservations count_purchases balance_of credits_of debits_of
  check_purchase_limit-Kept input limit = record { run = λ s p. ground arith }

  find_order-Kept : (key : List ℕ) → Kept u opening (find_order_by_key key)
  unfolding find_order_by_key
  find_order-Kept key = Triple-gets _ (λ s p. p)

  order_product-Kept :
      (input : PurchaseInput) (buyer : User) (product : Product)
      → Kept u opening (order_product input buyer product)
  unfolding order_product
  order_product-Kept input buyer product = Triple-bind (new_id-Kept u opening) λ order_id.
      Triple-bind (release-Kept input.product_id) λ freed.
        Triple-bind (Triple-gets (λ s. s.now) (λ s p. p)) λ now.
          Triple-require out_of_stock (reserve_one-Kept input.product_id input.user_id order_id _)
            λ item. Triple-bind (order_code-Kept u opening) λ code.
              Triple-bind (create_order-Kept u opening _) λ o.
                Triple-require insufficient_balance
                  (debit-Owes u opening input.user_id product.price)
                  λ debited.
                    Triple-bind
                      (Triple-weaken (λ s p. ground arith)
                        (create-Reconciled u opening
                          (single_charge input buyer debited product.price o)))
                      λ made.
                        Triple-bind (attach-Kept u opening o.id made.id)
                          λ x. Triple-pure _ (λ s p. p)

  purchase_new-Kept : (input : PurchaseInput) → Kept u opening (purchase_new input)
  unfolding purchase_new
  purchase_new-Kept input =
      Triple-require user_inactive (find_active-Kept u opening input.user_id) λ buyer.
        Triple-bind (lock_for_checkout-Kept u opening input.user_id) λ locked.
          Triple-require product_unavailable
            (find_product-Kept u opening (product_on_sale input.product_id))
            λ product.
              Triple-bind
                (Triple-check (not (product.price == input.expected_unit_price)) price_changed)
                λ same_price.
                  Triple-bind
                    (Triple-check (ltb buyer.wallet_balance product.price) insufficient_balance)
                    λ covered.
                      Triple-bind (check_purchase_limit-Kept input product.purchase_limit_per_user)
                        λ checked. order_product-Kept input buyer product

  confirm_or-Kept :
      (input : PurchaseInput) (otherwise : Tx Order) (o : Option Order)
      → Kept u opening otherwise
      → Kept u opening (confirm_or input otherwise o)
  unfolding confirm_or confirm
  confirm_or-Kept input otherwise none h = h
  confirm_or-Kept input otherwise (some o) h =
      Triple-bind (Triple-check (not (same_request input o)) idempotency_conflict)
        λ same. Triple-pure o (λ s p. p)

  purchase_once-Kept : (input : PurchaseInput) → Kept u opening (purchase_once input)
  unfolding purchase_once
  purchase_once-Kept input =
      Triple-bind (find_order-Kept input.idempotency_key)
        λ existing. confirm_or-Kept input (purchase_new input) existing (purchase_new-Kept input)

  recover-Kept :
      (input : PurchaseInput) (r : Result (Order × Db)) (s : Db)
      → Reconciled u opening s
      → Committed (λ o. Reconciled u opening) r
      → Committed (λ o. Reconciled u opening) (recover input r s)
  unfolding recover confirm_or confirm
  recover-Kept input r s p c = ground arith

  purchase_one-Reconciled : (input : PurchaseInput) → Kept u opening (purchase_one input)
  unfolding purchase_one
  purchase_one-Reconciled input = Triple-bind (find_order-Kept input.idempotency_key) λ prior.
      confirm_or-Kept input _ prior (record {
        run = λ s p.
            recover-Kept input (purchase_once input s) s p ((purchase_once-Kept input).run s p);
      })

  -- A purchase that commits keeps the books of every customer, whether it makes an order, finds the one
  -- that an earlier request with its key has made, or falls back on one after a duplicate key: if
  -- the wallet and the ledger agreed before, they agree afterwards.
  pub purchase_keeps_books :
      (input : PurchaseInput) (s : Db) (o : Order) (t : Db)
      → Reconciled u opening s
      → purchase_one input s ≡ ok (o, t)
      → Reconciled u opening t
  purchase_keeps_books input s o t p e = committed_at (purchase_one-Reconciled input) s p o t e
