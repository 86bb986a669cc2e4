-- ===== src/Purchase/Expiry/Books.antt =====
-- The sweep over expired reservations keeps the books: each refund is on record.
use cdk_gpt.Prelude.{ℕ, ◌+◌, zero, suc, Bool, true, false, Option, none, some, List, [], ◌∷◌, arith}
use cdk_gpt.Store.{
  Db, Order, InventoryItem, Result, ok, err, user_missing_for_refund, refund_failed,
}
use cdk_gpt.Store.Rules.{
  Committed, Present, Triple, Triple-bind, Triple-require, Triple-gets, Triple-pure, Triple-weaken,
}
use cdk_gpt.Users.{credit, update_user}
use cdk_gpt.Users.Totals.{share, balance_of, total-credit}
use cdk_gpt.Wallet.Ledger.{Reconciled, Owes, create-Reconciled, credits_of, debits_of}
use cdk_gpt.Inventory.{release_expired, release_expired_payment, update_item, find_expired}
use cdk_gpt.Orders.{update_order}
use cdk_gpt.Purchase.Books.{Kept, find_active-Kept}
use cdk_gpt.Purchase.Expiry.{
  find_undelivered, cancel_order, refund_of, refund_order, refund_if_released, release_for_order,
  release_order_item, release_payment_item, release_item, release_each, release_expired_items,
  release_held, with_examined, then_release,
}

module _ (u opening : ℕ) where
  cancel_order-Kept : (order_id : ℕ) (id : Option ℕ) → Kept u opening (cancel_order order_id id)
  unfolding cancel_order update_order balance_of credits_of debits_of
  cancel_order-Kept order_id none = record { run = λ s p. ground arith }
  cancel_order-Kept order_id (some id) = record { run = λ s p. ground arith }

  credit-Owes :
      (id amount : ℕ)
      → Triple
          (Reconciled u opening)
          (credit id amount)
          (Present (λ x. Owes u opening (share u id amount) 0))
  unfolding credit update_user balance_of credits_of debits_of
  credit-Owes id amount = record { run = λ s p. ground (arith, total-credit id amount u s.users) }

  refund_order-Kept : (o : Order) (amount : ℕ) → Kept u opening (refund_order o amount)
  unfolding refund_order
  refund_order-Kept o zero =
      Triple-bind (cancel_order-Kept o.id none) λ x. Triple-pure true (λ s p. p)
  refund_order-Kept o (suc n) =
      Triple-require user_missing_for_refund (find_active-Kept u opening o.user_id) λ before.
        Triple-require refund_failed (credit-Owes o.user_id (suc n)) λ after.
          Triple-bind
            (Triple-weaken (λ s p. ground arith)
              (create-Reconciled u opening
                (refund_of o before.wallet_balance after.wallet_balance (suc n))))
            λ made.
              Triple-bind (cancel_order-Kept o.id (some made.id)) λ x. Triple-pure true (λ s p. p)

  release_expired-Kept : (item_id order_id : ℕ) → Kept u opening (release_expired item_id order_id)
  unfolding release_expired update_item balance_of credits_of debits_of
  release_expired-Kept item_id order_id = record { run = λ s p. ground arith }

  refund_if_released-Kept :
      (o : Order) (item : Option InventoryItem) → Kept u opening (refund_if_released o item)
  refund_if_released-Kept o none = Triple-pure false (λ s p. p)
  refund_if_released-Kept o (some item) = refund_order-Kept o o.total_amount

  release_for_order-Kept :
      (item_id : ℕ) (o : Option Order) → Kept u opening (release_for_order item_id o)
  release_for_order-Kept item_id none = Triple-pure false (λ s p. p)
  release_for_order-Kept item_id (some o) =
      Triple-bind (release_expired-Kept item_id o.id) (refund_if_released-Kept o)

  find_undelivered-Kept : (order_id : ℕ) → Kept u opening (find_undelivered order_id)
  unfolding find_undelivered
  find_undelivered-Kept order_id = Triple-gets _ (λ s p. p)

  release_order_item-Kept :
      (item : InventoryItem) (order_id : Option ℕ)
      → Kept u opening (release_order_item item order_id)
  unfolding release_order_item
  release_order_item-Kept item none = Triple-pure false (λ s p. p)
  release_order_item-Kept item (some order_id) =
      Triple-bind (find_undelivered-Kept order_id) (release_for_order-Kept item.id)

  release_payment_item-Kept :
      (item_id request_id : ℕ) → Kept u opening (release_payment_item item_id request_id)
  unfolding release_payment_item release_expired_payment update_item balance_of credits_of debits_of
  release_payment_item-Kept item_id request_id = record { run = λ s p. ground arith }

  release_held-Kept :
      (item : InventoryItem) (payment order_id : Option ℕ)
      → Kept u opening (release_held item payment order_id)
  release_held-Kept item (some request_id) none = release_payment_item-Kept item.id request_id
  release_held-Kept item (some request_id) (some order_id) =
      release_order_item-Kept item (some order_id)
  release_held-Kept item none order_id = release_order_item-Kept item order_id

  release_item-Kept : (item : InventoryItem) → Kept u opening (release_item item)
  unfolding release_item
  release_item-Kept item =
      release_held-Kept item item.reserved_payment_request_id item.reserved_order_id

  then_release-Reconciled :
      (rest : ℕ → Db → Result ℕ × Db)
      → ((n : ℕ) (t : Db) → Reconciled u opening t → Reconciled u opening (rest n t).1)
      → (n : ℕ) (s : Db) (r : Result (Bool × Db)) → Reconciled u opening s
      → Committed (λ x. Reconciled u opening) r
      → Reconciled u opening (then_release rest n s r).1
  then_release-Reconciled rest h n s (ok (true, t)) p c = h (n + 1) t c
  then_release-Reconciled rest h n s (ok (false, t)) p c = h n t c
  then_release-Reconciled rest h n s (err e) p c = p

  release_each-Reconciled :
      (items : List InventoryItem) (n : ℕ) (s : Db)
      → Reconciled u opening s
      → Reconciled u opening (release_each items n s).1
  unfolding release_each
  release_each-Reconciled [] n s p = p
  release_each-Reconciled (item ∷ items) n s p =
      then_release-Reconciled (release_each items) (release_each-Reconciled items) n s
        (release_item item s) p ((release_item-Kept item).run s p)

  with_examined-Reconciled :
      (k : ℕ) (r : Result ℕ × Db)
      → Reconciled u opening r.1
      → Reconciled u opening (with_examined k r).1
  with_examined-Reconciled k (ok n, s) p = p
  with_examined-Reconciled k (err e, s) p = p

  -- The sweep over expired reservations keeps the books of every customer, also when one of its
  -- transactions throws and the items behind it are left alone: if the wallet and the ledger agreed
  -- before, they agree afterwards.
  pub sweep_keeps_books :
      (limit : ℕ) (s : Db)
      → Reconciled u opening s
      → Reconciled u opening (release_expired_items limit s).1
  unfolding release_expired_items find_expired
  sweep_keeps_books limit s p = with_examined-Reconciled _ _ (release_each-Reconciled _ 0 s p)
