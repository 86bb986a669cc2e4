-- ===== src/Purchase/Session/Books.antt =====
-- `purchaseBatch` keeps the books.
use cdk_gpt.Prelude.{ℕ, ◌≡◌, not, List, [], ◌∷◌, arith, Text, length, total, find_first, ◌==◌}
use cdk_gpt.Store.{Db, Order, Tx, Result, ok, err, Error, duplicate_key, idempotency_conflict}
use cdk_gpt.Store.Rules.{
  Committed, Triple-bind, Triple-gets, Triple-pure, Triple-check, Triple-found, committed_at,
}
use cdk_gpt.Orders.{order_has_key}
use cdk_gpt.Coupons.{differs}
use cdk_gpt.Wallet.Ledger.{Reconciled}
use cdk_gpt.Purchase.{ValidBatch, PurchaseBatchInput, validate_batch_input, batch_keys}
use cdk_gpt.Purchase.Books.{Kept}
use cdk_gpt.Purchase.Batch.{create_batch}
use cdk_gpt.Purchase.Batch.Books.{create_batch-Reconciled}
use cdk_gpt.Purchase.Session.{
  find_batch, orders_of_keys, assert_complete_batch, complete_or, purchase_valid_batch_in_session,
  purchase_batch_in_session, recover_batch, purchase_batch, is_other_order,
}

module _ (u opening : ℕ) where
  orders_of_keys-Kept :
      (b : ValidBatch) (found : List Order) (keys : List Text)
      → Kept u opening (orders_of_keys b found keys)
  unfolding orders_of_keys
  orders_of_keys-Kept b found [] = Triple-pure [] (λ s p. p)
  orders_of_keys-Kept b found (key ∷ keys) =
      Triple-bind (Triple-found idempotency_conflict (find_first (order_has_key key) found)) λ o.
        Triple-bind (Triple-check (is_other_order b o) idempotency_conflict) λ same.
          Triple-bind (orders_of_keys-Kept b found keys) λ rest. Triple-pure (o ∷ rest) (λ s p. p)

  complete_or-Kept :
      (b : ValidBatch) (keys : List Text) (otherwise : Tx (List Order)) (found : List Order)
      → Kept u opening otherwise
      → Kept u opening (complete_or b keys otherwise found)
  unfolding assert_complete_batch
  complete_or-Kept b keys otherwise [] h = h
  complete_or-Kept b keys otherwise (o ∷ found) h =
      Triple-bind (Triple-check (not (length (o ∷ found) == b.quantity)) idempotency_conflict)
        λ whole.
          Triple-bind
            (Triple-check
              (differs b.expected_total_amount (total (λ x. x.total_amount) (o ∷ found)))
              idempotency_conflict)
            λ same_total. orders_of_keys-Kept b (o ∷ found) keys

  find_batch-Kept : (keys : List Text) → Kept u opening (find_batch keys)
  unfolding find_batch
  find_batch-Kept keys = Triple-gets _ (λ s p. p)

  pub validate-Kept : (input : PurchaseBatchInput) → Kept u opening (validate_batch_input input)
  unfolding validate_batch_input
  validate-Kept input = record { run = λ s p. ground arith }

  pub purchase_batch_in_session-Kept :
      (input : PurchaseBatchInput) → Kept u opening (purchase_batch_in_session input)
  unfolding purchase_batch_in_session purchase_valid_batch_in_session
  purchase_batch_in_session-Kept input = Triple-bind (validate-Kept input) λ b.
      Triple-bind (find_batch-Kept (batch_keys b)) λ found.
        complete_or-Kept b (batch_keys b) (create_batch b) found
          (create_batch-Reconciled u opening b)

  throws-Kept : (e : Error) → Kept u opening {A = List Order} (λ s. err e)
  throws-Kept e = record { run = λ s p. tt }

  recover_batch-Kept :
      (b : ValidBatch) (r : Result (List Order × Db)) (s : Db)
      → Reconciled u opening s
      → Committed (λ x. Reconciled u opening) r
      → Committed (λ x. Reconciled u opening) (recover_batch b r s)
  unfolding recover_batch
  recover_batch-Kept b (ok (o, t)) s p c = c
  recover_batch-Kept b (err duplicate_key) s p c =
      (Triple-bind (find_batch-Kept (batch_keys b)) λ found.
          complete_or-Kept b (batch_keys b) (λ x. err duplicate_key) found
            (throws-Kept duplicate_key)).run
        s p
  recover_batch-Kept b (err e) s p c = ground arith

  purchase_batch-Reconciled : (input : PurchaseBatchInput) → Kept u opening (purchase_batch input)
  unfolding purchase_batch
  purchase_batch-Reconciled input = Triple-bind (validate-Kept input) λ b.
      Triple-bind (find_batch-Kept (batch_keys b)) λ found.
        complete_or-Kept b (batch_keys b) _ found (record {
          run = λ s p.
              recover_batch-Kept b (purchase_batch_in_session input s) s p
                ((purchase_batch_in_session-Kept input).run s p);
        })

  -- The purchase of a batch that commits keeps the books of every customer, for a new batch, for one
  -- that is there already, and through the catch clause for a duplicate key: if the wallet and the
  -- ledger agreed before, they agree afterwards.
  pub purchase_batch_keeps_books :
      (input : PurchaseBatchInput) (s : Db) (os : List Order) (t : Db)
      → Reconciled u opening s
      → purchase_batch input s ≡ ok (os, t)
      → Reconciled u opening t
  purchase_batch_keeps_books input s os t p e =
      committed_at (purchase_batch-Reconciled input) s p os t e
