-- ===== src/Purchase/Books.antt =====
-- The steps that the purchases share keep the books of every customer.
use cdk_gpt.Prelude.{ℕ, Bool, Option, arith}
use cdk_gpt.Store.{Product, Order, Tx, new_id}
use cdk_gpt.Store.Rules.{Present, Triple, Triple-gets}
use cdk_gpt.Users.{find_active, lock_for_checkout, debit, update_user}
use cdk_gpt.Users.Totals.{share, balance_of, total-debit, total-lock_for_checkout}
use cdk_gpt.Wallet.Ledger.{Owes, Reconciled, credits_of, debits_of}
use cdk_gpt.Orders.{create_order, attach_wallet_transaction, update_order}
use cdk_gpt.Purchase.{find_product, order_code}

module _ (u opening : ℕ) where
  abbrev pub Kept : {A : Type 0} → Tx A → Type 0
  Kept m = Triple (Reconciled u opening) m (λ a. Reconciled u opening)

  abbrev pub KeptIfFound : {A : Type 0} → Tx (Option A) → Type 0
  KeptIfFound m = Triple (Reconciled u opening) m (Present (λ a. Reconciled u opening))

  pub find_active-Kept : (id : ℕ) → KeptIfFound (find_active id)
  unfolding find_active
  find_active-Kept id = record { run = λ s p. ground arith }

  pub lock_for_checkout-Kept : (id : ℕ) → Kept (lock_for_checkout id)
  unfolding lock_for_checkout update_user balance_of credits_of debits_of
  lock_for_checkout-Kept id = record {
    run = λ s p. ground (arith, total-lock_for_checkout id 0 u s.users);
  }

  pub find_product-Kept : (p : Product → Bool) → KeptIfFound (find_product p)
  unfolding find_product
  find_product-Kept p = record { run = λ s p. ground arith }

  pub create_order-Kept : (o : Order) → Kept (create_order o)
  unfolding create_order balance_of credits_of debits_of
  create_order-Kept o = record { run = λ s p. ground arith }

  pub debit-Owes :
      (id amount : ℕ)
      → Triple
          (Reconciled u opening)
          (debit id amount)
          (Present (λ x. Owes u opening 0 (share u id amount)))
  unfolding debit update_user balance_of credits_of debits_of
  debit-Owes id amount = record { run = λ s p. ground (arith, total-debit id amount u s.users) }

  pub attach-Kept : (order_id id : ℕ) → Kept (attach_wallet_transaction order_id id)
  unfolding attach_wallet_transaction update_order balance_of credits_of debits_of
  attach-Kept order_id id = record { run = λ s p. ground arith }

  pub new_id-Kept : Kept new_id
  unfolding balance_of credits_of debits_of
  new_id-Kept = record { run = λ s p. p }

  pub order_code-Kept : Kept order_code
  unfolding order_code
  order_code-Kept = Triple-gets _ (λ s p. p)
