-- ===== src/Wallet/Balance.antt =====
-- The exact effect of a change on the money of every customer, and the refusal of an overdraft.
use cdk_gpt.Prelude.{
  ℕ, ◌+◌, ◌<◌, ◌≡◌, Bool, true, false, some, none, arith, refl, find_first, positive_safe,
}
use cdk_gpt.Store.{Db, WalletTransaction, ok, err, Error, Result, or_throw}
use cdk_gpt.Store.Rules.{Present, Triple, Triple-require, committed_at}
use cdk_gpt.Users.{
  find_active, find_existing, update_user, credit, credit_received_funds, debit_balance,
  debit_existing_balance,
}
use cdk_gpt.Users.Totals.{
  share, balance_of, total-credit, total-credit_received_funds, total-debit_balance,
  total-debit_existing_balance,
}
use cdk_gpt.Wallet.{
  WalletChange, Direction, up, down, create, find_payer, move_balance, apply_new, apply_after,
  apply_change, change, find_by_idempotency_key, has_key,
}
use cdk_gpt.Wallet.Ledger.{moved_in, moved_out}

-- Customer `u` holds `b`, after `minus` went out and `plus` came in.
abbrev Holds : ℕ → ℕ → ℕ → ℕ → Db → Type 0
Holds u b minus plus s = balance_of u s + minus ≡ b + plus

module _ (u b : ℕ) where
  find_payer-Holds :
      (inactive : Bool) (id : ℕ)
      → Triple (Holds u b 0 0) (find_payer inactive id) (Present (λ x. Holds u b 0 0))
  unfolding find_payer find_active find_existing
  find_payer-Holds true id = record { run = λ s p. ground arith }
  find_payer-Holds false id = record { run = λ s p. ground arith }

  move_balance-Holds :
      (d : Direction) (inactive : Bool) (id n : ℕ)
      → Triple
          (Holds u b 0 0)
          (move_balance d inactive id n)
          (Present (λ x. Holds u b (share u id (moved_out d n)) (share u id (moved_in d n))))
  unfolding move_balance credit credit_received_funds debit_balance debit_existing_balance
      update_user balance_of
  move_balance-Holds up true id n = record {
    run = λ s p. ground (arith, total-credit_received_funds id n u s.users);
  }
  move_balance-Holds up false id n = record {
    run = λ s p. ground (arith, total-credit id n u s.users);
  }
  move_balance-Holds down true id n = record {
    run = λ s p. ground (arith, total-debit_existing_balance id n u s.users);
  }
  move_balance-Holds down false id n = record {
    run = λ s p. ground (arith, total-debit_balance id n u s.users);
  }

  create-Holds :
      (minus plus : ℕ) (row : WalletTransaction)
      → Triple (Holds u b minus plus) (create row) (λ x. Holds u b minus plus)
  unfolding create balance_of
  create-Holds minus plus row = record { run = λ s p. ground arith }

  apply_new-Holds :
      (input : WalletChange) (n : ℕ) (d : Direction) (inactive : Bool)
      → Triple (Holds u b 0 0) (apply_new input n d inactive) (λ x.
        Holds u b (share u input.user_id (moved_out d n)) (share u input.user_id (moved_in d n)))
  unfolding apply_new
  apply_new-Holds input n d inactive =
      Triple-require _ (find_payer-Holds inactive input.user_id) λ before.
        Triple-require _ (move_balance-Holds d inactive input.user_id n) λ after. create-Holds _ _ _

module _ (input : WalletChange) (d : Direction) (inactive : Bool) (s : Db) (n : ℕ)
    (accepted : positive_safe input.amount ≡ some n)
    (fresh : find_first (has_key input.idempotency_key) s.wallet_transactions ≡ none) where
  -- A change under a new key that commits moves exactly its amount, in its direction, for its
  -- customer, and leaves the money of every other customer as it was.
  pub change_moves :
      (u : ℕ) (x : WalletTransaction) (t : Db)
      → change input d inactive s ≡ ok (x, t)
      → balance_of u t + share u input.user_id (moved_out d n)
        ≡ balance_of u s + share u input.user_id (moved_in d n)
  unfolding change apply_change apply_after find_by_idempotency_key
  change_moves u x t e =
      committed_at (apply_new-Holds u (balance_of u s) input n d inactive) s refl x t
        (rw (accepted, or_throw, fresh, apply_after) at e)

  -- A debit under a new key of more than the customer holds is refused.
  pub change_overdraft :
      d ≡ down → balance_of input.user_id s < n → (e : Error) × (change input d inactive s ≡ err e)
  change_overdraft h short = refused (change input d inactive s) refl
    where
      refused :
          (r : Result (WalletTransaction × Db))
          → change input d inactive s ≡ r
          → (e : Error) × (r ≡ err e)
      refused (err e) q = (e, refl)
      refused (ok (x, t)) q = absurd (ground (arith, change_moves input.user_id x t q))
