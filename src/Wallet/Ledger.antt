-- ===== src/Wallet/Ledger.antt =====
-- Each change of a wallet balance is written down as one wallet transaction of the same amount.
use cdk_gpt.Prelude.{
  ℕ, ◌+◌, ◌≡◌, Bool, true, false, some, none, [], ◌∷◌, arith, total, total-append, pos_part,
  neg_part, Option, zero, suc, refl, Text,
}
use cdk_gpt.Store.{Db, WalletTransaction, ok, idempotency_conflict, pure}
use cdk_gpt.Store.Rules.{
  Present, Triple, Triple-require, Triple-weaken, Triple-bind, Triple-gets, Triple-guard,
  Triple-pure, Triple-value, committed_at,
}
use cdk_gpt.Users.{
  update_user, find_active, find_existing, debit_balance, debit_existing_balance, credit,
  credit_received_funds,
}
use cdk_gpt.Users.Totals.{
  share, balance_of, total-credit, total-credit_received_funds, total-debit_balance,
  total-debit_existing_balance,
}
use cdk_gpt.Wallet.{
  WalletChange, Direction, up, down, signed, create, find_payer, move_balance, apply_new,
  apply_change, apply_after, change, find_by_idempotency_key, conflicts,
}

-- What a transaction adds to and takes from the wallet of `u`.
abbrev pub credited_by : ℕ → WalletTransaction → ℕ
credited_by u x = share u x.user_id (pos_part x.amount)

abbrev pub debited_by : ℕ → WalletTransaction → ℕ
debited_by u x = share u x.user_id (neg_part x.amount)

unfoldable pub credits_of : ℕ → Db → ℕ
credits_of u s = total (credited_by u) s.wallet_transactions

unfoldable pub debits_of : ℕ → Db → ℕ
debits_of u s = total (debited_by u) s.wallet_transactions

-- The books of customer `u` when `credit` of the money has been moved in and `debit` moved out, and
-- no transaction records that yet.
abbrev pub Owes : ℕ → ℕ → ℕ → ℕ → Db → Type 0
Owes u opening credit debit s =
    balance_of u s + debits_of u s + debit ≡ opening + credits_of u s + credit

-- The money of customer `u` is what `u` began with, plus the credits and less the debits on record.
abbrev pub Reconciled : ℕ → ℕ → Db → Type 0
Reconciled u opening s = balance_of u s + debits_of u s ≡ opening + credits_of u s

abbrev pub moved_in : Direction → ℕ → ℕ
moved_in up n = n
moved_in down n = 0

abbrev pub moved_out : Direction → ℕ → ℕ
moved_out up n = 0
moved_out down n = n

signed_parts :
    (d : Direction) (n : ℕ)
    → (pos_part (signed d n) ≡ moved_in d n) × (neg_part (signed d n) ≡ moved_out d n)
signed_parts up n = (refl, refl)
signed_parts down zero = (refl, refl)
signed_parts down (suc n) = (refl, refl)

module _ (u opening : ℕ) where
  find_payer-Reconciled :
      (inactive : Bool) (id : ℕ)
      → Triple (Reconciled u opening) (find_payer inactive id) (Present (λ x. Reconciled u opening))
  unfolding find_payer find_active find_existing
  find_payer-Reconciled true id = record { run = λ s p. ground arith }
  find_payer-Reconciled false id = record { run = λ s p. ground arith }

  move_balance-Owes :
      (d : Direction) (inactive : Bool) (id amount : ℕ)
      → Triple (Reconciled u opening) (move_balance d inactive id amount) (
          Present (λ x.
            Owes u opening (share u id (moved_in d amount)) (share u id (moved_out d amount))))
  unfolding move_balance credit credit_received_funds debit_balance debit_existing_balance
      update_user balance_of credits_of debits_of
  move_balance-Owes up true id amount = record {
    run = λ s p. ground (arith, total-credit_received_funds id amount u s.users);
  }
  move_balance-Owes up false id amount = record {
    run = λ s p. ground (arith, total-credit id amount u s.users);
  }
  move_balance-Owes down true id amount = record {
    run = λ s p. ground (arith, total-debit_existing_balance id amount u s.users);
  }
  move_balance-Owes down false id amount = record {
    run = λ s p. ground (arith, total-debit_balance id amount u s.users);
  }

  -- A transaction on record settles what it accounts for.
  pub create-Reconciled :
      (row : WalletTransaction)
      → Triple
          (Owes u opening (credited_by u row) (debited_by u row))
          (create row)
          (λ x. Reconciled u opening)
  unfolding create balance_of credits_of debits_of total
  create-Reconciled row = record {
    run = λ s p. ground (
      arith,
      total-append (credited_by u) s.wallet_transactions (record row { id = s.next_id } ∷ []),
      total-append (debited_by u) s.wallet_transactions (record row { id = s.next_id } ∷ []),
    );
  }

  pub apply_new-Reconciled :
      (input : WalletChange) (amount : ℕ) (d : Direction) (inactive : Bool)
      → Triple
          (Reconciled u opening)
          (apply_new input amount d inactive)
          (λ x. Reconciled u opening)
  unfolding apply_new
  apply_new-Reconciled input amount d inactive =
      Triple-require _ (find_payer-Reconciled inactive input.user_id) λ before.
        Triple-require _ (move_balance-Owes d inactive input.user_id amount) λ after.
          Triple-weaken (λ s p. ground (arith, signed_parts d amount)) (create-Reconciled _)

  prior-Reconciled :
      (key : Text)
      → Triple (Reconciled u opening) (find_by_idempotency_key key) (λ x. Reconciled u opening)
  unfolding find_by_idempotency_key
  prior-Reconciled key = Triple-gets _ (λ s p. p)

  apply_after-Reconciled :
      (input : WalletChange) (amount : ℕ) (d : Direction) (inactive : Bool)
      (prior : Option WalletTransaction)
      → Triple
          (Reconciled u opening)
          (apply_after input amount d inactive prior)
          (λ x. Reconciled u opening)
  unfolding apply_after
  apply_after-Reconciled input amount d inactive none = apply_new-Reconciled input amount d inactive
  apply_after-Reconciled input amount d inactive (some prior) =
      Triple-guard (conflicts input (signed d amount) prior) idempotency_conflict (pure prior)
        (λ e. Triple-pure prior (λ s p. p))

  pub apply_change-Reconciled :
      (input : WalletChange) (amount : ℕ) (d : Direction) (inactive : Bool)
      → Triple
          (Reconciled u opening)
          (apply_change input amount d inactive)
          (λ x. Reconciled u opening)
  unfolding apply_change
  apply_change-Reconciled input amount d inactive =
      Triple-bind (prior-Reconciled input.idempotency_key)
        (apply_after-Reconciled input amount d inactive)

  pub change-Reconciled :
      (input : WalletChange) (d : Direction) (inactive : Bool)
      → Triple (Reconciled u opening) (change input d inactive) (λ x. Reconciled u opening)
  unfolding change
  change-Reconciled input d inactive =
      Triple-value _ _ _ (λ amount e. apply_change-Reconciled input amount d inactive)

  -- A change of a wallet that commits keeps the books of every customer: if what the customer holds
  -- is what the customer began with, plus the recorded credits and less the recorded debits, then it
  -- is so afterwards. That holds for a credit and a debit, of active customers and of all, and for a
  -- repeated key.
  pub change_keeps_books :
      (input : WalletChange) (d : Direction) (inactive : Bool) (s : Db) (x : WalletTransaction)
      (t : Db)
      → Reconciled u opening s
      → change input d inactive s ≡ ok (x, t)
      → Reconciled u opening t
  change_keeps_books input d inactive s x t p e =
      committed_at (change-Reconciled input d inactive) s p x t e
