-- ===== src/Payment/Callback/Books.antt =====
-- A delivery of bank transfers keeps the books.
use cdk_gpt.Prelude.{ℕ, ◌+◌, Bool, true, false, Option, List, [], ◌∷◌, Text, Bool-cases, inl, inr}
use cdk_gpt.Store.{Db, Result, ok, err}
use cdk_gpt.Store.Rules.{Committed}
use cdk_gpt.Wallet.Ledger.{Reconciled}
use cdk_gpt.Payment.Bank.{BankTransaction}
use cdk_gpt.Payment.Approval.{process_bank_transaction}
use cdk_gpt.Payment.Approval.Books.{process_bank_transaction-Kept}
use cdk_gpt.Payment.Callback.{
  is_incoming, Tally, then_transfers, process_transfers, process_cake_callback,
}

module _ (u opening : ℕ) where
  then_transfers-Reconciled :
      (rest : Tally → Db → Result Tally × Db)
      → ((n : Tally) (t : Db) → Reconciled u opening t → Reconciled u opening (rest n t).1)
      → (n : Tally) (s : Db) (r : Result (Bool × Db)) → Reconciled u opening s
      → Committed (λ x. Reconciled u opening) r
      → Reconciled u opening (then_transfers rest n s r).1
  then_transfers-Reconciled rest h n s (ok (true, t)) p c = h _ t c
  then_transfers-Reconciled rest h n s (ok (false, t)) p c = h n t c
  then_transfers-Reconciled rest h n s (err e) p c = p

  process_transfers-Reconciled :
      (bank : Option Text) (xs : List BankTransaction) (n : Tally) (s : Db)
      → Reconciled u opening s
      → Reconciled u opening (process_transfers bank xs n s).1
  unfolding process_transfers
  process_transfers-Reconciled bank [] n s p = p
  process_transfers-Reconciled bank (x ∷ xs) n s p = elim (Bool-cases (is_incoming x)) [
    | inl comes_in ↦
        rw (comes_in, process_transfers)
          (then_transfers-Reconciled (process_transfers bank xs)
            (process_transfers-Reconciled bank xs) (record n { incoming = n.incoming + 1 }) s
            (process_bank_transaction x bank s) p
            ((process_bank_transaction-Kept u opening x bank).run s p))
    | inr goes_out ↦ rw (goes_out, process_transfers) (process_transfers-Reconciled bank xs n s p)
  ]

  -- A delivery of bank transfers keeps the books of every customer, also when one of them throws and the
  -- ones behind it are left for the next delivery: if the wallet and the ledger agreed before, they
  -- agree afterwards.
  pub callback_keeps_books :
      (bank : Option Text) (transactions : List BankTransaction) (s : Db)
      → Reconciled u opening s
      → Reconciled u opening (process_cake_callback bank transactions s).1
  unfolding process_cake_callback
  callback_keeps_books bank transactions s p =
      process_transfers-Reconciled bank transactions (record { incoming = 0; approved = 0 }) s p
