-- ===== src/Payment/Callback.antt =====
-- `processCakeCallback` (apps/api/src/payment/payment.service.ts): the transfers of one delivery, one
-- after the other. The cleanup behind the loop, of a standalone server only, is left out.
pub mod Books
use cdk_gpt.Prelude.{
  ℕ, ◌+◌, Bool, true, false, Option, none, some, List, [], ◌∷◌, Text, codes, text_eq, to_upper,
  length, if◌then◌else◌,
}
use cdk_gpt.Store.{Db, Result, ok, err}
use cdk_gpt.Payment.Bank.{BankTransaction}
use cdk_gpt.Payment.Approval.{process_bank_transaction}

-- `String(type ?? 'IN').toUpperCase() === 'IN'`
abbrev pub is_incoming : BankTransaction → Bool
is_incoming x = elim x.kind [ none ↦ true | some k ↦ text_eq (to_upper k) (codes "IN") ]

-- How many transfers came in, and how many settled something.
pub record Tally : Type 0 where
  pub incoming : ℕ
  pub approved : ℕ

abbrev pub then_transfers :
    (Tally → Db → Result Tally × Db) → Tally → Db → Result (Bool × Db) → Result Tally × Db
then_transfers rest n s (ok (true, t)) = rest (record n { approved = n.approved + 1 }) t
then_transfers rest n s (ok (false, t)) = rest n t
then_transfers rest n s (err e) = (err e, s)

-- The loop: a transfer that throws ends it, and the provider delivers all of them again.
unfoldable pub process_transfers :
    Option Text → List BankTransaction → Tally → Db → Result Tally × Db
process_transfers bank [] n s = (ok n, s)
process_transfers bank (x ∷ xs) n s = elim (is_incoming x) [
  | false ↦ process_transfers bank xs n s
  | true ↦
      then_transfers (process_transfers bank xs) (record n { incoming = n.incoming + 1 }) s
        (process_bank_transaction x bank s)
]

-- `processCakeCallback`
unfoldable pub process_cake_callback : Option Text → List BankTransaction → Db → Result Tally × Db
process_cake_callback bank transactions =
    process_transfers bank transactions (record { incoming = 0; approved = 0 })
