-- ===== src/Reconcile/Totals.antt =====
-- The totals of a report.
use cdk_gpt.Prelude.{
  ℕ, ◌+◌, ◌≡◌, refl, true, Option, List, [], ◌∷◌, arith, Text, length, total, pos_part, neg_part,
  +ℤ_parts, find_all, Bool-cases, inl, inr,
}
use cdk_gpt.Reconcile.{RequestDoc, WalletDoc, WorkingTransaction, deduplicate_transactions}
use cdk_gpt.Reconcile.Rows.{ReportItem, CustomerNames, build_item}
use cdk_gpt.Reconcile.Report.{
  reconcile, rows_of, summary_of, BankHistorySnapshot, is_incoming, sum_differences,
}
use cdk_gpt.Reconcile.Duplicates.{lines_of, deduplicate_keeps_lines}

-- The difference of a row is exactly what the ledger has not of it.
abbrev Balanced : ReportItem → Type 0
Balanced x = pos_part x.difference + x.credited_amount ≡ neg_part x.difference + x.amount

build_item-Balanced :
    (bank : Text) (requests : List RequestDoc) (wallets : List WalletDoc)
    (users : ℕ → Option CustomerNames) (w : WorkingTransaction)
    → is_incoming (build_item bank requests wallets users w) ≡ true
    → Balanced (build_item bank requests wallets users w)
unfolding build_item
build_item-Balanced bank requests wallets users w h = ground arith

sum-Balanced :
    (bank : Text) (users : ℕ → Option CustomerNames) (requests : List RequestDoc)
    (wallets : List WalletDoc) (ws : List WorkingTransaction)
    → pos_part (sum_differences (find_all is_incoming (rows_of bank users requests wallets ws)))
        + total
            (λ (x : ReportItem). x.credited_amount)
            (find_all is_incoming (rows_of bank users requests wallets ws))
      ≡ neg_part (sum_differences (find_all is_incoming (rows_of bank users requests wallets ws)))
        + total
            (λ (x : ReportItem). x.amount)
            (find_all is_incoming (rows_of bank users requests wallets ws))
unfolding rows_of find_all total sum_differences
sum-Balanced bank users requests wallets [] = refl
sum-Balanced bank users requests wallets (w ∷ ws) =
    elim (Bool-cases (is_incoming (build_item bank requests wallets users w))) [
      | inl counted ↦ rw counted (
          omega (
            arith,
            build_item-Balanced bank requests wallets users w counted,
            +ℤ_parts (build_item bank requests wallets users w).difference
                (sum_differences (find_all is_incoming (rows_of bank users requests wallets ws))),
            sum-Balanced bank users requests wallets ws,
          ))
      | inr left_out ↦ rw left_out (sum-Balanced bank users requests wallets ws)
    ]

total-lines :
    (ws : List WorkingTransaction)
    → total lines_of ws ≡ total (λ (w : WorkingTransaction). w.duplicate_count) ws + length ws
unfolding total
total-lines [] = refl
total-lines (w ∷ ws) = omega (arith, total-lines ws)

length-rows_of :
    (bank : Text) (users : ℕ → Option CustomerNames) (requests : List RequestDoc)
    (wallets : List WalletDoc) (ws : List WorkingTransaction)
    → length (rows_of bank users requests wallets ws) ≡ length ws
unfolding rows_of
length-rows_of bank users requests wallets [] = refl
length-rows_of bank users requests wallets (w ∷ ws) =
    omega (arith, length-rows_of bank users requests wallets ws)

-- A report accounts for every line of the history: its rows and the repetitions that it counts are as many
-- as the lines, and the difference that it shows, of either sign, is exactly the money that has come in less
-- the money that the ledger has of it.
pub reconcile_accounts :
    (bank : Text) (users : ℕ → Option CustomerNames) (requests : List RequestDoc)
    (wallets : List WalletDoc) (snapshot : BankHistorySnapshot)
    → ((reconcile bank users requests wallets snapshot).duplicate_count
          + length (reconcile bank users requests wallets snapshot).items
        ≡ length snapshot.transactions)
      × (pos_part (reconcile bank users requests wallets snapshot).summary.difference
            + (reconcile bank users requests wallets snapshot).summary.credited_amount
          ≡ neg_part (reconcile bank users requests wallets snapshot).summary.difference
            + (reconcile bank users requests wallets snapshot).summary.incoming_amount)
unfolding reconcile summary_of
reconcile_accounts bank users requests wallets snapshot = (
  omega (
    arith,
    length-rows_of bank users _ _ (deduplicate_transactions snapshot.transactions),
    total-lines (deduplicate_transactions snapshot.transactions),
    (deduplicate_keeps_lines snapshot.transactions).1,
  ),
  sum-Balanced bank users _ _ (deduplicate_transactions snapshot.transactions),
)
