-- ===== src/Reconcile/Matched.antt =====
-- When a row of the report is shown as matched.
use cdk_gpt.Prelude.{
  ℕ, ◌<◌, ◌≡◌, refl, Bool, false, List, arith, Text, any_row, length, ◌↔◌, Option, ◌⊎◌, inl, inr,
}
use cdk_gpt.Store.{PaymentRequestStatus}
use cdk_gpt.Reconcile.{
  RequestDoc, WalletDoc, WorkingTransaction, Flow, incoming, outgoing, normalize_type,
  integer_amount,
}
use cdk_gpt.Reconcile.Rows.{
  matched, build_item, status_of, scope_uncertain, row_requests, row_wallets, has_status,
  CustomerNames, credited_amount_of, incoming_item, outgoing_item,
}

-- One open or approved request, not cancelled, whose money the ledger has in full.
pub record Settled (rs : List RequestDoc) (amount credited : ℕ) : Type 0 where
  pub one_request : length rs ≡ 1
  pub not_rejected : any_row (has_status PaymentRequestStatus.rejected) rs ≡ false
  pub not_expired : any_row (has_status PaymentRequestStatus.expired) rs ≡ false
  pub not_cancelled : any_row (λ (r : RequestDoc). r.metadata.user_cancelled) rs ≡ false
  pub credited_in_full : credited ≡ amount
  pub something_received : 0 < amount

status_of-matched :
    (conflict uncertain : Bool) (rs : List RequestDoc) (ws : List WalletDoc) (amount credited : ℕ)
    → status_of conflict uncertain rs ws amount credited ≡ matched
    → (conflict ≡ false) × (uncertain ≡ false) × Settled rs amount credited
unfolding status_of
status_of-matched conflict uncertain rs ws amount credited h = ground arith

matched-status_of :
    (rs : List RequestDoc) (ws : List WalletDoc) (amount credited : ℕ)
    → Settled rs amount credited
    → status_of false false rs ws amount credited ≡ matched
unfolding status_of
matched-status_of rs ws amount credited h = ground arith

-- What a row of an account has when it is settled.
abbrev pub IsSettled : Text → List RequestDoc → List WalletDoc → WorkingTransaction → Type 0
IsSettled bank requests wallets w =
    (normalize_type w.transaction.kind ≡ incoming)
    × (w.duplicate_conflict ≡ false)
    × (scope_uncertain bank w.transaction.transaction_id (row_requests bank requests w.transaction)
          (row_wallets bank requests wallets w.transaction)
        ≡ false)
    × Settled (row_requests bank requests w.transaction) (integer_amount w.transaction.amount)
        (credited_amount_of (row_wallets bank requests wallets w.transaction))

Flow-cases : (f : Flow) → (f ≡ incoming) ⊎ (f ≡ outgoing)
Flow-cases incoming = inl refl
Flow-cases outgoing = inr refl

module _ (bank : Text) (requests : List RequestDoc) (wallets : List WalletDoc)
    (users : ℕ → Option CustomerNames) (w : WorkingTransaction) where
  build_item-incoming :
      normalize_type w.transaction.kind ≡ incoming
      → build_item bank requests wallets users w
        ≡ incoming_item bank users
            (row_requests bank requests w.transaction)
            (row_wallets bank requests wallets w.transaction)
            w
  unfolding build_item
  build_item-incoming flow = ground (arith, flow)

  build_item-outgoing :
      normalize_type w.transaction.kind ≡ outgoing
      → build_item bank requests wallets users w ≡ outgoing_item w
  unfolding build_item
  build_item-outgoing flow = ground (arith, flow)

-- A row is shown as matched exactly when it is an incoming transfer whose lines agree, of which the account
-- is not in doubt, with exactly one request, none rejected, expired or cancelled, and with all of its money,
-- more than nothing, in the ledger.
pub build_item-matched :
    (bank : Text) (requests : List RequestDoc) (wallets : List WalletDoc)
    (users : ℕ → Option CustomerNames) (w : WorkingTransaction)
    → ((build_item bank requests wallets users w).status ≡ matched)
      ↔ IsSettled bank requests wallets w
build_item-matched bank requests wallets users w =
    elim (Flow-cases (normalize_type w.transaction.kind)) [
      | inl flow ↦ rw (build_item-incoming bank requests wallets users w flow) (
        λ h.
            let (agree, sure, settled) = status_of-matched w.duplicate_conflict _ _ _ _ _ h in
            (flow, agree, sure, settled),
        λ (flow, agree, sure, settled). rw (agree, sure) (matched-status_of _ _ _ _ settled),
      )
      | inr flow ↦
          rw (build_item-outgoing bank requests wallets users w flow)
            (λ h. ground (arith, h), λ settled. ground (arith, settled))
    ]
