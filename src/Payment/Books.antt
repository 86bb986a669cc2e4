-- ===== src/Payment/Books.antt =====
-- The payments keep the books: each transfer that reaches a wallet is on record.
use cdk_gpt.Prelude.{ℕ, ◌≡◌, Bool, true, false, Text, arith}
use cdk_gpt.Store.{
  Db, PaymentRequest, PaymentRequestStatus, PaymentMetadata, ok, payment_not_found,
  payment_not_pending,
}
use cdk_gpt.Store.Rules.{Triple-bind, Triple-require, Triple-gets, Triple-pure, committed_at}
use cdk_gpt.Users.Totals.{balance_of}
use cdk_gpt.Wallet.{WalletChange, up, credit_change, credit_received_change}
use cdk_gpt.Wallet.Ledger.{Reconciled, credits_of, debits_of, change-Reconciled}
use cdk_gpt.Inventory.{release_payment_reservations, update_items}
use cdk_gpt.Purchase.Books.{Kept, KeptIfFound}
use cdk_gpt.Payment.{
  find_request, update_request, Approver, approve_pending, approve_by_status, approve_as,
  approval_credit,
}
use cdk_gpt.Payment.Bank.{credit_supplemental, claim_request, save_request, release_if}

module _ (u opening : ℕ) where
  pub find_request-Kept : (p : PaymentRequest → Bool) → Kept u opening (find_request p)
  unfolding find_request
  find_request-Kept p = Triple-gets _ (λ s h. h)

  pub find_request-KeptIfFound :
      (p : PaymentRequest → Bool) → KeptIfFound u opening (find_request p)
  unfolding find_request
  find_request-KeptIfFound p = record { run = λ s h. ground arith }

  pub update_request-Kept :
      (p : PaymentRequest → Bool) (f : PaymentRequest → PaymentRequest)
      → Kept u opening (update_request p f)
  unfolding update_request balance_of credits_of debits_of
  update_request-Kept p f = record { run = λ s h. ground arith }

  pub update_request-KeptIfFound :
      (p : PaymentRequest → Bool) (f : PaymentRequest → PaymentRequest)
      → KeptIfFound u opening (update_request p f)
  unfolding update_request balance_of credits_of debits_of
  update_request-KeptIfFound p f = record { run = λ s h. ground arith }

  pub credit_received-Kept : (input : WalletChange) → Kept u opening (credit_received_change input)
  unfolding credit_received_change
  credit_received-Kept input = change-Reconciled u opening input up true

  pub credit-Kept : (input : WalletChange) → Kept u opening (credit_change input)
  unfolding credit_change
  credit-Kept input = change-Reconciled u opening input up false

  pub approve_pending-Kept : (id : ℕ) (actor : Approver) → Kept u opening (approve_pending id actor)
  unfolding approve_pending
  approve_pending-Kept id actor = Triple-bind (Triple-gets (λ s. s.now) (λ s p. p)) λ now.
      Triple-require payment_not_pending (update_request-KeptIfFound _ _) λ approved.
        Triple-bind (credit-Kept (approval_credit approved actor))
          λ made. Triple-bind (update_request-Kept _ _) λ saved. Triple-pure _ (λ s p. p)

  pub approve_by_status-Kept :
      (r : PaymentRequest) (actor : Approver) (status : PaymentRequestStatus)
      → Kept u opening (approve_by_status r actor status)
  approve_by_status-Kept r actor PaymentRequestStatus.approved = Triple-pure r (λ s p. p)
  approve_by_status-Kept r actor PaymentRequestStatus.pending = approve_pending-Kept r.id actor
  approve_by_status-Kept r actor PaymentRequestStatus.expired = approve_pending-Kept r.id actor
  approve_by_status-Kept r actor PaymentRequestStatus.rejected = approve_pending-Kept r.id actor

  pub approve_as-Kept : (id : ℕ) (actor : Approver) → Kept u opening (approve_as id actor)
  unfolding approve_as
  approve_as-Kept id actor =
      Triple-require payment_not_found (find_request-KeptIfFound _)
        λ r. approve_by_status-Kept r actor r.status

  pub release_if-Kept : (b : Bool) (id : ℕ) → Kept u opening (release_if b id)
  unfolding release_if release_payment_reservations update_items balance_of credits_of debits_of
  release_if-Kept false id = record { run = λ s p. p }
  release_if-Kept true id = record { run = λ s p. p }

  pub claim_request-Kept :
      (id : ℕ) (reference : Text) (m : PaymentMetadata)
      → Kept u opening (claim_request id reference m)
  unfolding claim_request
  claim_request-Kept id reference m =
      Triple-bind (Triple-gets (λ s. s.now) (λ s p. p)) λ now. update_request-Kept _ _

  pub claim_request-KeptIfFound :
      (id : ℕ) (reference : Text) (m : PaymentMetadata)
      → KeptIfFound u opening (claim_request id reference m)
  unfolding claim_request
  claim_request-KeptIfFound id reference m =
      Triple-bind (Triple-gets (λ s. s.now) (λ s p. p)) λ now. update_request-KeptIfFound _ _

  pub save_request-Kept :
      (id transaction_id : ℕ) (m : PaymentMetadata)
      → Kept u opening (save_request id transaction_id m)
  unfolding save_request
  save_request-Kept id transaction_id m = update_request-Kept _ _

  pub credit_supplemental-Kept :
      (r : PaymentRequest) (reference : Text) (amount : ℕ)
      → Kept u opening (credit_supplemental r reference amount)
  unfolding credit_supplemental
  credit_supplemental-Kept r reference amount =
      Triple-bind (credit_received-Kept _) λ made. Triple-pure true (λ s p. p)

  -- An approval of a payment request that commits, by an admin or by a provider's webhook, keeps the
  -- books of every customer: if the wallet and the ledger agreed before, they agree afterwards.
  pub approval_keeps_books :
      (id : ℕ) (actor : Approver) (s : Db) (r : PaymentRequest) (t : Db)
      → Reconciled u opening s
      → approve_as id actor s ≡ ok (r, t)
      → Reconciled u opening t
  approval_keeps_books id actor s r t p e = committed_at (approve_as-Kept id actor) s p r t e
