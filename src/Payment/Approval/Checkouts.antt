-- ===== src/Payment/Approval/Checkouts.antt =====
-- The bank's transfers keep the books: each one that reaches a wallet is on record.
use cdk_gpt.Prelude.{ℕ, Bool, true, false, Option, none, some, is_some, Text, arith}
use cdk_gpt.Store.{Db, PaymentRequest, PaymentRequestStatus, QuickCheckout, Tx, Result, pure}
use cdk_gpt.Store.Rules.{Committed, Triple-bind, Triple-gets, Triple-pure, Triple-if}
use cdk_gpt.Users.Totals.{balance_of, total-lock_for_checkout}
use cdk_gpt.Wallet.Ledger.{Reconciled, credits_of, debits_of}
use cdk_gpt.Inventory.{extend_payment_reservations, update_items, count_available}
use cdk_gpt.Users.{lock_for_checkout, find_active, update_user}
use cdk_gpt.Purchase.{ValidBatch, count_purchases, find_product}
use cdk_gpt.Purchase.Quote.{soft_checkout_availability, product_availability}
use cdk_gpt.Purchase.Books.{Kept}
use cdk_gpt.Purchase.Session.Books.{validate-Kept}
use cdk_gpt.Payment.{is_bank}
use cdk_gpt.Payment.Bank.{
  is_from, reference_used, settle_mismatch, mismatch_by_status, bank_only, reconcile_mismatched,
  false_on_duplicate, reconcile_mismatched_bank_transfer, refusal_in_time,
}
use cdk_gpt.Store.Rules.{Triple-option}
use cdk_gpt.Payment.Books.{
  find_request-Kept, credit_received-Kept, release_if-Kept, claim_request-Kept, save_request-Kept,
  credit_supplemental-Kept,
}

module _ (u opening : ℕ) where
  pub reference_used-Kept : (reference : Text) → Kept u opening (reference_used reference)
  unfolding reference_used
  reference_used-Kept reference = Triple-gets _ (λ s p. p)

  pub settle_mismatch-Kept :
      (r : PaymentRequest) (reference raw : Text) (received : ℕ) (used : Bool)
      → Kept u opening (settle_mismatch r reference raw received used)
  unfolding settle_mismatch
  settle_mismatch-Kept r reference raw received true = Triple-pure false (λ s p. p)
  settle_mismatch-Kept r reference raw received false =
      Triple-bind (claim_request-Kept u opening r.id reference _) λ claimed.
        Triple-option _ _ claimed (Triple-pure false (λ s p. p)) λ x.
          Triple-bind (credit_received-Kept u opening _) λ made.
            Triple-bind (save_request-Kept u opening x.id made.id x.metadata) λ saved.
              Triple-bind (release_if-Kept u opening (is_some r.metadata.quick_checkout) x.id)
                λ freed. Triple-pure true (λ s p. p)

  pub mismatch_by_status-Kept :
      (r : PaymentRequest) (reference raw : Text) (received : ℕ) (status : PaymentRequestStatus)
      → Kept u opening (mismatch_by_status r reference raw received status)
  mismatch_by_status-Kept r reference raw received PaymentRequestStatus.approved =
      Triple-if (is_from r reference (some raw)) _ _ (λ e. Triple-pure false (λ s p. p))
        (λ e. credit_supplemental-Kept u opening r reference received)
  mismatch_by_status-Kept r reference raw received PaymentRequestStatus.pending =
      Triple-bind (reference_used-Kept reference) (settle_mismatch-Kept r reference raw received)
  mismatch_by_status-Kept r reference raw received PaymentRequestStatus.expired =
      Triple-bind (reference_used-Kept reference) (settle_mismatch-Kept r reference raw received)
  mismatch_by_status-Kept r reference raw received PaymentRequestStatus.rejected =
      Triple-pure false (λ s p. p)

  pub bank_only-Kept :
      (f : PaymentRequest → Tx Bool)
      → ((r : PaymentRequest) → Kept u opening (f r))
      → (o : Option PaymentRequest) → Kept u opening (bank_only f o)
  bank_only-Kept f h none = Triple-pure false (λ s p. p)
  bank_only-Kept f h (some r) =
      Triple-if (is_bank r.provider) (f r) (pure false) (λ e. h r)
        (λ e. Triple-pure false (λ s p. p))

  pub reconcile_mismatched-Kept :
      (id : ℕ) (reference raw : Text) (received : ℕ)
      → Kept u opening (reconcile_mismatched id reference raw received)
  unfolding reconcile_mismatched
  reconcile_mismatched-Kept id reference raw received =
      Triple-bind (find_request-Kept u opening _)
        (bank_only-Kept _ (λ r. mismatch_by_status-Kept r reference raw received r.status))

  pub false_on_duplicate-Kept :
      (s : Db) (r : Result (Bool × Db))
      → Reconciled u opening s
      → Committed (λ x. Reconciled u opening) r
      → Committed (λ x. Reconciled u opening) (false_on_duplicate s r)
  false_on_duplicate-Kept s r p c = ground arith

  pub reconcile_mismatched_bank_transfer-Kept :
      (id : ℕ) (reference raw : Text) (received : ℕ)
      → Kept u opening (reconcile_mismatched_bank_transfer id reference raw received)
  unfolding reconcile_mismatched_bank_transfer
  reconcile_mismatched_bank_transfer-Kept id reference raw received = record {
    run = λ s p.
        false_on_duplicate-Kept s (reconcile_mismatched id reference raw received s) p
          ((reconcile_mismatched-Kept id reference raw received).run s p);
  }

  pub soft_checkout-Kept : (b : ValidBatch) → Kept u opening (soft_checkout_availability b)
  unfolding soft_checkout_availability product_availability find_product count_purchases
      count_available find_active lock_for_checkout update_user balance_of credits_of debits_of
  soft_checkout-Kept b = record {
    run = λ s p. ground (arith, total-lock_for_checkout b.user_id 0 u s.users);
  }

  pub extend-Kept : (id t : ℕ) → Kept u opening (extend_payment_reservations id t)
  unfolding extend_payment_reservations update_items balance_of credits_of debits_of
  extend-Kept id t = record { run = λ s p. p }

  pub active-Kept : (id : ℕ) → Kept u opening (find_active id)
  unfolding find_active
  active-Kept id = Triple-gets _ (λ s p. p)

  pub refusal_in_time-Kept :
      (r : PaymentRequest) (c : QuickCheckout) (soft : Bool)
      → Kept u opening (refusal_in_time r c soft)
  unfolding refusal_in_time
  refusal_in_time-Kept r c true =
      Triple-bind (validate-Kept u opening _)
        λ b. Triple-bind (soft_checkout-Kept b) λ answer. Triple-pure _ (λ s p. p)
  refusal_in_time-Kept r c false = Triple-bind (active-Kept r.user_id) λ user.
      Triple-bind (Triple-gets (λ s. s.now) (λ s p. p)) λ now.
        Triple-option _ _ user (Triple-pure _ (λ s p. p))
          λ x. Triple-bind (extend-Kept r.id _) λ held. Triple-pure _ (λ s p. p)
