-- ===== src/Payment/Approval/Books.antt =====
-- `processBankTransaction` keeps the books.
use cdk_gpt.Prelude.{
  ℕ, ◌≡◌, Bool, true, false, ◌&&◌, not, Option, none, some, is_some, [], Text, arith, ◌==◌,
  positive_safe,
}
use cdk_gpt.Store.{
  Db, PaymentRequest, PaymentRequestStatus, PaymentMetadata, QuickCheckout, FulfillmentError,
  Result, ok, err, Error, out_of_stock, coupon_unavailable, duplicate_key, approval_claim_lost,
}
use cdk_gpt.Store.Rules.{
  Committed, Triple-bind, Triple-require, Triple-gets, Triple-pure, Triple-if, committed_at,
}
use cdk_gpt.Wallet.Ledger.{Reconciled}
use cdk_gpt.Purchase.Books.{Kept}
use cdk_gpt.Purchase.Session.Books.{purchase_batch_in_session-Kept}
use cdk_gpt.Payment.Bank.{BankTransaction, is_from, checkout_input}
use cdk_gpt.Payment.Approval.{
  refusal, serve_checkout, claim_and_credit, approve_deposit, approve_checkout, approve_unpaid,
  approve_if_unused, approval_by_status, approve_once, settle_failed, failed_by_status,
  failed_checkout_of, reconcile_failed, settled_on_duplicate, reconcile_failed_soft_checkout,
  true_or_throw, approve_failed, approve_bank_request, is_approved, settle_transfer, match_request,
  process_bank_transaction,
}
use cdk_gpt.Store.Rules.{Triple-option}
use cdk_gpt.Payment.Books.{
  find_request-Kept, credit_received-Kept, release_if-Kept, claim_request-Kept,
  claim_request-KeptIfFound, save_request-Kept, credit_supplemental-Kept,
}
use cdk_gpt.Payment.Approval.Checkouts.{
  reference_used-Kept, bank_only-Kept, reconcile_mismatched_bank_transfer-Kept,
  refusal_in_time-Kept,
}

module _ (u opening : ℕ) where
  refusal-Kept :
      (r : PaymentRequest) (c : QuickCheckout) (late : Bool) → Kept u opening (refusal r c late)
  unfolding refusal
  refusal-Kept r c true = Triple-pure _ (λ s p. p)
  refusal-Kept r c false =
      Triple-if (is_some r.metadata.user_cancelled_at) _ _ (λ e. Triple-pure none (λ s p. p))
        (λ e. refusal_in_time-Kept u opening r c c.soft)

  serve_checkout-Kept :
      (r : PaymentRequest) (c : QuickCheckout) (m : PaymentMetadata) (id : ℕ)
      → Kept u opening (serve_checkout r c m id)
  unfolding serve_checkout
  serve_checkout-Kept r c m id =
      Triple-bind (purchase_batch_in_session-Kept u opening (checkout_input r c)) λ orders.
        Triple-bind (Triple-gets (λ s. s.now) (λ s p. p)) λ now.
          Triple-bind (save_request-Kept u opening r.id id _) λ saved. Triple-pure orders (λ s p. p)

  claim_and_credit-Kept :
      (r : PaymentRequest) (reference : Text) (m : PaymentMetadata)
      → Kept u opening (claim_and_credit r reference m)
  unfolding claim_and_credit
  claim_and_credit-Kept r reference m =
      Triple-require approval_claim_lost (claim_request-KeptIfFound u opening r.id reference m)
        λ claimed.
          Triple-bind (credit_received-Kept u opening _) λ made. Triple-pure made.id (λ s p. p)

  approve_deposit-Kept :
      (r : PaymentRequest) (reference : Text) (m : PaymentMetadata) (held : Bool)
      → Kept u opening (approve_deposit r reference m held)
  unfolding approve_deposit
  approve_deposit-Kept r reference m held = Triple-bind (claim_and_credit-Kept r reference m) λ id.
      Triple-bind (save_request-Kept u opening r.id id m) λ saved.
        Triple-bind (release_if-Kept u opening held r.id) λ freed. Triple-pure [] (λ s p. p)

  approve_checkout-Kept :
      (r : PaymentRequest) (reference : Text) (m : PaymentMetadata) (c : QuickCheckout)
      (why : Option FulfillmentError)
      → Kept u opening (approve_checkout r reference m c why)
  unfolding approve_checkout
  approve_checkout-Kept r reference m c none =
      Triple-bind (claim_and_credit-Kept r reference m) (serve_checkout-Kept r c m)
  approve_checkout-Kept r reference m c (some e) = approve_deposit-Kept r reference _ true

  approve_unpaid-Kept :
      (r : PaymentRequest) (reference raw : Text) (late : Bool) (c : Option QuickCheckout)
      → Kept u opening (approve_unpaid r reference raw late c)
  unfolding approve_unpaid
  approve_unpaid-Kept r reference raw late none = approve_deposit-Kept r reference _ false
  approve_unpaid-Kept r reference raw late (some c) =
      Triple-bind (refusal-Kept r c late) (approve_checkout-Kept r reference _ c)

  approve_if_unused-Kept :
      (r : PaymentRequest) (reference raw : Text) (used : Bool)
      → Kept u opening (approve_if_unused r reference raw used)
  unfolding approve_if_unused
  approve_if_unused-Kept r reference raw true = Triple-pure false (λ s p. p)
  approve_if_unused-Kept r reference raw false =
      Triple-bind (Triple-gets (λ s. s.now) (λ s p. p)) λ now.
        Triple-bind (approve_unpaid-Kept r reference raw _ r.metadata.quick_checkout)
          λ orders. Triple-pure true (λ s p. p)

  approval_by_status-Kept :
      (r : PaymentRequest) (reference raw : Text) (trimmed : Option Text)
      (status : PaymentRequestStatus)
      → Kept u opening (approval_by_status r reference raw trimmed status)
  approval_by_status-Kept r reference raw trimmed PaymentRequestStatus.approved =
      Triple-if (is_from r reference trimmed) _ _ (λ e. Triple-pure true (λ s p. p))
        (λ e. credit_supplemental-Kept u opening r reference r.amount)
  approval_by_status-Kept r reference raw trimmed PaymentRequestStatus.pending =
      Triple-bind (reference_used-Kept u opening reference) (approve_if_unused-Kept r reference raw)
  approval_by_status-Kept r reference raw trimmed PaymentRequestStatus.expired =
      Triple-bind (reference_used-Kept u opening reference) (approve_if_unused-Kept r reference raw)
  approval_by_status-Kept r reference raw trimmed PaymentRequestStatus.rejected =
      Triple-pure false (λ s p. p)

  approve_once-Kept :
      (id : ℕ) (reference raw : Text) (trimmed : Option Text)
      → Kept u opening (approve_once id reference raw trimmed)
  unfolding approve_once
  approve_once-Kept id reference raw trimmed =
      Triple-bind (find_request-Kept u opening _)
        (bank_only-Kept u opening _ (λ r. approval_by_status-Kept r reference raw trimmed r.status))

  settle_failed-Kept :
      (r : PaymentRequest) (c : QuickCheckout) (reference raw : Text) (e : Error) (used : Bool)
      → Kept u opening (settle_failed r c reference raw e used)
  unfolding settle_failed
  settle_failed-Kept r c reference raw e true = Triple-pure false (λ s p. p)
  settle_failed-Kept r c reference raw e false =
      Triple-bind (claim_request-Kept u opening r.id reference _) λ claimed.
        Triple-option _ _ claimed (Triple-pure false (λ s p. p)) λ x.
          Triple-bind (credit_received-Kept u opening _) λ made.
            Triple-bind (save_request-Kept u opening x.id made.id x.metadata)
              λ saved. Triple-pure true (λ s p. p)

  failed_by_status-Kept :
      (r : PaymentRequest) (c : QuickCheckout) (reference raw : Text) (e : Error)
      (status : PaymentRequestStatus)
      → Kept u opening (failed_by_status r c reference raw e status)
  failed_by_status-Kept r c reference raw e PaymentRequestStatus.approved = Triple-pure _ (λ s p. p)
  failed_by_status-Kept r c reference raw e PaymentRequestStatus.pending =
      Triple-bind (reference_used-Kept u opening reference) (settle_failed-Kept r c reference raw e)
  failed_by_status-Kept r c reference raw e PaymentRequestStatus.expired =
      Triple-bind (reference_used-Kept u opening reference) (settle_failed-Kept r c reference raw e)
  failed_by_status-Kept r c reference raw e PaymentRequestStatus.rejected =
      Triple-pure false (λ s p. p)

  failed_checkout_of-Kept :
      (r : PaymentRequest) (reference raw : Text) (e : Error) (o : Option QuickCheckout)
      → Kept u opening (failed_checkout_of r reference raw e o)
  failed_checkout_of-Kept r reference raw e none = Triple-pure false (λ s p. p)
  failed_checkout_of-Kept r reference raw e (some c) =
      Triple-if c.soft _ _ (λ h. failed_by_status-Kept r c reference raw e r.status)
        (λ h. Triple-pure false (λ s p. p))

  reconcile_failed-Kept :
      (id : ℕ) (reference raw : Text) (e : Error)
      → Kept u opening (reconcile_failed id reference raw e)
  unfolding reconcile_failed
  reconcile_failed-Kept id reference raw e = Triple-bind (find_request-Kept u opening _) (
      bank_only-Kept u opening _
        (λ r. failed_checkout_of-Kept r reference raw e r.metadata.quick_checkout))

  settled_on_duplicate-Kept :
      (id : ℕ) (reference : Text) (s : Db) (r : Result (Bool × Db))
      → Reconciled u opening s
      → Committed (λ x. Reconciled u opening) r
      → Committed (λ x. Reconciled u opening) (settled_on_duplicate id reference s r)
  settled_on_duplicate-Kept id reference s r p c = ground arith

  true_or_throw-Kept :
      (e : Error) (r : Result (Bool × Db))
      → Committed (λ x. Reconciled u opening) r
      → Committed (λ x. Reconciled u opening) (true_or_throw e r)
  true_or_throw-Kept e r c = ground arith

  reconcile_failed_soft_checkout-Kept :
      (id : ℕ) (reference raw : Text) (e : Error)
      → Kept u opening (reconcile_failed_soft_checkout id reference raw e)
  unfolding reconcile_failed_soft_checkout
  reconcile_failed_soft_checkout-Kept id reference raw e = record {
    run = λ s p.
        settled_on_duplicate-Kept id reference s (reconcile_failed id reference raw e s) p
          ((reconcile_failed-Kept id reference raw e).run s p);
  }

  approve_failed-Kept :
      (id : ℕ) (reference raw : Text) (r : Result (Bool × Db)) (s : Db)
      → Reconciled u opening s
      → Committed (λ x. Reconciled u opening) r
      → Committed (λ x. Reconciled u opening) (approve_failed id reference raw r s)
  unfolding approve_failed
  approve_failed-Kept id reference raw (ok (x, t)) s p c = c
  approve_failed-Kept id reference raw (err duplicate_key) s p c = p
  approve_failed-Kept id reference raw (err out_of_stock) s p c =
      true_or_throw-Kept out_of_stock _
        ((reconcile_failed_soft_checkout-Kept id reference raw out_of_stock).run s p)
  approve_failed-Kept id reference raw (err coupon_unavailable) s p c =
      true_or_throw-Kept coupon_unavailable _
        ((reconcile_failed_soft_checkout-Kept id reference raw coupon_unavailable).run s p)
  approve_failed-Kept id reference raw (err e) s p c = ground arith

  approve_bank_request-Kept :
      (id : ℕ) (reference raw : Text) (trimmed : Option Text)
      → Kept u opening (approve_bank_request id reference raw trimmed)
  unfolding approve_bank_request
  approve_bank_request-Kept id reference raw trimmed = record {
    run = λ s p.
        approve_failed-Kept id reference raw (approve_once id reference raw trimmed s) s p
          ((approve_once-Kept id reference raw trimmed).run s p);
  }

  settle_transfer-Kept :
      (reference trimmed : Text) (x : BankTransaction) (amount : ℕ) (o : Option PaymentRequest)
      → Kept u opening (settle_transfer reference trimmed x amount o)
  unfolding settle_transfer
  settle_transfer-Kept reference trimmed x amount none = Triple-pure false (λ s p. p)
  settle_transfer-Kept reference trimmed x amount (some r) =
      Triple-if (not (r.amount == amount)) _ _
        (λ e.
          reconcile_mismatched_bank_transfer-Kept u opening r.id reference x.transaction_id amount)
        (λ e.
          Triple-if (is_approved r.status && not (is_from r reference (some trimmed))) _ _
            (λ h. credit_supplemental-Kept u opening r reference amount)
            (λ h. approve_bank_request-Kept r.id reference x.transaction_id (some trimmed)))

  pub process_bank_transaction-Kept :
      (x : BankTransaction) (bank_config_id : Option Text)
      → Kept u opening (process_bank_transaction x bank_config_id)
  unfolding process_bank_transaction match_request
  process_bank_transaction-Kept x bank_config_id =
      Triple-option _ _ (positive_safe x.amount) (Triple-pure false (λ s p. p)) λ amount.
        Triple-bind (find_request-Kept u opening _) λ request. settle_transfer-Kept _ _ x amount _

  -- A bank transfer that is processed without an error keeps the books of every customer, whatever
  -- becomes of it: a deposit, a checkout that is bought at once, one that is refused, late or of
  -- another amount, a further transfer for the same request, or a repeated delivery. If the wallet and
  -- the ledger agreed before, they agree afterwards.
  pub transfer_keeps_books :
      (x : BankTransaction) (bank_config_id : Option Text) (s : Db) (answer : Bool) (t : Db)
      → Reconciled u opening s
      → process_bank_transaction x bank_config_id s ≡ ok (answer, t)
      → Reconciled u opening t
  transfer_keeps_books x bank_config_id s answer t p e =
      committed_at (process_bank_transaction-Kept x bank_config_id) s p answer t e
