-- ===== src/Payment/Approval/Late.antt =====
-- A late payment buys nothing.
use mathlib.Core.Path.{subst}
use cdk_gpt.Prelude.{
  refl, find_first, ℕ, ◌≡◌, Bool, true, false, Option, none, some, is_some, List, [], Text, arith,
  ◌==◌,
}
use cdk_gpt.Store.{
  Db, Order, PaymentRequest, PaymentRequestStatus, PaymentMetadata, QuickCheckout, FulfillmentError,
  Result, ok, approval_claim_lost,
}
use cdk_gpt.Store.Rules.{
  Committed, Present, Triple, Triple-bind, Triple-require, Triple-gets, Triple-pure, Triple-if,
}
use cdk_gpt.Wallet.{
  WalletChange, change, apply_change, apply_after, apply_new, find_payer, move_balance, create,
  find_by_idempotency_key, credit_received_change,
}
use cdk_gpt.Inventory.{release_payment_reservations, update_items}
use cdk_gpt.Users.{find_existing, credit_received_funds, update_user}
use cdk_gpt.Payment.{find_request, update_request}
use cdk_gpt.Payment.Bank.{
  credit_supplemental, is_from, reference_used, claim_request, save_request, release_if, bank_only,
  is_late,
}
use cdk_gpt.Payment.Approval.{
  refusal, claim_and_credit, approve_deposit, approve_checkout, approve_unpaid, approve_if_unused,
  approval_by_status, approve_once,
}

-- The orders are those of before.
abbrev SameOrders : List Order → Db → Type 0
SameOrders os s = s.orders ≡ os

module _ (os : List Order) where
  update_request-Same :
      (p : PaymentRequest → Bool) (f : PaymentRequest → PaymentRequest)
      → Triple (SameOrders os) (update_request p f) (Present (λ a. SameOrders os))
  unfolding update_request
  update_request-Same p f = record { run = λ s h. ground arith }

  save_request-Same :
      (id transaction_id : ℕ) (m : PaymentMetadata)
      → Triple (SameOrders os) (save_request id transaction_id m) (λ a. SameOrders os)
  unfolding save_request update_request
  save_request-Same id transaction_id m = record { run = λ s h. ground arith }

  release_if-Same :
      (b : Bool) (id : ℕ) → Triple (SameOrders os) (release_if b id) (λ a. SameOrders os)
  unfolding release_if release_payment_reservations update_items
  release_if-Same false id = record { run = λ s p. p }
  release_if-Same true id = record { run = λ s p. p }

  credit_received-Same :
      (input : WalletChange)
      → Triple (SameOrders os) (credit_received_change input) (λ a. SameOrders os)
  unfolding credit_received_change change apply_change apply_after apply_new find_payer
      find_existing move_balance credit_received_funds update_user create find_by_idempotency_key
  credit_received-Same input = record { run = λ s p. ground arith }

  claim_and_credit-Same :
      (r : PaymentRequest) (reference : Text) (m : PaymentMetadata)
      → Triple (SameOrders os) (claim_and_credit r reference m) (λ a. SameOrders os)
  unfolding claim_and_credit claim_request
  claim_and_credit-Same r reference m =
      Triple-require approval_claim_lost
        (Triple-bind (Triple-gets (λ s. s.now) (λ s p. p)) λ now. update_request-Same _ _)
        λ claimed. Triple-bind (credit_received-Same _) λ made. Triple-pure made.id (λ s p. p)

  approve_deposit-Same :
      (r : PaymentRequest) (reference : Text) (m : PaymentMetadata) (held : Bool)
      → Triple (SameOrders os) (approve_deposit r reference m held) (λ a. SameOrders os)
  unfolding approve_deposit
  approve_deposit-Same r reference m held = Triple-bind (claim_and_credit-Same r reference m) λ id.
      Triple-bind (save_request-Same r.id id m)
        λ saved. Triple-bind (release_if-Same held r.id) λ freed. Triple-pure [] (λ s p. p)

  approve_refused-Same :
      (r : PaymentRequest) (reference : Text) (m : PaymentMetadata) (c : QuickCheckout)
      (why : Option FulfillmentError)
      → is_some why ≡ true
      → Triple (SameOrders os) (approve_checkout r reference m c why) (λ a. SameOrders os)
  unfolding approve_checkout
  approve_refused-Same r reference m c none h = cc
  approve_refused-Same r reference m c (some e) h = approve_deposit-Same r reference _ true

  approve_late-Same :
      (r : PaymentRequest) (reference raw : Text) (c : Option QuickCheckout)
      → Triple (SameOrders os) (approve_unpaid r reference raw true c) (λ a. SameOrders os)
  unfolding approve_unpaid refusal
  approve_late-Same r reference raw none = approve_deposit-Same r reference _ false
  approve_late-Same r reference raw (some c) = approve_refused-Same r reference _ c _ (ground arith)

  credit_supplemental-Same :
      (r : PaymentRequest) (reference : Text) (amount : ℕ)
      → Triple (SameOrders os) (credit_supplemental r reference amount) (λ a. SameOrders os)
  unfolding credit_supplemental
  credit_supplemental-Same r reference amount =
      Triple-bind (credit_received-Same _) λ made. Triple-pure true (λ s p. p)

-- A run that leaves the orders as they are, if it commits.
abbrev LeavesOrders : Db → Result (Bool × Db) → Type 0
LeavesOrders s r = Committed (λ x. SameOrders s.orders) r

module _ (r : PaymentRequest) (reference raw : Text) (s : Db) (late : is_late r s.now ≡ true) where
  approve_if_unused-late : (used : Bool) → LeavesOrders s (approve_if_unused r reference raw used s)
  unfolding approve_if_unused
  approve_if_unused-late true = refl
  approve_if_unused-late false = rw late (
      (Triple-bind (approve_late-Same s.orders r reference raw r.metadata.quick_checkout)
          λ orders. Triple-pure true (λ t p. p)).run
        s refl)

  approval_by_status-late :
      (trimmed : Option Text) (status : PaymentRequestStatus)
      → LeavesOrders s (approval_by_status r reference raw trimmed status s)
  unfolding reference_used
  approval_by_status-late trimmed PaymentRequestStatus.approved =
      (Triple-if (is_from r reference trimmed) _ _ (λ e. Triple-pure true (λ t p. p))
          (λ e. credit_supplemental-Same s.orders r reference r.amount)).run
        s refl
  approval_by_status-late trimmed PaymentRequestStatus.pending = approve_if_unused-late _
  approval_by_status-late trimmed PaymentRequestStatus.expired = approve_if_unused-late _
  approval_by_status-late trimmed PaymentRequestStatus.rejected = refl

  bank_only-late :
      (trimmed : Option Text)
      → LeavesOrders s
          (bank_only (λ x. approval_by_status x reference raw trimmed x.status) (some r) s)
  bank_only-late trimmed = ground (arith, approval_by_status-late trimmed r.status)

-- A transfer that comes late, after the request has expired or was cancelled, buys nothing: the orders
-- are those of before, whatever the approval does with the request and the wallet.
pub late_payment_buys_nothing :
    (id : ℕ) (reference raw : Text) (trimmed : Option Text) (s : Db) (r : PaymentRequest)
    (answer : Bool) (t : Db)
    → find_first (λ x. x.id == id) s.payment_requests ≡ some r
    → is_late r s.now ≡ true
    → approve_once id reference raw trimmed s ≡ ok (answer, t)
    → t.orders ≡ s.orders
unfolding approve_once find_request
late_payment_buys_nothing id reference raw trimmed s r answer t found late e =
    let kept : LeavesOrders s
        (bank_only (λ x. approval_by_status x reference raw trimmed x.status) (some r) s) =
      bank_only-late r reference raw s late trimmed in
    subst (Committed (λ x. SameOrders s.orders)) (rw found at e) kept
