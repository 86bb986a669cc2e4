-- ===== src/Payment.antt =====
-- `PaymentService` (apps/api/src/payment/payment.service.ts): payment requests, their approval and their
-- end. The bank's transfers are in the child Bank.
pub mod Transfers
pub mod Bank
pub mod Approval
pub mod Requests
pub mod Callback
pub mod Checkout
pub mod Deposits
pub mod Books
use cdk_gpt.Prelude.{
  ℕ, ◌+◌, Bool, true, false, ◌&&◌, ◌||◌, not, Option, none, some, is_some, is_none, List, [], ◌∷◌,
  ◌++◌, Text, codes, text_eq, eq_text?, int, pos, ◌==◌, leb, if◌then◌else◌, find_first,
  find_and_update, update_all, any_row, holds,
}
use cdk_gpt.Store.{
  Db, PaymentRequest, PaymentRequestStatus, PaymentMetadata, Provider, QuickCheckout,
  CheckoutStatus, FulfillmentError, WalletTransaction, deposit, payment_request, ActorType, Tx, ok,
  payment_not_found, payment_not_pending, ◌>>=◌, ◌>>◌, pure, gets, or_throw,
}
use cdk_gpt.Wallet.{WalletChange, credit_change}
use cdk_gpt.Inventory.{release_payment_reservations}

abbrev pub is_bank : Provider → Bool
is_bank Provider.bank_api = true
is_bank _ = false

abbrev pub is_pending_payment : PaymentRequestStatus → Bool
is_pending_payment PaymentRequestStatus.pending = true
is_pending_payment _ = false

-- `status: { $in: [PENDING, EXPIRED] }`
abbrev pub is_unpaid : PaymentRequestStatus → Bool
is_unpaid PaymentRequestStatus.pending = true
is_unpaid PaymentRequestStatus.expired = true
is_unpaid _ = false

unfoldable pub find_request : (PaymentRequest → Bool) → Tx (Option PaymentRequest)
find_request p = gets λ s. find_first p s.payment_requests

abbrev store_request :
    Db → Option (PaymentRequest × List PaymentRequest) → Option PaymentRequest × Db
store_request s none = (none, s)
store_request s (some (x, xs)) = (some x, record s { payment_requests = xs })

-- Each update of a request sets its time too (`timestamps` of the schema).
abbrev pub touched : ℕ → PaymentRequest → PaymentRequest
touched now x = record x { updated_at = now }

-- `requests.findOneAndUpdate(filter, update, { new: true })`
unfoldable pub update_request :
    (PaymentRequest → Bool) → (PaymentRequest → PaymentRequest) → Tx (Option PaymentRequest)
update_request p f s =
    ok (store_request s (find_and_update p (λ x. touched s.now (f x)) s.payment_requests))

-- Who approves a request.
pub record Approver : Type 0 where
  pub actor_type : ActorType
  pub actor_id : Option ℕ
  pub idempotency_key : Text

-- The credit of an approved request.
abbrev pub approval_credit : PaymentRequest → Approver → WalletChange
approval_credit r actor = record {
  user_id = r.user_id;
  amount = int (pos r.amount);
  kind = deposit;
  reason = codes "Payment " ++ r.request_code ++ codes " approved";
  reference_type = payment_request;
  reference_id = some r.id;
  idempotency_key = codes "deposit:" ++ actor.idempotency_key;
  actor_type = actor.actor_type;
  actor_id = actor.actor_id;
}

-- `approveAs`, once it is known that the request is not approved yet.
unfoldable pub approve_pending : ℕ → Approver → Tx PaymentRequest
approve_pending id actor = do
  now ← gets λ s. s.now
  approved ←
      or_throw payment_not_pending
        (← update_request (λ x. x.id == id && is_pending_payment x.status)
          (λ x. record x {
            status = PaymentRequestStatus.approved;
            reviewed_by = actor.actor_id;
            reviewed_at = some now;
          }))
  made ← credit_change (approval_credit approved actor)
  update_request (λ x. x.id == approved.id) (λ x. record x { wallet_transaction_id = some made.id })
  pure (record approved { wallet_transaction_id = some made.id })

abbrev pub approve_by_status : PaymentRequest → Approver → PaymentRequestStatus → Tx PaymentRequest
approve_by_status r actor PaymentRequestStatus.approved = pure r
approve_by_status r actor PaymentRequestStatus.pending = approve_pending r.id actor
approve_by_status r actor PaymentRequestStatus.expired = approve_pending r.id actor
approve_by_status r actor PaymentRequestStatus.rejected = approve_pending r.id actor

-- `approveAs`
unfoldable pub approve_as : ℕ → Approver → Tx PaymentRequest
approve_as id actor = do
  existing ← or_throw payment_not_found (← find_request (λ x. x.id == id))
  approve_by_status existing actor existing.status

-- A checkout that has failed, and why.
abbrev pub failed_checkout : FulfillmentError → QuickCheckout → QuickCheckout
failed_checkout e c = record c {
  status = CheckoutStatus.failed;
  fulfillment_error = some e;
  processing_at = none;
}

abbrev pub map_checkout : (QuickCheckout → QuickCheckout) → PaymentMetadata → PaymentMetadata
map_checkout f m = elim m.quick_checkout [
  | none ↦ m
  | some c ↦ record m { quick_checkout = some (f c) }
]

-- The request of this customer at the bank, if it is not deleted.
abbrev pub own_request : ℕ → ℕ → PaymentRequest → Bool
own_request id user_id x = x.id == id && x.user_id == user_id && is_bank x.provider && not x.deleted

unfoldable pub cancel_pending : PaymentRequest → Tx (Unit {0})
cancel_pending r = do
  now ← gets λ s. s.now
  updated ←
      update_request
        (λ x.
          x.id == r.id
          && x.user_id == r.user_id
          && is_bank x.provider
          && is_pending_payment x.status
          && is_none x.provider_reference)
        (λ x. record x {
          status = PaymentRequestStatus.expired;
          metadata =
              map_checkout (failed_checkout FulfillmentError.user_cancelled)
                (record x.metadata { user_cancelled_at = some now });
        })
  elim updated [ none ↦ pure tt | some x ↦ do release_payment_reservations x.id; pure tt ]

abbrev pub cancel_if_pending : PaymentRequest → Tx (Unit {0})
cancel_if_pending r = if is_pending_payment r.status then cancel_pending r else pure tt

-- The transaction of `cancelBankCheckout`.
unfoldable pub cancel_bank_checkout : ℕ → ℕ → Tx (Unit {0})
cancel_bank_checkout id user_id = do
  r ← or_throw payment_not_found (← find_request (own_request id user_id))
  c ← or_throw payment_not_found r.metadata.quick_checkout
  cancel_if_pending r

-- `metadata.expiresAt: { $lte: now }`
abbrev pub expired_by : ℕ → Option ℕ → Bool
expired_by now none = false
expired_by now (some t) = leb t now

-- An ordinary deposit, or a checkout that holds no stock.
abbrev pub holds_no_stock : PaymentRequest → Bool
holds_no_stock x = elim x.metadata.quick_checkout [ none ↦ true | some c ↦ c.soft ]

abbrev pub due_request : ℕ → PaymentRequest → Bool
due_request now x =
    is_bank x.provider && is_pending_payment x.status && expired_by now x.metadata.expires_at

-- The first half of `expireBankTopups`: the requests that hold no stock.
unfoldable pub expire_unreserved : Tx (Unit {0})
expire_unreserved s = ok (
  tt,
  record s {
    payment_requests =
        update_all (λ x. due_request s.now x && holds_no_stock x)
          (λ x. touched s.now (record x { status = PaymentRequestStatus.expired }))
          s.payment_requests;
  },
)

-- A round of its loop: a request that holds stock expires and gives it back.
unfoldable pub expire_reserved : ℕ → Tx Bool
expire_reserved id = do
  now ← gets λ s. s.now
  expired ←
      update_request (λ x. due_request now x && x.id == id)
        (λ x. record x { status = PaymentRequestStatus.expired })
  elim expired [ none ↦ pure false | some x ↦ do release_payment_reservations x.id; pure true ]
