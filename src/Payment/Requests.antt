-- ===== src/Payment/Requests.antt =====
-- `create` and `processWebhook` of `PaymentService` (apps/api/src/payment/payment.service.ts): requests
-- that are made under a key, once, and approved by the webhook of a provider.
pub mod Once
pub mod Books
use cdk_gpt.Prelude.{
  ℕ, ◌+◌, Bool, true, false, ◌&&◌, ◌||◌, not, Option, none, some, List, [], ◌∷◌, ◌++◌, Text, codes,
  text_eq, eq_text?, Number, positive_safe, ◌==◌, find_first, any_row,
}
use cdk_gpt.Store.{
  Db, PaymentRequest, PaymentRequestStatus, PaymentMetadata, Provider, webhook, Tx, Result, ok, err,
  Error, duplicate_key, idempotency_conflict, invalid_payment_request, payment_not_found,
  webhook_mismatch, ◌>>=◌, ◌>>◌, pure, throw, gets, modify, or_throw, throw_if, new_id,
}
use cdk_gpt.Purchase.{IdText, object_id_of}
use cdk_gpt.Payment.{find_request, update_request, touched, approve_as}

abbrev pub same_provider : Provider → Provider → Bool
same_provider Provider.bank_api Provider.bank_api = true
same_provider (Provider.named a) (Provider.named b) = text_eq a b
same_provider _ _ = false

abbrev pub provider_name : Provider → Text
provider_name Provider.bank_api = codes "BANK_API"
provider_name (Provider.named a) = a

abbrev pub no_metadata : PaymentMetadata
no_metadata = record {
  transfer_content = none;
  bank_config_id = none;
  expires_at = none;
  user_cancelled_at = none;
  amount_mismatch = none;
  bank_transaction_id = none;
  late_payment = none;
  quick_checkout = none;
}

-- `PAY-` and a text drawn at random.
abbrev pub payment_code : Db → Text
payment_code s = codes "PAY-" ++ s.draw s.next_id

-- A request as it is first written, at a time that the insertion sets.
abbrev pub new_request :
    ℕ → ℕ → Provider → Option Text → Text → PaymentMetadata → ℕ → Text → PaymentRequest
new_request user_id amount provider reference key metadata id code = record {
  id = id;
  request_code = code;
  user_id = user_id;
  amount = amount;
  provider = provider;
  provider_reference = reference;
  status = PaymentRequestStatus.pending;
  reviewed_by = none;
  reviewed_at = none;
  wallet_transaction_id = none;
  idempotency_key = key;
  metadata = metadata;
  deleted = false;
  updated_at = 0;
}

abbrev pub request_has_key : Text → PaymentRequest → Bool
request_has_key key x = text_eq x.idempotency_key key

-- The insertion of `{ $setOnInsert, upsert: true }` where nothing is found, under the unique index on the key.
unfoldable pub insert_request : Text → (ℕ → Text → PaymentRequest) → Tx PaymentRequest
insert_request key make = do
  taken ← gets λ s. any_row (request_has_key key) s.payment_requests
  throw_if taken duplicate_key
  code ← gets payment_code
  now ← gets λ s. s.now
  id ← new_id
  let made : PaymentRequest = touched now (make id code)
  modify λ s. record s { payment_requests = s.payment_requests ++ made ∷ [] }
  pure made

unfoldable pub found_or_inserted :
    Text → (ℕ → Text → PaymentRequest) → Option PaymentRequest → Tx PaymentRequest
found_or_inserted key make none = insert_request key make
found_or_inserted key make (some r) = pure r

-- `findOneAndUpdate` with `$setOnInsert` and `upsert`: of a request that is found only the time is set.
unfoldable pub upsert_request :
    (PaymentRequest → Bool) → Text → (ℕ → Text → PaymentRequest) → Tx PaymentRequest
upsert_request p key make = update_request p (λ x. x) >>= found_or_inserted key make

-- The request that has the key is another one.
abbrev pub is_other_request : ℕ → ℕ → Provider → PaymentRequest → Bool
is_other_request user_id n provider r =
    not (r.user_id == user_id) || not (r.amount == n) || not (same_provider r.provider provider)

-- `create`, behind the checks of its arguments.
unfoldable pub create_for : ℕ → ℕ → Provider → Text → Tx PaymentRequest
create_for user_id n provider key = do
  r ← upsert_request (request_has_key key) key (new_request user_id n provider none key no_metadata)
  throw_if (is_other_request user_id n provider r) idempotency_conflict
  pure r

-- `create`
unfoldable pub create_request : IdText → Number → Provider → Text → Tx PaymentRequest
create_request user amount provider key = do
  user_id ← or_throw invalid_payment_request (object_id_of user)
  n ← or_throw invalid_payment_request (positive_safe amount)
  create_for user_id n provider key

-- The key of a webhook's delivery.
abbrev pub webhook_key : Provider → Text → Text
webhook_key provider reference =
    codes "webhook:" ++ provider_name provider ++ codes ":" ++ reference

abbrev pub has_reference : Provider → Text → PaymentRequest → Bool
has_reference provider reference x =
    same_provider x.provider provider && eq_text? x.provider_reference (some reference)

-- The catch clause: after a duplicate key the request is looked up again.
unfoldable pub recover_request : Provider → Text → Result (PaymentRequest × Db) → Tx PaymentRequest
recover_request provider reference (ok (r, t)) s = ok (r, t)
recover_request provider reference (err duplicate_key) s =
    (find_request (has_reference provider reference) >>= or_throw payment_not_found) s
recover_request provider reference (err e) s = err e

-- `processWebhook`
unfoldable pub process_webhook : Provider → Text → ℕ → ℕ → Tx PaymentRequest
process_webhook provider reference user_id amount = do
  let key : Text = webhook_key provider reference
  r ← λ s.
      recover_request provider reference
        (upsert_request (has_reference provider reference) key
          (new_request user_id amount provider (some reference) key no_metadata) s)
        s
  throw_if (not (r.user_id == user_id) || not (r.amount == amount)) webhook_mismatch
  approve_as r.id (record { actor_type = webhook; actor_id = none; idempotency_key = key })
