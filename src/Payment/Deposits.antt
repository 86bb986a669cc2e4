-- ===== src/Payment/Deposits.antt =====
-- `createBankDeposit` (apps/api/src/payment/payment.service.ts): a payment request that a bank transfer
-- pays into the wallet. The bank in use, which the answer shows, is a setting.
pub mod Replay
use cdk_gpt.Prelude.{ℕ, ◌+◌, ◌*◌, none, some, ◌++◌, Text, codes, Number, positive_safe}
use cdk_gpt.Store.{
  Db, PaymentRequest, PaymentMetadata, Provider, Tx, idempotency_conflict, invalid_payment_request,
  ◌>>=◌, ◌>>◌, pure, gets, or_throw, throw_if,
}
use cdk_gpt.Purchase.{IdText, object_id_of}
use cdk_gpt.Payment.Requests.{
  new_request, no_metadata, request_has_key, upsert_request, is_other_request,
}
use cdk_gpt.Payment.Checkout.{BankSetting}

-- `bankRequestCode`: `NAP` and a text drawn at random.
abbrev pub bank_request_code : Db → Text
bank_request_code s = codes "NAP" ++ s.draw s.next_id

abbrev pub deposit_metadata : BankSetting → Db → PaymentMetadata
deposit_metadata bank s = record no_metadata {
  transfer_content = some (bank_request_code s);
  bank_config_id = some bank.bank_config_id;
  expires_at = some (s.now + bank.ttl_minutes * 60000);
}

-- The request that `$setOnInsert` writes; its code is drawn before the query.
abbrev pub new_deposit : BankSetting → ℕ → ℕ → Text → Db → ℕ → Text → PaymentRequest
new_deposit bank user_id n key s id drawn =
    new_request user_id n Provider.bank_api none key (deposit_metadata bank s) id
      (bank_request_code s)

-- `createBankDeposit`, behind the checks of its arguments.
unfoldable pub deposit_for : BankSetting → ℕ → ℕ → Text → Tx PaymentRequest
deposit_for bank user_id n key = do
  make ← gets (new_deposit bank user_id n key)
  r ← upsert_request (request_has_key key) key make
  throw_if (is_other_request user_id n Provider.bank_api r) idempotency_conflict
  pure r

-- `createBankDeposit`, with the request as its result.
unfoldable pub create_bank_deposit : BankSetting → IdText → Number → Text → Tx PaymentRequest
create_bank_deposit bank user amount key = do
  user_id ← or_throw invalid_payment_request (object_id_of user)
  n ← or_throw invalid_payment_request (positive_safe amount)
  deposit_for bank user_id n key
