-- ===== src/Payment/Deposits/Replay.antt =====
-- A bank deposit is asked for once.
use cdk_gpt.Prelude.{ℕ, ◌≡◌, refl, Text, Number, positive_safe, Option-cases, inl, inr}
use cdk_gpt.Store.{Db, PaymentRequest, Provider, ok, or_throw}
use cdk_gpt.Purchase.{IdText, object_id_of}
use cdk_gpt.Payment.Requests.{request_has_key, upsert_request, is_other_request}
use cdk_gpt.Payment.Requests.Once.{
  AnswersAgain, upsert_request_again, upsert_request_replay, confirmed-parts,
}
use cdk_gpt.Payment.Checkout.{BankSetting}
use cdk_gpt.Payment.Deposits.{new_deposit, deposit_for, create_bank_deposit}

deposit_for_replay :
    (bank other : BankSetting) (user_id n : ℕ) (key : Text) (s : Db) (r : PaymentRequest) (t : Db)
    (later : ℕ)
    → deposit_for bank user_id n key s ≡ ok (r, t)
    → AnswersAgain (deposit_for other user_id n key) r t later
unfolding deposit_for
deposit_for_replay bank other user_id n key s r t later e =
    let make : ℕ → Text → PaymentRequest = new_deposit bank user_id n key s in
    let (made, same) =
      confirmed-parts (is_other_request user_id n Provider.bank_api)
        (upsert_request (request_has_key key) key make s) r t e in
    let (rs, asked, kept) =
      upsert_request_again key (new_deposit other user_id n key (record t { now = later })) r t
        later (upsert_request_replay key make (λ id code. refl) s r t made) in
    (rs, rw (asked, same) refl, kept)

-- A bank deposit that is asked for again under its key, by the same customer and with the same amount, at
-- whatever time, answers with the request that was made for it, code and expiry included, even if another
-- bank or another time limit is set by then. But for the times of the last updates of requests nothing is
-- written.
pub create_bank_deposit_replay :
    (bank other : BankSetting) (user : IdText) (amount : Number) (key : Text) (s : Db)
    (r : PaymentRequest) (t : Db) (later : ℕ)
    → create_bank_deposit bank user amount key s ≡ ok (r, t)
    → AnswersAgain (create_bank_deposit other user amount key) r t later
unfolding create_bank_deposit
create_bank_deposit_replay bank other user amount key s r t later e =
    elim (Option-cases (object_id_of user)) [
      | inl malformed_id ↦ cc (rw malformed_id at e)
      | inr (user_id, valid) ↦ elim (Option-cases (positive_safe amount)) [
        | inl refused ↦ cc (rw (valid, refused) at e)
        | inr (n, accepted) ↦
            rw (valid, accepted, or_throw)
              (deposit_for_replay bank other user_id n key s r t later
                (rw (valid, accepted, or_throw) at e))
      ]
    ]
