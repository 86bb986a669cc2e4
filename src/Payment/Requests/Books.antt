-- ===== src/Payment/Requests/Books.antt =====
-- `processWebhook` keeps the books.
use cdk_gpt.Prelude.{ℕ, ◌≡◌, Bool, ◌||◌, not, none, some, Text, arith, ◌==◌}
use cdk_gpt.Store.{Db, PaymentRequest, Provider, Result, ok, webhook_mismatch, webhook}
use cdk_gpt.Store.Rules.{Committed, Triple-bind, Triple-check, committed_at}
use cdk_gpt.Users.Totals.{balance_of}
use cdk_gpt.Wallet.Ledger.{Reconciled, credits_of, debits_of}
use cdk_gpt.Purchase.Books.{Kept}
use cdk_gpt.Payment.{find_request, update_request}
use cdk_gpt.Payment.Books.{approve_as-Kept}
use cdk_gpt.Payment.Requests.{
  insert_request, found_or_inserted, upsert_request, recover_request, process_webhook, webhook_key,
  new_request, no_metadata, has_reference,
}

module _ (u opening : ℕ) where
  upsert_request-Kept :
      (p : PaymentRequest → Bool) (key : Text) (make : ℕ → Text → PaymentRequest)
      → Kept u opening (upsert_request p key make)
  unfolding upsert_request update_request found_or_inserted insert_request balance_of credits_of
      debits_of
  upsert_request-Kept p key make = record { run = λ s h. ground arith }

  recover_request-Kept :
      (provider : Provider) (reference : Text) (r : Result (PaymentRequest × Db)) (s : Db)
      → Reconciled u opening s
      → Committed (λ x. Reconciled u opening) r
      → Committed (λ x. Reconciled u opening) (recover_request provider reference r s)
  unfolding recover_request find_request
  recover_request-Kept provider reference r s p c = ground arith

  process_webhook-Kept :
      (provider : Provider) (reference : Text) (user_id amount : ℕ)
      → Kept u opening (process_webhook provider reference user_id amount)
  unfolding process_webhook
  process_webhook-Kept provider reference user_id amount =
      Triple-bind
        (record {
          run = λ s p.
              recover_request-Kept provider reference
                (upsert_request (has_reference provider reference) (webhook_key provider reference)
                  (new_request user_id amount provider (some reference)
                    (webhook_key provider reference) no_metadata)
                  s)
                s p ((upsert_request-Kept _ _ _).run s p);
        })
        λ r.
          Triple-bind
            (Triple-check (not (r.user_id == user_id) || not (r.amount == amount)) webhook_mismatch)
            λ same. approve_as-Kept u opening r.id (record {
              actor_type = webhook;
              actor_id = none;
              idempotency_key = webhook_key provider reference;
            })

  -- A webhook that is processed without an error keeps the books of every customer, for a new payment and
  -- for one that has been delivered before: if the wallet and the ledger agreed before, they agree
  -- afterwards.
  pub webhook_keeps_books :
      (provider : Provider) (reference : Text) (user_id amount : ℕ) (s : Db) (r : PaymentRequest)
      (t : Db)
      → Reconciled u opening s
      → process_webhook provider reference user_id amount s ≡ ok (r, t)
      → Reconciled u opening t
  webhook_keeps_books provider reference user_id amount s r t p e =
      committed_at (process_webhook-Kept provider reference user_id amount) s p r t e
