-- ===== src/Store/Monad.antt =====
-- A MongoDB transaction (`session.withTransaction`): it commits a new database with a result, or it
-- throws and leaves the database as it was. Transactions run one after the other.
use cdk_gpt.Prelude.{ℕ, ◌+◌, Bool, true, false, Option, none, some}
use cdk_gpt.Store.Model.{Db}

pub data Error : Type 0 where
  invalid_wallet_amount idempotency_conflict insufficient_balance customer_not_found : Error
  wallet_credit_failed out_of_stock duplicate_key coupon_unavailable user_inactive : Error
  product_unavailable price_changed invalid_total purchase_limit_reached : Error
  invalid_checkout_identity invalid_checkout_price invalid_checkout_quantity : Error
  invalid_checkout_key invalid_payment_request invalid_payment_reservation : Error
  active_checkout_holds_product user_missing_for_refund refund_failed : Error
  invalid_coupon coupon_not_found not_failed_delivery recovery_not_queued replacement_failed : Error
  inventory_changed incomplete_delivery unreadable_payload : Error
  payment_not_found payment_not_pending webhook_mismatch approval_claim_lost invalid_transaction :
      Error

pub data Result {ℓ} (A : Type ℓ) : Type ℓ where
  ok : A → Result A
  err : Error → Result A

abbrev pub Tx : Type 0 → Type 0
Tx A = Db → Result (A × Db)

abbrev pub continue : {A B : Type 0} → (A → Tx B) → Result (A × Db) → Result (B × Db)
continue f (ok (a, t)) = f a t
continue f (err e) = err e

infixl 5 ◌>>=◌ ◌>>◌
abbrev pub ◌>>=◌ : {A B : Type 0} → Tx A → (A → Tx B) → Tx B
◌>>=◌ m f s = continue f (m s)

abbrev pub ◌>>◌ : {A B : Type 0} → Tx A → Tx B → Tx B
m >> k = m >>= λ _. k

module _ {A : Type 0} where
  abbrev pub pure : A → Tx A
  pure a s = ok (a, s)

  abbrev pub throw : Error → Tx A
  throw e s = err e

  abbrev pub gets : (Db → A) → Tx A
  gets f s = ok (f s, s)

  -- `if (!x) throw e`
  abbrev pub or_throw : Error → Option A → Tx A
  or_throw e none s = err e
  or_throw e (some a) s = ok (a, s)

abbrev pub modify : (Db → Db) → Tx (Unit {0})
modify f s = ok (tt, f s)

-- `if (b) throw e`
abbrev pub throw_if : Bool → Error → Tx (Unit {0})
throw_if true e s = err e
throw_if false e s = ok (tt, s)

-- `new Types.ObjectId()`, also the id that an insertion makes.
abbrev pub new_id : Tx ℕ
new_id s = ok (s.next_id, record s { next_id = s.next_id + 1 })
