-- ===== src/Wallet.antt =====
-- `WalletTransactionRepository` (packages/database/src/repositories/wallet-transaction.repository.ts)
-- and `WalletService` (apps/api/src/wallet/wallet.service.ts). The metadata of a wallet
-- transaction, which no operation here reads, is left out.
pub mod Ledger
pub mod Replay
pub mod Keys
pub mod Balance
use cdk_gpt.Prelude.{
  ℕ, Bool, true, false, ◌&&◌, ◌||◌, not, Option, none, some, List, [], ◌∷◌, ◌++◌, Text, codes,
  text_eq, starts_with, eq_option, is_none, ℤ, pos, neg, eq_int, Number, positive_safe, ◌==◌,
  if◌then◌else◌, find_first, any_row, leb, max_safe_integer,
}
use cdk_gpt.Store.{
  Db, User, WalletTransaction, WalletTransactionType, deposit, purchase, refund, admin_credit,
  admin_debit, referral_commission, adjustment, WalletReferenceType, order, payment_request, user,
  referral, manual, ActorType, admin, system, webhook, Tx, Error, invalid_wallet_amount,
  idempotency_conflict, insufficient_balance, customer_not_found, wallet_credit_failed,
  duplicate_key, invalid_transaction, ◌>>=◌, ◌>>◌, pure, throw, gets, modify, or_throw, throw_if,
  new_id,
}
use cdk_gpt.Users.{
  find_active, find_existing, debit_balance, debit_existing_balance, credit, credit_received_funds,
}

-- The unique index `{ idempotencyKey: 1 }` speaks of transactions with this key.
abbrev pub has_key : Text → WalletTransaction → Bool
has_key key x = text_eq x.idempotency_key key

unfoldable pub find_by_idempotency_key : Text → Tx (Option WalletTransaction)
find_by_idempotency_key key = gets λ s. find_first (has_key key) s.wallet_transactions

-- `Number.isSafeInteger` of a natural number.
abbrev pub is_safe : ℕ → Bool
is_safe n = leb n max_safe_integer

-- `transactions.create([data])`: the schema refuses an amount of 0 and a balance beyond the safe integers,
-- the id is new, and the unique index refuses a second use of a key. The schema's bounds on the lengths of
-- texts are left out, and so is its `trim` of reason and key: the texts are taken to have no white space at
-- their ends.
unfoldable pub create : WalletTransaction → Tx WalletTransaction
create row = do
  throw_if
      (eq_int row.amount (pos 0)
        || not (is_safe row.balance_before)
        || not (is_safe row.balance_after))
      invalid_transaction
  taken ← gets λ s. any_row (has_key row.idempotency_key) s.wallet_transactions
  throw_if taken duplicate_key
  id ← new_id
  let made : WalletTransaction = record row { id = id }
  modify λ s. record s { wallet_transactions = s.wallet_transactions ++ made ∷ [] }
  pure made

pub data Direction : Type 0 where
  up down : Direction

-- `amount * direction`
abbrev pub signed : Direction → ℕ → ℤ
signed up n = pos n
signed down n = neg n

abbrev pub same_type : WalletTransactionType → WalletTransactionType → Bool
same_type deposit deposit = true
same_type purchase purchase = true
same_type refund refund = true
same_type admin_credit admin_credit = true
same_type admin_debit admin_debit = true
same_type referral_commission referral_commission = true
same_type adjustment adjustment = true
same_type _ _ = false

abbrev pub same_reference_type : WalletReferenceType → WalletReferenceType → Bool
same_reference_type order order = true
same_reference_type payment_request payment_request = true
same_reference_type user user = true
same_reference_type referral referral = true
same_reference_type manual manual = true
same_reference_type _ _ = false

pub record WalletChange : Type 0 where
  pub user_id : ℕ
  pub amount : Number
  pub kind : WalletTransactionType
  pub reason : Text
  pub reference_type : WalletReferenceType
  pub reference_id : Option ℕ
  pub idempotency_key : Text
  pub actor_type : ActorType
  pub actor_id : Option ℕ

-- Whether an earlier transaction with the key of `input` is not the change that `input` asks for.
unfoldable pub conflicts : WalletChange → ℤ → WalletTransaction → Bool
conflicts input signed_amount existing =
    let same_reference =
      same_reference_type existing.reference_type input.reference_type
      && eq_option existing.reference_id input.reference_id in
    let strict = starts_with (codes "admin-wallet:") input.idempotency_key in
    not (existing.user_id == input.user_id)
    || not (eq_int existing.amount signed_amount)
    || (strict
        && (not (same_type existing.kind input.kind)
            || not (text_eq existing.reason input.reason)
            || not same_reference))

unfoldable pub find_payer : Bool → ℕ → Tx (Option User)
find_payer true id = find_existing id
find_payer false id = find_active id

-- The guarded update of the balance that the direction and `allowInactive` select.
unfoldable pub move_balance : Direction → Bool → ℕ → ℕ → Tx (Option User)
move_balance up true id amount = credit_received_funds id amount
move_balance up false id amount = credit id amount
move_balance down true id amount = debit_existing_balance id amount
move_balance down false id amount = debit_balance id amount

abbrev pub failure_of : Direction → Error
failure_of down = insufficient_balance
failure_of up = wallet_credit_failed

-- The part of `applyChange` behind the idempotency check.
unfoldable pub apply_new : WalletChange → ℕ → Direction → Bool → Tx WalletTransaction
apply_new input amount direction allow_inactive = do
  before ← or_throw customer_not_found (← find_payer allow_inactive input.user_id)
  after ←
      or_throw (failure_of direction) (← move_balance direction allow_inactive input.user_id amount)
  create (record {
    id = 0;
    user_id = input.user_id;
    balance_before = before.wallet_balance;
    balance_after = after.wallet_balance;
    amount = signed direction amount;
    kind = input.kind;
    reason = input.reason;
    reference_type = input.reference_type;
    reference_id = input.reference_id;
    idempotency_key = input.idempotency_key;
    actor_type = input.actor_type;
    actor_id = input.actor_id;
  })

-- `applyChange`, by the transaction that the key already has.
unfoldable pub apply_after :
    WalletChange → ℕ → Direction → Bool → Option WalletTransaction → Tx WalletTransaction
apply_after input amount direction allow_inactive none =
    apply_new input amount direction allow_inactive
apply_after input amount direction allow_inactive (some prior) = do
  throw_if (conflicts input (signed direction amount) prior) idempotency_conflict
  pure prior

-- `applyChange`
unfoldable pub apply_change : WalletChange → ℕ → Direction → Bool → Tx WalletTransaction
apply_change input amount direction allow_inactive = do
  prior ← find_by_idempotency_key input.idempotency_key
  apply_after input amount direction allow_inactive prior

-- `change`
unfoldable pub change : WalletChange → Direction → Bool → Tx WalletTransaction
change input direction allow_inactive = do
  amount ← or_throw invalid_wallet_amount (positive_safe input.amount)
  apply_change input amount direction allow_inactive

unfoldable pub credit_change : WalletChange → Tx WalletTransaction
credit_change input = change input up false

unfoldable pub credit_received_change : WalletChange → Tx WalletTransaction
credit_received_change input = change input up true

unfoldable pub debit_change : WalletChange → Tx WalletTransaction
debit_change input = change input down false

-- `adminAdjust`
unfoldable pub admin_adjust : ℕ → Number → Direction → Text → ℕ → Text → Tx WalletTransaction
admin_adjust user_id amount direction reason admin_id key =
    change
      (record {
        user_id = user_id;
        amount = amount;
        kind = elim direction [ up ↦ admin_credit | down ↦ admin_debit ];
        reason = reason;
        reference_type = user;
        reference_id = some user_id;
        idempotency_key = key;
        actor_type = admin;
        actor_id = some admin_id;
      })
      direction true

unfoldable pub admin_credit_change : ℕ → Number → ℕ → Text → Option ℕ → Tx WalletTransaction
admin_credit_change user_id amount admin_id key reference_id = credit_change (record {
  user_id = user_id;
  amount = amount;
  kind = admin_credit;
  reason = codes "Admin-approved wallet credit";
  reference_type = payment_request;
  reference_id = reference_id;
  idempotency_key = key;
  actor_type = admin;
  actor_id = some admin_id;
})

unfoldable pub admin_debit_change : ℕ → Number → ℕ → Text → Option ℕ → Tx WalletTransaction
admin_debit_change user_id amount admin_id key reference_id = debit_change (record {
  user_id = user_id;
  amount = amount;
  kind = admin_debit;
  reason = codes "Administrative wallet debit";
  reference_type = manual;
  reference_id = reference_id;
  idempotency_key = key;
  actor_type = admin;
  actor_id = some admin_id;
})
