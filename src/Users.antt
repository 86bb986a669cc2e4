-- ===== src/Users.antt =====
-- `UserRepository` (packages/database/src/repositories/user.repository.ts): a customer's wallet
-- balance, changed by guarded single-document updates.
pub mod Totals
use cdk_gpt.Prelude.{
  ℕ, ◌+◌, ◌-◌, Bool, true, false, ◌&&◌, not, Option, none, some, List, leb, ◌==◌, find_first,
  find_and_update,
}
use cdk_gpt.Store.{Db, User, UserStatus, active, Tx, ok, gets}

abbrev pub is_active : UserStatus → Bool
is_active active = true
is_active _ = false

-- `{ _id: id, deletedAt: null }`
abbrev pub existing : ℕ → User → Bool
existing id x = x.id == id && not x.deleted

-- `{ _id: id, status: ACTIVE, deletedAt: null }`
abbrev pub active_user : ℕ → User → Bool
active_user id x = x.id == id && is_active x.status && not x.deleted

abbrev store_user : Db → Option (User × List User) → Option User × Db
store_user s none = (none, s)
store_user s (some (x, xs)) = (some x, record s { users = xs })

-- `users.findOneAndUpdate(filter, update, { new: true })`
unfoldable pub update_user : (User → Bool) → (User → User) → Tx (Option User)
update_user p f s = ok (store_user s (find_and_update p f s.users))

unfoldable pub find_active : ℕ → Tx (Option User)
find_active id = gets λ s. find_first (active_user id) s.users

unfoldable pub find_existing : ℕ → Tx (Option User)
find_existing id = gets λ s. find_first (existing id) s.users

-- Serializes checkout reservations for one user.
unfoldable pub lock_for_checkout : ℕ → Tx (Option User)
lock_for_checkout id =
    update_user (active_user id)
      (λ x. record x { checkout_lock_version = x.checkout_lock_version + 1 })

-- A purchase: the balance falls and the purchase counts.
unfoldable pub debit : ℕ → ℕ → Tx (Option User)
debit id amount =
    update_user (λ x. active_user id x && leb amount x.wallet_balance)
      (λ x. record x {
        wallet_balance = x.wallet_balance - amount;
        purchase_count = x.purchase_count + 1;
      })

unfoldable pub debit_balance : ℕ → ℕ → Tx (Option User)
debit_balance id amount =
    update_user (λ x. active_user id x && leb amount x.wallet_balance)
      (λ x. record x { wallet_balance = x.wallet_balance - amount })

unfoldable pub debit_existing_balance : ℕ → ℕ → Tx (Option User)
debit_existing_balance id amount =
    update_user (λ x. existing id x && leb amount x.wallet_balance)
      (λ x. record x { wallet_balance = x.wallet_balance - amount })

unfoldable pub credit : ℕ → ℕ → Tx (Option User)
credit id amount =
    update_user (active_user id) (λ x. record x { wallet_balance = x.wallet_balance + amount })

unfoldable pub credit_received_funds : ℕ → ℕ → Tx (Option User)
credit_received_funds id amount =
    update_user (existing id) (λ x. record x { wallet_balance = x.wallet_balance + amount })
