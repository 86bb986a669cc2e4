-- ===== src/Users/Totals.antt =====
-- How each update of a customer moves the money that the customer holds. The money of `u` is the sum
-- over the documents with that `_id`, so no law here needs the `_id`s to be distinct.
use cdk_gpt.Prelude.{
  Updated, ℕ, ◌+◌, ◌-◌, ◌≡◌, ◌&&◌, List, arith, ◌==◌, leb, if◌then◌else◌, total, find_and_update,
  total-find_and_update,
}
use cdk_gpt.Store.{Db, User}
use cdk_gpt.Users.{active_user, existing}

-- What the customer `u` has of an amount that belongs to `id`.
abbrev pub share : ℕ → ℕ → ℕ → ℕ
share u id amount = if id == u then amount else 0

-- The balance that a document adds to the money of `u`.
abbrev pub held_by : ℕ → User → ℕ
held_by u x = share u x.id x.wallet_balance

unfoldable pub balance_of : ℕ → Db → ℕ
balance_of u s = total (held_by u) s.users

module _ (id amount u : ℕ) (xs : List User) where
  pub total-credit :
      Updated
        (λ y ys. total (held_by u) ys + 0 ≡ total (held_by u) xs + share u id amount)
        (find_and_update
          (active_user id)
          (λ x. record x { wallet_balance = x.wallet_balance + amount })
          xs)
  total-credit =
      total-find_and_update (held_by u) (active_user id)
        (λ x. record x { wallet_balance = x.wallet_balance + amount }) (0) (share u id amount)
        (λ x h. ground arith) xs

  pub total-credit_received_funds :
      Updated
        (λ y ys. total (held_by u) ys + 0 ≡ total (held_by u) xs + share u id amount)
        (find_and_update
          (existing id)
          (λ x. record x { wallet_balance = x.wallet_balance + amount })
          xs)
  total-credit_received_funds =
      total-find_and_update (held_by u) (existing id)
        (λ x. record x { wallet_balance = x.wallet_balance + amount }) (0) (share u id amount)
        (λ x h. ground arith) xs

  pub total-debit :
      Updated
        (λ y ys. total (held_by u) ys + share u id amount ≡ total (held_by u) xs + 0)
        (find_and_update
          (λ x. active_user id x && leb amount x.wallet_balance)
          (λ x. record x {
            wallet_balance = x.wallet_balance - amount;
            purchase_count = x.purchase_count + 1;
          })
          xs)
  total-debit =
      total-find_and_update (held_by u) (λ x. active_user id x && leb amount x.wallet_balance)
        (λ x. record x {
          wallet_balance = x.wallet_balance - amount;
          purchase_count = x.purchase_count + 1;
        })
        (share u id amount) (0) (λ x h. ground arith) xs

  pub total-debit_balance :
      Updated
        (λ y ys. total (held_by u) ys + share u id amount ≡ total (held_by u) xs + 0)
        (find_and_update
          (λ x. active_user id x && leb amount x.wallet_balance)
          (λ x. record x { wallet_balance = x.wallet_balance - amount })
          xs)
  total-debit_balance =
      total-find_and_update (held_by u) (λ x. active_user id x && leb amount x.wallet_balance)
        (λ x. record x { wallet_balance = x.wallet_balance - amount }) (share u id amount) (0)
        (λ x h. ground arith) xs

  pub total-debit_existing_balance :
      Updated
        (λ y ys. total (held_by u) ys + share u id amount ≡ total (held_by u) xs + 0)
        (find_and_update
          (λ x. existing id x && leb amount x.wallet_balance)
          (λ x. record x { wallet_balance = x.wallet_balance - amount })
          xs)
  total-debit_existing_balance =
      total-find_and_update (held_by u) (λ x. existing id x && leb amount x.wallet_balance)
        (λ x. record x { wallet_balance = x.wallet_balance - amount }) (share u id amount) (0)
        (λ x h. ground arith) xs

  pub total-lock_for_checkout :
      Updated
        (λ y ys. total (held_by u) ys + 0 ≡ total (held_by u) xs + 0)
        (find_and_update
          (active_user id)
          (λ x. record x { checkout_lock_version = x.checkout_lock_version + 1 })
          xs)
  total-lock_for_checkout =
      total-find_and_update (held_by u) (active_user id)
        (λ x. record x { checkout_lock_version = x.checkout_lock_version + 1 }) (0) (0)
        (λ x h. ground arith) xs
