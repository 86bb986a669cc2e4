-- ===== src/Delivery/Recovery/Refunds.antt =====
-- A failed delivery is refunded once, and the books are kept.
use cdk_gpt.Prelude.{
  ℕ, zero, suc, ◌≤◌, ◌≡◌, refl, Bool, ◌&&◌, Option, none, some, List, [], ◌∷◌, arith, ◌==◌,
  count_if, find_and_update, find_first, Updated, Bool-cases, find_first_passes, updated_at, ◌∙◌,
  inl, inr,
}
use cdk_gpt.Store.{
  Db, Order, refunded, ok, err, Result, not_failed_delivery, ◌>>=◌, pure, or_throw,
  WalletTransaction, Tx, continue, InventoryItem,
}
use cdk_gpt.Store.Rules.{Triple-bind, Triple-pure, Triple-gets, Triple-found, committed_at}
use cdk_gpt.Users.{credit, update_user, find_active}
use cdk_gpt.Users.Totals.{balance_of}
use cdk_gpt.Wallet.{
  WalletChange, change, credit_change, apply_change, apply_after, apply_new, find_payer,
  move_balance, create, find_by_idempotency_key,
}
use cdk_gpt.Wallet.Ledger.{Reconciled, change-Reconciled, credits_of, debits_of}
use cdk_gpt.Purchase.Books.{Kept}
use cdk_gpt.Inventory.{update_item}
use cdk_gpt.Orders.{update_order}
use cdk_gpt.Delivery.Once.{Single}
use cdk_gpt.Delivery.Recovery.{
  failed_order, is_refunded, delivery_refund, credit_refund, disable_reserved, refund_failed_order,
  refunded_or_throw, refund_or_else, refund_delivery, find_order_where,
}

module _ (u opening : ℕ) where
  credit_refund-Kept :
      (o : Order) (admin_id amount : ℕ) → Kept u opening (credit_refund o admin_id amount)
  unfolding credit_refund credit_change
  credit_refund-Kept o admin_id zero = Triple-pure tt (λ s p. p)
  credit_refund-Kept o admin_id (suc n) =
      Triple-bind (change-Reconciled u opening (delivery_refund o admin_id (suc n)) _ _)
        λ made. Triple-pure tt (λ s p. p)

  disable_reserved-Kept : (item_id : ℕ) → Kept u opening (disable_reserved item_id)
  unfolding disable_reserved update_item balance_of credits_of debits_of
  disable_reserved-Kept item_id = record { run = λ s p. ground arith }

  update_order-Kept : (p : Order → Bool) (f : Order → Order) → Kept u opening (update_order p f)
  unfolding update_order balance_of credits_of debits_of
  update_order-Kept p f = record { run = λ s k. ground arith }

  find_order_where-Kept : (p : Order → Bool) → Kept u opening (find_order_where p)
  unfolding find_order_where
  find_order_where-Kept p = Triple-gets _ (λ s k. k)

  refund_or_else-Kept :
      (admin_id id : ℕ) (o : Option Order) → Kept u opening (refund_or_else admin_id id o)
  unfolding refunded_or_throw refund_failed_order
  refund_or_else-Kept admin_id id none =
      Triple-bind (find_order_where-Kept (λ x. x.id == id && is_refunded x.status))
        λ o. Triple-found not_failed_delivery o
  refund_or_else-Kept admin_id id (some o) =
      Triple-bind (credit_refund-Kept o admin_id o.total_amount) λ paid.
        Triple-bind (disable_reserved-Kept o.inventory_item_id) λ item.
          Triple-bind (update_order-Kept (λ x. x.id == o.id) (λ x. record x { status = refunded }))
            λ done. Triple-found not_failed_delivery done

  -- The refund of a failed delivery keeps the books of every customer: if the wallet and the ledger agreed
  -- before, they agree after a refund that commits, a repeated one included.
  pub refund_keeps_books :
      (id admin_id : ℕ) (s : Db) (o : Order) (t : Db)
      → Reconciled u opening s
      → refund_delivery id admin_id s ≡ ok (o, t)
      → Reconciled u opening t
  unfolding refund_delivery
  refund_keeps_books id admin_id s o t p e =
      committed_at
        (Triple-bind (find_order_where-Kept (failed_order id)) (refund_or_else-Kept admin_id id)) s
        p o t e

credit_change_orders :
    (input : WalletChange) (s : Db) (x : WalletTransaction) (t : Db)
    → credit_change input s ≡ ok (x, t)
    → t.orders ≡ s.orders
unfolding credit_change change apply_change apply_after apply_new find_payer find_active
    move_balance credit update_user create find_by_idempotency_key
credit_change_orders input s x t e = ground arith

-- A block that commits has committed its first step.
continue-ok :
    {A B : Type 0} (f : A → Tx B) (r : Result (A × Db)) (b : B × Db)
    → continue f r ≡ ok b
    → (a : A) × (t : Db) × (r ≡ ok (a, t)) × (f a t ≡ ok b)
continue-ok f (ok (a, t)) b e = (a, t, refl, e)
continue-ok f (err x) b e = cc

credit_refund_orders :
    (o : Order) (admin_id amount : ℕ) (s t : Db) (x : Unit {0})
    → credit_refund o admin_id amount s ≡ ok (x, t)
    → t.orders ≡ s.orders
unfolding credit_refund
credit_refund_orders o admin_id zero s t x e = ground arith
credit_refund_orders o admin_id (suc n) s t x e =
    let (made, t', first, rest) =
      continue-ok (λ y. pure tt) (credit_change (delivery_refund o admin_id (suc n)) s) (x, t) e in
    ground (arith, credit_change_orders (delivery_refund o admin_id (suc n)) s made t' first, rest)

disable_reserved_orders :
    (item_id : ℕ) (s : Db) (x : Option InventoryItem) (t : Db)
    → disable_reserved item_id s ≡ ok (x, t)
    → t.orders ≡ s.orders
unfolding disable_reserved update_item
disable_reserved_orders item_id s x t e = ground arith

-- What the refund makes of an order.
abbrev paid_back : Order → Order
paid_back x = record x { status = refunded }

no_other :
    (id : ℕ) (os : List Order)
    → count_if (λ (o : Order). o.id == id) os ≡ 0
    → find_first (failed_order id) os ≡ none
unfolding count_if find_first
no_other id [] h = refl
no_other id (o ∷ os) h = ground (arith, no_other id os)

-- In a table with one order of the identifier, the refunded order is the one that is found from then on.
paid_back_found :
    (id : ℕ) (os : List Order)
    → count_if (λ (x : Order). x.id == id) os ≤ 1
    → Updated
        (λ y ys.
          (find_first (failed_order id) ys ≡ none)
          × (find_first (λ x. x.id == id && is_refunded x.status) ys ≡ some y))
        (find_and_update (λ x. x.id == id) paid_back os)
unfolding count_if find_first find_and_update
paid_back_found id [] one = tt
paid_back_found id (x ∷ xs) one = elim (Bool-cases (x.id == id)) [
  | inl hit ↦ ground (arith, hit, no_other id xs)
  | inr miss ↦ ground (arith, miss, paid_back_found id xs)
]

-- The last step of a refund.
update_order-some :
    (p : Order → Bool) (f : Order → Order) (s : Db) (o : Order) (t : Db)
    → (update_order p f >>= or_throw not_failed_delivery) s ≡ ok (o, t)
    → find_and_update p f s.orders ≡ some (o, t.orders)
unfolding update_order
update_order-some p f s o t e = ground arith

refund_failed_order-found :
    (id admin_id : ℕ) (old : Order) (s : Db) (o : Order) (t : Db)
    → Single id s
    → old.id ≡ id
    → refund_failed_order admin_id old s ≡ ok (o, t)
    → (find_first (failed_order id) t.orders ≡ none)
      × (find_first (λ x. x.id == id && is_refunded x.status) t.orders ≡ some o)
unfolding refund_failed_order
refund_failed_order-found id admin_id old s o t one same e =
    let (paid, t1, first, e1) =
      continue-ok _ (credit_refund old admin_id old.total_amount s) (o, t) e in
    let (item, t2, second, e2) =
      continue-ok _ (disable_reserved old.inventory_item_id t1) (o, t) e1 in
    let orders_kept : t2.orders ≡ s.orders =
      disable_reserved_orders old.inventory_item_id t1 item t2 second
      ∙ credit_refund_orders old admin_id old.total_amount s t1 paid first in
    let found : find_and_update (λ x. x.id == old.id) paid_back t2.orders ≡ some (o, t.orders) =
      update_order-some (λ x. x.id == old.id) paid_back t2 o t e2 in
    updated_at _ (find_and_update (λ x. x.id == id) paid_back s.orders) o t.orders
      (paid_back_found id s.orders one) (rw (← orders_kept) (rw (← same) found))

refund_or_else-found :
    (id admin_id : ℕ) (s : Db) (found : Option Order) (o : Order) (t : Db)
    → Single id s
    → find_first (failed_order id) s.orders ≡ found
    → refund_or_else admin_id id found s ≡ ok (o, t)
    → (find_first (failed_order id) t.orders ≡ none)
      × (find_first (λ x. x.id == id && is_refunded x.status) t.orders ≡ some o)
unfolding refunded_or_throw find_order_where
refund_or_else-found id admin_id s none o t one f e = ground arith
refund_or_else-found id admin_id s (some old) o t one f e =
    refund_failed_order-found id admin_id old s o t one
      (ground (arith, find_first_passes (failed_order id) s.orders old f)) e

-- A failed delivery is refunded once: asked for again, by any administrator, a refund that has been made
-- answers with the same order and writes nothing, so that no money is credited for it again; the identifier
-- is that of one order.
pub refund_once :
    (id admin_id later_admin : ℕ) (s : Db) (o : Order) (t : Db)
    → Single id s
    → refund_delivery id admin_id s ≡ ok (o, t)
    → refund_delivery id later_admin t ≡ ok (o, t)
unfolding refund_delivery find_order_where refunded_or_throw
refund_once id admin_id later_admin s o t one e =
    let (no_failed, paid) = refund_or_else-found id admin_id s _ o t one refl e in
    rw no_failed (rw paid refl)
