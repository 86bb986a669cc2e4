-- ===== src/Delivery/Kept.antt =====
-- What holds of the orders is kept by a run of the delivery job, step by step.
use cdk_gpt.Prelude.{
  ℕ, Bool, true, false, ◌&&◌, not, Option, none, some, List, [], ◌∷◌, ◌==◌, update_all, any_row,
  Bool-cases, inl, inr,
}
use cdk_gpt.Store.{
  Db, Order, OrderStatus, delivering, delivered, delivery_failed, InventoryItem, ok, err, Result,
  inventory_changed,
}
use cdk_gpt.Store.Rules.{Committed, Triple, Triple-bind, Triple-pure, Triple-gets, Triple-check}
use cdk_gpt.Inventory.{mark_sold, update_item, store_item}
use cdk_gpt.Delivery.{
  Attempt, SendOutcome, accepted, refused, no_answer, ErrorClass, temporary, permanent, unclear,
  claim_group, unclaim_group, handed_over, id_in, confirm_sale, confirm_sales, confirm_delivery,
  confirmed_or, refused_send, send_secrets, prepared, deliver_group, deliver_claimed, claimed_or,
  run_claim, claim_order, root_of, process_open, process_found, process, classify_telegram_error,
  group_of, ids_of, sold_or_throw, sold_to, by_root, process_by_status,
}

-- A statement about the orders that holds in spite of changes to the stock and of the handing over.
module _ (K : Db → Type 0)
    (stock : (s : Db) (xs : List InventoryItem) → K s → K (record s { inventory_items = xs }))
    (hand : (ids : List ℕ) (s : Db)
      → K s
      → K (record s { orders = update_all (λ o. id_in ids o.id) handed_over s.orders })) where
  stored-Kept :
      (s : Db) (r : Option (InventoryItem × List InventoryItem)) → K s → K (store_item s r).1
  stored-Kept s none k = k
  stored-Kept s (some (x, xs)) k = stock s xs k

  mark_sold-Kept :
      (item_id user_id order_id : ℕ) → Triple K (mark_sold item_id user_id order_id) (λ x. K)
  unfolding mark_sold update_item
  mark_sold-Kept item_id user_id order_id = record { run = λ s k. stored-Kept s _ k }

  sold_or_throw-Kept :
      (item_id order_id : ℕ) (x : Option InventoryItem)
      → Triple K (sold_or_throw item_id order_id x) (λ x. K)
  sold_or_throw-Kept item_id order_id none =
      Triple-bind
        (Triple-gets (λ s. any_row (sold_to item_id order_id) s.inventory_items) (λ s p. p))
        (λ already. Triple-check (not already) inventory_changed)
  sold_or_throw-Kept item_id order_id (some x) = Triple-pure tt (λ s p. p)

  confirm_sales-Kept :
      (user_id : ℕ) (ds : List (Order × InventoryItem))
      → Triple K (confirm_sales user_id ds) (λ x. K)
  unfolding confirm_sales confirm_sale
  confirm_sales-Kept user_id [] = Triple-pure tt (λ s p. p)
  confirm_sales-Kept user_id ((o, x) ∷ ds) =
      Triple-bind (Triple-bind (mark_sold-Kept x.id user_id o.id) (sold_or_throw-Kept x.id o.id))
        λ done. confirm_sales-Kept user_id ds

  pub confirm_delivery-Kept :
      (user_id : ℕ) (ids : List ℕ) (ds : List (Order × InventoryItem))
      → Triple K (confirm_delivery user_id ids ds) (λ x. K)
  unfolding confirm_delivery
  confirm_delivery-Kept user_id ids ds =
      Triple-bind (confirm_sales-Kept user_id ds) λ done. record { run = λ s k. hand ids s k }

  confirmed_or-Kept :
      (ids : List ℕ) (commits : Bool) (s : Db) (r : Result (Unit {0} × Db))
      → K s
      → Committed (λ x. K) r
      → K (confirmed_or ids commits s r).db
  confirmed_or-Kept ids true s (ok (x, t)) h c = c
  confirmed_or-Kept ids false s (ok (x, t)) h c = h
  confirmed_or-Kept ids true s (err e) h c = h
  confirmed_or-Kept ids false s (err e) h c = h

  -- The same through a whole run, if claiming and giving up a claim keep it too.
  module _ (claim : (ids : List ℕ) (s : Db) → K s → K (claim_group ids s))
      (unclaim : (ids : List ℕ) (s : Db) → K s → K (unclaim_group ids s)) where
    refused_send-Kept : (ids : List ℕ) (c : ErrorClass) (s : Db) → K s → K (refused_send ids c s).db
    refused_send-Kept ids temporary s k = unclaim ids s k
    refused_send-Kept ids permanent s k = k
    refused_send-Kept ids unclear s k = k

    send_secrets-Kept :
        (a : Attempt) (user_id : ℕ) (ids : List ℕ) (ds : List (Order × InventoryItem))
        (o : SendOutcome) (s : Db)
        → K s
        → K (send_secrets a user_id ids ds o s).db
    unfolding send_secrets
    send_secrets-Kept a user_id ids ds accepted s k =
        confirmed_or-Kept ids a.commits s (confirm_delivery user_id ids ds s) k
          ((confirm_delivery-Kept user_id ids ds).run s k)
    send_secrets-Kept a user_id ids ds (refused code) s k =
        refused_send-Kept ids (classify_telegram_error (some code)) s k
    send_secrets-Kept a user_id ids ds no_answer s k =
        refused_send-Kept ids (classify_telegram_error none) s k

    prepared-Kept :
        (a : Attempt) (user_id : ℕ) (ids : List ℕ) (s : Db)
        (r : Result (List (Order × InventoryItem)))
        → K s
        → K (prepared a user_id ids s r).db
    prepared-Kept a user_id ids s (ok ds) k = send_secrets-Kept a user_id ids ds a.send s k
    prepared-Kept a user_id ids s (err e) k = k

    deliver_group-Kept :
        (a : Attempt) (id : ℕ) (claimed : Order) (group : List Order) (s : Db)
        → K s
        → K (deliver_group a id claimed group s).db
    unfolding deliver_group
    deliver_group-Kept a id claimed group s k =
        elim (Bool-cases (any_row (λ (o : Order). o.id == id) group)) [
          | inl there ↦ rw there (
              prepared-Kept a claimed.user_id (ids_of group) (claim_group (ids_of group) s) _
                (claim (ids_of group) s k))
          | inr gone ↦ rw gone k
        ]

    deliver_claimed-Kept :
        (a : Attempt) (id : ℕ) (payment : Option ℕ) (claimed : Order) (s : Db)
        → K s
        → K (deliver_claimed a id payment claimed s).db
    unfolding deliver_claimed
    deliver_claimed-Kept a id payment claimed s k =
        elim (Bool-cases (
          any_row (λ u. u.id == claimed.user_id) s.users
          && any_row (λ p. p.id == claimed.product_id) s.products)) [
            | inl there ↦
                rw there (deliver_group-Kept a id claimed (group_of payment claimed s) s k)
            | inr gone ↦ rw gone k
          ]

    claimed_or-Kept :
        (a : Attempt) (id : ℕ) (payment : Option ℕ) (s : Db) (r : Option Order × Db)
        → K r.1
        → K (claimed_or a id payment s r).db
    claimed_or-Kept a id payment s (some o, t) k = deliver_claimed-Kept a id payment o t k
    claimed_or-Kept a id payment s (none, t) k = k

    claim_order-Kept :
        (a : Attempt) (id : ℕ) (payment : Option ℕ) (st : OrderStatus) (s : Db)
        → K s
        → K (run_claim id s).1
        → K (claim_order a id payment st s).db
    unfolding claim_order
    claim_order-Kept a id payment delivering s k l = k
    claim_order-Kept a id payment _ s k l = claimed_or-Kept a id payment s (run_claim id s) l

    by_root-Kept :
        (a : Attempt) (id : ℕ) (o : Order) (root : Option Order) (s : Db)
        → K s
        → K (run_claim id s).1
        → K (by_root a id o root s).db
    by_root-Kept a id o none s k l =
        claim_order-Kept a id o.metadata.payment_request_id o.status s k l
    by_root-Kept a id o (some root) s k l = elim (Bool-cases (root.id == id)) [
      | inl own ↦ rw own (claim_order-Kept a id o.metadata.payment_request_id o.status s k l)
      | inr foreign ↦ rw foreign k
    ]

    by_status-Kept :
        (a : Attempt) (id : ℕ) (o : Order) (st : OrderStatus) (s : Db)
        → K s
        → K (run_claim id s).1
        → K (process_by_status a id o st s).db
    unfolding process_open
    by_status-Kept a id o delivered s k l = k
    by_status-Kept a id o delivery_failed s k l = k
    by_status-Kept a id o _ s k l =
        by_root-Kept a id o (root_of o.metadata.payment_request_id o s) s k l

    process_found-Kept :
        (a : Attempt) (id : ℕ) (o : Option Order) (s : Db)
        → K s
        → K (run_claim id s).1
        → K (process_found a id o s).db
    process_found-Kept a id none s k l = k
    process_found-Kept a id (some o) s k l = by_status-Kept a id o o.status s k l

    pub process-Kept :
        (a : Attempt) (id : ℕ) (s : Db) → K s → K (run_claim id s).1 → K (process a id s).db
    unfolding process
    process-Kept a id s k l = process_found-Kept a id _ s k l
