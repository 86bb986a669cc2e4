-- ===== src/Delivery.antt =====
-- `DeliveryProcessor` (apps/bot/src/delivery.processor.ts): the job that sends the secrets of an order, or
-- of the open orders of one payment together, to the customer's chat. What Telegram answers, whether a
-- payload can be decrypted and whether the confirming transaction commits are the environment's. The texts
-- of the messages, the file, the access token and the warnings to administrators are left out.
pub mod Kept
pub mod Once
pub mod Recovery
use cdk_gpt.Prelude.{
  ℕ, ◌+◌, Bool, true, false, ◌&&◌, ◌||◌, not, Option, none, some, is_some, List, [], ◌∷◌, ◌++◌, map,
  Text, ◌==◌, leb, holds, eq_option, if◌then◌else◌, find_first, find_all, update_all, any_row,
  length, take, count_if,
}
use cdk_gpt.Store.{
  Db, Order, OrderStatus, pending_delivery, delivering, delivered, delivery_failed, DeliveryStatus,
  pending, processing, failed, InventoryItem, InventoryStatus, sold, Tx, Result, ok, err, Error,
  inventory_changed, ◌>>=◌, ◌>>◌, pure, gets, modify, throw_if,
}
use cdk_gpt.Inventory.{is_reserved, mark_sold}
use cdk_gpt.Orders.{
  is_open, is_pending, find_order, mark_delivering, mark_delivery_failed, store_order,
}

-- What the call of Telegram comes to.
pub data SendOutcome : Type 0 where
  accepted : SendOutcome
  refused : ℕ → SendOutcome
  no_answer : SendOutcome

-- What one attempt meets.
pub record Attempt : Type 0 where
  pub send : SendOutcome
  pub readable : ℕ → Bool
  pub commits : Bool

pub data ErrorClass : Type 0 where
  temporary permanent unclear : ErrorClass

-- `classifyTelegramError`, of a code in the answer.
unfoldable pub classify_telegram_error : Option ℕ → ErrorClass
classify_telegram_error none = unclear
classify_telegram_error (some code) =
    if code == 400 || code == 401 || code == 403
    then permanent
    else if code == 429 || leb 500 code
    then temporary
    else unclear

pub data JobResult : Type 0 where
  already_delivered already_processing group_already_claimed : JobResult
  owned_by_root : ℕ → JobResult
  delivered_orders : List ℕ → JobResult
  order_not_found needs_review ambiguous_before not_claimed incomplete unreadable : JobResult
  refused_for_good ambiguous_result : JobResult
  try_again : JobResult

-- The end of a run: `maybe_sent` if the customer may have the secrets.
pub record JobRun : Type 0 where
  pub result : JobResult
  pub maybe_sent : Bool
  pub db : Db

abbrev pub ends : JobResult → Db → JobRun
ends r s = record { result = r; maybe_sent = false; db = s }

-- `deliveryStatus: { $in: [PENDING, PROCESSING] }`
abbrev pub is_undelivered : DeliveryStatus → Bool
is_undelivered pending = true
is_undelivered processing = true
is_undelivered _ = false

-- An open order of the customer for the product under the payment.
abbrev pub in_group : ℕ → ℕ → ℕ → Order → Bool
in_group user_id product_id payment_id o =
    o.user_id == user_id
    && o.product_id == product_id
    && holds payment_id o.metadata.payment_request_id
    && is_open o.status
    && is_undelivered o.delivery_status

-- `groupOrders`
unfoldable pub group_of : Option ℕ → Order → Db → List Order
group_of none o s = o ∷ []
group_of (some payment_id) o s = find_all (in_group o.user_id o.product_id payment_id) s.orders

abbrev pub id_in : List ℕ → ℕ → Bool
id_in ids n = any_row (λ i. i == n) ids

abbrev pub ids_of : List Order → List ℕ
ids_of os = map (λ o. o.id) os

abbrev pub begun : Order → Order
begun o = record o { status = delivering; delivery_status = processing }

-- The orders of the group that are still pending are claimed too.
abbrev pub claim_group : List ℕ → Db → Db
claim_group ids s = record s {
  orders = update_all (λ o. id_in ids o.id && is_pending o.status) begun s.orders;
}

abbrev pub is_delivering : OrderStatus → Bool
is_delivering delivering = true
is_delivering _ = false

abbrev pub waiting_again : Order → Order
waiting_again o = record o { status = pending_delivery; delivery_status = pending }

-- After a refusal that is known to be temporary the orders wait for another attempt.
abbrev pub unclaim_group : List ℕ → Db → Db
unclaim_group ids s = record s {
  orders = update_all (λ o. id_in ids o.id && is_delivering o.status) waiting_again s.orders;
}

abbrev pub handed_over : Order → Order
handed_over o = record o {
  status = delivered;
  delivery_status = DeliveryStatus.delivered;
  failure_reason = none;
}

abbrev pub last_or {ℓ} : {A : Type ℓ} → Option A → List A → Option A
last_or o [] = o
last_or o (x ∷ xs) = last_or (some x) xs

-- `inventoryByOrder.get(order)`: the map keeps the last item of those held for the order.
unfoldable pub item_for : Order → Db → Option InventoryItem
item_for o s = last_or none (
    find_all (λ x. holds o.id x.reserved_order_id && is_reserved x.status && not x.deleted)
      s.inventory_items)

abbrev pub with_line :
    Order
    → InventoryItem
    → Result (List (Order × InventoryItem))
    → Result (List (Order × InventoryItem))
with_line o x (ok ds) = ok ((o, x) ∷ ds)
with_line o x (err e) = err e

abbrev pub readable_line :
    Attempt
    → Order
    → Option InventoryItem
    → Result (List (Order × InventoryItem))
    → Result (List (Order × InventoryItem))
readable_line a o none rest = err Error.incomplete_delivery
readable_line a o (some x) rest =
    if a.readable x.id then with_line o x rest else err Error.unreadable_payload

-- The loop over the group that collects `deliveries`.
unfoldable pub collect_deliveries :
    Attempt → List Order → Db → Result (List (Order × InventoryItem))
collect_deliveries a [] s = ok []
collect_deliveries a (o ∷ os) s = readable_line a o (item_for o s) (collect_deliveries a os s)

abbrev pub is_sold : InventoryStatus → Bool
is_sold sold = true
is_sold _ = false

abbrev pub sold_to : ℕ → ℕ → InventoryItem → Bool
sold_to item_id order_id x = x.id == item_id && holds order_id x.sold_order_id && is_sold x.status

-- The item is sold to the order, or it was already.
abbrev pub sold_or_throw : ℕ → ℕ → Option InventoryItem → Tx (Unit {0})
sold_or_throw item_id order_id (some x) = pure tt
sold_or_throw item_id order_id none = do
  already ← gets λ s. any_row (sold_to item_id order_id) s.inventory_items
  throw_if (not already) inventory_changed

unfoldable pub confirm_sale : ℕ → Order → InventoryItem → Tx (Unit {0})
confirm_sale user_id o x = mark_sold x.id user_id o.id >>= sold_or_throw x.id o.id

unfoldable pub confirm_sales : ℕ → List (Order × InventoryItem) → Tx (Unit {0})
confirm_sales user_id [] = pure tt
confirm_sales user_id ((o, x) ∷ ds) = do confirm_sale user_id o x; confirm_sales user_id ds

-- The transaction that confirms a delivery.
unfoldable pub confirm_delivery : ℕ → List ℕ → List (Order × InventoryItem) → Tx (Unit {0})
confirm_delivery user_id ids ds = do
  confirm_sales user_id ds
  modify λ s. record s { orders = update_all (λ (o : Order). id_in ids o.id) handed_over s.orders }

-- A failure of the database behind the message is ambiguous: the orders stay as they are.
abbrev pub confirmed_or : List ℕ → Bool → Db → Result (Unit {0} × Db) → JobRun
confirmed_or ids true s (ok (x, t)) = record {
  result = delivered_orders ids;
  maybe_sent = true;
  db = t;
}
confirmed_or ids false s (ok (x, t)) = record {
  result = ambiguous_result;
  maybe_sent = true;
  db = s;
}
confirmed_or ids commits s (err e) = record { result = ambiguous_result; maybe_sent = true; db = s }

-- The catch clause: of a refusal, the secrets have not been sent if its class is known.
abbrev pub refused_send : List ℕ → ErrorClass → Db → JobRun
refused_send ids temporary s = ends try_again (unclaim_group ids s)
refused_send ids permanent s = ends refused_for_good s
refused_send ids unclear s = record { result = ambiguous_result; maybe_sent = true; db = s }

unfoldable pub send_secrets :
    Attempt → ℕ → List ℕ → List (Order × InventoryItem) → SendOutcome → Db → JobRun
send_secrets a user_id ids ds accepted s =
    confirmed_or ids a.commits s (confirm_delivery user_id ids ds s)
send_secrets a user_id ids ds (refused code) s =
    refused_send ids (classify_telegram_error (some code)) s
send_secrets a user_id ids ds no_answer s = refused_send ids (classify_telegram_error none) s

abbrev pub job_failure : Error → JobResult
job_failure Error.unreadable_payload = unreadable
job_failure _ = incomplete

abbrev pub prepared : Attempt → ℕ → List ℕ → Db → Result (List (Order × InventoryItem)) → JobRun
prepared a user_id ids s (ok ds) = send_secrets a user_id ids ds a.send s
prepared a user_id ids s (err e) = ends (job_failure e) s

-- The claimed order with its group.
unfoldable pub deliver_group : Attempt → ℕ → Order → List Order → Db → JobRun
deliver_group a id claimed group s =
    if any_row (λ (o : Order). o.id == id) group
    then prepared a claimed.user_id (ids_of group) (claim_group (ids_of group) s)
        (collect_deliveries a group (claim_group (ids_of group) s))
    else ends group_already_claimed s

-- The customer and the product of the order are there.
unfoldable pub deliver_claimed : Attempt → ℕ → Option ℕ → Order → Db → JobRun
deliver_claimed a id payment claimed s =
    if any_row (λ u. u.id == claimed.user_id) s.users
      && any_row (λ p. p.id == claimed.product_id) s.products
    then deliver_group a id claimed (group_of payment claimed s) s
    else ends incomplete s

abbrev pub unclaimed_result : Option Order → JobResult
unclaimed_result none = not_claimed
unclaimed_result (some o) = elim o.status [
  | delivered ↦ already_delivered
  | delivering ↦ already_processing
  | _ ↦ not_claimed
]

abbrev pub claimed_or : Attempt → ℕ → Option ℕ → Db → Option Order × Db → JobRun
claimed_or a id payment s (some claimed, t) = deliver_claimed a id payment claimed t
claimed_or a id payment s (none, t) =
    ends (unclaimed_result (find_first (λ (o : Order). o.id == id) t.orders)) t

-- `markDelivering`, which is one update outside of a transaction.
abbrev pub run_claim : ℕ → Db → Option Order × Db
run_claim id s = outcome (mark_delivering id s)
  where
    outcome : Result (Option Order × Db) → Option Order × Db
    outcome (ok r) = r
    outcome (err e) = (none, s)

-- An order whose earlier attempt has not come to an end is not sent again.
unfoldable pub claim_order : Attempt → ℕ → Option ℕ → OrderStatus → Db → JobRun
claim_order a id payment delivering s = ends ambiguous_before s
claim_order a id payment _ s = claimed_or a id payment s (run_claim id s)

-- `groupRoot`: the first open order of the payment.
unfoldable pub root_of : Option ℕ → Order → Db → Option Order
root_of none o s = none
root_of (some payment_id) o s = find_first (in_group o.user_id o.product_id payment_id) s.orders

-- Only the root of a group delivers it.
abbrev pub by_root : Attempt → ℕ → Order → Option Order → Db → JobRun
by_root a id o none s = claim_order a id o.metadata.payment_request_id o.status s
by_root a id o (some root) s =
    if root.id == id
    then claim_order a id o.metadata.payment_request_id o.status s
    else ends (owned_by_root root.id) s

unfoldable pub process_open : Attempt → ℕ → Order → Db → JobRun
process_open a id o s = by_root a id o (root_of o.metadata.payment_request_id o s) s

abbrev pub process_by_status : Attempt → ℕ → Order → OrderStatus → Db → JobRun
process_by_status a id o delivered s = ends already_delivered s
process_by_status a id o delivery_failed s = ends needs_review s
process_by_status a id o _ s = process_open a id o s

abbrev pub process_found : Attempt → ℕ → Option Order → Db → JobRun
process_found a id none s = ends order_not_found s
process_found a id (some o) s = process_by_status a id o o.status s

-- `process`
unfoldable pub process : Attempt → ℕ → Db → JobRun
process a id s = process_found a id (find_first (λ (o : Order). o.id == id) s.orders) s

-- The open orders of the payment fail with the order.
abbrev pub fail_group : Text → Order → Option ℕ → Db → Db
fail_group reason o none s = s
fail_group reason o (some payment_id) s = record s {
  orders =
      update_all (in_group o.user_id o.product_id payment_id)
        (λ x. record x {
          status = delivery_failed;
          delivery_status = failed;
          failure_reason = some (take 2000 reason);
        })
        s.orders;
}

abbrev pub failed_with : Text → Db → Result (Option Order × Db) → Db
failed_with reason s (ok (some o, t)) = fail_group reason o o.metadata.payment_request_id t
failed_with reason s (ok (none, t)) = t
failed_with reason s (err e) = s

-- `onFailed`
unfoldable pub on_failed : ℕ → Text → Db → Db
on_failed id reason s = failed_with reason s (mark_delivery_failed id reason s)
