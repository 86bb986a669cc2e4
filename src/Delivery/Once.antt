-- ===== src/Delivery/Once.antt =====
-- The secrets of an order are sent once, however often its job runs.
use cdk_gpt.Prelude.{
  ℕ, ◌+◌, ◌≤◌, ◌≡◌, refl, Bool, true, false, ◌&&◌, Option, none, some, List, [], ◌∷◌, arith, ◌==◌,
  if◌then◌else◌, count_if, update_all, find_and_update, find_and_update-zero, Updated, take,
  any_row, Bool-cases, inl, inr, Text,
}
use cdk_gpt.Store.{
  Db, Order, OrderStatus, delivering, delivered, delivery_failed, DeliveryStatus, InventoryItem, ok,
  err, Result,
}
use cdk_gpt.Store.Rules.{Committed}
use cdk_gpt.Orders.{
  store_order, is_pending, is_open, is_waiting, mark_delivering, mark_delivery_failed, update_order,
}
use cdk_gpt.Delivery.Kept.{confirm_delivery-Kept, process-Kept}
use cdk_gpt.Delivery.{
  by_root, process_by_status, Attempt, SendOutcome, accepted, refused, no_answer, ErrorClass,
  temporary, permanent, unclear, JobRun, claim_group, handed_over, id_in, begun, waiting_again,
  confirm_delivery, confirmed_or, refused_send, send_secrets, prepared, deliver_group,
  deliver_claimed, claimed_or, run_claim, claim_order, root_of, process_open, process_found,
  process, on_failed, failed_with, fail_group, classify_telegram_error, group_of, ids_of, in_group,
  is_delivering,
}

abbrev has_id : ℕ → Order → Bool
has_id id o = o.id == id

abbrev is_unsent : ℕ → Order → Bool
is_unsent id o = o.id == id && is_pending o.status

-- No order of the identifier waits to be claimed.
abbrev Claimed : ℕ → Db → Type 0
Claimed id s = count_if (is_unsent id) s.orders ≡ 0

-- The identifier is that of one order at most.
abbrev pub Single : ℕ → Db → Type 0
Single id s = count_if (has_id id) s.orders ≤ 1

module _ (p q : Order → Bool) (f : Order → Order) where
  count-update_all-le :
      ((o : Order) → q o ≡ true → p (f o) ≡ true → p o ≡ true)
      → (os : List Order) → count_if p (update_all q f os) ≤ count_if p os
  unfolding count_if update_all
  count-update_all-le h [] = omega arith
  count-update_all-le h (o ∷ os) = ground (arith, h o, count-update_all-le h os)

  count-find_and_update-le :
      ((o : Order) → q o ≡ true → p (f o) ≡ true → p o ≡ true)
      → (os : List Order) → Updated (λ y ys. count_if p ys ≤ count_if p os) (find_and_update q f os)
  unfolding count_if find_and_update
  count-find_and_update-le h [] = tt
  count-find_and_update-le h (o ∷ os) = ground (arith, h o, count-find_and_update-le h os)

  count-find_and_update-drops :
      ((o : Order) → q o ≡ true → p o ≡ true)
      → ((o : Order) → q o ≡ true → p (f o) ≡ false)
      → (os : List Order)
      → Updated (λ y ys. count_if p ys + 1 ≡ count_if p os) (find_and_update q f os)
  unfolding count_if find_and_update
  count-find_and_update-drops h k [] = tt
  count-find_and_update-drops h k (o ∷ os) =
      ground (arith, h o, k o, count-find_and_update-drops h k os)

count-unsent-le : (id : ℕ) (os : List Order) → count_if (is_unsent id) os ≤ count_if (has_id id) os
unfolding count_if
count-unsent-le id [] = omega arith
count-unsent-le id (o ∷ os) = ground (arith, count-unsent-le id os)

count_if-le :
    (p q : Order → Bool) (os : List Order)
    → ((o : Order) → p o ≡ true → q o ≡ true)
    → count_if p os ≤ count_if q os
unfolding count_if
count_if-le p q [] h = omega arith
count_if-le p q (o ∷ os) h = ground (arith, h o, count_if-le p q os h)

-- The order that `markDelivering` takes, and what it makes of it.
abbrev is_ready : ℕ → Order → Bool
is_ready id o = o.id == id && is_pending o.status && is_waiting o.delivery_status

abbrev taken : Order → Order
taken o = record o {
  status = delivering;
  delivery_status = DeliveryStatus.processing;
  failure_reason = none;
}

module _ (id : ℕ) where
  claim_group-Claimed : (ids : List ℕ) (s : Db) → Claimed id s → Claimed id (claim_group ids s)
  claim_group-Claimed ids s h = omega (
    arith,
    count-update_all-le (is_unsent id) (λ o. id_in ids o.id && is_pending o.status) begun
        (λ o k l. ground arith) s.orders,
  )

  handed_over-Claimed :
      (ids : List ℕ) (s : Db)
      → Claimed id s
      → Claimed id (record s { orders = update_all (λ o. id_in ids o.id) handed_over s.orders })
  handed_over-Claimed ids s h = omega (
    arith,
    count-update_all-le (is_unsent id) (λ o. id_in ids o.id) handed_over (λ o k l. ground arith)
        s.orders,
  )

  -- A run that may have sent leaves no order of the identifier to be claimed.
  abbrev SentClaims : JobRun → Type 0
  SentClaims run = run.maybe_sent ≡ true → Claimed id run.db

  confirmed_or-SentClaims :
      (ids : List ℕ) (commits : Bool) (s : Db) (r : Result (Unit {0} × Db))
      → Claimed id s
      → Committed (λ x. Claimed id) r
      → SentClaims (confirmed_or ids commits s r)
  confirmed_or-SentClaims ids true s (ok (x, t)) h c k = c
  confirmed_or-SentClaims ids false s (ok (x, t)) h c k = h
  confirmed_or-SentClaims ids true s (err e) h c k = h
  confirmed_or-SentClaims ids false s (err e) h c k = h

  refused_send-SentClaims :
      (ids : List ℕ) (c : ErrorClass) (s : Db) → Claimed id s → SentClaims (refused_send ids c s)
  refused_send-SentClaims ids temporary s h k = cc
  refused_send-SentClaims ids permanent s h k = h
  refused_send-SentClaims ids unclear s h k = h

  send_secrets-SentClaims :
      (a : Attempt) (user_id : ℕ) (ids : List ℕ) (ds : List (Order × InventoryItem))
      (o : SendOutcome) (s : Db)
      → Claimed id s
      → SentClaims (send_secrets a user_id ids ds o s)
  unfolding send_secrets
  send_secrets-SentClaims a user_id ids ds accepted s h =
      confirmed_or-SentClaims ids a.commits s (confirm_delivery user_id ids ds s) h (
        (confirm_delivery-Kept (Claimed id) (λ t xs k. k) handed_over-Claimed user_id ids ds).run s
          h)
  send_secrets-SentClaims a user_id ids ds (refused code) s h =
      refused_send-SentClaims ids (classify_telegram_error (some code)) s h
  send_secrets-SentClaims a user_id ids ds no_answer s h =
      refused_send-SentClaims ids (classify_telegram_error none) s h

  prepared-SentClaims :
      (a : Attempt) (user_id : ℕ) (ids : List ℕ) (s : Db)
      (r : Result (List (Order × InventoryItem)))
      → Claimed id s
      → SentClaims (prepared a user_id ids s r)
  prepared-SentClaims a user_id ids s (ok ds) h k =
      send_secrets-SentClaims a user_id ids ds a.send s h k
  prepared-SentClaims a user_id ids s (err e) h k = cc

  deliver_group-SentClaims :
      (a : Attempt) (claimed : Order) (group : List Order) (s : Db)
      → Claimed id s
      → SentClaims (deliver_group a id claimed group s)
  unfolding deliver_group
  deliver_group-SentClaims a claimed group s h =
      elim (Bool-cases (any_row (λ (o : Order). o.id == id) group)) [
        | inl there ↦ rw there (
            prepared-SentClaims a claimed.user_id (ids_of group) (claim_group (ids_of group) s) _
              (claim_group-Claimed (ids_of group) s h))
        | inr gone ↦ rw gone (λ k. cc)
      ]

  deliver_claimed-SentClaims :
      (a : Attempt) (payment : Option ℕ) (claimed : Order) (s : Db)
      → Claimed id s
      → SentClaims (deliver_claimed a id payment claimed s)
  unfolding deliver_claimed
  deliver_claimed-SentClaims a payment claimed s h =
      elim (Bool-cases (
        any_row (λ u. u.id == claimed.user_id) s.users
        && any_row (λ p. p.id == claimed.product_id) s.products)) [
          | inl there ↦
              rw there (deliver_group-SentClaims a claimed (group_of payment claimed s) s h)
          | inr gone ↦ rw gone (λ k. cc)
        ]

  Claimed-after :
      (s : Db) (r : Option (Order × List Order)) (o : Order)
      → Updated (λ y ys. count_if (is_unsent id) ys + 1 ≡ count_if (is_unsent id) s.orders) r
      → Single id s
      → (store_order s r).0 ≡ some o
      → Claimed id (store_order s r).1
  Claimed-after s none o u one e = cc
  Claimed-after s (some (y, ys)) o u one e = omega (arith, count-unsent-le id s.orders)

  run_claim-Claimed :
      (s : Db) (o : Order)
      → Single id s
      → (run_claim id s).0 ≡ some o
      → Claimed id (run_claim id s).1
  unfolding mark_delivering update_order
  run_claim-Claimed s o one e =
      Claimed-after s (find_and_update (is_ready id) taken s.orders) o
        (count-find_and_update-drops (is_unsent id) (is_ready id) taken (λ x h. ground (arith, h))
          (λ x h. ground arith) s.orders)
        one e

  run_claim-none : (s : Db) → Claimed id s → run_claim id s ≡ (none, s)
  unfolding mark_delivering update_order
  run_claim-none s h =
      rw
        (find_and_update-zero (is_ready id) taken s.orders (
          omega
            (arith, count_if-le (is_ready id) (is_unsent id) s.orders (λ o k. ground (arith, k)))))
        refl

  claimed_or-SentClaims :
      (a : Attempt) (payment : Option ℕ) (s : Db) (r : Option Order × Db)
      → ((o : Order) → r.0 ≡ some o → Claimed id r.1)
      → SentClaims (claimed_or a id payment s r)
  claimed_or-SentClaims a payment s (some o, t) h =
      deliver_claimed-SentClaims a payment o t (h o refl)
  claimed_or-SentClaims a payment s (none, t) h = λ k. cc

  claim_order-SentClaims :
      (a : Attempt) (payment : Option ℕ) (st : OrderStatus) (s : Db)
      → Single id s
      → SentClaims (claim_order a id payment st s)
  unfolding claim_order
  claim_order-SentClaims a payment delivering s one = λ k. cc
  claim_order-SentClaims a payment _ s one =
      claimed_or-SentClaims a payment s (run_claim id s) (λ o e. run_claim-Claimed s o one e)

  by_root-SentClaims :
      (a : Attempt) (o : Order) (root : Option Order) (s : Db)
      → Single id s
      → SentClaims (by_root a id o root s)
  by_root-SentClaims a o none s one =
      claim_order-SentClaims a o.metadata.payment_request_id o.status s one
  by_root-SentClaims a o (some root) s one = elim (Bool-cases (root.id == id)) [
    | inl own ↦ rw own (claim_order-SentClaims a o.metadata.payment_request_id o.status s one)
    | inr foreign ↦ rw foreign (λ k. cc)
  ]

  by_status-SentClaims :
      (a : Attempt) (o : Order) (st : OrderStatus) (s : Db)
      → Single id s
      → SentClaims (process_by_status a id o st s)
  unfolding process_open
  by_status-SentClaims a o delivered s one = λ k. cc
  by_status-SentClaims a o delivery_failed s one = λ k. cc
  by_status-SentClaims a o _ s one =
      by_root-SentClaims a o (root_of o.metadata.payment_request_id o s) s one

  process_found-SentClaims :
      (a : Attempt) (o : Option Order) (s : Db) → Single id s → SentClaims (process_found a id o s)
  process_found-SentClaims a none s one = λ k. cc
  process_found-SentClaims a (some o) s one = by_status-SentClaims a o o.status s one

  process-SentClaims : (a : Attempt) (s : Db) → Single id s → SentClaims (process a id s)
  unfolding process
  process-SentClaims a s one = process_found-SentClaims a _ s one

  process_unsent : (a : Attempt) (s : Db) → Claimed id s → (process a id s).maybe_sent ≡ false
  unfolding process process_open claim_order
  process_unsent a s h = ground (arith, run_claim-none s h)

  stored_order :
      (s : Db) (r : Option (Order × List Order)) (p : Order → Bool)
      → Updated (λ y ys. count_if p ys ≤ count_if p s.orders) r
      → count_if p (store_order s r).1.orders ≤ count_if p s.orders
  stored_order s none p u = omega arith
  stored_order s (some (y, ys)) p u = u

  run_claim-Single : (s : Db) → Single id s → Single id (run_claim id s).1
  unfolding mark_delivering update_order
  run_claim-Single s one = omega (
    arith,
    stored_order s (find_and_update (is_ready id) taken s.orders) (has_id id)
        (count-find_and_update-le (has_id id) (is_ready id) taken (λ o h k. k) s.orders),
  )

  process-Single : (a : Attempt) (s : Db) → Single id s → Single id (process a id s).db
  process-Single a s one =
      process-Kept (Single id) (λ t xs k. k)
        (λ ids t k. omega (
          arith,
          count-update_all-le (has_id id) (λ o. id_in ids o.id) handed_over (λ o h l. l) t.orders,
        ))
        (λ ids t k. omega (
          arith,
          count-update_all-le (has_id id) (λ o. id_in ids o.id && is_pending o.status) begun
              (λ o h l. l) t.orders,
        ))
        (λ ids t k. omega (
          arith,
          count-update_all-le (has_id id) (λ o. id_in ids o.id && is_delivering o.status)
              waiting_again (λ o h l. l) t.orders,
        ))
        a id s one (run_claim-Single s one)

  process-Claimed : (a : Attempt) (s : Db) → Claimed id s → Claimed id (process a id s).db
  unfolding process process_open claim_order
  process-Claimed a s h = ground (arith, run_claim-none s h)

  fail_group-le :
      (reason : Text) (o : Order) (payment : Option ℕ) (s : Db) (p : Order → Bool)
      → ((x : Order)
          → is_open x.status ≡ true
          → p (record x {
            status = delivery_failed;
            delivery_status = DeliveryStatus.failed;
            failure_reason = some (take 2000 reason);
          })
            ≡ true
          → p x ≡ true)
      → count_if p (fail_group reason o payment s).orders ≤ count_if p s.orders
  fail_group-le reason o none s p h = omega arith
  fail_group-le reason o (some payment_id) s p h =
      count-update_all-le p (in_group o.user_id o.product_id payment_id) _
        (λ x k l. h x (ground (arith, k)) l) s.orders

  failed_with-le :
      (reason : Text) (s : Db) (r : Option (Order × List Order)) (p : Order → Bool)
      → ((x : Order)
          → is_open x.status ≡ true
          → p (record x {
            status = delivery_failed;
            delivery_status = DeliveryStatus.failed;
            failure_reason = some (take 2000 reason);
          })
            ≡ true
          → p x ≡ true)
      → Updated (λ y ys. count_if p ys ≤ count_if p s.orders) r
      → count_if p (failed_with reason s (ok (store_order s r))).orders ≤ count_if p s.orders
  failed_with-le reason s none p h u = omega arith
  failed_with-le reason s (some (y, ys)) p h u =
      omega
        (arith, fail_group-le reason y y.metadata.payment_request_id (record s { orders = ys }) p h)

  on_failed-le :
      (reason : Text) (s : Db) (p : Order → Bool)
      → ((x : Order)
          → is_open x.status ≡ true
          → p (record x {
            status = delivery_failed;
            delivery_status = DeliveryStatus.failed;
            failure_reason = some (take 2000 reason);
          })
            ≡ true
          → p x ≡ true)
      → count_if p (on_failed id reason s).orders ≤ count_if p s.orders
  unfolding on_failed mark_delivery_failed update_order
  on_failed-le reason s p h = failed_with-le reason s _ p h (
      count-find_and_update-le p (λ o. o.id == id && is_open o.status) _
        (λ x k l. h x (ground (arith, k)) l) s.orders)

-- What the queue does with the job of an order: it runs, or its failure is final.
pub data JobEvent : Type 0 where
  attempted : Attempt → JobEvent
  gave_up : Text → JobEvent

-- How often the secrets may have been sent in a history of the job.
unfoldable pub times_sent : ℕ → List JobEvent → Db → ℕ
times_sent id [] s = 0
times_sent id (attempted a ∷ es) s =
    (if (process a id s).maybe_sent then 1 else 0) + times_sent id es (process a id s).db
times_sent id (gave_up reason ∷ es) s = times_sent id es (on_failed id reason s)

times_sent-Claimed : (id : ℕ) (es : List JobEvent) (s : Db) → Claimed id s → times_sent id es s ≡ 0
unfolding times_sent
times_sent-Claimed id [] s h = refl
times_sent-Claimed id (attempted a ∷ es) s h = ground (
  arith,
  process_unsent id a s h,
  times_sent-Claimed id es (process a id s).db (process-Claimed id a s h),
)
times_sent-Claimed id (gave_up reason ∷ es) s h =
    times_sent-Claimed id es (on_failed id reason s)
      (omega (arith, on_failed-le id reason s (is_unsent id) (λ x k l. ground (arith, l))))

-- However often the queue runs the job of an order, whatever Telegram answers, whether or not payloads can
-- be read and transactions commit, and with the job given up at any points, at most one of the runs may have
-- sent the secrets to the customer, as long as no administrator intervenes; the identifier is that of one
-- order.
pub process_sends_once :
    (id : ℕ) (es : List JobEvent) (s : Db) → Single id s → times_sent id es s ≤ 1
unfolding times_sent
process_sends_once id [] s one = omega arith
process_sends_once id (attempted a ∷ es) s one = elim (Bool-cases (process a id s).maybe_sent) [
  | inl sent ↦ rw sent (
      omega
        (arith, times_sent-Claimed id es (process a id s).db (process-SentClaims id a s one sent)))
  | inr unsent ↦
      rw unsent
        (omega (arith, process_sends_once id es (process a id s).db (process-Single id a s one)))
]
process_sends_once id (gave_up reason ∷ es) s one =
    process_sends_once id es (on_failed id reason s)
      (omega (arith, on_failed-le id reason s (has_id id) (λ x k l. l)))
