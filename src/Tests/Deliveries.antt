-- ===== src/Tests/Deliveries.antt =====
-- The delivery of one order, and its refund when it has failed.
use cdk_gpt.Prelude.{
  ◌≡◌, refl, ◌≤◌, true, false, none, some, [], ◌∷◌, List, codes, count_if, find_first, find_all,
  find_and_update, update_all, any_row, text_eq, decimal, total, arith,
}
use cdk_gpt.Store.{Db, Order, pending_delivery, delivery_failed, pending, failed, reserved, ok}
use cdk_gpt.Users.{find_active, credit, update_user}
use cdk_gpt.Users.Totals.{balance_of}
use cdk_gpt.Wallet.{
  create, change, apply_change, apply_after, apply_new, find_payer, move_balance,
  find_by_idempotency_key, credit_change,
}
use cdk_gpt.Wallet.Ledger.{Reconciled, credits_of, debits_of}
use cdk_gpt.Inventory.{mark_sold, update_item}
use cdk_gpt.Orders.{mark_delivering, mark_delivery_failed, update_order}
use cdk_gpt.Delivery.{
  Attempt, accepted, refused, process, process_open, root_of, claim_order, deliver_claimed,
  deliver_group, group_of, item_for, collect_deliveries, send_secrets, confirm_delivery,
  confirm_sales, confirm_sale, on_failed, classify_telegram_error,
}
use cdk_gpt.Delivery.Once.{JobEvent, attempted, gave_up, Single, times_sent, process_sends_once}
use cdk_gpt.Delivery.Recovery.{
  refund_delivery, refund_failed_order, credit_refund, disable_reserved, find_order_where,
}
use cdk_gpt.Delivery.Recovery.Refunds.{refund_keeps_books, refund_once}
use cdk_gpt.Tests.{shop, item, value_or, after}

abbrev bought : Order
bought = record {
  id = 60;
  order_code = codes "O1";
  user_id = 1;
  product_id = 10;
  inventory_item_id = 20;
  unit_price = 100;
  discount_amount = 0;
  total_amount = 100;
  coupon_code = none;
  coupon_id = none;
  status = pending_delivery;
  delivery_status = pending;
  wallet_transaction_id = none;
  failure_reason = none;
  idempotency_key = codes "buy:1";
  metadata = record {
    payment_request_id = none;
    purchase_group_id = none;
    batch_quantity = none;
    batch_total_amount = none;
  };
}

abbrev sold_shop : Db
sold_shop = record shop {
  orders = bought ∷ [];
  inventory_items =
      (record (item 20) {
        status = reserved;
        reserved_by_user_id = some 1;
        reserved_order_id = some 60;
      })
      ∷ item 21
      ∷ [];
}

-- Telegram asks to wait; then it takes the message, and the database fails behind it.
abbrev turned_away : Attempt
turned_away = record { send = refused 429; readable = λ x. true; commits = true }

abbrev cut_off : Attempt
cut_off = record { send = accepted; readable = λ x. true; commits = false }

abbrev history : List JobEvent
history =
    attempted turned_away
    ∷ attempted cut_off
    ∷ attempted cut_off
    ∷ gave_up (codes "E")
    ∷ attempted cut_off
    ∷ []

one_order : Single 60 sold_shop
unfolding count_if
one_order = omega arith

process_sends_once_example : times_sent 60 history sold_shop ≤ 1
process_sends_once_example = process_sends_once 60 history sold_shop one_order

sent_one_time : times_sent 60 history sold_shop ≡ 1
unfolding times_sent process process_open root_of claim_order mark_delivering update_order
    find_and_update find_first deliver_claimed deliver_group group_of any_row update_all
    collect_deliveries item_for find_all send_secrets confirm_delivery confirm_sales confirm_sale
    mark_sold update_item classify_telegram_error on_failed mark_delivery_failed
sent_one_time = refl

abbrev failed_shop : Db
failed_shop = record sold_shop {
  orders = (record bought { status = delivery_failed; delivery_status = failed }) ∷ [];
}

abbrev paid_back : Order
paid_back = value_or bought (refund_delivery 60 7 failed_shop)

abbrev refunded_shop : Db
refunded_shop = after shop (refund_delivery 60 7 failed_shop)

refund_commits : refund_delivery 60 7 failed_shop ≡ ok (paid_back, refunded_shop)
unfolding refund_delivery find_order_where find_first refund_failed_order credit_refund
    credit_change change apply_change apply_after apply_new find_payer find_active move_balance
    credit update_user create find_by_idempotency_key any_row find_and_update text_eq
    disable_reserved update_item update_order decimal
refund_commits = refl

failed-Reconciled : Reconciled 1 500 failed_shop
unfolding balance_of credits_of debits_of total
failed-Reconciled = refl

refund_keeps_books_example : Reconciled 1 500 refunded_shop
refund_keeps_books_example =
    refund_keeps_books 1 500 60 7 failed_shop paid_back refunded_shop failed-Reconciled
      refund_commits

failed-Single : Single 60 failed_shop
unfolding count_if
failed-Single = omega arith

refund_once_example : refund_delivery 60 8 refunded_shop ≡ ok (paid_back, refunded_shop)
refund_once_example =
    refund_once 60 7 8 failed_shop paid_back refunded_shop failed-Single refund_commits
