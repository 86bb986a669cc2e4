-- ===== src/Tests/Payments.antt =====
-- A payment by bank transfer in the small shop.
use cdk_gpt.Prelude.{
  ◌≡◌, refl, true, false, none, some, [], ◌∷◌, codes, int, pos, find_first, find_all, any_row,
  count_if, total, find_and_update, text_eq, update_all, every_row, to_upper, trim, starts_with,
  eq_text?, digits_fuel, decimal, length, ◌==◌,
}
use cdk_gpt.Store.{
  Db, PaymentRequest, QuickCheckout, PaymentRequestStatus, Provider, CheckoutStatus, admin, ok,
}
use cdk_gpt.Users.{
  find_active, find_existing, credit, credit_received_funds, debit, lock_for_checkout, update_user,
}
use cdk_gpt.Users.Totals.{balance_of}
use cdk_gpt.Wallet.{
  create, change, apply_change, apply_after, apply_new, find_payer, move_balance,
  find_by_idempotency_key, credit_change, credit_received_change,
}
use cdk_gpt.Wallet.Ledger.{Reconciled, credits_of, debits_of}
use cdk_gpt.Inventory.{
  reserve_one, update_item, update_items, count_available,
  release_expired_payment_reservations_for_product, count_active_payment_reservations,
  release_payment_reservations,
}
use cdk_gpt.Orders.{create_order, attach_wallet_transaction, update_order}
use cdk_gpt.Coupons.{price_code, normalize_coupon_code}
use cdk_gpt.Purchase.{
  validate_batch_input, is_coupon_code, batch_key, keys_from, batch_keys, find_product,
  count_purchases, order_code,
}
use cdk_gpt.Purchase.Split.{discount_share}
use cdk_gpt.Purchase.Quote.{
  quote_batch_for_payment, quote_product, coupon_pricing, soft_checkout_availability,
  product_availability,
}
use cdk_gpt.Purchase.Batch.{
  reserve_from_stock, take_item, record_charge, place_order, place_orders, settle_price,
  check_limit, held_items, sell, create_batch, purchasable,
}
use cdk_gpt.Purchase.Session.{
  find_batch, purchase_valid_batch_in_session, purchase_batch_in_session,
}
use cdk_gpt.Payment.{Approver, find_request, update_request, approve_pending, approve_as}
use cdk_gpt.Payment.Books.{approval_keeps_books}
use cdk_gpt.Payment.Transfers.{
  words_from, is_transfer_code, distinct_from, extract_transfer_codes, scoped_bank_reference,
}
use cdk_gpt.Payment.Bank.{
  BankTransaction, reference_used, claim_request, save_request, release_if, refusal_in_time,
}
use cdk_gpt.Payment.Approval.{
  refusal, serve_checkout, claim_and_credit, approve_deposit, approve_checkout, approve_unpaid,
  approve_if_unused, approve_once, approve_failed, approve_bank_request, settle_transfer,
  match_request, process_bank_transaction,
}
use cdk_gpt.Payment.Approval.Books.{transfer_keeps_books}
use cdk_gpt.Payment.Approval.Late.{late_payment_buys_nothing}
use cdk_gpt.Payment.Callback.{process_cake_callback}
use cdk_gpt.Payment.Callback.Books.{callback_keeps_books}
use cdk_gpt.Payment.Requests.{
  create_request, create_for, process_webhook, recover_request, upsert_request, found_or_inserted,
  insert_request,
}
use cdk_gpt.Payment.Requests.Once.{AnswersAgain, create_request_replay}
use cdk_gpt.Payment.Requests.Books.{webhook_keeps_books}
use cdk_gpt.Payment.Checkout.{
  BankSetting, CheckoutInput, create_bank_checkout, checkout_once, recover_checkout, found_or_new,
  new_checkout, assert_same_checkout,
}
use cdk_gpt.Payment.Checkout.Same.{AsksFor, create_bank_checkout_asks}
use cdk_gpt.Payment.Deposits.{create_bank_deposit, deposit_for}
use cdk_gpt.Payment.Deposits.Replay.{create_bank_deposit_replay}
use cdk_gpt.Purchase.{object_id}
use cdk_gpt.Tests.{shop, value_or, after}

-- A checkout of one item, whose QR code is good until 5000.
abbrev qr : PaymentRequest
qr = record {
  id = 40;
  request_code = codes "DON0123456789ABCDEF";
  user_id = 1;
  amount = 100;
  provider = Provider.bank_api;
  provider_reference = none;
  status = PaymentRequestStatus.pending;
  reviewed_by = none;
  reviewed_at = none;
  wallet_transaction_id = none;
  idempotency_key = codes "checkout:1";
  updated_at = 0;
  metadata = record {
    transfer_content = some (codes "DON0123456789ABCDEF");
    bank_config_id = none;
    expires_at = some 5000;
    user_cancelled_at = none;
    amount_mismatch = none;
    bank_transaction_id = none;
    late_payment = none;
    quick_checkout = some (record {
      product_id = 10;
      product_name = codes "Account";
      quantity = 1;
      unit_price = 100;
      total_amount = 100;
      subtotal = some 100;
      discount_amount = some 0;
      coupon_code = none;
      idempotency_prefix = codes "quickpay:DON0123456789ABCDEF";
      status = CheckoutStatus.pending_payment;
      soft = true;
      order_ids = [];
      fulfillment_error = none;
      processing_at = none;
      fulfilled_at = none;
    });
  };
  deleted = false;
}

abbrev waiting : Db
waiting = record shop { payment_requests = qr ∷ [] }

waiting-Reconciled : Reconciled 1 500 waiting
unfolding balance_of credits_of debits_of total
waiting-Reconciled = refl

abbrev transfer : BankTransaction
transfer = record {
  transaction_id = codes "FT1 ";
  amount = int (pos 100);
  description = codes "pay don0123456789abcdef.";
  transaction_date = none;
  kind = none;
}

abbrev paid : Db
paid = after waiting (process_bank_transaction transfer none waiting)

-- The transfer is matched by its code and buys the item.
transfer_buys :
    (process_bank_transaction transfer none waiting ≡ ok (true, paid)) × (length paid.orders ≡ 1)
unfolding process_bank_transaction extract_transfer_codes words_from is_transfer_code distinct_from
    scoped_bank_reference match_request settle_transfer approve_bank_request approve_failed
    approve_once approve_if_unused approve_unpaid refusal refusal_in_time approve_checkout
    claim_and_credit serve_checkout reference_used claim_request save_request release_if
    find_request update_request soft_checkout_availability product_availability count_available
    purchase_batch_in_session purchase_valid_batch_in_session find_batch create_batch sell
    settle_price coupon_pricing price_code normalize_coupon_code check_limit held_items place_orders
    place_order take_item reserve_from_stock record_charge discount_share purchasable batch_key
    batch_keys keys_from decimal digits_fuel validate_batch_input is_coupon_code find_product
    count_purchases order_code find_active find_existing credit_received_funds debit
    lock_for_checkout update_user create change apply_change apply_after apply_new find_payer
    move_balance find_by_idempotency_key credit_received_change reserve_one update_item update_items
    release_expired_payment_reservations_for_product count_active_payment_reservations create_order
    attach_wallet_transaction update_order find_first find_all any_row count_if find_and_update
    text_eq update_all every_row to_upper trim starts_with eq_text?
transfer_buys = (refl, refl)

transfer_keeps_books_example : Reconciled 1 500 paid
transfer_keeps_books_example =
    transfer_keeps_books 1 500 transfer none waiting true paid waiting-Reconciled transfer_buys.0

-- The same transfer, when the QR code is no longer good.
abbrev too_late : Db
too_late = record waiting { now = 6000 }

abbrev credited : Db
credited =
    after too_late (approve_once 40 (codes "FT1") (codes "FT1 ") (some (codes "FT1")) too_late)

late_approval :
    approve_once 40 (codes "FT1") (codes "FT1 ") (some (codes "FT1")) too_late ≡ ok (true, credited)
unfolding approve_once approve_if_unused approve_unpaid refusal approve_checkout approve_deposit
    claim_and_credit reference_used claim_request save_request release_if find_request
    update_request release_payment_reservations find_existing credit_received_funds update_user
    create change apply_change apply_after apply_new find_payer move_balance find_by_idempotency_key
    credit_received_change update_items find_first any_row count_if find_and_update text_eq
    update_all eq_text?
late_approval = refl

qr_found : find_first (λ x. x.id == 40) too_late.payment_requests ≡ some qr
unfolding find_first
qr_found = refl

late_payment_buys_nothing_example : credited.orders ≡ too_late.orders
late_payment_buys_nothing_example =
    late_payment_buys_nothing 40 (codes "FT1") (codes "FT1 ") (some (codes "FT1")) too_late qr true
      credited qr_found refl late_approval

abbrev reviewer : Approver
reviewer = record { actor_type = admin; actor_id = some 90; idempotency_key = codes "approve:40" }

abbrev approved : Db
approved = after waiting (approve_as 40 reviewer waiting)

abbrev reviewed : PaymentRequest
reviewed = value_or qr (approve_as 40 reviewer waiting)

admin_approves : approve_as 40 reviewer waiting ≡ ok (reviewed, approved)
unfolding approve_as approve_pending find_request update_request credit_change change apply_change
    apply_after apply_new find_payer find_active move_balance credit update_user create
    find_by_idempotency_key find_first any_row find_and_update text_eq
admin_approves = refl

approval_keeps_books_example : Reconciled 1 500 approved
approval_keeps_books_example =
    approval_keeps_books 1 500 40 reviewer waiting reviewed approved waiting-Reconciled
      admin_approves

callback_keeps_books_example :
    Reconciled 1 500 (process_cake_callback none (transfer ∷ transfer ∷ []) waiting).1
callback_keeps_books_example =
    callback_keeps_books 1 500 none (transfer ∷ transfer ∷ []) waiting waiting-Reconciled

abbrev delivered : Db
delivered = after shop (process_webhook (Provider.named (codes "MOMO")) (codes "M7") 1 60 shop)

abbrev delivery : PaymentRequest
delivery = value_or qr (process_webhook (Provider.named (codes "MOMO")) (codes "M7") 1 60 shop)

webhook_commits :
    process_webhook (Provider.named (codes "MOMO")) (codes "M7") 1 60 shop
    ≡ ok (delivery, delivered)
unfolding process_webhook recover_request upsert_request update_request find_and_update
    found_or_inserted insert_request approve_as approve_pending find_request credit_change change
    apply_change apply_after apply_new find_payer find_active move_balance credit update_user create
    find_by_idempotency_key find_first any_row text_eq eq_text?
webhook_commits = refl

shop-Reconciled : Reconciled 1 500 shop
unfolding balance_of credits_of debits_of total
shop-Reconciled = refl

webhook_keeps_books_example : Reconciled 1 500 delivered
webhook_keeps_books_example =
    webhook_keeps_books 1 500 (Provider.named (codes "MOMO")) (codes "M7") 1 60 shop delivery
      delivered shop-Reconciled webhook_commits

abbrev requested : Db
requested = after shop (
    create_request (object_id 1) (int (pos 60)) (Provider.named (codes "CASH")) (codes "ask:1")
      shop)

abbrev request : PaymentRequest
request = value_or qr (
    create_request (object_id 1) (int (pos 60)) (Provider.named (codes "CASH")) (codes "ask:1")
      shop)

request_commits :
    create_request (object_id 1) (int (pos 60)) (Provider.named (codes "CASH")) (codes "ask:1") shop
    ≡ ok (request, requested)
unfolding create_request create_for upsert_request update_request find_and_update found_or_inserted
    insert_request find_request find_first any_row text_eq
request_commits = refl

create_request_replay_example :
    AnswersAgain
      (create_request (object_id 1) (int (pos 60)) (Provider.named (codes "CASH")) (codes "ask:1"))
      request
      requested
      9000
create_request_replay_example =
    create_request_replay (object_id 1) (int (pos 60)) (Provider.named (codes "CASH"))
      (codes "ask:1") shop request requested 9000 request_commits

abbrev bank : BankSetting
bank = record { bank_config_id = codes "B1"; ttl_minutes = 15 }

abbrev one_item : CheckoutInput
one_item = record {
  user_id = object_id 1;
  product_id = object_id 10;
  quantity = int (pos 1);
  expected_unit_price = int (pos 100);
  idempotency_key = codes "checkout:9";
  coupon_code = none;
  expected_total_amount = none;
}

abbrev awaiting : Db
awaiting = after shop (create_bank_checkout bank one_item shop)

abbrev asked : PaymentRequest
asked = value_or qr (create_bank_checkout bank one_item shop)

checkout_commits : create_bank_checkout bank one_item shop ≡ ok (asked, awaiting)
unfolding create_bank_checkout checkout_once recover_checkout found_or_new new_checkout
    assert_same_checkout insert_request find_request validate_batch_input is_coupon_code every_row
    quote_batch_for_payment quote_product coupon_pricing price_code normalize_coupon_code
    find_active lock_for_checkout update_user find_product count_available count_purchases
    find_first any_row count_if find_and_update text_eq eq_text? to_upper trim
checkout_commits = refl

create_bank_checkout_asks_example :
    (c : QuickCheckout) × (asked.metadata.quick_checkout ≡ some c)
    × AsksFor one_item asked c
    × (asked.idempotency_key ≡ one_item.idempotency_key)
create_bank_checkout_asks_example =
    create_bank_checkout_asks bank one_item shop asked awaiting checkout_commits

abbrev other_bank : BankSetting
other_bank = record { bank_config_id = codes "B2"; ttl_minutes = 30 }

abbrev deposited : Db
deposited =
    after shop (create_bank_deposit bank (object_id 1) (int (pos 75)) (codes "topup:1") shop)

abbrev deposit : PaymentRequest
deposit = value_or qr (create_bank_deposit bank (object_id 1) (int (pos 75)) (codes "topup:1") shop)

deposit_commits :
    create_bank_deposit bank (object_id 1) (int (pos 75)) (codes "topup:1") shop
    ≡ ok (deposit, deposited)
unfolding create_bank_deposit deposit_for upsert_request update_request find_and_update
    found_or_inserted insert_request find_request find_first any_row text_eq
deposit_commits = refl

create_bank_deposit_replay_example :
    AnswersAgain
      (create_bank_deposit other_bank (object_id 1) (int (pos 75)) (codes "topup:1"))
      deposit
      deposited
      9000
create_bank_deposit_replay_example =
    create_bank_deposit_replay bank other_bank (object_id 1) (int (pos 75)) (codes "topup:1") shop
      deposit deposited 9000 deposit_commits
