-- ===== src/Tests/Wallets.antt =====
-- The wallet and the coupons on the small shop.
use cdk_gpt.Prelude.{
  starts_with, positive_safe, true, ◌+◌, ◌≤◌, ◌≡◌, refl, false, none, some, codes, int, pos, arith,
  find_first, any_row, count_if, total, find_and_update, text_eq, ◌⊎◌, to_upper, trim,
}
use cdk_gpt.Store.{Db, WalletTransaction, deposit, payment_request, webhook, ok, err, Error, Coupon}
use cdk_gpt.Users.{find_active, credit, update_user}
use cdk_gpt.Users.Totals.{share, balance_of}
use cdk_gpt.Wallet.{
  WalletChange, up, down, change, apply_change, apply_after, apply_new, find_payer, move_balance,
  create, find_by_idempotency_key, has_key, conflicts,
}
use cdk_gpt.Wallet.Ledger.{Reconciled, credits_of, debits_of, change_keeps_books}
use cdk_gpt.Wallet.Replay.{change_replay}
use cdk_gpt.Wallet.Keys.{key_names_one_change, SameChange}
use cdk_gpt.Wallet.Balance.{change_moves, change_overdraft}
use cdk_gpt.Coupons.{
  CouponPricing, CouponPricingInput, price, price_code, price_with, find_coupon, redeem,
  record_redemption, count_usage, create_redemption, discount_of, raw_discount,
  normalize_coupon_code, redeemed_by, used_up, differs,
}
use cdk_gpt.Coupons.Discount.{price-Priced, AddsUp, Priced, Named}
use cdk_gpt.Coupons.Limits.{IsCounted, redeem-IsCounted, redeem_within_limits}
use cdk_gpt.Tests.{shop, after}

abbrev paid_in : WalletChange
paid_in = record {
  user_id = 1;
  amount = int (pos 30);
  kind = deposit;
  reason = codes "Bank deposit";
  reference_type = payment_request;
  reference_id = some 40;
  idempotency_key = codes "bank:7";
  actor_type = webhook;
  actor_id = none;
}

abbrev made : WalletTransaction
made = record {
  id = 100;
  user_id = 1;
  balance_before = 500;
  balance_after = 530;
  amount = pos 30;
  kind = deposit;
  reason = codes "Bank deposit";
  reference_type = payment_request;
  reference_id = some 40;
  idempotency_key = codes "bank:7";
  actor_type = webhook;
  actor_id = none;
}

-- The shop once 30 has been paid in.
abbrev richer : Db
richer = after shop (change paid_in up false shop)

abbrev too_much : WalletChange
too_much = record paid_in { amount = int (pos 501); idempotency_key = codes "debit:1" }

paid_in_commits : change paid_in up false shop ≡ ok (made, richer)
unfolding change apply_change apply_after apply_new find_payer find_active move_balance credit
    update_user create find_by_idempotency_key find_first find_and_update any_row
paid_in_commits = refl

shop-Reconciled : Reconciled 1 500 shop
unfolding balance_of credits_of debits_of total
shop-Reconciled = refl

no_record : find_first (has_key (codes "bank:7")) shop.wallet_transactions ≡ none
unfolding find_first
no_record = refl

no_debit_record : find_first (has_key (codes "debit:1")) shop.wallet_transactions ≡ none
unfolding find_first
no_debit_record = refl

balance_500 : balance_of 1 shop ≡ 500
unfolding balance_of total
balance_500 = refl

change_keeps_books_example : Reconciled 1 500 richer
change_keeps_books_example =
    change_keeps_books 1 500 paid_in up false shop made richer shop-Reconciled paid_in_commits

change_replay_example : change paid_in up false richer ≡ ok (made, richer)
change_replay_example = change_replay paid_in up false shop made richer paid_in_commits

-- The same payment in other words, for a customer who may be inactive.
abbrev paid_again : WalletChange
paid_again = record paid_in { reason = codes "Paid twice" }

paid_again_commits : change paid_again up true richer ≡ ok (made, richer)
unfolding change apply_change apply_after find_by_idempotency_key conflicts find_first text_eq
    starts_with apply_new find_payer find_active move_balance credit update_user find_and_update
    create any_row
paid_again_commits = refl

key_names_one_change_example :
    (made ≡ made)
    × (richer ≡ richer)
    × (paid_again.user_id ≡ paid_in.user_id)
    × (up ≡ up)
    × (positive_safe paid_again.amount ≡ positive_safe paid_in.amount)
    × ((starts_with (codes "admin-wallet:") paid_in.idempotency_key ≡ false)
        ⊎ SameChange paid_again paid_in)
key_names_one_change_example =
    key_names_one_change paid_in paid_again up up false true shop made made richer richer refl
      paid_in_commits paid_again_commits

change_moves_example : balance_of 1 richer + 0 ≡ balance_of 1 shop + share 1 1 30
change_moves_example =
    change_moves paid_in up false shop 30 refl no_record 1 made richer paid_in_commits

change_overdraft_example : (e : Error) × (change too_much down false shop ≡ err e)
change_overdraft_example =
    change_overdraft too_much down false shop 501 refl no_debit_record refl
      (omega (arith, balance_500))

abbrev checkout : CouponPricingInput
checkout = record {
  user_id = 1;
  product_id = 10;
  subtotal = 200;
  coupon_code = some (codes " sale15 ");
}

abbrev discounted : CouponPricing
discounted = record {
  subtotal = 200;
  discount_amount = 30;
  total_amount = 170;
  coupon_code = some (codes "SALE15");
  coupon_id = some 30;
}

abbrev redeemed : Db
redeemed = after shop (redeem checkout 2 (codes "cart") (some 170) shop)

checkout_priced : price checkout shop ≡ ok (discounted, shop)
unfolding price price_code price_with find_coupon find_first count_if discount_of raw_discount
    normalize_coupon_code any_row to_upper trim text_eq
checkout_priced = refl

checkout-redeemed : redeem checkout 2 (codes "cart") (some 170) shop ≡ ok (discounted, redeemed)
unfolding redeem record_redemption count_usage create_redemption price price_code price_with
    find_coupon find_first count_if discount_of raw_discount normalize_coupon_code any_row
    find_and_update to_upper trim text_eq
checkout-redeemed = refl

shop-IsCounted : IsCounted 30 0 shop
unfolding total count_if
shop-IsCounted = refl

price-Priced_example : AddsUp 200 discounted × (shop ≡ shop) × Priced checkout shop discounted
price-Priced_example = price-Priced checkout shop discounted shop checkout_priced

redeem-IsCounted_example : IsCounted 30 0 redeemed
redeem-IsCounted_example =
    redeem-IsCounted checkout 2 (codes "cart") (some 170) shop discounted redeemed 30 0
      shop-IsCounted checkout-redeemed

redeem_within_limits_example :
    ((discounted.coupon_id ≡ none)
      × (redeemed ≡ shop)
      × (differs (some 170) discounted.total_amount ≡ false))
    ⊎ ((c : Coupon) × (discounted.coupon_id ≡ some c.id)
        × Named checkout shop c
        × (count_if (redeemed_by c.id 1) redeemed.coupon_redemptions ≤ c.per_user_limit)
        × (used_up c.usage_limit c.usage_count ≡ false)
        × (differs (some 170) discounted.total_amount ≡ false)
        × (any_row (λ r. text_eq r.checkout_key (codes "cart")) shop.coupon_redemptions ≡ false))
redeem_within_limits_example =
    redeem_within_limits checkout 2 (codes "cart") (some 170) shop discounted redeemed
      checkout-redeemed
