-- ===== src/Wallet/Replay.antt =====
-- Idempotency keys: a change that is asked for again is answered by its first transaction.
use cdk_gpt.Prelude.{
  ℕ, ◌≡◌, Bool, true, false, some, none, arith, Option, refl, Text, text_eq_refl, eq_option, eq_int,
  eq_int_refl, inl, inr, Bool-cases, Option-cases, find_first, find_first-append_new,
  find_first-none, positive_safe, ℤ, pos, eq_option, not, ◌||◌,
}
use cdk_gpt.Store.{Db, WalletTransaction, WalletTransactionType, WalletReferenceType, ok, or_throw}
use cdk_gpt.Store.Rules.{Present, Triple, Triple-require, committed_at}
use cdk_gpt.Users.{
  find_active, find_existing, update_user, credit, credit_received_funds, debit_balance,
  debit_existing_balance,
}
use cdk_gpt.Wallet.{
  WalletChange, Direction, up, down, signed, create, find_payer, move_balance, apply_new,
  apply_after, apply_change, change, find_by_idempotency_key, conflicts, has_key, same_type,
  same_reference_type, is_safe,
}

same_type_refl : (k : WalletTransactionType) → same_type k k ≡ true
same_type_refl k = ground arith

same_reference_type_refl : (k : WalletReferenceType) → same_reference_type k k ≡ true
same_reference_type_refl k = ground arith

eq_option_refl : (o : Option ℕ) → eq_option o o ≡ true
eq_option_refl none = refl
eq_option_refl (some a) = ground arith

-- The transaction that a change records.
abbrev Records : WalletChange → ℤ → WalletTransaction → Type 0
Records input amount x =
    (x.user_id ≡ input.user_id)
    × (x.amount ≡ amount)
    × (x.kind ≡ input.kind)
    × (x.reason ≡ input.reason)
    × (x.reference_type ≡ input.reference_type)
    × (x.reference_id ≡ input.reference_id)
    × (x.idempotency_key ≡ input.idempotency_key)

own_record_agrees :
    (input : WalletChange) (amount : ℤ) (x : WalletTransaction)
    → Records input amount x
    → conflicts input amount x ≡ false
unfolding conflicts
own_record_agrees input amount x (e0, e1, e2, e3, e4, e5, e6) =
    rw (e0, e1, e2, e3, e4, e5)
      (ground (
        arith,
        eq_int_refl amount,
        same_type_refl input.kind,
        text_eq_refl input.reason,
        same_reference_type_refl input.reference_type,
        eq_option_refl input.reference_id,
      ))

-- No transaction has the key yet.
abbrev Fresh : Text → Db → Type 0
Fresh key s = find_first (has_key key) s.wallet_transactions ≡ none

-- The key is answered by `x`.
abbrev Answers : WalletChange → ℤ → WalletTransaction → Db → Type 0
Answers input amount x s =
    (find_first (has_key input.idempotency_key) s.wallet_transactions ≡ some x)
    × Records input amount x

find_payer-Fresh :
    (key : Text) (inactive : Bool) (id : ℕ)
    → Triple (Fresh key) (find_payer inactive id) (Present (λ x. Fresh key))
unfolding find_payer find_active find_existing
find_payer-Fresh key true id = record { run = λ s p. ground arith }
find_payer-Fresh key false id = record { run = λ s p. ground arith }

move_balance-Fresh :
    (key : Text) (d : Direction) (inactive : Bool) (id amount : ℕ)
    → Triple (Fresh key) (move_balance d inactive id amount) (Present (λ x. Fresh key))
unfolding move_balance credit credit_received_funds debit_balance debit_existing_balance update_user
move_balance-Fresh key up true id amount = record { run = λ s p. ground arith }
move_balance-Fresh key up false id amount = record { run = λ s p. ground arith }
move_balance-Fresh key down true id amount = record { run = λ s p. ground arith }
move_balance-Fresh key down false id amount = record { run = λ s p. ground arith }

create-Answers :
    (input : WalletChange) (amount : ℤ) (row : WalletTransaction)
    → Records input amount row
    → Triple (Fresh input.idempotency_key) (create row) (Answers input amount)
unfolding create
create-Answers input amount row r = record {
  run = λ s p.
      elim (Bool-cases (
        eq_int row.amount (pos 0)
        || not (is_safe row.balance_before)
        || not (is_safe row.balance_after))) [
          | inl no_amount ↦ rw no_amount tt
          | inr moves ↦
              rw (moves, r.6)
                (rw (find_first-none _ _ p) (
                  find_first-append_new _ _ _ p (text_eq_refl _),
                  (r.0, r.1, r.2, r.3, r.4, r.5, refl),
                ))
        ];
}

apply_new-Answers :
    (input : WalletChange) (amount : ℕ) (d : Direction) (inactive : Bool)
    → Triple
        (Fresh input.idempotency_key)
        (apply_new input amount d inactive)
        (Answers input (signed d amount))
unfolding apply_new
apply_new-Answers input amount d inactive =
    Triple-require _ (find_payer-Fresh _ inactive input.user_id) λ before.
      Triple-require _ (move_balance-Fresh _ d inactive input.user_id amount)
        λ after. create-Answers input (signed d amount) _ (refl, refl, refl, refl, refl, refl, refl)

-- A change that commits is the one that its key names.
pub apply_change-named :
    (input : WalletChange) (amount : ℕ) (d : Direction) (inactive : Bool) (s : Db)
    (x : WalletTransaction) (t : Db)
    → apply_change input amount d inactive s ≡ ok (x, t)
    → (find_first (has_key input.idempotency_key) t.wallet_transactions ≡ some x)
      × (conflicts input (signed d amount) x ≡ false)
unfolding apply_change apply_after find_by_idempotency_key
apply_change-named input amount d inactive s x t e =
    elim (Option-cases (find_first (has_key input.idempotency_key) s.wallet_transactions)) [
      | inl fresh ↦
          let (found, records) =
            committed_at (apply_new-Answers input amount d inactive) s fresh x t
              (rw (fresh, apply_after) at e) in
          (found, own_record_agrees input (signed d amount) x records)
      | inr (y, known) ↦ ground arith
    ]

-- Under a key that is known a change that commits looks only.
pub apply_change-known :
    (input : WalletChange) (amount : ℕ) (d : Direction) (inactive : Bool) (s : Db)
    (x y : WalletTransaction) (t : Db)
    → find_first (has_key input.idempotency_key) s.wallet_transactions ≡ some x
    → apply_change input amount d inactive s ≡ ok (y, t)
    → (y ≡ x) × (t ≡ s)
unfolding apply_change apply_after find_by_idempotency_key
apply_change-known input amount d inactive s x y t known e = ground arith

apply_change_replay :
    (input : WalletChange) (amount : ℕ) (d : Direction) (inactive : Bool) (s : Db)
    (x : WalletTransaction) (t : Db)
    → apply_change input amount d inactive s ≡ ok (x, t)
    → apply_change input amount d inactive t ≡ ok (x, t)
unfolding apply_change apply_after find_by_idempotency_key
apply_change_replay input amount d inactive s x t e =
    let (found, agrees) = apply_change-named input amount d inactive s x t e in
    rw (found, apply_after, agrees) refl

-- A change that has been made is not made again: asked for once more, in the database that it left,
-- it answers with the transaction of the first time and changes nothing.
pub change_replay :
    (input : WalletChange) (d : Direction) (inactive : Bool) (s : Db) (x : WalletTransaction)
    (t : Db)
    → change input d inactive s ≡ ok (x, t)
    → change input d inactive t ≡ ok (x, t)
unfolding change
change_replay input d inactive s x t e = elim (Option-cases (positive_safe input.amount)) [
  | inl refused ↦ ground arith
  | inr (amount, accepted) ↦
      rw (accepted, or_throw)
        (apply_change_replay input amount d inactive s x t (rw (accepted, or_throw) at e))
]
