-- ===== src/Wallet/Keys.antt =====
-- An idempotency key of the wallet names one change.
use cdk_gpt.Prelude.{
  ℕ, zero, suc, ◌≡◌, Bool, true, false, some, arith, Option, refl, Text, eq_option, eq_int→eq, ◌⊎◌,
  inl, inr, Bool-cases, Option-cases, positive_safe, ℤ, ◌<◌, starts_with, codes, eq_option,
  text_eq→eq, Number,
}
use cdk_gpt.Store.{Db, WalletTransaction, WalletTransactionType, WalletReferenceType, ok, or_throw}
use cdk_gpt.Wallet.{
  WalletChange, Direction, up, down, signed, apply_change, change, conflicts, same_type,
  same_reference_type,
}
use cdk_gpt.Wallet.Replay.{apply_change-named, apply_change-known}

same_type→eq : (a b : WalletTransactionType) → same_type a b ≡ true → a ≡ b
same_type→eq a b h = ground arith

same_reference_type→eq : (a b : WalletReferenceType) → same_reference_type a b ≡ true → a ≡ b
same_reference_type→eq a b h = ground arith

eq_option→eq : (a b : Option ℕ) → eq_option a b ≡ true → a ≡ b
eq_option→eq a b h = ground arith

signed_injective :
    (d e : Direction) (m n : ℕ) → 0 < m → 0 < n → signed d m ≡ signed e n → (d ≡ e) × (m ≡ n)
signed_injective up up m n h k same = (refl, cc)
signed_injective up down m zero h k same = absurd (omega arith)
signed_injective up down m (suc n) h k same = cc
signed_injective down up zero n h k same = absurd (omega arith)
signed_injective down up (suc m) n h k same = cc
signed_injective down down zero n h k same = absurd (omega arith)
signed_injective down down (suc m) zero h k same = absurd (omega arith)
signed_injective down down (suc m) (suc n) h k same = (refl, cc)

positive_safe-positive : (a : Number) (n : ℕ) → positive_safe a ≡ some n → 0 < n
positive_safe-positive a n e = ground arith

-- What a change under the key of `input` has in common with it.
abbrev pub SameChange : WalletChange → WalletChange → Type 0
SameChange again input =
    (again.kind ≡ input.kind)
    × (again.reason ≡ input.reason)
    × (again.reference_type ≡ input.reference_type)
    × (again.reference_id ≡ input.reference_id)

-- The kind, reason and reference of the transaction are those of the change.
abbrev Details : WalletChange → WalletTransaction → Type 0
Details input x =
    (x.kind ≡ input.kind)
    × (x.reason ≡ input.reason)
    × (x.reference_type ≡ input.reference_type)
    × (x.reference_id ≡ input.reference_id)

abbrev LenientKey : Text → Type 0
LenientKey key = starts_with (codes "admin-wallet:") key ≡ false

same-Details :
    (input again : WalletChange) (x : WalletTransaction)
    → again.idempotency_key ≡ input.idempotency_key
    → LenientKey input.idempotency_key ⊎ Details input x
    → LenientKey again.idempotency_key ⊎ Details again x
    → LenientKey input.idempotency_key ⊎ SameChange again input
same-Details input again x key (inl lenient) rest = inl lenient
same-Details input again x key (inr details) (inl lenient) = inl (rw (← key) lenient)
same-Details input again x key (inr (a, b, c, d)) (inr (a', b', c', d')) = inr (cc, cc, cc, cc)

agrees-SameChange :
    (input : WalletChange) (amount : ℤ) (x : WalletTransaction)
    → conflicts input amount x ≡ false
    → (x.user_id ≡ input.user_id)
      × (x.amount ≡ amount)
      × ((starts_with (codes "admin-wallet:") input.idempotency_key ≡ false) ⊎ Details input x)
unfolding conflicts
agrees-SameChange input amount x h = (
  ground (arith, h),
  eq_int→eq x.amount amount (ground (arith, h)),
  (elim (Bool-cases (starts_with (codes "admin-wallet:") input.idempotency_key)) [
    | inl strict ↦
        let all = rw strict at h in
        inr (
          same_type→eq x.kind input.kind (ground (arith, all)),
          text_eq→eq x.reason input.reason (ground (arith, all)),
          same_reference_type→eq x.reference_type input.reference_type (ground (arith, all)),
          eq_option→eq x.reference_id input.reference_id (ground (arith, all)),
        )
    | inr lenient ↦ inl lenient
  ]),
)

same_named_change :
    (input again : WalletChange) (m n : ℕ) (d e : Direction) (i j : Bool) (s : Db)
    (x y : WalletTransaction) (t u : Db)
    → 0 < m
    → 0 < n
    → again.idempotency_key ≡ input.idempotency_key
    → apply_change input m d i s ≡ ok (x, t)
    → apply_change again n e j t ≡ ok (y, u)
    → (y ≡ x)
      × (u ≡ t)
      × (again.user_id ≡ input.user_id)
      × (e ≡ d)
      × (n ≡ m)
      × ((starts_with (codes "admin-wallet:") input.idempotency_key ≡ false)
          ⊎ SameChange again input)
same_named_change input again m n d e i j s x y t u positive positive_again key h k =
    let (found, agrees) = apply_change-named input m d i s x t h in
    let (same, kept) = apply_change-known again n e j t x y u (rw key found) k in
    let (user, amount, rest) = agrees-SameChange input (signed d m) x agrees in
    let (found_again, agrees_again) = apply_change-named again n e j t y u k in
    let (user', amount', rest') =
      agrees-SameChange again (signed e n) x (rw same at agrees_again) in
    let (direction, count) = signed_injective e d n m positive_again positive cc in
    (same, kept, cc, direction, count, same-Details input again x key rest rest')

-- A key names one change. If two changes under it commit, the second in the database that the first has left,
-- then the second is answered with the transaction of the first, nothing is written, and the two are of the
-- same customer, direction and amount; under a key of an administrator also of the same kind, reason and
-- reference. A change that differs in one of these is refused.
pub key_names_one_change :
    (input again : WalletChange) (d e : Direction) (inactive inactive_again : Bool) (s : Db)
    (x y : WalletTransaction) (t u : Db)
    → again.idempotency_key ≡ input.idempotency_key
    → change input d inactive s ≡ ok (x, t)
    → change again e inactive_again t ≡ ok (y, u)
    → (y ≡ x)
      × (u ≡ t)
      × (again.user_id ≡ input.user_id)
      × (e ≡ d)
      × (positive_safe again.amount ≡ positive_safe input.amount)
      × ((starts_with (codes "admin-wallet:") input.idempotency_key ≡ false)
          ⊎ SameChange again input)
unfolding change
key_names_one_change input again d e i j s x y t u key h k =
    elim (Option-cases (positive_safe input.amount)) [
      | inl refused ↦ cc (rw refused at h)
      | inr (m, first) ↦ elim (Option-cases (positive_safe again.amount)) [
        | inl refused ↦ cc (rw refused at k)
        | inr (n, second) ↦
            let (same, kept, user, direction, count, rest) =
              same_named_change input again m n d e i j s x y t u
                (positive_safe-positive input.amount m first)
                (positive_safe-positive again.amount n second) key (rw (first, or_throw) at h)
                (rw (second, or_throw) at k) in
            (same, kept, user, direction, rw (first, second, count) refl, rest)
      ]
    ]
