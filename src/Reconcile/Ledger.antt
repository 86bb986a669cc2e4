-- ===== src/Reconcile/Ledger.antt =====
-- No entry of the ledger is counted for two transfers.
use cdk_gpt.Prelude.{
  ℕ, ◌+◌, ◌*◌, ◌≤◌, ◌≡◌, refl, Bool, true, false, ◌&&◌, Option, List, [], ◌∷◌, ◌++◌, map, arith,
  Text, codes, text_eq, text_eq_refl, text_eq→eq, trim, starts_with, any_row, find_all, count_if,
  total, inl, inr, ◌⊎◌, Bool-cases, ◌∙◌, sym,
}
use mathlib.Core.List.{append_cancel_left}
use native.Mathlib.Nat.{le_trans}
use cdk_gpt.Payment.Bank.{BankTransaction}
use cdk_gpt.Reconcile.{
  RequestDoc, WalletDoc, WorkingTransaction, incoming, outgoing, normalize_type, integer_amount,
  same_key, same_id, same_flow, or_empty, deduplicate_transactions,
}
use cdk_gpt.Reconcile.Rows.{
  legacy_bank_id, deposit_key, bank_reference, wallet_belongs_to_row, is_expected_key, row_requests,
  row_wallets, build_item, ReportItem, CustomerNames, incoming_item, outgoing_item,
}
use cdk_gpt.Reconcile.Duplicates.{Distinct, transactions_of, merge_lines-Distinct}
use cdk_gpt.Reconcile.Report.{
  reconcile, rows_of, summary_of, BankHistorySnapshot, find_wallet_transactions, is_incoming,
}

-- Why an entry of the ledger belongs to a row of an account that is not the legacy one: its key is that of
-- the transfer, or its key is of another kind and its metadata name the transfer.
abbrev Reason : Text → Text → WalletDoc → Type 0
Reason bank id w =
    (w.idempotency_key ≡ deposit_key (bank_reference bank id))
    ⊎ ((starts_with (codes "deposit:bank:") w.idempotency_key ≡ false)
        × (trim (or_empty w.metadata.transaction_id) ≡ id))

belongs-Reason :
    (bank id : Text) (ids : List ℕ) (w : WalletDoc)
    → text_eq bank legacy_bank_id ≡ false
    → wallet_belongs_to_row bank id ids w ≡ true
    → Reason bank id w
unfolding wallet_belongs_to_row is_expected_key
belongs-Reason bank id ids w other h =
    elim (Bool-cases (text_eq w.idempotency_key (deposit_key (bank_reference bank id)))) [
      | inl same ↦ inl (text_eq→eq w.idempotency_key (deposit_key (bank_reference bank id)) same)
      | inr foreign ↦ inr (
        ground (arith, other, foreign, h),
        text_eq→eq (trim (or_empty w.metadata.transaction_id)) id
            (ground (arith, other, foreign, h)),
      )
    ]

one_transfer :
    (bank id other_id : Text) (w : WalletDoc)
    → Reason bank id w
    → Reason bank other_id w
    → id ≡ other_id
unfolding starts_with
one_transfer bank id other_id w (inl h) (inl k) = append_cancel_left (codes ":") id other_id (
    append_cancel_left bank (codes ":" ++ id) (codes ":" ++ other_id) (
      append_cancel_left (codes "deposit:bank:bank:") (bank ++ (codes ":" ++ id))
        (bank ++ (codes ":" ++ other_id)) (sym h ∙ k)))
one_transfer bank id other_id w (inl h) (inr (k, n)) = let clash : true ≡ false = rw h at k in cc
one_transfer bank id other_id w (inr (h, m)) (inl k) = let clash : true ≡ false = rw k at h in cc
one_transfer bank id other_id w (inr (h, m)) (inr (k, n)) = sym m ∙ n

none_passes :
    (q : WorkingTransaction → Bool) (w : WorkingTransaction) (vs : List WorkingTransaction)
    → ((a b : WorkingTransaction)
        → q a ≡ true
        → q b ≡ true
        → same_key a.transaction b.transaction ≡ true)
    → q w ≡ true
    → any_row (λ b. same_key w.transaction b) (transactions_of vs) ≡ false
    → count_if q vs ≡ 0
unfolding count_if any_row
none_passes q w [] h hit k = refl
none_passes q w (v ∷ vs) h hit k = ground (arith, h w v, none_passes q w vs h hit)

-- Of rows with distinct keys, one at most passes a test that two rows pass only with one key.
count-le-one :
    (q : WorkingTransaction → Bool) (ws : List WorkingTransaction)
    → ((a b : WorkingTransaction)
        → q a ≡ true
        → q b ≡ true
        → same_key a.transaction b.transaction ≡ true)
    → Distinct (transactions_of ws)
    → count_if q ws ≤ 1
unfolding count_if any_row
count-le-one q [] h d = omega arith
count-le-one q (w ∷ ws) h (apart, d) = elim (Bool-cases (q w)) [
  | inl hit ↦ rw hit (omega (arith, none_passes q w ws h hit apart))
  | inr miss ↦ rw miss (omega (arith, count-le-one q ws h d))
]

module _ (p : WorkingTransaction → WalletDoc → Bool) (f : WalletDoc → ℕ) where
  total-rows_cons :
      (x : WalletDoc) (xs : List WalletDoc) (ws : List WorkingTransaction)
      → total (λ w. total f (find_all (p w) (x ∷ xs))) ws
        ≡ count_if (λ w. p w x) ws * f x + total (λ w. total f (find_all (p w) xs)) ws
  unfolding total count_if find_all
  total-rows_cons x xs [] = omega arith
  total-rows_cons x xs (w ∷ ws) = elim (Bool-cases (p w x)) [
    | inl hit ↦ rw hit (grind (arith, total-rows_cons x xs ws))
    | inr miss ↦ rw miss (grind (arith, total-rows_cons x xs ws))
  ]

  total-rows_nil : (ws : List WorkingTransaction) → total (λ w. 0) ws ≡ 0
  unfolding total
  total-rows_nil [] = refl
  total-rows_nil (w ∷ ws) = omega (arith, total-rows_nil ws)

  -- What is counted for each row once at most is counted once at most in all.
  total-rows-le :
      (xs : List WalletDoc) (ws : List WorkingTransaction)
      → ((x : WalletDoc) → count_if (λ w. p w x) ws ≤ 1)
      → total (λ w. total f (find_all (p w) xs)) ws ≤ total f xs
  unfolding total find_all
  total-rows-le [] ws h = omega (arith, total-rows_nil ws)
  total-rows-le (x ∷ xs) ws h =
      rw (total-rows_cons x xs ws) (grind (arith, h x, total-rows-le xs ws h))

-- What a row counts of the ledger.
abbrev in_row : Text → List RequestDoc → WorkingTransaction → WalletDoc → Bool
in_row bank requests w x =
    same_flow (normalize_type w.transaction.kind) incoming
    && wallet_belongs_to_row bank w.transaction.transaction_id
        (map (λ r. r.id) (row_requests bank requests w.transaction)) x

abbrev pub ledger_amount : WalletDoc → ℕ
ledger_amount w = integer_amount w.amount

find_all-never : (xs : List WalletDoc) → find_all (λ x. false) xs ≡ []
unfolding find_all
find_all-never [] = refl
find_all-never (x ∷ xs) = find_all-never xs

credited-build_item :
    (bank : Text) (requests : List RequestDoc) (wallets : List WalletDoc)
    (users : ℕ → Option CustomerNames) (w : WorkingTransaction)
    → (build_item bank requests wallets users w).credited_amount
      ≡ total ledger_amount (find_all (in_row bank requests w) wallets)
unfolding build_item total
credited-build_item bank requests wallets users w =
    elim (normalize_type w.transaction.kind)
      as (λ flow.
        (elim flow as (λ f. ReportItem) [
          | outgoing ↦ outgoing_item w
          | incoming ↦
              incoming_item bank users (row_requests bank requests w.transaction)
                (row_wallets bank requests wallets w.transaction) w
        ]).credited_amount
        ≡ total ledger_amount (
            find_all
              (λ x.
                same_flow flow incoming
                && wallet_belongs_to_row bank w.transaction.transaction_id
                    (map (λ r. r.id) (row_requests bank requests w.transaction)) x)
              wallets)) [ incoming ↦ refl | outgoing ↦ rw (find_all-never wallets) refl ]

same_row :
    (bank : Text) (requests : List RequestDoc) (x : WalletDoc)
    → text_eq bank legacy_bank_id ≡ false
    → (a b : WorkingTransaction) → in_row bank requests a x ≡ true
    → in_row bank requests b x ≡ true
    → same_key a.transaction b.transaction ≡ true
unfolding same_key same_id
same_row bank requests x other a b h k =
    let one : a.transaction.transaction_id ≡ b.transaction.transaction_id =
      one_transfer bank a.transaction.transaction_id b.transaction.transaction_id x
        (belongs-Reason bank a.transaction.transaction_id
          (map (λ r. r.id) (row_requests bank requests a.transaction)) x other (ground (arith, h)))
        (belongs-Reason bank b.transaction.transaction_id
          (map (λ r. r.id) (row_requests bank requests b.transaction)) x other
          (ground (arith, k))) in
    let same : text_eq (trim a.transaction.transaction_id) (trim b.transaction.transaction_id)
        ≡ true =
      rw one (text_eq_refl (trim b.transaction.transaction_id)) in
    ground (arith, h, k, same)

total-find_all-le :
    {A : Type 0} (f : A → ℕ) (p : A → Bool) (xs : List A) → total f (find_all p xs) ≤ total f xs
unfolding total find_all
total-find_all-le f p [] = omega arith
total-find_all-le f p (x ∷ xs) = ground (arith, total-find_all-le f p xs)

total-rows_of :
    (bank : Text) (users : ℕ → Option CustomerNames) (requests : List RequestDoc)
    (wallets : List WalletDoc) (ws : List WorkingTransaction)
    → total (λ (x : ReportItem). x.credited_amount) (rows_of bank users requests wallets ws)
      ≡ total (λ w. total ledger_amount (find_all (in_row bank requests w) wallets)) ws
unfolding rows_of total
total-rows_of bank users requests wallets [] = refl
total-rows_of bank users requests wallets (w ∷ ws) = omega (
  arith,
  credited-build_item bank requests wallets users w,
  total-rows_of bank users requests wallets ws,
)

rows-le-ledger :
    (bank : Text) (users : ℕ → Option CustomerNames) (requests : List RequestDoc)
    (wallets : List WalletDoc) (ts : List BankTransaction)
    → text_eq bank legacy_bank_id ≡ false
    → total
        (λ (x : ReportItem). x.credited_amount)
        (rows_of bank users requests wallets (deduplicate_transactions ts))
      ≤ total ledger_amount wallets
rows-le-ledger bank users requests wallets ts other =
    rw (total-rows_of bank users requests wallets (deduplicate_transactions ts)) (
      total-rows-le (in_row bank requests) ledger_amount wallets (deduplicate_transactions ts) λ x.
        count-le-one (λ w. in_row bank requests w x) (deduplicate_transactions ts)
          (same_row bank requests x other) (merge_lines-Distinct [] ts tt))

summary-le-ledger :
    (bank : Text) (users : ℕ → Option CustomerNames) (requests : List RequestDoc)
    (wallets : List WalletDoc) (ts : List BankTransaction)
    → text_eq bank legacy_bank_id ≡ false
    → (summary_of
        (rows_of bank users requests wallets (deduplicate_transactions ts))).credited_amount
      ≤ total ledger_amount wallets
unfolding summary_of
summary-le-ledger bank users requests wallets ts other =
    le_trans
      (total-find_all-le (λ (x : ReportItem). x.credited_amount) is_incoming
        (rows_of bank users requests wallets (deduplicate_transactions ts)))
      (rows-le-ledger bank users requests wallets ts other)

found-le-ledger :
    (keys : List Text) (ids : List ℕ) (wallets : List WalletDoc)
    → total ledger_amount (find_wallet_transactions keys ids wallets) ≤ total ledger_amount wallets
unfolding find_wallet_transactions
found-le-ledger keys ids wallets = total-find_all-le ledger_amount _ wallets

-- The report on an account other than the legacy one counts no entry of the ledger twice, whatever the
-- history repeats and whatever the requests refer to: the money that it shows as credited is at most the
-- money that the wallet transactions record.
pub reconcile_counts_once :
    (bank : Text) (users : ℕ → Option CustomerNames) (requests : List RequestDoc)
    (wallets : List WalletDoc) (snapshot : BankHistorySnapshot)
    → text_eq bank legacy_bank_id ≡ false
    → (reconcile bank users requests wallets snapshot).summary.credited_amount
      ≤ total ledger_amount wallets
unfolding reconcile
reconcile_counts_once bank users requests wallets snapshot other =
    le_trans (summary-le-ledger bank users _ _ snapshot.transactions other)
      (found-le-ledger _ _ wallets)
