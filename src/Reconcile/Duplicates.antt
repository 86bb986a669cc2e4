-- ===== src/Reconcile/Duplicates.antt =====
-- Merging the lines of a history loses none and leaves each transaction once in each direction.
use cdk_gpt.Prelude.{
  ℕ, ◌+◌, ◌≡◌, refl, Bool, false, Option, none, some, List, [], ◌∷◌, ◌++◌, map, arith, length,
  total, total-append, total-find_and_update, Updated, find_and_update, ◌∙◌, update_all, any_row,
}
use cdk_gpt.Payment.Bank.{BankTransaction}
use cdk_gpt.Reconcile.{
  WorkingTransaction, same_key, same_id, add_entry, merge_line, merge_lines, merged_or, repeated,
  conflicting, deduplicate_transactions,
}

-- The lines of the history that an entry stands for.
abbrev pub lines_of : WorkingTransaction → ℕ
lines_of w = w.duplicate_count + 1

total-conflicting :
    (p : WorkingTransaction → Bool) (ws : List WorkingTransaction)
    → total lines_of (update_all p conflicting ws) ≡ total lines_of ws
unfolding total update_all
total-conflicting p [] = refl
total-conflicting p (w ∷ ws) = ground (arith, total-conflicting p ws)

total-add_entry :
    (ws : List WorkingTransaction) (t : BankTransaction)
    → total lines_of (add_entry ws t) ≡ total lines_of ws + 1
unfolding add_entry total
total-add_entry ws t =
    rw (total-append lines_of (update_all (λ w. same_id w.transaction t) conflicting ws) _)
      (omega (arith, total-conflicting (λ w. same_id w.transaction t) ws))

merged_lines :
    (ws other : List WorkingTransaction) (r : Option (WorkingTransaction × List WorkingTransaction))
    → total lines_of other ≡ total lines_of ws + 1
    → Updated (λ y ys. total lines_of ys + 0 ≡ total lines_of ws + 1) r
    → total lines_of (merged_or other r) ≡ total lines_of ws + 1
merged_lines ws other none h u = h
merged_lines ws other (some (y, ys)) h u = omega arith

total-merge_line :
    (ws : List WorkingTransaction) (t : BankTransaction)
    → total lines_of (merge_line ws t) ≡ total lines_of ws + 1
unfolding merge_line
total-merge_line ws t =
    merged_lines ws (add_entry ws t)
      (find_and_update (λ w. same_key w.transaction t) (repeated t) ws) (total-add_entry ws t)
      (total-find_and_update lines_of (λ w. same_key w.transaction t) (repeated t) 0 1
        (λ w h. omega arith) ws)

pub total-merge_lines :
    (ws : List WorkingTransaction) (ts : List BankTransaction)
    → total lines_of (merge_lines ws ts) ≡ total lines_of ws + length ts
unfolding merge_lines
total-merge_lines ws [] = omega arith
total-merge_lines ws (t ∷ ts) =
    omega (arith, total-merge_lines (merge_line ws t) ts, total-merge_line ws t)

abbrev pub transactions_of : List WorkingTransaction → List BankTransaction
transactions_of ws = map (λ w. w.transaction) ws

-- No two lines have one key.
abbrev pub Distinct : List BankTransaction → Type 0
Distinct [] = Unit
Distinct (a ∷ xs) = (any_row (λ b. same_key a b) xs ≡ false) × Distinct xs

transactions-conflicting :
    (p : WorkingTransaction → Bool) (ws : List WorkingTransaction)
    → transactions_of (update_all p conflicting ws) ≡ transactions_of ws
unfolding update_all
transactions-conflicting p [] = refl
transactions-conflicting p (w ∷ ws) = ground (arith, transactions-conflicting p ws)

transactions-repeated :
    (t : BankTransaction) (p : WorkingTransaction → Bool) (ws : List WorkingTransaction)
    → Updated (λ y ys. transactions_of ys ≡ transactions_of ws) (find_and_update p (repeated t) ws)
unfolding find_and_update
transactions-repeated t p [] = tt
transactions-repeated t p (w ∷ ws) = ground (arith, transactions-repeated t p ws)

not_found :
    (p : WorkingTransaction → Bool) (f : WorkingTransaction → WorkingTransaction)
    (ws : List WorkingTransaction)
    → find_and_update p f ws ≡ none
    → any_row p ws ≡ false
unfolding find_and_update any_row
not_found p f [] e = refl
not_found p f (w ∷ ws) e = ground (arith, not_found p f ws)

Distinct-snoc :
    (xs : List BankTransaction) (t : BankTransaction)
    → Distinct xs
    → any_row (λ a. same_key a t) xs ≡ false
    → Distinct (xs ++ t ∷ [])
unfolding any_row
Distinct-snoc [] t d n = (refl, tt)
Distinct-snoc (a ∷ xs) t (apart, d) n =
    (apart_snoc xs apart (ground (arith, n)), Distinct-snoc xs t d (ground (arith, n)))
  where
    apart_snoc :
        (bs : List BankTransaction)
        → any_row (λ b. same_key a b) bs ≡ false
        → same_key a t ≡ false
        → any_row (λ b. same_key a b) (bs ++ t ∷ []) ≡ false
    apart_snoc [] h k = rw k
    apart_snoc (b ∷ bs) h k = ground (arith, h, k, apart_snoc bs)

any_row-transactions :
    (t : BankTransaction) (ws : List WorkingTransaction)
    → any_row (λ a. same_key a t) (transactions_of ws) ≡ any_row (λ w. same_key w.transaction t) ws
unfolding any_row
any_row-transactions t [] = refl
any_row-transactions t (w ∷ ws) = ground (arith, any_row-transactions t ws)

map_append :
    (ws vs : List WorkingTransaction)
    → transactions_of (ws ++ vs) ≡ transactions_of ws ++ transactions_of vs
map_append [] vs = refl
map_append (w ∷ ws) vs = ground (arith, map_append ws vs)

transactions-add_entry :
    (ws : List WorkingTransaction) (t : BankTransaction)
    → transactions_of (add_entry ws t) ≡ transactions_of ws ++ t ∷ []
unfolding add_entry
transactions-add_entry ws t = rw (
  map_append (update_all (λ w. same_id w.transaction t) conflicting ws) _,
  transactions-conflicting (λ w. same_id w.transaction t) ws,
)

merged-Distinct :
    (ws : List WorkingTransaction) (t : BankTransaction)
    (r : Option (WorkingTransaction × List WorkingTransaction))
    → Distinct (transactions_of ws)
    → (r ≡ none → any_row (λ w. same_key w.transaction t) ws ≡ false)
    → Updated (λ y ys. transactions_of ys ≡ transactions_of ws) r
    → Distinct (transactions_of (merged_or (add_entry ws t) r))
merged-Distinct ws t none d n u =
    rw (transactions-add_entry ws t)
      (Distinct-snoc (transactions_of ws) t d (any_row-transactions t ws ∙ n refl))
merged-Distinct ws t (some (y, ys)) d n u = rw u d

merge_line-Distinct :
    (ws : List WorkingTransaction) (t : BankTransaction)
    → Distinct (transactions_of ws)
    → Distinct (transactions_of (merge_line ws t))
unfolding merge_line
merge_line-Distinct ws t d =
    merged-Distinct ws t (find_and_update (λ w. same_key w.transaction t) (repeated t) ws) d
      (not_found (λ w. same_key w.transaction t) (repeated t) ws)
      (transactions-repeated t (λ w. same_key w.transaction t) ws)

pub merge_lines-Distinct :
    (ws : List WorkingTransaction) (ts : List BankTransaction)
    → Distinct (transactions_of ws)
    → Distinct (transactions_of (merge_lines ws ts))
unfolding merge_lines
merge_lines-Distinct ws [] d = d
merge_lines-Distinct ws (t ∷ ts) d =
    merge_lines-Distinct (merge_line ws t) ts (merge_line-Distinct ws t d)

-- Merging the lines of a history leaves no two entries with the same transaction in the same direction, and
-- each line is counted in exactly one entry: the entries with the repetitions that they count are as many
-- as the lines.
pub deduplicate_keeps_lines :
    (ts : List BankTransaction)
    → Distinct (transactions_of (deduplicate_transactions ts))
      × (total lines_of (deduplicate_transactions ts) ≡ length ts)
unfolding total
deduplicate_keeps_lines ts = (merge_lines-Distinct [] ts tt, total-merge_lines [] ts ∙ omega arith)
