-- ===== src/Inventory/History.antt =====
-- The stock through any history of operations of the repository.
use cdk_gpt.Prelude.{
  ℕ, ◌≡◌, refl, ap, ◌∙◌, List, [], ◌∷◌, All, All-Rows, Rows, Rows-refl, Rows-map, Rows-trans,
  row_at, row_at-Rows, some,
}
use cdk_gpt.Store.{Db, InventoryItem, sold, Result, ok, err}
use cdk_gpt.Store.Rules.{Committed}
use cdk_gpt.Inventory.{
  reserve_one, reserve_for_payment, release_expired_payment_reservations_for_product,
  assign_payment_reservation, mark_sold, extend_order_reservations, release_expired_payment,
  release_payment_reservations, extend_payment_reservations, release_expired,
}
use cdk_gpt.Inventory.Lifecycle.{
  ItemStep, stay, hold, rehold, free, sell, Evolves, IsConsistent, reserve_one-Evolves,
  reserve_for_payment-Evolves, release_expired_for_product-Evolves,
  assign_payment_reservation-Evolves, mark_sold-Evolves, extend_order_reservations-Evolves,
  release_expired_payment-Evolves, release_payment_reservations-Evolves,
  extend_payment_reservations-Evolves, release_expired-Evolves,
}

-- The calls of `InventoryRepository` that write the collection, with their arguments in the order of the
-- functions.
pub data Call : Type 0 where
  reserves reserves_for_payment assigns : ℕ → ℕ → ℕ → ℕ → Call
  releases_expired_for_product releases_payment : ℕ → Call
  sells : ℕ → ℕ → ℕ → Call
  extends_orders : List ℕ → ℕ → Call
  releases_expired_payment extends_payment releases_expired : ℕ → ℕ → Call

abbrev pub committed : {A : Type 0} → Db → Result (A × Db) → Db
committed s (ok (a, t)) = t
committed s (err e) = s

-- One call on the database.
unfoldable pub apply : Db → Call → Db
apply s (reserves a b c d) = committed s (reserve_one a b c d s)
apply s (reserves_for_payment a b c d) = committed s (reserve_for_payment a b c d s)
apply s (assigns a b c d) = committed s (assign_payment_reservation a b c d s)
apply s (releases_expired_for_product a) =
    committed s (release_expired_payment_reservations_for_product a s)
apply s (releases_payment a) = committed s (release_payment_reservations a s)
apply s (sells a b c) = committed s (mark_sold a b c s)
apply s (extends_orders a b) = committed s (extend_order_reservations a b s)
apply s (releases_expired_payment a b) = committed s (release_expired_payment a b s)
apply s (extends_payment a b) = committed s (extend_payment_reservations a b s)
apply s (releases_expired a b) = committed s (release_expired a b s)

-- Calls one after the other, each at its time.
unfoldable pub run : Db → List (ℕ × Call) → Db
run s [] = s
run s ((now, c) ∷ cs) = run (apply (record s { now = now }) c) cs

Evolves-committed :
    {A : Type 0} (s : Db) (r : Result (A × Db))
    → Committed (λ o t. Rows Evolves s.inventory_items t.inventory_items) r
    → Rows Evolves s.inventory_items (committed s r).inventory_items
Evolves-committed s (ok (a, t)) h = h
Evolves-committed s (err e) h = Rows-refl Evolves (λ x. (stay refl, λ c. c)) s.inventory_items

apply-Evolves : (s : Db) (c : Call) → Rows Evolves s.inventory_items (apply s c).inventory_items
unfolding apply
apply-Evolves s (reserves a b c d) = Evolves-committed s _ (reserve_one-Evolves s a b c d)
apply-Evolves s (reserves_for_payment a b c d) =
    Evolves-committed s _ (reserve_for_payment-Evolves s a b c d)
apply-Evolves s (assigns a b c d) =
    Evolves-committed s _ (assign_payment_reservation-Evolves s a b c d)
apply-Evolves s (releases_expired_for_product a) =
    Evolves-committed s _ (release_expired_for_product-Evolves s a)
apply-Evolves s (releases_payment a) =
    Evolves-committed s _ (release_payment_reservations-Evolves s a)
apply-Evolves s (sells a b c) = Evolves-committed s _ (mark_sold-Evolves s a b c)
apply-Evolves s (extends_orders a b) =
    Evolves-committed s _ (extend_order_reservations-Evolves s a b)
apply-Evolves s (releases_expired_payment a b) =
    Evolves-committed s _ (release_expired_payment-Evolves s a b)
apply-Evolves s (extends_payment a b) =
    Evolves-committed s _ (extend_payment_reservations-Evolves s a b)
apply-Evolves s (releases_expired a b) = Evolves-committed s _ (release_expired-Evolves s a b)

-- Every call of `InventoryRepository` that writes the collection moves each item at most one step in its
-- life: from stock to a hold, from a hold to another of the same customer or back to stock, or from a hold
-- to sold, to the order that held it. It makes and loses no item. The writes of other services, which
-- insert items or disable them, are no such calls.
pub apply-ItemStep :
    (s : Db) (c : Call) → Rows ItemStep s.inventory_items (apply s c).inventory_items
apply-ItemStep s c =
    Rows-map Evolves ItemStep (λ x y e. e.0) s.inventory_items (apply s c).inventory_items
      (apply-Evolves s c)

-- What was sold stays sold, to the same order.
abbrev KeepsSold : InventoryItem → InventoryItem → Type 0
KeepsSold x y = x.status ≡ sold → y ≡ x

Evolves-KeepsSold : (x y : InventoryItem) → Evolves x y → KeepsSold x y
Evolves-KeepsSold x y (stay e, c) h = e
Evolves-KeepsSold x y (hold from to same, c) h = cc
Evolves-KeepsSold x y (rehold from to owner same, c) h = cc
Evolves-KeepsSold x y (free from to same, c) h = cc
Evolves-KeepsSold x y (sell from to owner same, c) h = cc

KeepsSold-trans : (x y z : InventoryItem) → KeepsSold x y → KeepsSold y z → KeepsSold x z
KeepsSold-trans x y z h k e = let same = h e in k (ap (λ i. i.status) same ∙ e) ∙ same

run-KeepsSold :
    (s : Db) (cs : List (ℕ × Call)) → Rows KeepsSold s.inventory_items (run s cs).inventory_items
unfolding run
run-KeepsSold s [] = Rows-refl KeepsSold (λ x h. refl) s.inventory_items
run-KeepsSold s ((now, c) ∷ cs) =
    let t = apply (record s { now = now }) c in
    Rows-trans KeepsSold KeepsSold-trans s.inventory_items t.inventory_items _
      (Rows-map Evolves KeepsSold Evolves-KeepsSold s.inventory_items t.inventory_items
        (apply-Evolves (record s { now = now }) c))
      (run-KeepsSold t cs)

-- In any history of calls, at any times, an item that is sold never changes again: it is not put
-- back in stock, reserved or sold a second time.
pub run_keeps_sold :
    (s : Db) (cs : List (ℕ × Call)) (i : ℕ) (x : InventoryItem)
    → row_at i s.inventory_items ≡ some x
    → x.status ≡ sold
    → row_at i (run s cs).inventory_items ≡ some x
run_keeps_sold s cs i x there was_sold =
    let (y, found, keeps) =
      row_at-Rows KeepsSold i s.inventory_items (run s cs).inventory_items x (run-KeepsSold s cs)
        there in
    found ∙ ap some (keeps was_sold)

-- After any history every item is consistent, if every item was: no item is held for an order and
-- for a payment at once, none in stock is held by anyone, and a sold one went to its holder.
pub run-IsConsistent :
    (s : Db) (cs : List (ℕ × Call))
    → All IsConsistent s.inventory_items
    → All IsConsistent (run s cs).inventory_items
unfolding run
run-IsConsistent s [] h = h
run-IsConsistent s ((now, c) ∷ cs) h =
    let t = apply (record s { now = now }) c in
    run-IsConsistent t cs (
      All-Rows IsConsistent s.inventory_items t.inventory_items
        (Rows-map Evolves (λ x y. IsConsistent x → IsConsistent y) (λ x y e. e.1) s.inventory_items
          t.inventory_items (apply-Evolves (record s { now = now }) c))
        h)
