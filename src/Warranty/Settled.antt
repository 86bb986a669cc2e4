-- ===== src/Warranty/Settled.antt =====
-- What a run of requests does to the reports (apps/api/src/warranty/warranty.service.ts).
use cdk_gpt.Prelude.{
  ℕ, ◌≤◌, ◌≡◌, refl, Bool, true, false, Option, none, some, List, [], ◌∷◌, ◌++◌, arith, ◌==◌, ◌⊎◌,
  inl, inr, Bool-cases, find_first, find_and_update, cons_row, any_row, count_if, count_if-append,
  Updated, ==_iff,
}
use cdk_gpt.Warranty.{Desk, WarrantyRequest, WarrantyStatus, allowed, is_active_status}
use cdk_gpt.Warranty.Reports.{open_for}
use cdk_gpt.Warranty.Replies.{reports_after}

-- No order has two open reports.
abbrev pub OneOpen : Desk → Type 0
OneOpen s = (order_id : ℕ) → count_if (open_for order_id) s.reports ≤ 1

-- The report stays for its order, and is as it was or has made a move of `assertStatusTransition`.
abbrev pub Kept : WarrantyRequest → WarrantyRequest → Type 0
Kept r r' = (r'.order_id ≡ r.order_id) × ((r' ≡ r) ⊎ (allowed r.status r'.status ≡ true))

abbrev pub report_of : ℕ → Desk → Option WarrantyRequest
report_of id s = find_first (λ (x : WarrantyRequest). x.id == id) s.reports

allowed_trans :
    (a b c : WarrantyStatus) → allowed a b ≡ true → allowed b c ≡ true → allowed a c ≡ true
unfolding allowed
allowed_trans a b c h k = ground arith

Kept-trans : (r r' r'' : WarrantyRequest) → Kept r r' → Kept r' r'' → Kept r r''
Kept-trans r r' r'' (o, inl e) (p, inl f) = (cc, inl cc)
Kept-trans r r' r'' (o, inl e) (p, inr f) = (cc, inr (rw (← e) f))
Kept-trans r r' r'' (o, inr e) (p, inl f) = (cc, inr (rw f e))
Kept-trans r r' r'' (o, inr e) (p, inr f) =
    (cc, inr (allowed_trans r.status r'.status r''.status e f))

-- A move of `assertStatusTransition` does not open a report.
active_before :
    (a b : WarrantyStatus)
    → allowed a b ≡ true
    → is_active_status b ≡ true
    → is_active_status a ≡ true
unfolding allowed
active_before a b h k = ground arith

pub some_injective : {x y : WarrantyRequest} → some x ≡ some y → x ≡ y
some_injective e = cc

-- The row that is to be updated keeps its ids, and its status moves.
abbrev pub Moves :
    (WarrantyRequest → Bool) → (WarrantyRequest → WarrantyRequest) → List WarrantyRequest → Type 0
Moves p f xs =
    (x : WarrantyRequest)
    → find_first p xs ≡ some x
    → ((f x).id ≡ x.id) × ((f x).order_id ≡ x.order_id) × (allowed x.status (f x).status ≡ true)

abbrev Reads : ℕ → WarrantyRequest → List WarrantyRequest → Type 0
Reads id r ys =
    (r' : WarrantyRequest) × (find_first (λ (x : WarrantyRequest). x.id == id) ys ≡ some r')
    × Kept r r'

module _ (p : WarrantyRequest → Bool) (f : WarrantyRequest → WarrantyRequest) where
  Moves-behind :
      (x : WarrantyRequest) (xs : List WarrantyRequest)
      → p x ≡ false
      → Moves p f (x ∷ xs)
      → Moves p f xs
  unfolding find_first
  Moves-behind x xs miss m y e = m y (rw miss e)

  open_after :
      (order_id : ℕ) (x : WarrantyRequest)
      → (f x).order_id ≡ x.order_id
      → allowed x.status (f x).status ≡ true
      → open_for order_id (f x) ≡ true
      → open_for order_id x ≡ true
  open_after order_id x o m h = ground (arith, o, active_before x.status (f x).status m)

  open-Updated :
      (order_id : ℕ) (xs : List WarrantyRequest)
      → Moves p f xs
      → Updated
          (λ y ys. count_if (open_for order_id) ys ≤ count_if (open_for order_id) xs)
          (find_and_update p f xs)
  unfolding find_and_update count_if find_first
  open-Updated order_id [] m = tt
  open-Updated order_id (x ∷ xs) m = elim (Bool-cases (p x)) [
    | inl hit ↦
        let (i, o, a) = m x (rw hit refl) in rw hit (ground (arith, open_after order_id x o a))
    | inr miss ↦
        rw miss
          (behind (find_and_update p f xs) (open-Updated order_id xs (Moves-behind x xs miss m)))
  ]
    where
      behind :
          (u : Option (WarrantyRequest × List WarrantyRequest))
          → Updated (λ y ys. count_if (open_for order_id) ys ≤ count_if (open_for order_id) xs) u
          → Updated
              (λ y ys. count_if (open_for order_id) ys ≤ count_if (open_for order_id) (x ∷ xs))
              (cons_row x u)
      behind none h = tt
      behind (some (y, ys)) h = ground (arith, h)

  read-Updated :
      (id : ℕ) (r : WarrantyRequest) (xs : List WarrantyRequest)
      → Moves p f xs
      → find_first (λ (x : WarrantyRequest). x.id == id) xs ≡ some r
      → Updated (λ y ys. Reads id r ys) (find_and_update p f xs)
  unfolding find_and_update find_first
  read-Updated id r [] m e = tt
  read-Updated id r (x ∷ xs) m e = elim (Bool-cases (p x)) [
    | inl hit ↦
        let (i, o, a) = m x (rw hit refl) in rw hit (at_head i o a (Bool-cases (x.id == id)))
    | inr miss ↦ rw miss (
        behind (find_and_update p f xs) (Bool-cases (x.id == id))
          (read-Updated id r xs (Moves-behind x xs miss m)))
  ]
    where
      at_head :
          (f x).id ≡ x.id
          → (f x).order_id ≡ x.order_id
          → allowed x.status (f x).status ≡ true
          → ((x.id == id) ≡ true) ⊎ ((x.id == id) ≡ false)
          → Reads id r (f x ∷ xs)
      at_head i o a (inl same) =
          let hx : x ≡ r = some_injective (rw same at e) in
          (f x, rw (i, same) refl, (cc, inr (rw (← hx) a)))
      at_head i o a (inr apart) = (r, rw (i, apart) (rw apart at e), (refl, inl refl))

      behind :
          (u : Option (WarrantyRequest × List WarrantyRequest))
          → ((x.id == id) ≡ true) ⊎ ((x.id == id) ≡ false)
          → (find_first (λ (x : WarrantyRequest). x.id == id) xs ≡ some r
              → Updated (λ y ys. Reads id r ys) u)
          → Updated (λ y ys. Reads id r ys) (cons_row x u)
      behind none c h = tt
      behind (some (y, ys)) (inl same) h =
          (x, rw same refl, (cc, inl (some_injective (rw same at e))))
      behind (some (y, ys)) (inr apart) h =
          let (r', found, kept) = h (rw apart at e) in (r', rw apart found, kept)

-- What a step or a run may do to the reports.
pub record Later (s t : Desk) : Type 0 where
  pub open_once : OneOpen s → OneOpen t
  pub kept :
      (id : ℕ) (r : WarrantyRequest)
      → report_of id s ≡ some r
      → (r' : WarrantyRequest) × (report_of id t ≡ some r') × Kept r r'

pub Later-refl : (s : Desk) → Later s s
Later-refl s = record { open_once = λ h. h; kept = λ id r e. (r, e, (refl, inl refl)) }

pub Later-trans : {s t u : Desk} → Later s t → Later t u → Later s u
Later-trans h k = record {
  open_once = λ o. k.open_once (h.open_once o);
  kept = λ id r e.
      let (r', e', a) = h.kept id r e in
      let (r'', e'', b) = k.kept id r' e' in (r'', e'', Kept-trans r r' r'' a b);
}

-- Steps that leave the reports alone.
pub Later-same : (s t : Desk) → t.reports ≡ s.reports → Later s t
Later-same s t e = record {
  open_once = λ o order_id. rw e (o order_id);
  kept = λ id r f. (r, rw e f, (refl, inl refl));
}

find_first-append :
    (id : ℕ) (r : WarrantyRequest) (xs : List WarrantyRequest) (x : WarrantyRequest)
    → find_first (λ (y : WarrantyRequest). y.id == id) xs ≡ some x
    → find_first (λ (y : WarrantyRequest). y.id == id) (xs ++ r ∷ []) ≡ some x
unfolding find_first
find_first-append id r [] x e = cc
find_first-append id r (y ∷ xs) x e = ground (arith, find_first-append id r xs x)

none_open :
    (p : WarrantyRequest → Bool) (xs : List WarrantyRequest)
    → any_row p xs ≡ false
    → count_if p xs ≡ 0
unfolding any_row count_if
none_open p [] h = refl
none_open p (x ∷ xs) h = ground (arith, none_open p xs)

open-append :
    (order_id : ℕ) (r : WarrantyRequest) (xs : List WarrantyRequest)
    → any_row (open_for r.order_id) xs ≡ false
    → count_if (open_for order_id) xs ≤ 1
    → count_if (open_for order_id) (xs ++ r ∷ []) ≤ 1
unfolding count_if
open-append order_id r xs free h =
    rw (count_if-append (open_for order_id) xs (r ∷ []))
      (elim (Bool-cases (r.order_id == order_id)) [
        | inl same ↦
            let here : r.order_id ≡ order_id = (==_iff r.order_id order_id).0 same in
            rw (none_open (open_for order_id) xs (rw (← here) free)) (ground arith)
        | inr apart ↦ ground arith
      ])

-- The report is inserted behind the others.
pub Later-append :
    (r : WarrantyRequest) (s : Desk)
    → any_row (open_for r.order_id) s.reports ≡ false
    → Later s (record s { reports = s.reports ++ r ∷ [] })
Later-append r s free = record {
  open_once = λ o order_id. open-append order_id r s.reports free (o order_id);
  kept = λ id x e. (x, find_first-append id r s.reports x e, (refl, inl refl));
}

pub Later-update :
    (p : WarrantyRequest → Bool) (f : WarrantyRequest → WarrantyRequest) (s : Desk)
    → Moves p f s.reports
    → Later s (reports_after s (find_and_update p f s.reports))
Later-update p f s m =
    after (find_and_update p f s.reports) (λ order_id. open-Updated p f order_id s.reports m)
      (λ id r e. read-Updated p f id r s.reports m e)
  where
    after :
        (u : Option (WarrantyRequest × List WarrantyRequest))
        → ((order_id : ℕ)
            → Updated
                (λ y ys. count_if (open_for order_id) ys ≤ count_if (open_for order_id) s.reports)
                u)
        → ((id : ℕ) (r : WarrantyRequest)
            → report_of id s ≡ some r
            → Updated (λ y ys. Reads id r ys) u)
        → Later s (reports_after s u)
    after none h k = Later-refl s
    after (some (y, ys)) h k = record {
      open_once = λ o order_id. omega (arith, o order_id, h order_id);
      kept = k;
    }
