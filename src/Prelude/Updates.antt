-- ===== src/Prelude/Updates.antt =====
-- The laws by which the components follow their tables: what an update does to a row, a count or a
-- total.
use Prim.Native.Nat.{ℕ, ◌+◌, ◌<◌}
use mathlib.Core.Path.{◌≡◌, refl, ap, subst}
use mathlib.Core.Logic.{inl, inr}
use mathlib.Core.List.{List, [], ◌∷◌, ◌++◌}
use mathlib.Core.Bool.{Bool, true, false}
use mathlib.Core.Option.{Option, none, some}
use native.Mathlib.Omega.{arith}
use cdk_gpt.Prelude.Tests.{if◌then◌else◌, Bool-cases}
use cdk_gpt.Prelude.Lists.{
  find_first, find_and_update, cons_row, update_all, count_if, any_row, total, length,
}

module _ {ℓ} {A : Type ℓ} where
  pub find_first_passes :
      (p : A → Bool) (xs : List A) (x : A) → find_first p xs ≡ some x → p x ≡ true
  unfolding find_first
  find_first_passes p [] x e = cc
  find_first_passes p (y ∷ xs) x e = ground (arith, find_first_passes p xs x)

  -- What holds of the updated row and the table, and nothing if no row passed.
  abbrev pub Updated {κ} : (A → List A → Type κ) → Option (A × List A) → Type κ
  Updated Q none = Unit
  Updated Q (some (y, ys)) = Q y ys

  pub updated_at {κ} :
      (Q : A → List A → Type κ) (r : Option (A × List A)) (y : A) (ys : List A)
      → Updated Q r
      → r ≡ some (y, ys)
      → Q y ys
  updated_at Q r y ys u e = subst (Updated Q) e u

  -- The row that comes back is the update of a row that passed the test.
  pub find_and_update_passes :
      (p : A → Bool) (f : A → A) (xs : List A)
      → Updated (λ y ys. (x : A) × (p x ≡ true) × (y ≡ f x)) (find_and_update p f xs)
  unfolding find_and_update
  find_and_update_passes p f [] = tt
  find_and_update_passes p f (z ∷ xs) = elim (Bool-cases (p z)) [
    | inl h ↦ rw h (z, h, refl)
    | inr h ↦ rw h (lift (find_and_update p f xs) (find_and_update_passes p f xs))
  ]
    where
      lift :
          (r : Option (A × List A))
          → Updated (λ y ys. (x : A) × (p x ≡ true) × (y ≡ f x)) r
          → Updated (λ y ys. (x : A) × (p x ≡ true) × (y ≡ f x)) (cons_row z r)
      lift none u = tt
      lift (some (y, ys)) u = u

  pub length-find_and_update :
      (p : A → Bool) (f : A → A) (xs : List A)
      → Updated (λ y ys. length ys ≡ length xs) (find_and_update p f xs)
  unfolding find_and_update
  length-find_and_update p f [] = tt
  length-find_and_update p f (z ∷ xs) = ground (arith, length-find_and_update p f xs)

  -- An update whose effect on a weight is the same for each row that passes changes the total by it.
  pub total-find_and_update :
      (w : A → ℕ) (p : A → Bool) (f : A → A) (minus plus : ℕ)
      → ((x : A) → p x ≡ true → w (f x) + minus ≡ w x + plus)
      → (xs : List A)
      → Updated (λ y ys. total w ys + minus ≡ total w xs + plus) (find_and_update p f xs)
  unfolding find_and_update total
  total-find_and_update w p f minus plus h [] = tt
  total-find_and_update w p f minus plus h (z ∷ xs) =
      ground (arith, h z, total-find_and_update w p f minus plus h xs)

  -- A row that passes `q` is still there after an update under which such rows pass.
  pub any_row-find_and_update :
      (q p : A → Bool) (f : A → A)
      → ((x : A) → q x ≡ true → p x ≡ true → q (f x) ≡ true)
      → (xs : List A) → any_row q xs ≡ true
      → Updated (λ y ys. any_row q ys ≡ true) (find_and_update p f xs)
  unfolding find_and_update any_row
  any_row-find_and_update q p f h [] a = tt
  any_row-find_and_update q p f h (z ∷ xs) a =
      ground (arith, h z, any_row-find_and_update q p f h xs)

  pub any_row-update_all :
      (q p : A → Bool) (f : A → A)
      → ((x : A) → q x ≡ true → p x ≡ true → q (f x) ≡ true)
      → (xs : List A) → any_row q xs ≡ true
      → any_row q (update_all p f xs) ≡ true
  unfolding update_all any_row
  any_row-update_all q p f h [] a = cc
  any_row-update_all q p f h (z ∷ xs) a = ground (arith, h z, any_row-update_all q p f h xs)

  -- The updated row is in the table.
  pub any_row-Updated :
      (q p : A → Bool) (f : A → A)
      → (xs : List A) → Updated (λ y ys. q y ≡ true → any_row q ys ≡ true) (find_and_update p f xs)
  unfolding find_and_update any_row
  any_row-Updated q p f [] = tt
  any_row-Updated q p f (z ∷ xs) = ground (arith, any_row-Updated q p f xs)

  pub total-append : (w : A → ℕ) (xs ys : List A) → total w (xs ++ ys) ≡ total w xs + total w ys
  unfolding total
  total-append w [] ys = omega arith
  total-append w (x ∷ xs) ys = omega (arith, total-append w xs ys)

  pub count_if-append :
      (p : A → Bool) (xs ys : List A) → count_if p (xs ++ ys) ≡ count_if p xs + count_if p ys
  unfolding count_if
  count_if-append p [] ys = omega arith
  count_if-append p (x ∷ xs) ys = ground (arith, count_if-append p xs ys)

  pub find_first-append_new :
      (p : A → Bool) (xs : List A) (y : A)
      → find_first p xs ≡ none
      → p y ≡ true
      → find_first p (xs ++ y ∷ []) ≡ some y
  unfolding find_first
  find_first-append_new p [] y e h = ground arith
  find_first-append_new p (x ∷ xs) y e h = ground (arith, find_first-append_new p xs y)

  -- The rows whose updates are refused are those that fail the test.
  pub find_and_update-none :
      (p : A → Bool) (f : A → A) (xs : List A)
      → any_row p xs ≡ false
      → find_and_update p f xs ≡ none
  unfolding find_and_update any_row
  find_and_update-none p f [] e = refl
  find_and_update-none p f (x ∷ xs) e = ground (arith, find_and_update-none p f xs)

  -- A row that is found is there: the row itself passes any test that it passes.
  pub find_first-any_row :
      (p q : A → Bool) (xs : List A) (x : A)
      → find_first p xs ≡ some x
      → q x ≡ true
      → any_row q xs ≡ true
  unfolding find_first any_row
  find_first-any_row p q [] x e h = cc
  find_first-any_row p q (y ∷ xs) x e h = ground (arith, find_first-any_row p q xs x)

  pub find_first-none : (p : A → Bool) (xs : List A) → find_first p xs ≡ none → any_row p xs ≡ false
  unfolding find_first any_row
  find_first-none p [] e = refl
  find_first-none p (x ∷ xs) e = ground (arith, find_first-none p xs)

  pub count_if-eq-total :
      (p : A → Bool) (xs : List A) → count_if p xs ≡ total (λ x. if p x then 1 else 0) xs
  unfolding count_if total
  count_if-eq-total p [] = refl
  count_if-eq-total p (x ∷ xs) = omega (arith, count_if-eq-total p xs)

  pub any_row-count : (p : A → Bool) (xs : List A) → any_row p xs ≡ true → 0 < count_if p xs
  unfolding any_row count_if
  any_row-count p [] h = cc
  any_row-count p (x ∷ xs) h = ground (arith, any_row-count p xs)

  pub find_and_update-some :
      (p : A → Bool) (f : A → A) (xs : List A)
      → 0 < count_if p xs
      → (r : A × List A) × (find_and_update p f xs ≡ some r)
  unfolding find_and_update count_if
  find_and_update-some p f [] h = absurd (omega arith)
  find_and_update-some p f (x ∷ xs) h = elim (Bool-cases (p x)) [
    | inl hit ↦ ((f x, f x ∷ xs), rw hit)
    | inr miss ↦
        let ((y, ys), e) = find_and_update-some p f xs (ground arith) in
        ((y, x ∷ ys), rw miss (ap (cons_row x) e))
  ]

  pub find_and_update-zero :
      (p : A → Bool) (f : A → A) (xs : List A) → count_if p xs ≡ 0 → find_and_update p f xs ≡ none
  unfolding find_and_update count_if
  find_and_update-zero p f [] h = refl
  find_and_update-zero p f (x ∷ xs) h = ground (arith, find_and_update-zero p f xs)
