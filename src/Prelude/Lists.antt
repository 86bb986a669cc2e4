-- ===== src/Prelude/Lists.antt =====
-- Lists as tables: the first row that passes a test, updates of one row or of all that pass, counts
-- and totals.
use Prim.Native.Nat.{ℕ, zero, suc, ◌+◌}
use mathlib.Core.Path.{◌≡◌}
use mathlib.Core.List.{List, [], ◌∷◌, ◌++◌}
use mathlib.Core.Bool.{Bool, true, false, ◌&&◌, ◌||◌}
use mathlib.Core.Option.{Option, none, some}
use native.Mathlib.Omega.{arith}
use cdk_gpt.Prelude.Tests.{if◌then◌else◌, ltb}

module _ {ℓ} {A : Type ℓ} where
  abbrev pub length : List A → ℕ
  length [] = 0
  length (x ∷ xs) = suc (length xs)

  abbrev pub take : ℕ → List A → List A
  take zero xs = []
  take (suc n) [] = []
  take (suc n) (x ∷ xs) = x ∷ take n xs

  abbrev pub drop : ℕ → List A → List A
  drop zero xs = xs
  drop (suc n) [] = []
  drop (suc n) (x ∷ xs) = drop n xs

  pub length-append : (xs ys : List A) → length (xs ++ ys) ≡ length xs + length ys
  length-append [] ys = omega arith
  length-append (x ∷ xs) ys = omega (arith, length-append xs ys)

  -- `findOne`
  unfoldable pub find_first : (A → Bool) → List A → Option A
  find_first p [] = none
  find_first p (x ∷ xs) = if p x then some x else find_first p xs

  -- `find`
  unfoldable pub find_all : (A → Bool) → List A → List A
  find_all p [] = []
  find_all p (x ∷ xs) = if p x then x ∷ find_all p xs else find_all p xs

  abbrev pub cons_row : A → Option (A × List A) → Option (A × List A)
  cons_row x none = none
  cons_row x (some (y, ys)) = some (y, x ∷ ys)

  -- `findOneAndUpdate` with `new: true`: the updated row and the table, or `none` if no row passes.
  unfoldable pub find_and_update : (A → Bool) → (A → A) → List A → Option (A × List A)
  find_and_update p f [] = none
  find_and_update p f (x ∷ xs) =
      if p x then some (f x, f x ∷ xs) else cons_row x (find_and_update p f xs)

  -- `updateMany`
  unfoldable pub update_all : (A → Bool) → (A → A) → List A → List A
  update_all p f [] = []
  update_all p f (x ∷ xs) = (if p x then f x else x) ∷ update_all p f xs

  -- `countDocuments`
  unfoldable pub count_if : (A → Bool) → List A → ℕ
  count_if p [] = 0
  count_if p (x ∷ xs) = (if p x then 1 else 0) + count_if p xs

  -- `exists`
  unfoldable pub any_row : (A → Bool) → List A → Bool
  any_row p [] = false
  any_row p (x ∷ xs) = p x || any_row p xs

  unfoldable pub every_row : (A → Bool) → List A → Bool
  every_row p [] = true
  every_row p (x ∷ xs) = p x && every_row p xs

  -- The sum of a weight over a table.
  unfoldable pub total : (A → ℕ) → List A → ℕ
  total w [] = 0
  total w (x ∷ xs) = w x + total w xs

module _ {ℓ} {A : Type ℓ} where
  unfoldable pub insert_by : (A → ℕ) → A → List A → List A
  insert_by w x [] = x ∷ []
  insert_by w x (y ∷ ys) = if ltb (w y) (w x) then y ∷ insert_by w x ys else x ∷ y ∷ ys

  -- `sort({ field: 1 })`
  unfoldable pub sort_by : (A → ℕ) → List A → List A
  unfolding insert_by
  sort_by w [] = []
  sort_by w (x ∷ xs) = insert_by w x (sort_by w xs)
