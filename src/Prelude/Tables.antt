-- ===== src/Prelude/Tables.antt =====
-- Two tables compared row by row: an update relates each row to what has become of it.
use Prim.Native.Nat.{ℕ, zero, suc}
use mathlib.Core.Path.{◌≡◌, refl, subst}
use mathlib.Core.Logic.{inl, inr}
use mathlib.Core.List.{List, [], ◌∷◌}
use mathlib.Core.Bool.{Bool, true}
use mathlib.Core.Option.{Option, none, some, some-injective}
use cdk_gpt.Prelude.Tests.{Bool-cases}
use cdk_gpt.Prelude.Lists.{find_and_update, update_all, cons_row}
use cdk_gpt.Prelude.Updates.{Updated}

module _ {ℓ} {A : Type ℓ} (R : A → A → Type 0) where
  abbrev pub Rows : List A → List A → Type 0
  Rows [] [] = Unit
  Rows [] (_ ∷ _) = ⊥
  Rows (_ ∷ _) [] = ⊥
  Rows (x ∷ xs) (y ∷ ys) = R x y × Rows xs ys

module _ {ℓ} {A : Type ℓ} (R : A → A → Type 0) (same : (x : A) → R x x) where
  pub Rows-refl : (xs : List A) → Rows R xs xs
  Rows-refl [] = tt
  Rows-refl (x ∷ xs) = (same x, Rows-refl xs)

  module _ (p : A → Bool) (f : A → A) (step : (x : A) → p x ≡ true → R x (f x)) where
    pub Rows-update_all : (xs : List A) → Rows R xs (update_all p f xs)
    unfolding update_all
    Rows-update_all [] = tt
    Rows-update_all (x ∷ xs) = elim (Bool-cases (p x)) [
      | inl h ↦ rw h (step x h, Rows-update_all xs)
      | inr h ↦ rw h (same x, Rows-update_all xs)
    ]

    Rows-cons_row :
        (x : A) (xs : List A) (r : Option (A × List A))
        → Updated (λ y ys. Rows R xs ys) r
        → Updated (λ y ys. Rows R (x ∷ xs) ys) (cons_row x r)
    Rows-cons_row x xs none u = tt
    Rows-cons_row x xs (some (y, ys)) u = (same x, u)

    pub Rows-find_and_update :
        (xs : List A) → Updated (λ y ys. Rows R xs ys) (find_and_update p f xs)
    unfolding find_and_update
    Rows-find_and_update [] = tt
    Rows-find_and_update (x ∷ xs) = elim (Bool-cases (p x)) [
      | inl h ↦ rw h (step x h, Rows-refl xs)
      | inr h ↦ rw h (Rows-cons_row x xs (find_and_update p f xs) (Rows-find_and_update xs))
    ]

module _ {ℓ} {A : Type ℓ} (R : A → A → Type 0) (trans : (x y z : A) → R x y → R y z → R x z) where
  pub Rows-trans : (xs ys zs : List A) → Rows R xs ys → Rows R ys zs → Rows R xs zs
  Rows-trans [] [] zs h k = k
  Rows-trans [] (y ∷ ys) zs h k = absurd h
  Rows-trans (x ∷ xs) [] zs h k = absurd h
  Rows-trans (x ∷ xs) (y ∷ ys) [] h k = absurd k
  Rows-trans (x ∷ xs) (y ∷ ys) (z ∷ zs) h k = (trans x y z h.0 k.0, Rows-trans xs ys zs h.1 k.1)

module _ {ℓ} {A : Type ℓ} (R S : A → A → Type 0) (weaken : (x y : A) → R x y → S x y) where
  pub Rows-map : (xs ys : List A) → Rows R xs ys → Rows S xs ys
  Rows-map [] [] h = tt
  Rows-map [] (y ∷ ys) h = h
  Rows-map (x ∷ xs) [] h = h
  Rows-map (x ∷ xs) (y ∷ ys) h = (weaken x y h.0, Rows-map xs ys h.1)

-- A predicate of each row.
abbrev pub All {ℓ} : {A : Type ℓ} → (A → Type 0) → List A → Type 0
All P [] = Unit
All P (x ∷ xs) = P x × All P xs

module _ {ℓ} {A : Type ℓ} (P : A → Type 0) where
  pub All-Rows : (xs ys : List A) → Rows (λ x y. P x → P y) xs ys → All P xs → All P ys
  All-Rows [] [] h a = a
  All-Rows [] (y ∷ ys) h a = absurd h
  All-Rows (x ∷ xs) [] h a = absurd h
  All-Rows (x ∷ xs) (y ∷ ys) h a = (h.0 a.0, All-Rows xs ys h.1 a.1)

-- The row at a position.
abbrev pub row_at {ℓ} : {A : Type ℓ} → ℕ → List A → Option A
row_at i [] = none
row_at zero (x ∷ xs) = some x
row_at (suc i) (x ∷ xs) = row_at i xs

module _ {ℓ} {A : Type ℓ} (R : A → A → Type 0) where
  -- What has become of the row at a position is at the same position.
  pub row_at-Rows :
      (i : ℕ) (xs ys : List A) (x : A)
      → Rows R xs ys
      → row_at i xs ≡ some x
      → (y : A) × (row_at i ys ≡ some y) × R x y
  row_at-Rows i [] [] x h e = cc
  row_at-Rows i [] (y ∷ ys) x h e = absurd h
  row_at-Rows i (z ∷ xs) [] x h e = absurd h
  row_at-Rows zero (z ∷ xs) (y ∷ ys) x h e =
      (y, refl, subst (λ (w : A). R w y) (some-injective z x e) h.0)
  row_at-Rows (suc i) (z ∷ xs) (y ∷ ys) x h e = row_at-Rows i xs ys x h.1 e
