-- ===== src/Store/Rules.antt =====
-- Rules for statements about a transaction that commits: from `P` before, `Q` after.
use mathlib.Core.Path.{subst}
use cdk_gpt.Prelude.{Bool, true, false, ◌≡◌, refl, Option, none, some, if◌then◌else◌}
use cdk_gpt.Store.Model.{Db}
use cdk_gpt.Store.Monad.{
  Tx, Result, ok, err, Error, continue, ◌>>=◌, ◌>>◌, pure, throw, gets, or_throw, throw_if,
}

-- What holds of a transaction's outcome: nothing is claimed of one that throws.
abbrev pub Committed : {A : Type 0} → (A → Db → Type 0) → Result (A × Db) → Type 0
Committed Q (ok (a, t)) = Q a t
Committed Q (err e) = Unit

-- What holds of a document that is found, and nothing if none is.
abbrev pub Present : {A : Type 0} → (A → Db → Type 0) → Option A → Db → Type 0
Present Q none t = Unit
Present Q (some a) t = Q a t

pub record Triple {A : Type 0} (P : Db → Type 0) (m : Tx A) (Q : A → Db → Type 0) : Type 0 where
  pub run : (s : Db) → P s → Committed Q (m s)

-- From a run that commits to what holds of it.
pub committed_at :
    {A : Type 0} {P : Db → Type 0} {Q : A → Db → Type 0} {m : Tx A}
    → Triple P m Q
    → (s : Db) → P s
    → (x : A) (t : Db) → m s ≡ ok (x, t)
    → Q x t
committed_at {Q} h s p x t e = subst (Committed Q) e (h.run s p)

module _ {A : Type 0} {P : Db → Type 0} {Q : A → Db → Type 0} where
  pub Triple-pure : (a : A) → ((s : Db) → P s → Q a s) → Triple P (pure a) Q
  Triple-pure a h = record { run = h }

  pub Triple-throw : (e : Error) → Triple P (throw {A = A} e) Q
  Triple-throw e = record { run = λ s p. tt }

  pub Triple-gets : (f : Db → A) → ((s : Db) → P s → Q (f s) s) → Triple P (gets f) Q
  Triple-gets f h = record { run = h }

  pub Triple-if :
      (b : Bool) (m n : Tx A)
      → (b ≡ true → Triple P m Q)
      → (b ≡ false → Triple P n Q)
      → Triple P (if b then m else n) Q
  Triple-if true m n km kn = km refl
  Triple-if false m n km kn = kn refl

module _ {A B : Type 0} {R : A → Db → Type 0} {Q : B → Db → Type 0} where
  Committed-continue :
      (f : A → Tx B)
      → ((a : A) → Triple (R a) (f a) Q)
      → (r : Result (A × Db)) → Committed R r
      → Committed Q (continue f r)
  Committed-continue f k (ok (a, t)) c = (k a).run t c
  Committed-continue f k (err e) c = tt

  pub Triple-bind :
      {P : Db → Type 0} {m : Tx A} {f : A → Tx B}
      → Triple P m R
      → ((a : A) → Triple (R a) (f a) Q)
      → Triple P (m >>= f) Q
  Triple-bind {m} {f} h k = record { run = λ s p. Committed-continue f k (m s) (h.run s p) }

module _ {A B : Type 0} {R : A → Db → Type 0} {Q : B → Db → Type 0} where
  Triple-or_throw :
      (e : Error) (f : A → Tx B) (k : (a : A) → Triple (R a) (f a) Q)
      → (o : Option A) → Triple (Present R o) (or_throw e o >>= f) Q
  Triple-or_throw e f k none = record { run = λ s p. tt }
  Triple-or_throw e f k (some a) = record { run = λ s p. (k a).run s p }

  -- `x ← or_throw e (← m)`, with the rest of the block.
  pub Triple-require :
      {P : Db → Type 0} {m : Tx (Option A)} {f : A → Tx B} (e : Error)
      → Triple P m (Present R)
      → ((a : A) → Triple (R a) (f a) Q)
      → Triple P (m >>= λ o. or_throw e o >>= f) Q
  Triple-require {f} e h k = Triple-bind h (Triple-or_throw e f k)

module _ {B : Type 0} {P : Db → Type 0} {Q : B → Db → Type 0} where
  -- What comes behind a guard may use that the guard let it pass.
  pub Triple-guard :
      (b : Bool) (e : Error) (m : Tx B)
      → (b ≡ false → Triple P m Q)
      → Triple P (throw_if b e >> m) Q
  Triple-guard true e m k = record { run = λ s p. tt }
  Triple-guard false e m k = record { run = λ s p. (k refl).run s p }

  -- A pure value that may be missing.
  pub Triple-value :
      {A : Type 0} (o : Option A) (e : Error) (f : A → Tx B)
      → ((a : A) → o ≡ some a → Triple P (f a) Q)
      → Triple P (or_throw e o >>= f) Q
  Triple-value none e f k = record { run = λ s p. tt }
  Triple-value (some a) e f k = record { run = λ s p. (k a refl).run s p }

  pub Triple-weaken :
      {P' : Db → Type 0} {m : Tx B} → ((s : Db) → P' s → P s) → Triple P m Q → Triple P' m Q
  Triple-weaken w h = record { run = λ s p. h.run s (w s p) }

-- A guard of which the rest needs nothing.
pub Triple-check : {P : Db → Type 0} (b : Bool) (e : Error) → Triple P (throw_if b e) (λ x. P)
Triple-check true e = record { run = λ s p. tt }
Triple-check false e = record { run = λ s p. p }

-- A pure value that may be missing, of which the rest needs nothing.
pub Triple-found :
    {A : Type 0} {P : Db → Type 0} (e : Error) (o : Option A) → Triple P (or_throw e o) (λ a. P)
Triple-found e none = record { run = λ s p. tt }
Triple-found e (some a) = record { run = λ s p. p }

-- Nothing is assumed of the database.
abbrev pub Always : Db → Type 0
Always s = Unit

Committed-any : {A : Type 0} (r : Result (A × Db)) → Committed (λ a. Always) r
Committed-any (ok (a, t)) = tt
Committed-any (err e) = tt

Committed-any_found :
    {A : Type 0} (r : Result (Option A × Db)) → Committed (Present (λ a. Always)) r
Committed-any_found (ok (none, t)) = tt
Committed-any_found (ok (some a, t)) = tt
Committed-any_found (err e) = tt

module _ {A : Type 0} {P : Db → Type 0} where
  -- A step of which nothing is asked.
  pub Triple-any : (m : Tx A) → Triple P m (λ a. Always)
  Triple-any m = record { run = λ s p. Committed-any (m s) }

  pub Triple-any_found : (m : Tx (Option A)) → Triple P m (Present (λ a. Always))
  Triple-any_found m = record { run = λ s p. Committed-any_found (m s) }

-- What does not depend on the database is a hypothesis of all that follows.
pub Triple-known :
    {A F : Type 0} {m : Tx A} {Q : A → Db → Type 0} → (F → Triple Always m Q) → Triple (λ s. F) m Q
Triple-known k = record { run = λ s f. (k f).run s tt }

Committed-map :
    {A : Type 0} (F G : A → Type 0) (r : Result (A × Db))
    → ((a : A) → F a → G a)
    → Committed (λ a t. F a) r
    → Committed (λ a t. G a) r
Committed-map F G (ok (a, t)) h c = h a c
Committed-map F G (err e) h c = tt

-- A statement about the result only may be weakened.
pub Triple-map :
    {A : Type 0} {P : Db → Type 0} {m : Tx A} (F G : A → Type 0)
    → ((a : A) → F a → G a)
    → Triple P m (λ a t. F a)
    → Triple P m (λ a t. G a)
Triple-map {m} F G h k = record { run = λ s p. Committed-map F G (m s) h (k.run s p) }

-- A case on a value that may be missing.
pub Triple-option :
    {A B : Type 0} {P : Db → Type 0} {Q : B → Db → Type 0} (m : Tx B) (f : A → Tx B) (o : Option A)
    → Triple P m Q
    → ((a : A) → Triple P (f a) Q)
    → Triple P (elim o [ none ↦ m | some a ↦ f a ]) Q
Triple-option m f none h k = h
Triple-option m f (some a) h k = k a
