-- ===== src/Payment/Requests/Once.antt =====
-- A request under a key is made once.
use cdk_gpt.Prelude.{
  ℕ, ◌≡◌, refl, Bool, false, none, some, List, [], ◌∷◌, map, Text, text_eq_refl, arith, Number,
  positive_safe, find_first, find_and_update, any_row, find_first-append_new, find_first-none,
  find_and_update-none, Option-cases, Bool-cases, inl, inr, ap,
}
use cdk_gpt.Store.{
  Db, PaymentRequest, Provider, Result, Tx, ok, or_throw, throw_if, pure, continue,
  idempotency_conflict, ◌>>◌,
}
use cdk_gpt.Purchase.{IdText, object_id_of}
use cdk_gpt.Payment.{update_request, touched}
use cdk_gpt.Payment.Requests.{
  new_request, no_metadata, request_has_key, payment_code, insert_request, found_or_inserted,
  upsert_request, create_request, create_for, is_other_request,
}

-- The requests, but for the times of their last updates.
abbrev pub untimed : List PaymentRequest → List PaymentRequest
untimed rs = map (touched 0) rs

module _ (p : PaymentRequest → Bool) (now : ℕ)
    (same_test : (x : PaymentRequest) → p (touched now x) ≡ p x) where
  -- The request that is found is updated in its time only, and is found again.
  pub find_and_update-touched :
      (xs : List PaymentRequest) (r : PaymentRequest)
      → find_first p xs ≡ some r
      → (rs : List PaymentRequest) × (find_and_update p (λ x. touched now x) xs
          ≡ some (touched now r, rs))
        × (untimed rs ≡ untimed xs)
        × (find_first p rs ≡ some (touched now r))
  unfolding find_and_update find_first
  find_and_update-touched [] r e = cc
  find_and_update-touched (x ∷ xs) r e = elim (Bool-cases (p x)) [
    | inl hit ↦
        let here : some x ≡ some r = rw hit at e in
        let same : x ≡ r = cc in
        rw hit (touched now x ∷ xs, rw same refl, refl, rw (same_test x, hit, same) refl)
    | inr miss ↦
        let (rs, found, kept, again) = find_and_update-touched xs r (rw miss at e) in
        rw (miss, found) (x ∷ rs, refl, ap (λ ys. touched 0 x ∷ ys) kept, rw (miss, again) refl)
  ]

module _ (key : Text) (make : ℕ → Text → PaymentRequest) where
  pub upsert_request_replay :
      ((id : ℕ) (code : Text) → (make id code).idempotency_key ≡ key)
      → (s : Db) (r : PaymentRequest) (t : Db)
      → upsert_request (request_has_key key) key make s ≡ ok (r, t)
      → find_first (request_has_key key) t.payment_requests ≡ some r
  unfolding upsert_request update_request found_or_inserted insert_request
  upsert_request_replay h s r t e =
      elim (Option-cases (find_first (request_has_key key) s.payment_requests)) [
        | inl none_there ↦
            let made : PaymentRequest = touched s.now (make s.next_id (payment_code s)) in
            let none_taken : any_row (request_has_key key) s.payment_requests ≡ false =
              find_first-none (request_has_key key) s.payment_requests none_there in
            ground (
              arith,
              find_and_update-none (request_has_key key) (λ y. touched s.now y) s.payment_requests
                  none_taken,
              none_taken,
              find_first-append_new (request_has_key key) s.payment_requests made none_there
                  (rw (h s.next_id (payment_code s)) (text_eq_refl key)),
            )
        | inr (x, found) ↦
            let (rs, updated, kept, again) =
              find_and_update-touched (request_has_key key) s.now (λ y. refl) s.payment_requests x
                found in
            ground (arith, updated, again)
      ]

pub confirmed-parts :
    (bad : PaymentRequest → Bool) (x : Result (PaymentRequest × Db)) (r : PaymentRequest) (t : Db)
    → continue (λ y. throw_if (bad y) idempotency_conflict >> pure y) x ≡ ok (r, t)
    → (x ≡ ok (r, t)) × (bad r ≡ false)
confirmed-parts bad x r t e = ground arith

-- The operation, in the database `t` at a later time, answers with `r`, and writes the times of requests only.
abbrev pub AnswersAgain : Tx PaymentRequest → PaymentRequest → Db → ℕ → Type 0
AnswersAgain m r t later =
    (rs : List PaymentRequest) × (m (record t { now = later })
      ≡ ok (touched later r, record t { now = later; payment_requests = rs }))
    × (untimed rs ≡ untimed t.payment_requests)

pub upsert_request_again :
    (key : Text) (make : ℕ → Text → PaymentRequest) (r : PaymentRequest) (t : Db) (later : ℕ)
    → find_first (request_has_key key) t.payment_requests ≡ some r
    → AnswersAgain (upsert_request (request_has_key key) key make) r t later
unfolding upsert_request update_request found_or_inserted
upsert_request_again key make r t later found =
    let (rs, updated, kept, again) =
      find_and_update-touched (request_has_key key) later (λ y. refl) t.payment_requests r found in
    (rs, rw updated refl, kept)

create_for_replay :
    (user_id n : ℕ) (provider : Provider) (key : Text) (s : Db) (r : PaymentRequest) (t : Db)
    (later : ℕ)
    → create_for user_id n provider key s ≡ ok (r, t)
    → AnswersAgain (create_for user_id n provider key) r t later
unfolding create_for
create_for_replay user_id n provider key s r t later e =
    let make : ℕ → Text → PaymentRequest = new_request user_id n provider none key no_metadata in
    let (made, same) =
      confirmed-parts (is_other_request user_id n provider)
        (upsert_request (request_has_key key) key make s) r t e in
    let (rs, asked, kept) =
      upsert_request_again key make r t later
        (upsert_request_replay key make (λ id code. refl) s r t made) in
    (rs, rw (asked, same) refl, kept)

-- A request that has been created is not made again: asked for under its key with the same content, at
-- whatever time, it is answered as it is, but for the time of its last update, and no more is written than
-- times of requests.
pub create_request_replay :
    (user : IdText) (amount : Number) (provider : Provider) (key : Text) (s : Db)
    (r : PaymentRequest) (t : Db) (later : ℕ)
    → create_request user amount provider key s ≡ ok (r, t)
    → AnswersAgain (create_request user amount provider key) r t later
unfolding create_request
create_request_replay user amount provider key s r t later e =
    elim (Option-cases (object_id_of user)) [
      | inl malformed_id ↦ cc (rw malformed_id at e)
      | inr (user_id, valid) ↦ elim (Option-cases (positive_safe amount)) [
        | inl refused ↦ cc (rw (valid, refused) at e)
        | inr (n, accepted) ↦
            rw (valid, accepted, or_throw)
              (create_for_replay user_id n provider key s r t later
                (rw (valid, accepted, or_throw) at e))
      ]
    ]
