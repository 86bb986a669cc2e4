-- ===== src/Coupons/Admin/Sound.antt =====
-- An administrator cannot make an unsound coupon.
use cdk_gpt.Prelude.{
  ℕ, ◌≤◌, ◌≡◌, refl, Bool, true, false, ◌&&◌, not, Option, none, some, List, [], ◌∷◌, ◌++◌, arith,
  Text, leb, ◌==◌, any_row, count_if, length, text_eq, find_first, find_and_update, cons_row,
  Updated, Bool-cases, inl, inr,
}
use cdk_gpt.Store.{
  Db, Product, Coupon, CouponType, duplicate_key, percent, fixed, Tx, Result, ok, err,
  invalid_coupon, coupon_not_found, modify, new_id,
}
use cdk_gpt.Store.Rules.{
  Committed, Triple, Triple-bind, Triple-pure, Triple-gets, Triple-check, Triple-found,
  committed_at,
}
use cdk_gpt.Purchase.{IdText, object_id_of}
use cdk_gpt.Coupons.{normalize_coupon_code}
use cdk_gpt.Coupons.Fields.{
  CouponFields, CouponDraft, CouponTerms, normalize, validate, merged, below_usage, out_of_order,
  has_cleared, is_wrong, normalized_products,
}
use cdk_gpt.Coupons.Admin.{
  validate_products, validate_given, insert_coupon, create_coupon, save_coupon, update_coupon,
  new_coupon, changed_coupon, empty_draft, draft_of, or_default, flag_or, code_of, store_coupon,
  has_repeated,
}

abbrev value_fits : CouponType → ℕ → Bool
value_fits percent n = leb 1 n && leb n 100
value_fits fixed n = leb 1 n

abbrev limit_fits : Option ℕ → Bool
limit_fits none = true
limit_fits (some n) = leb 1 n

-- A coupon that makes sense: its value is of its kind, its limits are at least 1, it has not been
-- used more often than its limit allows, and it does not end before it starts.
pub record IsSound (c : Coupon) : Type 0 where
  pub value_in_range : value_fits c.kind c.value ≡ true
  pub can_discount : limit_fits c.max_discount ≡ true
  pub usable : limit_fits c.usage_limit ≡ true
  pub usable_by_one : 1 ≤ c.per_user_limit
  pub usage_in_limit : below_usage c.usage_limit c.usage_count ≡ false
  pub in_order : out_of_order c.starts_at c.ends_at ≡ false

record TermsSound (t : CouponTerms) (used : ℕ) : Type 0 where
  value_in_range : value_fits t.kind t.value ≡ true
  can_discount : limit_fits t.max_discount ≡ true
  usable : limit_fits t.usage_limit ≡ true
  usable_by_one : 1 ≤ or_default 1 t.per_user_limit
  usage_in_limit : below_usage t.usage_limit used ≡ false
  in_order : out_of_order t.starts_at t.ends_at ≡ false

validate-TermsSound :
    (d : CouponDraft) (s : Db) (t : CouponTerms) (s' : Db)
    → validate d s ≡ ok (t, s')
    → TermsSound t d.usage_count
unfolding validate
validate-TermsSound d s t s' e = ground arith

-- Every coupon of the database is sound.
abbrev pub AllSound : List Coupon → Type 0
AllSound [] = Unit
AllSound (c ∷ cs) = IsSound c × AllSound cs

AllSound-snoc : (cs : List Coupon) (c : Coupon) → AllSound cs → IsSound c → AllSound (cs ++ c ∷ [])
AllSound-snoc [] c a h = (h, tt)
AllSound-snoc (x ∷ cs) c (k, a) h = (k, AllSound-snoc cs c a h)

AllSound-find_and_update :
    (p : Coupon → Bool) (new : Coupon) (cs : List Coupon)
    → AllSound cs
    → IsSound new
    → Updated (λ y ys. AllSound ys) (find_and_update p (λ c. new) cs)
unfolding find_and_update
AllSound-find_and_update p new [] a h = tt
AllSound-find_and_update p new (c ∷ cs) (k, a) h = elim (Bool-cases (p c)) [
  | inl hit ↦ rw hit (h, a)
  | inr miss ↦
      rw miss (behind (find_and_update p (λ x. new) cs) (AllSound-find_and_update p new cs a h))
]
  where
    behind :
        (r : Option (Coupon × List Coupon))
        → Updated (λ y ys. AllSound ys) r
        → Updated (λ y ys. AllSound ys) (cons_row c r)
    behind none u = tt
    behind (some (y, ys)) u = (k, u)

abbrev pub Sound : Db → Type 0
Sound s = AllSound s.coupons

new_coupon-IsSound :
    (id : ℕ) (code : Text) (t : CouponTerms) (ids : List ℕ) (enabled : Bool)
    → TermsSound t 0
    → IsSound (new_coupon id code t ids enabled)
new_coupon-IsSound id code t ids enabled h = ground (arith, h)

changed_coupon-IsSound :
    (t : CouponTerms) (products : Option (List ℕ)) (f : CouponFields) (c : Coupon)
    → TermsSound t c.usage_count
    → IsSound (changed_coupon t products f c)
changed_coupon-IsSound t products f c h = ground (arith, h)

normalize-Sound : (f : CouponFields) → Triple Sound (normalize f) (λ x. Sound)
unfolding normalize
normalize-Sound f = Triple-bind (Triple-check (has_cleared f) invalid_coupon) λ a.
    Triple-bind (Triple-check (is_wrong f.enabled) invalid_coupon)
      λ b. Triple-found invalid_coupon (normalized_products f.product_ids)

validate_unchanged :
    (d : CouponDraft) (s : Db) (t : CouponTerms) (s' : Db) → validate d s ≡ ok (t, s') → s' ≡ s
unfolding validate
validate_unchanged d s t s' e = ground arith

checked_terms :
    (d : CouponDraft) (s : Db) (r : Result (CouponTerms × Db))
    → ((t : CouponTerms) (s' : Db) → r ≡ ok (t, s') → TermsSound t d.usage_count)
    → ((t : CouponTerms) (s' : Db) → r ≡ ok (t, s') → s' ≡ s)
    → Sound s
    → Committed (λ t s'. TermsSound t d.usage_count × Sound s') r
checked_terms d s (ok (t, s')) h k p = (h t s' refl, rw (k t s' refl) p)
checked_terms d s (err e) h k p = tt

-- The terms are sound, and the database is as it was.
validate-Sound :
    (d : CouponDraft) → Triple Sound (validate d) (λ t s. TermsSound t d.usage_count × Sound s)
validate-Sound d = record {
  run =
      λ s p. checked_terms d s (validate d s) (validate-TermsSound d s) (validate_unchanged d s) p;
}

module _ {F : Type 0} where
  -- A fact that is known behind a step that checks only.
  validate_products-Sound :
      (ids : List ℕ) → Triple (λ s. F × Sound s) (validate_products ids) (λ x s. F × Sound s)
  unfolding validate_products
  validate_products-Sound ids = Triple-bind (Triple-check (has_repeated ids) invalid_coupon) λ a.
      Triple-bind
        (Triple-gets
          (λ s.
            count_if (λ (p : Product). any_row (λ i. i == p.id) ids && not p.deleted) s.products)
          (λ s p. p))
        λ found. Triple-check (not (found == length ids)) invalid_coupon

  validate_given-Sound :
      (ids : Option (List ℕ)) → Triple (λ s. F × Sound s) (validate_given ids) (λ x s. F × Sound s)
  validate_given-Sound none = Triple-pure tt (λ s p. p)
  validate_given-Sound (some ids) = validate_products-Sound ids

-- What is known may be used by the rest.
Triple-fact :
    {A F : Type 0} {m : Tx A} {Q : A → Db → Type 0}
    → (F → Triple Sound m Q)
    → Triple (λ s. F × Sound s) m Q
Triple-fact g = record { run = λ s p. (g p.0).run s p.1 }

new_id-Sound : Triple Sound new_id (λ id. Sound)
new_id-Sound = record { run = λ s p. p }

append_coupon-Sound :
    (c : Coupon)
    → IsSound c
    → Triple Sound (modify λ s. record s { coupons = s.coupons ++ c ∷ [] }) (λ x. Sound)
append_coupon-Sound c h = record { run = λ s p. AllSound-snoc s.coupons c p h }

insert_coupon-Sound :
    (code : Text) (make : ℕ → Coupon)
    → ((id : ℕ) → IsSound (make id))
    → Triple Sound (insert_coupon code make) (λ c. Sound)
unfolding insert_coupon
insert_coupon-Sound code make h =
    Triple-bind
      (Triple-gets (λ s. any_row (λ (c : Coupon). text_eq c.code code) s.coupons) (λ s p. p))
      λ taken. Triple-bind (Triple-check taken duplicate_key) λ free. Triple-bind new_id-Sound λ id.
        Triple-bind (append_coupon-Sound (make id) (h id)) λ done. Triple-pure (make id) (λ s p. p)

create_coupon-Sound :
    (text : Text) (f : CouponFields) → Triple Sound (create_coupon text f) (λ c. Sound)
unfolding create_coupon
create_coupon-Sound text f = Triple-bind (normalize-Sound f) λ products.
    Triple-bind (Triple-found invalid_coupon (code_of (normalize_coupon_code (some text)))) λ code.
      Triple-bind (validate-Sound (merged empty_draft f)) λ t.
        Triple-bind (validate_products-Sound (or_default [] products)) λ checked.
          Triple-fact λ sound.
            insert_coupon-Sound code
              (λ id. new_coupon id code t (or_default [] products) (flag_or true f.enabled))
              λ id.
                new_coupon-IsSound id code t (or_default [] products) (flag_or true f.enabled) sound

stored-Sound :
    (s : Db) (r : Option (Coupon × List Coupon))
    → Sound s
    → Updated (λ y ys. AllSound ys) r
    → Sound (store_coupon s r).1
stored-Sound s none p u = p
stored-Sound s (some (y, ys)) p u = u

save_coupon-Sound :
    (id : ℕ) (new : Coupon) → IsSound new → Triple Sound (save_coupon id new) (λ c. Sound)
unfolding save_coupon
save_coupon-Sound id new h = record {
  run = λ s p.
      stored-Sound s (find_and_update (λ c. c.id == id) (λ c. new) s.coupons) p
        (AllSound-find_and_update (λ c. c.id == id) new s.coupons p h);
}

update_coupon-Sound :
    (id : IdText) (f : CouponFields) → Triple Sound (update_coupon id f) (λ c. Sound)
unfolding update_coupon
update_coupon-Sound id f = Triple-bind (Triple-found invalid_coupon (object_id_of id)) λ coupon_id.
    Triple-bind (normalize-Sound f) λ products.
      Triple-bind
        (Triple-gets (λ s. find_first (λ (x : Coupon). x.id == coupon_id) s.coupons) (λ s p. p))
        λ found. Triple-bind (Triple-found coupon_not_found found) λ c.
          Triple-bind (validate-Sound (merged (draft_of c) f)) λ t.
            Triple-bind (validate_given-Sound products) λ checked. Triple-fact λ sound.
              Triple-bind
                (save_coupon-Sound coupon_id (changed_coupon t products f c)
                  (changed_coupon-IsSound t products f c sound))
                λ saved. Triple-found coupon_not_found saved

-- What an administrator does to one coupon.
pub data CouponOperation : Type 0 where
  creates : Text → CouponFields → CouponOperation
  updates : IdText → CouponFields → CouponOperation

unfoldable pub administer : CouponOperation → Tx Coupon
administer (creates text f) = create_coupon text f
administer (updates id f) = update_coupon id f

-- No request of an administrator makes a coupon unsound: if every coupon of the database has a value of its
-- kind (1 to 100 for a percentage), limits of at least 1, no more uses than its limit allows and an end
-- behind its start, then so it is after a coupon is created or updated, whatever the fields of the request
-- are and whichever of them are left out or null.
pub administer-Sound :
    (op : CouponOperation) (s : Db) (c : Coupon) (t : Db)
    → Sound s
    → administer op s ≡ ok (c, t)
    → Sound t
unfolding administer
administer-Sound (creates text f) s c t p e = committed_at (create_coupon-Sound text f) s p c t e
administer-Sound (updates id f) s c t p e = committed_at (update_coupon-Sound id f) s p c t e
