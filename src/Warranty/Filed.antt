-- ===== src/Warranty/Filed.antt =====
-- `create` and `update` of the service of reports (apps/api/src/warranty/warranty.service.ts) do to the
-- reports what they may.
use cdk_gpt.Prelude.{
  ℕ, ◌≡◌, refl, Bool, true, false, ◌&&◌, Option, none, some, List, Text, ◌==◌, find_first,
  find_and_update, any_row,
}
use cdk_gpt.Purchase.{IdText, object_id_of}
use cdk_gpt.Warranty.{
  ComplaintCategory, Desk, ReportedOrder, WarrantyRequest, WarrantyStatus, WarrantyTerms,
  active_report_exists, allowed, invalid_administrator, invalid_category, invalid_description,
  note_required, order_not_found, report_not_found, warranty_expired,
}
use cdk_gpt.Warranty.Reports.{
  CreateReport, answer_raced, answer_report, create_for_order, create_report, description_of,
  duration_of, file_report, insert_report, insert_unless, inserted_or_raced, is_missing, is_over,
  new_report, note_message, note_of, note_required_for, notify, open_for, review_found, review_if,
  review_report, with_review, saved_or, update_report,
}
use cdk_gpt.Warranty.Replies.{reports_after}
use cdk_gpt.Warranty.Settled.{
  Later, Later-append, Later-refl, Later-trans, Later-update, report_of, some_injective,
}
use cdk_gpt.Warranty.Acts.{
  Safe, Safe-answer, Safe-bind, Safe-create_message_once, Safe-ensure_opening_message,
  Safe-fresh_id, Safe-or_refuse, Safe-reads, Safe-refuse, Safe-refuse_if,
}

pub Safe-answer_report : (r : WarrantyRequest) (existing : Bool) → Safe (answer_report r existing)
Safe-answer_report r existing = Safe-bind (Safe-ensure_opening_message r) λ m. Safe-answer _

Safe-answer_raced : (o : Option WarrantyRequest) → Safe (answer_raced o)
Safe-answer_raced none = Safe-refuse active_report_exists
Safe-answer_raced (some raced) = Safe-answer_report raced true

-- The unique index, not the look before it, keeps a second open report out.
pub Safe-file_report : (r : WarrantyRequest) → Safe (file_report r)
unfolding file_report insert_report
Safe-file_report r = record { run = λ s. filed s (any_row (open_for r.order_id) s.reports) refl }
  where
    filed :
        (s : Desk) (b : Bool)
        → any_row (open_for r.order_id) s.reports ≡ b
        → Later s (inserted_or_raced r s (insert_unless b r s)).1
    filed s true e = (Safe-answer_raced (find_first (open_for r.order_id) s.reports)).run s
    filed s false e = Later-trans (Later-append r s e) ((Safe-answer_report r false).run _)

Safe-create_for_order :
    (o : ReportedOrder) (c : ComplaintCategory) (d : Text) (found : Option WarrantyRequest)
    → Safe (create_for_order o c d found)
unfolding create_for_order
Safe-create_for_order o c d (some r) = Safe-answer_report r true
Safe-create_for_order o c d none =
    Safe-bind
      (Safe-reads λ s. find_first (λ (p : WarrantyTerms). p.product_id == o.product_id) s.products)
      λ product. Safe-bind (Safe-reads (λ s. s.now)) λ now.
        Safe-bind (Safe-refuse_if (is_over (duration_of product) now o) warranty_expired)
          λ covered. Safe-bind Safe-fresh_id λ id. Safe-file_report (new_report o c d id)

pub Safe-create_report : (input : CreateReport) → Safe (create_report input)
unfolding create_report
Safe-create_report input =
    Safe-bind (Safe-or_refuse order_not_found (object_id_of input.user_id)) λ user_id.
      Safe-bind (Safe-or_refuse order_not_found (object_id_of input.order_id)) λ order_id.
        Safe-bind (Safe-or_refuse invalid_category input.category) λ category.
          Safe-bind (Safe-or_refuse invalid_description (description_of input.description)) λ text.
            Safe-bind
              (Safe-reads λ s.
                find_first (λ (o : ReportedOrder). o.id == order_id && o.user_id == user_id)
                  s.orders)
              λ found. Safe-bind (Safe-or_refuse order_not_found found) λ o.
                Safe-bind (Safe-reads λ s. find_first (open_for o.id) s.reports)
                  (Safe-create_for_order o category text)

saved-reports :
    (s : Desk) (u : Option (WarrantyRequest × List WarrantyRequest))
    → Later s (reports_after s u)
    → Later s (saved_or s u).1
saved-reports s none h = h
saved-reports s (some (r, rs)) h = h

Safe-review_report :
    (id : ℕ) (next : WarrantyStatus) (admin_id : ℕ) (note : Option Text)
    → Safe (review_report id next admin_id note)
unfolding review_report
Safe-review_report id next admin_id note = record { run = λ s. found s (report_of id s) refl }
  where
    decided :
        (s : Desk) (r : WarrantyRequest)
        → report_of id s ≡ some r
        → (b : Bool) → allowed r.status next ≡ b
        → Later s (review_if b id next admin_id note s).1
    decided s r e false a = Later-refl s
    decided s r e true a =
        saved-reports s
          (find_and_update (λ x. x.id == id) (with_review next admin_id s.now note) s.reports)
          (Later-update (λ x. x.id == id) (with_review next admin_id s.now note) s
            λ x f. let same : r ≡ x = some_injective cc in (refl, refl, rw (← same) a))

    found :
        (s : Desk) (o : Option WarrantyRequest)
        → report_of id s ≡ o
        → Later s (review_found id next admin_id note o s).1
    found s none e = Later-refl s
    found s (some r) e = decided s r e (allowed r.status next) refl

Safe-note_message :
    (r : WarrantyRequest) (admin_id : ℕ) (notified : Bool) (now : ℕ) (note : Option Text)
    → Safe (note_message r admin_id notified now note)
Safe-note_message r admin_id notified now none = Safe-answer tt
Safe-note_message r admin_id notified now (some n) =
    Safe-bind (Safe-create_message_once _) λ m. Safe-answer tt

pub Safe-update_report :
    (id admin : IdText) (next : WarrantyStatus) (text : Option Text) (delivers : Bool)
    → Safe (update_report id admin next text delivers)
unfolding update_report
Safe-update_report id admin next text delivers =
    Safe-bind (Safe-or_refuse report_not_found (object_id_of id)) λ report_id.
      Safe-bind (Safe-or_refuse invalid_administrator (object_id_of admin)) λ admin_id.
        Safe-bind
          (Safe-refuse_if (note_required_for next && is_missing (note_of text)) note_required)
          λ ok. Safe-bind (Safe-review_report report_id next admin_id (note_of text)) λ r.
            Safe-bind (Safe-reads (notify delivers r.user_id)) λ notified.
              Safe-bind (Safe-reads (λ s. s.now)) λ now.
                Safe-bind (Safe-note_message r admin_id notified now (note_of text))
                  λ done. Safe-answer (r, notified)
