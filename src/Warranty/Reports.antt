-- ===== src/Warranty/Reports.antt =====
-- `create` and `update` of `WarrantyService` (apps/api/src/warranty/warranty.service.ts).
use cdk_gpt.Prelude.{
  ℕ, ◌+◌, ◌*◌, Bool, true, false, ◌&&◌, not, Option, none, some, List, [], ◌∷◌, ◌++◌, Text, trim,
  nonempty, leb, ltb, ◌==◌, if◌then◌else◌, find_first, find_and_update, any_row, length,
}
use cdk_gpt.Store.{User}
use cdk_gpt.Purchase.{IdText, object_id_of}
use cdk_gpt.Warranty.{
  WarrantyStatus, pending, rejected, resolved, ComplaintCategory, WarrantyRequest, admin_to_user,
  MessageStatus, sent, failed, resolution, CustomerMessage, ReportedOrder, WarrantyTerms, Desk,
  order_not_found, invalid_category, invalid_description, warranty_expired, active_report_exists,
  report_not_found, invalid_administrator, note_required, invalid_transition, Answer, answered,
  refused, Act, answer, refuse, reads, or_refuse, refuse_if, is_active_status, allowed,
  create_message_once, ensure_opening_message, fresh_id, warranty_duration_hours, ◌>>=◌, ◌>>◌,
}

-- `CreateOrderReportDto`: a category that is none of them is `none`.
pub record CreateReport : Type 0 where
  pub user_id : IdText
  pub order_id : IdText
  pub category : Option ComplaintCategory
  pub description : Option Text

-- `createResponse`
pub record CreateResponse : Type 0 where
  pub id : ℕ
  pub status : WarrantyStatus
  pub existing : Bool

abbrev pub create_response : WarrantyRequest → Bool → CreateResponse
create_response r existing = record { id = r.id; status = r.status; existing = existing }

-- An open report of the order.
abbrev pub open_for : ℕ → WarrantyRequest → Bool
open_for order_id r = r.order_id == order_id && is_active_status r.status

abbrev pub description_of : Option Text → Option Text
description_of none = none
description_of (some d) =
    if leb 5 (length (trim d)) && leb (length (trim d)) 2000 then some (trim d) else none

abbrev pub start_of : ReportedOrder → ℕ
start_of o = elim o.delivered_at [ none ↦ o.created_at | some t ↦ t ]

abbrev pub duration_of : Option WarrantyTerms → ℕ
duration_of none = 0
duration_of (some p) = warranty_duration_hours p.warranty_days p.warranty_hours

abbrev pub is_over : ℕ → ℕ → ReportedOrder → Bool
is_over hours now o = ltb 0 hours && leb (start_of o + hours * 60 * 60 * 1000) now

abbrev pub new_report : ReportedOrder → ComplaintCategory → Text → ℕ → WarrantyRequest
new_report o category reason id = record {
  id = id;
  user_id = o.user_id;
  order_id = o.id;
  inventory_item_id = o.inventory_item_id;
  category = category;
  reason = reason;
  status = pending;
  reviewed_by = none;
  reviewed_at = none;
  resolution_note = none;
}

-- The answer with a report, which has its first message.
abbrev pub answer_report : WarrantyRequest → Bool → Act CreateResponse
answer_report r existing = do ensure_opening_message r; answer (create_response r existing)

abbrev pub insert_unless : Bool → WarrantyRequest → Desk → Option Desk
insert_unless true r s = none
insert_unless false r s = some (record s { reports = s.reports ++ r ∷ [] })

-- `reports.create`, under the index by which an order has one open report: `none` if it refuses.
unfoldable pub insert_report : WarrantyRequest → Desk → Option Desk
insert_report r s = insert_unless (any_row (open_for r.order_id) s.reports) r s

-- The `catch` of `create`.
abbrev pub answer_raced : Option WarrantyRequest → Act CreateResponse
answer_raced none = refuse active_report_exists
answer_raced (some raced) = answer_report raced true

abbrev pub inserted_or_raced : WarrantyRequest → Desk → Option Desk → Answer CreateResponse × Desk
inserted_or_raced r s (some t) = answer_report r false t
inserted_or_raced r s none = answer_raced (find_first (open_for r.order_id) s.reports) s

-- The `try` of `create`: other requests may have come between it and the look for a report.
unfoldable pub file_report : WarrantyRequest → Act CreateResponse
file_report r s = inserted_or_raced r s (insert_report r s)

-- The rest of `create`, once it has looked for an open report of the order.
unfoldable pub create_for_order :
    ReportedOrder → ComplaintCategory → Text → Option WarrantyRequest → Act CreateResponse
create_for_order o category description (some existing) = answer_report existing true
create_for_order o category description none = do
  product ← reads λ s. find_first (λ (p : WarrantyTerms). p.product_id == o.product_id) s.products
  now ← reads λ s. s.now
  refuse_if (is_over (duration_of product) now o) warranty_expired
  id ← fresh_id
  file_report (new_report o category description id)

-- `create`
unfoldable pub create_report : CreateReport → Act CreateResponse
create_report input = do
  user_id ← or_refuse order_not_found (object_id_of input.user_id)
  order_id ← or_refuse order_not_found (object_id_of input.order_id)
  category ← or_refuse invalid_category input.category
  description ← or_refuse invalid_description (description_of input.description)
  found ←
      reads
        λ s. find_first (λ (o : ReportedOrder). o.id == order_id && o.user_id == user_id) s.orders
  o ← or_refuse order_not_found found
  existing ← reads λ s. find_first (open_for o.id) s.reports
  create_for_order o category description existing

-- `RESOLUTION_NOTE_REQUIRED`
abbrev pub note_required_for : WarrantyStatus → Bool
note_required_for resolved = true
note_required_for rejected = true
note_required_for _ = false

abbrev pub note_of : Option Text → Option Text
note_of none = none
note_of (some n) = nonempty (trim n)

abbrev pub is_missing : {A : Type 0} → Option A → Bool
is_missing none = true
is_missing (some a) = false

abbrev pub with_review : WarrantyStatus → ℕ → ℕ → Option Text → WarrantyRequest → WarrantyRequest
with_review next admin_id now note r = record r {
  status = next;
  reviewed_by = some admin_id;
  reviewed_at = some now;
  resolution_note = note;
}

abbrev pub saved_or :
    Desk → Option (WarrantyRequest × List WarrantyRequest) → Answer WarrantyRequest × Desk
saved_or s none = (refused report_not_found, s)
saved_or s (some (r, rs)) = (answered r, record s { reports = rs })

-- `assertStatusTransition`, and the report is saved.
abbrev pub review_if : Bool → ℕ → WarrantyStatus → ℕ → Option Text → Act WarrantyRequest
review_if false id next admin_id text s = (refused invalid_transition, s)
review_if true id next admin_id note s =
    saved_or s (find_and_update (λ x. x.id == id) (with_review next admin_id s.now note) s.reports)

abbrev pub review_found :
    ℕ → WarrantyStatus → ℕ → Option Text → Option WarrantyRequest → Act WarrantyRequest
review_found id next admin_id text none = refuse report_not_found
review_found id next admin_id note (some r) =
    review_if (allowed r.status next) id next admin_id note

-- The transaction of `update`.
unfoldable pub review_report : ℕ → WarrantyStatus → ℕ → Option Text → Act WarrantyRequest
review_report id next admin_id note s =
    review_found id next admin_id note (find_first (λ (r : WarrantyRequest). r.id == id) s.reports)
      s

abbrev pub live_user : ℕ → User → Bool
live_user user_id u = u.id == user_id && not u.deleted

-- `notify` of `WarrantyNotifier`: no customer, no message. `delivers` is whether Telegram takes it.
abbrev pub notify : Bool → ℕ → Desk → Bool
notify delivers user_id s = any_row (live_user user_id) s.users && delivers

abbrev pub message_status : Bool → MessageStatus
message_status true = sent
message_status false = failed

abbrev pub resolution_message : WarrantyRequest → ℕ → Bool → Text → ℕ → CustomerMessage
resolution_message r admin_id notified note now = record {
  key = resolution r.id now;
  user_id = r.user_id;
  admin_id = some admin_id;
  warranty_request_id = r.id;
  direction = admin_to_user;
  body = note;
  status = message_status notified;
  telegram_message_id = none;
  error_code = none;
  updated_at = now;
}

abbrev pub note_message : WarrantyRequest → ℕ → Bool → ℕ → Option Text → Act (Unit {0})
note_message r admin_id notified now none = answer tt
note_message r admin_id notified now (some note) = do
  create_message_once (resolution_message r admin_id notified note now)
  answer tt

-- `update`, with the report and whether the customer was notified as its result.
unfoldable pub update_report :
    IdText → IdText → WarrantyStatus → Option Text → Bool → Act (WarrantyRequest × Bool)
update_report id admin next text delivers = do
  report_id ← or_refuse report_not_found (object_id_of id)
  admin_id ← or_refuse invalid_administrator (object_id_of admin)
  refuse_if (note_required_for next && is_missing (note_of text)) note_required
  r ← review_report report_id next admin_id (note_of text)
  notified ← reads (notify delivers r.user_id)
  now ← reads λ s. s.now
  note_message r admin_id notified now (note_of text)
  answer (r, notified)
