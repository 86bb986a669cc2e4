-- ===== src/Warranty.antt =====
-- The reports of customers on their orders (apps/api/src/warranty/warranty.service.ts, with the statuses of
-- packages/database/src/schemas/warranty-request.schema.ts and the messages of customer-message.schema.ts):
-- the collections, the messages of a report, and what the operations share. Reports has `create` and
-- `update`, Replies has `reply` and `userReply`. None of the operations on messages opens a transaction: what
-- they have written stays when they throw.
pub mod Reports
pub mod Replies
pub mod Settled
pub mod Acts
pub mod Filed
pub mod Runs
use cdk_gpt.Prelude.{
  ℕ, ◌+◌, ◌*◌, Bool, true, false, ◌&&◌, ◌||◌, Option, none, some, List, [], ◌∷◌, ◌++◌, Text,
  text_eq, trim, leb, ltb, ◌==◌, if◌then◌else◌, find_first, find_and_update, length, Number,
}
use cdk_gpt.Store.{User}
use cdk_gpt.Purchase.{IdText, object_id_of, natural_safe}

pub data WarrantyStatus : Type 0 where
  pending reviewing approved rejected resolved replaced refunded : WarrantyStatus

pub data ComplaintCategory : Type 0 where
  no_delivery invalid_credentials product_mismatch warranty other : ComplaintCategory

-- `WarrantyRequest`, without its code, which is made from the id.
pub record WarrantyRequest : Type 0 where
  pub id : ℕ
  pub user_id : ℕ
  pub order_id : ℕ
  pub inventory_item_id : ℕ
  pub category : ComplaintCategory
  pub reason : Text
  pub status : WarrantyStatus
  pub reviewed_by : Option ℕ
  pub reviewed_at : Option ℕ
  pub resolution_note : Option Text

pub data MessageDirection : Type 0 where
  user_to_admin admin_to_user : MessageDirection

pub data MessageStatus : Type 0 where
  received waiting sending sent failed : MessageStatus

-- `deduplicationKey`, whose hash is the message's id. An administrator's reply without the id of a request
-- has a fresh one.
pub data MessageKey : Type 0 where
  opening : ℕ → MessageKey
  admin_reply : Text → MessageKey
  fresh_reply : ℕ → MessageKey
  user_reply : Text → MessageKey
  resolution : ℕ → ℕ → MessageKey

pub record CustomerMessage : Type 0 where
  pub key : MessageKey
  pub user_id : ℕ
  pub admin_id : Option ℕ
  pub warranty_request_id : ℕ
  pub direction : MessageDirection
  pub body : Text
  pub status : MessageStatus
  pub telegram_message_id : Option ℕ
  pub error_code : Option (Option ℕ)
  pub updated_at : ℕ

-- What the service reads of an order and of a product.
pub record ReportedOrder : Type 0 where
  pub id : ℕ
  pub user_id : ℕ
  pub product_id : ℕ
  pub inventory_item_id : ℕ
  pub delivered_at : Option ℕ
  pub created_at : ℕ

pub record WarrantyTerms : Type 0 where
  pub product_id : ℕ
  pub warranty_days : Option Number
  pub warranty_hours : Option Number

pub record Desk : Type 0 where
  pub now : ℕ
  pub next_id : ℕ
  pub users : List User
  pub orders : List ReportedOrder
  pub products : List WarrantyTerms
  pub reports : List WarrantyRequest
  pub messages : List CustomerMessage

pub data ReportError : Type 0 where
  order_not_found invalid_category invalid_description warranty_expired active_report_exists :
      ReportError
  report_not_found invalid_administrator note_required invalid_transition : ReportError
  customer_not_found invalid_message key_reused telegram_refused : ReportError

pub data Answer (A : Type 0) : Type 0 where
  answered : A → Answer A
  refused : ReportError → Answer A

-- An operation: its answer, and the collections, which keep what is written before it throws.
abbrev pub Act : Type 0 → Type 0
Act A = Desk → Answer A × Desk

abbrev pub carry_on : {A B : Type 0} → (A → Act B) → Answer A × Desk → Answer B × Desk
carry_on f (answered a, t) = f a t
carry_on f (refused e, t) = (refused e, t)

infixl 5 ◌>>=◌ ◌>>◌
abbrev pub ◌>>=◌ : {A B : Type 0} → Act A → (A → Act B) → Act B
◌>>=◌ m f s = carry_on f (m s)

abbrev pub ◌>>◌ : {A B : Type 0} → Act A → Act B → Act B
m >> k = m >>= λ _. k

module _ {A : Type 0} where
  abbrev pub answer : A → Act A
  answer a s = (answered a, s)

  abbrev pub refuse : ReportError → Act A
  refuse e s = (refused e, s)

  abbrev pub reads : (Desk → A) → Act A
  reads f s = (answered (f s), s)

  abbrev pub or_refuse : ReportError → Option A → Act A
  or_refuse e none s = (refused e, s)
  or_refuse e (some a) s = (answered a, s)

abbrev pub refuse_if : Bool → ReportError → Act (Unit {0})
refuse_if true e s = (refused e, s)
refuse_if false e s = (answered tt, s)

-- `ACTIVE_REPORT_STATUSES`
abbrev pub is_active_status : WarrantyStatus → Bool
is_active_status pending = true
is_active_status reviewing = true
is_active_status approved = true
is_active_status _ = false

-- The table of `assertStatusTransition`.
unfoldable pub allowed : WarrantyStatus → WarrantyStatus → Bool
allowed pending reviewing = true
allowed pending resolved = true
allowed pending rejected = true
allowed reviewing resolved = true
allowed reviewing rejected = true
allowed approved reviewing = true
allowed approved resolved = true
allowed approved rejected = true
allowed replaced resolved = true
allowed refunded resolved = true
allowed _ _ = false

abbrev pub same_message_key : MessageKey → MessageKey → Bool
same_message_key (opening a) (opening b) = a == b
same_message_key (admin_reply a) (admin_reply b) = text_eq a b
same_message_key (fresh_reply a) (fresh_reply b) = a == b
same_message_key (user_reply a) (user_reply b) = text_eq a b
same_message_key (resolution a t) (resolution b u) = a == b && t == u
same_message_key _ _ = false

-- The message that is there, or the one that is inserted. Each such update is an update of the time too.
abbrev pub upserted :
    CustomerMessage
    → Desk
    → Option (CustomerMessage × List CustomerMessage)
    → CustomerMessage × Desk
upserted m s none = (m, record s { messages = s.messages ++ m ∷ [] })
upserted m s (some (x, xs)) = (x, record s { messages = xs })

-- `createMessageOnce`
unfoldable pub create_message_once : CustomerMessage → Act CustomerMessage
create_message_once m s =
    let (x, t) = upserted m s (
      find_and_update (λ x. same_message_key x.key m.key) (λ x. record x { updated_at = s.now })
        s.messages) in
    (answered x, t)

abbrev pub opening_message : WarrantyRequest → ℕ → CustomerMessage
opening_message r now = record {
  key = opening r.id;
  user_id = r.user_id;
  admin_id = none;
  warranty_request_id = r.id;
  direction = user_to_admin;
  body = r.reason;
  status = received;
  telegram_message_id = none;
  error_code = none;
  updated_at = now;
}

-- `ensureOpeningMessage`
abbrev pub ensure_opening_message : WarrantyRequest → Act CustomerMessage
ensure_opening_message r = do now ← reads λ s. s.now; create_message_once (opening_message r now)

-- `reportOrThrow`
abbrev pub report_or_throw : IdText → Act WarrantyRequest
report_or_throw id = do
  report_id ← or_refuse report_not_found (object_id_of id)
  or_refuse report_not_found
      (← reads λ s. find_first (λ (r : WarrantyRequest). r.id == report_id) s.reports)

-- `normalizeMessageBody`
unfoldable pub normalize_message_body : Text → Option Text
normalize_message_body value =
    let body = trim value in
    if leb 1 (length body) && leb (length body) 4000 then some body else none

-- A new id.
abbrev pub fresh_id : Act ℕ
fresh_id s = (answered s.next_id, record s { next_id = s.next_id + 1 })

abbrev pub safe_amount : Option Number → ℕ
safe_amount none = 0
safe_amount (some n) = elim (natural_safe n) [ none ↦ 0 | some k ↦ k ]

-- `warrantyDurationHours`
unfoldable pub warranty_duration_hours : Option Number → Option Number → ℕ
warranty_duration_hours days hours = safe_amount days * 24 + safe_amount hours
