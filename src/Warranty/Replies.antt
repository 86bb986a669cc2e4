-- ===== src/Warranty/Replies.antt =====
-- `messages`, `reply` and `userReply` of `WarrantyService` (apps/api/src/warranty/warranty.service.ts).
use cdk_gpt.Prelude.{
  ℕ, ◌+◌, ◌*◌, Bool, true, false, ◌&&◌, not, Option, none, some, List, Text, text_eq, trim,
  nonempty, ltb, ◌==◌, find_first, find_and_update, find_all, any_row,
}
use cdk_gpt.Purchase.{IdText, object_id_of}
use cdk_gpt.Warranty.{
  WarrantyStatus, pending, reviewing, WarrantyRequest, MessageDirection, user_to_admin,
  admin_to_user, MessageStatus, received, waiting, sending, sent, failed, MessageKey, admin_reply,
  fresh_reply, user_reply, CustomerMessage, Desk, report_not_found, invalid_administrator,
  customer_not_found, invalid_message, key_reused, telegram_refused, answered, Act, answer, refuse,
  reads, or_refuse, refuse_if, same_message_key, create_message_once, ensure_opening_message,
  report_or_throw, normalize_message_body, fresh_id, ◌>>=◌, ◌>>◌,
}
use cdk_gpt.Warranty.Reports.{live_user}

-- What Telegram answers: the number of the message, or the code of an error.
pub data SendAnswer : Type 0 where
  taken : ℕ → SendAnswer
  not_taken : Option ℕ → SendAnswer

-- The messages of a report, once its first one is there.
unfoldable pub report_messages : IdText → Act (List CustomerMessage)
report_messages id = do
  r ← report_or_throw id
  ensure_opening_message r
  reads λ s. find_all (λ (m : CustomerMessage). m.warranty_request_id == r.id) s.messages

-- `claimableCustomerMessageDelivery`
abbrev pub claimable_status : MessageStatus → ℕ → ℕ → Bool
claimable_status waiting updated_at now = true
claimable_status failed updated_at now = true
claimable_status sending updated_at now = ltb (updated_at + 5 * 60000) now
claimable_status _ updated_at now = false

abbrev pub messages_after : Desk → Option (CustomerMessage × List CustomerMessage) → Desk
messages_after s none = s
messages_after s (some (m, ms)) = record s { messages = ms }

abbrev pub is_claimed : Option (CustomerMessage × List CustomerMessage) → Bool
is_claimed none = false
is_claimed (some x) = true

-- The claim of a message for one call of Telegram: whether it is taken.
unfoldable pub claim_message : MessageKey → Act Bool
claim_message key s =
    let updated =
      find_and_update
        (λ m. same_message_key m.key key && claimable_status m.status m.updated_at s.now)
        (λ m. record m { status = sending; error_code = none; updated_at = s.now }) s.messages in
    (answered (is_claimed updated), messages_after s updated)

abbrev pub set_message : MessageKey → (CustomerMessage → CustomerMessage) → Act (Unit {0})
set_message key f s =
    (answered tt, messages_after s (find_and_update (λ m. same_message_key m.key key) f s.messages))

abbrev pub as_sent : ℕ → ℕ → CustomerMessage → CustomerMessage
as_sent n now m = record m {
  status = sent;
  telegram_message_id = some n;
  error_code = none;
  updated_at = now;
}

abbrev pub as_failed : Option ℕ → ℕ → CustomerMessage → CustomerMessage
as_failed code now m = record m { status = failed; error_code = some code; updated_at = now }

-- What is kept of the answer of Telegram.
unfoldable pub record_send : MessageKey → SendAnswer → Act (Unit {0})
record_send key (taken n) = do now ← reads λ s. s.now; set_message key (as_sent n now)
record_send key (not_taken code) = do
  now ← reads λ s. s.now
  set_message key (as_failed code now)
  refuse telegram_refused

abbrev pub is_pending_report : WarrantyStatus → Bool
is_pending_report pending = true
is_pending_report _ = false

abbrev pub in_review : ℕ → ℕ → WarrantyRequest → WarrantyRequest
in_review admin_id now r = record r {
  status = reviewing;
  reviewed_by = some admin_id;
  reviewed_at = some now;
}

abbrev pub reports_after : Desk → Option (WarrantyRequest × List WarrantyRequest) → Desk
reports_after s none = s
reports_after s (some (r, rs)) = record s { reports = rs }

-- A reply takes a report that waits into review.
unfoldable pub begin_review : ℕ → ℕ → Act (Unit {0})
begin_review id admin_id s = (
  answered tt,
  reports_after s (
      find_and_update (λ r. r.id == id && is_pending_report r.status) (in_review admin_id s.now)
        s.reports),
)

abbrev pub review_pending : WarrantyStatus → ℕ → ℕ → Act (Unit {0})
review_pending pending id admin_id = begin_review id admin_id
review_pending _ id admin_id = answer tt

abbrev pub finish_reply : WarrantyRequest → ℕ → Act MessageStatus
finish_reply r admin_id = review_pending r.status r.id admin_id >> answer sent

-- The call of Telegram, if the claim is won.
abbrev pub send_claimed :
    SendAnswer → WarrantyRequest → ℕ → CustomerMessage → Bool → Act MessageStatus
send_claimed telegram r admin_id m true = record_send m.key telegram >> finish_reply r admin_id
send_claimed telegram r admin_id m false = answer m.status

abbrev pub deliver_reply :
    SendAnswer → WarrantyRequest → ℕ → CustomerMessage → MessageStatus → Act MessageStatus
deliver_reply telegram r admin_id m sent = finish_reply r admin_id
deliver_reply telegram r admin_id m _ = claim_message m.key >>= send_claimed telegram r admin_id m

abbrev pub request_key : Option Text → Option Text
request_key none = none
request_key (some k) = nonempty (trim k)

abbrev pub key_or_fresh : Option Text → ℕ → MessageKey
key_or_fresh (some k) fresh = admin_reply k
key_or_fresh none fresh = fresh_reply fresh

abbrev pub reply_message :
    WarrantyRequest
    → Option ℕ
    → MessageDirection
    → Text
    → MessageStatus
    → MessageKey
    → ℕ
    → CustomerMessage
reply_message r admin_id direction body status key now = record {
  key = key;
  user_id = r.user_id;
  admin_id = admin_id;
  warranty_request_id = r.id;
  direction = direction;
  body = body;
  status = status;
  telegram_message_id = none;
  error_code = none;
  updated_at = now;
}

-- `reply`
unfoldable pub reply : IdText → IdText → Text → Option Text → SendAnswer → Act MessageStatus
reply id admin text request_id telegram = do
  r ← report_or_throw id
  admin_id ← or_refuse invalid_administrator (object_id_of admin)
  known ← reads λ s. any_row (live_user r.user_id) s.users
  refuse_if (not known) customer_not_found
  body ← or_refuse invalid_message (normalize_message_body text)
  now ← reads λ s. s.now
  fresh ← fresh_id
  m ← create_message_once (
      reply_message r (some admin_id) admin_to_user body waiting
        (key_or_fresh (request_key request_id) fresh) now)
  refuse_if (not (text_eq m.body body)) key_reused
  deliver_reply telegram r admin_id m m.status

-- `userReply`
unfoldable pub user_reply_to : IdText → IdText → Text → Text → Act MessageStatus
user_reply_to id user text key = do
  report_id ← or_refuse report_not_found (object_id_of id)
  user_id ← or_refuse report_not_found (object_id_of user)
  found ←
      reads λ s.
        find_first (λ (r : WarrantyRequest). r.id == report_id && r.user_id == user_id) s.reports
  r ← or_refuse report_not_found found
  body ← or_refuse invalid_message (normalize_message_body text)
  now ← reads λ s. s.now
  m ← create_message_once (reply_message r none user_to_admin body received (user_reply key) now)
  refuse_if (not (text_eq m.body body)) key_reused
  answer m.status
