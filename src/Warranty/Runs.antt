-- ===== src/Warranty/Runs.antt =====
-- Runs of requests to the service of reports (apps/api/src/warranty/warranty.service.ts), in any order; the
-- insertion of a report may come long after the look for an open one.
use cdk_gpt.Prelude.{
  text_eq, ℕ, ◌+◌, ◌≡◌, refl, Bool, true, false, ◌&&◌, not, Option, none, some, List, Text, arith,
  ◌==◌, find_first, any_row, find_first_passes,
}
use cdk_gpt.Purchase.{IdText, object_id_of}
use cdk_gpt.Warranty.{
  ComplaintCategory, CustomerMessage, Desk, MessageKey, MessageStatus, ReportedOrder,
  WarrantyRequest, WarrantyStatus, admin_to_user, allowed, approved, customer_not_found, failed,
  invalid_administrator, invalid_message, key_reused, normalize_message_body, pending, received,
  refunded, rejected, replaced, report_not_found, resolved, reviewing, sending, sent,
  telegram_refused, user_reply, user_to_admin, waiting, ◌>>=◌,
}
use cdk_gpt.Warranty.Reports.{
  CreateReport, create_report, file_report, live_user, new_report, update_report,
}
use cdk_gpt.Warranty.Replies.{
  SendAnswer, as_failed, as_sent, begin_review, claim_message, deliver_reply, finish_reply,
  in_review, is_pending_report, key_or_fresh, messages_after, not_taken, record_send, reply,
  reply_message, report_messages, request_key, review_pending, send_claimed, set_message, taken,
  user_reply_to,
}
use cdk_gpt.Warranty.Settled.{
  Kept, Later, Later-refl, Later-same, Later-trans, Later-update, OneOpen, report_of,
}
use cdk_gpt.Warranty.Acts.{
  Safe, Safe-answer, Safe-bind, Safe-create_message_once, Safe-ensure_opening_message,
  Safe-fresh_id, Safe-or_refuse, Safe-reads, Safe-refuse, Safe-refuse_if, Safe-report_or_throw,
}
use cdk_gpt.Warranty.Filed.{Safe-create_report, Safe-file_report, Safe-update_report}

messages_after-reports :
    (s : Desk) (u : Option (CustomerMessage × List CustomerMessage))
    → (messages_after s u).reports ≡ s.reports
messages_after-reports s none = refl
messages_after-reports s (some (m, ms)) = refl

Safe-claim_message : (key : MessageKey) → Safe (claim_message key)
unfolding claim_message
Safe-claim_message key = record {
  run = λ s. Later-same s (claim_message key s).1 (messages_after-reports s _);
}

Safe-set_message :
    (key : MessageKey) (f : CustomerMessage → CustomerMessage) → Safe (set_message key f)
Safe-set_message key f = record {
  run = λ s. Later-same s (set_message key f s).1 (messages_after-reports s _);
}

Safe-record_send : (key : MessageKey) (a : SendAnswer) → Safe (record_send key a)
unfolding record_send
Safe-record_send key (taken n) =
    Safe-bind (Safe-reads (λ s. s.now)) λ now. Safe-set_message key (as_sent n now)
Safe-record_send key (not_taken code) = Safe-bind (Safe-reads (λ s. s.now)) λ now.
    Safe-bind (Safe-set_message key (as_failed code now)) λ done. Safe-refuse telegram_refused

-- A report that waits goes into review.
waiting_moves :
    (id admin_id now : ℕ) (x : WarrantyRequest)
    → (x.id == id && is_pending_report x.status) ≡ true
    → allowed x.status reviewing ≡ true
unfolding allowed
waiting_moves id admin_id now x h = ground arith

Safe-begin_review : (id admin_id : ℕ) → Safe (begin_review id admin_id)
unfolding begin_review
Safe-begin_review id admin_id = record {
  run = λ s.
      Later-update (λ r. r.id == id && is_pending_report r.status) (in_review admin_id s.now) s
        λ x f. (
          refl,
          refl,
          waiting_moves id admin_id s.now x
              (find_first_passes (λ r. r.id == id && is_pending_report r.status) s.reports x f),
        );
}

Safe-review_pending :
    (status : WarrantyStatus) (id admin_id : ℕ) → Safe (review_pending status id admin_id)
Safe-review_pending pending id admin_id = Safe-begin_review id admin_id
Safe-review_pending reviewing id admin_id = Safe-answer tt
Safe-review_pending approved id admin_id = Safe-answer tt
Safe-review_pending rejected id admin_id = Safe-answer tt
Safe-review_pending resolved id admin_id = Safe-answer tt
Safe-review_pending replaced id admin_id = Safe-answer tt
Safe-review_pending refunded id admin_id = Safe-answer tt

Safe-finish_reply : (r : WarrantyRequest) (admin_id : ℕ) → Safe (finish_reply r admin_id)
Safe-finish_reply r admin_id =
    Safe-bind (Safe-review_pending r.status r.id admin_id) λ done. Safe-answer sent

Safe-send_claimed :
    (a : SendAnswer) (r : WarrantyRequest) (admin_id : ℕ) (m : CustomerMessage) (won : Bool)
    → Safe (send_claimed a r admin_id m won)
Safe-send_claimed a r admin_id m true =
    Safe-bind (Safe-record_send m.key a) λ done. Safe-finish_reply r admin_id
Safe-send_claimed a r admin_id m false = Safe-answer m.status

module _ (a : SendAnswer) (r : WarrantyRequest) (admin_id : ℕ) (m : CustomerMessage) where
  Safe-claimed : Safe (claim_message m.key >>= send_claimed a r admin_id m)
  Safe-claimed = Safe-bind (Safe-claim_message m.key) (Safe-send_claimed a r admin_id m)

  Safe-deliver_reply : (status : MessageStatus) → Safe (deliver_reply a r admin_id m status)
  Safe-deliver_reply received = Safe-claimed
  Safe-deliver_reply waiting = Safe-claimed
  Safe-deliver_reply sending = Safe-claimed
  Safe-deliver_reply sent = Safe-finish_reply r admin_id
  Safe-deliver_reply failed = Safe-claimed

Safe-reply :
    (id admin : IdText) (text : Text) (request_id : Option Text) (a : SendAnswer)
    → Safe (reply id admin text request_id a)
unfolding reply
Safe-reply id admin text request_id a = Safe-bind (Safe-report_or_throw id) λ r.
    Safe-bind (Safe-or_refuse invalid_administrator (object_id_of admin)) λ admin_id.
      Safe-bind (Safe-reads λ s. any_row (live_user r.user_id) s.users) λ known.
        Safe-bind (Safe-refuse_if (not known) customer_not_found) λ there.
          Safe-bind (Safe-or_refuse invalid_message (normalize_message_body text)) λ body.
            Safe-bind (Safe-reads (λ s. s.now)) λ now. Safe-bind Safe-fresh_id λ fresh.
              Safe-bind
                (Safe-create_message_once (
                  reply_message r (some admin_id) admin_to_user body waiting
                    (key_or_fresh (request_key request_id) fresh) now))
                λ m.
                  Safe-bind (Safe-refuse_if (not (text_eq m.body body)) key_reused)
                    λ same. Safe-deliver_reply a r admin_id m m.status

Safe-user_reply_to : (id user : IdText) (text key : Text) → Safe (user_reply_to id user text key)
unfolding user_reply_to
Safe-user_reply_to id user text key =
    Safe-bind (Safe-or_refuse report_not_found (object_id_of id)) λ report_id.
      Safe-bind (Safe-or_refuse report_not_found (object_id_of user)) λ user_id.
        Safe-bind
          (Safe-reads λ s.
            find_first (λ (r : WarrantyRequest). r.id == report_id && r.user_id == user_id)
              s.reports)
          λ found. Safe-bind (Safe-or_refuse report_not_found found) λ r.
            Safe-bind (Safe-or_refuse invalid_message (normalize_message_body text)) λ body.
              Safe-bind (Safe-reads (λ s. s.now)) λ now.
                Safe-bind
                  (Safe-create_message_once
                    (reply_message r none user_to_admin body received (user_reply key) now))
                  λ m.
                    Safe-bind (Safe-refuse_if (not (text_eq m.body body)) key_reused)
                      λ same. Safe-answer m.status

Safe-report_messages : (id : IdText) → Safe (report_messages id)
unfolding report_messages
Safe-report_messages id =
    Safe-bind (Safe-report_or_throw id)
      λ r. Safe-bind (Safe-ensure_opening_message r) λ m. Safe-reads _

-- One request, or time that goes by. `files` is the insertion of a `create` that has looked for an open
-- report before, in whatever state the collections were then.
pub data Step : Desk → Desk → Type 0 where
  creates : (input : CreateReport) (s : Desk) → Step s (create_report input s).1
  files :
      (o : ReportedOrder) (category : ComplaintCategory) (text : Text) (id : ℕ) (s : Desk)
      → Step s (file_report (new_report o category text id) s).1
  updates :
      (id admin : IdText) (next : WarrantyStatus) (note : Option Text) (delivers : Bool) (s : Desk)
      → Step s (update_report id admin next note delivers s).1
  shows : (id : IdText) (s : Desk) → Step s (report_messages id s).1
  replies :
      (id admin : IdText) (text : Text) (request_id : Option Text) (a : SendAnswer) (s : Desk)
      → Step s (reply id admin text request_id a s).1
  answers :
      (id user : IdText) (text key : Text) (s : Desk) → Step s (user_reply_to id user text key s).1
  waits : (n : ℕ) (s : Desk) → Step s (record s { now = s.now + n })

pub data Run (s : Desk) : Desk → Type 0 where
  here : Run s s
  further : {t u : Desk} → Run s t → Step t u → Run s u

Step-Later : {s t : Desk} → Step s t → Later s t
Step-Later (creates input s) = (Safe-create_report input).run s
Step-Later (files o category text id s) = (Safe-file_report (new_report o category text id)).run s
Step-Later (updates id admin next note delivers s) =
    (Safe-update_report id admin next note delivers).run s
Step-Later (shows id s) = (Safe-report_messages id).run s
Step-Later (replies id admin text request_id a s) = (Safe-reply id admin text request_id a).run s
Step-Later (answers id user text key s) = (Safe-user_reply_to id user text key).run s
Step-Later (waits n s) = Later-same s (record s { now = s.now + n }) refl

Run-Later : {s t : Desk} → Run s t → Later s t
Run-Later here = Later-refl _
Run-Later (further r st) = Later-trans (Run-Later r) (Step-Later st)

-- Any run of requests that starts where no order has two open reports ends so, also when the insertion of
-- one `create` comes behind that of another for the same order. And a report that is read under its id at
-- the start is read at the end: for the same order, and either just as it was or with a status that the
-- table of `assertStatusTransition` allows from the one that it had. As the table allows nothing from RESOLVED
-- and REJECTED, a report that is closed never changes again.
pub Run-settles :
    (s t : Desk) (id : ℕ) (r : WarrantyRequest)
    → Run s t
    → OneOpen s
    → report_of id s ≡ some r
    → OneOpen t × ((r' : WarrantyRequest) × (report_of id t ≡ some r') × Kept r r')
Run-settles s t id r run o e = let later = Run-Later run in (later.open_once o, later.kept id r e)
