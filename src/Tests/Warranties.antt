-- ===== src/Tests/Warranties.antt =====
-- A report of a customer of the small shop, and what requests do to it.
use cdk_gpt.Prelude.{
  true, ◌≡◌, refl, none, some, [], ◌∷◌, codes, int, pos, arith, find_first, find_and_update,
  count_if, any_row, trim, trim_start, text_eq,
}
use cdk_gpt.Purchase.{object_id}
use cdk_gpt.Warranty.{
  Desk, ReportedOrder, WarrantyTerms, WarrantyRequest, CustomerMessage, resolved, other,
  admin_reply, admin_to_user, sending, answered, create_message_once, normalize_message_body,
}
use cdk_gpt.Warranty.Reports.{file_report, new_report, update_report}
use cdk_gpt.Warranty.Replies.{taken, reply, claim_message}
use cdk_gpt.Warranty.Settled.{OneOpen, Kept, report_of}
use cdk_gpt.Warranty.Runs.{here, further, files, updates, replies, Run-settles}
use cdk_gpt.Tests.{buyer}

abbrev bought : ReportedOrder
bought = record {
  id = 40;
  user_id = 1;
  product_id = 10;
  inventory_item_id = 20;
  delivered_at = some 500;
  created_at = 400;
}

abbrev one_day : WarrantyTerms
one_day = record { product_id = 10; warranty_days = some (int (pos 1)); warranty_hours = none }

abbrev complaint : WarrantyRequest
complaint = new_report bought other (codes "It does not log in") 50

abbrev begun : CustomerMessage
begun = record {
  key = admin_reply (codes "request 1");
  user_id = 1;
  admin_id = some 7;
  warranty_request_id = 50;
  direction = admin_to_user;
  body = codes "Which account?";
  status = sending;
  telegram_message_id = none;
  error_code = none;
  updated_at = 1000;
}

abbrev desk : Desk
desk = record {
  now = 4000000;
  next_id = 100;
  users = buyer ∷ [];
  orders = bought ∷ [];
  products = one_day ∷ [];
  reports = complaint ∷ [];
  messages = begun ∷ [];
}

-- Another `create` comes late, an administrator answers, and then closes the report.
abbrev filed_twice : Desk
filed_twice = (file_report (new_report bought other (codes "Again") 51) desk).1

abbrev replied : Desk
replied =
    (reply (object_id 50) (object_id 7) (codes "We look at it") (some (codes "request 2"))
      (taken 900) filed_twice).1

abbrev closed : Desk
closed =
    (update_report (object_id 50) (object_id 7) resolved (some (codes "Replaced")) true replied).1

desk-OneOpen : OneOpen desk
unfolding count_if
desk-OneOpen order_id = ground arith

Run-settles_example :
    OneOpen closed × ((r' : WarrantyRequest) × (report_of 50 closed ≡ some r') × Kept complaint r')
unfolding find_first
Run-settles_example =
    Run-settles desk closed 50 complaint
      (further
        (further (further here (files bought other (codes "Again") 51 desk)) (
          replies (object_id 50) (object_id 7) (codes "We look at it") (some (codes "request 2"))
            (taken 900) filed_twice))
        (updates (object_id 50) (object_id 7) resolved (some (codes "Replaced")) true replied))
      desk-OneOpen refl

-- A reply that was being sent more than an hour ago, when the API stopped, is asked for again: the message is
-- read with the time of now, so the claim fails and nothing is sent.
reply_asked_again :
    (reply
      (object_id 50)
      (object_id 7)
      (codes "Which account?")
      (some (codes "request 1"))
      (taken 901)
      desk).0
    ≡ answered sending
unfolding reply find_first any_row normalize_message_body trim trim_start create_message_once
    find_and_update text_eq claim_message
reply_asked_again = refl
