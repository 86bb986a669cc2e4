-- ===== src/Warranty/Acts.antt =====
-- How the steps of the service of reports keep what holds of the reports
-- (apps/api/src/warranty/warranty.service.ts).
use cdk_gpt.Prelude.{◌≡◌, refl, Bool, true, false, Option, none, some, List, find_and_update}
use cdk_gpt.Purchase.{IdText, object_id_of}
use cdk_gpt.Warranty.{
  Act, Answer, CustomerMessage, Desk, ReportError, WarrantyRequest, answer, answered, carry_on,
  create_message_once, ensure_opening_message, fresh_id, or_refuse, reads, refuse, refuse_if,
  refused, report_not_found, report_or_throw, same_message_key, upserted, ◌>>=◌,
}
use cdk_gpt.Warranty.Settled.{Later, Later-refl, Later-same, Later-trans, report_of}

pub record Safe {A : Type 0} (m : Act A) : Type 0 where
  pub run : (s : Desk) → Later s (m s).1

module _ {A B : Type 0} where
  Later-carry_on :
      (f : A → Act B)
      → ((a : A) → Safe (f a))
      → (s : Desk) (r : Answer A × Desk) → Later s r.1
      → Later s (carry_on f r).1
  Later-carry_on f k s (answered a, t) h = Later-trans h ((k a).run t)
  Later-carry_on f k s (refused e, t) h = h

  pub Safe-bind : {m : Act A} {f : A → Act B} → Safe m → ((a : A) → Safe (f a)) → Safe (m >>= f)
  Safe-bind {m} {f} h k = record { run = λ s. Later-carry_on f k s (m s) (h.run s) }

module _ {A : Type 0} where
  pub Safe-answer : (a : A) → Safe (answer a)
  Safe-answer a = record { run = λ s. Later-refl s }

  pub Safe-refuse : (e : ReportError) → Safe (refuse {A = A} e)
  Safe-refuse e = record { run = λ s. Later-refl s }

  pub Safe-reads : (f : Desk → A) → Safe (reads f)
  Safe-reads f = record { run = λ s. Later-refl s }

  pub Safe-or_refuse : (e : ReportError) (o : Option A) → Safe (or_refuse e o)
  Safe-or_refuse e none = record { run = λ s. Later-refl s }
  Safe-or_refuse e (some a) = record { run = λ s. Later-refl s }

pub Safe-refuse_if : (b : Bool) (e : ReportError) → Safe (refuse_if b e)
Safe-refuse_if true e = record { run = λ s. Later-refl s }
Safe-refuse_if false e = record { run = λ s. Later-refl s }

pub Safe-fresh_id : Safe fresh_id
Safe-fresh_id = record { run = λ s. Later-same s (fresh_id s).1 refl }

upserted-reports :
    (m : CustomerMessage) (s : Desk) (u : Option (CustomerMessage × List CustomerMessage))
    → (upserted m s u).1.reports ≡ s.reports
upserted-reports m s none = refl
upserted-reports m s (some (x, xs)) = refl

pub Safe-create_message_once : (m : CustomerMessage) → Safe (create_message_once m)
unfolding create_message_once
Safe-create_message_once m = record {
  run = λ s. Later-same s (create_message_once m s).1 (
      upserted-reports m s (
        find_and_update (λ x. same_message_key x.key m.key) (λ x. record x { updated_at = s.now })
          s.messages));
}

pub Safe-ensure_opening_message : (r : WarrantyRequest) → Safe (ensure_opening_message r)
Safe-ensure_opening_message r =
    Safe-bind (Safe-reads (λ s. s.now)) λ now. Safe-create_message_once _

pub Safe-report_or_throw : (id : IdText) → Safe (report_or_throw id)
Safe-report_or_throw id =
    Safe-bind (Safe-or_refuse report_not_found (object_id_of id))
      λ report_id. Safe-bind (Safe-reads (report_of report_id)) (Safe-or_refuse report_not_found)
