-- ===== src/Processing/Cases.antt =====
-- packages/domain/recoverai_domain/processing.py: what an event means for the recovery cases.
use revive_x.Prelude.{
  ℕ, ◌+◌, Bool, not, ◌&&◌, ◌==◌, if◌then◌else◌, Option, none, some, List, [], ◌∷◌, ◌++◌, keep,
  exists_in, map, same_id, is_none,
}
use revive_x.Enums.{PaymentStatus, RecoveryCaseStatus}
use revive_x.Models.{RecoveryCase, Payment}
use revive_x.Models.Audit.{AuditEventType, AuditState}
use revive_x.Models.EventRows.{Job}
use revive_x.Session.{Session, Action, pure, gets, modify, ◌>>=◌, ◌>>◌, record_event}
use revive_x.Normalize.{DomainPaymentEvent}
use revive_x.Processing.Payments.{Digest, FoundPayment, find_or_create_payment, is_captured}

-- The table of cases: the locked one, and the others.
abbrev pub all_cases : Session → List RecoveryCase
all_cases s = s.case ∷ s.others

abbrev pub is_open_for : ℕ → ℕ → RecoveryCase → Bool
is_open_for merchant payment c =
    c.merchant_id == merchant && same_id c.payment_id (some payment) && is_none c.closed_at

-- `list_open_for_payment`
abbrev pub list_open_for_payment : Session → ℕ → ℕ → List RecoveryCase
list_open_for_payment s merchant payment = keep (is_open_for merchant payment) (all_cases s)

-- `list_open_for_customer`
abbrev list_open_for_customer : Session → ℕ → ℕ → List RecoveryCase
list_open_for_customer s merchant customer =
    keep
      (λ (c : RecoveryCase).
        c.merchant_id == merchant && c.customer_id == customer && is_none c.closed_at)
      (all_cases s)

-- `_candidate_cases`, each case once
unfoldable pub candidate_cases : Session → Payment → List RecoveryCase
candidate_cases s payment =
    let own = list_open_for_payment s payment.merchant_id payment.id in
    own
    ++ keep (λ (c : RecoveryCase). not (exists_in (λ (d : RecoveryCase). d.id == c.id) own))
        (list_open_for_customer s payment.merchant_id payment.customer_id)

-- `_queue_verify`
abbrev pub queue_verify : RecoveryCase → Payment → ℕ → Job
queue_verify case payment event = Job.verify_recovery_case case.id (some payment.id) (some event)

abbrev verify_if_captured : RecoveryCase → Payment → ℕ → List Job
verify_if_captured case payment event =
    if is_captured payment.status then queue_verify case payment event ∷ [] else []

-- The new case of a payment.
abbrev pub new_case : Payment → Session → RecoveryCase
new_case payment s = record {
  id = s.next_id;
  merchant_id = payment.merchant_id;
  customer_id = payment.customer_id;
  payment_id = some payment.id;
  cart_id = none;
  subscription_id = none;
  status = RecoveryCaseStatus.detected;
  amount_at_risk = payment.amount;
  amount_recovered = 0;
  currency = payment.currency;
  version = 1;
  opened_at = s.now;
  closed_at = none;
  last_mismatch_reason = none;
  verified_payment_id = none;
  verified_webhook_event_id = none;
}

abbrev pub add_case : RecoveryCase → Action (Unit {0})
add_case case = modify (λ s. record s { others = s.others ++ case ∷ []; next_id = s.next_id + 1 })

abbrev pub open_case : Payment → ℕ → RecoveryCase → Action (List Job)
open_case payment event case =
    add_case case
    >> record_event payment.merchant_id (some case.id) AuditEventType.recovery_case_created none
        (some (AuditState.case_status RecoveryCaseStatus.detected))
    >> pure (Job.process_recovery_case case.id ∷ verify_if_captured case payment event)

abbrev pub attach_case : Payment → ℕ → RecoveryCase → Action (List Job)
attach_case payment event case =
    record_event payment.merchant_id (some case.id) AuditEventType.recovery_case_attached none
      (some (AuditState.case_status case.status))
    >> pure (verify_if_captured case payment event)

abbrev pub create_or_attach_with : Payment → ℕ → List RecoveryCase → Action (List Job)
create_or_attach_with payment event [] s = open_case payment event (new_case payment s) s
create_or_attach_with payment event (case ∷ rest) s = attach_case payment event case s

-- `_create_or_attach_recovery_case`; sessions follow each other, so that no other session opens a
-- case between the search and the insertion
unfoldable pub create_or_attach_recovery_case : Payment → ℕ → Action (List Job)
create_or_attach_recovery_case payment event s =
    create_or_attach_with payment event (list_open_for_payment s payment.merchant_id payment.id) s

abbrev status_of : Option PaymentStatus → Option AuditState
status_of none = none
status_of (some status) = some (AuditState.payment_status status)

abbrev pub log_payment :
    DomainPaymentEvent → Option ℕ → Option PaymentStatus → PaymentStatus → Action (Unit {0})
log_payment event case previous status =
    record_event event.merchant_id case AuditEventType.payment_updated (status_of previous)
      (some (AuditState.payment_status status))

-- `_handle_payment_failed`
abbrev pub handle_payment_failed : Digest → ℕ → DomainPaymentEvent → Action (List Job)
handle_payment_failed uuid row event =
    find_or_create_payment uuid event PaymentStatus.failed >>= λ found.
    log_payment event none found.previous PaymentStatus.failed
    >> create_or_attach_recovery_case found.payment row

abbrev first_id : List RecoveryCase → Option ℕ
first_id [] = none
first_id (case ∷ rest) = some case.id

abbrev pub queue_all : DomainPaymentEvent → ℕ → FoundPayment → List RecoveryCase → Action (List Job)
queue_all event row found cases =
    log_payment event (first_id cases) found.previous PaymentStatus.captured
    >> pure (map (λ case. queue_verify case found.payment row) cases)

-- `_handle_payment_captured`
abbrev pub handle_payment_captured : Digest → ℕ → DomainPaymentEvent → Action (List Job)
handle_payment_captured uuid row event =
    find_or_create_payment uuid event PaymentStatus.captured >>= λ found.
    gets (λ s. candidate_cases s found.payment) >>= queue_all event row found

-- `_handle_payment_status`, and `_handle_payment_refunded` with the status REFUNDED
abbrev pub handle_payment_status : Digest → DomainPaymentEvent → PaymentStatus → Action (List Job)
handle_payment_status uuid event status = find_or_create_payment uuid event status >>= λ found.
    log_payment event none found.previous status >> pure []

abbrev pub handle_payment_refunded : Digest → DomainPaymentEvent → Action (List Job)
handle_payment_refunded uuid event = handle_payment_status uuid event PaymentStatus.refunded
