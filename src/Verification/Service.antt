-- ===== src/Verification/Service.antt =====
-- The service of verification.py on the locked case.
pub mod Keeps
pub mod Credit
pub mod Progress
pub mod Once
use revive_x.Prelude.{
  ℕ, ◌+◌, ◌-◌, min, Bool, true, false, not, ◌&&◌, ◌||◌, leb, ltb, ◌==◌, if◌then◌else◌, Option, none,
  some, List, same_id, is_none, is_empty,
}
use revive_x.Enums.{RecoveryCaseStatus, MismatchReason}
use revive_x.Errors.{Result, ok, err, domain_error}
use revive_x.Models.{RecoveryCase, Payment}
use revive_x.Models.Audit.{AuditEventType, AuditState}
use revive_x.Settings.{RecoverySettings}
use revive_x.Session.{
  Session, Action, pure, raise, gets, lift, ◌>>=◌, ◌>>◌, update_case, record_audit, find_payment,
  others_that_counted,
}
use revive_x.Transitions.{transition_case}
use revive_x.Processor.{process_locked_case}
use revive_x.Verification.{RecoveryMatchResult}
use revive_x.Verification.Evaluate.{exposure, evaluate}

abbrev pub is_stopped : RecoveryCaseStatus → Bool
is_stopped RecoveryCaseStatus.stopped = true
is_stopped _ = false

abbrev pub is_recovered : RecoveryCaseStatus → Bool
is_recovered RecoveryCaseStatus.recovered = true
is_recovered _ = false

abbrev pub is_verifying : RecoveryCaseStatus → Bool
is_verifying RecoveryCaseStatus.verifying = true
is_verifying _ = false

abbrev pub is_action_completed : RecoveryCaseStatus → Bool
is_action_completed RecoveryCaseStatus.action_completed = true
is_action_completed _ = false

abbrev pub find_optional : Session → Option ℕ → Option Payment
find_optional s none = none
find_optional s (some id) = find_payment s id

-- `payment_id or case.payment_id`
abbrev pub or_else : Option ℕ → Option ℕ → Option ℕ
or_else (some id) other = some id
or_else none other = other

-- `_resolve_payment`
unfoldable pub resolve_payment : Session → Option ℕ → Option Payment
resolve_payment s payment_id = find_optional s (or_else payment_id s.case.payment_id)

-- A result that credits nothing new.
abbrev pub no_credit : RecoveryCase → Option ℕ → MismatchReason → ℕ → RecoveryMatchResult
no_credit case payment_id reason remaining = record {
  matched = false;
  case_id = case.id;
  payment_id = payment_id;
  amount_recovered = case.amount_recovered;
  currency = case.currency;
  mismatch_reason = some reason;
  remaining_exposure = remaining;
  capped_overpayment = 0;
}

-- An event that is given, and is the one that the case was verified by.
abbrev pub same_event : Option ℕ → Option ℕ → Bool
same_event (some event) (some verified) = event == verified
same_event _ _ = false

-- The reason for which a payment brings no credit, as `_duplicate_or_already_counted` finds it.
unfoldable pub counted_reason : Session → Payment → Option ℕ → Option MismatchReason
counted_reason s payment event =
    if same_event event s.case.verified_webhook_event_id
    then some MismatchReason.duplicate_event
    else if same_event (some payment.id) s.case.verified_payment_id
    then some MismatchReason.already_counted
    else if not (is_empty (others_that_counted s s.case.merchant_id payment.id))
    then some MismatchReason.already_counted
    else none

-- `_audit_no_credit`
abbrev pub audit_no_credit : MismatchReason → Action (Unit {0})
audit_no_credit reason s =
    (update_case (λ c. record c { last_mismatch_reason = some reason })
        >> record_audit AuditEventType.recovery_verification_failed
            (some (AuditState.case_status s.case.status))
            (some (AuditState.case_status s.case.status)))
      s

abbrev pub start_verifying : Action (Unit {0})
start_verifying s =
    (if is_action_completed s.case.status
        then transition_case RecoveryCaseStatus.verifying
        else pure tt)
      s

-- `_ensure_verifying`
unfoldable pub ensure_verifying : RecoverySettings → Action (Unit {0})
ensure_verifying settings s =
    (if is_verifying s.case.status
        then pure tt
        else if is_recovered s.case.status
        then pure tt
        else if is_action_completed s.case.status
        then start_verifying
        else process_locked_case settings >> start_verifying)
      s

-- `if previous_amount != credited: record_audit(...)`
abbrev pub audit_amount : ℕ → ℕ → Action (Unit {0})
audit_amount previous credited =
    if previous == credited
    then pure tt
    else record_audit AuditEventType.recovery_amount_updated (some (AuditState.amount previous))
        (some (AuditState.amount credited))

abbrev pub credited_case :
    ℕ → Option ℕ → Option ℕ → Option MismatchReason → RecoveryCase → RecoveryCase
credited_case credited payment_id event reason c = record c {
  amount_recovered = credited;
  verified_payment_id = payment_id;
  verified_webhook_event_id = event;
  last_mismatch_reason = reason;
}

-- `_apply_success` of a verifying case
abbrev pub credit_success : Payment → RecoveryMatchResult → Option ℕ → Action (Unit {0})
credit_success payment match event s =
    (update_case (credited_case match.amount_recovered (some payment.id) event none)
        >> audit_amount s.case.amount_recovered match.amount_recovered
        >> transition_case RecoveryCaseStatus.recovered)
      s

-- `_apply_success`
unfoldable pub apply_success : Payment → RecoveryMatchResult → Option ℕ → Action (Unit {0})
apply_success payment match event s =
    (if not (is_verifying s.case.status)
        then pure tt
        else if ltb s.case.amount_at_risk match.amount_recovered
        then raise (domain_error "RECOVERY_AMOUNT_OVERFLOW" false)
        else credit_success payment match event)
      s

-- `result.mismatch_reason or MismatchReason.UNKNOWN`
abbrev pub reason_or_unknown : Option MismatchReason → MismatchReason
reason_or_unknown none = MismatchReason.unknown
reason_or_unknown (some reason) = reason

abbrev pub is_duplicate_event : Option MismatchReason → Bool
is_duplicate_event (some MismatchReason.duplicate_event) = true
is_duplicate_event _ = false

-- The first assignments of `_persist_failure`.
abbrev pub note_reason : RecoveryMatchResult → Option ℕ → RecoveryCase → RecoveryCase
note_reason result event c = record c {
  last_mismatch_reason = some (reason_or_unknown result.mismatch_reason);
  verified_webhook_event_id =
      if not (is_none event) && is_duplicate_event result.mismatch_reason
      then event
      else c.verified_webhook_event_id;
}

-- The condition of a partial capture.
abbrev pub is_partial : RecoveryMatchResult → Bool
is_partial result =
    is_none result.mismatch_reason
    && ltb 0 result.amount_recovered
    && ltb 0 result.remaining_exposure

-- The credit of a partial capture.
abbrev pub credit_partial : RecoveryMatchResult → Option ℕ → Action (Unit {0})
credit_partial result event s =
    let credited = min result.amount_recovered s.case.amount_at_risk in
    (update_case (λ c.
          credited_case credited (or_else result.payment_id c.verified_payment_id) event
            c.last_mismatch_reason c)
        >> audit_amount s.case.amount_recovered credited)
      s

-- The end of `_persist_failure`.
abbrev pub close_failure : RecoveryMatchResult → Action (Unit {0})
close_failure result s =
    (if is_verifying s.case.status
        then transition_case RecoveryCaseStatus.not_recovered
        else if is_none result.mismatch_reason
        then pure tt
        else record_audit AuditEventType.recovery_verification_failed
            (some (AuditState.case_status s.case.status))
            (some (AuditState.case_status s.case.status)))
      s

-- `_persist_failure`
unfoldable pub persist_failure : RecoveryMatchResult → Option ℕ → Action (Unit {0})
persist_failure result event =
    update_case (note_reason result event)
    >> (if is_partial result then credit_partial result event else pure tt)
    >> close_failure result

abbrev pub record_outcome : Payment → RecoveryMatchResult → Option ℕ → Action (Unit {0})
record_outcome payment match event =
    if match.matched then apply_success payment match event else persist_failure match event

-- The result for a payment that does not exist.
abbrev pub no_payment : RecoveryCase → ℕ → RecoveryMatchResult
no_payment case remaining = record {
  matched = false;
  case_id = case.id;
  payment_id = none;
  amount_recovered = 0;
  currency = case.currency;
  mismatch_reason = some MismatchReason.payment_mismatch;
  remaining_exposure = remaining;
  capped_overpayment = 0;
}

-- The result for a case that is recovered already.
abbrev pub already_recovered : RecoveryCase → Payment → RecoveryMatchResult
already_recovered case payment = record {
  matched = true;
  case_id = case.id;
  payment_id = some payment.id;
  amount_recovered = case.amount_recovered;
  currency = case.currency;
  mismatch_reason = none;
  remaining_exposure = 0;
  capped_overpayment = 0;
}

-- `verify_case` of a payment that was not counted before, once it is evaluated.
abbrev pub settle :
    RecoverySettings → Payment → Option ℕ → RecoveryMatchResult → Action RecoveryMatchResult
settle settings payment event match s =
    (if is_recovered s.case.status
        then pure (already_recovered s.case payment)
        else ensure_verifying settings >> record_outcome payment match event >> pure match)
      s

abbrev pub verify_uncounted :
    RecoverySettings → Payment → Option ℕ → Option MismatchReason → Action RecoveryMatchResult
verify_uncounted settings payment event (some reason) s =
    (lift (exposure s.case) >>= λ remaining.
    audit_no_credit reason >> pure (no_credit s.case (some payment.id) reason remaining))
      s
verify_uncounted settings payment event none s =
    (lift (evaluate settings s payment) >>= λ match. settle settings payment event match) s

abbrev pub verify_payment :
    RecoverySettings → Option ℕ → Option Payment → Action RecoveryMatchResult
verify_payment settings event none s =
    (lift (exposure s.case) >>= λ remaining.
    persist_failure (no_payment s.case remaining) event >> pure (no_payment s.case remaining))
      s
verify_payment settings event (some payment) s =
    verify_uncounted settings payment event (counted_reason s payment event) s

-- `verify_case` of the locked case
unfoldable pub verify_case : RecoverySettings → Option ℕ → Option ℕ → Action RecoveryMatchResult
verify_case settings payment_id event s =
    (if is_stopped s.case.status
        then (lift (exposure s.case) >>= λ remaining.
            pure (no_credit s.case none MismatchReason.unknown remaining))
        else verify_payment settings event (resolve_payment s payment_id))
      s
