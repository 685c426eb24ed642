-- ===== src/Processing.antt =====
-- packages/domain/recoverai_domain/processing.py: a stored provider event is processed once. It
-- updates the payment that it is about, opens a recovery case for a failed payment, and asks for
-- the verification of the open cases that a captured one may have recovered.
pub mod Payments
pub mod Cases
pub mod Laws
pub mod Keeps
pub mod Effects
pub mod Once
use revive_x.Prelude.{
  ℕ, Bool, true, false, if◌then◌else◌, Option, none, some, String, List, [], ◌∷◌, find, map, ◌==◌,
}
use revive_x.Enums.{PaymentStatus, WebhookEventStatus}
use revive_x.Errors.{
  Error, domain_error, concurrent_case_update, Result, ok, err, invalid_transition, tool_validation,
  optimizer_error, idempotency_conflict,
}
use revive_x.Models.Audit.{AuditEventType, AuditState}
use revive_x.Models.EventRows.{WebhookEvent, Job}
use revive_x.Session.{
  Session, Action, pure, raise, lift, ◌>>=◌, ◌>>◌, modify, handling, record_event,
}
use revive_x.Ingestion.{require_merchant}
use revive_x.Normalize.{
  DomainEventType, DomainPaymentEvent, NormalizedEvent, payment_event, unknown_event,
  normalize_provider_event,
}
use revive_x.Processing.Payments.{Digest}
use revive_x.Processing.Cases.{
  handle_payment_failed, handle_payment_captured, handle_payment_refunded, handle_payment_status,
}

pub data ProcessStatus : Type 0 where
  already_processed dead_letter processed : ProcessStatus

pub record ProcessResult : Type 0 where
  pub status : ProcessStatus
  pub followups : List Job

abbrev pub result_of : ProcessStatus → List Job → ProcessResult
result_of status followups = record { status = status; followups = followups }

abbrev pub find_webhook : Session → ℕ → Option WebhookEvent
find_webhook s id = find (λ (e : WebhookEvent). e.id == id) s.webhook_events

abbrev pub update_webhook : ℕ → (WebhookEvent → WebhookEvent) → Action (Unit {0})
update_webhook id f = modify (λ s. record s {
  webhook_events = map (λ (e : WebhookEvent). if e.id == id then f e else e) s.webhook_events;
})

abbrev pub set_status : WebhookEventStatus → WebhookEvent → WebhookEvent
set_status status e = record e { status = status }

-- `_dispatch`, of a payment's event
abbrev pub dispatch_payment :
    Digest → WebhookEvent → DomainPaymentEvent → DomainEventType → Action (List Job)
dispatch_payment uuid row event DomainEventType.payment_failed =
    handle_payment_failed uuid row.id event
dispatch_payment uuid row event DomainEventType.payment_captured =
    handle_payment_captured uuid row.id event
dispatch_payment uuid row event DomainEventType.payment_refunded =
    handle_payment_refunded uuid event
dispatch_payment uuid row event DomainEventType.payment_cancelled =
    handle_payment_status uuid event PaymentStatus.cancelled
dispatch_payment uuid row event DomainEventType.payment_authorized =
    handle_payment_status uuid event PaymentStatus.authorized
dispatch_payment uuid row event DomainEventType.payment_created =
    handle_payment_status uuid event PaymentStatus.created

-- `_dispatch`
abbrev pub dispatch : Digest → WebhookEvent → NormalizedEvent → Action (List Job)
dispatch uuid row (unknown_event type) s =
    (record_event row.merchant_id none AuditEventType.unknown_event_ignored none none >> pure []) s
dispatch uuid row (payment_event event) s = dispatch_payment uuid row event event.event_type s

-- The row after an event was processed.
abbrev pub processed_event : ℕ → WebhookEvent → WebhookEvent
processed_event now e = record e {
  status = WebhookEventStatus.processed;
  processed_at = some now;
  error_code = none;
}

abbrev pub finish_event : WebhookEvent → List Job → Action ProcessResult
finish_event row followups s =
    (update_webhook row.id (processed_event s.now)
        >> record_event row.merchant_id none AuditEventType.provider_event_processed none
            (some (AuditState.event_status WebhookEventStatus.processed))
        >> pure (result_of ProcessStatus.processed followups))
      s

-- The body of the `try`
abbrev pub process_body : Digest → WebhookEvent → Action ProcessResult
process_body uuid row =
    require_merchant row.merchant_id >> lift (normalize_provider_event row) >>= λ event.
    dispatch uuid row event >>= λ followups. finish_event row followups

-- `exc.code` and whether the exception is a `DomainError` that is not retryable; other exceptions
-- are recorded without their name.
abbrev pub failure_of : Error → Option String × Bool
failure_of (domain_error code true) = (some code, false)
failure_of (domain_error code false) = (some code, true)
failure_of (invalid_transition a b) = (some "INVALID_STATE_TRANSITION", true)
failure_of (concurrent_case_update id) = (some "CONCURRENT_CASE_UPDATE", false)
failure_of (tool_validation code) = (some code, true)
failure_of (optimizer_error code) = (some code, true)
failure_of idempotency_conflict = (some "IDEMPOTENCY_KEY_CONFLICT", true)
failure_of _ = (none, false)

abbrev failed_status : Bool → WebhookEventStatus
failed_status true = WebhookEventStatus.dead_letter
failed_status false = WebhookEventStatus.failed

-- `_mark_failure`
abbrev pub mark_failure : WebhookEvent → Option String → Bool → Action (Unit {0})
mark_failure row code final =
    update_webhook row.id (λ e. record e { status = failed_status final; error_code = code })
    >> record_event row.merchant_id none AuditEventType.provider_event_failed none
        (some (AuditState.event_status (failed_status final)))

-- `except DomainError` and `except Exception`
abbrev pub on_failure : WebhookEvent → Error → Option String × Bool → Action ProcessResult
on_failure row e (code, true) =
    mark_failure row code true >> pure (result_of ProcessStatus.dead_letter [])
on_failure row e (code, false) = mark_failure row code false >> raise e

abbrev pub settle : WebhookEvent → Result ProcessResult → Action ProcessResult
settle row (ok result) = pure result
settle row (err e) = on_failure row e (failure_of e)

abbrev pub process_row : Digest → WebhookEvent → WebhookEventStatus → Action ProcessResult
process_row uuid row WebhookEventStatus.processed =
    pure (result_of ProcessStatus.already_processed [])
process_row uuid row WebhookEventStatus.dead_letter = pure (result_of ProcessStatus.dead_letter [])
process_row uuid row _ =
    update_webhook row.id (set_status WebhookEventStatus.processing)
    >> handling (process_body uuid row) (settle row)

abbrev pub process_found : Digest → Option WebhookEvent → Action ProcessResult
process_found uuid none = raise (domain_error "INVALID_PROVIDER_EVENT" false)
process_found uuid (some row) = process_row uuid row row.status

-- `process_webhook_event`
unfoldable pub process_webhook_event : Digest → ℕ → Action ProcessResult
process_webhook_event uuid id s = process_found uuid (find_webhook s id) s

abbrev pub is_closed_event : WebhookEventStatus → Bool
is_closed_event WebhookEventStatus.processed = true
is_closed_event WebhookEventStatus.dead_letter = true
is_closed_event _ = false

abbrev dead_letter_row : Option WebhookEvent → Action (Unit {0})
dead_letter_row none = pure tt
dead_letter_row (some row) =
    if is_closed_event row.status
    then pure tt
    else update_webhook row.id (set_status WebhookEventStatus.dead_letter)
      >> record_event row.merchant_id none AuditEventType.provider_event_failed none
          (some (AuditState.event_status WebhookEventStatus.dead_letter))

-- `mark_dead_letter`, after the bounded retries of the worker
unfoldable pub mark_dead_letter : ℕ → Action (Unit {0})
mark_dead_letter id s = dead_letter_row (find_webhook s id) s
