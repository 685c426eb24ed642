-- ===== src/Processing/Keeps.antt =====
-- packages/domain/recoverai_domain/processing.py: what the processing of an event may do.
use revive_x.Prelude.{
  ℕ, ◌≡◌, refl, Bool, true, false, inl, inr, ◌==◌, if◌then◌else◌, Bool-cases, Option, none, some,
  List, [], ◌∷◌, exists_in, String,
}
use revive_x.Enums.{PaymentStatus, WebhookEventStatus}
use revive_x.Errors.{Error, Result, ok, err}
use revive_x.Models.{RecoveryCase, Payment}
use revive_x.Models.Audit.{AuditEventType, AuditState}
use revive_x.Models.EventRows.{WebhookEvent, Job}
use revive_x.Session.{Session, pure, lift, gets, ◌>>=◌, ◌>>◌, record_event, handling}
use revive_x.Session.Change.{Extends-refl, Within}
use revive_x.Ingestion.{require_merchant}
use revive_x.Normalize.{
  DomainEventType, DomainPaymentEvent, NormalizedEvent, payment_event, unknown_event,
  normalize_provider_event,
}
use revive_x.Tools.Handlers.Retry.{insert_payment}
use revive_x.Processing.{
  ProcessResult, dispatch_payment, dispatch, update_webhook, finish_event, process_body,
  mark_failure, on_failure, failure_of, settle, process_row, process_found, find_webhook,
  process_webhook_event, set_status,
}
use revive_x.Processing.Payments.{
  Digest, FoundPayment, update_payment, updated_payment, add_attempt, resolve_customer,
  update_existing, add_payment, created_payment, found_or_created, find_provider_payment,
  find_or_create_payment,
}
use revive_x.Processing.Cases.{
  add_case, new_case, open_case, create_or_attach_with, create_or_attach_recovery_case,
  list_open_for_payment, log_payment, handle_payment_failed, handle_payment_captured, queue_all,
  handle_payment_status, candidate_cases,
}
use revive_x.Processing.Laws.{
  Moves, is_reported, PaymentsMoved-append, PaymentsMoved-map, updated_payment-Moves,
  IsEventRelation, along, along_then,
}

moved_one :
    (event : DomainPaymentEvent) (status : PaymentStatus) (id : ℕ) (p : Payment)
    → is_reported status ≡ true
    → Moves p (if p.id == id then updated_payment event status p else p)
moved_one event status id p reported = elim (Bool-cases (p.id == id)) [
  | inl h ↦ rw h (updated_payment-Moves event status p reported)
  | inr h ↦ rw h (refl, refl, refl, λ t. t)
]

module _ {R : Session → Session → Type 0} (laws : IsEventRelation R) where
  on_event :
      (merchant : ℕ) (case : Option ℕ) (type : AuditEventType) (previous new : Option AuditState)
      → Within R (record_event merchant case type previous new)
  on_event merchant case type previous new s =
      laws.on_log s (record_event merchant case type previous new s).1
        (refl, refl, refl, refl, (_, refl))

  on_attempt :
      (payment : ℕ) (event : DomainPaymentEvent) (status : PaymentStatus)
      → Within R (add_attempt payment event status)
  on_attempt payment event status s =
      laws.on_log s (add_attempt payment event status s).1
        (refl, refl, refl, refl, Extends-refl s.audits)

  on_existing :
      (event : DomainPaymentEvent) (status : PaymentStatus) (existing : Payment)
      → is_reported status ≡ true
      → Within R (update_existing event status existing)
  on_existing event status existing reported =
      along_then laws {B = FoundPayment}
        (update_payment existing.id (updated_payment event status)
          >> add_attempt existing.id event status)
        (pure (record {
          payment = updated_payment event status existing;
          previous = some existing.status;
        }))
        (along_then laws (update_payment existing.id (updated_payment event status))
          (add_attempt existing.id event status)
          (λ s. laws.on_payments s _ (
            PaymentsMoved-map
              (λ (p : Payment). if p.id == existing.id then updated_payment event status p else p)
              (λ p. moved_one event status existing.id p reported) s.payments))
          (on_attempt existing.id event status))
        (λ s. laws.on_same s)

  on_insert : (payment : Payment) → Within R (insert_payment payment)
  on_insert payment s =
      elim (Bool-cases (exists_in (λ (p : Payment). p.id == payment.id) s.payments)) [
        | inl h ↦ rw h (laws.on_same s)
        | inr h ↦ rw h (laws.on_payments s _ (PaymentsMoved-append s.payments payment))
      ]

  on_add :
      (event : DomainPaymentEvent) (status : PaymentStatus) (payment : Payment)
      → Within R (add_payment event status payment)
  on_add event status payment =
      along_then laws {B = FoundPayment}
        (insert_payment payment >> add_attempt payment.id event status)
        (pure (record { payment = payment; previous = none }))
        (along_then laws (insert_payment payment) (add_attempt payment.id event status)
          (on_insert payment) (on_attempt payment.id event status))
        (λ s. laws.on_same s)

  on_resolve : (event : DomainPaymentEvent) → Within R (resolve_customer event)
  unfolding resolve_customer
  on_resolve event s = laws.on_same s

  module _ (uuid : Digest) where
    on_found :
        (event : DomainPaymentEvent) (status : PaymentStatus) (found : Option Payment)
        → is_reported status ≡ true
        → Within R (found_or_created uuid event status found)
    on_found event status (some existing) reported = on_existing event status existing reported
    on_found event status none reported =
        along laws (resolve_customer event)
          (λ customer. add_payment event status (created_payment uuid event status customer))
          (on_resolve event)
          (λ customer. on_add event status (created_payment uuid event status customer))

    on_find :
        (event : DomainPaymentEvent) (status : PaymentStatus)
        → is_reported status ≡ true
        → Within R (find_or_create_payment uuid event status)
    unfolding find_or_create_payment
    on_find event status reported s =
        on_found event status (find_provider_payment s event) reported s

    on_attach :
        (payment : Payment) (row : ℕ) → Within R (create_or_attach_recovery_case payment row)
    unfolding create_or_attach_recovery_case
    on_attach payment row s = by_cases (list_open_for_payment s payment.merchant_id payment.id) refl
      where
        by_cases :
            (cases : List RecoveryCase)
            → list_open_for_payment s payment.merchant_id payment.id ≡ cases
            → R s (create_or_attach_with payment row cases s).1
        by_cases [] closed =
            laws.on_both s (add_case (new_case payment s) s).1
              (open_case payment row (new_case payment s) s).1 (laws.on_case s payment closed)
              (on_event _ _ _ _ _ (add_case (new_case payment s) s).1)
        by_cases (case ∷ rest) open_ = on_event _ _ _ _ _ s

    on_failed :
        (row : ℕ) (event : DomainPaymentEvent) → Within R (handle_payment_failed uuid row event)
    on_failed row event =
        along laws (find_or_create_payment uuid event PaymentStatus.failed)
          (λ found.
            log_payment event none found.previous PaymentStatus.failed
            >> create_or_attach_recovery_case found.payment row)
          (on_find event PaymentStatus.failed refl)
          (λ found.
            along_then laws (log_payment event none found.previous PaymentStatus.failed)
              (create_or_attach_recovery_case found.payment row) (on_event _ _ _ _ _)
              (on_attach found.payment row))

    on_queue :
        (event : DomainPaymentEvent) (row : ℕ) (found : FoundPayment) (cases : List RecoveryCase)
        → Within R (queue_all event row found cases)
    on_queue event row found cases s = on_event _ _ _ _ _ s

    on_captured :
        (row : ℕ) (event : DomainPaymentEvent) → Within R (handle_payment_captured uuid row event)
    on_captured row event =
        along laws (find_or_create_payment uuid event PaymentStatus.captured)
          (λ found. gets (λ s. candidate_cases s found.payment) >>= queue_all event row found)
          (on_find event PaymentStatus.captured refl)
          (λ found s. on_queue event row found (candidate_cases s found.payment) s)

    on_status :
        (event : DomainPaymentEvent) (status : PaymentStatus)
        → is_reported status ≡ true
        → Within R (handle_payment_status uuid event status)
    on_status event status reported =
        along laws (find_or_create_payment uuid event status)
          (λ found. log_payment event none found.previous status >> pure [])
          (on_find event status reported) (λ found s. on_event _ _ _ _ _ s)

    on_payment :
        (row : WebhookEvent) (event : DomainPaymentEvent) (type : DomainEventType)
        → Within R (dispatch_payment uuid row event type)
    on_payment row event DomainEventType.payment_failed = on_failed row.id event
    on_payment row event DomainEventType.payment_captured = on_captured row.id event
    on_payment row event DomainEventType.payment_refunded =
        on_status event PaymentStatus.refunded refl
    on_payment row event DomainEventType.payment_cancelled =
        on_status event PaymentStatus.cancelled refl
    on_payment row event DomainEventType.payment_authorized =
        on_status event PaymentStatus.authorized refl
    on_payment row event DomainEventType.payment_created =
        on_status event PaymentStatus.created refl

    pub dispatch-Within :
        (row : WebhookEvent) (event : NormalizedEvent) → Within R (dispatch uuid row event)
    dispatch-Within row (unknown_event type) s = on_event _ _ _ _ _ s
    dispatch-Within row (payment_event event) s = on_payment row event event.event_type s

    -- With the rows of the events, too.
    module _
        (on_webhooks : (s : Session) (rows : List WebhookEvent)
          → R s (record s { webhook_events = rows })) where
      on_update : (id : ℕ) (f : WebhookEvent → WebhookEvent) → Within R (update_webhook id f)
      on_update id f s = on_webhooks s _

      on_finish :
          (row : WebhookEvent) (followups : List Job) → Within R (finish_event row followups)
      on_finish row followups s =
          laws.on_both s (update_webhook row.id _ s).1 (finish_event row followups s).1
            (on_webhooks s _) (on_event _ _ _ _ _ (update_webhook row.id _ s).1)

      on_body : (row : WebhookEvent) → Within R (process_body uuid row)
      on_body row =
          along laws (require_merchant row.merchant_id >> lift (normalize_provider_event row))
            (λ event. dispatch uuid row event >>= finish_event row)
            (along_then laws (require_merchant row.merchant_id)
              (lift (normalize_provider_event row)) (λ s. laws.on_same s) (λ s. laws.on_same s))
            (λ event.
              along laws (dispatch uuid row event) (finish_event row) (dispatch-Within row event)
                (on_finish row))

      on_mark :
          (row : WebhookEvent) (code : Option String) (final : Bool)
          → Within R (mark_failure row code final)
      on_mark row code final s =
          laws.on_both s (update_webhook row.id _ s).1 (mark_failure row code final s).1
            (on_webhooks s _) (on_event _ _ _ _ _ (update_webhook row.id _ s).1)

      on_raised :
          (row : WebhookEvent) (e : Error) (failure : Option String × Bool)
          → Within R (on_failure row e failure)
      on_raised row e (code, true) s = on_mark row code true s
      on_raised row e (code, false) s = on_mark row code false s

      on_settle :
          (row : WebhookEvent) (result : Result ProcessResult) → Within R (settle row result)
      on_settle row (ok result) s = laws.on_same s
      on_settle row (err e) s = on_raised row e (failure_of e) s

      on_handled : (row : WebhookEvent) → Within R (handling (process_body uuid row) (settle row))
      on_handled row s =
          laws.on_both s (process_body uuid row s).1 _ (on_body row s)
            (on_settle row (process_body uuid row s).0 (process_body uuid row s).1)

      on_row :
          (row : WebhookEvent) (status : WebhookEventStatus)
          → Within R (process_row uuid row status)
      on_row row WebhookEventStatus.processed s = laws.on_same s
      on_row row WebhookEventStatus.dead_letter s = laws.on_same s
      on_row row _ s =
          along_then laws (update_webhook row.id (set_status WebhookEventStatus.processing))
            (handling (process_body uuid row) (settle row))
            (on_update row.id (set_status WebhookEventStatus.processing)) (on_handled row) s

      pub process_webhook_event-Within : (id : ℕ) → Within R (process_webhook_event uuid id)
      unfolding process_webhook_event
      process_webhook_event-Within id s = by_row (find_webhook s id)
        where
          by_row : (found : Option WebhookEvent) → R s (process_found uuid found s).1
          by_row none = laws.on_same s
          by_row (some row) = on_row row row.status s
