-- ===== src/Ingestion.antt =====
-- packages/domain/recoverai_domain/ingestion.py: a provider event is stored once, under the name that
-- its provider gives it, and the queue is told of it.
pub mod Keeps
pub mod Once
use revive_x.Prelude.{
  ℕ, ◌+◌, Bool, true, false, not, ◌&&◌, ◌||◌, ◌==◌, if◌then◌else◌, Option, none, some, String, List,
  [], ◌∷◌, ◌++◌, str_eq, find, exists_in, keep, is_none,
}
use revive_x.Enums.{WebhookEventStatus}
use revive_x.Errors.{Error, Result, ok, err, domain_error, integrity_error}
use revive_x.Models.{Merchant}
use revive_x.Models.Audit.{AuditEventType, AuditState}
use revive_x.Models.EventRows.{EventPayload, ProviderEvent, WebhookEvent, Job}
use revive_x.ToolWords.{TimeText}
use revive_x.Session.{Session, Action, pure, raise, lift, modify, ◌>>=◌, ◌>>◌, record_event}

pub record IngestResult : Type 0 where
  pub webhook_event_id : ℕ
  pub event_id : String
  pub status : WebhookEventStatus
  pub duplicate : Bool
  pub queued : Bool
  pub merchant_id : ℕ

-- `_safe_payload`: the blocked keys are dropped.
abbrev pub blocked_keys : List String
blocked_keys =
    "authorization" ∷ "signature" ∷ "secret" ∷ "api_key" ∷ "key_secret" ∷ "webhook_secret" ∷ []

unfoldable pub safe_payload : EventPayload → EventPayload
safe_payload payload = record payload {
  other_keys = keep (λ key. not (exists_in (str_eq key) blocked_keys)) payload.other_keys;
}

abbrev time_or : Option TimeText → ℕ → TimeText
time_or none now = TimeText.time now
time_or (some text) now = text

-- `if "occurred_at" not in payload:`
abbrev pub dated_payload : ProviderEvent → EventPayload
dated_payload event =
    let safe = safe_payload event.payload in
    record safe { occurred_at = some (time_or safe.occurred_at event.occurred_at) }

-- The types of event that have to name a payment
abbrev pub needs_payment : Option String → Bool
needs_payment none = false
needs_payment (some type) =
    str_eq type "payment.failed" || str_eq type "payment.captured" || str_eq type "payment.refunded"

abbrev names_no_payment : ProviderEvent → Bool
names_no_payment event =
    is_none event.provider_resource_id && is_none event.payload.provider_payment_id

-- `_validate`
unfoldable pub validate : ProviderEvent → Result (Unit {0})
validate event =
    if is_none event.event_id || is_none event.event_type
    then err (domain_error "INVALID_PROVIDER_EVENT" false)
    else if names_no_payment event && needs_payment event.event_type
    then err (domain_error "INVALID_PAYMENT_REFERENCE" false)
    else ok tt

-- The text of an identifier, which is empty when there is none.
abbrev pub text_of : Option String → String
text_of none = ""
text_of (some text) = text

abbrev pub provider_of : Option String → String
provider_of none = "SIMULATOR"
provider_of (some provider) = provider

abbrev pub is_event : String → String → WebhookEvent → Bool
is_event provider event_id row = str_eq row.provider provider && str_eq row.event_id event_id

-- `get_by_provider_event_id`
abbrev pub find_event : Session → String → String → Option WebhookEvent
find_event s provider event_id = find (is_event provider event_id) s.webhook_events

-- `queue.enqueue_process_provider_event`, which may fail; a failure is logged and passed over.
abbrev pub enqueue : Bool → Job → Action Bool
enqueue accepts job =
    if accepts
    then modify (λ s. record s { jobs = s.jobs ++ job ∷ [] }) >> pure true
    else pure false

-- `should_requeue`
abbrev pub should_requeue : WebhookEventStatus → Bool
should_requeue WebhookEventStatus.received = true
should_requeue WebhookEventStatus.processing = true
should_requeue WebhookEventStatus.failed = true
should_requeue _ = false

abbrev pub duplicate_result : WebhookEvent → Bool → IngestResult
duplicate_result existing queued = record {
  webhook_event_id = existing.id;
  event_id = existing.event_id;
  status = existing.status;
  duplicate = true;
  queued = queued;
  merchant_id = existing.merchant_id;
}

abbrev pub requeue : Bool → WebhookEvent → Action Bool
requeue accepts existing =
    if should_requeue existing.status
    then enqueue accepts (Job.process_provider_event existing.id)
    else pure false

-- `_handle_duplicate`
unfoldable pub handle_duplicate : Bool → WebhookEvent → Action IngestResult
handle_duplicate accepts existing =
    record_event existing.merchant_id none AuditEventType.duplicate_event_ignored none
      (some (AuditState.event_status existing.status))
    >> requeue accepts existing
    >>= λ queued. pure (duplicate_result existing queued)

abbrev pub event_row : ProviderEvent → ℕ → Session → WebhookEvent
event_row event merchant s = record {
  id = s.next_id;
  merchant_id = merchant;
  provider = provider_of event.provider;
  event_id = text_of event.event_id;
  event_type = text_of event.event_type;
  signature_valid = event.signature_valid;
  status = WebhookEventStatus.received;
  payload = dated_payload event;
  received_at = s.now;
  processed_at = none;
  error_code = none;
}

abbrev pub new_result : WebhookEvent → Bool → IngestResult
new_result row queued = record {
  webhook_event_id = row.id;
  event_id = row.event_id;
  status = WebhookEventStatus.received;
  duplicate = false;
  queued = queued;
  merchant_id = row.merchant_id;
}

abbrev pub add_event : WebhookEvent → Action (Unit {0})
add_event row =
    modify
      (λ s. record s { webhook_events = s.webhook_events ++ row ∷ []; next_id = s.next_id + 1 })
    >> record_event row.merchant_id none AuditEventType.provider_event_received none
        (some (AuditState.event_status WebhookEventStatus.received))

abbrev pub store_new : Bool → WebhookEvent → Action IngestResult
store_new accepts row =
    add_event row >> enqueue accepts (Job.process_provider_event row.id) >>= λ queued.
    pure (new_result row queued)

-- `except IntegrityError:`
abbrev pub on_conflict : Bool → Option WebhookEvent → Action IngestResult
on_conflict accepts none = raise integrity_error
on_conflict accepts (some duplicate) = handle_duplicate accepts duplicate

-- The insertion, which the table refuses when it has the event of that provider.
abbrev pub insert_event : Bool → ProviderEvent → WebhookEvent → Action IngestResult
insert_event accepts event row s =
    (if exists_in (is_event row.provider row.event_id) s.webhook_events
        then on_conflict accepts (find_event s (text_of event.provider) (text_of event.event_id))
        else store_new accepts row)
      s

abbrev pub ingest_unless : Bool → ProviderEvent → ℕ → Option WebhookEvent → Action IngestResult
ingest_unless accepts event merchant (some existing) s = handle_duplicate accepts existing s
ingest_unless accepts event merchant none s =
    insert_event accepts event (event_row event merchant s) s

abbrev pub merchant_or_error : Option Merchant → Result (Unit {0})
merchant_or_error none = err (domain_error "MISSING_MERCHANT" false)
merchant_or_error (some merchant) = ok tt

-- `MerchantRepository.get_merchant`
abbrev pub require_merchant : ℕ → Action (Unit {0})
require_merchant id s = lift (merchant_or_error (find (λ (m : Merchant). m.id == id) s.merchants)) s

abbrev pub ingest_valid : Bool → ProviderEvent → ℕ → Action IngestResult
ingest_valid accepts event merchant s =
    ingest_unless accepts event merchant
      (find_event s (text_of event.provider) (text_of event.event_id)) s

-- `ingest`, with a queue that accepts the job or fails
unfoldable pub ingest : Bool → ProviderEvent → ℕ → Action IngestResult
ingest accepts event merchant =
    lift (validate event) >> require_merchant merchant >> ingest_valid accepts event merchant
