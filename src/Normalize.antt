-- ===== src/Normalize.antt =====
-- packages/domain/recoverai_domain/normalize.py and events.py, and `provider_event_from_row` of
-- processing.py: what a stored provider event says in the words of the domain.
use revive_x.Prelude.{ℕ, false, ◌||◌, if◌then◌else◌, Option, none, some, String, str_eq}
use revive_x.Prelude.Int.{ℤ}
use revive_x.Errors.{Error, Result, ok, err, domain_error, ◌>>=◌}
use revive_x.ToolWords.{TimeText}
use revive_x.Models.EventRows.{EventPayload, WebhookEvent}

-- `DomainEventType`, less UNKNOWN
pub data DomainEventType : Type 0 where
  payment_failed payment_captured payment_refunded payment_cancelled payment_authorized
        payment_created :
      DomainEventType

pub record DomainPaymentEvent : Type 0 where
  pub event_type : DomainEventType
  pub provider : String
  pub webhook_event_id : ℕ
  pub merchant_id : ℕ
  pub occurred_at : ℕ
  pub provider_payment_id : String
  pub provider_order_id : Option String
  pub amount : ℕ
  pub currency : String
  pub failure_code : Option String
  pub customer_id : Option ℕ
  pub customer_external_id : Option String

-- The events that `normalize_provider_event` makes.
pub data NormalizedEvent : Type 0 where
  payment_event : DomainPaymentEvent → NormalizedEvent
  unknown_event : String → NormalizedEvent

-- `EVENT_TYPE_MAP.get(event_type)`
unfoldable pub event_type_map : String → Option DomainEventType
event_type_map type =
    if str_eq type "payment.failed" || str_eq type "PAYMENT_FAILED"
    then some DomainEventType.payment_failed
    else if str_eq type "payment.captured" || str_eq type "PAYMENT_CAPTURED"
    then some DomainEventType.payment_captured
    else if str_eq type "payment.refunded" || str_eq type "PAYMENT_REFUNDED"
    then some DomainEventType.payment_refunded
    else if str_eq type "payment.cancelled" || str_eq type "PAYMENT_CANCELLED"
    then some DomainEventType.payment_cancelled
    else if str_eq type "payment.authorized"
    then some DomainEventType.payment_authorized
    else if str_eq type "payment.created"
    then some DomainEventType.payment_created
    else none

-- `payload_str` of two keys
abbrev pub first_text : Option String → Option String → Option String
first_text none other = other
first_text (some text) other = some text

-- `occurred_at` of the row's payload, where it reads as a time
abbrev time_of : Option TimeText → ℕ → ℕ
time_of (some (TimeText.time t)) received = t
time_of _ received = received

-- `provider_payment_id` of the event, which the row's resource stands in for
abbrev pub payment_reference : EventPayload → Option String
payment_reference p =
    first_text (first_text p.provider_payment_id p.payment_id)
      (first_text p.provider_payment_id (first_text p.provider_resource_id p.payment_id))

abbrev invalid_event : Error
invalid_event = domain_error "INVALID_PROVIDER_EVENT" false

-- `_require_decimal`
abbrev pub require_decimal : Option (Option ℕ) → Result ℕ
require_decimal (some (some amount)) = ok amount
require_decimal _ = err invalid_event

abbrev require_reference : Option String → Result String
require_reference none = err (domain_error "INVALID_PAYMENT_REFERENCE" false)
require_reference (some text) = ok text

-- `int(attempt_raw)`; the number is used nowhere
abbrev check_attempt : Option (Option ℤ) → Result (Unit {0})
check_attempt (some none) = err invalid_event
check_attempt _ = ok tt

-- `_optional_uuid`
abbrev optional_uuid : Option (Option ℕ) → Result (Option ℕ)
optional_uuid none = ok none
optional_uuid (some none) = err invalid_event
optional_uuid (some (some id)) = ok (some id)

abbrev currency_or : Option String → String
currency_or none = "INR"
currency_or (some currency) = currency

abbrev event_of : WebhookEvent → DomainEventType → String → ℕ → Option ℕ → DomainPaymentEvent
event_of row type reference amount customer = record {
  event_type = type;
  provider = row.provider;
  webhook_event_id = row.id;
  merchant_id = row.merchant_id;
  occurred_at = time_of row.payload.occurred_at row.received_at;
  provider_payment_id = reference;
  provider_order_id = first_text row.payload.provider_order_id row.payload.order_id;
  amount = amount;
  currency = currency_or row.payload.currency;
  failure_code = first_text row.payload.failure_reason row.payload.failure_code;
  customer_id = customer;
  customer_external_id = row.payload.customer_external_id;
}

abbrev pub normalize_as : WebhookEvent → Option DomainEventType → Result NormalizedEvent
normalize_as row none = ok (unknown_event row.event_type)
normalize_as row (some type) = require_reference (payment_reference row.payload) >>= λ reference.
    require_decimal row.payload.amount >>= λ amount.
    check_attempt row.payload.attempt_number >>= λ _.
    optional_uuid row.payload.customer_id >>= λ customer.
    ok (payment_event (event_of row type reference amount customer))

-- `normalize_provider_event` of `provider_event_from_row`
unfoldable pub normalize_provider_event : WebhookEvent → Result NormalizedEvent
normalize_provider_event row = normalize_as row (event_type_map row.event_type)
