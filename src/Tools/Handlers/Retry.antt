-- ===== src/Tools/Handlers/Retry.antt =====
-- packages/domain/recoverai_domain/tools/handlers.py: the payment that is made anew, and its attempt.
use revive_x.Prelude.{
  ℕ, Bool, true, false, not, ◌&&◌, ◌==◌, if◌then◌else◌, Option, none, some, String, List, [], ◌∷◌,
  ◌++◌, str_eq, find, exists_in, keep,
}
use revive_x.Prelude.Int.{ℤ, pos, negsuc, ◌+ℤ◌, leb_ℤ}
use revive_x.Enums.{PaymentStatus, RecoveryCaseStatus}
use revive_x.Errors.{integrity_error}
use revive_x.Models.{Payment, Customer}
use revive_x.Models.ToolRows.{PaymentAttempt, PaymentSnapshot, ToolOutput}
use revive_x.Ingestion.{ingest}
use revive_x.Models.EventRows.{EventPayload, ProviderEvent}
use revive_x.ToolWords.{TimeText}
use revive_x.Session.{Session, Action, pure, raise, gets, modify, ◌>>◌}
use revive_x.Tools.Provider.{
  Environment, Reply, answered, not_found, provider_error, CreatePaymentRequest,
}
use revive_x.Tools.Handlers.Results.{
  HandlerResult, HandlerContext, success_with, failure_with, provider_failure,
}

abbrev greater : ℤ → Option ℤ → ℤ
greater a none = a
greater a (some b) = if leb_ℤ a b then b else a

abbrev max_attempt : List PaymentAttempt → Option ℤ
max_attempt [] = none
max_attempt (a ∷ rest) = some (greater a.attempt_number (max_attempt rest))

abbrev after_last : Option ℤ → ℤ
after_last none = pos 1
after_last (some n) = n +ℤ pos 1

-- `PaymentRepository.next_attempt_number`
unfoldable pub next_attempt_number : Session → ℕ → ℤ
next_attempt_number s payment =
    after_last
      (max_attempt (keep (λ (a : PaymentAttempt). a.payment_id == payment) s.payment_attempts))

-- `attempt_number or ...`, since zero counts as nothing
abbrev pub attempt_or : Option ℤ → ℤ → ℤ
attempt_or none next = next
attempt_or (some (pos n)) next = if n == 0 then next else pos n
attempt_or (some (negsuc n)) next = negsuc n

-- The values of `FailureReason`
abbrev pub failure_reasons : List String
failure_reasons =
    "TEMPORARY_BANK_ERROR" ∷ "INSUFFICIENT_FUNDS" ∷ "EXPIRED_CARD" ∷ "DECLINED" ∷ "NETWORK_TIMEOUT"
    ∷ "MANDATE_FAILURE" ∷ "CUSTOMER_CANCELLED" ∷ "UNKNOWN" ∷ []

abbrev pub read_failure : Option String → Option String
read_failure none = none
read_failure (some code) =
    if str_eq code ""
    then none
    else if exists_in (str_eq code) failure_reasons
    then some code
    else some "UNKNOWN"

abbrev lifetime_value_of : Option Customer → ℕ
lifetime_value_of none = 0
lifetime_value_of (some customer) = customer.lifetime_value

-- The request to the provider; `intended_status` is a key that no payload has.
abbrev pub payment_request : Option Customer → ℤ → Payment → Session → CreatePaymentRequest
payment_request customer attempt original s = record {
  merchant_reference = s.case.id;
  amount = original.amount;
  currency = original.currency;
  customer_reference = original.customer_id;
  provider_order_id = original.provider_order_id;
  attempt_number = attempt;
  lifetime_value = lifetime_value_of customer;
  failure_reason = read_failure original.failure_code;
}

abbrev captured_time : PaymentStatus → ℕ → Option ℕ
captured_time PaymentStatus.captured time = some time
captured_time _ time = none

abbrev pub new_payment : Environment → Payment → PaymentSnapshot → ℕ → Payment
new_payment env original snapshot merchant = record {
  id = env.payment_uuid merchant snapshot.provider snapshot.provider_payment_id;
  merchant_id = merchant;
  customer_id = original.customer_id;
  provider = snapshot.provider;
  provider_payment_id = some snapshot.provider_payment_id;
  provider_order_id = snapshot.provider_order_id;
  provider_payment_link_id = none;
  amount = snapshot.amount;
  currency = snapshot.currency;
  status = snapshot.status;
  failure_code = snapshot.failure_reason;
  captured_at = captured_time snapshot.status snapshot.occurred_at;
}

-- `session.add` and `flush`, of a payment whose identifier may be taken
abbrev pub insert_payment : Payment → Action (Unit {0})
insert_payment payment s =
    (if exists_in (λ (p : Payment). p.id == payment.id) s.payments
        then raise integrity_error
        else modify (λ t. record t { payments = t.payments ++ payment ∷ [] }))
      s

abbrev pub attempt_row : ℕ → ℤ → PaymentSnapshot → PaymentAttempt
attempt_row payment attempt snapshot = record {
  payment_id = payment;
  attempt_number = attempt;
  status = snapshot.status;
  amount = snapshot.amount;
  currency = snapshot.currency;
  failure_code = snapshot.failure_reason;
  attempted_at = snapshot.occurred_at;
}

abbrev same_ℤ : ℤ → ℤ → Bool
same_ℤ a b = leb_ℤ a b && leb_ℤ b a

-- A payment has one attempt of each number.
abbrev pub insert_attempt : PaymentAttempt → Action (Unit {0})
insert_attempt row s =
    (if exists_in
          (λ (a : PaymentAttempt).
            a.payment_id == row.payment_id && same_ℤ a.attempt_number row.attempt_number)
          s.payment_attempts
        then raise integrity_error
        else modify (λ t. record t { payment_attempts = t.payment_attempts ++ row ∷ [] }))
      s

-- `event_type_for_status` of packages/providers/recoverai_providers/simulator/events.py
abbrev pub event_type_for_status : PaymentStatus → String
event_type_for_status PaymentStatus.created = "payment.created"
event_type_for_status PaymentStatus.authorized = "payment.authorized"
event_type_for_status PaymentStatus.captured = "payment.captured"
event_type_for_status PaymentStatus.failed = "payment.failed"
event_type_for_status PaymentStatus.refunded = "payment.refunded"
event_type_for_status PaymentStatus.cancelled = "payment.cancelled"
event_type_for_status PaymentStatus.partially_refunded = "payment.partially_refunded"
event_type_for_status PaymentStatus.unknown = "payment.unknown"

abbrev snapshot_payload : PaymentSnapshot → ℕ → EventPayload
snapshot_payload snapshot now = record {
  provider_payment_id = some snapshot.provider_payment_id;
  provider_resource_id = none;
  payment_id = none;
  provider_order_id = snapshot.provider_order_id;
  order_id = none;
  amount = some (some snapshot.amount);
  currency = some snapshot.currency;
  attempt_number = some (some snapshot.attempt_number);
  failure_reason = snapshot.failure_reason;
  failure_code = none;
  customer_id = none;
  customer_external_id = none;
  occurred_at = some (TimeText.time now);
  other_keys = "status" ∷ "payment_method" ∷ "merchant_reference" ∷ "source" ∷ [];
}

-- `build_provider_event` of packages/providers/recoverai_providers/simulator/events.py
abbrev pub build_provider_event : Environment → PaymentSnapshot → ℕ → ProviderEvent
build_provider_event env snapshot now = record {
  provider = some "SIMULATOR";
  event_id = some (env.event_id snapshot now);
  event_type = some (event_type_for_status snapshot.status);
  occurred_at = now;
  provider_resource_id = some snapshot.provider_payment_id;
  payload = snapshot_payload snapshot now;
  signature_valid = some true;
}

abbrev pub ingest_snapshot : Environment → PaymentSnapshot → Bool → Action (Unit {0})
ingest_snapshot env snapshot accepts s =
    (ingest accepts (build_provider_event env snapshot s.now) s.case.merchant_id >> pure tt) s

-- `if snapshot.provider == ProviderName.SIMULATOR and ctx.queue is not None:`
abbrev pub ingest_with : Environment → PaymentSnapshot → Option Bool → Action (Unit {0})
ingest_with env snapshot none = pure tt
ingest_with env snapshot (some accepts) =
    if str_eq snapshot.provider "SIMULATOR" then ingest_snapshot env snapshot accepts else pure tt

-- `session.refresh(original)`; payments are not deleted
abbrev refreshed : Payment → Option Payment → Payment
refreshed original none = original
refreshed original (some payment) = payment

abbrev same_text : Option String → Option String → Bool
same_text none none = true
same_text (some a) (some b) = str_eq a b
same_text _ _ = false

abbrev retried_result : Payment → Payment → ℤ → PaymentSnapshot → HandlerResult
retried_result original payment attempt snapshot =
    record (success_with (ToolOutput.retried original payment.id attempt snapshot)) {
      provider = some snapshot.provider;
      provider_reference = some snapshot.provider_payment_id;
      amount = some snapshot.amount;
      case_status = some RecoveryCaseStatus.action_completed;
      executed = some true;
      new_payment_id = some payment.id;
    }

abbrev pub retry_result : Payment → Payment → ℤ → PaymentSnapshot → Session → HandlerResult
retry_result original payment attempt snapshot s =
    let now = refreshed original (find (λ (p : Payment). p.id == original.id) s.payments) in
    if not (same_text now.provider_payment_id original.provider_payment_id)
    then failure_with "ORIGINAL_PAYMENT_MUTATED" "Original failed payment must remain historical"
    else retried_result now payment attempt snapshot

abbrev pub record_retry :
    Environment → Payment → ℤ → PaymentSnapshot → Payment → Action HandlerResult
record_retry env original attempt snapshot payment =
    insert_payment payment
    >> ingest_with env snapshot env.queue
    >> insert_attempt (attempt_row original.id attempt snapshot)
    >> gets (retry_result original payment attempt snapshot)

abbrev pub retry_with : Environment → Payment → ℤ → Reply PaymentSnapshot → Action HandlerResult
retry_with env original attempt (answered snapshot) s =
    record_retry env original attempt snapshot
      (new_payment env original snapshot s.case.merchant_id) s
retry_with env original attempt (not_found code message) s =
    (pure (provider_failure env.provider_name code message)) s
retry_with env original attempt (provider_error code message) s =
    (pure (provider_failure env.provider_name code message)) s

abbrev pub retry_payment : Environment → HandlerContext → Option Payment → Action HandlerResult
retry_payment env ctx none s =
    (pure (failure_with "MISSING_PAYMENT" "Retry requires a case payment")) s
retry_payment env ctx (some original) s =
    let attempt = attempt_or ctx.payload.attempt_number (next_attempt_number s original.id) in
    retry_with env original attempt
      (env.create_payment (payment_request ctx.customer attempt original s)) s

-- `handle_retry_payment`
abbrev pub handle_retry_payment : Environment → HandlerContext → Action HandlerResult
handle_retry_payment env ctx = retry_payment env ctx ctx.payment
