-- ===== src/Processing/Payments.antt =====
-- packages/domain/recoverai_domain/processing.py: the payment of an event, found or created.
use revive_x.Prelude.{
  ℕ, Bool, true, false, not, ◌&&◌, ◌||◌, ◌==◌, if◌then◌else◌, Option, none, some, String, [], ◌∷◌,
  ◌++◌, find, map, str_eq,
}
use revive_x.Enums.{PaymentStatus}
use revive_x.Errors.{Error, Result, ok, err, domain_error}
use revive_x.Models.{Payment, Customer}
use revive_x.Session.{Session, Action, pure, lift, modify, ◌>>=◌, ◌>>◌}
use revive_x.Policy.Context.{get_customer}
use revive_x.Normalize.{DomainPaymentEvent, first_text}
use revive_x.Tools.Handlers.Retry.{next_attempt_number, insert_payment}

-- `internal_payment_uuid`
abbrev pub Digest : Type 0
Digest = ℕ → String → String → ℕ

abbrev names_payment : ℕ → String → String → Payment → Bool
names_payment merchant provider reference p =
    p.merchant_id == merchant
    && str_eq p.provider provider
    && elim p.provider_payment_id [ none ↦ false | some id ↦ str_eq id reference ]

-- `get_by_provider_payment_id`
abbrev pub find_provider_payment : Session → DomainPaymentEvent → Option Payment
find_provider_payment s event =
    find (names_payment event.merchant_id event.provider event.provider_payment_id) s.payments

abbrev pub is_refunded : PaymentStatus → Bool
is_refunded PaymentStatus.refunded = true
is_refunded _ = false

abbrev pub is_captured : PaymentStatus → Bool
is_captured PaymentStatus.captured = true
is_captured _ = false

abbrev pub is_failed : PaymentStatus → Bool
is_failed PaymentStatus.failed = true
is_failed _ = false

-- The statuses that a captured payment does not go back to.
abbrev pub is_earlier : PaymentStatus → Bool
is_earlier PaymentStatus.created = true
is_earlier PaymentStatus.authorized = true
is_earlier PaymentStatus.failed = true
is_earlier PaymentStatus.cancelled = true
is_earlier _ = false

-- `_is_status_downgrade`
unfoldable pub is_status_downgrade : PaymentStatus → PaymentStatus → Bool
is_status_downgrade current incoming =
    (is_captured current && is_earlier incoming)
    || (is_refunded current && not (is_refunded incoming))

abbrev next_status : PaymentStatus → PaymentStatus → PaymentStatus
next_status current incoming = if is_status_downgrade current incoming then current else incoming

abbrev with_failure : DomainPaymentEvent → Payment → Payment
with_failure event p = record p { failure_code = first_text event.failure_code p.failure_code }

abbrev with_capture : DomainPaymentEvent → Payment → Payment
with_capture event p = record p {
  captured_at = some event.occurred_at;
  status = PaymentStatus.captured;
  amount = event.amount;
}

abbrev with_order : DomainPaymentEvent → PaymentStatus → Payment → Payment
with_order event status p = record p {
  status = next_status p.status status;
  provider_order_id = first_text event.provider_order_id p.provider_order_id;
}

-- The existing payment after the event.
unfoldable pub updated_payment : DomainPaymentEvent → PaymentStatus → Payment → Payment
updated_payment event status p =
    let ordered = with_order event status p in
    if is_failed status
    then with_failure event ordered
    else if is_captured status
    then with_capture event ordered
    else ordered

-- `_add_attempt`
abbrev pub add_attempt : ℕ → DomainPaymentEvent → PaymentStatus → Action (Unit {0})
add_attempt payment event status = modify (λ s. record s {
  payment_attempts =
      s.payment_attempts
      ++ record {
        payment_id = payment;
        attempt_number = next_attempt_number s payment;
        status = status;
        amount = event.amount;
        currency = event.currency;
        failure_code = event.failure_code;
        attempted_at = event.occurred_at;
      }
        ∷ [];
})

abbrev missing_customer : Error
missing_customer = domain_error "MISSING_CUSTOMER" false

abbrev customer_or_error : Option Customer → Result ℕ
customer_or_error none = err missing_customer
customer_or_error (some customer) = ok customer.id

abbrev has_external_id : ℕ → String → Customer → Bool
has_external_id merchant id c =
    c.merchant_id == merchant && elim c.external_id [ none ↦ false | some own ↦ str_eq own id ]

abbrev by_external_id : Session → ℕ → Option String → Result ℕ
by_external_id s merchant none = err missing_customer
by_external_id s merchant (some id) =
    customer_or_error (find (has_external_id merchant id) s.customers)

abbrev by_customer_id : Session → DomainPaymentEvent → Option ℕ → Result ℕ
by_customer_id s event none = by_external_id s event.merchant_id event.customer_external_id
by_customer_id s event (some id) = customer_or_error (get_customer s event.merchant_id id)

-- `_resolve_customer`
unfoldable pub resolve_customer : DomainPaymentEvent → Action ℕ
resolve_customer event s = lift (by_customer_id s event event.customer_id) s

abbrev time_if : Bool → ℕ → Option ℕ
time_if true time = some time
time_if false time = none

abbrev pub created_payment : Digest → DomainPaymentEvent → PaymentStatus → ℕ → Payment
created_payment uuid event status customer = record {
  id = uuid event.merchant_id event.provider event.provider_payment_id;
  merchant_id = event.merchant_id;
  customer_id = customer;
  provider = event.provider;
  provider_payment_id = some event.provider_payment_id;
  provider_order_id = event.provider_order_id;
  provider_payment_link_id = none;
  amount = event.amount;
  currency = event.currency;
  status = status;
  failure_code = event.failure_code;
  captured_at = time_if (is_captured status) event.occurred_at;
}

-- The payment, and its status before.
pub record FoundPayment : Type 0 where
  pub payment : Payment
  pub previous : Option PaymentStatus

abbrev pub update_payment : ℕ → (Payment → Payment) → Action (Unit {0})
update_payment id f =
    modify
      (λ s. record s { payments = map (λ (p : Payment). if p.id == id then f p else p) s.payments })

abbrev pub update_existing : DomainPaymentEvent → PaymentStatus → Payment → Action FoundPayment
update_existing event status existing =
    update_payment existing.id (updated_payment event status)
    >> add_attempt existing.id event status
    >> pure (record {
      payment = updated_payment event status existing;
      previous = some existing.status;
    })

abbrev pub add_payment : DomainPaymentEvent → PaymentStatus → Payment → Action FoundPayment
add_payment event status payment =
    insert_payment payment
    >> add_attempt payment.id event status
    >> pure (record { payment = payment; previous = none })

abbrev pub found_or_created :
    Digest → DomainPaymentEvent → PaymentStatus → Option Payment → Action FoundPayment
found_or_created uuid event status (some existing) = update_existing event status existing
found_or_created uuid event status none = resolve_customer event >>= λ customer.
    add_payment event status (created_payment uuid event status customer)

-- `_find_or_create_payment`
unfoldable pub find_or_create_payment :
    Digest → DomainPaymentEvent → PaymentStatus → Action FoundPayment
find_or_create_payment uuid event status s =
    found_or_created uuid event status (find_provider_payment s event) s
