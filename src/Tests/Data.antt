-- ===== src/Tests/Data.antt =====
-- A merchant with two payments of one order, and a case for the one that failed.
use revive_x.Prelude.{false, none, some, [], ◌∷◌}
use revive_x.Enums.{PaymentStatus, RecoveryCaseStatus, MismatchReason}
use revive_x.Models.{RecoveryCase, Payment, Customer, Merchant}
use revive_x.Session.{Session}

abbrev pub failed_payment : Payment
failed_payment = record {
  id = 11;
  merchant_id = 7;
  customer_id = 3;
  provider = "SIMULATOR";
  provider_payment_id = some "pay_11";
  provider_order_id = some "order_5";
  provider_payment_link_id = none;
  amount = 100000;
  currency = "INR";
  status = PaymentStatus.failed;
  failure_code = some "NETWORK_TIMEOUT";
  captured_at = none;
}

abbrev pub captured_payment : Payment
captured_payment = record {
  id = 12;
  merchant_id = 7;
  customer_id = 3;
  provider = "SIMULATOR";
  provider_payment_id = some "pay_12";
  provider_order_id = some "order_5";
  provider_payment_link_id = none;
  amount = 120000;
  currency = "INR";
  status = PaymentStatus.captured;
  failure_code = none;
  captured_at = some 1000500;
}

abbrev pub merchant : Merchant
merchant = record { id = 7; policy = none }

abbrev pub customer : Customer
customer = record {
  id = 3;
  merchant_id = 7;
  communication_opt_out = false;
  suspicious = false;
  source_mismatch = false;
  discount_ineligible = false;
  lifetime_value = 0;
  external_id = none;
}

abbrev pub case_in : RecoveryCaseStatus → RecoveryCase
case_in status = record {
  id = 1;
  merchant_id = 7;
  customer_id = 3;
  payment_id = some 11;
  cart_id = none;
  subscription_id = none;
  status = status;
  amount_at_risk = 100000;
  amount_recovered = 0;
  currency = "INR";
  version = 1;
  opened_at = 1000000;
  closed_at = none;
  last_mismatch_reason = none;
  verified_payment_id = none;
  verified_webhook_event_id = none;
}

abbrev pub session_of : RecoveryCase → Session
session_of case = record {
  case = case;
  others = [];
  payments = failed_payment ∷ captured_payment ∷ [];
  actions = [];
  approvals = [];
  decisions = [];
  evaluations = [];
  audits = [];
  merchants = merchant ∷ [];
  customers = customer ∷ [];
  notifications = [];
  carts = [];
  subscriptions = [];
  payment_attempts = [];
  idempotency_keys = [];
  tool_calls = [];
  webhook_events = [];
  jobs = [];
  now = 1001000;
  next_id = 50;
}

-- The case as it is opened.
abbrev pub opened : Session
opened = session_of (case_in RecoveryCaseStatus.detected)

abbrev pub verifying : Session
verifying = session_of (case_in RecoveryCaseStatus.verifying)

-- The case after the second payment was credited to it.
abbrev pub recovered_case : RecoveryCase
recovered_case = record (case_in RecoveryCaseStatus.recovered) {
  amount_recovered = 100000;
  closed_at = some 1000900;
  verified_payment_id = some 12;
}

abbrev pub recovered : Session
recovered = session_of recovered_case

-- A second case, whose sibling was credited with the second payment.
abbrev pub sibling : Session
sibling = record (session_of (record (case_in RecoveryCaseStatus.verifying) { id = 2 })) {
  others = recovered_case ∷ [];
}

-- The case after a verification failed for its order.
abbrev pub mismatched : Session
mismatched = session_of (record (case_in RecoveryCaseStatus.detected) {
  last_mismatch_reason = some MismatchReason.order_mismatch;
})
