-- ===== src/Tools/Handlers/Reads.antt =====
-- packages/domain/recoverai_domain/tools/handlers.py: the tools that only read.
use revive_x.Prelude.{
  ℕ, ◌&&◌, ◌==◌, if◌then◌else◌, Option, none, some, String, List, keep, find, str_eq,
}
use revive_x.Models.{Payment, Customer}
use revive_x.Models.ToolRows.{Cart, Subscription, PaymentSnapshot, Prediction, ToolOutput}
use revive_x.Session.{Session, Action, pure, gets}
use revive_x.Tools.Provider.{Environment, Reply, answered, not_found, provider_error}
use revive_x.Tools.Handlers.Results.{
  HandlerResult, HandlerContext, success_with, failure_with, provider_failure,
}

-- `list_for_customer`; the order by time is left out
abbrev pub payments_of : Session → ℕ → ℕ → List Payment
payments_of s merchant customer =
    keep (λ (p : Payment). p.merchant_id == merchant && p.customer_id == customer) s.payments

abbrev history_of : Session → Option Customer → HandlerResult
history_of s none = failure_with "MISSING_CUSTOMER" "Customer not found"
history_of s (some customer) =
    success_with
      (ToolOutput.customer_history customer (payments_of s s.case.merchant_id customer.id))

-- `handle_get_customer_history`
abbrev pub handle_get_customer_history : HandlerContext → Action HandlerResult
handle_get_customer_history ctx = gets (λ s. history_of s ctx.customer)

abbrev pub details_of : Option Payment → HandlerResult
details_of none = failure_with "MISSING_PAYMENT" "Payment not found"
details_of (some payment) = record (success_with (ToolOutput.payment_details payment)) {
  provider = some payment.provider;
  provider_reference = payment.provider_payment_id;
}

-- `handle_get_payment_details`
abbrev pub handle_get_payment_details : HandlerContext → Action HandlerResult
handle_get_payment_details ctx = pure (details_of ctx.payment)

-- `ctx.session.get(Cart, ctx.case.cart_id)`
abbrev pub find_cart : Session → Option ℕ → Option Cart
find_cart s none = none
find_cart s (some id) = find (λ (c : Cart). c.id == id) s.carts

-- `handle_get_cart_details`
abbrev pub handle_get_cart_details : HandlerContext → Action HandlerResult
handle_get_cart_details ctx =
    gets (λ s. success_with (ToolOutput.cart_details (find_cart s s.case.cart_id)))

abbrev find_subscription : Session → Option ℕ → Option Subscription
find_subscription s none = none
find_subscription s (some id) = find (λ (r : Subscription). r.id == id) s.subscriptions

-- `handle_get_subscription_details`
abbrev pub handle_get_subscription_details : HandlerContext → Action HandlerResult
handle_get_subscription_details ctx = gets (λ s.
    success_with (ToolOutput.subscription_details (find_subscription s s.case.subscription_id)))

-- `handle_check_subscription_status`
abbrev pub handle_check_subscription_status : HandlerContext → Action HandlerResult
handle_check_subscription_status ctx = handle_get_subscription_details ctx

-- `handle_get_recovery_case`
abbrev pub handle_get_recovery_case : HandlerContext → Action HandlerResult
handle_get_recovery_case ctx = gets (λ s. success_with (ToolOutput.case_details s.case))

-- `value or default`, of an optional text
abbrev pub text_or : Option String → String → String
text_or none default = default
text_or (some text) default = if str_eq text "" then default else text

abbrev estimate : String → Reply Prediction → HandlerResult
estimate action (answered scored) = success_with (ToolOutput.probability scored action)
estimate action (not_found code message) = failure_with code message
estimate action (provider_error code message) = failure_with code message

-- `handle_calculate_recovery_probability`, less the row of the prediction, which nothing here reads
abbrev pub handle_calculate_recovery_probability :
    Environment → HandlerContext → Action HandlerResult
handle_calculate_recovery_probability env ctx = gets (λ s.
    let action = text_or ctx.payload.action "RETRY_NOW" in
    estimate action (env.predict s action ctx.attempt_number))

-- the last return of `handle_check_payment_status`
abbrev local_status : Option Payment → HandlerResult
local_status none = failure_with "MISSING_PAYMENT" "Payment not found"
local_status (some payment) = record (success_with (ToolOutput.payment_details payment)) {
  provider = some payment.provider;
}

abbrev status_from : Environment → Option Payment → Reply PaymentSnapshot → HandlerResult
status_from env payment (answered snapshot) =
    record (success_with (ToolOutput.provider_status snapshot)) {
      provider = some snapshot.provider;
      provider_reference = some snapshot.provider_payment_id;
    }
status_from env payment (not_found code message) = local_status payment
status_from env payment (provider_error code message) =
    provider_failure env.provider_name code message

abbrev payment_status : Environment → Option Payment → Option String → HandlerResult
payment_status env payment none = local_status payment
payment_status env payment (some id) =
    if str_eq id "" then local_status payment else status_from env payment (env.fetch_payment id)

-- `handle_check_payment_status`
abbrev pub handle_check_payment_status : Environment → HandlerContext → Action HandlerResult
handle_check_payment_status env ctx =
    pure (payment_status env ctx.payment ctx.payload.provider_payment_id)
