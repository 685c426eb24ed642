-- ===== src/Tools/Handlers/Effects.antt =====
-- packages/domain/recoverai_domain/tools/handlers.py: the other tools with a side effect.
use revive_x.Prelude.{
  ℕ, ◌+◌, true, false, ◌==◌, if◌then◌else◌, Option, none, some, String, [], ◌∷◌, ◌++◌, map,
}
use revive_x.Enums.{NotificationStatus, RecoveryCaseStatus}
use revive_x.Errors.{Result, ok, err, index_error, invalid_operation, value_error}
use revive_x.Money.{Decimal, of_cents, multiply, percent_of, as_money}
use revive_x.Models.{Payment, Customer, Notification}
use revive_x.Models.ToolRows.{Cart, PaymentLinkSnapshot, ToolOutput}
use revive_x.ToolWords.{DecimalText, TimeText, NotificationChannel}
use revive_x.Session.{Session, Action, pure, lift, modify, ◌>>=◌, ◌>>◌}
use revive_x.Tools.Provider.{
  Environment, Reply, answered, not_found, provider_error, CreatePaymentLinkRequest,
}
use revive_x.Tools.Handlers.Results.{
  HandlerResult, HandlerContext, success_with, failure_with, provider_failure,
}
use revive_x.Tools.Handlers.Reads.{find_cart, text_or}

-- `datetime.fromisoformat(str(payload["scheduled_for"]))`
abbrev pub read_time : Option TimeText → Result ℕ
read_time none = err index_error
read_time (some (TimeText.time t)) = ok t
read_time (some (TimeText.unreadable text)) = err value_error

abbrev scheduled_result : ℕ → HandlerResult
scheduled_result time = record (success_with (ToolOutput.scheduled time)) {
  case_status = some RecoveryCaseStatus.retry_scheduled;
  executed = some false;
  scheduled_for = some time;
}

-- `handle_schedule_retry`
abbrev pub handle_schedule_retry : HandlerContext → Action HandlerResult
handle_schedule_retry ctx =
    lift (read_time ctx.payload.scheduled_for) >>= λ time. pure (scheduled_result time)

abbrev pub link_request : HandlerContext → Session → CreatePaymentLinkRequest
link_request ctx s = record {
  merchant_reference = s.case.id;
  amount = s.case.amount_at_risk;
  currency = s.case.currency;
  customer_reference = s.case.customer_id;
  description = ctx.payload.description;
}

abbrev pub link_payment : Option Payment → String → Action (Unit {0})
link_payment none link = pure tt
link_payment (some payment) link = modify (λ s. record s {
  payments =
      map
        (λ (p : Payment).
          if p.id == payment.id then record p { provider_payment_link_id = some link } else p)
        s.payments;
})

abbrev link_result : PaymentLinkSnapshot → HandlerResult
link_result snapshot = record (success_with (ToolOutput.payment_link snapshot)) {
  provider = some snapshot.provider;
  provider_reference = some snapshot.provider_payment_link_id;
  amount = some snapshot.amount;
  case_status = some RecoveryCaseStatus.action_completed;
  simulated = snapshot.simulated;
}

abbrev pub link_with :
    Environment → HandlerContext → Reply PaymentLinkSnapshot → Action HandlerResult
link_with env ctx (answered snapshot) =
    link_payment ctx.payment snapshot.provider_payment_link_id >> pure (link_result snapshot)
link_with env ctx (not_found code message) = pure (provider_failure env.provider_name code message)
link_with env ctx (provider_error code message) =
    pure (provider_failure env.provider_name code message)

-- `handle_create_payment_link`
abbrev pub handle_create_payment_link : Environment → HandlerContext → Action HandlerResult
handle_create_payment_link env ctx s =
    link_with env ctx (env.create_payment_link (link_request ctx s)) s

-- `ctx.payload.get("channel") or NotificationChannel.EMAIL`
abbrev channel_or : Option NotificationChannel → NotificationChannel
channel_or none = NotificationChannel.email
channel_or (some channel) = channel

abbrev pub notification_row :
    Environment → HandlerContext → ℕ → NotificationChannel → Session → Notification
notification_row env ctx customer channel s = record {
  id = s.next_id;
  merchant_id = s.case.merchant_id;
  customer_id = customer;
  recovery_case_id = some s.case.id;
  channel = channel;
  provider_reference = some (env.notification_reference ctx.idempotency_key);
  status = NotificationStatus.sent;
  created_at = s.now;
}

abbrev notified_result : Notification → HandlerResult
notified_result row = record (success_with (ToolOutput.notified row.id row.channel)) {
  provider = some "SIMULATOR";
  provider_reference = row.provider_reference;
  case_status = some RecoveryCaseStatus.action_completed;
}

abbrev pub notify : Notification → Action HandlerResult
notify row =
    modify (λ s. record s { notifications = s.notifications ++ row ∷ []; next_id = s.next_id + 1 })
    >> pure (notified_result row)

abbrev pub send_to : Environment → HandlerContext → Option Customer → Action HandlerResult
send_to env ctx none s =
    (pure (failure_with "MISSING_CUSTOMER" "Notification requires a customer")) s
send_to env ctx (some customer) s =
    notify (notification_row env ctx customer.id (channel_or ctx.payload.channel) s) s

-- `handle_send_notification`
abbrev pub handle_send_notification : Environment → HandlerContext → Action HandlerResult
handle_send_notification env ctx = send_to env ctx ctx.customer

-- `Decimal(str(payload["discount_percent"]))`
abbrev pub read_decimal : Option DecimalText → Result Decimal
read_decimal none = err index_error
read_decimal (some (DecimalText.decimal d)) = ok d
read_decimal (some (DecimalText.unreadable text)) = err invalid_operation

abbrev pub set_discount : ℕ → ℕ → Action (Unit {0})
set_discount id discount = modify (λ s. record s {
  carts = map (λ (c : Cart). if c.id == id then record c { discount = discount } else c) s.carts;
})

-- `cart.discount = as_money(cart.discount + amount)`
abbrev pub raise_discount : ℕ → Option Cart → Action (Unit {0})
raise_discount amount none = pure tt
raise_discount amount (some cart) =
    lift (as_money (of_cents (cart.discount + amount))) >>= set_discount cart.id

abbrev pub discount_cart : Option ℕ → ℕ → Action (Unit {0})
discount_cart cart amount s = raise_discount amount (find_cart s cart) s

abbrev discount_result : Decimal → ℕ → HandlerResult
discount_result percent amount = record (success_with (ToolOutput.discounted percent amount)) {
  amount = some amount;
  case_status = some RecoveryCaseStatus.action_completed;
  executed = some true;
}

-- `as_money((as_money(case.amount_at_risk) * percent) / Decimal("100"))`
abbrev pub discount_amount : ℕ → Decimal → Result ℕ
discount_amount at_risk percent = as_money (percent_of (multiply (of_cents at_risk) percent))

-- `handle_offer_discount`
abbrev pub handle_offer_discount : HandlerContext → Action HandlerResult
handle_offer_discount ctx s =
    (lift (read_decimal ctx.payload.discount_percent) >>= λ percent.
    lift (discount_amount s.case.amount_at_risk percent) >>= λ amount.
    discount_cart s.case.cart_id amount >> pure (discount_result percent amount))
      s

-- `handle_escalate_to_human`
abbrev pub handle_escalate_to_human : HandlerContext → Action HandlerResult
handle_escalate_to_human ctx =
    pure
      (record (success_with
        (ToolOutput.escalated (text_or ctx.payload.reason "Escalated to a human operator"))) {
          case_status = some RecoveryCaseStatus.escalated;
          executed = some true;
        })

-- `handle_pause_recovery`
abbrev pub handle_pause_recovery : HandlerContext → Action HandlerResult
handle_pause_recovery ctx =
    pure
      (record (success_with
        (ToolOutput.stopped (text_or ctx.payload.reason "Automatic recovery paused"))) {
          case_status = some RecoveryCaseStatus.stopped;
          executed = some true;
        })
