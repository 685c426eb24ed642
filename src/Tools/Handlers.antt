-- ===== src/Tools/Handlers.antt =====
-- packages/domain/recoverai_domain/tools/handlers.py: what each tool does. A handler that refuses
-- returns a result without success; it does not raise.
pub mod Results
pub mod Reads
pub mod Retry
pub mod Effects
pub mod Outcome
use revive_x.Session.{Action}
use revive_x.ToolWords.{Tool}
use revive_x.Tools.Provider.{Environment}
use revive_x.Tools.Handlers.Results.{HandlerResult, HandlerContext}
use revive_x.Tools.Handlers.Reads.{
  handle_get_customer_history, handle_get_payment_details, handle_get_cart_details,
  handle_get_subscription_details, handle_get_recovery_case, handle_calculate_recovery_probability,
  handle_check_payment_status, handle_check_subscription_status,
}
use revive_x.Tools.Handlers.Retry.{handle_retry_payment}
use revive_x.Tools.Handlers.Effects.{
  handle_schedule_retry, handle_create_payment_link, handle_send_notification,
  handle_offer_discount, handle_escalate_to_human, handle_pause_recovery,
}

-- `HANDLERS`
unfoldable pub handlers : Environment → Tool → HandlerContext → Action HandlerResult
handlers env Tool.get_customer_history = handle_get_customer_history
handlers env Tool.get_payment_details = handle_get_payment_details
handlers env Tool.get_cart_details = handle_get_cart_details
handlers env Tool.get_subscription_details = handle_get_subscription_details
handlers env Tool.get_recovery_case = handle_get_recovery_case
handlers env Tool.calculate_recovery_probability = handle_calculate_recovery_probability env
handlers env Tool.retry_payment = handle_retry_payment env
handlers env Tool.schedule_retry = handle_schedule_retry
handlers env Tool.create_payment_link = handle_create_payment_link env
handlers env Tool.send_notification = handle_send_notification env
handlers env Tool.offer_discount = handle_offer_discount
handlers env Tool.check_payment_status = handle_check_payment_status env
handlers env Tool.check_subscription_status = handle_check_subscription_status
handlers env Tool.escalate_to_human = handle_escalate_to_human
handlers env Tool.pause_recovery = handle_pause_recovery
