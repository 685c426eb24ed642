-- ===== src/ToolWords.antt =====
-- packages/domain/recoverai_domain/tools: the names of the tools, what a call may give them, and
-- the enums of packages/db/recoverai_db/enums.py that they use. A text that a tool reads as a number
-- or as a time stands here with what Python makes of it.
use revive_x.Prelude.{ℕ, Option, none, String}
use revive_x.Prelude.Int.{ℤ}
use revive_x.Money.{Decimal}

-- The keys of `TOOL_SPECS` and of `HANDLERS`
pub data Tool : Type 0 where
  get_customer_history get_payment_details get_cart_details get_subscription_details
        get_recovery_case calculate_recovery_probability retry_payment schedule_retry
        create_payment_link send_notification offer_discount check_payment_status
        check_subscription_status escalate_to_human pause_recovery :
      Tool

abbrev pub tool_name : Tool → String
tool_name Tool.get_customer_history = "get_customer_history"
tool_name Tool.get_payment_details = "get_payment_details"
tool_name Tool.get_cart_details = "get_cart_details"
tool_name Tool.get_subscription_details = "get_subscription_details"
tool_name Tool.get_recovery_case = "get_recovery_case"
tool_name Tool.calculate_recovery_probability = "calculate_recovery_probability"
tool_name Tool.retry_payment = "retry_payment"
tool_name Tool.schedule_retry = "schedule_retry"
tool_name Tool.create_payment_link = "create_payment_link"
tool_name Tool.send_notification = "send_notification"
tool_name Tool.offer_discount = "offer_discount"
tool_name Tool.check_payment_status = "check_payment_status"
tool_name Tool.check_subscription_status = "check_subscription_status"
tool_name Tool.escalate_to_human = "escalate_to_human"
tool_name Tool.pause_recovery = "pause_recovery"

pub data NotificationChannel : Type 0 where
  email sms whatsapp push : NotificationChannel

pub data ToolPermission : Type 0 where
  view_recovery view_customer view_payment retry_payment create_payment_link send_notification
        offer_discount escalate approve_recovery_action pause_recovery :
      ToolPermission

abbrev pub permission_value : ToolPermission → String
permission_value ToolPermission.view_recovery = "VIEW_RECOVERY"
permission_value ToolPermission.view_customer = "VIEW_CUSTOMER"
permission_value ToolPermission.view_payment = "VIEW_PAYMENT"
permission_value ToolPermission.retry_payment = "RETRY_PAYMENT"
permission_value ToolPermission.create_payment_link = "CREATE_PAYMENT_LINK"
permission_value ToolPermission.send_notification = "SEND_NOTIFICATION"
permission_value ToolPermission.offer_discount = "OFFER_DISCOUNT"
permission_value ToolPermission.escalate = "ESCALATE"
permission_value ToolPermission.approve_recovery_action = "APPROVE_RECOVERY_ACTION"
permission_value ToolPermission.pause_recovery = "PAUSE_RECOVERY"

-- `Decimal(text)`
pub data DecimalText : Type 0 where
  decimal : Decimal → DecimalText
  unreadable : String → DecimalText

-- `datetime.fromisoformat(text)`, in UTC
pub data TimeText : Type 0 where
  time : ℕ → TimeText
  unreadable : String → TimeText

-- A key of a payload with its value, where the value has the type of the schemas; a key has one type
-- in every schema.
pub data Field : Type 0 where
  action description subject body_preview provider_payment_id reason : Option String → Field
  attempt_number : Option ℤ → Field
  scheduled_for : TimeText → Field
  channel : NotificationChannel → Field
  discount_percent : DecimalText → Field
  unsupported : String → Field

-- What a validated payload holds; a key that the schema of the tool does not have, or that is null,
-- is `none`.
pub record ToolInput : Type 0 where
  pub action : Option String
  pub attempt_number : Option ℤ
  pub scheduled_for : Option TimeText
  pub description : Option String
  pub channel : Option NotificationChannel
  pub subject : Option String
  pub body_preview : Option String
  pub discount_percent : Option DecimalText
  pub provider_payment_id : Option String
  pub reason : Option String

-- `{}`
abbrev pub empty_input : ToolInput
empty_input = record {
  action = none;
  attempt_number = none;
  scheduled_for = none;
  description = none;
  channel = none;
  subject = none;
  body_preview = none;
  discount_percent = none;
  provider_payment_id = none;
  reason = none;
}
