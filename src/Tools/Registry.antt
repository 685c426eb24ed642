-- ===== src/Tools/Registry.antt =====
-- packages/domain/recoverai_domain/tools/registry.py: what each tool may do and what it needs.
pub mod Names
use revive_x.Prelude.{ℕ, Bool, true, false, Option, none, some, String, List, [], ◌∷◌, str_eq, find}
use revive_x.Enums.{RiskLevel}
use revive_x.Errors.{Result, ok, err, tool_validation}
use revive_x.ToolWords.{Tool, tool_name, ToolPermission}

-- `ToolSpec` of schemas.py, less the texts and the schemas
pub record ToolSpec : Type 0 where
  pub name : Tool
  pub version : String
  pub risk_level : RiskLevel
  pub required_permission : ToolPermission
  pub timeout_seconds : ℕ
  pub side_effect : Bool

abbrev spec_of : Tool → RiskLevel → ToolPermission → ℕ → Bool → ToolSpec
spec_of name risk permission timeout effect = record {
  name = name;
  version = "v1";
  risk_level = risk;
  required_permission = permission;
  timeout_seconds = timeout;
  side_effect = effect;
}

-- `TOOL_SPECS`
unfoldable pub tool_specs : Tool → ToolSpec
tool_specs Tool.get_customer_history =
    spec_of Tool.get_customer_history RiskLevel.green ToolPermission.view_customer 10 false
tool_specs Tool.get_payment_details =
    spec_of Tool.get_payment_details RiskLevel.green ToolPermission.view_payment 10 false
tool_specs Tool.get_cart_details =
    spec_of Tool.get_cart_details RiskLevel.green ToolPermission.view_recovery 10 false
tool_specs Tool.get_subscription_details =
    spec_of Tool.get_subscription_details RiskLevel.green ToolPermission.view_recovery 10 false
tool_specs Tool.get_recovery_case =
    spec_of Tool.get_recovery_case RiskLevel.green ToolPermission.view_recovery 10 false
tool_specs Tool.calculate_recovery_probability =
    spec_of Tool.calculate_recovery_probability RiskLevel.green ToolPermission.view_recovery 10
      false
tool_specs Tool.retry_payment =
    spec_of Tool.retry_payment RiskLevel.yellow ToolPermission.retry_payment 30 true
tool_specs Tool.schedule_retry =
    spec_of Tool.schedule_retry RiskLevel.green ToolPermission.retry_payment 10 true
tool_specs Tool.create_payment_link =
    spec_of Tool.create_payment_link RiskLevel.yellow ToolPermission.create_payment_link 30 true
tool_specs Tool.send_notification =
    spec_of Tool.send_notification RiskLevel.green ToolPermission.send_notification 15 true
tool_specs Tool.offer_discount =
    spec_of Tool.offer_discount RiskLevel.yellow ToolPermission.offer_discount 15 true
tool_specs Tool.check_payment_status =
    spec_of Tool.check_payment_status RiskLevel.green ToolPermission.view_payment 15 false
tool_specs Tool.check_subscription_status =
    spec_of Tool.check_subscription_status RiskLevel.green ToolPermission.view_recovery 10 false
tool_specs Tool.escalate_to_human =
    spec_of Tool.escalate_to_human RiskLevel.green ToolPermission.escalate 10 true
tool_specs Tool.pause_recovery =
    spec_of Tool.pause_recovery RiskLevel.green ToolPermission.pause_recovery 10 true

-- `TOOL_SPECS.keys()`
abbrev pub all_tools : List Tool
all_tools =
    Tool.get_customer_history ∷ Tool.get_payment_details ∷ Tool.get_cart_details
    ∷ Tool.get_subscription_details ∷ Tool.get_recovery_case ∷ Tool.calculate_recovery_probability
    ∷ Tool.retry_payment ∷ Tool.schedule_retry ∷ Tool.create_payment_link ∷ Tool.send_notification
    ∷ Tool.offer_discount ∷ Tool.check_payment_status ∷ Tool.check_subscription_status
    ∷ Tool.escalate_to_human ∷ Tool.pause_recovery ∷ []

abbrev spec_or_error : Option Tool → Result ToolSpec
spec_or_error none = err (tool_validation "UNKNOWN_TOOL")
spec_or_error (some tool) = ok (tool_specs tool)

-- `ToolRegistry.get` and `require`
unfoldable pub require_tool : String → Result ToolSpec
require_tool name = spec_or_error (find (λ tool. str_eq (tool_name tool) name) all_tools)
