-- ===== src/Tools/Execution/Guards.antt =====
-- packages/domain/recoverai_domain/tools/execution.py: what is asked of a tool and what is checked
-- before it runs.
use revive_x.Prelude.{
  ℕ, Bool, true, false, not, ◌&&◌, ◌==◌, if◌then◌else◌, Option, none, some, String, List, str_eq,
  exists_in, find,
}
use revive_x.Enums.{RecoveryCaseStatus, RecoveryActionType, action_value}
use revive_x.Errors.{Error, Result, ok, err, tool_validation, ◌>>=◌}
use revive_x.Models.{Merchant, ActionKey}
use revive_x.ToolWords.{Tool, tool_name, permission_value, Field}
use revive_x.Session.{Session, Action, pure, raise}
use revive_x.StateMachine.{is_terminal}
use revive_x.Tools.Permissions.{tool_for_action, action_for_tool, parse_action_type}
use revive_x.Tools.Registry.{ToolSpec, require_tool}

-- The arguments of `execute` that its decisions use.
pub record ToolRequest : Type 0 where
  pub tool_name : Option String
  pub action : Option String
  pub payload : List Field
  pub idempotency_key : ActionKey
  pub merchant_id : Option ℕ
  pub granted_permissions : Option (List String)
  pub existing_action_id : Option ℕ
  pub approval_id : Option ℕ
  pub approved_execution : Bool

-- `SIDE_EFFECT_EXECUTE_STATES`
abbrev pub may_execute : RecoveryCaseStatus → Bool
may_execute RecoveryCaseStatus.policy_check = true
may_execute RecoveryCaseStatus.awaiting_approval = true
may_execute RecoveryCaseStatus.executing = true
may_execute RecoveryCaseStatus.action_completed = true
may_execute RecoveryCaseStatus.retry_scheduled = true
may_execute RecoveryCaseStatus.not_recovered = true
may_execute RecoveryCaseStatus.failed = true
may_execute _ = false

abbrev pub is_given : Option String → Bool
is_given none = false
is_given (some text) = not (str_eq text "")

abbrev known_action : Result RecoveryActionType → Result (Unit {0})
known_action (ok action) = ok tt
known_action (err e) = err (tool_validation "UNKNOWN_ACTION")

abbrev mapped_tool : Option Tool → Result ToolSpec
mapped_tool none = err (tool_validation "UNKNOWN_ACTION")
mapped_tool (some tool) = require_tool (tool_name tool)

abbrev tool_of_action : Option String → Result ToolSpec
tool_of_action none = err (tool_validation "UNKNOWN_TOOL")
tool_of_action (some action) =
    if str_eq action ""
    then err (tool_validation "UNKNOWN_TOOL")
    else known_action (parse_action_type action) >>= λ _. mapped_tool (tool_for_action action)

-- `_resolve_tool`
unfoldable pub resolve_tool : Option String → Option String → Result ToolSpec
resolve_tool none action = tool_of_action action
resolve_tool (some name) action =
    if str_eq name "" then tool_of_action action else require_tool name

abbrev pub check : Bool → Error → Action (Unit {0})
check refused e = if refused then raise e else pure tt

abbrev pub is_other_merchant : Option ℕ → ℕ → Bool
is_other_merchant none merchant = false
is_other_merchant (some id) merchant = not (merchant == id)

abbrev pub find_merchant : Session → Option Merchant
find_merchant s = find (λ (m : Merchant). m.id == s.case.merchant_id) s.merchants

abbrev pub is_missing : Option Merchant → Bool
is_missing none = true
is_missing (some m) = false

-- `merchant_id is not None and case.merchant_id != merchant_id`
abbrev pub check_merchant_id : Option ℕ → Action (Unit {0})
check_merchant_id id s =
    check (is_other_merchant id s.case.merchant_id) (tool_validation "MERCHANT_MISMATCH") s

-- `_assert_merchant`
unfoldable pub assert_merchant : Option ℕ → Action (Unit {0})
assert_merchant id s =
    (if is_other_merchant id s.case.merchant_id
        then raise (tool_validation "MERCHANT_MISMATCH")
        else check (is_missing (find_merchant s)) (tool_validation "MISSING_MERCHANT"))
      s

abbrev pub lacks : Option (List String) → ToolSpec → Bool
lacks none spec = false
lacks (some granted) spec =
    not (exists_in (str_eq (permission_value spec.required_permission)) granted)

abbrev pub check_permission : Option (List String) → ToolSpec → Action (Unit {0})
check_permission granted spec = check (lacks granted spec) (tool_validation "PERMISSION_DENIED")

abbrev pub check_terminal : Action (Unit {0})
check_terminal s = check (is_terminal s.case.status) (tool_validation "CASE_TERMINAL") s

abbrev pub check_state : ToolSpec → Action (Unit {0})
check_state spec s =
    check (spec.side_effect && not (may_execute s.case.status))
      (tool_validation "INVALID_CASE_STATE") s

abbrev action_or_name : Option RecoveryActionType → Option String → Tool → String
action_or_name (some action) given tool = action_value action
action_or_name none none tool = tool_name tool
action_or_name none (some given) tool = if str_eq given "" then tool_name tool else given

-- `str(action_for_tool(spec.name) or action or spec.name)`
abbrev pub hashed_action : Option String → Tool → String
hashed_action given tool = action_or_name (action_for_tool tool) given tool
