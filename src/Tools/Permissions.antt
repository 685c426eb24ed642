-- ===== src/Tools/Permissions.antt =====
-- packages/domain/recoverai_domain/tools/permissions.py: which tool performs which action.
use revive_x.Prelude.{Option, none, some, String}
use revive_x.Enums.{RecoveryActionType}
use revive_x.Errors.{Result, ok, err, value_error}
use revive_x.ToolWords.{Tool}
use revive_x.Policy.Words.{parse_action}

-- `TOOL_BY_ACTION`
abbrev pub tool_by_action : RecoveryActionType → Tool
tool_by_action RecoveryActionType.retry_now = Tool.retry_payment
tool_by_action RecoveryActionType.retry_later = Tool.schedule_retry
tool_by_action RecoveryActionType.send_payment_link = Tool.create_payment_link
tool_by_action RecoveryActionType.send_reminder = Tool.send_notification
tool_by_action RecoveryActionType.offer_discount = Tool.offer_discount
tool_by_action RecoveryActionType.escalate = Tool.escalate_to_human
tool_by_action RecoveryActionType.do_nothing = Tool.pause_recovery

-- `action_for_tool`
abbrev pub action_for_tool : Tool → Option RecoveryActionType
action_for_tool Tool.retry_payment = some RecoveryActionType.retry_now
action_for_tool Tool.schedule_retry = some RecoveryActionType.retry_later
action_for_tool Tool.create_payment_link = some RecoveryActionType.send_payment_link
action_for_tool Tool.send_notification = some RecoveryActionType.send_reminder
action_for_tool Tool.offer_discount = some RecoveryActionType.offer_discount
action_for_tool Tool.escalate_to_human = some RecoveryActionType.escalate
action_for_tool Tool.pause_recovery = some RecoveryActionType.do_nothing
action_for_tool _ = none

abbrev pub parsed_tool : Option RecoveryActionType → Option Tool
parsed_tool none = none
parsed_tool (some action) = some (tool_by_action action)

-- `tool_for_action`
unfoldable pub tool_for_action : String → Option Tool
tool_for_action action = parsed_tool (parse_action action)

abbrev parsed_or_error : Option RecoveryActionType → Result RecoveryActionType
parsed_or_error none = err value_error
parsed_or_error (some action) = ok action

-- `parse_action_type`
unfoldable pub parse_action_type : String → Result RecoveryActionType
parse_action_type value = parsed_or_error (parse_action value)
