-- ===== src/Policy/Words.antt =====
-- The words of a policy evaluation in packages/domain/recoverai_domain/policy_engine.py: the
-- identifiers of the rules, the texts of their reasons by what they say, and the action sets of
-- policy_types.py.
pub mod Parsing
use revive_x.Prelude.{Bool, true, false, Option, none, some, String, List, str_eq, if◌then◌else◌}
use revive_x.Enums.{RecoveryActionType, RiskLevel, action_value}
use revive_x.Money.{Decimal}

pub data PolicyId : Type 0 where
  closed_action_enum value_threshold high_value_approval_threshold medium_value_approval_threshold
        blocked_action_types automatic_recovery_kill_switch suspicious_source_mismatch
        max_retry_attempts max_discount_percent discount_eligibility daily_discount_budget
        discount_recorded customer_communication_opt_out communication_frequency quiet_hours
        read_only :
      PolicyId

pub data Reason : Type 0 where
  unknown_action human_path high_value medium_value low_value action_blocked kill_switch
        suspicious_or_mismatched retry_limit discount_required discount_too_large
        customer_not_eligible budget_exceeded discount_bounded opted_out frequency_limit
        quiet_hours_now read_only_tool :
      Reason

-- `"suspicious" in reason.lower() or "mismatch" in reason.lower()`: of the texts only "Suspicious
-- or source-mismatch cases cannot run automatic recovery" has either word.
abbrev pub mentions_mismatch : Reason → Bool
mentions_mismatch suspicious_or_mismatched = true
mentions_mismatch _ = false

-- `AUTOMATIC_ACTIONS`
abbrev pub is_automatic : RecoveryActionType → Bool
is_automatic RecoveryActionType.escalate = false
is_automatic RecoveryActionType.do_nothing = false
is_automatic _ = true

-- `{RecoveryActionType.ESCALATE, RecoveryActionType.DO_NOTHING}`
abbrev pub is_human_path : RecoveryActionType → Bool
is_human_path RecoveryActionType.escalate = true
is_human_path RecoveryActionType.do_nothing = true
is_human_path _ = false

-- `COMMUNICATION_ACTIONS`
abbrev pub is_communication : RecoveryActionType → Bool
is_communication RecoveryActionType.send_reminder = true
is_communication RecoveryActionType.send_payment_link = true
is_communication RecoveryActionType.offer_discount = true
is_communication _ = false

-- `RETRY_ACTIONS`
abbrev pub is_retry : RecoveryActionType → Bool
is_retry RecoveryActionType.retry_now = true
is_retry RecoveryActionType.retry_later = true
is_retry _ = false

abbrev pub is_offer_discount : RecoveryActionType → Bool
is_offer_discount RecoveryActionType.offer_discount = true
is_offer_discount _ = false

abbrev pub is_send_reminder : RecoveryActionType → Bool
is_send_reminder RecoveryActionType.send_reminder = true
is_send_reminder _ = false

-- `_parse_action`: `RecoveryActionType(action)`, or `none` where that raises
unfoldable pub parse_action : String → Option RecoveryActionType
parse_action s =
    if str_eq s "RETRY_NOW"
    then some RecoveryActionType.retry_now
    else if str_eq s "RETRY_LATER"
    then some RecoveryActionType.retry_later
    else if str_eq s "SEND_PAYMENT_LINK"
    then some RecoveryActionType.send_payment_link
    else if str_eq s "SEND_REMINDER"
    then some RecoveryActionType.send_reminder
    else if str_eq s "OFFER_DISCOUNT"
    then some RecoveryActionType.offer_discount
    else if str_eq s "ESCALATE"
    then some RecoveryActionType.escalate
    else if str_eq s "DO_NOTHING"
    then some RecoveryActionType.do_nothing
    else none

pub record ProposedAction : Type 0 where
  pub action_type : String
  pub discount_percent : Option Decimal
  pub discount_amount : Option Decimal

abbrev pub plain_action : RecoveryActionType → ProposedAction
plain_action a = record {
  action_type = action_value a;
  discount_percent = none;
  discount_amount = none;
}

pub record PolicyEvaluationResult : Type 0 where
  pub allowed : Bool
  pub requires_approval : Bool
  pub risk_level : RiskLevel
  pub reason : List Reason
  pub policy_ids : List PolicyId
