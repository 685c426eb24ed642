-- ===== src/Enums.antt =====
-- packages/db/recoverai_db/enums.py and the enum of
-- packages/domain/recoverai_domain/verification_types.py: the closed sets of words that the rows
-- and the services use.
use revive_x.Prelude.{String}

pub data PaymentStatus : Type 0 where
  created authorized captured failed refunded partially_refunded cancelled unknown : PaymentStatus

pub data RecoveryCaseStatus : Type 0 where
  detected triaged investigating diagnosed scoring strategy_selected policy_check awaiting_approval
        executing action_completed verifying recovered not_recovered retry_scheduled escalated
        stopped failed :
      RecoveryCaseStatus

pub data RecoveryActionType : Type 0 where
  retry_now retry_later send_payment_link send_reminder offer_discount escalate do_nothing :
      RecoveryActionType

pub data RecoveryActionStatus : Type 0 where
  pending planned approval_required approved executing succeeded completed failed blocked
        cancelled :
      RecoveryActionStatus

pub data RiskLevel : Type 0 where
  green yellow red : RiskLevel

pub data ApprovalStatus : Type 0 where
  pending approved rejected expired cancelled : ApprovalStatus

pub data WebhookEventStatus : Type 0 where
  received processing processed failed dead_letter : WebhookEventStatus

pub data NotificationStatus : Type 0 where
  pending sent delivered failed cancelled : NotificationStatus

pub data MismatchReason : Type 0 where
  merchant_mismatch customer_mismatch order_mismatch payment_mismatch amount_mismatch
        currency_mismatch outside_recovery_window already_counted duplicate_event not_captured
        unknown :
      MismatchReason

-- The values of the action type, as they stand in requests and in a merchant's settings.
abbrev pub action_value : RecoveryActionType → String
action_value RecoveryActionType.retry_now = "RETRY_NOW"
action_value RecoveryActionType.retry_later = "RETRY_LATER"
action_value RecoveryActionType.send_payment_link = "SEND_PAYMENT_LINK"
action_value RecoveryActionType.send_reminder = "SEND_REMINDER"
action_value RecoveryActionType.offer_discount = "OFFER_DISCOUNT"
action_value RecoveryActionType.escalate = "ESCALATE"
action_value RecoveryActionType.do_nothing = "DO_NOTHING"
