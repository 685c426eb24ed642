-- ===== src/Models/Audit.antt =====
-- packages/domain/recoverai_domain/audit.py and the audit row of audit_write.py, less the texts
-- that are only shown to an operator (summary, metadata, correlation id).
use revive_x.Prelude.{ℕ, Option}
use revive_x.Enums.{PaymentStatus, RecoveryCaseStatus, WebhookEventStatus}

pub data AuditEventType : Type 0 where
  provider_event_received duplicate_event_ignored payment_updated recovery_case_created
        recovery_case_attached provider_event_processed provider_event_failed unknown_event_ignored
        case_triaged case_investigating case_diagnosed recovery_scoring_started
        recovery_strategy_selected recovery_policy_checked recovery_execution_started
        recovery_action_completed recovery_verification_started recovery_verified
        recovery_verification_failed recovery_amount_updated state_transition_rejected
        recovery_case_stopped recovery_case_escalated policy_evaluated action_planned
        approval_requested approval_approved approval_rejected action_blocked action_started
        action_succeeded action_failed action_cancelled erv_optimization_recorded agent_run_recorded
        agent_limit_exceeded agent_fallback_used :
      AuditEventType

-- What `previous_state` and `new_state` spell: the status of a case, a payment or a provider event,
-- or an amount in cents.
pub data AuditState : Type 0 where
  case_status : RecoveryCaseStatus → AuditState
  payment_status : PaymentStatus → AuditState
  event_status : WebhookEventStatus → AuditState
  amount : ℕ → AuditState

pub record AuditEvent : Type 0 where
  pub merchant_id : ℕ
  pub case_id : Option ℕ
  pub event_type : AuditEventType
  pub previous_state : Option AuditState
  pub new_state : Option AuditState
