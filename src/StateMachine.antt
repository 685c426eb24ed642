-- ===== src/StateMachine.antt =====
-- packages/domain/recoverai_domain/state_machine.py: the table of legal status changes of a
-- recovery case. Statuses are values of the enum here, so `coerce_status` is the identity.
pub mod Graph
pub mod Gates
use revive_x.Prelude.{Bool, true, false, List, [], ◌∷◌, if◌then◌else◌}
use revive_x.Enums.{RecoveryCaseStatus}
use revive_x.Errors.{Result, ok, err, invalid_transition, ◌>>=◌}
use revive_x.Models.Audit.{AuditEventType}

-- `TERMINAL_RECOVERY_STATUSES`
abbrev pub is_terminal : RecoveryCaseStatus → Bool
is_terminal RecoveryCaseStatus.recovered = true
is_terminal RecoveryCaseStatus.stopped = true
is_terminal _ = false

-- `STARTING_STATUS`
abbrev pub starting_status : RecoveryCaseStatus
starting_status = RecoveryCaseStatus.detected

-- `(source, target) in LEGAL_TRANSITIONS`
unfoldable pub can_transition : RecoveryCaseStatus → RecoveryCaseStatus → Bool
can_transition RecoveryCaseStatus.detected RecoveryCaseStatus.triaged = true
can_transition RecoveryCaseStatus.triaged RecoveryCaseStatus.investigating = true
can_transition RecoveryCaseStatus.triaged RecoveryCaseStatus.scoring = true
can_transition RecoveryCaseStatus.investigating RecoveryCaseStatus.diagnosed = true
can_transition RecoveryCaseStatus.diagnosed RecoveryCaseStatus.scoring = true
can_transition RecoveryCaseStatus.scoring RecoveryCaseStatus.strategy_selected = true
can_transition RecoveryCaseStatus.strategy_selected RecoveryCaseStatus.policy_check = true
can_transition RecoveryCaseStatus.policy_check RecoveryCaseStatus.executing = true
can_transition RecoveryCaseStatus.policy_check RecoveryCaseStatus.stopped = true
can_transition RecoveryCaseStatus.policy_check RecoveryCaseStatus.escalated = true
can_transition RecoveryCaseStatus.policy_check RecoveryCaseStatus.awaiting_approval = true
can_transition RecoveryCaseStatus.policy_check RecoveryCaseStatus.retry_scheduled = true
can_transition RecoveryCaseStatus.awaiting_approval RecoveryCaseStatus.executing = true
can_transition RecoveryCaseStatus.awaiting_approval RecoveryCaseStatus.stopped = true
can_transition RecoveryCaseStatus.awaiting_approval RecoveryCaseStatus.escalated = true
can_transition RecoveryCaseStatus.awaiting_approval RecoveryCaseStatus.policy_check = true
can_transition RecoveryCaseStatus.executing RecoveryCaseStatus.action_completed = true
can_transition RecoveryCaseStatus.executing RecoveryCaseStatus.failed = true
can_transition RecoveryCaseStatus.action_completed RecoveryCaseStatus.verifying = true
can_transition RecoveryCaseStatus.verifying RecoveryCaseStatus.recovered = true
can_transition RecoveryCaseStatus.verifying RecoveryCaseStatus.not_recovered = true
can_transition RecoveryCaseStatus.verifying RecoveryCaseStatus.retry_scheduled = true
can_transition RecoveryCaseStatus.not_recovered RecoveryCaseStatus.retry_scheduled = true
can_transition RecoveryCaseStatus.not_recovered RecoveryCaseStatus.escalated = true
can_transition RecoveryCaseStatus.not_recovered RecoveryCaseStatus.stopped = true
can_transition RecoveryCaseStatus.failed RecoveryCaseStatus.retry_scheduled = true
can_transition RecoveryCaseStatus.failed RecoveryCaseStatus.escalated = true
can_transition RecoveryCaseStatus.failed RecoveryCaseStatus.stopped = true
can_transition RecoveryCaseStatus.retry_scheduled RecoveryCaseStatus.scoring = true
can_transition RecoveryCaseStatus.escalated RecoveryCaseStatus.stopped = true
can_transition _ _ = false

-- `assert_legal_transition`, which returns the target when it does not raise
unfoldable pub assert_legal_transition :
    RecoveryCaseStatus → RecoveryCaseStatus → Result RecoveryCaseStatus
assert_legal_transition source target =
    if can_transition source target then ok target else err (invalid_transition source target)

-- The checks of a whole history of targets, each from where the one before it led.
unfoldable pub follow : RecoveryCaseStatus → List RecoveryCaseStatus → Result RecoveryCaseStatus
follow source [] = ok source
follow source (target ∷ rest) =
    assert_legal_transition source target >>= λ reached. follow reached rest

-- `AUDIT_TYPE_FOR_TARGET.get(target, AuditEventType.PAYMENT_UPDATED)`
abbrev pub audit_type_for_target : RecoveryCaseStatus → AuditEventType
audit_type_for_target RecoveryCaseStatus.detected = AuditEventType.payment_updated
audit_type_for_target RecoveryCaseStatus.triaged = AuditEventType.case_triaged
audit_type_for_target RecoveryCaseStatus.investigating = AuditEventType.case_investigating
audit_type_for_target RecoveryCaseStatus.diagnosed = AuditEventType.case_diagnosed
audit_type_for_target RecoveryCaseStatus.scoring = AuditEventType.recovery_scoring_started
audit_type_for_target RecoveryCaseStatus.strategy_selected =
    AuditEventType.recovery_strategy_selected
audit_type_for_target RecoveryCaseStatus.policy_check = AuditEventType.recovery_policy_checked
audit_type_for_target RecoveryCaseStatus.awaiting_approval = AuditEventType.approval_requested
audit_type_for_target RecoveryCaseStatus.executing = AuditEventType.recovery_execution_started
audit_type_for_target RecoveryCaseStatus.action_completed = AuditEventType.recovery_action_completed
audit_type_for_target RecoveryCaseStatus.verifying = AuditEventType.recovery_verification_started
audit_type_for_target RecoveryCaseStatus.recovered = AuditEventType.recovery_verified
audit_type_for_target RecoveryCaseStatus.not_recovered = AuditEventType.recovery_verification_failed
audit_type_for_target RecoveryCaseStatus.stopped = AuditEventType.recovery_case_stopped
audit_type_for_target RecoveryCaseStatus.escalated = AuditEventType.recovery_case_escalated
audit_type_for_target RecoveryCaseStatus.failed = AuditEventType.recovery_execution_started
audit_type_for_target RecoveryCaseStatus.retry_scheduled =
    AuditEventType.recovery_verification_failed
