-- ===== src/Tools/Approvals.antt =====
-- packages/domain/recoverai_domain/tools/approvals.py: an operator lets a held action go, or cancels
-- it.
pub mod Decisions
pub mod Reentry
use revive_x.Prelude.{
  ℕ, Bool, true, false, not, ◌&&◌, ◌==◌, if◌then◌else◌, Option, none, some, String, List, [], ◌∷◌,
  same_id, find,
}
use revive_x.Enums.{
  RecoveryCaseStatus, RecoveryActionStatus, RecoveryActionType, ApprovalStatus, action_value,
}
use revive_x.Errors.{Result, ok, err, tool_validation}
use revive_x.Models.{RecoveryAction, Approval}
use revive_x.Models.Audit.{AuditEventType}
use revive_x.Models.ToolRows.{ToolExecutionResult}
use revive_x.Settings.{RecoverySettings}
use revive_x.ToolWords.{Field}
use revive_x.Session.{Session, Action, pure, raise, lift, gets, ◌>>=◌, ◌>>◌, record_audit}
use revive_x.Transitions.{transition_case}
use revive_x.Tools.Provider.{Environment}
use revive_x.Tools.Idempotency.{fail_idempotent_operation}
use revive_x.Tools.Handlers.Outcome.{only_if}
use revive_x.Tools.Execution.{execute}
use revive_x.Tools.Execution.Guards.{ToolRequest, check, check_merchant_id}
use revive_x.Tools.Execution.Rows.{find_action, update_action, update_approval, has_expired}

abbrev owned_action : ℕ → Option RecoveryAction → Result RecoveryAction
owned_action merchant none = err (tool_validation "ACTION_NOT_FOUND")
owned_action merchant (some a) =
    if a.merchant_id == merchant then ok a else err (tool_validation "ACTION_NOT_FOUND")

-- `_load_action`
unfoldable pub load_action : ℕ → Action RecoveryAction
load_action id s = lift (owned_action s.case.merchant_id (find_action s (some id))) s

abbrev pub is_approval_for : ℕ → ℕ → Approval → Bool
is_approval_for case action a =
    a.recovery_case_id == case && same_id a.recovery_action_id (some action)

-- The last element that passes; rows stand in the order of their creation.
abbrev pub find_last : {A : Type 0} → (A → Bool) → List A → Option A
find_last test [] = none
find_last test (x ∷ xs) = elim (find_last test xs) [
  | some y ↦ some y
  | none ↦ if test x then some x else none
]

abbrev approval_or_error : Option Approval → Result Approval
approval_or_error none = err (tool_validation "APPROVAL_NOT_FOUND")
approval_or_error (some a) = ok a

-- `_pending_approval`, the newest approval of the action
unfoldable pub latest_approval : ℕ → Action Approval
latest_approval action s =
    lift (approval_or_error (find_last (is_approval_for s.case.id action) s.approvals)) s

abbrev pub is_pending : ApprovalStatus → Bool
is_pending ApprovalStatus.pending = true
is_pending _ = false

abbrev pub is_expired : ApprovalStatus → Bool
is_expired ApprovalStatus.expired = true
is_expired _ = false

abbrev pub set_status : ApprovalStatus → Approval → Approval
set_status status a = record a { status = status }

-- `_expire_if_needed`, and the approval after it
unfoldable pub expire_if_needed : Approval → Action Approval
expire_if_needed approval s =
    (if is_pending approval.status && has_expired approval.expires_at s.now
        then update_approval approval.id (set_status ApprovalStatus.expired)
          >> pure (set_status ApprovalStatus.expired approval)
        else pure approval)
      s

-- The statuses of an action that may be approved
abbrev pub is_approvable : RecoveryActionStatus → Bool
is_approvable RecoveryActionStatus.approval_required = true
is_approvable RecoveryActionStatus.approved = true
is_approvable RecoveryActionStatus.pending = true
is_approvable _ = false

abbrev payload_or : Option (List Field) → List Field
payload_or none = []
payload_or (some fields) = fields

-- The request that `approve_action` re-enters the service with.
abbrev pub approved_request : RecoveryAction → Approval → ℕ → ToolRequest
approved_request action approval merchant = record {
  tool_name = action.tool_name;
  action = some (action_value action.action_type);
  payload = payload_or action.payload;
  idempotency_key = action.idempotency_key;
  merchant_id = some merchant;
  granted_permissions = none;
  existing_action_id = some action.id;
  approval_id = some approval.id;
  approved_execution = true;
}

abbrev pub mark_approved : RecoveryAction → Approval → Action (Unit {0})
mark_approved action approval =
    update_approval approval.id (set_status ApprovalStatus.approved)
    >> update_action action.id (λ a. record a { status = RecoveryActionStatus.approved })
    >> record_audit AuditEventType.approval_approved none none

abbrev pub check_decidable : RecoveryAction → Approval → Action (Unit {0})
check_decidable action approval =
    check (is_expired approval.status) (tool_validation "APPROVAL_EXPIRED")
    >> check (not (is_pending approval.status)) (tool_validation "APPROVAL_NOT_PENDING")
    >> check (not (is_approvable action.status)) (tool_validation "ACTION_NOT_APPROVABLE")

-- The service of the approval makes a tool service that is given no queue.
abbrev pub without_queue : Environment → Environment
without_queue env = record env { queue = none }

module _ (env : Environment) (settings : RecoverySettings) where
  abbrev pub execute_approved : RecoveryAction → Approval → Action ToolExecutionResult
  execute_approved action approval s =
      execute (without_queue env) settings (approved_request action approval s.case.merchant_id) s

  -- `approve_action`
  unfoldable pub approve_action : ℕ → Option ℕ → Action ToolExecutionResult
  approve_action action_id merchant =
      check_merchant_id merchant >> load_action action_id >>= λ action.
      latest_approval action.id >>= λ found. expire_if_needed found >>= λ approval.
      check_decidable action approval
      >> mark_approved action approval
      >> execute_approved action approval

abbrev fail_key : RecoveryAction → Action (Unit {0})
fail_key action s =
    fail_idempotent_operation s.case.merchant_id action.idempotency_key (some "APPROVAL_REJECTED") s

abbrev pub is_awaiting : RecoveryCaseStatus → Bool
is_awaiting RecoveryCaseStatus.awaiting_approval = true
is_awaiting _ = false

abbrev pub escalate_if_awaiting : Action (Unit {0})
escalate_if_awaiting s =
    only_if (is_awaiting s.case.status) (transition_case RecoveryCaseStatus.escalated) s

abbrev pub mark_rejected : RecoveryAction → Approval → Action (Unit {0})
mark_rejected action approval =
    update_approval approval.id (set_status ApprovalStatus.rejected)
    >> update_action action.id (λ a. record a { status = RecoveryActionStatus.cancelled })
    >> fail_key action
    >> record_audit AuditEventType.approval_rejected none none
    >> record_audit AuditEventType.action_cancelled none none

-- `reject_action`, and `cancel_action`, which differs in the text of the reason
unfoldable pub reject_action : ℕ → Option ℕ → Action (Unit {0})
reject_action action_id merchant = check_merchant_id merchant >> load_action action_id >>= λ action.
    latest_approval action.id >>= λ found.
    expire_if_needed found >>= λ approval. mark_rejected action approval >> escalate_if_awaiting
