-- ===== src/Tools/Keeps/Runs.antt =====
-- packages/domain/recoverai_domain/tools/execution.py: what `_run_after_idempotency` may do to the
-- session, on every branch.
use revive_x.Prelude.{ℕ, refl, Bool, not, ◌&&◌, ◌==◌, Option, none, some}
use revive_x.Enums.{RecoveryCaseStatus, RecoveryActionType, RecoveryActionStatus, RiskLevel}
use revive_x.Errors.{Error, tool_validation}
use revive_x.Models.{RecoveryAction, Approval, ActionKey}
use revive_x.Models.Audit.{AuditEventType}
use revive_x.Settings.{RecoverySettings}
use revive_x.ToolWords.{Tool, ToolInput}
use revive_x.Session.{Session, Action, pure, raise, lift, ◌>>◌, record_audit}
use revive_x.Session.Change.{Within, Within-if, Within-then, Within-bind, Within-record_audit}
use revive_x.Policy.Words.{ProposedAction, PolicyEvaluationResult}
use revive_x.Policy.Engine.{PolicyContext}
use revive_x.Policy.Context.{build_policy_context}
use revive_x.Policy.Context.Facts.{Within-build_policy_context, Within-evaluate_and_persist}
use revive_x.Tools.Permissions.{action_for_tool}
use revive_x.Tools.Registry.{ToolSpec}
use revive_x.Tools.Provider.{Environment}
use revive_x.Tools.Handlers.{handlers}
use revive_x.Tools.Handlers.Results.{HandlerResult}
use revive_x.Tools.Handlers.Outcome.{
  only_if, is_policy_check, is_before_execution, is_executing, apply_case_outcome,
}
use revive_x.Tools.Execution.Guards.{ToolRequest, check, check_state}
use revive_x.Tools.Execution.Rows.{
  ActionMetadata, upsert_with, upsert_action, first_of, find_action, action_of_key, check_approval,
  find_approval, assert_usable_approval, expire, is_approved, has_expired, is_stale_action,
  record_handled, insert_action, with_metadata, new_action,
}
use revive_x.Tools.Execution.Run.{
  proposed_for, evaluate_tool, log_blocked, log_held, hold, on_blocked, held_metadata,
  create_approval, await_if_checked, on_approval_required, starts_execution, start_execution,
  start_mapped, start_action, Subject, handler_context, on_success, on_failure, fail_if_executing,
  follow_handled, run_tool, follow_policy, run_after_idempotency,
}
use revive_x.Tools.Keeps.Tables.{
  IsToolRelation, service_laws, Within-only_if, on_rows, PaymentsKept-refl,
}
use revive_x.Tools.Keeps.Handlers.{Within-handlers, Within-outcome}

module _ {R : Session → Session → Type 0} (laws : IsToolRelation R) where
  Within-pure : {A : Type 0} (a : A) → Within R (pure a)
  Within-pure a s = laws.on_same s

  Within-returns :
      {A : Type 0} (m : Action (Unit {0})) (a : A) → Within R m → Within R (m >> pure a)
  Within-returns m a p = Within-then (service_laws laws) m (pure a) p (Within-pure a)

  audit : (type : AuditEventType) → Within R (record_audit type none none)
  audit type = Within-record_audit (service_laws laws) type none none

  pub Within-check : (b : Bool) (e : Error) → Within R (check b e)
  Within-check b e =
      Within-if (service_laws laws) b (raise e) (pure tt) (λ s. laws.on_same s)
        (λ s. laws.on_same s)

  Within-upsert_with :
      (action : RecoveryActionType) (key : ActionKey) (status : RecoveryActionStatus)
      (risk : RiskLevel) (meta : Option ActionMetadata) (existing : Option RecoveryAction)
      → Within R (upsert_with action key status risk meta existing)
  Within-upsert_with action key status risk meta none s =
      laws.on_tables s
        (insert_action (with_metadata meta (new_action action key status risk s)) s).1
        (refl, (_, refl), refl, PaymentsKept-refl s.payments, refl, refl)
  Within-upsert_with action key status risk meta (some existing) s =
      on_rows laws s _ refl refl refl refl refl refl

  Within-upsert :
      (action : RecoveryActionType) (key : ActionKey) (status : RecoveryActionStatus)
      (risk : RiskLevel) (id : Option ℕ) (meta : Option ActionMetadata)
      → Within R (upsert_action action key status risk id meta)
  unfolding upsert_action
  Within-upsert action key status risk id meta s =
      Within-upsert_with action key status risk meta
        (first_of (find_action s id) (action_of_key s key)) s

  Within-expire : (id : ℕ) (e : Error) → Within R (expire id >> raise {A = Unit {0}} e)
  Within-expire id e s = on_rows laws s _ refl refl refl refl refl refl

  Within-check_approval :
      (action : Option ℕ) (approval : Option Approval) → Within R (check_approval action approval)
  Within-check_approval action none s = laws.on_same s
  Within-check_approval action (some a) s =
      Within-if (service_laws laws) (not (a.recovery_case_id == s.case.id)) (raise _) _
        (λ t. laws.on_same t)
        (Within-if (service_laws laws) (not (is_approved a.status)) (raise _) _
          (λ t. laws.on_same t)
          (Within-if (service_laws laws) (has_expired a.expires_at s.now) _ _
            (Within-expire a.id (tool_validation "APPROVAL_EXPIRED"))
            (Within-check (is_stale_action (find_action s action) s.case)
              (tool_validation "STALE_APPROVAL"))))
        s

  Within-assert_usable :
      (approval action : Option ℕ) → Within R (assert_usable_approval approval action)
  unfolding assert_usable_approval
  Within-assert_usable none action s = laws.on_same s
  Within-assert_usable (some id) action s = Within-check_approval action (find_approval s id) s

  Within-log_blocked :
      (spec : ToolSpec) (e : PolicyEvaluationResult) (row : RecoveryAction)
      → Within R (log_blocked spec e row)
  Within-log_blocked spec e row s =
      Within-record_audit (service_laws laws) AuditEventType.action_blocked none none s

  Within-blocked :
      (spec : ToolSpec) (request : ToolRequest) (action : RecoveryActionType)
      (e : PolicyEvaluationResult)
      → Within R (on_blocked spec request action e)
  Within-blocked spec request action e =
      Within-bind (service_laws laws)
        (upsert_action action request.idempotency_key RecoveryActionStatus.blocked e.risk_level
          request.existing_action_id none)
        (log_blocked spec e) (Within-upsert action _ _ _ _ _) (Within-log_blocked spec e)

  Within-await : Within R await_if_checked
  Within-await s =
      Within-only_if laws (is_policy_check s.case.status) _
        (laws.on_target RecoveryCaseStatus.awaiting_approval refl) s

  Within-create :
      (settings : RecoverySettings) (row : RecoveryAction) → Within R (create_approval settings row)
  Within-create settings row s = on_rows laws s _ refl refl refl refl refl refl

  Within-log_held :
      (spec : ToolSpec) (e : PolicyEvaluationResult) (row : RecoveryAction) (approval : ℕ)
      → Within R (log_held spec e row approval)
  Within-log_held spec e row approval =
      Within-returns (await_if_checked >> record_audit AuditEventType.approval_requested none none)
        _
        (Within-then (service_laws laws) await_if_checked
          (record_audit AuditEventType.approval_requested none none) Within-await (audit _))

  Within-approval_required :
      (settings : RecoverySettings) (spec : ToolSpec) (input : ToolInput) (request : ToolRequest)
      (action : RecoveryActionType) (e : PolicyEvaluationResult)
      → Within R (on_approval_required settings spec input request action e)
  Within-approval_required settings spec input request action e =
      Within-bind (service_laws laws)
        (upsert_action action request.idempotency_key RecoveryActionStatus.approval_required
          e.risk_level request.existing_action_id (some (held_metadata spec input)))
        (hold settings spec e) (Within-upsert action _ _ _ _ _)
        (λ row.
          Within-bind (service_laws laws) (create_approval settings row) (log_held spec e row)
            (Within-create settings row) (Within-log_held spec e row))

  Within-start_execution : (tool : Tool) → Within R (start_execution tool)
  Within-start_execution tool s =
      Within-only_if laws (starts_execution tool && is_before_execution s.case.status) _
        (laws.on_target RecoveryCaseStatus.executing refl) s

  Within-start_mapped :
      (spec : ToolSpec) (input : ToolInput) (request : ToolRequest) (e : PolicyEvaluationResult)
      (mapped : Option RecoveryActionType)
      → Within R (start_mapped spec input request e mapped)
  Within-start_mapped spec input request e none s = laws.on_same s
  Within-start_mapped spec input request e (some action) s =
      Within-bind (service_laws laws)
        (upsert_action action request.idempotency_key RecoveryActionStatus.executing e.risk_level
          request.existing_action_id (some (held_metadata spec input)))
        _ (Within-upsert action _ _ _ _ _)
        (λ row.
          Within-returns
            (start_execution spec.name >> record_audit AuditEventType.action_started none none) _
            (Within-then (service_laws laws) (start_execution spec.name)
              (record_audit AuditEventType.action_started none none)
              (Within-start_execution spec.name) (audit _)))
        s

  Within-start :
      (spec : ToolSpec) (input : ToolInput) (request : ToolRequest) (e : PolicyEvaluationResult)
      (mapped : Option RecoveryActionType)
      → Within R (start_action spec input request e mapped)
  Within-start spec input request e mapped =
      Within-if (service_laws laws) spec.side_effect (start_mapped spec input request e mapped)
        (pure none) (Within-start_mapped spec input request e mapped) (λ s. laws.on_same s)

  Within-success :
      (spec : ToolSpec) (request : ToolRequest) (e : PolicyEvaluationResult)
      (row : Option RecoveryAction) (handled : HandlerResult)
      → Within R (on_success spec request e row handled)
  Within-success spec request e row handled =
      let applied = apply_case_outcome handled.case_status in
      let logged =
        only_if spec.side_effect (record_audit AuditEventType.action_succeeded none none) in
      Within-returns (applied >> logged) _ (
        Within-then (service_laws laws) applied logged (Within-outcome laws handled.case_status)
          (Within-only_if laws spec.side_effect _ (audit _)))

  Within-fail : (spec : ToolSpec) → Within R (fail_if_executing spec)
  Within-fail spec s =
      Within-only_if laws (spec.side_effect && is_executing s.case.status) _
        (laws.on_target RecoveryCaseStatus.failed refl) s

  Within-failure :
      (spec : ToolSpec) (e : PolicyEvaluationResult) (row : Option RecoveryAction)
      (handled : HandlerResult)
      → Within R (on_failure spec e row handled)
  Within-failure spec e row handled =
      Within-returns (fail_if_executing spec >> record_audit AuditEventType.action_failed none none)
        _
        (Within-then (service_laws laws) (fail_if_executing spec)
          (record_audit AuditEventType.action_failed none none) (Within-fail spec) (audit _))

  Within-handled :
      (spec : ToolSpec) (request : ToolRequest) (e : PolicyEvaluationResult)
      (row : Option RecoveryAction) (handled : HandlerResult)
      → Within R (follow_handled spec request e row handled)
  Within-handled spec request e row handled =
      Within-if (service_laws laws) handled.success (on_success spec request e row handled)
        (on_failure spec e row handled) (Within-success spec request e row handled)
        (Within-failure spec e row handled)

  Within-record_handled :
      (handled : HandlerResult) (row : Option RecoveryAction)
      → Within R (record_handled handled row)
  Within-record_handled handled none s = laws.on_same s
  Within-record_handled handled (some row) s = on_rows laws s _ refl refl refl refl refl refl

  Within-evaluate :
      (ctx : PolicyContext) (mapped : Option RecoveryActionType) (plan : ProposedAction)
      → Within R (evaluate_tool ctx mapped plan)
  Within-evaluate ctx none plan s = laws.on_same s
  Within-evaluate ctx (some action) plan s =
      Within-evaluate_and_persist (service_laws laws) ctx plan s

  module _ (env : Environment) where
    Within-run_tool :
        (spec : ToolSpec) (input : ToolInput) (request : ToolRequest) (subject : Subject)
        (e : PolicyEvaluationResult) (mapped : Option RecoveryActionType)
        → Within R (run_tool env spec input request subject e mapped)
    Within-run_tool spec input request subject e mapped =
        let approved =
          only_if request.approved_execution
            (assert_usable_approval request.approval_id request.existing_action_id) in
        Within-bind (service_laws laws) (approved >> start_action spec input request e mapped) _
          (Within-then (service_laws laws) approved (start_action spec input request e mapped)
            (Within-only_if laws request.approved_execution _
              (Within-assert_usable request.approval_id request.existing_action_id))
            (Within-start spec input request e mapped))
          (λ row.
            Within-bind (service_laws laws)
              (handlers env spec.name (handler_context subject input request row)) _
              (Within-handlers laws env spec.name (handler_context subject input request row))
              (λ handled.
                Within-then (service_laws laws) (record_handled handled row)
                  (follow_handled spec request e row handled) (Within-record_handled handled row)
                  (Within-handled spec request e row handled)))

    Within-policy :
        (settings : RecoverySettings) (spec : ToolSpec) (input : ToolInput) (request : ToolRequest)
        (subject : Subject) (e : PolicyEvaluationResult) (mapped : Option RecoveryActionType)
        → Within R (follow_policy env settings spec input request subject e mapped)
    Within-policy settings spec input request subject e none s =
        Within-run_tool spec input request subject e none s
    Within-policy settings spec input request subject e (some action) s =
        Within-if (service_laws laws) (not e.allowed) (on_blocked spec request action e) _
          (Within-blocked spec request action e)
          (Within-if (service_laws laws) (e.requires_approval && not request.approved_execution)
            (on_approval_required settings spec input request action e)
            (run_tool env spec input request subject e (some action))
            (Within-approval_required settings spec input request action e)
            (Within-run_tool spec input request subject e (some action)))
          s

    Within-check_state : (spec : ToolSpec) → Within R (check_state spec)
    Within-check_state spec s = Within-check _ (tool_validation "INVALID_CASE_STATE") s

    pub Within-run_after :
        (settings : RecoverySettings) (spec : ToolSpec) (input : ToolInput) (request : ToolRequest)
        (subject : Subject)
        → Within R (run_after_idempotency env settings spec input request subject)
    unfolding run_after_idempotency
    Within-run_after settings spec input request subject =
        let mapped = action_for_tool spec.name in
        Within-bind (service_laws laws) (lift (proposed_for mapped input)) _ (λ s. laws.on_same s)
          (λ plan.
            Within-bind (service_laws laws) (build_policy_context settings) _
              (Within-build_policy_context (service_laws laws) settings)
              (λ ctx.
                Within-bind (service_laws laws) (evaluate_tool ctx mapped plan) _
                  (Within-evaluate ctx mapped plan)
                  (λ e.
                    Within-then (service_laws laws) (check_state spec)
                      (follow_policy env ctx.settings spec input request subject e mapped)
                      (Within-check_state spec)
                      (Within-policy ctx.settings spec input request subject e mapped))))
