-- ===== src/Tools/Execution/Run.antt =====
-- packages/domain/recoverai_domain/tools/execution.py: `_run_after_idempotency`. The policy decides;
-- a denied action is blocked, one that needs an approval is held, and the handler of any other runs.
use revive_x.Prelude.{
  ℕ, Bool, true, false, not, ◌&&◌, if◌then◌else◌, Option, none, some, String, [], ◌∷◌,
}
use revive_x.Enums.{
  RecoveryCaseStatus, RecoveryActionType, RecoveryActionStatus, RiskLevel, action_value,
}
use revive_x.Errors.{Result, ok, err}
use revive_x.Money.{Decimal}
use revive_x.Models.{RecoveryAction, Payment, Customer}
use revive_x.Models.ToolRows.{ToolExecutionResult, ToolOutput, ResultStatus, ResultReason}
use revive_x.Models.Audit.{AuditEventType}
use revive_x.Settings.{RecoverySettings}
use revive_x.ToolWords.{Tool, ToolInput}
use revive_x.Session.{Action, pure, gets, lift, ◌>>=◌, ◌>>◌, record_audit}
use revive_x.Transitions.{transition_case}
use revive_x.Policy.Words.{ProposedAction, PolicyEvaluationResult, PolicyId, Reason}
use revive_x.Policy.Engine.{PolicyContext}
use revive_x.Policy.Context.{build_policy_context, evaluate_and_persist}
use revive_x.Processor.{request_approval}
use revive_x.Tools.Permissions.{action_for_tool}
use revive_x.Tools.Registry.{ToolSpec}
use revive_x.Tools.Schemas.{model_dump}
use revive_x.Tools.Provider.{Environment}
use revive_x.Tools.Handlers.{handlers}
use revive_x.Tools.Handlers.Results.{HandlerResult, HandlerContext}
use revive_x.Tools.Handlers.Effects.{read_decimal}
use revive_x.Tools.Handlers.Outcome.{
  only_if, is_policy_check, is_before_execution, is_executing, apply_case_outcome,
}
use revive_x.Tools.Execution.Guards.{ToolRequest, check_state}
use revive_x.Tools.Execution.Rows.{
  ActionMetadata, upsert_action, assert_usable_approval, record_handled,
}

abbrev proposed : String → Option Decimal → ProposedAction
proposed action percent = record {
  action_type = action;
  discount_percent = percent;
  discount_amount = none;
}

abbrev proposed_with : RecoveryActionType → Result Decimal → Result ProposedAction
proposed_with action (ok percent) = ok (proposed (action_value action) (some percent))
proposed_with action (err e) = err e

-- `_proposed_from_payload`
abbrev pub proposed_from_payload : RecoveryActionType → ToolInput → Result ProposedAction
proposed_from_payload action input = elim input.discount_percent [
  | none ↦ ok (proposed (action_value action) none)
  | some text ↦ proposed_with action (read_decimal (some text))
]

abbrev pub proposed_for : Option RecoveryActionType → ToolInput → Result ProposedAction
proposed_for none input = ok (proposed "READ_ONLY" none)
proposed_for (some action) input = proposed_from_payload action input

-- The evaluation of a tool that performs no action
abbrev pub read_only_evaluation : PolicyEvaluationResult
read_only_evaluation = record {
  allowed = true;
  requires_approval = false;
  risk_level = RiskLevel.green;
  reason = Reason.read_only_tool ∷ [];
  policy_ids = PolicyId.read_only ∷ [];
}

abbrev pub evaluate_tool :
    PolicyContext → Option RecoveryActionType → ProposedAction → Action PolicyEvaluationResult
evaluate_tool ctx none plan = pure read_only_evaluation
evaluate_tool ctx (some action) plan = evaluate_and_persist ctx plan

abbrev pub result_of : ResultStatus → ToolSpec → PolicyEvaluationResult → ToolExecutionResult
result_of status spec evaluation = record {
  status = status;
  tool_name = spec.name;
  allowed = true;
  requires_approval = false;
  reason = ResultReason.verdict evaluation.reason;
  action_id = none;
  approval_id = none;
  tool_call_id = none;
  provider = none;
  provider_reference = none;
  simulated = true;
  idempotency_key = none;
  output = ToolOutput.nothing;
  risk_level = evaluation.risk_level;
  replayed = false;
}

abbrev pub log_blocked :
    ToolSpec → PolicyEvaluationResult → RecoveryAction → Action ToolExecutionResult
log_blocked spec evaluation row =
    record_audit AuditEventType.action_blocked none none
    >> pure (record (result_of ResultStatus.blocked spec evaluation) {
      allowed = false;
      action_id = some row.id;
    })

-- `if mapped_action is not None and not evaluation.allowed:`
abbrev pub on_blocked :
    ToolSpec
    → ToolRequest
    → RecoveryActionType
    → PolicyEvaluationResult
    → Action ToolExecutionResult
on_blocked spec request action evaluation =
    upsert_action action request.idempotency_key RecoveryActionStatus.blocked evaluation.risk_level
      request.existing_action_id none
    >>= log_blocked spec evaluation

abbrev pub held_metadata : ToolSpec → ToolInput → ActionMetadata
held_metadata spec input = record { payload = model_dump spec.name input; tool_name = spec.name }

abbrev pub await_if_checked : Action (Unit {0})
await_if_checked s =
    only_if (is_policy_check s.case.status) (transition_case RecoveryCaseStatus.awaiting_approval) s

-- `_create_approval`, and its identifier; the version of the case and the key that it puts into the
-- metadata are read by nothing
abbrev pub create_approval : RecoverySettings → RecoveryAction → Action ℕ
create_approval settings row =
    gets (λ s. s.next_id) >>= λ id. request_approval settings row >> pure id

abbrev pub log_held :
    ToolSpec → PolicyEvaluationResult → RecoveryAction → ℕ → Action ToolExecutionResult
log_held spec evaluation row approval =
    await_if_checked
    >> record_audit AuditEventType.approval_requested none none
    >> pure (record (result_of ResultStatus.approval_required spec evaluation) {
      requires_approval = true;
      action_id = some row.id;
      approval_id = some approval;
      output = ToolOutput.approval_asked approval;
    })

abbrev pub hold :
    RecoverySettings
    → ToolSpec
    → PolicyEvaluationResult
    → RecoveryAction
    → Action ToolExecutionResult
hold settings spec evaluation row = create_approval settings row >>= log_held spec evaluation row

-- `if mapped_action is not None and evaluation.requires_approval and not approved_execution:`
abbrev pub on_approval_required :
    RecoverySettings
    → ToolSpec
    → ToolInput
    → ToolRequest
    → RecoveryActionType
    → PolicyEvaluationResult
    → Action ToolExecutionResult
on_approval_required settings spec input request action evaluation =
    upsert_action action request.idempotency_key RecoveryActionStatus.approval_required
      evaluation.risk_level request.existing_action_id (some (held_metadata spec input))
    >>= hold settings spec evaluation

-- The tools that do not take the case to EXECUTING
abbrev pub starts_execution : Tool → Bool
starts_execution Tool.schedule_retry = false
starts_execution Tool.escalate_to_human = false
starts_execution Tool.pause_recovery = false
starts_execution _ = true

abbrev pub start_execution : Tool → Action (Unit {0})
start_execution tool s =
    only_if (starts_execution tool && is_before_execution s.case.status)
      (transition_case RecoveryCaseStatus.executing) s

abbrev pub start_mapped :
    ToolSpec
    → ToolInput
    → ToolRequest
    → PolicyEvaluationResult
    → Option RecoveryActionType
    → Action (Option RecoveryAction)
start_mapped spec input request evaluation none = pure none
start_mapped spec input request evaluation (some action) =
    upsert_action action request.idempotency_key RecoveryActionStatus.executing
      evaluation.risk_level request.existing_action_id (some (held_metadata spec input))
    >>= λ row.
        start_execution spec.name
        >> record_audit AuditEventType.action_started none none
        >> pure (some row)

-- `if spec.side_effect and mapped_action is not None:`
abbrev pub start_action :
    ToolSpec
    → ToolInput
    → ToolRequest
    → PolicyEvaluationResult
    → Option RecoveryActionType
    → Action (Option RecoveryAction)
start_action spec input request evaluation mapped =
    if spec.side_effect then start_mapped spec input request evaluation mapped else pure none

abbrev attempt_of : Option RecoveryAction → ℕ
attempt_of none = 1
attempt_of (some row) = row.attempt_number

abbrev id_of : Option RecoveryAction → Option ℕ
id_of none = none
id_of (some row) = some row.id

-- The customer and the payment as `execute` reads them, before anything runs.
pub record Subject : Type 0 where
  pub customer : Option Customer
  pub payment : Option Payment

abbrev pub handler_context :
    Subject → ToolInput → ToolRequest → Option RecoveryAction → HandlerContext
handler_context subject input request row = record {
  customer = subject.customer;
  payment = subject.payment;
  payload = input;
  attempt_number = attempt_of row;
  idempotency_key = request.idempotency_key;
}

-- `if handled.success:`
abbrev pub on_success :
    ToolSpec
    → ToolRequest
    → PolicyEvaluationResult
    → Option RecoveryAction
    → HandlerResult
    → Action ToolExecutionResult
on_success spec request evaluation row handled =
    apply_case_outcome handled.case_status
    >> only_if spec.side_effect (record_audit AuditEventType.action_succeeded none none)
    >> pure (record (result_of ResultStatus.succeeded spec evaluation) {
      action_id = id_of row;
      approval_id = request.approval_id;
      provider = handled.provider;
      provider_reference = handled.provider_reference;
      simulated = handled.simulated;
      output = handled.output;
    })

abbrev message_or : Option String → String
message_or none = "Tool failed"
message_or (some text) = text

abbrev pub fail_if_executing : ToolSpec → Action (Unit {0})
fail_if_executing spec s =
    only_if (spec.side_effect && is_executing s.case.status)
      (transition_case RecoveryCaseStatus.failed) s

-- the last branch
abbrev pub on_failure :
    ToolSpec
    → PolicyEvaluationResult
    → Option RecoveryAction
    → HandlerResult
    → Action ToolExecutionResult
on_failure spec evaluation row handled =
    fail_if_executing spec
    >> record_audit AuditEventType.action_failed none none
    >> pure (record (result_of ResultStatus.failed spec evaluation) {
      action_id = id_of row;
      provider = handled.provider;
      output = handled.output;
      reason = ResultReason.message (message_or handled.error_message);
    })

abbrev pub follow_handled :
    ToolSpec
    → ToolRequest
    → PolicyEvaluationResult
    → Option RecoveryAction
    → HandlerResult
    → Action ToolExecutionResult
follow_handled spec request evaluation row handled =
    if handled.success
    then on_success spec request evaluation row handled
    else on_failure spec evaluation row handled

-- From `if approved_execution:` on
abbrev pub run_tool :
    Environment
    → ToolSpec
    → ToolInput
    → ToolRequest
    → Subject
    → PolicyEvaluationResult
    → Option RecoveryActionType
    → Action ToolExecutionResult
run_tool env spec input request subject evaluation mapped =
    only_if request.approved_execution
      (assert_usable_approval request.approval_id request.existing_action_id)
    >> start_action spec input request evaluation mapped
    >>= λ row. handlers env spec.name (handler_context subject input request row) >>= λ handled.
        record_handled handled row >> follow_handled spec request evaluation row handled

abbrev pub follow_policy :
    Environment
    → RecoverySettings
    → ToolSpec
    → ToolInput
    → ToolRequest
    → Subject
    → PolicyEvaluationResult
    → Option RecoveryActionType
    → Action ToolExecutionResult
follow_policy env settings spec input request subject evaluation none =
    run_tool env spec input request subject evaluation none
follow_policy env settings spec input request subject evaluation (some action) =
    if not evaluation.allowed
    then on_blocked spec request action evaluation
    else if evaluation.requires_approval && not request.approved_execution
    then on_approval_required settings spec input request action evaluation
    else run_tool env spec input request subject evaluation (some action)

-- `_run_after_idempotency`
unfoldable pub run_after_idempotency :
    Environment
    → RecoverySettings
    → ToolSpec
    → ToolInput
    → ToolRequest
    → Subject
    → Action ToolExecutionResult
run_after_idempotency env settings spec input request subject =
    lift (proposed_for (action_for_tool spec.name) input) >>= λ plan.
    build_policy_context settings >>= λ ctx.
    evaluate_tool ctx (action_for_tool spec.name) plan >>= λ evaluation.
    check_state spec
    >> follow_policy env ctx.settings spec input request subject evaluation
        (action_for_tool spec.name)
