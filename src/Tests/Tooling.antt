-- ===== src/Tests/Tooling.antt =====
-- Tool calls on a case, with a provider that answers the same every time.
use revive_x.Prelude.{ℕ, ◌≡◌, refl, true, false, none, some, List, [], ◌∷◌, Memᴰ}
use revive_x.Prelude.Int.{pos, ◌*ℤ◌, ◌+ℤ◌}
use revive_x.Enums.{PaymentStatus, RecoveryActionType, RecoveryCaseStatus, RiskLevel}
use revive_x.Errors.{ok}
use revive_x.Models.{ActionKey, RecoveryAction, Approval}
use revive_x.Models.ToolRows.{
  PaymentSnapshot, PaymentLinkSnapshot, ToolOutput, ResultStatus, ResultReason, ToolExecutionResult,
}
use revive_x.Settings.{default_recovery_settings, merge_merchant}
use revive_x.ToolWords.{Tool, Field, DecimalText, ToolInput, empty_input}
use revive_x.Session.{Session}
use revive_x.Tools.Provider.{Environment, answered}
use revive_x.Tools.Execution.Guards.{ToolRequest, resolve_tool, assert_merchant}
use revive_x.Tools.Registry.{require_tool, tool_specs}
use revive_x.Tools.Schemas.{validate_input}
use revive_x.Tools.Idempotency.{begin_idempotent_operation, complete_idempotent_operation}
use revive_x.Tools.Handlers.{handlers}
use revive_x.Tools.Handlers.Outcome.{apply_case_outcome}
use revive_x.Tools.Execution.{execute, subject_of}
use revive_x.Tools.Execution.Run.{
  Subject, read_only_evaluation, on_approval_required, run_after_idempotency,
}
use revive_x.Policy.Words.{low_value, plain_action, parse_action}
use revive_x.StateMachine.{is_terminal, can_transition}
use revive_x.Tools.Once.{execute-once}
use revive_x.Tools.Once.Memory.{Repeats}
use revive_x.Tools.Change.{Uncredited, execute-Uncredited}
use revive_x.Tools.Idempotency.Store.{Begins, begin_idempotent_operation-refines}
use revive_x.Money.{of_whole}
use revive_x.Policy.Words.{PolicyEvaluationResult}
use revive_x.Tools.Approvals.{approved_request}
use revive_x.Tools.Approvals.Reentry.{Repeats as Repeated, on_approval_required-Repeats}
use revive_x.Transitions.Settles.{Settles}
use revive_x.Tools.Handlers.Outcome.Settles.{apply_case_outcome-Settles}
use revive_x.Tools.Gates.{Unperformed, is_performed, run_after_idempotency-Unperformed}
use revive_x.Policy.Context.{
  build_policy_context, evaluate_and_persist, is_suspicious, is_source_mismatch, retry_count,
  communications_last_24h, discount_spent_today,
}
use revive_x.Policy.Engine.{
  evaluate_action, evaluate_parsed, collect, restriction_rules, value_risk, communication_rules,
  discount_rules, quiet_at,
}
use revive_x.Money.{
  less_than, add, as_money, multiply, quantize, round_half_even, signed_money, to_cents,
}
use revive_x.Transitions.{transition_case, transition_case_at}
use revive_x.Ingestion.{handle_duplicate, ingest, safe_payload, validate}
use revive_x.Tools.Execution.Rows.{upsert_action, assert_usable_approval, next_action_attempt}
use revive_x.Tools.Handlers.Retry.{next_attempt_number}
use revive_x.Tests.Data.{case_in, session_of, failed_payment, customer, merchant}

abbrev snapshot : PaymentSnapshot
snapshot = record {
  provider = "SIMULATOR";
  provider_payment_id = "pay_13";
  provider_order_id = some "order_5";
  amount = 100000;
  currency = "INR";
  status = PaymentStatus.captured;
  attempt_number = pos 2;
  failure_reason = none;
  occurred_at = 1000900;
}

abbrev link : PaymentLinkSnapshot
link = record {
  provider = "SIMULATOR";
  provider_payment_link_id = "link_1";
  amount = 100000;
  status = "CREATED";
  url = "https://pay.example/link_1";
  simulated = true;
}

abbrev pub environment : Environment
environment = record {
  provider_name = "SIMULATOR";
  create_payment = λ request. answered snapshot;
  create_payment_link = λ request. answered link;
  fetch_payment = λ id. answered snapshot;
  predict = λ s action customer. answered (record {
    probability = record { num = pos 62; scale = 2 };
    model_version = "1";
    feature_version = "1";
    source = "BASELINE";
  });
  payment_uuid = λ merchant provider id. 13;
  request_hash = λ tool action input. 99;
  notification_reference = λ key. "ref_1";
  event_id = λ snapshot time. "evt_1";
  queue = some true;
}

abbrev checked : Session
checked = session_of (case_in RecoveryCaseStatus.policy_check)

abbrev retry_request : ToolRequest
retry_request = record {
  tool_name = some "retry_payment";
  action = none;
  payload = [];
  idempotency_key = ActionKey.given 1;
  merchant_id = some 7;
  granted_permissions = none;
  existing_action_id = none;
  approval_id = none;
  approved_execution = false;
}

abbrev expected_retry : ToolExecutionResult
expected_retry = record {
  status = ResultStatus.succeeded;
  tool_name = Tool.retry_payment;
  allowed = true;
  requires_approval = false;
  reason = ResultReason.verdict (low_value ∷ []);
  action_id = some 51;
  approval_id = none;
  tool_call_id = some 50;
  provider = some "SIMULATOR";
  provider_reference = some "pay_13";
  simulated = true;
  idempotency_key = some (ActionKey.given 1);
  output = ToolOutput.retried failed_payment 13 (pos 1) snapshot;
  risk_level = RiskLevel.green;
  replayed = false;
}

abbrev retried : Session
retried = (execute environment default_recovery_settings retry_request checked).1

abbrev retried_later : Session
retried_later = record retried { now = 1002000 }

retry_run :
    ((execute environment default_recovery_settings retry_request checked).0 ≡ ok expected_retry)
    × (is_terminal retried_later.case.status ≡ false)
unfolding execute resolve_tool assert_merchant validate_input begin_idempotent_operation
    run_after_idempotency build_policy_context require_tool tool_specs evaluate_and_persist
    evaluate_action evaluate_parsed parse_action collect restriction_rules merge_merchant
    is_suspicious is_source_mismatch retry_count value_risk less_than ◌*ℤ◌ upsert_action
    transition_case handle_duplicate ingest safe_payload validate add as_money multiply quantize
    round_half_even signed_money to_cents communications_last_24h discount_spent_today
    communication_rules discount_rules quiet_at ◌+ℤ◌ can_transition assert_usable_approval
    next_action_attempt apply_case_outcome next_attempt_number handlers
    complete_idempotent_operation transition_case_at
retry_run = (refl, refl)

execute-once_example :
    (out : ToolExecutionResult) × (execute environment default_recovery_settings retry_request
        retried_later
      ≡ (ok out, retried_later))
    × Repeats expected_retry out
execute-once_example =
    execute-once environment environment default_recovery_settings default_recovery_settings
      retry_request checked retried_later expected_retry retry_run.0 refl (refl, refl, refl)
      retry_run.1 refl

execute-Uncredited_example : Uncredited checked retried
execute-Uncredited_example =
    execute-Uncredited environment default_recovery_settings retry_request checked

begin_idempotent_operation-refines_example :
    let (r, s') = begin_idempotent_operation 7 (ActionKey.given 1) Tool.retry_payment 98 retried in
    Begins 7 (ActionKey.given 1) Tool.retry_payment 98 retried r s'
begin_idempotent_operation-refines_example =
    begin_idempotent_operation-refines 7 (ActionKey.given 1) Tool.retry_payment 98 retried

-- A discount of ten percent that is held for an approval
abbrev discounted : ToolInput
discounted = record empty_input { discount_percent = some (DecimalText.decimal (of_whole 10)) }

abbrev discount_fields : List Field
discount_fields = Field.discount_percent (DecimalText.decimal (of_whole 10)) ∷ []

abbrev discount_request : ToolRequest
discount_request = record retry_request {
  tool_name = some "offer_discount";
  payload = discount_fields;
}

abbrev held_evaluation : PolicyEvaluationResult
held_evaluation = record read_only_evaluation {
  requires_approval = true;
  risk_level = RiskLevel.red;
}

discount_reads : validate_input Tool.offer_discount discount_fields ≡ ok discounted
unfolding validate_input
discount_reads = refl

abbrev held : Session
held =
    (on_approval_required default_recovery_settings (tool_specs Tool.offer_discount) discounted
      discount_request RecoveryActionType.offer_discount held_evaluation checked).1

on_approval_required-Repeats_example :
    (row : RecoveryAction) × Memᴰ row held.actions
    × ((approval : Approval) (merchant : ℕ)
        → Repeated environment Tool.offer_discount discounted discount_request
            (approved_request row approval merchant))
on_approval_required-Repeats_example =
    on_approval_required-Repeats environment Tool.offer_discount discounted discount_request
      RecoveryActionType.offer_discount default_recovery_settings discount_fields held_evaluation
      checked discount_reads refl refl

apply_case_outcome-Settles_example :
    Settles
      (apply_case_outcome (some RecoveryCaseStatus.action_completed))
      RecoveryCaseStatus.action_completed
      checked
apply_case_outcome-Settles_example =
    apply_case_outcome-Settles (some RecoveryCaseStatus.action_completed) checked

-- A retry of a payment whose customer is under suspicion
abbrev suspected : Session
suspected = record checked { customers = record customer { suspicious = true } ∷ [] }

abbrev retry_subject : Subject
retry_subject = subject_of suspected

run_after_idempotency-Unperformed_example :
    let (result, s') =
      run_after_idempotency environment default_recovery_settings
        (tool_specs Tool.retry_payment)
        empty_input
        retry_request
        retry_subject
        suspected in
    Unperformed suspected s'
    × ((r : ToolExecutionResult) → result ≡ ok r → is_performed r.status ≡ false)
unfolding tool_specs evaluate_action evaluate_parsed parse_action collect restriction_rules
    merge_merchant is_suspicious retry_count
run_after_idempotency-Unperformed_example =
    run_after_idempotency-Unperformed environment default_recovery_settings
      (tool_specs Tool.retry_payment) empty_input retry_request retry_subject
      RecoveryActionType.retry_now (plain_action RecoveryActionType.retry_now) merchant suspected
      refl refl refl refl
