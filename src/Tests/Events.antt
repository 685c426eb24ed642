-- ===== src/Tests/Events.antt =====
-- Provider events that are taken in and processed, and decisions on a held action.
use revive_x.Prelude.{
  ◌≡◌, refl, true, false, none, some, [], ◌∷◌, find, ◌==◌, inl, inr, Bool-cases, arith,
}
use revive_x.Enums.{
  RecoveryActionType, RecoveryActionStatus, RecoveryCaseStatus, ApprovalStatus, RiskLevel,
  WebhookEventStatus,
}
use revive_x.Errors.{ok}
use revive_x.Models.{ActionKey, RecoveryAction, Approval, Merchant}
use revive_x.Models.EventRows.{Job, EventPayload, ProviderEvent}
use revive_x.ToolWords.{Tool}
use revive_x.Session.{Session}
use revive_x.Ingestion.{IngestResult, ingest, handle_duplicate, safe_payload, validate}
use revive_x.Ingestion.Once.{ingest-once}
use revive_x.Normalize.{normalize_provider_event, event_type_map}
use revive_x.Processing.{ProcessStatus, ProcessResult, result_of, process_webhook_event}
use revive_x.Processing.Payments.{
  Digest, find_or_create_payment, resolve_customer, updated_payment, is_status_downgrade,
}
use revive_x.Processing.Cases.{is_open_for, create_or_attach_recovery_case, candidate_cases}
use revive_x.Processing.Effects.{
  Processed, process_webhook_event-Processed, OneOpen, process_webhook_event-OneOpen,
}
use revive_x.Processing.Once.{process_webhook_event-once}
use revive_x.Prelude.Int.{◌*ℤ◌, ◌+ℤ◌}
use revive_x.Models.ToolRows.{ToolOutput, ResultStatus, ResultReason, ToolExecutionResult}
use revive_x.Settings.{default_recovery_settings, merge_merchant}
use revive_x.Transitions.Settles.{Settles}
use revive_x.Tools.Handlers.Retry.{next_attempt_number}
use revive_x.Tools.Approvals.{
  approve_action, reject_action, load_action, latest_approval, expire_if_needed, is_pending,
  is_approvable,
}
use revive_x.Tools.Approvals.Decisions.{
  Concerns, Cancelled, reject_action-Settles, approve_action_needs,
}
use revive_x.Policy.Context.{
  build_policy_context, evaluate_and_persist, is_suspicious, is_source_mismatch, retry_count,
  communications_last_24h, discount_spent_today,
}
use revive_x.Policy.Engine.{
  evaluate_action, evaluate_parsed, collect, restriction_rules, value_risk, communication_rules,
  discount_rules, quiet_at,
}
use revive_x.Money.{less_than}
use revive_x.Transitions.{transition_case, transition_case_at}
use revive_x.Policy.Words.{human_path, parse_action}
use revive_x.StateMachine.{can_transition}
use revive_x.Tools.Execution.Guards.{resolve_tool, assert_merchant}
use revive_x.Tools.Registry.{require_tool, tool_specs}
use revive_x.Tools.Schemas.{validate_input}
use revive_x.Tools.Idempotency.{begin_idempotent_operation, complete_idempotent_operation}
use revive_x.Tools.Handlers.{handlers}
use revive_x.Tools.Handlers.Outcome.{apply_case_outcome}
use revive_x.Tools.Execution.{execute}
use revive_x.Tools.Execution.Run.{run_after_idempotency}
use revive_x.Tools.Execution.Rows.{
  upsert_action, assert_usable_approval, next_action_attempt, has_expired,
}
use revive_x.Tests.Tooling.{environment}
use revive_x.Tests.Data.{case_in, session_of, merchant}

abbrev payload : EventPayload
payload = record {
  provider_payment_id = some "pay_14";
  provider_resource_id = none;
  payment_id = none;
  provider_order_id = some "order_6";
  order_id = none;
  amount = some (some 50000);
  currency = some "INR";
  attempt_number = none;
  failure_reason = none;
  failure_code = some "NETWORK_TIMEOUT";
  customer_id = some (some 3);
  customer_external_id = none;
  occurred_at = none;
  other_keys = [];
}

abbrev failure : ProviderEvent
failure = record {
  provider = some "SIMULATOR";
  event_id = some "evt_14";
  event_type = some "payment.failed";
  occurred_at = 1000700;
  provider_resource_id = some "pay_14";
  payload = payload;
  signature_valid = some true;
}

abbrev quiet : Session
quiet = session_of (case_in RecoveryCaseStatus.detected)

abbrev taken_in : Session
taken_in = (ingest true failure 7 quiet).1

abbrev digest : Digest
digest = λ owner provider id. 14

abbrev ingested : IngestResult
ingested = record {
  webhook_event_id = 50;
  event_id = "evt_14";
  status = WebhookEventStatus.received;
  duplicate = false;
  queued = true;
  merchant_id = 7;
}

first_ingestion : (ingest true failure 7 quiet).0 ≡ ok ingested
unfolding ingest handle_duplicate safe_payload validate
first_ingestion = refl

merchant_stays : find (λ (m : Merchant). m.id == 7) taken_in.merchants ≡ some merchant
unfolding ingest handle_duplicate safe_payload validate
merchant_stays = refl

ingest-once_example :
    (second : IngestResult) × ((ingest false failure 7 taken_in).0 ≡ ok second)
    × (second.duplicate ≡ true)
    × (second.webhook_event_id ≡ ingested.webhook_event_id)
    × (second.merchant_id ≡ ingested.merchant_id)
    × ((ingest false failure 7 taken_in).1.webhook_events ≡ taken_in.webhook_events)
ingest-once_example =
    ingest-once true false failure "SIMULATOR" 7 7 merchant quiet ingested refl first_ingestion
      merchant_stays

process_webhook_event-Processed_example :
    Processed taken_in (process_webhook_event digest 50 taken_in).1
process_webhook_event-Processed_example = process_webhook_event-Processed digest 50 taken_in

-- The other case is open for a payment that no other open case has.
one_open : OneOpen taken_in
unfolding ingest handle_duplicate safe_payload validate
one_open m p = elim (Bool-cases (is_open_for m p quiet.case)) [
  | inl h ↦ rw h (omega arith)
  | inr h ↦ rw h (omega arith)
]

process_webhook_event-OneOpen_example : OneOpen (process_webhook_event digest 50 taken_in).1
process_webhook_event-OneOpen_example = process_webhook_event-OneOpen digest 50 taken_in one_open

abbrev processed : ProcessResult
processed = result_of ProcessStatus.processed (Job.process_recovery_case 51 ∷ [])

failure_processed : (process_webhook_event digest 50 taken_in).0 ≡ ok processed
unfolding ingest handle_duplicate safe_payload validate process_webhook_event find_or_create_payment
    resolve_customer updated_payment is_status_downgrade create_or_attach_recovery_case
    candidate_cases normalize_provider_event event_type_map next_attempt_number ◌+ℤ◌
failure_processed = refl

process_webhook_event-once_example :
    let s' = (process_webhook_event digest 50 taken_in).1 in
    (t : ProcessStatus) × (process_webhook_event digest 50 s' ≡ (ok (result_of t []), s'))
process_webhook_event-once_example =
    process_webhook_event-once digest 50 taken_in processed failure_processed

abbrev held_action : RecoveryAction
held_action = record {
  id = 30;
  merchant_id = 7;
  recovery_case_id = 1;
  action_type = RecoveryActionType.escalate;
  status = RecoveryActionStatus.approval_required;
  idempotency_key = ActionKey.given 2;
  attempt_number = 1;
  risk_level = RiskLevel.red;
  amount = 100000;
  currency = "INR";
  created_at = 1000400;
  provider = none;
  provider_reference = none;
  scheduled_for = none;
  executed_at = none;
  executed = false;
  new_payment_id = none;
  approval_id = some 31;
  case_fingerprint = none;
  tool_name = some "escalate_to_human";
  payload = some [];
}

abbrev pending : Approval
pending = record {
  id = 31;
  merchant_id = 7;
  recovery_case_id = 1;
  recovery_action_id = some 30;
  status = ApprovalStatus.pending;
  expires_at = some 1009000;
}

abbrev waiting : Session
waiting = record (session_of (case_in RecoveryCaseStatus.awaiting_approval)) {
  actions = held_action ∷ [];
  approvals = pending ∷ [];
}

reject_action-Settles_example :
    Settles (reject_action 30 none) RecoveryCaseStatus.escalated waiting
    × Cancelled 30 31 (reject_action 30 none waiting).1
reject_action-Settles_example =
    reject_action-Settles 30 none held_action pending waiting (refl, refl, refl, refl)

abbrev approved : ToolExecutionResult
approved = record {
  status = ResultStatus.succeeded;
  tool_name = Tool.escalate_to_human;
  allowed = true;
  requires_approval = false;
  reason = ResultReason.verdict (human_path ∷ []);
  action_id = some 30;
  approval_id = some 31;
  tool_call_id = some 50;
  provider = none;
  provider_reference = none;
  simulated = true;
  idempotency_key = some (ActionKey.given 2);
  output = ToolOutput.escalated "Escalated to a human operator";
  risk_level = RiskLevel.green;
  replayed = false;
}

escalation_approved :
    (approve_action environment default_recovery_settings 30 none waiting).0 ≡ ok approved
unfolding approve_action load_action latest_approval expire_if_needed execute resolve_tool
    assert_merchant validate_input begin_idempotent_operation run_after_idempotency
    build_policy_context require_tool tool_specs evaluate_and_persist evaluate_action
    evaluate_parsed parse_action collect restriction_rules merge_merchant is_suspicious
    is_source_mismatch retry_count value_risk less_than ◌*ℤ◌ ◌+ℤ◌ upsert_action transition_case
    communications_last_24h discount_spent_today communication_rules discount_rules quiet_at
    can_transition assert_usable_approval next_action_attempt apply_case_outcome handlers
    complete_idempotent_operation transition_case_at
escalation_approved = refl

approve_action_needs_example :
    (action : RecoveryAction) × (approval : Approval) × Concerns 30 none waiting action approval
    × (is_pending approval.status ≡ true)
    × (has_expired approval.expires_at waiting.now ≡ false)
    × (is_approvable action.status ≡ true)
approve_action_needs_example =
    approve_action_needs environment default_recovery_settings 30 none waiting approved
      escalation_approved
