-- ===== src/Processor.antt =====
-- packages/domain/recoverai_domain/processor.py: a detected case is walked to the policy check, an
-- action is chosen by a fixed rule, and the verdict of the policy decides where the case goes.
pub mod Steps
pub mod Outcome
pub mod Approvals
use revive_x.Prelude.{
  ℕ, ◌+◌, ◌*◌, Bool, true, false, ◌&&◌, ◌||◌, not, ltb, ◌==◌, if◌then◌else◌, Option, none, some,
  String, List, [], ◌∷◌, ◌++◌, str_eq, find, exists_in, map,
}
use revive_x.Enums.{
  RecoveryCaseStatus, RecoveryActionType, RecoveryActionStatus, RiskLevel, ApprovalStatus,
  action_value,
}
use revive_x.Errors.{Result}
use revive_x.Models.{
  RecoveryCase, Payment, ActionKey, phase5, given, CaseFingerprint, RecoveryAction, Approval,
  RecoveryDecision,
}
use revive_x.Settings.{RecoverySettings}
use revive_x.ToolWords.{Field, TimeText}
use revive_x.Session.{Session, Action, pure, gets, ◌>>=◌, ◌>>◌, modify, get_payment}
use revive_x.StateMachine.{is_terminal}
use revive_x.Transitions.{transition_case}
use revive_x.Policy.Words.{PolicyEvaluationResult, plain_action, mentions_mismatch}
use revive_x.Policy.Engine.{PolicyContext}
use revive_x.Policy.Context.{build_policy_context, evaluate_and_persist}

-- `PROCESS_STEPS`
abbrev pub process_steps : List RecoveryCaseStatus
process_steps =
    RecoveryCaseStatus.triaged ∷ RecoveryCaseStatus.investigating ∷ RecoveryCaseStatus.diagnosed
    ∷ RecoveryCaseStatus.scoring ∷ RecoveryCaseStatus.strategy_selected
    ∷ RecoveryCaseStatus.policy_check ∷ []

-- `order.index` of `_already_past`, or `none` where that raises
abbrev pub order_index : RecoveryCaseStatus → Option ℕ
order_index RecoveryCaseStatus.detected = some 0
order_index RecoveryCaseStatus.triaged = some 1
order_index RecoveryCaseStatus.investigating = some 2
order_index RecoveryCaseStatus.diagnosed = some 3
order_index RecoveryCaseStatus.scoring = some 4
order_index RecoveryCaseStatus.strategy_selected = some 5
order_index RecoveryCaseStatus.policy_check = some 6
order_index RecoveryCaseStatus.awaiting_approval = some 7
order_index RecoveryCaseStatus.executing = some 8
order_index RecoveryCaseStatus.action_completed = some 9
order_index _ = none

abbrev past : Option ℕ → Option ℕ → Bool
past (some i) (some j) = ltb j i
past _ _ = false

-- `_already_past`
unfoldable pub already_past : RecoveryCaseStatus → RecoveryCaseStatus → Bool
already_past current target = past (order_index current) (order_index target)

-- `current is target`, of two of the steps' statuses
abbrev pub is_same : RecoveryCaseStatus → RecoveryCaseStatus → Bool
is_same RecoveryCaseStatus.triaged RecoveryCaseStatus.triaged = true
is_same RecoveryCaseStatus.investigating RecoveryCaseStatus.investigating = true
is_same RecoveryCaseStatus.diagnosed RecoveryCaseStatus.diagnosed = true
is_same RecoveryCaseStatus.scoring RecoveryCaseStatus.scoring = true
is_same RecoveryCaseStatus.strategy_selected RecoveryCaseStatus.strategy_selected = true
is_same RecoveryCaseStatus.policy_check RecoveryCaseStatus.policy_check = true
is_same _ _ = false

abbrev pub is_policy_check : RecoveryCaseStatus → Bool
is_policy_check RecoveryCaseStatus.policy_check = true
is_policy_check _ = false

-- `_walk_to_policy_check`, from one of its steps on
unfoldable pub walk_from : List RecoveryCaseStatus → Action (Unit {0})
walk_from [] s = (pure tt) s
walk_from (target ∷ rest) s =
    if is_same s.case.status target || already_past s.case.status target
    then walk_from rest s
    else if is_policy_check s.case.status
    then (pure tt) s
    else (transition_case target >> walk_from rest) s

-- `walk_to_policy_check`
abbrev pub walk_to_policy_check : Action (Unit {0})
walk_to_policy_check = walk_from process_steps

-- `failure in RETRYABLE_FAILURES`
abbrev pub is_retryable_failure : Option String → Bool
is_retryable_failure none = false
is_retryable_failure (some code) =
    str_eq code "TEMPORARY_BANK_ERROR"
    || str_eq code "NETWORK_TIMEOUT"
    || str_eq code "INSUFFICIENT_FUNDS"

abbrev case_payment : Session → Option ℕ → Option Payment
case_payment s none = none
case_payment s (some id) = get_payment s s.case.merchant_id id

abbrev failure_of : Option Payment → Option String
failure_of none = none
failure_of (some payment) = payment.failure_code

-- `_select_action`
unfoldable pub choose_action : Session → RecoveryActionType
choose_action s =
    if is_retryable_failure (failure_of (case_payment s s.case.payment_id))
    then RecoveryActionType.retry_later
    else RecoveryActionType.send_payment_link

abbrev pub same_action : RecoveryActionType → RecoveryActionType → Bool
same_action a b = str_eq (action_value a) (action_value b)

-- Equality of the texts of two keys.
abbrev pub same_key : ActionKey → ActionKey → Bool
same_key (phase5 c a) (phase5 d b) = c == d && same_action a b
same_key (given k) (given l) = k == l
same_key _ _ = false

-- `meta["tool_name"]`
abbrev pub tool_for : RecoveryActionType → String
tool_for RecoveryActionType.retry_now = "retry_payment"
tool_for RecoveryActionType.retry_later = "schedule_retry"
tool_for RecoveryActionType.send_payment_link = "create_payment_link"
tool_for RecoveryActionType.send_reminder = "send_notification"
tool_for RecoveryActionType.offer_discount = "offer_discount"
tool_for RecoveryActionType.escalate = "escalate_to_human"
tool_for RecoveryActionType.do_nothing = "pause_recovery"

-- `meta["payload"]`, of an action with a tool: a retry is for an hour later.
abbrev pub payload_for : Option String → RecoveryActionType → ℕ → Option (List Field)
payload_for none action now = none
payload_for (some tool) RecoveryActionType.retry_later now =
    some (Field.scheduled_for (TimeText.time (now + 3600)) ∷ [])
payload_for (some tool) _ now = some []

abbrev pub planned_action :
    RecoveryActionType → RecoveryActionStatus → RiskLevel → Option String → Session → RecoveryAction
planned_action action status risk tool s = record {
  id = s.next_id;
  merchant_id = s.case.merchant_id;
  recovery_case_id = s.case.id;
  action_type = action;
  status = status;
  idempotency_key = phase5 s.case.id action;
  attempt_number = 1;
  risk_level = risk;
  amount = s.case.amount_at_risk;
  currency = s.case.currency;
  created_at = s.now;
  provider = none;
  provider_reference = none;
  scheduled_for = none;
  executed_at = none;
  executed = false;
  new_payment_id = none;
  approval_id = none;
  case_fingerprint = none;
  tool_name = tool;
  payload = payload_for tool action s.now;
}

abbrev is_blocked : RecoveryActionStatus → Bool
is_blocked RecoveryActionStatus.blocked = true
is_blocked _ = false

abbrev decision_for : RecoveryAction → RecoveryDecision
decision_for action = record {
  merchant_id = action.merchant_id;
  recovery_case_id = action.recovery_case_id;
  recovery_action_id = action.id;
  selected_action = action.action_type;
  policy_allows = not (is_blocked action.status);
}

abbrev pub add_action : RecoveryAction → Session → Session
add_action action s = record s {
  actions = s.actions ++ action ∷ [];
  decisions = s.decisions ++ decision_for action ∷ [];
  next_id = s.next_id + 1;
}

abbrev planned_before : RecoveryActionType → Session → Option RecoveryAction
planned_before action s =
    find
      (λ (a : RecoveryAction).
        a.merchant_id == s.case.merchant_id && same_key a.idempotency_key (phase5 s.case.id action))
      s.actions

abbrev plan_unless : RecoveryAction → Option RecoveryAction → Action RecoveryAction
plan_unless action none = modify (add_action action) >> pure action
plan_unless action (some existing) = pure existing

-- `_record_planned_action`
unfoldable pub record_planned_action :
    RecoveryActionType → RecoveryActionStatus → RiskLevel → Option String → Action RecoveryAction
record_planned_action action status risk tool s =
    plan_unless (planned_action action status risk tool s) (planned_before action s) s

abbrev pub fingerprint_of : RecoveryCase → CaseFingerprint
fingerprint_of case = record {
  amount_at_risk = case.amount_at_risk;
  payment_id = case.payment_id;
  customer_id = case.customer_id;
  last_mismatch_reason = case.last_mismatch_reason;
  amount_recovered = case.amount_recovered;
}

abbrev pub pending_approval : RecoverySettings → RecoveryAction → Session → Approval
pending_approval settings action s = record {
  id = s.next_id;
  merchant_id = s.case.merchant_id;
  recovery_case_id = s.case.id;
  recovery_action_id = some action.id;
  status = ApprovalStatus.pending;
  expires_at = some (s.now + settings.approval_ttl_minutes * 60);
}

abbrev pub await : ℕ → ℕ → CaseFingerprint → RecoveryAction → RecoveryAction
await action_id approval_id fingerprint a =
    if a.id == action_id
    then record a { approval_id = some approval_id; case_fingerprint = some fingerprint }
    else a

-- The approval is added, and the action's metadata name it.
abbrev pub request_approval : RecoverySettings → RecoveryAction → Action (Unit {0})
request_approval settings action = modify (λ s. record s {
  approvals = s.approvals ++ pending_approval settings action s ∷ [];
  actions = map (await action.id s.next_id (fingerprint_of s.case)) s.actions;
  next_id = s.next_id + 1;
})

abbrev pub blocked_target : PolicyEvaluationResult → RecoveryCaseStatus
blocked_target evaluation =
    if exists_in mentions_mismatch evaluation.reason
    then RecoveryCaseStatus.escalated
    else RecoveryCaseStatus.stopped

-- `if not evaluation.allowed:`
abbrev pub on_denied : RecoveryActionType → PolicyEvaluationResult → Action (Unit {0})
on_denied action evaluation =
    record_planned_action action RecoveryActionStatus.blocked evaluation.risk_level none
    >> transition_case (blocked_target evaluation)

-- `if evaluation.requires_approval:`
abbrev pub on_approval :
    RecoverySettings → RecoveryActionType → PolicyEvaluationResult → Action (Unit {0})
on_approval settings action evaluation =
    record_planned_action action RecoveryActionStatus.approval_required evaluation.risk_level
      (some (tool_for action))
    >>= λ planned.
        request_approval settings planned >> transition_case RecoveryCaseStatus.awaiting_approval

-- the last branch
abbrev pub on_allowed : RecoveryActionType → PolicyEvaluationResult → Action (Unit {0})
on_allowed action evaluation =
    record_planned_action action RecoveryActionStatus.pending evaluation.risk_level none
    >> transition_case RecoveryCaseStatus.executing
    >> transition_case RecoveryCaseStatus.action_completed

abbrev pub follow_verdict :
    RecoverySettings → RecoveryActionType → PolicyEvaluationResult → Action (Unit {0})
follow_verdict settings action evaluation =
    if not evaluation.allowed
    then on_denied action evaluation
    else if evaluation.requires_approval
    then on_approval settings action evaluation
    else on_allowed action evaluation

-- `process_locked_case` from the policy check on
unfoldable pub decide : RecoverySettings → Action (Unit {0})
decide settings = gets choose_action >>= λ action. build_policy_context settings >>= λ ctx.
    evaluate_and_persist ctx (plain_action action) >>= λ evaluation.
    follow_verdict ctx.settings action evaluation

-- The statuses that `process_locked_case` returns at once.
abbrev pub is_left_alone : RecoveryCaseStatus → Bool
is_left_alone RecoveryCaseStatus.action_completed = true
is_left_alone RecoveryCaseStatus.verifying = true
is_left_alone RecoveryCaseStatus.not_recovered = true
is_left_alone RecoveryCaseStatus.retry_scheduled = true
is_left_alone RecoveryCaseStatus.failed = true
is_left_alone RecoveryCaseStatus.escalated = true
is_left_alone RecoveryCaseStatus.awaiting_approval = true
is_left_alone _ = false

abbrev decide_at_check : RecoverySettings → Action (Unit {0})
decide_at_check settings s = (if is_policy_check s.case.status then decide settings else pure tt) s

-- `process_locked_case`
unfoldable pub process_locked_case : RecoverySettings → Action (Unit {0})
process_locked_case settings s =
    (if is_terminal s.case.status
        then pure tt
        else if is_left_alone s.case.status
        then pure tt
        else walk_to_policy_check >> decide_at_check settings)
      s
