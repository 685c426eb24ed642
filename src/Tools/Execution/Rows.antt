-- ===== src/Tools/Execution/Rows.antt =====
-- packages/domain/recoverai_domain/tools/execution.py: the rows of an execution, which are its
-- action, its approval and its tool call.
use revive_x.Prelude.{
  ℕ, ◌+◌, Bool, true, false, not, ◌&&◌, leb, ◌==◌, same_id, if◌then◌else◌, Option, none, some,
  String, List, [], ◌∷◌, ◌++◌, find, keep, map,
}
use revive_x.Enums.{
  RecoveryActionType, RecoveryActionStatus, RiskLevel, ApprovalStatus, MismatchReason,
}
use revive_x.Errors.{tool_validation}
use revive_x.Models.{RecoveryCase, RecoveryAction, Approval, ActionKey, CaseFingerprint}
use revive_x.Models.ToolRows.{ToolExecutionResult, ResultStatus, ToolCall, ToolCallStatus}
use revive_x.Models.Audit.{AuditEventType}
use revive_x.ToolWords.{Tool, tool_name, Field, ToolInput}
use revive_x.Session.{Session, Action, pure, raise, ◌>>◌, modify, record_audit}
use revive_x.Processor.{same_key, same_action, fingerprint_of}
use revive_x.Tools.Registry.{ToolSpec}
use revive_x.Tools.Handlers.Results.{HandlerResult}

abbrev pub find_action : Session → Option ℕ → Option RecoveryAction
find_action s none = none
find_action s (some id) = find (λ (a : RecoveryAction). a.id == id) s.actions

abbrev pub action_of_key : Session → ActionKey → Option RecoveryAction
action_of_key s key =
    find
      (λ (a : RecoveryAction).
        a.merchant_id == s.case.merchant_id && same_key a.idempotency_key key)
      s.actions

abbrev pub first_of : Option RecoveryAction → Option RecoveryAction → Option RecoveryAction
first_of none other = other
first_of (some a) other = some a

abbrev pub update_action : ℕ → (RecoveryAction → RecoveryAction) → Action (Unit {0})
update_action id f = modify (λ s. record s {
  actions = map (λ (a : RecoveryAction). if a.id == id then f a else a) s.actions;
})

abbrev max_of : List RecoveryAction → ℕ
max_of [] = 0
max_of (a ∷ rest) = let m = max_of rest in if leb a.attempt_number m then m else a.attempt_number

-- `_next_action_attempt`
unfoldable pub next_action_attempt : Session → ℕ → RecoveryActionType → ℕ
next_action_attempt s case action =
    max_of (
      keep (λ (a : RecoveryAction). a.recovery_case_id == case && same_action a.action_type action)
        s.actions)
    + 1

-- The keys of `{"payload": ..., "tool_name": ..., "executed": False}`
pub record ActionMetadata : Type 0 where
  pub payload : List Field
  pub tool_name : Tool

abbrev pub with_metadata : Option ActionMetadata → RecoveryAction → RecoveryAction
with_metadata none a = a
with_metadata (some meta) a = record a {
  payload = some meta.payload;
  tool_name = some (tool_name meta.tool_name);
  executed = false;
}

abbrev pub marked :
    RecoveryActionStatus → RiskLevel → Option ActionMetadata → RecoveryAction → RecoveryAction
marked status risk meta a = with_metadata meta (record a { status = status; risk_level = risk })

abbrev pub new_action :
    RecoveryActionType → ActionKey → RecoveryActionStatus → RiskLevel → Session → RecoveryAction
new_action action key status risk s = record {
  id = s.next_id;
  merchant_id = s.case.merchant_id;
  recovery_case_id = s.case.id;
  action_type = action;
  status = status;
  idempotency_key = key;
  attempt_number = next_action_attempt s s.case.id action;
  risk_level = risk;
  amount = s.case.amount_at_risk;
  currency = s.case.currency;
  created_at = s.now;
  provider = none;
  provider_reference = none;
  scheduled_for = none;
  executed_at = none;
  executed = false;
  new_payment_id = none;
  approval_id = none;
  case_fingerprint = none;
  tool_name = none;
  payload = none;
}

abbrev pub insert_action : RecoveryAction → Action RecoveryAction
insert_action row =
    modify (λ s. record s { actions = s.actions ++ row ∷ []; next_id = s.next_id + 1 })
    >> record_audit AuditEventType.action_planned none none
    >> pure row

abbrev pub upsert_with :
    RecoveryActionType
    → ActionKey
    → RecoveryActionStatus
    → RiskLevel
    → Option ActionMetadata
    → Option RecoveryAction
    → Action RecoveryAction
upsert_with action key status risk meta none s =
    insert_action (with_metadata meta (new_action action key status risk s)) s
upsert_with action key status risk meta (some existing) s =
    (update_action existing.id (marked status risk meta) >> pure (marked status risk meta existing))
      s

-- `_upsert_action`
unfoldable pub upsert_action :
    RecoveryActionType
    → ActionKey
    → RecoveryActionStatus
    → RiskLevel
    → Option ℕ
    → Option ActionMetadata
    → Action RecoveryAction
upsert_action action key status risk existing_id meta s =
    upsert_with action key status risk meta
      (first_of (find_action s existing_id) (action_of_key s key)) s

abbrev pub find_approval : Session → ℕ → Option Approval
find_approval s id = find (λ (a : Approval). a.id == id) s.approvals

abbrev pub update_approval : ℕ → (Approval → Approval) → Action (Unit {0})
update_approval id f = modify (λ s. record s {
  approvals = map (λ (a : Approval). if a.id == id then f a else a) s.approvals;
})

abbrev pub has_expired : Option ℕ → ℕ → Bool
has_expired none now = false
has_expired (some time) now = leb time now

abbrev pub is_approved : ApprovalStatus → Bool
is_approved ApprovalStatus.approved = true
is_approved _ = false

abbrev reason_number : Option MismatchReason → ℕ
reason_number none = 0
reason_number (some MismatchReason.merchant_mismatch) = 1
reason_number (some MismatchReason.customer_mismatch) = 2
reason_number (some MismatchReason.order_mismatch) = 3
reason_number (some MismatchReason.payment_mismatch) = 4
reason_number (some MismatchReason.amount_mismatch) = 5
reason_number (some MismatchReason.currency_mismatch) = 6
reason_number (some MismatchReason.outside_recovery_window) = 7
reason_number (some MismatchReason.already_counted) = 8
reason_number (some MismatchReason.duplicate_event) = 9
reason_number (some MismatchReason.not_captured) = 10
reason_number (some MismatchReason.unknown) = 11

-- Equality of two fingerprints.
abbrev pub same_fingerprint : CaseFingerprint → CaseFingerprint → Bool
same_fingerprint a b =
    a.amount_at_risk == b.amount_at_risk
    && same_id a.payment_id b.payment_id
    && a.customer_id == b.customer_id
    && reason_number a.last_mismatch_reason == reason_number b.last_mismatch_reason
    && a.amount_recovered == b.amount_recovered

abbrev is_changed : Option CaseFingerprint → RecoveryCase → Bool
is_changed none case = false
is_changed (some fingerprint) case = not (same_fingerprint fingerprint (fingerprint_of case))

-- Whether the case is not as it was when the approval of its action was asked for.
abbrev pub is_stale_action : Option RecoveryAction → RecoveryCase → Bool
is_stale_action none case = false
is_stale_action (some action) case = is_changed action.case_fingerprint case

abbrev pub expire : ℕ → Action (Unit {0})
expire id = update_approval id (λ a. record a { status = ApprovalStatus.expired })

abbrev pub check_approval : Option ℕ → Option Approval → Action (Unit {0})
check_approval action_id none s = (raise (tool_validation "APPROVAL_NOT_FOUND")) s
check_approval action_id (some approval) s =
    (if not (approval.recovery_case_id == s.case.id)
        then raise (tool_validation "APPROVAL_NOT_FOUND")
        else if not (is_approved approval.status)
        then raise (tool_validation "APPROVAL_NOT_APPROVED")
        else if has_expired approval.expires_at s.now
        then expire approval.id >> raise (tool_validation "APPROVAL_EXPIRED")
        else if is_stale_action (find_action s action_id) s.case
        then raise (tool_validation "STALE_APPROVAL")
        else pure tt)
      s

-- `_assert_usable_approval`
unfoldable pub assert_usable_approval : Option ℕ → Option ℕ → Action (Unit {0})
assert_usable_approval none action_id s = (raise (tool_validation "APPROVAL_REQUIRED")) s
assert_usable_approval (some id) action_id s = check_approval action_id (find_approval s id) s

abbrev updated : {A : Type 0} → Option A → Option A → Option A
updated none old = old
updated (some a) old = some a

abbrev amount_or : Option ℕ → ℕ → ℕ
amount_or none old = old
amount_or (some n) old = n

abbrev flag_or : Option Bool → Bool → Bool
flag_or none old = old
flag_or (some b) old = b

-- The action after its handler; its metadata have the key `executed` since the action was started,
-- so that a handler without the key leaves it as it is.
abbrev pub handled_action : HandlerResult → ℕ → RecoveryAction → RecoveryAction
handled_action handled now a =
    let executed = flag_or handled.executed a.executed in
    record a {
      provider = handled.provider;
      provider_reference = handled.provider_reference;
      amount = amount_or handled.amount a.amount;
      executed = executed;
      executed_at = if executed then some now else a.executed_at;
      new_payment_id = updated handled.new_payment_id a.new_payment_id;
      scheduled_for = updated handled.scheduled_for a.scheduled_for;
      status =
          if handled.success then RecoveryActionStatus.succeeded else RecoveryActionStatus.failed;
    }

abbrev pub record_handled : HandlerResult → Option RecoveryAction → Action (Unit {0})
record_handled handled none s = (pure tt) s
record_handled handled (some row) s = update_action row.id (handled_action handled s.now) s

-- `ToolCall(...)` as it is added
abbrev new_call : ToolSpec → ToolInput → ActionKey → Session → ToolCall
new_call spec input key s = record {
  id = s.next_id;
  merchant_id = s.case.merchant_id;
  recovery_case_id = s.case.id;
  tool_name = spec.name;
  tool_version = spec.version;
  status = ToolCallStatus.pending;
  request_payload = input;
  response_payload = none;
  idempotency_key = key;
  error_code = none;
}

-- The call, and its identifier
abbrev pub add_call : ToolSpec → ToolInput → ActionKey → Action ℕ
add_call spec input key s =
    (modify (λ t. record t {
      tool_calls = t.tool_calls ++ new_call spec input key t ∷ [];
      next_id = t.next_id + 1;
    })
        >> pure s.next_id)
      s

-- `_tool_call_status`
abbrev pub tool_call_status : ResultStatus → ToolCallStatus
tool_call_status ResultStatus.succeeded = ToolCallStatus.success
tool_call_status ResultStatus.failed = ToolCallStatus.failed
tool_call_status ResultStatus.blocked = ToolCallStatus.blocked
tool_call_status ResultStatus.approval_required = ToolCallStatus.approval_required

-- `_finish_tool_call`, less its times
abbrev pub finish_tool_call :
    ℕ → ToolCallStatus → Option ToolExecutionResult → Option String → Action (Unit {0})
finish_tool_call id status response code = modify (λ s. record s {
  tool_calls =
      map
        (λ (c : ToolCall).
          if c.id == id
          then record c { status = status; response_payload = response; error_code = code }
          else c)
        s.tool_calls;
})
