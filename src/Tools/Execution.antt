-- ===== src/Tools/Execution.antt =====
-- packages/domain/recoverai_domain/tools/execution.py: `ToolExecutionService`. A tool runs once for
-- each idempotency key of a merchant; the same request with the same key has its result again.
pub mod Guards
pub mod Rows
pub mod Run
use revive_x.Prelude.{
  ℕ, Bool, true, false, ◌&&◌, ◌==◌, if◌then◌else◌, Option, none, some, String, find,
}
use revive_x.Enums.{RecoveryActionType}
use revive_x.Errors.{
  Error, domain_error, invalid_transition, concurrent_case_update, tool_validation, optimizer_error,
  idempotency_conflict, Result, ok, err,
}
use revive_x.Models.{Customer, Payment}
use revive_x.Models.ToolRows.{
  ToolExecutionResult, ResultStatus, IdempotencyKey, IdempotencyKeyStatus, ToolCallStatus,
}
use revive_x.Settings.{RecoverySettings}
use revive_x.ToolWords.{ToolInput, Field}
use revive_x.Session.{Session, Action, pure, raise, gets, lift, ◌>>=◌, ◌>>◌, find_payment, handling}
use revive_x.Policy.Words.{PolicyEvaluationResult}
use revive_x.Policy.Context.{build_policy_context, evaluate_and_persist}
use revive_x.Tools.Permissions.{parse_action_type}
use revive_x.Tools.Registry.{ToolSpec}
use revive_x.Tools.Schemas.{validate_input}
use revive_x.Tools.Provider.{Environment}
use revive_x.Tools.Idempotency.{
  IdempotencyOutcome, begin_idempotent_operation, complete_idempotent_operation,
  fail_idempotent_operation, remember_result,
}
use revive_x.Tools.Execution.Guards.{
  ToolRequest, resolve_tool, assert_merchant, check_permission, check_terminal, hashed_action,
}
use revive_x.Tools.Execution.Rows.{add_call, finish_tool_call, tool_call_status}
use revive_x.Tools.Execution.Run.{Subject, run_after_idempotency, proposed_from_payload}

-- `exc.code` of a `DomainError`, and `none` for any other exception
abbrev pub domain_code : Error → Option String
domain_code (domain_error code retryable) = some code
domain_code (invalid_transition a b) = some "INVALID_STATE_TRANSITION"
domain_code (concurrent_case_update id) = some "CONCURRENT_CASE_UPDATE"
domain_code (tool_validation code) = some code
domain_code (optimizer_error code) = some code
domain_code idempotency_conflict = some "IDEMPOTENCY_KEY_CONFLICT"
domain_code _ = none

-- `_result_from_stored` of what `to_public_dict` gave
abbrev pub result_from_stored : ToolExecutionResult → ToolExecutionResult
result_from_stored stored = record stored { replayed = true }

-- What `execute` does about a key that has been used: `none` where it goes on.
abbrev pub replay_of :
    Bool → IdempotencyKeyStatus → Option ToolExecutionResult → Result (Option ToolExecutionResult)
replay_of approved IdempotencyKeyStatus.completed stored = ok stored
replay_of approved IdempotencyKeyStatus.failed stored = ok stored
replay_of true IdempotencyKeyStatus.in_progress stored = ok none
replay_of false IdempotencyKeyStatus.in_progress (some stored) = ok (some stored)
replay_of false IdempotencyKeyStatus.in_progress none =
    err (domain_error "IDEMPOTENCY_IN_PROGRESS" true)

-- `if idem.replay:`; the row's hash is the request's, since the operation began
abbrev pub replay_result : Bool → IdempotencyOutcome → Result (Option ToolExecutionResult)
replay_result approved idem =
    if idem.replay then replay_of approved idem.record_of.status idem.record_of.result else ok none

module _ (key_merchant : ℕ) (request : ToolRequest) (call : ℕ) where
  abbrev pub fail_with : Error → Option String → Action ToolExecutionResult
  fail_with e none = raise e
  fail_with e (some code) =
      fail_idempotent_operation key_merchant request.idempotency_key (some code)
      >> finish_tool_call call ToolCallStatus.failed none (some code)
      >> raise e

  -- `except IdempotencyConflictError` and `except DomainError`
  abbrev pub on_error : Error → Action ToolExecutionResult
  on_error idempotency_conflict = raise idempotency_conflict
  on_error e = fail_with e (domain_code e)

  abbrev pub reference_of : Option ℕ → Option ℕ
  reference_of none = some call
  reference_of (some action) = some action

  abbrev pub store_result : ToolExecutionResult → ResultStatus → Action (Unit {0})
  store_result result ResultStatus.approval_required =
      remember_result key_merchant request.idempotency_key result
  store_result result _ =
      complete_idempotent_operation key_merchant request.idempotency_key result
        (reference_of result.action_id)

  abbrev failed_code : ResultStatus → Option String
  failed_code ResultStatus.failed = some "TOOL_FAILED"
  failed_code _ = none

  -- What `execute` does after `_run_after_idempotency`
  abbrev pub finish : Result ToolExecutionResult → Action ToolExecutionResult
  finish (err e) = on_error e
  finish (ok result) =
      store_result result result.status
      >> finish_tool_call call (tool_call_status result.status) (some result)
          (failed_code result.status)
      >> pure (record result {
        tool_call_id = some call;
        idempotency_key = some request.idempotency_key;
      })

abbrev pub subject_of : Session → Subject
subject_of s = record {
  customer = find (λ (c : Customer). c.id == s.case.customer_id) s.customers;
  payment = elim s.case.payment_id [ none ↦ none | some id ↦ find_payment s id ];
}

module _ (env : Environment) (settings : RecoverySettings) (request : ToolRequest) where
  abbrev pub run_once : ToolSpec → ToolInput → Subject → Action ToolExecutionResult
  run_once spec input subject s =
      (add_call spec input request.idempotency_key >>= λ call.
      handling (run_after_idempotency env settings spec input request subject)
        (finish s.case.merchant_id request call))
        s

  abbrev pub follow_replay :
      ToolSpec → ToolInput → Subject → Option ToolExecutionResult → Action ToolExecutionResult
  follow_replay spec input subject none = run_once spec input subject
  follow_replay spec input subject (some stored) = pure (result_from_stored stored)

  abbrev pub begin_request : ToolSpec → ToolInput → Action IdempotencyOutcome
  begin_request spec input s =
      begin_idempotent_operation s.case.merchant_id request.idempotency_key spec.name
        (env.request_hash spec.name (hashed_action request.action spec.name) input) s

  -- `execute` from `begin_idempotent_operation` on
  abbrev pub execute_checked : ToolSpec → ToolInput → Action ToolExecutionResult
  execute_checked spec input = gets subject_of >>= λ subject. begin_request spec input >>= λ idem.
      lift (replay_result request.approved_execution idem) >>= λ replay.
      follow_replay spec input subject replay

  -- The checks of `execute` that read the session.
  abbrev pub check_request : ToolSpec → Action (Unit {0})
  check_request spec =
      assert_merchant request.merchant_id
      >> check_permission request.granted_permissions spec
      >> check_terminal

  -- `execute`
  unfoldable pub execute : Action ToolExecutionResult
  execute = lift (resolve_tool request.tool_name request.action) >>= λ spec.
      lift (validate_input spec.name request.payload) >>= λ input.
      check_request spec >> execute_checked spec input

abbrev pub parsed_or_unknown : Result RecoveryActionType → Result RecoveryActionType
parsed_or_unknown (ok action) = ok action
parsed_or_unknown (err e) = err (tool_validation "UNKNOWN_ACTION")

-- `evaluate`, of a payload that has been read
unfoldable pub evaluate :
    RecoverySettings → String → ToolInput → Option ℕ → Action PolicyEvaluationResult
evaluate settings action input merchant =
    assert_merchant merchant >> lift (parsed_or_unknown (parse_action_type action)) >>= λ parsed.
    build_policy_context settings >>= λ ctx.
    lift (proposed_from_payload parsed input) >>= λ plan. evaluate_and_persist ctx plan
