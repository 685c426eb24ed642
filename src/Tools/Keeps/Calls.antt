-- ===== src/Tools/Keeps/Calls.antt =====
-- packages/domain/recoverai_domain/tools/execution.py and approvals.py: what the calls of the two
-- services may do to the session, whether they return or raise.
use mathlib.Core.List.{append_assoc}
use revive_x.Prelude.{ℕ, refl, not, ◌==◌, Option, none, some, String, List}
use revive_x.Enums.{RecoveryCaseStatus}
use revive_x.Errors.{Error, Result, ok, err, tool_validation, idempotency_conflict}
use revive_x.Models.{RecoveryAction, Approval, ActionKey}
use revive_x.Models.ToolRows.{IdempotencyKey, ToolExecutionResult, ResultStatus, ToolCallStatus}
use revive_x.Settings.{RecoverySettings}
use revive_x.ToolWords.{Tool, ToolInput}
use revive_x.Session.{Session, Action, pure, raise, lift, ◌>>=◌, ◌>>◌, handling}
use revive_x.Session.Change.{Within, Within-if, Within-then, Within-bind}
use revive_x.Tools.Registry.{ToolSpec}
use revive_x.Tools.Schemas.{validate_input}
use revive_x.Tools.Provider.{Environment}
use revive_x.Tools.Idempotency.{
  begin_with, begin_idempotent_operation, new_key, find_key, complete_idempotent_operation,
  fail_idempotent_operation,
}
use revive_x.Tools.Execution.{
  domain_code, fail_with, on_error, store_result, finish, run_once, follow_replay, begin_request,
  execute_checked, check_request, execute, replay_result, subject_of,
}
use revive_x.Tools.Execution.Guards.{
  ToolRequest, resolve_tool, assert_merchant, check_permission, check_terminal, check,
  check_merchant_id, is_other_merchant, is_missing, find_merchant, lacks,
}
use revive_x.Tools.Execution.Rows.{add_call, finish_tool_call}
use revive_x.Tools.Execution.Run.{Subject, run_after_idempotency}
use revive_x.Tools.Approvals.{
  without_queue, load_action, latest_approval, expire_if_needed, check_decidable, mark_approved,
  execute_approved, approved_request, approve_action, mark_rejected, escalate_if_awaiting,
  reject_action, is_pending, is_awaiting, is_expired, is_approvable,
}
use revive_x.Tools.Keeps.Tables.{
  IsToolRelation, service_laws, Within-only_if, on_rows, PaymentsKept-refl,
}
use revive_x.Tools.Keeps.Runs.{Within-run_after, Within-check}

module _ {R : Session → Session → Type 0} (laws : IsToolRelation R)
    (on_keys : (s : Session) (keys : List IdempotencyKey)
      → R s (record s { idempotency_keys = keys })) where
  Within-begin :
      (merchant : ℕ) (key : ActionKey) (operation : Tool) (hash : ℕ)
      → Within R (begin_idempotent_operation merchant key operation hash)
  unfolding begin_idempotent_operation
  Within-begin merchant key operation hash s =
      by_row (find_key s merchant key) (new_key merchant key operation hash s.now)
    where
      by_row :
          (found : Option IdempotencyKey) (row : IdempotencyKey) → R s (begin_with found row s).1
      by_row none row = on_keys s _
      by_row (some existing) row =
          Within-if (service_laws laws) (existing.request_hash == row.request_hash) (pure _)
            (raise idempotency_conflict) (λ t. laws.on_same t) (λ t. laws.on_same t) s

  Within-fail_key :
      (merchant : ℕ) (key : ActionKey) (code : Option String)
      → Within R (fail_idempotent_operation merchant key code)
  unfolding fail_idempotent_operation
  Within-fail_key merchant key code s = on_keys s _

  Within-store :
      (merchant : ℕ) (request : ToolRequest) (call : ℕ) (result : ToolExecutionResult)
      (status : ResultStatus)
      → Within R (store_result merchant request call result status)
  unfolding complete_idempotent_operation
  Within-store merchant request call result ResultStatus.approval_required s = on_keys s _
  Within-store merchant request call result ResultStatus.succeeded s = on_keys s _
  Within-store merchant request call result ResultStatus.failed s = on_keys s _
  Within-store merchant request call result ResultStatus.blocked s = on_keys s _

  Within-finish_call :
      (id : ℕ) (status : ToolCallStatus) (response : Option ToolExecutionResult)
      (code : Option String)
      → Within R (finish_tool_call id status response code)
  Within-finish_call id status response code s = on_rows laws s _ refl refl refl refl refl refl

  Within-fail_with :
      (merchant : ℕ) (request : ToolRequest) (call : ℕ) (e : Error) (code : Option String)
      → Within R (fail_with merchant request call e code)
  Within-fail_with merchant request call e none s = laws.on_same s
  Within-fail_with merchant request call e (some code) s =
      let failed = fail_idempotent_operation merchant request.idempotency_key (some code) in
      let finished = finish_tool_call call ToolCallStatus.failed none (some code) in
      Within-then (service_laws laws) (failed >> finished) (raise {A = ToolExecutionResult} e)
        (Within-then (service_laws laws) failed finished
          (Within-fail_key merchant request.idempotency_key (some code))
          (Within-finish_call call ToolCallStatus.failed none (some code)))
        (λ t. laws.on_same t) s

  Within-error :
      (merchant : ℕ) (request : ToolRequest) (call : ℕ) (e : Error)
      → Within R (on_error merchant request call e)
  Within-error merchant request call idempotency_conflict s = laws.on_same s
  Within-error merchant request call e s =
      Within-fail_with merchant request call e (domain_code e) s

  Within-finish :
      (merchant : ℕ) (request : ToolRequest) (call : ℕ) (result : Result ToolExecutionResult)
      → Within R (finish merchant request call result)
  Within-finish merchant request call (err e) = Within-error merchant request call e
  Within-finish merchant request call (ok result) = λ s.
      let stored = store_result merchant request call result result.status in
      let finished = finish_tool_call call _ (some result) _ in
      Within-then (service_laws laws) (stored >> finished) (pure _)
        (Within-then (service_laws laws) stored finished
          (Within-store merchant request call result result.status)
          (Within-finish_call call _ (some result) _))
        (λ t. laws.on_same t) s

  Within-add_call :
      (spec : ToolSpec) (input : ToolInput) (key : ActionKey) → Within R (add_call spec input key)
  Within-add_call spec input key s = on_rows laws s _ refl refl refl refl refl refl

  Within-assert_merchant : (id : Option ℕ) → Within R (assert_merchant id)
  unfolding assert_merchant
  Within-assert_merchant id s =
      Within-if (service_laws laws) (is_other_merchant id s.case.merchant_id) (raise _)
        (check (is_missing (find_merchant s)) (tool_validation "MISSING_MERCHANT"))
        (λ t. laws.on_same t) (Within-check laws _ (tool_validation "MISSING_MERCHANT")) s

  Within-check_request :
      (env : Environment) (settings : RecoverySettings) (request : ToolRequest) (spec : ToolSpec)
      → Within R (check_request env settings request spec)
  Within-check_request env settings request spec =
      Within-then (service_laws laws)
        (assert_merchant request.merchant_id >> check_permission request.granted_permissions spec)
        check_terminal
        (Within-then (service_laws laws) (assert_merchant request.merchant_id)
          (check_permission request.granted_permissions spec)
          (Within-assert_merchant request.merchant_id)
          (Within-check laws (lacks request.granted_permissions spec)
            (tool_validation "PERMISSION_DENIED")))
        (λ s. Within-check laws _ (tool_validation "CASE_TERMINAL") s)

  module _ (env : Environment) (settings : RecoverySettings) (request : ToolRequest) where
    Within-run_once :
        (spec : ToolSpec) (input : ToolInput) (subject : Subject)
        → Within R (run_once env settings request spec input subject)
    Within-run_once spec input subject s =
        let run = run_after_idempotency env settings spec input request subject in
        Within-bind (service_laws laws) (add_call spec input request.idempotency_key)
          (λ call. handling run (finish s.case.merchant_id request call))
          (Within-add_call spec input request.idempotency_key)
          (λ call t.
            laws.on_both t (run t).1 (finish s.case.merchant_id request call (run t).0 (run t).1).1
              (Within-run_after laws env settings spec input request subject t)
              (Within-finish s.case.merchant_id request call (run t).0 (run t).1))
          s

    Within-replay :
        (spec : ToolSpec) (input : ToolInput) (subject : Subject)
        (replay : Option ToolExecutionResult)
        → Within R (follow_replay env settings request spec input subject replay)
    Within-replay spec input subject none = Within-run_once spec input subject
    Within-replay spec input subject (some stored) = λ s. laws.on_same s

    Within-checked :
        (spec : ToolSpec) (input : ToolInput)
        → Within R (execute_checked env settings request spec input)
    Within-checked spec input s =
        Within-bind (service_laws laws) (begin_request env settings request spec input)
          (λ idem. lift (replay_result request.approved_execution idem) >>= λ replay.
            follow_replay env settings request spec input (subject_of s) replay)
          (λ t. Within-begin t.case.merchant_id request.idempotency_key spec.name _ t)
          (λ idem.
            Within-bind (service_laws laws) (lift (replay_result request.approved_execution idem))
              (follow_replay env settings request spec input (subject_of s)) (λ t. laws.on_same t)
              (Within-replay spec input (subject_of s)))
          s

    pub execute-Within : Within R (execute env settings request)
    unfolding execute
    execute-Within =
        Within-bind (service_laws laws) (lift (resolve_tool request.tool_name request.action)) _
          (λ s. laws.on_same s)
          (λ spec.
            Within-bind (service_laws laws) (lift (validate_input spec.name request.payload)) _
              (λ s. laws.on_same s)
              (λ input.
                Within-then (service_laws laws) (check_request env settings request spec)
                  (execute_checked env settings request spec input)
                  (Within-check_request env settings request spec) (Within-checked spec input)))

  Within-expire : (a : Approval) → Within R (expire_if_needed a)
  unfolding expire_if_needed
  Within-expire a s =
      Within-if (service_laws laws) _ _ (pure a)
        (λ t. on_rows laws t _ refl refl refl refl refl refl) (λ t. laws.on_same t) s

  Within-check_merchant : (id : Option ℕ) → Within R (check_merchant_id id)
  Within-check_merchant id s =
      Within-check laws (is_other_merchant id s.case.merchant_id)
        (tool_validation "MERCHANT_MISMATCH") s

  Within-load : (id : ℕ) → Within R (load_action id)
  unfolding load_action
  Within-load id s = laws.on_same s

  Within-latest : (id : ℕ) → Within R (latest_approval id)
  unfolding latest_approval
  Within-latest id s = laws.on_same s

  Within-decidable : (action : RecoveryAction) (a : Approval) → Within R (check_decidable action a)
  Within-decidable action a =
      Within-then (service_laws laws)
        (check (is_expired a.status) (tool_validation "APPROVAL_EXPIRED")
          >> check (not (is_pending a.status)) (tool_validation "APPROVAL_NOT_PENDING"))
        (check (not (is_approvable action.status)) (tool_validation "ACTION_NOT_APPROVABLE"))
        (Within-then (service_laws laws)
          (check (is_expired a.status) (tool_validation "APPROVAL_EXPIRED"))
          (check (not (is_pending a.status)) (tool_validation "APPROVAL_NOT_PENDING"))
          (Within-check laws _ (tool_validation "APPROVAL_EXPIRED"))
          (Within-check laws _ (tool_validation "APPROVAL_NOT_PENDING")))
        (Within-check laws _ (tool_validation "ACTION_NOT_APPROVABLE"))

  Within-approved : (action : RecoveryAction) (a : Approval) → Within R (mark_approved action a)
  Within-approved action a s =
      laws.on_tables s (mark_approved action a s).1
        (refl, (_, refl), refl, PaymentsKept-refl s.payments, refl, refl)

  -- The action is found, and its approval, which expires if it is time.
  Within-approval_of :
      {A : Type 0} (action_id : ℕ) (merchant : Option ℕ) (f : RecoveryAction → Approval → Action A)
      → ((action : RecoveryAction) (a : Approval) → Within R (f action a))
      → Within R (
          check_merchant_id merchant >> load_action action_id >>= λ action.
          latest_approval action.id >>= λ found. expire_if_needed found >>= λ a. f action a)
  Within-approval_of action_id merchant f p =
      Within-bind (service_laws laws) (check_merchant_id merchant >> load_action action_id) _
        (Within-then (service_laws laws) (check_merchant_id merchant) (load_action action_id)
          (Within-check_merchant merchant) (Within-load action_id))
        (λ action.
          Within-bind (service_laws laws) (latest_approval action.id)
            (λ found. expire_if_needed found >>= λ a. f action a) (Within-latest action.id)
            (λ found.
              Within-bind (service_laws laws) (expire_if_needed found) (f action)
                (Within-expire found) (p action)))

  pub approve_action-Within :
      (env : Environment) (settings : RecoverySettings) (action_id : ℕ) (merchant : Option ℕ)
      → Within R (approve_action env settings action_id merchant)
  unfolding approve_action
  approve_action-Within env settings action_id merchant =
      Within-approval_of action_id merchant _ (λ action a.
        Within-then (service_laws laws) (check_decidable action a >> mark_approved action a)
          (execute_approved env settings action a)
          (Within-then (service_laws laws) (check_decidable action a) (mark_approved action a)
            (Within-decidable action a) (Within-approved action a))
          (λ s.
            execute-Within (without_queue env) settings
              (approved_request action a s.case.merchant_id) s))

  Within-rejected : (action : RecoveryAction) (a : Approval) → Within R (mark_rejected action a)
  unfolding fail_idempotent_operation
  Within-rejected action a s =
      laws.on_both s (record s { idempotency_keys = (mark_rejected action a s).1.idempotency_keys })
        (mark_rejected action a s).1 (on_keys s _)
        (laws.on_tables
          (record s { idempotency_keys = (mark_rejected action a s).1.idempotency_keys })
          (mark_rejected action a s).1
          (refl, (_, append_assoc s.audits _ _), refl, PaymentsKept-refl s.payments, refl, refl))

  pub reject_action-Within :
      (action_id : ℕ) (merchant : Option ℕ) → Within R (reject_action action_id merchant)
  unfolding reject_action
  reject_action-Within action_id merchant = Within-approval_of action_id merchant _ (λ action a.
      Within-then (service_laws laws) (mark_rejected action a) escalate_if_awaiting
        (Within-rejected action a)
        (λ s.
          Within-only_if laws (is_awaiting s.case.status) _
            (laws.on_target RecoveryCaseStatus.escalated refl) s))
