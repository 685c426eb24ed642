-- ===== src/Tools/Gates.antt =====
-- packages/domain/recoverai_domain/tools/execution.py: no tool acts without the policy's leave.
use revive_x.Prelude.{
  ℕ, ◌≡◌, refl, sym, ◌∙◌, ap, inl, inr, Bool, true, false, not, ◌&&◌, ◌||◌, ◌==◌, Bool-cases,
  Option, none, some, find, arith,
}
use revive_x.Enums.{RecoveryCaseStatus, RecoveryActionType, RecoveryActionStatus, RiskLevel}
use revive_x.Errors.{Result, ok, err, ok-injective}
use revive_x.Models.{RecoveryAction, ActionKey, Merchant}
use revive_x.Models.ToolRows.{ResultStatus, ToolExecutionResult}
use revive_x.Settings.{RecoverySettings}
use revive_x.ToolWords.{ToolInput}
use revive_x.Session.{Session, Action, ◌>>◌}
use revive_x.StateMachine.{can_transition}
use revive_x.Transitions.{transition_case, transition_case_at}
use revive_x.Policy.Words.{PolicyEvaluationResult, ProposedAction}
use revive_x.Policy.Engine.{evaluate_action}
use revive_x.Policy.Context.{build_policy_context, context_for, evaluate_and_persist}
use revive_x.Tools.Permissions.{action_for_tool}
use revive_x.Tools.Registry.{ToolSpec}
use revive_x.Tools.Provider.{Environment}
use revive_x.Tools.Handlers.Outcome.{is_policy_check}
use revive_x.Tools.Execution.Guards.{ToolRequest, check_state, may_execute}
use revive_x.Tools.Execution.Rows.{
  ActionMetadata, upsert_action, upsert_with, first_of, find_action, action_of_key,
}
use revive_x.Tools.Execution.Run.{
  Subject, proposed_for, on_blocked, on_approval_required, held_metadata, log_held,
  await_if_checked, create_approval, follow_policy, run_after_idempotency,
}

-- No payment was made or linked, nothing was sent, no discount was given and no event was stored.
abbrev pub Unperformed : Session → Session → Type 0
Unperformed s s' =
    (s'.payments ≡ s.payments)
    × (s'.payment_attempts ≡ s.payment_attempts)
    × (s'.notifications ≡ s.notifications)
    × (s'.carts ≡ s.carts)
    × (s'.webhook_events ≡ s.webhook_events)

Unperformed-trans : (s t u : Session) → Unperformed s t → Unperformed t u → Unperformed s u
Unperformed-trans s t u (a, b, c, d, e) (a', b', c', d', e') =
    (a' ∙ a, b' ∙ b, c' ∙ c, d' ∙ d, e' ∙ e)

-- The verdict lets a tool run.
abbrev pub permits : PolicyEvaluationResult → Bool → Bool
permits evaluation approved = evaluation.allowed && (not evaluation.requires_approval || approved)

abbrev pub is_performed : ResultStatus → Bool
is_performed ResultStatus.blocked = false
is_performed ResultStatus.approval_required = false
is_performed _ = true

-- The action changes no table of effects, and a result of it says so.
abbrev Refrains : Action ToolExecutionResult → Session → Type 0
Refrains m s =
    Unperformed s (m s).1
    × ((r : ToolExecutionResult) → (m s).0 ≡ ok r → is_performed r.status ≡ false)

-- The row is there, and nothing else has changed.
upserted :
    (action : RecoveryActionType) (key : ActionKey) (status : RecoveryActionStatus)
    (risk : RiskLevel) (id : Option ℕ) (meta : Option ActionMetadata) (s : Session)
    → (row : RecoveryAction) × ((upsert_action action key status risk id meta s).0 ≡ ok row)
      × Unperformed s (upsert_action action key status risk id meta s).1
unfolding upsert_action
upserted action key status risk id meta s =
    by_row (first_of (find_action s id) (action_of_key s key))
  where
    by_row :
        (found : Option RecoveryAction)
        → (row : RecoveryAction) × ((upsert_with action key status risk meta found s).0 ≡ ok row)
          × Unperformed s (upsert_with action key status risk meta found s).1
    by_row none = (_, refl, (refl, refl, refl, refl, refl))
    by_row (some row) = (_, refl, (refl, refl, refl, refl, refl))

transition-Unperformed :
    (target : RecoveryCaseStatus) (s : Session) → Unperformed s (transition_case target s).1
unfolding transition_case transition_case_at
transition-Unperformed target s = elim (Bool-cases (can_transition s.case.status target)) [
  | inl l ↦ rw l (refl, refl, refl, refl, refl)
  | inr l ↦ rw l (refl, refl, refl, refl, refl)
]

await-Unperformed : (s : Session) → Unperformed s (await_if_checked s).1
await-Unperformed s = elim (Bool-cases (is_policy_check s.case.status)) [
  | inl c ↦ rw c (transition-Unperformed RecoveryCaseStatus.awaiting_approval s)
  | inr c ↦ rw c (refl, refl, refl, refl, refl)
]

blocked-Refrains :
    (spec : ToolSpec) (request : ToolRequest) (action : RecoveryActionType)
    (e : PolicyEvaluationResult) (s : Session)
    → Refrains (on_blocked spec request action e) s
blocked-Refrains spec request action e s =
    let (row, made, kept) =
      upserted action request.idempotency_key RecoveryActionStatus.blocked e.risk_level
        request.existing_action_id none s in
    rw made (kept, λ r h. sym (ap is_performed (ap (λ q. q.status) (ok-injective h))))

log_held-Refrains :
    (spec : ToolSpec) (e : PolicyEvaluationResult) (row : RecoveryAction) (approval : ℕ)
    (s : Session)
    → Refrains (log_held spec e row approval) s
log_held-Refrains spec e row approval s = by_result (await_if_checked s).0 refl
  where
    by_result :
        (result : Result (Unit {0}))
        → (await_if_checked s).0 ≡ result
        → Refrains (log_held spec e row approval) s
    by_result (ok tt) returns =
        rw returns
          (await-Unperformed s, λ r h. sym (ap is_performed (ap (λ q. q.status) (ok-injective h))))
    by_result (err x) raises = rw raises (await-Unperformed s, λ r h. ground arith)

held-Refrains :
    (settings : RecoverySettings) (spec : ToolSpec) (input : ToolInput) (request : ToolRequest)
    (action : RecoveryActionType) (e : PolicyEvaluationResult) (s : Session)
    → Refrains (on_approval_required settings spec input request action e) s
held-Refrains settings spec input request action e s =
    let (row, made, kept) =
      upserted action request.idempotency_key RecoveryActionStatus.approval_required e.risk_level
        request.existing_action_id (some (held_metadata spec input)) s in
    let t : Session =
      (upsert_action action request.idempotency_key RecoveryActionStatus.approval_required
        e.risk_level request.existing_action_id (some (held_metadata spec input)) s).1 in
    let (kept', status) =
      log_held-Refrains spec e row t.next_id (create_approval settings row t).1 in
    rw made (
      Unperformed-trans s t (log_held spec e row t.next_id (create_approval settings row t).1).1
          kept kept',
      status,
    )

follow-Refrains :
    (env : Environment) (settings : RecoverySettings) (spec : ToolSpec) (input : ToolInput)
    (request : ToolRequest) (subject : Subject) (e : PolicyEvaluationResult)
    (action : RecoveryActionType) (s : Session)
    → permits e request.approved_execution ≡ false
    → Refrains (follow_policy env settings spec input request subject e (some action)) s
follow-Refrains env settings spec input request subject e action s denied =
    elim (Bool-cases e.allowed) [
      | inr a ↦ rw a (blocked-Refrains spec request action e s)
      | inl a ↦ elim (Bool-cases (e.requires_approval && not request.approved_execution)) [
        | inl r ↦ rw (a, r) (held-Refrains settings spec input request action e s)
        | inr r ↦ absurd (ground arith)
      ]
    ]

checked-Refrains :
    (spec : ToolSpec) (m : Action ToolExecutionResult) (s : Session)
    → Refrains m s
    → Refrains (check_state spec >> m) s
checked-Refrains spec m s refrains =
    elim (Bool-cases (spec.side_effect && not (may_execute s.case.status))) [
      | inl c ↦ rw c ((refl, refl, refl, refl, refl), λ r h. ground arith)
      | inr c ↦ rw c refrains
    ]

-- A tool that performs an action for which the policy's verdict is a denial, or wants an approval that
-- the call does not have, does nothing: it makes and links no payment, sends nothing, gives no
-- discount and stores no event, and a result that it returns says that the action was blocked or
-- waits for an approval.
pub run_after_idempotency-Unperformed :
    (env : Environment) (settings : RecoverySettings) (spec : ToolSpec) (input : ToolInput)
    (request : ToolRequest) (subject : Subject) (action : RecoveryActionType)
    (plan : ProposedAction) (merchant : Merchant) (s : Session)
    → action_for_tool spec.name ≡ some action
    → proposed_for (some action) input ≡ ok plan
    → find (λ (m : Merchant). m.id == s.case.merchant_id) s.merchants ≡ some merchant
    → permits (evaluate_action (context_for settings s merchant) plan) request.approved_execution
      ≡ false
    → let (result, s') = run_after_idempotency env settings spec input request subject s in
      Unperformed s s' × ((r : ToolExecutionResult) → result ≡ ok r → is_performed r.status ≡ false)
unfolding run_after_idempotency build_policy_context evaluate_and_persist
run_after_idempotency-Unperformed env settings spec input request subject action plan merchant s
      acts planned found denied =
    let ctx = context_for settings s merchant in
    let verdict = evaluate_action ctx plan in
    let t : Session = (evaluate_and_persist ctx plan s).1 in
    let refrains : Refrains
        (check_state spec
          >> follow_policy env ctx.settings spec input request subject verdict (some action))
        t =
      checked-Refrains spec
        (follow_policy env ctx.settings spec input request subject verdict (some action)) t
        (follow-Refrains env ctx.settings spec input request subject verdict action t denied) in
    rw (acts, planned, found) refrains
