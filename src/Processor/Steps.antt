-- ===== src/Processor/Steps.antt =====
-- The walk of processor.py to the policy check, and what every run of the processor keeps.
use revive_x.Prelude.{refl, inl, inr, ◌||◌, Option, none, some, String, List, [], ◌∷◌, Bool-cases}
use revive_x.Enums.{RecoveryCaseStatus, RecoveryActionType, RecoveryActionStatus, RiskLevel}
use revive_x.Models.{RecoveryAction}
use revive_x.Settings.{RecoverySettings}
use revive_x.Session.{Session, ◌>>=◌, ◌>>◌}
use revive_x.Session.Change.{
  CaseKept, Extends-refl, Within, IsServiceRelation, Within-then, Within-bind, IsValid, Change,
  ValidChange-laws, SameCredit, SameCredit-laws,
}
use revive_x.Policy.Words.{PolicyEvaluationResult, plain_action}
use revive_x.Policy.Context.{build_policy_context, evaluate_and_persist}
use revive_x.Policy.Context.Facts.{Within-build_policy_context, Within-evaluate_and_persist}
use revive_x.StateMachine.{is_terminal}
use revive_x.Transitions.{transition_case}
use revive_x.Transitions.Laws.{transition_case-ValidChange, transition_case-SameCredit}
use revive_x.Processor.{
  is_same, already_past, is_policy_check, walk_from, walk_to_policy_check, choose_action,
  record_planned_action, planned_before, planned_action, plan_unless, request_approval, on_denied,
  on_approval, on_allowed, follow_verdict, blocked_target, decide, is_left_alone, decide_at_check,
  process_locked_case, process_steps, tool_for,
}

record_planned_action-kept :
    (action : RecoveryActionType) (status : RecoveryActionStatus) (risk : RiskLevel)
    (tool : Option String) (s : Session)
    → CaseKept s (record_planned_action action status risk tool s).1
unfolding record_planned_action
record_planned_action-kept action status risk tool s =
    by_plan (planned_action action status risk tool s) (planned_before action s)
  where
    by_plan : (a : RecoveryAction) (o : Option RecoveryAction) → CaseKept s (plan_unless a o s).1
    by_plan a none = (refl, Extends-refl s.audits, refl, refl, refl, refl)
    by_plan a (some b) = (refl, Extends-refl s.audits, refl, refl, refl, refl)

-- Every relation that the laws of services and the changes of status obey holds of a whole run.
module _ {R : Session → Session → Type 0} (laws : IsServiceRelation R)
    (on_transition : (target : RecoveryCaseStatus) → Within R (transition_case target)) where
  Within-walk : (steps : List RecoveryCaseStatus) → Within R (walk_from steps)
  unfolding walk_from
  Within-walk [] s = laws.on_same s
  Within-walk (target ∷ rest) s =
      elim (Bool-cases (is_same s.case.status target || already_past s.case.status target)) [
        | inl h ↦ rw h (Within-walk rest s)
        | inr h ↦ elim (Bool-cases (is_policy_check s.case.status)) [
          | inl c ↦ rw (h, c) (laws.on_same s)
          | inr c ↦
              rw (h, c)
                (Within-then laws (transition_case target) (walk_from rest) (on_transition target)
                  (Within-walk rest) s)
        ]
      ]

  Within-plan :
      (action : RecoveryActionType) (status : RecoveryActionStatus) (risk : RiskLevel)
      (tool : Option String)
      → Within R (record_planned_action action status risk tool)
  Within-plan action status risk tool s =
      laws.on_kept s _ (record_planned_action-kept action status risk tool s)

  Within-denied :
      (action : RecoveryActionType) (e : PolicyEvaluationResult) → Within R (on_denied action e)
  Within-denied action e =
      Within-then laws _ _ (Within-plan action RecoveryActionStatus.blocked e.risk_level none)
        (on_transition (blocked_target e))

  Within-request :
      (settings : RecoverySettings) (a : RecoveryAction) → Within R (request_approval settings a)
  Within-request settings a s =
      laws.on_kept s (request_approval settings a s).1
        (refl, Extends-refl s.audits, refl, refl, refl, refl)

  Within-approval :
      (settings : RecoverySettings) (action : RecoveryActionType) (e : PolicyEvaluationResult)
      → Within R (on_approval settings action e)
  Within-approval settings action e =
      Within-bind laws
        (record_planned_action action RecoveryActionStatus.approval_required e.risk_level
          (some (tool_for action)))
        (λ planned.
          request_approval settings planned >> transition_case RecoveryCaseStatus.awaiting_approval)
        (Within-plan action RecoveryActionStatus.approval_required e.risk_level
          (some (tool_for action)))
        (λ planned.
          Within-then laws (request_approval settings planned)
            (transition_case RecoveryCaseStatus.awaiting_approval) (Within-request settings planned)
            (on_transition RecoveryCaseStatus.awaiting_approval))

  Within-allowed :
      (action : RecoveryActionType) (e : PolicyEvaluationResult) → Within R (on_allowed action e)
  Within-allowed action e =
      Within-then laws
        (record_planned_action action RecoveryActionStatus.pending e.risk_level none
          >> transition_case RecoveryCaseStatus.executing)
        (transition_case RecoveryCaseStatus.action_completed)
        (Within-then laws
          (record_planned_action action RecoveryActionStatus.pending e.risk_level none)
          (transition_case RecoveryCaseStatus.executing)
          (Within-plan action RecoveryActionStatus.pending e.risk_level none)
          (on_transition RecoveryCaseStatus.executing))
        (on_transition RecoveryCaseStatus.action_completed)

  Within-verdict :
      (settings : RecoverySettings) (action : RecoveryActionType) (e : PolicyEvaluationResult)
      → Within R (follow_verdict settings action e)
  Within-verdict settings action e = elim (Bool-cases e.allowed) [
    | inr d ↦ rw d (Within-denied action e)
    | inl a ↦ elim (Bool-cases e.requires_approval) [
      | inl r ↦ rw (a, r) (Within-approval settings action e)
      | inr r ↦ rw (a, r) (Within-allowed action e)
    ]
  ]

  Within-decide : (settings : RecoverySettings) → Within R (decide settings)
  unfolding decide
  Within-decide settings s =
      let action = choose_action s in
      Within-bind laws (build_policy_context settings)
        (λ ctx. evaluate_and_persist ctx (plain_action action) >>= λ e.
          follow_verdict ctx.settings action e)
        (Within-build_policy_context laws settings)
        (λ ctx.
          Within-bind laws (evaluate_and_persist ctx (plain_action action))
            (λ e. follow_verdict ctx.settings action e)
            (Within-evaluate_and_persist laws ctx (plain_action action))
            (λ e. Within-verdict ctx.settings action e))
        s

  Within-check : (settings : RecoverySettings) → Within R (decide_at_check settings)
  Within-check settings s = elim (Bool-cases (is_policy_check s.case.status)) [
    | inl c ↦ rw c (Within-decide settings s)
    | inr c ↦ rw c (laws.on_same s)
  ]

  pub process_locked_case-Within :
      (settings : RecoverySettings) → Within R (process_locked_case settings)
  unfolding process_locked_case
  process_locked_case-Within settings s = elim (Bool-cases (is_terminal s.case.status)) [
    | inl f ↦ rw f (laws.on_same s)
    | inr f ↦ elim (Bool-cases (is_left_alone s.case.status)) [
      | inl l ↦ rw (f, l) (laws.on_same s)
      | inr l ↦
          rw (f, l)
            (Within-then laws walk_to_policy_check (decide_at_check settings)
              (Within-walk process_steps) (Within-check settings) s)
    ]
  ]

-- A run of the processor, whether it returns or raises, keeps a well-formed case well formed: the
-- status moves along the table, the version does not fall, the audit log only grows, and neither
-- the identity and amount at risk of the case nor another row of its table or a payment changes.
pub process_locked_case-ValidChange :
    (settings : RecoverySettings) (s : Session)
    → IsValid s.case
    → let s' = (process_locked_case settings s).1 in Change s s' × IsValid s'.case
process_locked_case-ValidChange =
    process_locked_case-Within ValidChange-laws transition_case-ValidChange

-- A run of the processor credits nothing: the recovered amount, the payment and the event that it
-- was verified by, the last mismatch and the amount at risk stay as they were.
pub process_locked_case-SameCredit :
    (settings : RecoverySettings) (s : Session) → SameCredit s (process_locked_case settings s).1
process_locked_case-SameCredit =
    process_locked_case-Within SameCredit-laws transition_case-SameCredit
