-- ===== src/Processor/Outcome.antt =====
-- Where processor.py takes a case.
pub mod Idempotent
use revive_x.Prelude.{
  ℕ, ◌≡◌, refl, sym, ◌∙◌, ap, inl, inr, false≢true, Bool, true, false, not, ◌&&◌, ◌||◌, Option,
  none, some, String, List, [], ◌∷◌, ◌++◌, arith, Bool-cases, if◌then◌else◌, exists_in,
}
use revive_x.Enums.{RecoveryCaseStatus, RecoveryActionType, RecoveryActionStatus, RiskLevel}
use revive_x.Errors.{Result, ok, err}
use revive_x.Models.{RecoveryCase, RecoveryAction}
use revive_x.Models.Audit.{AuditEvent}
use revive_x.Settings.{RecoverySettings}
use revive_x.Session.{Session, Action, pure, continue, ◌>>=◌, ◌>>◌}
use revive_x.Policy.Words.{PolicyEvaluationResult, plain_action, mentions_mismatch}
use revive_x.Policy.Engine.{PolicyContext, evaluate_action}
use revive_x.Policy.Context.{
  build_policy_context, evaluate_and_persist, retry_count, is_suspicious, is_source_mismatch,
  communications_last_24h, discount_spent_today,
}
use revive_x.Policy.Context.Facts.{build_policy_context-same}
use revive_x.StateMachine.{is_terminal, can_transition}
use revive_x.Transitions.{transition_case_at, transition_case}
use revive_x.Transitions.Settles.{Settles, transition-Settles, then-Settles}
use revive_x.Processor.{
  is_same, already_past, is_policy_check, walk_from, walk_to_policy_check, choose_action,
  record_planned_action, planned_before, planned_action, plan_unless, request_approval, on_denied,
  on_approval, on_allowed, follow_verdict, blocked_target, decide, is_left_alone, decide_at_check,
  process_locked_case,
}

-- The statuses up to the policy check.
abbrev pub is_early : RecoveryCaseStatus → Bool
is_early RecoveryCaseStatus.detected = true
is_early RecoveryCaseStatus.triaged = true
is_early RecoveryCaseStatus.investigating = true
is_early RecoveryCaseStatus.diagnosed = true
is_early RecoveryCaseStatus.scoring = true
is_early RecoveryCaseStatus.strategy_selected = true
is_early RecoveryCaseStatus.policy_check = true
is_early _ = false

pub early_goes_on : (st : RecoveryCaseStatus) → is_early st ≡ true → is_terminal st ≡ false
early_goes_on st h = ground arith

pub early_is_handled : (st : RecoveryCaseStatus) → is_early st ≡ true → is_left_alone st ≡ false
early_is_handled st h = ground arith

-- The session with its case at the policy check.
abbrev pub at_check : Session → ℕ → Option ℕ → List AuditEvent → Session
at_check s version closed audits = record s {
  case = record s.case {
    status = RecoveryCaseStatus.policy_check;
    version = version;
    closed_at = closed;
  };
  audits = audits;
}

abbrev pub Walked : Session → Type 0
Walked s =
    (version : ℕ) × (closed : Option ℕ) × (audits : List AuditEvent) × (walk_to_policy_check s
      ≡ (ok tt, at_check s version closed audits))

-- From every status up to the policy check the walk returns, with the case at the check and all
-- else but its version, its closing time and the log as it was.
pub walk_to_policy_check-Walked : (s : Session) → is_early s.case.status ≡ true → Walked s
unfolding walk_from already_past transition_case transition_case_at can_transition
walk_to_policy_check-Walked s early = from s.case.status refl
  where
    from : (st : RecoveryCaseStatus) → s.case.status ≡ st → Walked s
    from RecoveryCaseStatus.detected e = rw e (_, _, _, refl)
    from RecoveryCaseStatus.triaged e = rw e (_, _, _, refl)
    from RecoveryCaseStatus.investigating e = rw e (_, _, _, refl)
    from RecoveryCaseStatus.diagnosed e = rw e (_, _, _, refl)
    from RecoveryCaseStatus.scoring e = rw e (_, _, _, refl)
    from RecoveryCaseStatus.strategy_selected e = rw e (_, _, _, refl)
    from RecoveryCaseStatus.policy_check e = rw e (_, _, _, refl)
    from _ e = absurd (false≢true (sym (ap is_early e) ∙ early))

-- The status that a verdict takes the case to.
abbrev pub verdict_status : PolicyEvaluationResult → RecoveryCaseStatus
verdict_status e =
    if not e.allowed
    then blocked_target e
    else if e.requires_approval
    then RecoveryCaseStatus.awaiting_approval
    else RecoveryCaseStatus.action_completed

-- Recording the planned action raises nothing and leaves the case, so that what follows decides.
plan-Settles :
    (action : RecoveryActionType) (status : RecoveryActionStatus) (risk : RiskLevel)
    (tool : Option String) (k : RecoveryAction → Action (Unit {0})) (target : RecoveryCaseStatus)
    (s : Session)
    → ((a : RecoveryAction) (t : Session) → t.case.status ≡ s.case.status → Settles (k a) target t)
    → Settles (record_planned_action action status risk tool >>= k) target s
unfolding record_planned_action
plan-Settles action status risk tool k target s settles =
    by_plan (planned_action action status risk tool s) (planned_before action s)
  where
    by_plan :
        (a : RecoveryAction) (o : Option RecoveryAction) → Settles (plan_unless a o >>= k) target s
    by_plan a none = settles a _ refl
    by_plan a (some b) = settles b s refl

blocked_legal :
    (e : PolicyEvaluationResult)
    → can_transition RecoveryCaseStatus.policy_check (blocked_target e) ≡ true
unfolding can_transition
blocked_legal e = by_reason (exists_in mentions_mismatch e.reason)
  where
    by_reason :
        (b : Bool)
        → can_transition RecoveryCaseStatus.policy_check
            (if b then RecoveryCaseStatus.escalated else RecoveryCaseStatus.stopped)
          ≡ true
    by_reason true = refl
    by_reason false = refl

module _ (s : Session) (check : s.case.status ≡ RecoveryCaseStatus.policy_check) where
  denied-Settles :
      (action : RecoveryActionType) (e : PolicyEvaluationResult)
      → Settles (on_denied action e) (blocked_target e) s
  denied-Settles action e =
      plan-Settles action RecoveryActionStatus.blocked e.risk_level none
        (λ _. transition_case (blocked_target e)) (blocked_target e) s
        (λ a t same. transition-Settles (blocked_target e) t (rw (same, check) (blocked_legal e)))

  approval-Settles :
      (settings : RecoverySettings) (action : RecoveryActionType) (e : PolicyEvaluationResult)
      → Settles (on_approval settings action e) RecoveryCaseStatus.awaiting_approval s
  unfolding transition_case transition_case_at can_transition
  approval-Settles settings action e =
      plan-Settles action RecoveryActionStatus.approval_required e.risk_level _
        (λ a. request_approval settings a >> transition_case RecoveryCaseStatus.awaiting_approval)
        RecoveryCaseStatus.awaiting_approval s (λ a t same. rw (same, check) (refl, refl))

  allowed-Settles :
      (action : RecoveryActionType) (e : PolicyEvaluationResult)
      → Settles (on_allowed action e) RecoveryCaseStatus.action_completed s
  unfolding can_transition
  allowed-Settles action e =
      let plan = record_planned_action action RecoveryActionStatus.pending e.risk_level none in
      then-Settles (plan >> transition_case RecoveryCaseStatus.executing)
        RecoveryCaseStatus.executing RecoveryCaseStatus.action_completed s
        (plan-Settles action RecoveryActionStatus.pending e.risk_level none
          (λ _. transition_case RecoveryCaseStatus.executing) RecoveryCaseStatus.executing s
          (λ a t same. transition-Settles RecoveryCaseStatus.executing t (rw (same, check) refl)))
        refl

  verdict-Settles :
      (settings : RecoverySettings) (action : RecoveryActionType) (e : PolicyEvaluationResult)
      → Settles (follow_verdict settings action e) (verdict_status e) s
  verdict-Settles settings action e = elim (Bool-cases e.allowed) [
    | inr d ↦ rw d (denied-Settles action e)
    | inl a ↦ elim (Bool-cases e.requires_approval) [
      | inl r ↦ rw (a, r) (approval-Settles settings action e)
      | inr r ↦ rw (a, r) (allowed-Settles action e)
    ]
  ]

-- The verdict that the processor follows: that of the action it chooses, on the facts that it
-- gathers.
abbrev pub verdict_on : Session → PolicyContext → PolicyEvaluationResult
verdict_on s ctx = evaluate_action ctx (plain_action (choose_action s))

decide-Settles :
    (settings : RecoverySettings) (s : Session) (ctx : PolicyContext)
    → s.case.status ≡ RecoveryCaseStatus.policy_check
    → (build_policy_context settings s).0 ≡ ok ctx
    → Settles (decide settings) (verdict_status (verdict_on s ctx)) s
unfolding decide evaluate_and_persist
decide-Settles settings s ctx check built =
    rw (built, build_policy_context-same settings s)
      (verdict-Settles (evaluate_and_persist ctx (plain_action (choose_action s)) s).1 check
        ctx.settings (choose_action s) (verdict_on s ctx))

-- A run of the processor on a case that is not past the policy check, whose merchant is found,
-- raises nothing and ends where the verdict on the chosen action says: escalated when it is denied
-- for a suspicion or a mismatch, stopped when it is denied otherwise, awaiting approval when it is
-- allowed with approval, and with its action completed when it is allowed without.
pub process_locked_case-settles :
    (settings : RecoverySettings) (s : Session) (ctx : PolicyContext)
    → is_early s.case.status ≡ true
    → (build_policy_context settings s).0 ≡ ok ctx
    → let (r, s') = process_locked_case settings s in
      (r ≡ ok tt) × (s'.case.status ≡ verdict_status (verdict_on s ctx))
unfolding process_locked_case build_policy_context choose_action retry_count is_suspicious
    is_source_mismatch communications_last_24h discount_spent_today
process_locked_case-settles settings s ctx early built =
    let (version, closed, audits, walk) = walk_to_policy_check-Walked s early in
    rw (early_goes_on s.case.status early, early_is_handled s.case.status early, walk)
      (decide-Settles settings (at_check s version closed audits) ctx refl built)
