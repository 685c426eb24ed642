-- ===== src/Processor/Approvals.antt =====
-- What processor.py records when an action needs an approval.
use revive_x.Prelude.{
  ℕ, ◌≡◌, refl, sym, ap, inl, inr, false≢true, not, Bool, true, false, Option, none, some, List, [],
  ◌∷◌, ◌++◌, Memᴰ, map, ◌==◌, arith, Bool-cases, if◌then◌else◌, ◌&&◌,
}
use revive_x.Prelude.Lists.{find-member}
use revive_x.Enums.{RecoveryCaseStatus, RecoveryActionType, RecoveryActionStatus, ApprovalStatus}
use revive_x.Errors.{ok}
use revive_x.Models.{RecoveryCase, RecoveryAction, Approval, CaseFingerprint, phase5}
use revive_x.Settings.{RecoverySettings}
use revive_x.Session.{Session, Action, ◌>>=◌, ◌>>◌}
use revive_x.StateMachine.{can_transition}
use revive_x.Transitions.{transition_case_at, transition_case}
use revive_x.Policy.Words.{PolicyEvaluationResult, plain_action}
use revive_x.Policy.Engine.{PolicyContext}
use revive_x.Policy.Context.{
  build_policy_context, evaluate_and_persist, retry_count, is_suspicious, is_source_mismatch,
  communications_last_24h, discount_spent_today,
}
use revive_x.Policy.Context.Facts.{build_policy_context-same}
use revive_x.Processor.Outcome.{
  is_early, early_goes_on, early_is_handled, at_check, walk_to_policy_check-Walked, verdict_on,
}
use revive_x.Processor.{
  add_action, await, fingerprint_of, same_key, planned_action, planned_before, plan_unless,
  record_planned_action, request_approval, on_approval, on_denied, on_allowed, follow_verdict,
  tool_for, choose_action, decide, process_locked_case,
}

-- A pending approval of the case, and a recorded action that names it and the facts it is given on.
abbrev pub Awaits : RecoveryCase → Session → Type 0
Awaits case t =
    (approval : Approval) × Memᴰ approval t.approvals
    × (approval.status ≡ ApprovalStatus.pending)
    × (approval.recovery_case_id ≡ case.id)
    × ((action : RecoveryAction) × Memᴰ action t.actions
        × (approval.recovery_action_id ≡ some action.id)
        × (action.approval_id ≡ some approval.id)
        × (action.case_fingerprint ≡ some (fingerprint_of case)))

module _ {A : Type 0} where
  member_last : (xs : List A) (x : A) → Memᴰ x (xs ++ x ∷ [])
  member_last [] x = Memᴰ.head refl
  member_last (y ∷ ys) x = Memᴰ.tail (member_last ys x)

  member-map : {B : Type 0} (f : A → B) (xs : List A) (x : A) → Memᴰ x xs → Memᴰ (f x) (map f xs)
  member-map f [] x m = elim m [ ]
  member-map f (y ∷ ys) x (Memᴰ.head e) = Memᴰ.head (ap f e)
  member-map f (y ∷ ys) x (Memᴰ.tail m) = Memᴰ.tail (member-map f ys x m)

await_marks :
    (a : RecoveryAction) (approval : ℕ) (facts : CaseFingerprint)
    → let b = await a.id approval facts a in
      (b.id ≡ a.id) × (b.approval_id ≡ some approval) × (b.case_fingerprint ≡ some facts)
await_marks a approval facts = rw (same a.id) (refl, refl, refl)
  where
    same : (n : ℕ) → (n == n) ≡ true
    same n = ground arith

request_approval-Awaits :
    (settings : RecoverySettings) (a : RecoveryAction) (s : Session)
    → Memᴰ a s.actions
    → Awaits s.case (request_approval settings a s).1
request_approval-Awaits settings a s m =
    let (same, named, facts) = await_marks a s.next_id (fingerprint_of s.case) in
    (
      _,
      member_last s.approvals _,
      refl,
      refl,
      (
        await a.id s.next_id (fingerprint_of s.case) a,
        member-map (await a.id s.next_id (fingerprint_of s.case)) s.actions a m,
        ap some (sym same),
        named,
        facts,
      ),
    )

transition_case-Awaits :
    (target : RecoveryCaseStatus) (case : RecoveryCase) (s : Session)
    → Awaits case s
    → Awaits case (transition_case target s).1
unfolding transition_case transition_case_at
transition_case-Awaits target case s h = elim (Bool-cases (can_transition s.case.status target)) [
  | inl l ↦ rw l h
  | inr l ↦ rw l h
]

-- On the branch of an action that needs an approval, whether the action is new or was planned
-- before, a pending approval of the case is recorded, and an action that names it and the facts of
-- the case on which it is asked.
pub on_approval-Awaits :
    (settings : RecoverySettings) (action : RecoveryActionType) (e : PolicyEvaluationResult)
    (s : Session)
    → Awaits s.case (on_approval settings action e s).1
unfolding record_planned_action
on_approval-Awaits settings action e s =
    by_plan
      (planned_action action RecoveryActionStatus.approval_required e.risk_level
        (some (tool_for action)) s)
      (planned_before action s) refl
  where
    asked : RecoveryAction → Action (Unit {0})
    asked a = request_approval settings a >> transition_case RecoveryCaseStatus.awaiting_approval

    by_plan :
        (a : RecoveryAction) (o : Option RecoveryAction)
        → planned_before action s ≡ o
        → Awaits s.case ((plan_unless a o >>= asked) s).1
    by_plan a none h =
        transition_case-Awaits RecoveryCaseStatus.awaiting_approval s.case
          (request_approval settings a (add_action a s)).1
          (request_approval-Awaits settings a (add_action a s) (member_last s.actions a))
    by_plan a (some b) h =
        transition_case-Awaits RecoveryCaseStatus.awaiting_approval s.case
          (request_approval settings b s).1
          (request_approval-Awaits settings b s (
            find-member
              (λ (c : RecoveryAction).
                c.merchant_id == s.case.merchant_id
                && same_key c.idempotency_key (phase5 s.case.id action))
              s.actions b h))

follow_verdict-Awaits :
    (settings : RecoverySettings) (action : RecoveryActionType) (e : PolicyEvaluationResult)
    (s : Session)
    → e.allowed ≡ true
    → e.requires_approval ≡ true
    → Awaits s.case (follow_verdict settings action e s).1
follow_verdict-Awaits settings action e s = by_flags e.allowed e.requires_approval
  where
    by_flags :
        (a r : Bool)
        → a ≡ true
        → r ≡ true
        → Awaits s.case
            ((if not a
                then on_denied action e
                else if r
                then on_approval settings action e
                else on_allowed action e)
              s).1
    by_flags true true _ _ = on_approval-Awaits settings action e s
    by_flags true false _ h = absurd (false≢true h)
    by_flags false r h _ = absurd (false≢true h)

decide-Awaits :
    (settings : RecoverySettings) (s : Session) (ctx : PolicyContext)
    → (build_policy_context settings s).0 ≡ ok ctx
    → (verdict_on s ctx).allowed ≡ true
    → (verdict_on s ctx).requires_approval ≡ true
    → Awaits s.case (decide settings s).1
unfolding decide evaluate_and_persist
decide-Awaits settings s ctx built allows asks =
    rw (built, build_policy_context-same settings s)
      (follow_verdict-Awaits ctx.settings (choose_action s) (verdict_on s ctx)
        (evaluate_and_persist ctx (plain_action (choose_action s)) s).1 allows asks)

-- When the policy allows the chosen action of a case that is not past the policy check, but wants
-- an approval, the run of the processor leaves a pending approval of the case, and an action that
-- names it and the facts of the case on which it is asked: the amounts, the payment, the customer
-- and the last mismatch.
pub process_locked_case-Awaits :
    (settings : RecoverySettings) (s : Session) (ctx : PolicyContext)
    → is_early s.case.status ≡ true
    → (build_policy_context settings s).0 ≡ ok ctx
    → (verdict_on s ctx).allowed ≡ true
    → (verdict_on s ctx).requires_approval ≡ true
    → Awaits s.case (process_locked_case settings s).1
unfolding process_locked_case build_policy_context choose_action retry_count is_suspicious
    is_source_mismatch communications_last_24h discount_spent_today
process_locked_case-Awaits settings s ctx early built allows asks =
    let (version, closed, audits, walk) = walk_to_policy_check-Walked s early in
    rw (early_goes_on s.case.status early, early_is_handled s.case.status early, walk)
      (decide-Awaits settings (at_check s version closed audits) ctx built allows asks)
