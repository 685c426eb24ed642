-- ===== src/Policy/Engine/Verdict.antt =====
-- The verdict of policy_engine.py against a description of it that lists the conditions under which
-- an action is denied.
use revive_x.Prelude.{
  ◌≡◌, refl, Bool, true, false, not, ◌&&◌, ◌||◌, Option, none, some, List, [], arith, exists_in,
  leb, if◌then◌else◌,
}
use revive_x.Enums.{RecoveryActionType}
use revive_x.Money.{Decimal, of_cents, less_than}
use revive_x.Policy.Words.{
  ProposedAction, is_automatic, is_human_path, is_communication, is_retry, is_offer_discount,
  is_send_reminder, parse_action,
}
use revive_x.Policy.Engine.{
  PolicyContext, RuleHit, value_risk, in_quiet_hours, projected_discount, discount_rules,
  communication_rules, is_blocked_type, restriction_rules, no_hits, rule_hits, evaluate_parsed,
  evaluate_action,
}
use revive_x.Policy.Engine.Fold.{
  denies, wants_approval, collect-allowed, collect-requires_approval, exists_in-append,
  exists_in-when, and_true, and_false,
}

-- A discount is denied without a percentage, above the largest one, for a customer who is not
-- eligible, and beyond the day's budget.
abbrev pub discount_denied : PolicyContext → ProposedAction → Option Decimal → Bool
discount_denied ctx proposed none = true
discount_denied ctx proposed (some percent) =
    less_than ctx.settings.max_discount_percent percent
    || not ctx.discount_eligible
    || less_than ctx.settings.max_daily_discount_budget (projected_discount ctx proposed percent)

abbrev pub communication_denied : PolicyContext → RecoveryActionType → Bool
communication_denied ctx action =
    ctx.customer_opted_out
    || leb ctx.settings.max_communications_per_day ctx.communications_last_24h
    || (is_send_reminder action && in_quiet_hours ctx)

abbrev pub is_denied : PolicyContext → RecoveryActionType → ProposedAction → Bool
is_denied ctx action proposed =
    is_blocked_type ctx action
    || (not ctx.settings.automatic_recovery_enabled && is_automatic action)
    || ((ctx.suspicious || ctx.source_mismatch) && is_automatic action)
    || (is_retry action && leb ctx.settings.max_retry_attempts ctx.retry_count)
    || (is_offer_discount action && discount_denied ctx proposed proposed.discount_percent)
    || (is_communication action && communication_denied ctx action)

-- Approval is a matter of the amount alone.
abbrev pub needs_approval : PolicyContext → RecoveryActionType → Bool
needs_approval ctx action =
    not (is_human_path action)
    && (less_than ctx.settings.high_value_approval_threshold (of_cents ctx.amount_at_risk)
        || less_than ctx.settings.medium_value_approval_threshold (of_cents ctx.amount_at_risk))

ruleset hit_laws = (exists_in-append, exists_in-when)

discount_hits :
    (ctx : PolicyContext) (proposed : ProposedAction) (percent : Option Decimal)
    → exists_in denies (discount_rules ctx proposed percent) ≡ discount_denied ctx proposed percent
unfolding discount_rules
discount_hits ctx proposed none = refl
discount_hits ctx proposed (some percent) = simp hit_laws (ground arith)

communication_hits :
    (ctx : PolicyContext) (action : RecoveryActionType)
    → exists_in denies (communication_rules ctx action) ≡ communication_denied ctx action
unfolding communication_rules
communication_hits ctx action = simp hit_laws (ground arith)

hits_if :
    (test : RuleHit → Bool) (b : Bool) (hits : List RuleHit)
    → exists_in test (if b then hits else []) ≡ (b && exists_in test hits)
hits_if test true hits = ground arith
hits_if test false hits = refl

restriction_hits :
    (ctx : PolicyContext) (action : RecoveryActionType) (proposed : ProposedAction)
    → exists_in denies (restriction_rules ctx action proposed) ≡ is_denied ctx action proposed
unfolding restriction_rules
restriction_hits ctx action proposed =
    simp (hit_laws, hits_if, discount_hits, communication_hits, and_true)

-- No restriction asks for approval.
discount_approval :
    (ctx : PolicyContext) (proposed : ProposedAction) (percent : Option Decimal)
    → exists_in wants_approval (discount_rules ctx proposed percent) ≡ false
unfolding discount_rules
discount_approval ctx proposed none = refl
discount_approval ctx proposed (some percent) = simp (hit_laws, and_false)

communication_approval :
    (ctx : PolicyContext) (action : RecoveryActionType)
    → exists_in wants_approval (communication_rules ctx action) ≡ false
unfolding communication_rules
communication_approval ctx action = simp (hit_laws, and_false)

restriction_approval :
    (ctx : PolicyContext) (action : RecoveryActionType) (proposed : ProposedAction)
    → exists_in wants_approval (restriction_rules ctx action proposed) ≡ false
unfolding restriction_rules
restriction_approval ctx action proposed =
    simp (hit_laws, hits_if, discount_approval, communication_approval, and_false)

-- The value rule denies nothing, and asks for approval by the amount.
value_risk_lem :
    (ctx : PolicyContext) (action : RecoveryActionType)
    → (denies (value_risk ctx action) ≡ false)
      × (wants_approval (value_risk ctx action) ≡ needs_approval ctx action)
unfolding value_risk
value_risk_lem ctx action = ground arith

-- Of a known action: it is allowed exactly when none of the listed conditions denies it, and it
-- needs approval exactly when it is allowed, is no human-path action, and the amount at risk is
-- above one of the two thresholds.
pub evaluate_action_lem :
    (ctx : PolicyContext) (proposed : ProposedAction) (action : RecoveryActionType)
    → parse_action proposed.action_type ≡ some action
    → let r = evaluate_action ctx proposed in
      (r.allowed ≡ not (is_denied ctx action proposed))
      × (r.requires_approval ≡ (needs_approval ctx action && not (is_denied ctx action proposed)))
unfolding evaluate_action evaluate_parsed
evaluate_action_lem ctx proposed action h =
    let hits = rule_hits ctx action proposed in
    let (grades, asks) = value_risk_lem ctx action in
    rw h (
      ground (
        arith,
        grades,
        asks,
        collect-allowed no_hits hits,
        collect-requires_approval no_hits hits,
        restriction_hits ctx action proposed,
        restriction_approval ctx action proposed,
      ))
