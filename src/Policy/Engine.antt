-- ===== src/Policy/Engine.antt =====
-- packages/domain/recoverai_domain/policy_engine.py: the rules that an action meets, and how their
-- hits make up one evaluation. `_RuleHit.allowed` and `requires_approval` may be absent, as `None`
-- is there; the policy version is a text that no rule reads.
pub mod Fold
pub mod Verdict
pub mod Hours
pub mod Amounts
use revive_x.Prelude.{
  ℕ, ◌+◌, ◌/◌, ◌%◌, Bool, true, false, not, ◌&&◌, ◌||◌, leb, ltb, ◌==◌, if◌then◌else◌, Option, none,
  some, String, List, [], ◌∷◌, ◌++◌, str_eq, exists_in,
}
use revive_x.Enums.{RecoveryActionType, RiskLevel, action_value}
use revive_x.Money.{Decimal, of_cents, of_whole, less_than, add, multiply, percent_of}
use revive_x.Settings.{RecoverySettings}
use revive_x.Policy.Words.{
  PolicyId, Reason, is_automatic, is_human_path, is_communication, is_retry, is_offer_discount,
  is_send_reminder, parse_action, ProposedAction, PolicyEvaluationResult,
}

-- What the rules read of `PolicyContext`: the amount of its case in cents, and the time in seconds.
pub record PolicyContext : Type 0 where
  pub amount_at_risk : ℕ
  pub settings : RecoverySettings
  pub now : ℕ
  pub retry_count : ℕ
  pub communications_last_24h : ℕ
  pub discount_spent_today : Decimal
  pub blocked_action_types : List String
  pub customer_opted_out : Bool
  pub suspicious : Bool
  pub source_mismatch : Bool
  pub discount_eligible : Bool

pub record RuleHit : Type 0 where
  pub policy_id : PolicyId
  pub allowed : Option Bool
  pub requires_approval : Option Bool
  pub risk_level : Option RiskLevel
  pub reason : Reason

-- `_RISK_RANK`
abbrev pub risk_rank : RiskLevel → ℕ
risk_rank RiskLevel.green = 0
risk_rank RiskLevel.yellow = 1
risk_rank RiskLevel.red = 2

abbrev pub graded : PolicyId → Bool → RiskLevel → Reason → RuleHit
graded id approval risk reason = record {
  policy_id = id;
  allowed = some true;
  requires_approval = some approval;
  risk_level = some risk;
  reason = reason;
}

abbrev pub denial : PolicyId → RiskLevel → Reason → RuleHit
denial id risk reason = record {
  policy_id = id;
  allowed = some false;
  requires_approval = none;
  risk_level = some risk;
  reason = reason;
}

-- `_value_risk`
unfoldable pub value_risk : PolicyContext → RecoveryActionType → RuleHit
value_risk ctx action =
    if is_human_path action
    then graded PolicyId.value_threshold false RiskLevel.green Reason.human_path
    else if less_than ctx.settings.high_value_approval_threshold (of_cents ctx.amount_at_risk)
    then graded PolicyId.high_value_approval_threshold true RiskLevel.red Reason.high_value
    else if less_than ctx.settings.medium_value_approval_threshold (of_cents ctx.amount_at_risk)
    then graded PolicyId.medium_value_approval_threshold true RiskLevel.yellow Reason.medium_value
    else graded PolicyId.value_threshold false RiskLevel.green Reason.low_value

-- `if test: hits.append(hit)`
abbrev pub when : Bool → RuleHit → List RuleHit
when true hit = hit ∷ []
when false hit = []

-- `context.now.hour`, of a time in UTC
abbrev pub hour_of : ℕ → ℕ
hour_of now = now / 3600 % 24

-- `_in_quiet_hours`, of an hour
unfoldable pub quiet_at : ℕ → ℕ → ℕ → Bool
quiet_at hour start end =
    if start == end
    then false
    else if ltb start end
    then leb start hour && ltb hour end
    else leb start hour || ltb hour end

abbrev pub in_quiet_hours : PolicyContext → Bool
in_quiet_hours ctx =
    quiet_at (hour_of ctx.now) ctx.settings.quiet_hours_start ctx.settings.quiet_hours_end

-- The proposed amount, or the percentage of the amount at risk where none is proposed.
abbrev pub concession : ℕ → Decimal → Option Decimal → Decimal
concession amount_at_risk percent (some amount) = amount
concession amount_at_risk percent none = percent_of (multiply (of_cents amount_at_risk) percent)

-- The spending of the day with the proposed concession.
abbrev pub projected_discount : PolicyContext → ProposedAction → Decimal → Decimal
projected_discount ctx proposed percent =
    add ctx.discount_spent_today (concession ctx.amount_at_risk percent proposed.discount_amount)

-- `_discount_rules` after its early return
abbrev pub discount_rules_for : PolicyContext → ProposedAction → Decimal → List RuleHit
discount_rules_for ctx proposed percent =
    when (less_than ctx.settings.max_discount_percent percent)
      (denial PolicyId.max_discount_percent RiskLevel.red Reason.discount_too_large)
    ++ when (not ctx.discount_eligible)
        (denial PolicyId.discount_eligibility RiskLevel.red Reason.customer_not_eligible)
    ++ when
        (less_than ctx.settings.max_daily_discount_budget (projected_discount ctx proposed percent))
        (denial PolicyId.daily_discount_budget RiskLevel.red Reason.budget_exceeded)
    ++ when (less_than (of_whole 0) percent) (record {
      policy_id = PolicyId.discount_recorded;
      allowed = none;
      requires_approval = none;
      risk_level = some RiskLevel.yellow;
      reason = Reason.discount_bounded;
    })

-- `_discount_rules`
unfoldable pub discount_rules : PolicyContext → ProposedAction → Option Decimal → List RuleHit
discount_rules ctx proposed none =
    denial PolicyId.max_discount_percent RiskLevel.red Reason.discount_required ∷ []
discount_rules ctx proposed (some percent) = discount_rules_for ctx proposed percent

-- `_communication_rules`
unfoldable pub communication_rules : PolicyContext → RecoveryActionType → List RuleHit
communication_rules ctx action =
    when ctx.customer_opted_out
      (denial PolicyId.customer_communication_opt_out RiskLevel.red Reason.opted_out)
    ++ when (leb ctx.settings.max_communications_per_day ctx.communications_last_24h)
        (denial PolicyId.communication_frequency RiskLevel.yellow Reason.frequency_limit)
    ++ when (is_send_reminder action && in_quiet_hours ctx)
        (denial PolicyId.quiet_hours RiskLevel.yellow Reason.quiet_hours_now)

abbrev pub is_blocked_type : PolicyContext → RecoveryActionType → Bool
is_blocked_type ctx action = exists_in (str_eq (action_value action)) ctx.blocked_action_types

-- `_restriction_rules`
unfoldable pub restriction_rules :
    PolicyContext → RecoveryActionType → ProposedAction → List RuleHit
restriction_rules ctx action proposed =
    when (is_blocked_type ctx action)
      (denial PolicyId.blocked_action_types RiskLevel.red Reason.action_blocked)
    ++ when (not ctx.settings.automatic_recovery_enabled && is_automatic action)
        (denial PolicyId.automatic_recovery_kill_switch RiskLevel.red Reason.kill_switch)
    ++ when ((ctx.suspicious || ctx.source_mismatch) && is_automatic action)
        (denial PolicyId.suspicious_source_mismatch RiskLevel.red Reason.suspicious_or_mismatched)
    ++ when (is_retry action && leb ctx.settings.max_retry_attempts ctx.retry_count)
        (denial PolicyId.max_retry_attempts RiskLevel.red Reason.retry_limit)
    ++ (if is_offer_discount action
        then discount_rules ctx proposed proposed.discount_percent
        else [])
    ++ (if is_communication action then communication_rules ctx action else [])

abbrev pub is_false : Option Bool → Bool
is_false (some false) = true
is_false _ = false

abbrev pub is_true : Option Bool → Bool
is_true (some true) = true
is_true _ = false

abbrev pub raise_risk : RiskLevel → Option RiskLevel → RiskLevel
raise_risk risk none = risk
raise_risk risk (some level) = if ltb (risk_rank risk) (risk_rank level) then level else risk

-- The body of the loop over the hits. Every hit has a reason, so the default one is never needed.
abbrev pub absorb : PolicyEvaluationResult → RuleHit → PolicyEvaluationResult
absorb acc hit = record {
  allowed = if is_false hit.allowed then false else acc.allowed;
  requires_approval = if is_true hit.requires_approval then true else acc.requires_approval;
  risk_level = raise_risk acc.risk_level hit.risk_level;
  reason = acc.reason ++ hit.reason ∷ [];
  policy_ids = acc.policy_ids ++ hit.policy_id ∷ [];
}

unfoldable pub collect : PolicyEvaluationResult → List RuleHit → PolicyEvaluationResult
collect acc [] = acc
collect acc (hit ∷ hits) = collect (absorb acc hit) hits

abbrev pub no_hits : PolicyEvaluationResult
no_hits = record {
  allowed = true;
  requires_approval = false;
  risk_level = RiskLevel.green;
  reason = [];
  policy_ids = [];
}

-- `if not allowed: requires_approval = False`
abbrev pub closed : PolicyEvaluationResult → PolicyEvaluationResult
closed r = record r { requires_approval = r.requires_approval && r.allowed }

abbrev pub rejected_action : PolicyEvaluationResult
rejected_action = record {
  allowed = false;
  requires_approval = false;
  risk_level = RiskLevel.red;
  reason = Reason.unknown_action ∷ [];
  policy_ids = PolicyId.closed_action_enum ∷ [];
}

abbrev pub rule_hits : PolicyContext → RecoveryActionType → ProposedAction → List RuleHit
rule_hits ctx action proposed = value_risk ctx action ∷ restriction_rules ctx action proposed

-- `evaluate_action` once the action is parsed
unfoldable pub evaluate_parsed :
    PolicyContext → ProposedAction → Option RecoveryActionType → PolicyEvaluationResult
evaluate_parsed ctx proposed none = rejected_action
evaluate_parsed ctx proposed (some action) =
    closed (collect no_hits (rule_hits ctx action proposed))

-- `PolicyEngine.evaluate_action`
unfoldable pub evaluate_action : PolicyContext → ProposedAction → PolicyEvaluationResult
evaluate_action ctx proposed = evaluate_parsed ctx proposed (parse_action proposed.action_type)
