-- ===== src/Optimizer/Config.antt =====
-- packages/domain/recoverai_domain/optimizer/config.py: prototype costs, the tie margin and the
-- ranks by which ties are broken. The values that the environment may replace are fields.
use revive_x.Prelude.{ℕ, Bool, true, false}
use revive_x.Prelude.Int.{pos}
use revive_x.Enums.{RecoveryActionType}
use revive_x.Errors.{Result, ok, ◌>>=◌}
use revive_x.Money.{Decimal, of_cents, of_whole, as_money}

-- `RECOVERY_INTERVENTIONS`
abbrev pub is_recovery : RecoveryActionType → Bool
is_recovery RecoveryActionType.escalate = false
is_recovery RecoveryActionType.do_nothing = false
is_recovery _ = true

-- `CONTROL_STRATEGIES`
abbrev pub is_control : RecoveryActionType → Bool
is_control RecoveryActionType.escalate = true
is_control RecoveryActionType.do_nothing = true
is_control _ = false

-- `FRICTION_RANK`
abbrev pub friction_rank : RecoveryActionType → ℕ
friction_rank RecoveryActionType.do_nothing = 0
friction_rank RecoveryActionType.retry_later = 1
friction_rank RecoveryActionType.send_payment_link = 2
friction_rank RecoveryActionType.send_reminder = 3
friction_rank RecoveryActionType.retry_now = 4
friction_rank RecoveryActionType.offer_discount = 5
friction_rank RecoveryActionType.escalate = 6

-- `SIMPLICITY_RANK`
abbrev pub simplicity_rank : RecoveryActionType → ℕ
simplicity_rank RecoveryActionType.do_nothing = 0
simplicity_rank RecoveryActionType.send_reminder = 1
simplicity_rank RecoveryActionType.retry_later = 2
simplicity_rank RecoveryActionType.send_payment_link = 3
simplicity_rank RecoveryActionType.retry_now = 4
simplicity_rank RecoveryActionType.offer_discount = 5
simplicity_rank RecoveryActionType.escalate = 6

pub record ActionCostAssumptions : Type 0 where
  pub intervention_cost : Decimal
  pub communication_cost : Decimal
  pub risk_penalty : Decimal

pub record OptimizerSettings : Type 0 where
  pub prediction_ttl_minutes : ℕ
  pub default_discount_percent : Decimal
  pub tie_epsilon : Decimal
  pub retry_now : ActionCostAssumptions
  pub retry_later : ActionCostAssumptions
  pub send_payment_link : ActionCostAssumptions
  pub send_reminder : ActionCostAssumptions
  pub offer_discount : ActionCostAssumptions
  pub escalate : ActionCostAssumptions
  pub do_nothing : ActionCostAssumptions

abbrev cost_in_cents : ℕ → ℕ → ℕ → ActionCostAssumptions
cost_in_cents intervention communication risk = record {
  intervention_cost = of_cents intervention;
  communication_cost = of_cents communication;
  risk_penalty = of_cents risk;
}

-- The defaults of the dataclass.
abbrev pub default_settings : OptimizerSettings
default_settings = record {
  prediction_ttl_minutes = 60;
  default_discount_percent = of_whole 5;
  tie_epsilon = record { num = pos 1; scale = 2 };
  retry_now = cost_in_cents 500 0 1500;
  retry_later = cost_in_cents 200 0 400;
  send_payment_link = cost_in_cents 300 150 800;
  send_reminder = cost_in_cents 50 150 1200;
  offer_discount = cost_in_cents 100 150 4000;
  escalate = cost_in_cents 25000 0 3000;
  do_nothing = cost_in_cents 0 0 0;
}

abbrev assumptions_for : OptimizerSettings → RecoveryActionType → ActionCostAssumptions
assumptions_for s RecoveryActionType.retry_now = s.retry_now
assumptions_for s RecoveryActionType.retry_later = s.retry_later
assumptions_for s RecoveryActionType.send_payment_link = s.send_payment_link
assumptions_for s RecoveryActionType.send_reminder = s.send_reminder
assumptions_for s RecoveryActionType.offer_discount = s.offer_discount
assumptions_for s RecoveryActionType.escalate = s.escalate
assumptions_for s RecoveryActionType.do_nothing = s.do_nothing

-- The three costs in cents.
pub record Costs : Type 0 where
  pub intervention : ℕ
  pub communication : ℕ
  pub risk : ℕ

-- `costs_for`; an action is a value of the enum, so no lookup fails.
unfoldable pub costs_for : OptimizerSettings → RecoveryActionType → Result Costs
costs_for settings action = do
  let assumptions = assumptions_for settings action
  intervention ← as_money assumptions.intervention_cost
  communication ← as_money assumptions.communication_cost
  risk ← as_money assumptions.risk_penalty
  ok (record { intervention = intervention; communication = communication; risk = risk })
