-- ===== src/Tests/Amounts.antt =====
-- Amounts of money, and the choice of the optimizer.
use revive_x.Prelude.{
  ℕ, suc, ◌+◌, ◌≡◌, ◌≤◌, ◌<◌, ◌↔◌, refl, true, false, ◌||◌, ltb, if◌then◌else◌, some, List, [], ◌∷◌,
  Memᴰ, arith,
}
use revive_x.Prelude.Int.{ℤ, pos, negsuc, ◌+ℤ◌, ◌-ℤ◌, ◌*ℤ◌}
use revive_x.Enums.{RecoveryActionType}
use revive_x.Errors.{ok, err, value_error, invalid_operation}
use revive_x.Money.{
  Decimal, to_cents, as_money, signed_money, quantize, multiply, less_than, round_half_even,
  coefficient_limit,
}
use revive_x.Money.Laws.{IsNearest, as_money-IsNearest, as_money_refuses}
use revive_x.Optimizer.Config.{default_settings}
use revive_x.Optimizer.Erv.{
  probability_to_decimal, expected_recovered_revenue, expected_net_recovery,
}
use revive_x.Optimizer.Erv.Bounds.{expected_net_recovery_lem}
use revive_x.Optimizer.Ranking.{
  CandidateAction, Choice, eligible_candidates, select_action, max_with_ties,
}
use revive_x.Optimizer.Ranking.Winner.{IsWinner}
use revive_x.Optimizer.Ranking.Selected.{contenders, IsContender, select_action-IsWinner}
use revive_x.Optimizer.Ranking.Control.{ControlSpec, select_action-control}
use revive_x.Optimizer.Ranking.Total.{select_action_total}

-- 0.625
abbrev likely : Decimal
likely = record { num = pos 625; scale = 3 }

as_money-IsNearest_example :
    (cents : ℕ) × IsNearest 625 3 cents
    × (as_money likely ≡ (if ltb cents coefficient_limit then ok cents else err invalid_operation))
as_money-IsNearest_example = as_money-IsNearest likely 625 refl

-- A debt of one cent and a half.
abbrev debt : Decimal
debt = record { num = negsuc 14; scale = 3 }

as_money_refuses_example :
    ((as_money debt ≡ err value_error) ↔ (
      (n : ℕ) × (debt.num ≡ negsuc n)
      × (0 < to_cents (suc n) 3)
      × (to_cents (suc n) 3 < coefficient_limit)))
    × ((as_money debt ≡ err invalid_operation) ↔ (coefficient_limit ≤ to_cents 15 3))
as_money_refuses_example = as_money_refuses debt

expected_net_recovery_lem_example :
    (expected : ℕ) × (expected_recovered_revenue likely 100000 ≡ ok expected)
    × (expected ≤ 100000)
    × (pos 61300 +ℤ pos (200 + 0 + 0 + 1000) ≡ pos expected)
unfolding expected_net_recovery expected_recovered_revenue probability_to_decimal as_money
    signed_money quantize coefficient_limit to_cents multiply less_than round_half_even ◌*ℤ◌ ◌-ℤ◌
    ◌+ℤ◌
expected_net_recovery_lem_example = expected_net_recovery_lem likely 100000 200 0 0 1000 refl

-- A candidate that is worth its number of cents.
abbrev candidate : RecoveryActionType → ℤ → CandidateAction
candidate action value = record {
  action = action;
  probability = some likely;
  intervention_cost = 200;
  discount_cost = 0;
  communication_cost = 0;
  risk_penalty = 400;
  expected_value = value;
  allowed = true;
  requires_approval = false;
  missing_probability = false;
}

-- Only a retry at a loss, and the two control strategies.
abbrev losing : List CandidateAction
losing =
    candidate RecoveryActionType.retry_later (negsuc 99)
    ∷ candidate RecoveryActionType.escalate (negsuc 2999)
    ∷ candidate RecoveryActionType.do_nothing (pos 0)
    ∷ []

select_action_total_example :
    (choice : Choice) × (select_action losing default_settings false false ≡ ok choice)
unfolding signed_money quantize coefficient_limit to_cents round_half_even
select_action_total_example =
    select_action_total losing default_settings false false (pos 1) refl (ground arith)

select_action-control_example :
    (choice : Choice) × (select_action losing default_settings true false ≡ ok choice)
    × ControlSpec (eligible_candidates losing) (true || false) choice
select_action-control_example = select_action-control losing default_settings true false refl

-- A payment link that is worth more than a retry.
abbrev gainful : List CandidateAction
gainful =
    candidate RecoveryActionType.retry_later (pos 61500)
    ∷ candidate RecoveryActionType.send_payment_link (pos 62000)
    ∷ candidate RecoveryActionType.do_nothing (pos 0)
    ∷ []

select_action-IsWinner_example :
    let w = candidate RecoveryActionType.send_payment_link (pos 62000) in
    IsContender w
    × Memᴰ w gainful
    × (false ≡ w.requires_approval)
    × IsWinner (contenders gainful) default_settings w
unfolding select_action max_with_ties signed_money quantize coefficient_limit to_cents
    round_half_even ◌-ℤ◌ ◌+ℤ◌
select_action-IsWinner_example =
    select_action-IsWinner gainful default_settings false false
      (candidate RecoveryActionType.send_payment_link (pos 62000)) false refl
