-- ===== src/Tests/PolicyRules.antt =====
-- The policy rules on a reminder in the quiet hours.
use revive_x.Prelude.{◌≡◌, refl, true, false, not, ◌&&◌, ltb, [], arith}
use revive_x.Enums.{RecoveryActionType}
use revive_x.Money.{of_whole, less_than}
use revive_x.Prelude.Int.{◌*ℤ◌}
use revive_x.Settings.{default_recovery_settings}
use revive_x.Policy.Words.{ProposedAction, plain_action, parse_action}
use revive_x.Policy.Engine.{
  PolicyContext, quiet_at, evaluate_action, evaluate_parsed, collect, value_risk, restriction_rules,
}
use revive_x.Policy.Engine.Verdict.{is_denied, needs_approval, evaluate_action_lem}
use revive_x.Policy.Engine.Hours.{hours_after, quiet_at_lem}
use revive_x.Policy.Engine.Amounts.{is_automatic_verdict, with_amount, automatic_antitone}

-- At 22:00 UTC, with 3000 rupees at risk.
abbrev context : PolicyContext
context = record {
  amount_at_risk = 300000;
  settings = default_recovery_settings;
  now = 79200;
  retry_count = 0;
  communications_last_24h = 1;
  discount_spent_today = of_whole 0;
  blocked_action_types = [];
  customer_opted_out = false;
  suspicious = false;
  source_mismatch = false;
  discount_eligible = true;
}

abbrev reminder : ProposedAction
reminder = plain_action RecoveryActionType.send_reminder

abbrev retry : ProposedAction
retry = plain_action RecoveryActionType.retry_later

evaluate_action_lem_example :
    let r = evaluate_action context reminder in
    (r.allowed ≡ not (is_denied context RecoveryActionType.send_reminder reminder))
    × (r.requires_approval ≡ (
        needs_approval context RecoveryActionType.send_reminder
        && not (is_denied context RecoveryActionType.send_reminder reminder)))
unfolding parse_action
evaluate_action_lem_example =
    evaluate_action_lem context reminder RecoveryActionType.send_reminder refl

quiet_at_lem_example : quiet_at 22 21 8 ≡ ltb (hours_after 21 22) (hours_after 21 8)
quiet_at_lem_example = quiet_at_lem 22 21 8 (ground arith) (ground arith) (ground arith)

automatic_antitone_example :
    is_automatic_verdict (evaluate_action (with_amount context 100) retry) ≡ true
unfolding parse_action evaluate_action evaluate_parsed collect value_risk restriction_rules
    less_than ◌*ℤ◌
automatic_antitone_example =
    automatic_antitone context retry RecoveryActionType.retry_later 100 refl refl (ground arith)
      refl
