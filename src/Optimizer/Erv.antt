-- ===== src/Optimizer/Erv.antt =====
-- packages/domain/recoverai_domain/optimizer/erv.py: expected recovery value, in cents. A
-- probability is a decimal here: its conversion from a float through `str` is Python's.
pub mod Bounds
use revive_x.Prelude.{ℕ, ◌||◌, Option, none, some, if◌then◌else◌}
use revive_x.Prelude.Int.{ℤ, pos, ◌-ℤ◌}
use revive_x.Enums.{RecoveryActionType}
use revive_x.Errors.{Result, ok, err, optimizer_error, ◌>>=◌}
use revive_x.Money.{
  Decimal, of_cents, of_signed_cents, of_whole, less_than, multiply, percent_of, as_money,
  signed_money,
}

-- `probability_to_decimal`, for a decimal
unfoldable pub probability_to_decimal : Decimal → Result Decimal
probability_to_decimal probability =
    if less_than probability (of_whole 0) || less_than (of_whole 1) probability
    then err (optimizer_error "INVALID_PROBABILITY")
    else ok probability

-- `discount_cost`, of an amount in cents
unfoldable pub discount_cost : ℕ → Decimal → Result ℕ
discount_cost amount_at_risk percent = do
  amount ← as_money (of_cents amount_at_risk)
  if less_than percent (of_whole 0)
      then err (optimizer_error "INVALID_DISCOUNT")
      else as_money (percent_of (multiply (of_cents amount) percent))

unfoldable pub expected_recovered_revenue : Decimal → ℕ → Result ℕ
expected_recovered_revenue probability amount_at_risk = do
  p ← probability_to_decimal probability
  amount ← as_money (of_cents amount_at_risk)
  as_money (multiply p (of_cents amount))

-- The four costs are amounts in cents.
unfoldable pub expected_net_recovery : Decimal → ℕ → ℕ → ℕ → ℕ → ℕ → Result ℤ
expected_net_recovery probability amount_at_risk intervention discount communication risk = do
  expected ← expected_recovered_revenue probability amount_at_risk
  i ← as_money (of_cents intervention)
  d ← as_money (of_cents discount)
  c ← as_money (of_cents communication)
  r ← as_money (of_cents risk)
  signed_money (of_signed_cents (pos expected -ℤ pos i -ℤ pos d -ℤ pos c -ℤ pos r))
