-- ===== src/Policy/Words/Parsing.antt =====
-- The closed set of actions of policy_engine.py: the texts that it accepts.
use text.Mathlib.TextEquality.{eq_iff}
use revive_x.Prelude.{◌≡◌, refl, ◌↔◌, some, String, arith}
use revive_x.Enums.{RecoveryActionType, action_value}
use revive_x.Policy.Words.{parse_action}

parse_action-value : (a : RecoveryActionType) → parse_action (action_value a) ≡ some a
unfolding parse_action
parse_action-value RecoveryActionType.retry_now = refl
parse_action-value _ = refl

parse_action_sound :
    (s : String) (a : RecoveryActionType) → parse_action s ≡ some a → s ≡ action_value a
unfolding parse_action
parse_action_sound s a h = ground (
  arith,
  eq_iff s "RETRY_NOW",
  eq_iff s "RETRY_LATER",
  eq_iff s "SEND_PAYMENT_LINK",
  eq_iff s "SEND_REMINDER",
  eq_iff s "OFFER_DISCOUNT",
  eq_iff s "ESCALATE",
  eq_iff s "DO_NOTHING",
)

-- A text is parsed as an action exactly when it is the value of that action.
pub parse_action_iff :
    (s : String) (a : RecoveryActionType) → (parse_action s ≡ some a) ↔ (s ≡ action_value a)
parse_action_iff s a = (parse_action_sound s a, λ e. rw e (parse_action-value a))
