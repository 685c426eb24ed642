-- ===== src/Settings.antt =====
-- packages/domain/recoverai_domain/recovery_config.py: the recovery and policy settings, and the
-- merchant's own values laid over them. Values are read here once they have been converted from
-- text: the readers of the environment and of JSON are Python's.
use revive_x.Prelude.{ℕ, Bool, true, Option, none, some, String, List}
use revive_x.Money.{Decimal, of_whole}

pub record RecoverySettings : Type 0 where
  pub recovery_window_hours : ℕ
  pub recovery_ordering_grace_minutes : ℕ
  pub high_value_approval_threshold : Decimal
  pub medium_value_approval_threshold : Decimal
  pub max_retry_attempts : ℕ
  pub max_discount_percent : Decimal
  pub max_daily_discount_budget : Decimal
  pub max_communications_per_day : ℕ
  pub quiet_hours_start : ℕ
  pub quiet_hours_end : ℕ
  pub automatic_recovery_enabled : Bool
  pub approval_ttl_minutes : ℕ

-- The defaults of the dataclass.
abbrev pub default_recovery_settings : RecoverySettings
default_recovery_settings = record {
  recovery_window_hours = 72;
  recovery_ordering_grace_minutes = 60;
  high_value_approval_threshold = of_whole 25000;
  medium_value_approval_threshold = of_whole 5000;
  max_retry_attempts = 3;
  max_discount_percent = of_whole 10;
  max_daily_discount_budget = of_whole 5000;
  max_communications_per_day = 3;
  quiet_hours_start = 21;
  quiet_hours_end = 8;
  automatic_recovery_enabled = true;
  approval_ttl_minutes = 60;
}

-- The policy section of a merchant's settings; `none` stands for a key that is missing or empty.
pub record MerchantPolicy : Type 0 where
  pub recovery_window_hours : Option ℕ
  pub recovery_ordering_grace_minutes : Option ℕ
  pub high_value_approval_threshold : Option Decimal
  pub medium_value_approval_threshold : Option Decimal
  pub max_retry_attempts : Option ℕ
  pub max_discount_percent : Option Decimal
  pub max_daily_discount_budget : Option Decimal
  pub max_communications_per_day : Option ℕ
  pub quiet_hours_start : Option ℕ
  pub quiet_hours_end : Option ℕ
  pub automatic_recovery_enabled : Option Bool
  pub approval_ttl_minutes : Option ℕ
  pub blocked_action_types : List String

-- `_int_value`, `_decimal_value` and `_bool_value`
abbrev pub value_or : {A : Type 0} → Option A → A → A
value_or (some v) default = v
value_or none default = default

-- `merge_merchant`, of a section that is there
abbrev merge_section : RecoverySettings → MerchantPolicy → RecoverySettings
merge_section s p = record {
  recovery_window_hours = value_or p.recovery_window_hours s.recovery_window_hours;
  recovery_ordering_grace_minutes =
      value_or p.recovery_ordering_grace_minutes s.recovery_ordering_grace_minutes;
  high_value_approval_threshold =
      value_or p.high_value_approval_threshold s.high_value_approval_threshold;
  medium_value_approval_threshold =
      value_or p.medium_value_approval_threshold s.medium_value_approval_threshold;
  max_retry_attempts = value_or p.max_retry_attempts s.max_retry_attempts;
  max_discount_percent = value_or p.max_discount_percent s.max_discount_percent;
  max_daily_discount_budget = value_or p.max_daily_discount_budget s.max_daily_discount_budget;
  max_communications_per_day = value_or p.max_communications_per_day s.max_communications_per_day;
  quiet_hours_start = value_or p.quiet_hours_start s.quiet_hours_start;
  quiet_hours_end = value_or p.quiet_hours_end s.quiet_hours_end;
  automatic_recovery_enabled = value_or p.automatic_recovery_enabled s.automatic_recovery_enabled;
  approval_ttl_minutes = value_or p.approval_ttl_minutes s.approval_ttl_minutes;
}

unfoldable pub merge_merchant : RecoverySettings → Option MerchantPolicy → RecoverySettings
merge_merchant s none = s
merge_merchant s (some policy) = merge_section s policy
