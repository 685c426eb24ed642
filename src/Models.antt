-- ===== src/Models.antt =====
-- packages/db/recoverai_db/models: the rows that the recovery services read and write, with the
-- columns that their decisions use. Identifiers and times in seconds are natural numbers, amounts
-- of money whole cents (the columns are NUMERIC(18, 2) with a check against negative values), and
-- of a JSON column the keys that are read are fields.
pub mod Audit
pub mod ToolRows
pub mod EventRows
use revive_x.Prelude.{ℕ, Bool, Option, String, List}
use revive_x.Enums.{
  PaymentStatus, RecoveryCaseStatus, RecoveryActionType, RecoveryActionStatus, RiskLevel,
  ApprovalStatus, MismatchReason, NotificationStatus,
}
use revive_x.Settings.{MerchantPolicy}
use revive_x.ToolWords.{Field, NotificationChannel}

-- models/recovery_case.py
pub record RecoveryCase : Type 0 where
  pub id : ℕ
  pub merchant_id : ℕ
  pub customer_id : ℕ
  pub payment_id : Option ℕ
  pub cart_id : Option ℕ
  pub subscription_id : Option ℕ
  pub status : RecoveryCaseStatus
  pub amount_at_risk : ℕ
  pub amount_recovered : ℕ
  pub currency : String
  pub version : ℕ
  pub opened_at : ℕ
  pub closed_at : Option ℕ
  pub last_mismatch_reason : Option MismatchReason
  pub verified_payment_id : Option ℕ
  pub verified_webhook_event_id : Option ℕ

-- models/payment.py
pub record Payment : Type 0 where
  pub id : ℕ
  pub merchant_id : ℕ
  pub customer_id : ℕ
  pub provider : String
  pub provider_payment_id : Option String
  pub provider_order_id : Option String
  pub provider_payment_link_id : Option String
  pub amount : ℕ
  pub currency : String
  pub status : PaymentStatus
  pub failure_code : Option String
  pub captured_at : Option ℕ

-- The key of an action: the processor's own, `phase5:{case}:{action}:1`, or one that a caller gives.
pub data ActionKey : Type 0 where
  phase5 : ℕ → RecoveryActionType → ActionKey
  given : ℕ → ActionKey

-- The facts of a case whose change makes an approval stale.
pub record CaseFingerprint : Type 0 where
  pub amount_at_risk : ℕ
  pub payment_id : Option ℕ
  pub customer_id : ℕ
  pub last_mismatch_reason : Option MismatchReason
  pub amount_recovered : ℕ

-- models/recovery_action.py; the last six fields are keys of its metadata
pub record RecoveryAction : Type 0 where
  pub id : ℕ
  pub merchant_id : ℕ
  pub recovery_case_id : ℕ
  pub action_type : RecoveryActionType
  pub status : RecoveryActionStatus
  pub idempotency_key : ActionKey
  pub attempt_number : ℕ
  pub risk_level : RiskLevel
  pub amount : ℕ
  pub currency : String
  pub created_at : ℕ
  pub provider : Option String
  pub provider_reference : Option String
  pub scheduled_for : Option ℕ
  pub executed_at : Option ℕ
  pub executed : Bool
  pub new_payment_id : Option ℕ
  pub approval_id : Option ℕ
  pub case_fingerprint : Option CaseFingerprint
  pub tool_name : Option String
  pub payload : Option (List Field)

-- models/policy.py
pub record Approval : Type 0 where
  pub id : ℕ
  pub merchant_id : ℕ
  pub recovery_case_id : ℕ
  pub recovery_action_id : Option ℕ
  pub status : ApprovalStatus
  pub expires_at : Option ℕ

-- models/recovery_action.py
pub record RecoveryDecision : Type 0 where
  pub merchant_id : ℕ
  pub recovery_case_id : ℕ
  pub recovery_action_id : ℕ
  pub selected_action : RecoveryActionType
  pub policy_allows : Bool

-- models/customer.py; the flags are keys of its metadata, read by `_truthy`
pub record Customer : Type 0 where
  pub id : ℕ
  pub merchant_id : ℕ
  pub communication_opt_out : Bool
  pub suspicious : Bool
  pub source_mismatch : Bool
  pub discount_ineligible : Bool
  pub lifetime_value : ℕ
  pub external_id : Option String

-- models/merchant.py
pub record Merchant : Type 0 where
  pub id : ℕ
  pub policy : Option MerchantPolicy

-- models/audit.py
pub record Notification : Type 0 where
  pub id : ℕ
  pub merchant_id : ℕ
  pub customer_id : ℕ
  pub recovery_case_id : Option ℕ
  pub channel : NotificationChannel
  pub provider_reference : Option String
  pub status : NotificationStatus
  pub created_at : ℕ
