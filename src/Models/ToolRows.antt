-- ===== src/Models/ToolRows.antt =====
-- packages/db/recoverai_db/models: the rows that the tools read and write, and the results that they
-- leave in them: `ToolExecutionResult` of packages/domain/recoverai_domain/tools/execution.py and
-- the snapshots of packages/providers/recoverai_providers/models.py.
use revive_x.Prelude.{ℕ, Bool, Option, String, List}
use revive_x.Prelude.Int.{ℤ}
use revive_x.Enums.{PaymentStatus, RiskLevel}
use revive_x.Money.{Decimal}
use revive_x.ToolWords.{Tool, NotificationChannel, ToolInput}
use revive_x.Models.{RecoveryCase, Payment, Customer, ActionKey}
use revive_x.Policy.Words.{Reason}

-- models/cart.py
pub record Cart : Type 0 where
  pub id : ℕ
  pub discount : ℕ
  pub total : ℕ
  pub currency : String

-- models/subscription.py
pub record Subscription : Type 0 where
  pub id : ℕ
  pub amount : ℕ
  pub provider_subscription_id : Option String

-- models/payment.py
pub record PaymentAttempt : Type 0 where
  pub payment_id : ℕ
  pub attempt_number : ℤ
  pub status : PaymentStatus
  pub amount : ℕ
  pub currency : String
  pub failure_code : Option String
  pub attempted_at : ℕ

-- What a provider says of a payment; amounts are whole cents.
pub record PaymentSnapshot : Type 0 where
  pub provider : String
  pub provider_payment_id : String
  pub provider_order_id : Option String
  pub amount : ℕ
  pub currency : String
  pub status : PaymentStatus
  pub attempt_number : ℤ
  pub failure_reason : Option String
  pub occurred_at : ℕ

pub record PaymentLinkSnapshot : Type 0 where
  pub provider : String
  pub provider_payment_link_id : String
  pub amount : ℕ
  pub status : String
  pub url : String
  pub simulated : Bool

-- The estimate of packages/eval/recoverai_eval/inference for a case and an action.
pub record Prediction : Type 0 where
  pub probability : Decimal
  pub model_version : String
  pub feature_version : String
  pub source : String

-- The `output` of a tool, by the handler that gives it.
pub data ToolOutput : Type 0 where
  nothing : ToolOutput
  customer_history : Customer → List Payment → ToolOutput
  payment_details : Payment → ToolOutput
  cart_details : Option Cart → ToolOutput
  subscription_details : Option Subscription → ToolOutput
  case_details : RecoveryCase → ToolOutput
  probability : Prediction → String → ToolOutput
  retried : Payment → ℕ → ℤ → PaymentSnapshot → ToolOutput
  scheduled : ℕ → ToolOutput
  payment_link : PaymentLinkSnapshot → ToolOutput
  notified : ℕ → NotificationChannel → ToolOutput
  discounted : Decimal → ℕ → ToolOutput
  provider_status : PaymentSnapshot → ToolOutput
  escalated : String → ToolOutput
  stopped : String → ToolOutput
  approval_asked : ℕ → ToolOutput

pub data ResultStatus : Type 0 where
  succeeded failed blocked approval_required : ResultStatus

-- The `reason` of a result: the reasons of the policy, or the message of a failure.
pub data ResultReason : Type 0 where
  verdict : List Reason → ResultReason
  message : String → ResultReason

pub record ToolExecutionResult : Type 0 where
  pub status : ResultStatus
  pub tool_name : Tool
  pub allowed : Bool
  pub requires_approval : Bool
  pub reason : ResultReason
  pub action_id : Option ℕ
  pub approval_id : Option ℕ
  pub tool_call_id : Option ℕ
  pub provider : Option String
  pub provider_reference : Option String
  pub simulated : Bool
  pub idempotency_key : Option ActionKey
  pub output : ToolOutput
  pub risk_level : RiskLevel
  pub replayed : Bool

pub data IdempotencyKeyStatus : Type 0 where
  in_progress completed failed : IdempotencyKeyStatus

-- models/idempotency.py; the last two fields are keys of its metadata
pub record IdempotencyKey : Type 0 where
  pub merchant_id : ℕ
  pub key : ActionKey
  pub operation : Tool
  pub request_hash : ℕ
  pub response_reference : Option ℕ
  pub status : IdempotencyKeyStatus
  pub completed_at : Option ℕ
  pub expires_at : ℕ
  pub result : Option ToolExecutionResult
  pub error_code : Option String

pub data ToolCallStatus : Type 0 where
  pending success failed blocked approval_required : ToolCallStatus

-- models/audit.py
pub record ToolCall : Type 0 where
  pub id : ℕ
  pub merchant_id : ℕ
  pub recovery_case_id : ℕ
  pub tool_name : Tool
  pub tool_version : String
  pub status : ToolCallStatus
  pub request_payload : ToolInput
  pub response_payload : Option ToolExecutionResult
  pub idempotency_key : ActionKey
  pub error_code : Option String
