-- ===== src/Tools/Provider.antt =====
-- packages/providers/recoverai_providers/base.py and models.py: what the tools ask of a payment
-- provider. The provider, the inference that estimates probabilities, the queue and the digests are
-- the environment of the tools.
use revive_x.Prelude.{ℕ, Bool, Option, String}
use revive_x.Prelude.Int.{ℤ}
use revive_x.Session.{Session}
use revive_x.Models.{ActionKey}
use revive_x.ToolWords.{Tool, ToolInput}
use revive_x.Models.ToolRows.{PaymentSnapshot, PaymentLinkSnapshot, Prediction}

pub record CreatePaymentRequest : Type 0 where
  pub merchant_reference : ℕ
  pub amount : ℕ
  pub currency : String
  pub customer_reference : ℕ
  pub provider_order_id : Option String
  pub attempt_number : ℤ
  pub lifetime_value : ℕ
  pub failure_reason : Option String

pub record CreatePaymentLinkRequest : Type 0 where
  pub merchant_reference : ℕ
  pub amount : ℕ
  pub currency : String
  pub customer_reference : ℕ
  pub description : Option String

-- `ProviderError`, with its code and message; that nothing was found is a class of its own.
pub data Reply (A : Type 0) : Type 0 where
  answered : A → Reply A
  not_found : String → String → Reply A
  provider_error : String → String → Reply A

-- `payment_uuid` is `internal_payment_uuid`, `request_hash` the digest of the tool, the action and
-- the input, `notification_reference` the text that is made of a key, and `event_id` the digest that
-- names the event of a payment at a time. `queue` is there when the service was given one, and tells
-- whether it accepts a job.
pub record Environment : Type 0 where
  pub provider_name : String
  pub create_payment : CreatePaymentRequest → Reply PaymentSnapshot
  pub create_payment_link : CreatePaymentLinkRequest → Reply PaymentLinkSnapshot
  pub fetch_payment : String → Reply PaymentSnapshot
  pub predict : Session → String → ℕ → Reply Prediction
  pub payment_uuid : ℕ → String → String → ℕ
  pub request_hash : Tool → String → ToolInput → ℕ
  pub notification_reference : ActionKey → String
  pub event_id : PaymentSnapshot → ℕ → String
  pub queue : Option Bool
