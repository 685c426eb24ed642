-- ===== src/Models/EventRows.antt =====
-- packages/db/recoverai_db/models/webhook.py, the events of packages/providers/recoverai_providers
-- /models.py and packages/domain/recoverai_domain/events.py, and the jobs of the queue. A text that
-- is missing, null or blank is `none`; a payload has the keys that are read as fields, each with
-- what Python makes of it, and the names of its other keys, in lower case.
use revive_x.Prelude.{ℕ, Bool, Option, String, List}
use revive_x.Prelude.Int.{ℤ}
use revive_x.Enums.{WebhookEventStatus}
use revive_x.ToolWords.{TimeText}

-- `amount`, in whole cents, `attempt_number` and `customer_id` are `some none` where the value does
-- not read as one.
pub record EventPayload : Type 0 where
  pub provider_payment_id : Option String
  pub provider_resource_id : Option String
  pub payment_id : Option String
  pub provider_order_id : Option String
  pub order_id : Option String
  pub amount : Option (Option ℕ)
  pub currency : Option String
  pub attempt_number : Option (Option ℤ)
  pub failure_reason : Option String
  pub failure_code : Option String
  pub customer_id : Option (Option ℕ)
  pub customer_external_id : Option String
  pub occurred_at : Option TimeText
  pub other_keys : List String

-- `provider_resource_id` is `none` where it is missing or empty, as the source tests it.
pub record ProviderEvent : Type 0 where
  pub provider : Option String
  pub event_id : Option String
  pub event_type : Option String
  pub occurred_at : ℕ
  pub provider_resource_id : Option String
  pub payload : EventPayload
  pub signature_valid : Option Bool

pub record WebhookEvent : Type 0 where
  pub id : ℕ
  pub merchant_id : ℕ
  pub provider : String
  pub event_id : String
  pub event_type : String
  pub signature_valid : Option Bool
  pub status : WebhookEventStatus
  pub payload : EventPayload
  pub received_at : ℕ
  pub processed_at : Option ℕ
  pub error_code : Option String

-- What `EventQueue` is given.
pub data Job : Type 0 where
  process_provider_event : ℕ → Job
  process_recovery_case : ℕ → Job
  verify_recovery_case : ℕ → Option ℕ → Option ℕ → Job
