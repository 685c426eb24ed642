-- ===== src/Tools/Handlers/Results.antt =====
-- packages/domain/recoverai_domain/tools/handlers.py: the context and the result of a handler.
use revive_x.Prelude.{ℕ, Bool, true, false, Option, none, some, String}
use revive_x.Enums.{RecoveryCaseStatus}
use revive_x.Models.{Payment, Customer, ActionKey}
use revive_x.Models.ToolRows.{ToolOutput}
use revive_x.ToolWords.{ToolInput}

-- The last three fields are keys of `metadata`; the percentage of a discount, which the action's
-- metadata repeats, is in the output.
pub record HandlerResult : Type 0 where
  pub success : Bool
  pub output : ToolOutput
  pub provider : Option String
  pub provider_reference : Option String
  pub amount : Option ℕ
  pub error_code : Option String
  pub error_message : Option String
  pub case_status : Option RecoveryCaseStatus
  pub simulated : Bool
  pub executed : Option Bool
  pub new_payment_id : Option ℕ
  pub scheduled_for : Option ℕ

-- The session, the case and its merchant are those of the action.
pub record HandlerContext : Type 0 where
  pub customer : Option Customer
  pub payment : Option Payment
  pub payload : ToolInput
  pub attempt_number : ℕ
  pub idempotency_key : ActionKey

-- The defaults of the dataclass, of a success
abbrev pub success_with : ToolOutput → HandlerResult
success_with output = record {
  success = true;
  output = output;
  provider = none;
  provider_reference = none;
  amount = none;
  error_code = none;
  error_message = none;
  case_status = none;
  simulated = true;
  executed = none;
  new_payment_id = none;
  scheduled_for = none;
}

-- Of a failure
abbrev pub failure_with : String → String → HandlerResult
failure_with code message = record (success_with ToolOutput.nothing) {
  success = false;
  error_code = some code;
  error_message = some message;
}

-- `except ProviderError as exc`
abbrev pub provider_failure : String → String → String → HandlerResult
provider_failure provider code message = record (failure_with code message) {
  provider = some provider;
}
