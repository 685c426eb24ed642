-- ===== src/Verification.antt =====
-- packages/domain/recoverai_domain/verification.py, with the result of verification_types.py: a
-- case is credited when a captured payment matches it.
pub mod Evaluate
pub mod Service
use revive_x.Prelude.{ℕ, Bool, Option, none, some, String}
use revive_x.Enums.{MismatchReason}
use revive_x.Errors.{Result}

-- `RecoveryMatchResult`, less the texts of its reasons; amounts in cents
pub record RecoveryMatchResult : Type 0 where
  pub matched : Bool
  pub case_id : ℕ
  pub payment_id : Option ℕ
  pub amount_recovered : ℕ
  pub currency : String
  pub mismatch_reason : Option MismatchReason
  pub remaining_exposure : ℕ
  pub capped_overpayment : ℕ
