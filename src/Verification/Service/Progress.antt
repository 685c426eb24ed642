-- ===== src/Verification/Service/Progress.antt =====
-- Where `verify_case` of verification.py takes a case that is ready for verification.
use revive_x.Prelude.{◌≡◌, Bool, true, false, ◌&&◌, leb}
use revive_x.Enums.{RecoveryCaseStatus}
use revive_x.Errors.{ok}
use revive_x.Models.{Payment}
use revive_x.Settings.{RecoverySettings}
use revive_x.Session.{Session, Action}
use revive_x.Transitions.Settles.{Settles}
use revive_x.Verification.{RecoveryMatchResult}
use revive_x.Verification.Evaluate.Conditions.{is_matching}

-- The payment meets every condition and covers the amount at risk.
abbrev pub is_full_match : RecoverySettings → Session → Payment → Bool
is_full_match settings s payment =
    is_matching settings s payment && leb s.case.amount_at_risk payment.amount

abbrev pub is_ready : RecoveryCaseStatus → Bool
is_ready RecoveryCaseStatus.action_completed = true
is_ready RecoveryCaseStatus.verifying = true
is_ready _ = false

abbrev pub verified_status : Bool → RecoveryCaseStatus
verified_status true = RecoveryCaseStatus.recovered
verified_status false = RecoveryCaseStatus.not_recovered

-- Returning the match, with the case where the match takes it.
abbrev SettlesWith :
    Action RecoveryMatchResult → RecoveryMatchResult → RecoveryCaseStatus → Session → Type 0
SettlesWith m match status s = ((m s).0 ≡ ok match) × ((m s).1.case.status ≡ status)
