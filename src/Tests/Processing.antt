-- ===== src/Tests/Processing.antt =====
-- Runs of the processor on the case.
use revive_x.Prelude.{◌≡◌, refl, false}
use revive_x.Enums.{RecoveryActionType, RecoveryCaseStatus}
use revive_x.Errors.{ok}
use revive_x.Settings.{default_recovery_settings, merge_merchant}
use revive_x.Session.Change.{SameCredit}
use revive_x.Policy.Words.{plain_action, parse_action}
use revive_x.Policy.Engine.{
  PolicyContext, evaluate_action, evaluate_parsed, collect, value_risk, restriction_rules,
  communication_rules,
}
use revive_x.Money.{less_than}
use revive_x.Prelude.Int.{◌*ℤ◌}
use revive_x.Session.{Session}
use revive_x.Processor.Approvals.{Awaits, process_locked_case-Awaits}
use revive_x.Policy.Context.{
  build_policy_context, retry_count, is_suspicious, is_source_mismatch, communications_last_24h,
  discount_spent_today, context_for,
}
use revive_x.Policy.Context.Facts.{source_mismatch-denies}
use revive_x.Processor.{process_locked_case, choose_action}
use revive_x.Processor.Steps.{process_locked_case-SameCredit}
use revive_x.Processor.Outcome.{
  Walked, walk_to_policy_check-Walked, verdict_status, verdict_on, process_locked_case-settles,
}
use revive_x.Processor.Outcome.Idempotent.{process_locked_case-idempotent}
use revive_x.Tests.Data.{session_of, case_in, merchant, opened, mismatched}

walk_to_policy_check-Walked_example : Walked opened
walk_to_policy_check-Walked_example = walk_to_policy_check-Walked opened refl

process_locked_case-SameCredit_example :
    SameCredit opened (process_locked_case default_recovery_settings opened).1
process_locked_case-SameCredit_example =
    process_locked_case-SameCredit default_recovery_settings opened

abbrev opened_context : PolicyContext
opened_context = context_for default_recovery_settings opened merchant

process_locked_case-settles_example :
    let (r, s') = process_locked_case default_recovery_settings opened in
    (r ≡ ok tt) × (s'.case.status ≡ verdict_status (verdict_on opened opened_context))
unfolding build_policy_context
process_locked_case-settles_example =
    process_locked_case-settles default_recovery_settings opened opened_context refl refl

process_locked_case-idempotent_example :
    let s' = (process_locked_case default_recovery_settings opened).1 in
    (process_locked_case default_recovery_settings s').1 ≡ s'
process_locked_case-idempotent_example =
    process_locked_case-idempotent default_recovery_settings opened

abbrev mismatched_context : PolicyContext
mismatched_context = context_for default_recovery_settings mismatched merchant

source_mismatch-denies_example :
    (evaluate_action mismatched_context (plain_action RecoveryActionType.send_payment_link)).allowed
    ≡ false
unfolding build_policy_context parse_action
source_mismatch-denies_example =
    source_mismatch-denies default_recovery_settings mismatched mismatched_context
      (plain_action RecoveryActionType.send_payment_link) RecoveryActionType.send_payment_link refl
      refl refl refl

-- The case with 6000 rupees at risk, which is above the lower threshold.
abbrev valuable : Session
valuable = session_of (record (case_in RecoveryCaseStatus.scoring) { amount_at_risk = 600000 })

abbrev valuable_context : PolicyContext
valuable_context = context_for default_recovery_settings valuable merchant

process_locked_case-Awaits_example :
    Awaits valuable.case (process_locked_case default_recovery_settings valuable).1
unfolding build_policy_context choose_action evaluate_action evaluate_parsed parse_action collect
    value_risk restriction_rules less_than ◌*ℤ◌ retry_count is_suspicious is_source_mismatch
    communications_last_24h discount_spent_today communication_rules merge_merchant
process_locked_case-Awaits_example =
    process_locked_case-Awaits default_recovery_settings valuable valuable_context refl refl refl
      refl
