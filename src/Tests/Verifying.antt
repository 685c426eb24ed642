-- ===== src/Tests/Verifying.antt =====
-- Verifications of the case with the second payment.
use revive_x.Prelude.{true, [], ◌∷◌, ◌≡◌, ◌⊎◌, refl, none, some, arith}
use revive_x.Enums.{RecoveryCaseStatus}
use revive_x.Errors.{ok}
use revive_x.Models.{Payment}
use revive_x.Settings.{default_recovery_settings}
use revive_x.StateMachine.{can_transition}
use revive_x.Transitions.{transition_case_at, transition_case}
use revive_x.Verification.{RecoveryMatchResult}
use revive_x.Verification.Evaluate.{evaluate}
use revive_x.Verification.Service.{
  resolve_payment, counted_reason, ensure_verifying, apply_success, verify_case,
}
use revive_x.Verification.Service.Credit.Spec.{Uncredited, CreditedBy, verify_case-credit}
use revive_x.Verification.Service.Once.{verify_case-once, verify_case-one_case}
use revive_x.Session.{Session}
use revive_x.Processor.{process_locked_case}
use revive_x.Verification.Service.{persist_failure}
use revive_x.Tests.Data.{
  failed_payment, case_in, session_of, captured_payment, verifying, recovered, sibling,
}

verify_case-credit_example :
    let t = (verify_case default_recovery_settings (some 12) (some 900) verifying).1 in
    Uncredited verifying t
    ⊎ ((payment : Payment) × (resolve_payment verifying (some 12) ≡ some payment)
        × CreditedBy default_recovery_settings (some 900) payment verifying t)
verify_case-credit_example =
    verify_case-credit default_recovery_settings (some 12) (some 900) verifying (ground arith)

verify_case-once_example :
    let t = (verify_case default_recovery_settings (some 12) (some 901) recovered).1 in
    (t.case.amount_recovered ≡ 100000) × (t.case.verified_payment_id ≡ some 12)
verify_case-once_example =
    verify_case-once default_recovery_settings 12 (some 901) recovered (ground arith) refl

verify_case-one_case_example :
    let t = (verify_case default_recovery_settings (some 12) (some 902) sibling).1 in
    (t.case.amount_recovered ≡ 0) × (t.case.verified_payment_id ≡ none)
verify_case-one_case_example =
    verify_case-one_case default_recovery_settings 12 (some 902) sibling (ground arith) refl

-- What the second payment does to the verifying case.
recovers :
    let s' = (verify_case default_recovery_settings (some 12) (some 900) verifying).1 in
    (s'.case.status ≡ RecoveryCaseStatus.recovered) × (s'.case.amount_recovered ≡ 100000)
unfolding verify_case resolve_payment counted_reason evaluate ensure_verifying apply_success
    transition_case transition_case_at can_transition
recovers = (refl, refl)

-- A case with 400 of 1000 rupees credited by payment 20, and a later capture of 300.
abbrev partly_credited : Session
partly_credited =
    record (session_of (record (case_in RecoveryCaseStatus.not_recovered) {
      amount_recovered = 40000;
      verified_payment_id = some 20;
    })) { payments = failed_payment ∷ record captured_payment { amount = 30000 } ∷ [] }

-- The later partial capture takes the place of the earlier one.
replaced :
    let s' = (verify_case default_recovery_settings (some 12) (some 903) partly_credited).1 in
    (s'.case.amount_recovered ≡ 30000) × (s'.case.verified_payment_id ≡ some 12)
unfolding verify_case resolve_payment counted_reason evaluate ensure_verifying apply_success
    persist_failure process_locked_case transition_case transition_case_at can_transition
replaced = (refl, refl)

-- The case waits for an approval, and the second payment covers it.
abbrev awaiting : Session
awaiting = session_of (case_in RecoveryCaseStatus.awaiting_approval)

-- The match is reported, and nothing is credited.
reported :
    let (r, s') = verify_case default_recovery_settings (some 12) (some 904) awaiting in
    ((match : RecoveryMatchResult) × (r ≡ ok match) × (match.matched ≡ true))
    × (s'.case.amount_recovered ≡ 0)
    × (s'.case.status ≡ RecoveryCaseStatus.awaiting_approval)
unfolding verify_case resolve_payment counted_reason evaluate ensure_verifying apply_success
    persist_failure process_locked_case transition_case transition_case_at can_transition
reported = ((_, refl, refl), refl, refl)
