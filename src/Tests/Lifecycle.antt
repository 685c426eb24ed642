-- ===== src/Tests/Lifecycle.antt =====
-- Runs of the services, and single changes of status.
use revive_x.Prelude.{◌≡◌, refl, inl, true, false, ◌↔◌, some, List, [], ◌∷◌, Memᴰ, arith}
use revive_x.Enums.{RecoveryCaseStatus}
use revive_x.Errors.{ok}
use revive_x.Settings.{default_recovery_settings}
use revive_x.Session.{Session}
use revive_x.Session.Change.{IsValid}
use revive_x.StateMachine.{can_transition, assert_legal_transition, follow, is_terminal}
use revive_x.StateMachine.Graph.{terminal_iff_stuck, follow-way_to_stop}
use revive_x.StateMachine.Gates.{recovered_needs_verification}
use revive_x.Transitions.{transition_case_at}
use revive_x.Transitions.Laws.{Outcome, transition_case_at_lem}
use revive_x.Processor.{process_locked_case}
use revive_x.Verification.Service.{verify_case}
use revive_x.History.{Step, Run, Evolved, Run-keeps, Run-final}
use revive_x.History.Backed.{IsBacked, Run-IsBacked}
use revive_x.Tests.Data.{opened, recovered}

-- The case is processed, and then verified with the second payment.
abbrev processed : Session
processed = (process_locked_case default_recovery_settings opened).1

abbrev settled : Session
settled = (verify_case default_recovery_settings (some 12) (some 900) processed).1

abbrev life : Run opened settled
life =
    Run.then_step processed settled
      (Run.then_step opened processed Run.start (Step.processed default_recovery_settings))
      (Step.verified default_recovery_settings (some 12) (some 900))

Run-IsBacked_example : IsBacked settled
Run-IsBacked_example = Run-IsBacked opened settled (ground arith, refl) (inl refl) life

Run-keeps_example : Evolved opened settled × IsValid settled.case
Run-keeps_example = Run-keeps opened settled (ground arith, refl) life

-- A recovered case that is processed once more.
abbrev processed_again : Session
processed_again = (process_locked_case default_recovery_settings recovered).1

Run-final_example : processed_again.case.status ≡ recovered.case.status
Run-final_example =
    Run-final recovered processed_again (ground arith, refl) refl
      (Run.then_step recovered processed_again Run.start (Step.processed default_recovery_settings))

transition_case_at_lem_example :
    let (r, s') = transition_case_at (some 1) RecoveryCaseStatus.triaged opened in
    Outcome RecoveryCaseStatus.triaged opened (some 1) r s'
transition_case_at_lem_example = transition_case_at_lem (some 1) RecoveryCaseStatus.triaged opened

terminal_iff_stuck_example :
    (is_terminal RecoveryCaseStatus.escalated ≡ true)
    ↔ ((t : RecoveryCaseStatus) → can_transition RecoveryCaseStatus.escalated t ≡ false)
terminal_iff_stuck_example = terminal_iff_stuck RecoveryCaseStatus.escalated

follow-way_to_stop_example :
    (history : List RecoveryCaseStatus) × (follow RecoveryCaseStatus.executing history
      ≡ ok RecoveryCaseStatus.stopped)
follow-way_to_stop_example = follow-way_to_stop RecoveryCaseStatus.executing (ground arith)

abbrev to_execution : List RecoveryCaseStatus
to_execution =
    RecoveryCaseStatus.triaged ∷ RecoveryCaseStatus.scoring ∷ RecoveryCaseStatus.strategy_selected
    ∷ RecoveryCaseStatus.policy_check ∷ RecoveryCaseStatus.executing ∷ []

abbrev to_recovery : List RecoveryCaseStatus
to_recovery =
    RecoveryCaseStatus.triaged ∷ RecoveryCaseStatus.scoring ∷ RecoveryCaseStatus.strategy_selected
    ∷ RecoveryCaseStatus.policy_check ∷ RecoveryCaseStatus.executing
    ∷ RecoveryCaseStatus.action_completed ∷ RecoveryCaseStatus.verifying
    ∷ RecoveryCaseStatus.recovered ∷ []

recovered_needs_verification_example :
    Memᴰ RecoveryCaseStatus.policy_check to_recovery
    × Memᴰ RecoveryCaseStatus.executing to_recovery
    × Memᴰ RecoveryCaseStatus.verifying to_recovery
unfolding follow assert_legal_transition can_transition
recovered_needs_verification_example = recovered_needs_verification to_recovery refl
