-- ===== src/StateMachine/Graph.antt =====
-- The shape of the table in packages/domain/recoverai_domain/state_machine.py: where a case can
-- end, and which statuses no history of legal changes can skip.
use revive_x.Prelude.{true, false, ◌≡◌, refl, ◌≢◌, ◌↔◌, List, [], ◌∷◌, arith, Bool-cases, inl, inr}
use revive_x.Enums.{RecoveryCaseStatus}
use revive_x.Errors.{ok}
use revive_x.StateMachine.{
  is_terminal, starting_status, can_transition, assert_legal_transition, follow,
}

-- One successor of each status that has any.
abbrev a_successor : RecoveryCaseStatus → RecoveryCaseStatus
a_successor RecoveryCaseStatus.detected = RecoveryCaseStatus.triaged
a_successor RecoveryCaseStatus.triaged = RecoveryCaseStatus.scoring
a_successor RecoveryCaseStatus.investigating = RecoveryCaseStatus.diagnosed
a_successor RecoveryCaseStatus.diagnosed = RecoveryCaseStatus.scoring
a_successor RecoveryCaseStatus.scoring = RecoveryCaseStatus.strategy_selected
a_successor RecoveryCaseStatus.strategy_selected = RecoveryCaseStatus.policy_check
a_successor RecoveryCaseStatus.executing = RecoveryCaseStatus.failed
a_successor RecoveryCaseStatus.action_completed = RecoveryCaseStatus.verifying
a_successor RecoveryCaseStatus.verifying = RecoveryCaseStatus.not_recovered
a_successor RecoveryCaseStatus.retry_scheduled = RecoveryCaseStatus.scoring
a_successor _ = RecoveryCaseStatus.stopped

a_successor_legal :
    (s : RecoveryCaseStatus) → is_terminal s ≡ false → can_transition s (a_successor s) ≡ true
unfolding can_transition
a_successor_legal s h = ground arith

no_successor : (s t : RecoveryCaseStatus) → is_terminal s ≡ true → can_transition s t ≡ false
unfolding can_transition
no_successor RecoveryCaseStatus.recovered t h = refl
no_successor RecoveryCaseStatus.stopped t h = refl
no_successor _ t h = ground arith

-- The terminal statuses are exactly those from which the table allows no change at all.
pub terminal_iff_stuck :
    (s : RecoveryCaseStatus)
    → (is_terminal s ≡ true) ↔ ((t : RecoveryCaseStatus) → can_transition s t ≡ false)
terminal_iff_stuck s = (
  λ h t. no_successor s t h,
  λ stuck. elim (Bool-cases (is_terminal s)) [
    | inl h ↦ h
    | inr h ↦ ground (arith, stuck (a_successor s), a_successor_legal s h)
  ],
)

-- The way that each status is first reached from the starting status.
abbrev way_to : RecoveryCaseStatus → List RecoveryCaseStatus
way_to RecoveryCaseStatus.detected = []
way_to RecoveryCaseStatus.triaged = RecoveryCaseStatus.triaged ∷ []
way_to RecoveryCaseStatus.investigating =
    RecoveryCaseStatus.triaged ∷ RecoveryCaseStatus.investigating ∷ []
way_to RecoveryCaseStatus.diagnosed =
    RecoveryCaseStatus.triaged ∷ RecoveryCaseStatus.investigating ∷ RecoveryCaseStatus.diagnosed
    ∷ []
way_to RecoveryCaseStatus.scoring = RecoveryCaseStatus.triaged ∷ RecoveryCaseStatus.scoring ∷ []
way_to RecoveryCaseStatus.strategy_selected =
    RecoveryCaseStatus.triaged ∷ RecoveryCaseStatus.scoring ∷ RecoveryCaseStatus.strategy_selected
    ∷ []
way_to RecoveryCaseStatus.policy_check =
    RecoveryCaseStatus.triaged ∷ RecoveryCaseStatus.scoring ∷ RecoveryCaseStatus.strategy_selected
    ∷ RecoveryCaseStatus.policy_check ∷ []
way_to s =
    RecoveryCaseStatus.triaged
    ∷ RecoveryCaseStatus.scoring
    ∷ RecoveryCaseStatus.strategy_selected
    ∷ RecoveryCaseStatus.policy_check
    ∷ after_policy s
  where
    after_policy : RecoveryCaseStatus → List RecoveryCaseStatus
    after_policy RecoveryCaseStatus.action_completed =
        RecoveryCaseStatus.executing ∷ RecoveryCaseStatus.action_completed ∷ []
    after_policy RecoveryCaseStatus.failed =
        RecoveryCaseStatus.executing ∷ RecoveryCaseStatus.failed ∷ []
    after_policy RecoveryCaseStatus.verifying =
        RecoveryCaseStatus.executing ∷ RecoveryCaseStatus.action_completed
        ∷ RecoveryCaseStatus.verifying ∷ []
    after_policy RecoveryCaseStatus.recovered =
        RecoveryCaseStatus.executing ∷ RecoveryCaseStatus.action_completed
        ∷ RecoveryCaseStatus.verifying ∷ RecoveryCaseStatus.recovered ∷ []
    after_policy RecoveryCaseStatus.not_recovered =
        RecoveryCaseStatus.executing ∷ RecoveryCaseStatus.action_completed
        ∷ RecoveryCaseStatus.verifying ∷ RecoveryCaseStatus.not_recovered ∷ []
    after_policy t = t ∷ []

-- Every status can be reached from the starting status by a history of legal changes.
pub follow-way_to :
    (s : RecoveryCaseStatus)
    → (history : List RecoveryCaseStatus) × (follow starting_status history ≡ ok s)
unfolding follow assert_legal_transition can_transition
follow-way_to RecoveryCaseStatus.detected = (way_to RecoveryCaseStatus.detected, refl)
follow-way_to s = (way_to s, refl)

-- The way that each status but `recovered` can still be stopped.
abbrev way_to_stop : RecoveryCaseStatus → List RecoveryCaseStatus
way_to_stop RecoveryCaseStatus.stopped = []
way_to_stop RecoveryCaseStatus.detected = RecoveryCaseStatus.triaged ∷ from_triaged
  where
    from_triaged : List RecoveryCaseStatus
    from_triaged =
        RecoveryCaseStatus.scoring ∷ RecoveryCaseStatus.strategy_selected
        ∷ RecoveryCaseStatus.policy_check ∷ RecoveryCaseStatus.stopped ∷ []
way_to_stop RecoveryCaseStatus.investigating =
    RecoveryCaseStatus.diagnosed ∷ RecoveryCaseStatus.scoring ∷ RecoveryCaseStatus.strategy_selected
    ∷ RecoveryCaseStatus.policy_check ∷ RecoveryCaseStatus.stopped ∷ []
way_to_stop RecoveryCaseStatus.scoring =
    RecoveryCaseStatus.strategy_selected ∷ RecoveryCaseStatus.policy_check
    ∷ RecoveryCaseStatus.stopped ∷ []
way_to_stop RecoveryCaseStatus.strategy_selected =
    RecoveryCaseStatus.policy_check ∷ RecoveryCaseStatus.stopped ∷ []
way_to_stop RecoveryCaseStatus.executing =
    RecoveryCaseStatus.failed ∷ RecoveryCaseStatus.stopped ∷ []
way_to_stop RecoveryCaseStatus.action_completed =
    RecoveryCaseStatus.verifying ∷ RecoveryCaseStatus.not_recovered ∷ RecoveryCaseStatus.stopped
    ∷ []
way_to_stop RecoveryCaseStatus.verifying =
    RecoveryCaseStatus.not_recovered ∷ RecoveryCaseStatus.stopped ∷ []
way_to_stop RecoveryCaseStatus.triaged =
    RecoveryCaseStatus.scoring ∷ RecoveryCaseStatus.strategy_selected
    ∷ RecoveryCaseStatus.policy_check ∷ RecoveryCaseStatus.stopped ∷ []
way_to_stop RecoveryCaseStatus.diagnosed =
    RecoveryCaseStatus.scoring ∷ RecoveryCaseStatus.strategy_selected
    ∷ RecoveryCaseStatus.policy_check ∷ RecoveryCaseStatus.stopped ∷ []
way_to_stop RecoveryCaseStatus.retry_scheduled =
    RecoveryCaseStatus.scoring ∷ RecoveryCaseStatus.strategy_selected
    ∷ RecoveryCaseStatus.policy_check ∷ RecoveryCaseStatus.stopped ∷ []
way_to_stop _ = RecoveryCaseStatus.stopped ∷ []

-- From every status but `recovered` a history of legal changes leads to `stopped`.
pub follow-way_to_stop :
    (s : RecoveryCaseStatus)
    → s ≢ RecoveryCaseStatus.recovered
    → (history : List RecoveryCaseStatus) × (follow s history ≡ ok RecoveryCaseStatus.stopped)
unfolding follow assert_legal_transition can_transition
follow-way_to_stop RecoveryCaseStatus.recovered h = absurd (h refl)
follow-way_to_stop s h = (way_to_stop s, refl)
