-- ===== src/StateMachine/Gates.antt =====
-- What no history of legal changes can skip, by the table in
-- packages/domain/recoverai_domain/state_machine.py.
use mathlib.Core.List.{Memᴰ}
use revive_x.Prelude.{Bool, true, false, ◌≡◌, refl, sym, List, [], ◌∷◌, arith, ◌⊎◌, inl, inr}
use revive_x.Enums.{RecoveryCaseStatus}
use revive_x.Errors.{ok}
use revive_x.StateMachine.{starting_status, can_transition, assert_legal_transition, follow}

-- A history that succeeds begins with a legal change and goes on from there.
follow-inversion :
    (s t : RecoveryCaseStatus) (rest : List RecoveryCaseStatus) {u : RecoveryCaseStatus}
    → follow s (t ∷ rest) ≡ ok u
    → (can_transition s t ≡ true) × (follow t rest ≡ ok u)
unfolding follow assert_legal_transition
follow-inversion s t rest h = ground arith

module _ (gate : RecoveryCaseStatus) (before : RecoveryCaseStatus → Bool)
    (closed : (s t : RecoveryCaseStatus)
      → before s ≡ true
      → can_transition s t ≡ true
      → (t ≡ gate) ⊎ (before t ≡ true)) where
  -- If only the gate leads out of a set of statuses, a history that leaves the set has passed it.
  gate_passed :
      (s : RecoveryCaseStatus) (history : List RecoveryCaseStatus) (u : RecoveryCaseStatus)
      → before s ≡ true
      → follow s history ≡ ok u
      → before u ≡ false
      → Memᴰ gate history
  unfolding follow
  gate_passed s [] u inside h outside = ground arith
  gate_passed s (t ∷ rest) u inside h outside =
      let (legal, onwards) = follow-inversion s t rest h in
      elim (closed s t inside legal) [
        | inl e ↦ Memᴰ.head (sym e)
        | inr still ↦ Memᴰ.tail (gate_passed t rest u still onwards outside)
      ]

abbrev before_policy : RecoveryCaseStatus → Bool
before_policy RecoveryCaseStatus.detected = true
before_policy RecoveryCaseStatus.triaged = true
before_policy RecoveryCaseStatus.investigating = true
before_policy RecoveryCaseStatus.diagnosed = true
before_policy RecoveryCaseStatus.scoring = true
before_policy RecoveryCaseStatus.strategy_selected = true
before_policy _ = false

abbrev before_execution : RecoveryCaseStatus → Bool
before_execution RecoveryCaseStatus.executing = false
before_execution RecoveryCaseStatus.action_completed = false
before_execution RecoveryCaseStatus.failed = false
before_execution RecoveryCaseStatus.verifying = false
before_execution RecoveryCaseStatus.recovered = false
before_execution RecoveryCaseStatus.not_recovered = false
before_execution _ = true

abbrev before_verification : RecoveryCaseStatus → Bool
before_verification RecoveryCaseStatus.verifying = false
before_verification RecoveryCaseStatus.recovered = false
before_verification RecoveryCaseStatus.not_recovered = false
before_verification _ = true

before_policy_closed :
    (s t : RecoveryCaseStatus)
    → before_policy s ≡ true
    → can_transition s t ≡ true
    → (t ≡ RecoveryCaseStatus.policy_check) ⊎ (before_policy t ≡ true)
unfolding can_transition
before_policy_closed RecoveryCaseStatus.detected t h legal = ground arith
before_policy_closed _ t h legal = ground arith

before_execution_closed :
    (s t : RecoveryCaseStatus)
    → before_execution s ≡ true
    → can_transition s t ≡ true
    → (t ≡ RecoveryCaseStatus.executing) ⊎ (before_execution t ≡ true)
unfolding can_transition
before_execution_closed RecoveryCaseStatus.detected t h legal = ground arith
before_execution_closed _ t h legal = ground arith

before_verification_closed :
    (s t : RecoveryCaseStatus)
    → before_verification s ≡ true
    → can_transition s t ≡ true
    → (t ≡ RecoveryCaseStatus.verifying) ⊎ (before_verification t ≡ true)
unfolding can_transition
before_verification_closed RecoveryCaseStatus.detected t h legal = ground arith
before_verification_closed _ t h legal = ground arith

-- A history of legal changes from the starting status to `executing` has passed `policy_check`.
pub executing_needs_policy_check :
    (history : List RecoveryCaseStatus)
    → follow starting_status history ≡ ok RecoveryCaseStatus.executing
    → Memᴰ RecoveryCaseStatus.policy_check history
executing_needs_policy_check history h =
    gate_passed RecoveryCaseStatus.policy_check before_policy before_policy_closed starting_status
      history RecoveryCaseStatus.executing refl h refl

-- A history of legal changes from the starting status to `recovered` has passed `policy_check`,
-- `executing` and `verifying`.
pub recovered_needs_verification :
    (history : List RecoveryCaseStatus)
    → follow starting_status history ≡ ok RecoveryCaseStatus.recovered
    → Memᴰ RecoveryCaseStatus.policy_check history
      × Memᴰ RecoveryCaseStatus.executing history
      × Memᴰ RecoveryCaseStatus.verifying history
recovered_needs_verification history h = (
  gate_passed RecoveryCaseStatus.policy_check before_policy before_policy_closed starting_status
      history RecoveryCaseStatus.recovered refl h refl,
  gate_passed RecoveryCaseStatus.executing before_execution before_execution_closed starting_status
      history RecoveryCaseStatus.recovered refl h refl,
  gate_passed RecoveryCaseStatus.verifying before_verification before_verification_closed
      starting_status history RecoveryCaseStatus.recovered refl h refl,
)
