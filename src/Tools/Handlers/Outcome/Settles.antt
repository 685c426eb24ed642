-- ===== src/Tools/Handlers/Outcome/Settles.antt =====
-- packages/domain/recoverai_domain/tools/handlers.py: where `apply_case_outcome` leaves the case.
use revive_x.Prelude.{◌≡◌, refl, ◌∙◌, Bool, true, false, Option, none, some, if◌then◌else◌, arith}
use revive_x.Enums.{RecoveryCaseStatus}
use revive_x.Session.{Session}
use revive_x.StateMachine.{can_transition}
use revive_x.Transitions.{transition_case}
use revive_x.Transitions.Settles.{Settles, transition-Settles, Settles-then}
use revive_x.Tools.Handlers.Outcome.{
  only_if, is_before_execution, is_executing, is_policy_check, may_leave, complete_if_executing,
  complete_action, apply_case_outcome,
}

-- The status of the case after a tool that succeeded, by its target and the status before.
abbrev pub outcome_status : Option RecoveryCaseStatus → RecoveryCaseStatus → RecoveryCaseStatus
outcome_status (some RecoveryCaseStatus.action_completed) current =
    if is_before_execution current
    then RecoveryCaseStatus.action_completed
    else if is_executing current
    then RecoveryCaseStatus.action_completed
    else current
outcome_status (some RecoveryCaseStatus.retry_scheduled) current =
    if is_policy_check current then RecoveryCaseStatus.retry_scheduled else current
outcome_status (some RecoveryCaseStatus.escalated) current =
    if may_leave current then RecoveryCaseStatus.escalated else current
outcome_status (some RecoveryCaseStatus.stopped) current =
    if may_leave current then RecoveryCaseStatus.stopped else current
outcome_status _ current = current

pub only_if-Settles :
    (b : Bool) (target : RecoveryCaseStatus) (s : Session)
    → (b ≡ true → can_transition s.case.status target ≡ true)
    → Settles (only_if b (transition_case target)) (if b then target else s.case.status) s
only_if-Settles true target s legal = transition-Settles target s (legal refl)
only_if-Settles false target s legal = (refl, refl)

to_retry :
    (c : RecoveryCaseStatus)
    → is_policy_check c ≡ true
    → can_transition c RecoveryCaseStatus.retry_scheduled ≡ true
unfolding can_transition
to_retry c h = ground arith

to_execution :
    (c : RecoveryCaseStatus)
    → is_before_execution c ≡ true
    → can_transition c RecoveryCaseStatus.executing ≡ true
unfolding can_transition
to_execution c h = ground arith

to_completed :
    (c : RecoveryCaseStatus)
    → is_executing c ≡ true
    → can_transition c RecoveryCaseStatus.action_completed ≡ true
unfolding can_transition
to_completed c h = ground arith

to_escalated :
    (c : RecoveryCaseStatus)
    → may_leave c ≡ true
    → can_transition c RecoveryCaseStatus.escalated ≡ true
unfolding can_transition
to_escalated c h = ground arith

to_stopped :
    (c : RecoveryCaseStatus)
    → may_leave c ≡ true
    → can_transition c RecoveryCaseStatus.stopped ≡ true
unfolding can_transition
to_stopped c h = ground arith

complete-Settles :
    (s : Session)
    → Settles complete_action
        (outcome_status (some RecoveryCaseStatus.action_completed) s.case.status)
        s
complete-Settles s =
    Settles-then
      (only_if (is_before_execution s.case.status) (transition_case RecoveryCaseStatus.executing))
      complete_if_executing
      (if is_before_execution s.case.status then RecoveryCaseStatus.executing else s.case.status) _
      s
      (only_if-Settles (is_before_execution s.case.status) RecoveryCaseStatus.executing s
        (to_execution s.case.status))
      (λ t reached. completed t (is_before_execution s.case.status) reached)
  where
    completed :
        (t : Session) (b : Bool)
        → t.case.status ≡ (if b then RecoveryCaseStatus.executing else s.case.status)
        → Settles complete_if_executing
            (if b
              then RecoveryCaseStatus.action_completed
              else if is_executing s.case.status
              then RecoveryCaseStatus.action_completed
              else s.case.status)
            t
    completed t true reached =
        let (returns, status) =
          only_if-Settles (is_executing t.case.status) RecoveryCaseStatus.action_completed t
            (to_completed t.case.status) in
        (returns, status ∙ rw reached refl)
    completed t false reached =
        let (returns, status) =
          only_if-Settles (is_executing t.case.status) RecoveryCaseStatus.action_completed t
            (to_completed t.case.status) in
        (returns, status ∙ rw reached refl)

-- Taking the case to where a tool that succeeded says raises nothing, whatever the status: the case
-- is completed from the policy check, from an approval and from the execution, its retry is scheduled
-- from the policy check only, it is escalated or stopped from the policy check, an approval, a failure
-- or a failed recovery, and in every other case it is left in its status.
pub apply_case_outcome-Settles :
    (target : Option RecoveryCaseStatus) (s : Session)
    → Settles (apply_case_outcome target) (outcome_status target s.case.status) s
unfolding apply_case_outcome
apply_case_outcome-Settles none s = (refl, refl)
apply_case_outcome-Settles (some RecoveryCaseStatus.action_completed) s = complete-Settles s
apply_case_outcome-Settles (some RecoveryCaseStatus.retry_scheduled) s =
    only_if-Settles (is_policy_check s.case.status) RecoveryCaseStatus.retry_scheduled s
      (to_retry s.case.status)
apply_case_outcome-Settles (some RecoveryCaseStatus.escalated) s =
    only_if-Settles (may_leave s.case.status) RecoveryCaseStatus.escalated s
      (to_escalated s.case.status)
apply_case_outcome-Settles (some RecoveryCaseStatus.stopped) s =
    only_if-Settles (may_leave s.case.status) RecoveryCaseStatus.stopped s
      (to_stopped s.case.status)
apply_case_outcome-Settles (some _) s = (refl, refl)
