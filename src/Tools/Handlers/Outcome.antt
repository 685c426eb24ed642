-- ===== src/Tools/Handlers/Outcome.antt =====
-- packages/domain/recoverai_domain/tools/handlers.py: `apply_case_outcome`, where a tool that
-- succeeded takes the case.
pub mod Settles
use revive_x.Prelude.{Bool, true, false, if◌then◌else◌, Option, none, some, ◌&&◌}
use revive_x.Enums.{RecoveryCaseStatus}
use revive_x.Session.{Session, Action, pure, ◌>>◌}
use revive_x.Transitions.{transition_case}

-- `{POLICY_CHECK, AWAITING_APPROVAL}`
abbrev pub is_before_execution : RecoveryCaseStatus → Bool
is_before_execution RecoveryCaseStatus.policy_check = true
is_before_execution RecoveryCaseStatus.awaiting_approval = true
is_before_execution _ = false

abbrev pub is_executing : RecoveryCaseStatus → Bool
is_executing RecoveryCaseStatus.executing = true
is_executing _ = false

abbrev pub is_policy_check : RecoveryCaseStatus → Bool
is_policy_check RecoveryCaseStatus.policy_check = true
is_policy_check _ = false

-- The statuses that a tool may escalate or stop from.
abbrev pub may_leave : RecoveryCaseStatus → Bool
may_leave RecoveryCaseStatus.policy_check = true
may_leave RecoveryCaseStatus.awaiting_approval = true
may_leave RecoveryCaseStatus.failed = true
may_leave RecoveryCaseStatus.not_recovered = true
may_leave _ = false

abbrev pub only_if : Bool → Action (Unit {0}) → Action (Unit {0})
only_if b m = if b then m else pure tt

abbrev pub complete_if_executing : Action (Unit {0})
complete_if_executing s =
    only_if (is_executing s.case.status) (transition_case RecoveryCaseStatus.action_completed) s

-- The branch of the target ACTION_COMPLETED
abbrev pub complete_action : Action (Unit {0})
complete_action s =
    (only_if (is_before_execution s.case.status) (transition_case RecoveryCaseStatus.executing)
        >> complete_if_executing)
      s

-- `apply_case_outcome`; a case that has the target is left by each of the branches
unfoldable pub apply_case_outcome : Option RecoveryCaseStatus → Action (Unit {0})
apply_case_outcome none s = (pure tt) s
apply_case_outcome (some RecoveryCaseStatus.action_completed) s = complete_action s
apply_case_outcome (some RecoveryCaseStatus.retry_scheduled) s =
    only_if (is_policy_check s.case.status) (transition_case RecoveryCaseStatus.retry_scheduled) s
apply_case_outcome (some RecoveryCaseStatus.escalated) s =
    only_if (may_leave s.case.status) (transition_case RecoveryCaseStatus.escalated) s
apply_case_outcome (some RecoveryCaseStatus.stopped) s =
    only_if (may_leave s.case.status) (transition_case RecoveryCaseStatus.stopped) s
apply_case_outcome (some _) s = (pure tt) s
