-- ===== src/Transitions.antt =====
-- packages/domain/recoverai_domain/transitions.py: the one place where the status of a case
-- changes.
pub mod Laws
pub mod Settles
use revive_x.Prelude.{
  ℕ, ◌+◌, Bool, true, false, not, ◌&&◌, ◌==◌, if◌then◌else◌, Option, none, some, List, [], ◌∷◌,
  ◌++◌,
}
use revive_x.Enums.{RecoveryCaseStatus}
use revive_x.Errors.{concurrent_case_update, invalid_transition}
use revive_x.Models.{RecoveryCase}
use revive_x.Models.Audit.{AuditEventType, AuditState}
use revive_x.Session.{
  Session, Action, pure, raise, gets, ◌>>=◌, ◌>>◌, modify, update_case, record_audit,
}
use revive_x.StateMachine.{is_terminal, can_transition, audit_type_for_target}

-- `expected_version is not None and case.version != expected_version`
abbrev pub is_stale : Option ℕ → ℕ → Bool
is_stale none version = false
is_stale (some expected) version = not (version == expected)

-- The case after a legal change.
abbrev pub moved : RecoveryCaseStatus → ℕ → RecoveryCase → RecoveryCase
moved target now c = record c {
  status = target;
  version = c.version + 1;
  closed_at = if is_terminal target then some now else none;
}

abbrev reject_transition : RecoveryCaseStatus → RecoveryCaseStatus → Action (Unit {0})
reject_transition current target =
    record_audit AuditEventType.state_transition_rejected (some (AuditState.case_status current))
      (some (AuditState.case_status target))
    >> raise (invalid_transition current target)

abbrev accept_transition : RecoveryCaseStatus → RecoveryCaseStatus → Action (Unit {0})
accept_transition current target =
    modify (λ s. record s { case = moved target s.now s.case })
    >> record_audit (audit_type_for_target target) (some (AuditState.case_status current))
        (some (AuditState.case_status target))

-- `transition_case`, with the expected version
unfoldable pub transition_case_at : Option ℕ → RecoveryCaseStatus → Action (Unit {0})
transition_case_at expected target s =
    if is_stale expected s.case.version
    then (raise (concurrent_case_update s.case.id)) s
    else if can_transition s.case.status target
    then accept_transition s.case.status target s
    else reject_transition s.case.status target s

-- `transition_case`, as the services call it
unfoldable pub transition_case : RecoveryCaseStatus → Action (Unit {0})
transition_case target = transition_case_at none target
