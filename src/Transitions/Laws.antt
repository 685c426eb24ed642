-- ===== src/Transitions/Laws.antt =====
-- What transitions.py does to the session on every branch, and that it keeps the case well formed.
use revive_x.Prelude.{
  ℕ, ◌+◌, ◌≡◌, refl, ◌⊎◌, inl, inr, Bool, true, false, not, Option, none, some, [], ◌∷◌, ◌++◌,
  is_none, arith, Bool-cases, if◌then◌else◌,
}
use revive_x.Enums.{RecoveryCaseStatus}
use revive_x.Errors.{Result, ok, err, concurrent_case_update, invalid_transition}
use revive_x.Models.Audit.{AuditEvent, AuditEventType, AuditState}
use revive_x.Session.{Session, case_event}
use revive_x.Session.Change.{
  here, step, IsValid, Change, ValidChange, CaseKept, SameCredit, Change-refl, Within,
  ValidChange-laws,
}
use revive_x.StateMachine.{is_terminal, can_transition, audit_type_for_target}
use revive_x.Transitions.{is_stale, moved, transition_case_at, transition_case}

module _ (target : RecoveryCaseStatus) (s : Session) where
  -- The event that a change of status leaves.
  abbrev status_event : AuditEventType → AuditEvent
  status_event type =
      case_event type (some (AuditState.case_status s.case.status))
        (some (AuditState.case_status target)) s.case

  abbrev logged : AuditEventType → Session
  logged type = record s { audits = s.audits ++ status_event type ∷ [] }

  -- The outcome of a change: refused for its version, refused by the table, or made.
  abbrev pub Outcome : Option ℕ → Result (Unit {0}) → Session → Type 0
  Outcome expected result s' =
      ((is_stale expected s.case.version ≡ true)
        × (result ≡ err (concurrent_case_update s.case.id))
        × (s' ≡ s))
      ⊎ ((is_stale expected s.case.version ≡ false)
          × (can_transition s.case.status target ≡ false)
          × (result ≡ err (invalid_transition s.case.status target))
          × (s' ≡ logged AuditEventType.state_transition_rejected))
      ⊎ ((is_stale expected s.case.version ≡ false)
          × (can_transition s.case.status target ≡ true)
          × (result ≡ ok tt)
          × (s'.case.status ≡ target)
          × (s'.case.version ≡ s.case.version + 1)
          × (is_none s'.case.closed_at ≡ not (is_terminal target))
          × (s'.audits ≡ s.audits ++ status_event (audit_type_for_target target) ∷ []))

closed_by : (b : Bool) (now : ℕ) → is_none (if b then some now else none) ≡ not b
closed_by true now = refl
closed_by false now = refl

-- A change of status with a stale version raises and leaves the session; otherwise one that the
-- table does not have raises and leaves one rejection in the log and the rest of the session; and
-- one that it has sets the status, raises the version by one, sets the time of closing if and only
-- if the target is final, and leaves the one event of its target in the log.
pub transition_case_at_lem :
    (expected : Option ℕ) (target : RecoveryCaseStatus) (s : Session)
    → let (r, s') = transition_case_at expected target s in Outcome target s expected r s'
unfolding transition_case_at
transition_case_at_lem expected target s = elim (Bool-cases (is_stale expected s.case.version)) [
  | inl h ↦ rw h (inl (refl, refl, refl))
  | inr h ↦ elim (Bool-cases (can_transition s.case.status target)) [
    | inl l ↦
        rw (h, l)
          (inr (inr (refl, refl, refl, refl, refl, closed_by (is_terminal target) s.now, refl)))
    | inr l ↦ rw (h, l) (inr (inl (refl, refl, refl, refl)))
  ]
]

accepted :
    (target : RecoveryCaseStatus) (s : Session)
    → can_transition s.case.status target ≡ true
    → ValidChange s (record s {
      case = moved target s.now s.case;
      audits = s.audits ++ status_event target s (audit_type_for_target target) ∷ [];
    })
accepted target s l v = (
  (
    step s.case.status target here l,
    ground arith,
    (refl, refl, refl, refl, refl),
    (status_event target s (audit_type_for_target target) ∷ [], refl),
    refl,
    refl,
  ),
  (v.0, closed_by (is_terminal target) s.now),
)

rejected :
    (target : RecoveryCaseStatus) (s : Session)
    → CaseKept s (logged target s AuditEventType.state_transition_rejected)
rejected target s = (
  refl,
  (status_event target s AuditEventType.state_transition_rejected ∷ [], refl),
  refl,
  refl,
  refl,
  refl,
)

-- A change of status, made or refused, keeps a well-formed case well formed: it moves the status
-- along the table or not at all, never lowers the version, only adds to the log, and changes
-- neither the identity and amount at risk of the case nor another row of it.
pub transition_case_at-ValidChange :
    (expected : Option ℕ) (target : RecoveryCaseStatus) (s : Session)
    → IsValid s.case
    → let s' = (transition_case_at expected target s).1 in Change s s' × IsValid s'.case
unfolding transition_case_at
transition_case_at-ValidChange expected target s v =
    elim (Bool-cases (is_stale expected s.case.version)) [
      | inl h ↦ rw h (Change-refl s, v)
      | inr h ↦ elim (Bool-cases (can_transition s.case.status target)) [
        | inl l ↦ rw (h, l) (accepted target s l v)
        | inr l ↦
            rw (h, l)
              (ValidChange-laws.on_kept s (logged target s AuditEventType.state_transition_rejected)
                (rejected target s) v)
      ]
    ]

pub transition_case-ValidChange :
    (target : RecoveryCaseStatus) → Within ValidChange (transition_case target)
unfolding transition_case
transition_case-ValidChange target s v = transition_case_at-ValidChange none target s v

pub transition_case_at-SameCredit :
    (expected : Option ℕ) (target : RecoveryCaseStatus)
    → Within SameCredit (transition_case_at expected target)
unfolding transition_case_at
transition_case_at-SameCredit expected target s =
    elim (Bool-cases (is_stale expected s.case.version)) [
      | inl h ↦ rw h (refl, refl, refl, refl, refl)
      | inr h ↦ elim (Bool-cases (can_transition s.case.status target)) [
        | inl l ↦ rw (h, l) (refl, refl, refl, refl, refl)
        | inr l ↦ rw (h, l) (refl, refl, refl, refl, refl)
      ]
    ]

pub transition_case-SameCredit :
    (target : RecoveryCaseStatus) → Within SameCredit (transition_case target)
unfolding transition_case
transition_case-SameCredit target = transition_case_at-SameCredit none target
