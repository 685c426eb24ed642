-- ===== src/Transitions/Settles.antt =====
-- Actions that raise nothing and leave the case in a status, and the changes of transitions.py that
-- do so.
use revive_x.Prelude.{◌≡◌, refl, true}
use revive_x.Enums.{RecoveryCaseStatus}
use revive_x.Errors.{ok}
use revive_x.Session.{Session, Action, ◌>>◌}
use revive_x.StateMachine.{can_transition}
use revive_x.Transitions.{transition_case_at, transition_case}

abbrev pub Settles : Action (Unit {0}) → RecoveryCaseStatus → Session → Type 0
Settles m status s = ((m s).0 ≡ ok tt) × ((m s).1.case.status ≡ status)

pub transition-Settles :
    (target : RecoveryCaseStatus) (s : Session)
    → can_transition s.case.status target ≡ true
    → Settles (transition_case target) target s
unfolding transition_case transition_case_at
transition-Settles target s legal = rw legal (refl, refl)

pub then-Settles :
    (m : Action (Unit {0})) (between target : RecoveryCaseStatus) (s : Session)
    → Settles m between s
    → can_transition between target ≡ true
    → Settles (m >> transition_case target) target s
then-Settles m between target s (returns, reached) legal =
    rw returns (transition-Settles target (m s).1 (rw reached legal))

pub Settles-then :
    (m k : Action (Unit {0})) (between target : RecoveryCaseStatus) (s : Session)
    → Settles m between s
    → ((t : Session) → t.case.status ≡ between → Settles k target t)
    → Settles (m >> k) target s
Settles-then m k between target s (returns, reached) next = rw returns (next (m s).1 reached)
