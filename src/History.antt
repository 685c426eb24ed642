-- ===== src/History.antt =====
-- A case over its life: the services of packages/domain/recoverai_domain called on it in any order
-- and with any arguments, while time passes and payments are recorded between the calls.
pub mod Backed
use revive_x.Prelude.{
  ℕ, ◌+◌, ◌≤◌, ◌≡◌, refl, sym, ◌∙◌, ap, Bool, true, Option, none, some, List, [], ◌∷◌, ◌++◌, arith,
}
use revive_x.Enums.{RecoveryCaseStatus}
use revive_x.Models.{RecoveryCase, Payment}
use revive_x.Settings.{RecoverySettings}
use revive_x.Session.{Session}
use revive_x.Session.Change.{
  Reaches, here, Reaches-join, Reaches-final, IsValid, Extends, Extends-refl, Extends-trans,
  SameIdentity, Change, ValidChange-laws,
}
use revive_x.StateMachine.{is_terminal}
use revive_x.Transitions.{transition_case_at}
use revive_x.Transitions.Laws.{transition_case_at-ValidChange}
use revive_x.Processor.{process_locked_case}
use revive_x.Processor.Steps.{process_locked_case-ValidChange}
use revive_x.Models.EventRows.{ProviderEvent}
use revive_x.Ingestion.{ingest}
use revive_x.Ingestion.Keeps.{ingest-Within}
use revive_x.Tools.Provider.{Environment}
use revive_x.Tools.Execution.{execute}
use revive_x.Tools.Execution.Guards.{ToolRequest}
use revive_x.Tools.Approvals.{approve_action, reject_action}
use revive_x.Tools.Change.{
  ToolChange, execute-ToolChange, approve_action-ToolChange, reject_action-ToolChange,
}
use revive_x.Verification.Service.{verify_case}
use revive_x.Verification.Service.Keeps.{verify_case-ValidChange}

-- One event in the life of a case.
pub data Step (s : Session) : Session → Type 0 where
  processed : (settings : RecoverySettings) → Step s (process_locked_case settings s).1
  verified :
      (settings : RecoverySettings) (payment_id event : Option ℕ)
      → Step s (verify_case settings payment_id event s).1
  changed :
      (expected : Option ℕ) (target : RecoveryCaseStatus)
      → Step s (transition_case_at expected target s).1
  tool_run :
      (env : Environment) (settings : RecoverySettings) (request : ToolRequest)
      → Step s (execute env settings request s).1
  approved :
      (env : Environment) (settings : RecoverySettings) (action : ℕ) (merchant : Option ℕ)
      → Step s (approve_action env settings action merchant s).1
  rejected : (action : ℕ) (merchant : Option ℕ) → Step s (reject_action action merchant s).1
  ingested :
      (accepts : Bool) (event : ProviderEvent) (merchant : ℕ)
      → Step s (ingest accepts event merchant s).1
  elapsed : (seconds : ℕ) → Step s (record s { now = s.now + seconds })
  recorded : (payment : Payment) → Step s (record s { payments = s.payments ++ payment ∷ [] })

pub data Run (s : Session) : Session → Type 0 where
  start : Run s s
  then_step : (t u : Session) → Run s t → Step t u → Run s u

-- What a life may change of its case and log.
abbrev pub Evolved : Session → Session → Type 0
Evolved s t =
    Reaches s.case.status t.case.status
    × (s.case.version ≤ t.case.version)
    × SameIdentity s.case t.case
    × Extends s.audits t.audits

Evolved-refl : (s : Session) → Evolved s s
Evolved-refl s = (here, ground arith, (refl, refl, refl, refl, refl), Extends-refl s.audits)

Evolved-trans : (s t u : Session) → Evolved s t → Evolved t u → Evolved s u
Evolved-trans s t u (r, v, (i1, i2, i3, i4, i5), e) (r', v', (j1, j2, j3, j4, j5), e') = (
  Reaches-join s.case.status t.case.status u.case.status r r',
  omega (arith, v, v'),
  (j1 ∙ i1, j2 ∙ i2, j3 ∙ i3, j4 ∙ i4, j5 ∙ i5),
  Extends-trans s.audits t.audits u.audits e e',
)

Evolved-of_Change : (s t : Session) → Change s t × IsValid t.case → Evolved s t × IsValid t.case
Evolved-of_Change s t ((r, v, i, e, _, _), valid) = ((r, v, i, e), valid)

Evolved-of_ToolChange :
    (s t : Session) → ToolChange s t × IsValid t.case → Evolved s t × IsValid t.case
Evolved-of_ToolChange s t ((r, v, i, e, _, _), valid) = ((r, v, i, e), valid)

Step-keeps : (s t : Session) → IsValid s.case → Step s t → Evolved s t × IsValid t.case
Step-keeps s _ v (processed settings) =
    Evolved-of_Change s (process_locked_case settings s).1
      (process_locked_case-ValidChange settings s v)
Step-keeps s _ v (verified settings payment_id event) =
    Evolved-of_Change s (verify_case settings payment_id event s).1
      (verify_case-ValidChange settings payment_id event s v)
Step-keeps s _ v (changed expected target) =
    Evolved-of_Change s (transition_case_at expected target s).1
      (transition_case_at-ValidChange expected target s v)
Step-keeps s _ v (tool_run env settings request) =
    Evolved-of_ToolChange s (execute env settings request s).1
      (execute-ToolChange env settings request s v)
Step-keeps s _ v (approved env settings action merchant) =
    Evolved-of_ToolChange s (approve_action env settings action merchant s).1
      (approve_action-ToolChange env settings action merchant s v)
Step-keeps s _ v (rejected action merchant) =
    Evolved-of_ToolChange s (reject_action action merchant s).1
      (reject_action-ToolChange action merchant s v)
Step-keeps s _ v (ingested accepts event merchant) =
    Evolved-of_Change s (ingest accepts event merchant s).1
      (ingest-Within ValidChange-laws accepts event merchant s v)
Step-keeps s _ v (elapsed seconds) = (Evolved-refl s, v)
Step-keeps s _ v (recorded payment) = (Evolved-refl s, v)

-- Over every run of the services, whatever their order, arguments and failures, a well-formed case
-- stays well formed: it never credits more than it has at risk, and is closed exactly in a final
-- status; its status follows the table, its version does not fall, its identity and amount at risk
-- stay, and what the log has is never taken out of it.
pub Run-keeps : (s t : Session) → IsValid s.case → Run s t → Evolved s t × IsValid t.case
Run-keeps s _ v start = (Evolved-refl s, v)
Run-keeps s u v (then_step t _ run step) =
    let (before, valid) = Run-keeps s t v run in
    let (after, kept) = Step-keeps t u valid step in (Evolved-trans s t u before after, kept)

-- A well-formed case in a final status stays in it over every run.
pub Run-final :
    (s t : Session)
    → IsValid s.case
    → is_terminal s.case.status ≡ true
    → Run s t
    → t.case.status ≡ s.case.status
Run-final s t v final run =
    Reaches-final s.case.status t.case.status final (Run-keeps s t v run).0.0
