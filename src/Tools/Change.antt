-- ===== src/Tools/Change.antt =====
-- packages/domain/recoverai_domain/tools: what the tools and the decisions on approvals do to the
-- case, its credit and the payments.
use revive_x.Prelude.{
  ℕ, ◌≤◌, ◌≡◌, refl, sym, ◌∙◌, ap, subst, inl, inr, true, Option, none, List, arith,
}
use revive_x.Enums.{RecoveryCaseStatus}
use revive_x.Models.{RecoveryCase}
use revive_x.Models.ToolRows.{IdempotencyKey}
use revive_x.Settings.{RecoverySettings}
use revive_x.Session.{Session}
use revive_x.Session.Change.{
  Reaches, here, Reaches-join, IsValid, Extends, Extends-refl, Extends-trans, SameIdentity,
  SameCredit, SameCredit-laws, Within,
}
use revive_x.Transitions.{transition_case}
use revive_x.Transitions.Laws.{
  transition_case-ValidChange, transition_case-SameCredit, transition_case_at_lem,
}
use revive_x.Tools.Provider.{Environment}
use revive_x.Tools.Execution.{execute}
use revive_x.Tools.Execution.Guards.{ToolRequest}
use revive_x.Tools.Approvals.{approve_action, reject_action}
use revive_x.Tools.Keeps.Tables.{
  PaymentsKept, PaymentsKept-refl, PaymentsKept-of_eq, PaymentsKept-trans, TablesKept,
  is_tool_target, IsToolRelation,
}
use revive_x.Tools.Keeps.Calls.{execute-Within, approve_action-Within, reject_action-Within}

-- The change of a call: that of a service, but that payments may be added.
abbrev pub ToolChange : Session → Session → Type 0
ToolChange s s' =
    Reaches s.case.status s'.case.status
    × (s.case.version ≤ s'.case.version)
    × SameIdentity s.case s'.case
    × Extends s.audits s'.audits
    × (s'.others ≡ s.others)
    × PaymentsKept s.payments s'.payments

abbrev ValidToolChange : Session → Session → Type 0
ValidToolChange s s' = IsValid s.case → ToolChange s s' × IsValid s'.case

ToolChange-refl : (s : Session) → ToolChange s s
ToolChange-refl s = (
  here,
  ground arith,
  (refl, refl, refl, refl, refl),
  Extends-refl s.audits,
  refl,
  PaymentsKept-refl s.payments,
)

ToolChange-trans : (s t u : Session) → ToolChange s t → ToolChange t u → ToolChange s u
ToolChange-trans s t u (r, v, (i1, i2, i3, i4, i5), e, o, p)
      (r', v', (j1, j2, j3, j4, j5), e', o', p') =
    (
      Reaches-join s.case.status t.case.status u.case.status r r',
      omega (arith, v, v'),
      (j1 ∙ i1, j2 ∙ i2, j3 ∙ i3, j4 ∙ i4, j5 ∙ i5),
      Extends-trans s.audits t.audits u.audits e e',
      o' ∙ o,
      PaymentsKept-trans s.payments t.payments u.payments p p',
    )

ToolChange-of_tables : (s s' : Session) → TablesKept s s' → ToolChange s s'
ToolChange-of_tables s s' (c, e, o, p, _, _) = (
  subst (λ (d : RecoveryCase). Reaches s.case.status d.status) (sym c) here,
  subst (λ (d : RecoveryCase). s.case.version ≤ d.version) (sym c) (ground arith),
  subst (λ d. SameIdentity s.case d) (sym c) (refl, refl, refl, refl, refl),
  e,
  o,
  p,
)

target-Valid : (target : RecoveryCaseStatus) → Within ValidToolChange (transition_case target)
target-Valid target s v =
    let t = (transition_case target s).1 in
    let ((r, n, i, e, o, p), valid) = transition_case-ValidChange target s v in
    ((r, n, i, e, o, PaymentsKept-of_eq s.payments t.payments p), valid)

ValidToolChange-laws : IsToolRelation ValidToolChange
ValidToolChange-laws = record {
  on_same = λ s v. (ToolChange-refl s, v);
  on_both = λ s t u p q v.
      (let (a, v') = p v in let (b, v'') = q v' in (ToolChange-trans s t u a b, v''));
  on_tables = λ s s' k v. (ToolChange-of_tables s s' k, subst IsValid (sym k.0) v);
  on_target = λ target h. target-Valid target;
}

keys-Valid :
    (s : Session) (keys : List IdempotencyKey)
    → ValidToolChange s (record s { idempotency_keys = keys })
keys-Valid s keys v = (ToolChange-refl s, v)

-- The case is credited with nothing, and does not become RECOVERED.
abbrev pub Uncredited : Session → Session → Type 0
Uncredited s s' =
    SameCredit s s'
    × (s'.case.status ≡ RecoveryCaseStatus.recovered → s.case.status ≡ RecoveryCaseStatus.recovered)

not_recovered :
    (target : RecoveryCaseStatus)
    → is_tool_target target ≡ true
    → target ≡ RecoveryCaseStatus.recovered
    → ⊥
not_recovered target h e = ground arith

target-Uncredited :
    (target : RecoveryCaseStatus)
    → is_tool_target target ≡ true
    → Within Uncredited (transition_case target)
unfolding transition_case
target-Uncredited target h s = (
  transition_case-SameCredit target s,
  elim (transition_case_at_lem none target s) [
    | inl (_, _, same) ↦ λ e. sym (ap (λ (t : Session). t.case.status) same) ∙ e
    | inr (inl (_, _, _, same)) ↦ λ e. sym (ap (λ (t : Session). t.case.status) same) ∙ e
    | inr (inr (_, _, _, reached, _, _, _)) ↦ λ e. absurd (not_recovered target h (sym reached ∙ e))
  ],
)

Uncredited-laws : IsToolRelation Uncredited
Uncredited-laws = record {
  on_same = λ s. (SameCredit-laws.on_same s, λ e. e);
  on_both = λ s t u (a, f) (b, g). (SameCredit-laws.on_both s t u a b, λ e. f (g e));
  on_tables = λ s s' k. (
    subst
        (λ (d : RecoveryCase).
          (d.amount_recovered ≡ s.case.amount_recovered)
          × (d.verified_payment_id ≡ s.case.verified_payment_id)
          × (d.verified_webhook_event_id ≡ s.case.verified_webhook_event_id)
          × (d.last_mismatch_reason ≡ s.case.last_mismatch_reason)
          × (d.amount_at_risk ≡ s.case.amount_at_risk))
        (sym k.0) (refl, refl, refl, refl, refl),
    λ e. sym (ap (λ (c : RecoveryCase). c.status) k.0) ∙ e,
  );
  on_target = target-Uncredited;
}

keys-Uncredited :
    (s : Session) (keys : List IdempotencyKey) → Uncredited s (record s { idempotency_keys = keys })
keys-Uncredited s keys = Uncredited-laws.on_same s

module _ (env : Environment) (settings : RecoverySettings) where
  -- A tool call, whether it returns or raises, keeps a well-formed case well formed: the status moves
  -- along the table, the version does not fall, the audit log only grows, the identity and amount at
  -- risk of the case and the other rows of its table stay, and no payment loses its facts.
  pub execute-ToolChange :
      (request : ToolRequest) (s : Session)
      → IsValid s.case
      → let s' = (execute env settings request s).1 in ToolChange s s' × IsValid s'.case
  execute-ToolChange request = execute-Within ValidToolChange-laws keys-Valid env settings request

  -- A tool call, whatever the provider answers and whether it returns or raises, credits the case
  -- with nothing, and the case is RECOVERED after it only if it was before.
  pub execute-Uncredited :
      (request : ToolRequest) (s : Session) → Uncredited s (execute env settings request s).1
  execute-Uncredited request = execute-Within Uncredited-laws keys-Uncredited env settings request

  pub approve_action-ToolChange :
      (action : ℕ) (merchant : Option ℕ) (s : Session)
      → IsValid s.case
      → let s' = (approve_action env settings action merchant s).1 in
        ToolChange s s' × IsValid s'.case
  approve_action-ToolChange action merchant =
      approve_action-Within ValidToolChange-laws keys-Valid env settings action merchant

  pub approve_action-Uncredited :
      (action : ℕ) (merchant : Option ℕ) (s : Session)
      → Uncredited s (approve_action env settings action merchant s).1
  approve_action-Uncredited action merchant =
      approve_action-Within Uncredited-laws keys-Uncredited env settings action merchant

pub reject_action-ToolChange :
    (action : ℕ) (merchant : Option ℕ) (s : Session)
    → IsValid s.case
    → let s' = (reject_action action merchant s).1 in ToolChange s s' × IsValid s'.case
reject_action-ToolChange = reject_action-Within ValidToolChange-laws keys-Valid

pub reject_action-Uncredited :
    (action : ℕ) (merchant : Option ℕ) (s : Session)
    → Uncredited s (reject_action action merchant s).1
reject_action-Uncredited = reject_action-Within Uncredited-laws keys-Uncredited
