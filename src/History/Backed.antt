-- ===== src/History/Backed.antt =====
-- The money that a case is credited with, over its life.
use revive_x.Prelude.{
  ℕ, ◌≤◌, ◌≡◌, sym, ◌∙◌, subst, ◌⊎◌, inl, inr, min, true, ◌==◌, ==→eq, Option, none, some, [], ◌∷◌,
  Memᴰ, arith,
}
use revive_x.Prelude.Lists.{find-member, Memᴰ-append}
use revive_x.Models.{RecoveryCase, Payment}
use revive_x.Settings.{RecoverySettings}
use revive_x.Session.{Session}
use revive_x.Session.Change.{IsValid, Change, ValidChange-laws, SameCredit-laws}
use revive_x.Transitions.{transition_case_at}
use revive_x.Transitions.Laws.{transition_case_at-ValidChange, transition_case_at-SameCredit}
use revive_x.Processor.{process_locked_case}
use revive_x.Processor.Steps.{process_locked_case-ValidChange, process_locked_case-SameCredit}
use revive_x.Ingestion.{ingest}
use revive_x.Ingestion.Keeps.{ingest-Within}
use revive_x.Tools.Execution.{execute}
use revive_x.Tools.Approvals.{approve_action, reject_action}
use revive_x.Tools.Change.{
  ToolChange, execute-ToolChange, execute-Uncredited, approve_action-ToolChange,
  approve_action-Uncredited, reject_action-ToolChange, reject_action-Uncredited,
}
use revive_x.Verification.Evaluate.{is_captured}
use revive_x.Verification.Evaluate.Conditions.{is_matching}
use revive_x.Verification.Service.{or_else, resolve_payment, find_optional, verify_case}
use revive_x.Verification.Service.Keeps.{verify_case-ValidChange}
use revive_x.Verification.Service.Credit.Spec.{verify_case-credit}
use revive_x.History.{Step, Run, Run-keeps}

-- A recorded payment of the case's merchant and customer that is captured, and as large as what the
-- case is credited with.
abbrev pub Backs : RecoveryCase → Payment → Type 0
Backs case payment =
    (payment.merchant_id ≡ case.merchant_id)
    × (payment.customer_id ≡ case.customer_id)
    × (is_captured payment.status ≡ true)
    × (case.amount_recovered ≤ payment.amount)

abbrev pub IsBacked : Session → Type 0
IsBacked s =
    (s.case.amount_recovered ≡ 0)
    ⊎ ((payment : Payment) × Memᴰ payment s.payments × Backs s.case payment)

found_member :
    (s : Session) (payment_id : Option ℕ) (payment : Payment)
    → resolve_payment s payment_id ≡ some payment
    → Memᴰ payment s.payments
unfolding resolve_payment
found_member s payment_id payment = by_id (or_else payment_id s.case.payment_id)
  where
    by_id : (id : Option ℕ) → find_optional s id ≡ some payment → Memᴰ payment s.payments
    by_id none h = ground arith
    by_id (some id) h = find-member (λ (p : Payment). p.id == id) s.payments payment h

kept-IsBacked :
    (s t : Session)
    → Change s t
    → t.case.amount_recovered ≡ s.case.amount_recovered
    → IsBacked s
    → IsBacked t
kept-IsBacked s t change same (inl zero) = inl (same ∙ zero)
kept-IsBacked s t (_, _, (_, m, c, _, _), _, _, ps) same (inr (p, mem, (pm, pc, cap, le))) = inr (
  p,
  subst (λ l. Memᴰ p l) (sym ps) mem,
  (pm ∙ sym m, pc ∙ sym c, cap, subst (λ n. n ≤ p.amount) (sym same) le),
)

grown-IsBacked :
    (s t : Session)
    → ToolChange s t
    → t.case.amount_recovered ≡ s.case.amount_recovered
    → IsBacked s
    → IsBacked t
grown-IsBacked s t change same (inl zero) = inl (same ∙ zero)
grown-IsBacked s t (_, _, (_, m, c, _, _), _, _, kept) same (inr (p, mem, (pm, pc, cap, le))) =
    let (q, found, (qm, qc, status, amount)) = kept p mem in
    inr (
      q,
      found,
      (
        qm ∙ (pm ∙ sym m),
        qc ∙ (pc ∙ sym c),
        subst (λ x. is_captured x ≡ true) (sym status) cap,
        omega (arith, same, amount, le),
      ),
    )

matching_parts :
    (settings : RecoverySettings) (s : Session) (payment : Payment)
    → is_matching settings s payment ≡ true
    → (payment.merchant_id ≡ s.case.merchant_id)
      × (payment.customer_id ≡ s.case.customer_id)
      × (is_captured payment.status ≡ true)
matching_parts settings s payment h = (
  ==→eq payment.merchant_id s.case.merchant_id (ground arith),
  ==→eq payment.customer_id s.case.customer_id (ground arith),
  ground arith,
)

Step-IsBacked : (s t : Session) → IsValid s.case → Step s t → IsBacked s → IsBacked t
Step-IsBacked s _ v (Step.processed settings) backed =
    kept-IsBacked s (process_locked_case settings s).1
      (process_locked_case-ValidChange settings s v).0 (process_locked_case-SameCredit settings s).0
      backed
Step-IsBacked s _ v (Step.changed expected target) backed =
    kept-IsBacked s (transition_case_at expected target s).1
      (transition_case_at-ValidChange expected target s v).0
      (transition_case_at-SameCredit expected target s).0 backed
Step-IsBacked s _ v (Step.tool_run env settings request) backed =
    grown-IsBacked s (execute env settings request s).1
      (execute-ToolChange env settings request s v).0
      (execute-Uncredited env settings request s).0.0 backed
Step-IsBacked s _ v (Step.approved env settings action merchant) backed =
    grown-IsBacked s (approve_action env settings action merchant s).1
      (approve_action-ToolChange env settings action merchant s v).0
      (approve_action-Uncredited env settings action merchant s).0.0 backed
Step-IsBacked s _ v (Step.rejected action merchant) backed =
    grown-IsBacked s (reject_action action merchant s).1
      (reject_action-ToolChange action merchant s v).0
      (reject_action-Uncredited action merchant s).0.0 backed
Step-IsBacked s _ v (Step.ingested accepts event merchant) backed =
    kept-IsBacked s (ingest accepts event merchant s).1
      (ingest-Within ValidChange-laws accepts event merchant s v).0
      (ingest-Within SameCredit-laws accepts event merchant s).0 backed
Step-IsBacked s _ v (Step.elapsed seconds) backed = backed
Step-IsBacked s _ v (Step.recorded payment) (inl zero) = inl zero
Step-IsBacked s _ v (Step.recorded payment) (inr (p, mem, backs)) =
    inr (p, Memᴰ-append s.payments (payment ∷ []) p mem, backs)
Step-IsBacked s _ v (Step.verified settings payment_id event) backed =
    elim (verify_case-credit settings payment_id event s v.0) [
      | inl (same, _) ↦ kept-IsBacked s t change same backed
      | inr (p, found, (_, matching, (amount, _))) ↦ inr (
        p,
        subst (λ l. Memᴰ p l) (sym change.5) (found_member s payment_id p found),
        backing p matching amount,
      )
    ]
  where
    t : Session
    t = (verify_case settings payment_id event s).1

    change : Change s t
    change = (verify_case-ValidChange settings payment_id event s v).0

    backing :
        (p : Payment)
        → is_matching settings s p ≡ true
        → t.case.amount_recovered ≡ min p.amount s.case.amount_at_risk
        → Backs t.case p
    backing p matching amount =
        let (m, c, captured) = matching_parts settings s p matching in
        (
          m ∙ sym change.2.1,
          c ∙ sym change.2.2,
          captured,
          subst (λ n. n ≤ p.amount) (sym amount) (ground arith),
        )

-- Over every run of the services, whatever their order, arguments and failures, what the case is
-- credited with is backed by a payment: it is nothing, or at most the amount of a recorded payment
-- that is captured and of the merchant and the customer of the case.
pub Run-IsBacked : (s t : Session) → IsValid s.case → IsBacked s → Run s t → IsBacked t
Run-IsBacked s _ v backed Run.start = backed
Run-IsBacked s u v backed (Run.then_step t _ run step) =
    Step-IsBacked t u (Run-keeps s t v run).1 step (Run-IsBacked s t v backed run)
