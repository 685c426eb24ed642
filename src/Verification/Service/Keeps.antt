-- ===== src/Verification/Service/Keeps.antt =====
-- A verification keeps the case well formed.
use revive_x.Prelude.{
  ℕ, ◌≤◌, ◌≡◌, refl, sym, ◌∙◌, ap, subst, inl, inr, min, not, Option, none, some, ltb, ◌==◌,
  is_none, arith, Bool-cases, if◌then◌else◌,
}
use revive_x.Enums.{RecoveryCaseStatus, MismatchReason}
use revive_x.Errors.{Result}
use revive_x.Models.{RecoveryCase, Payment}
use revive_x.Models.Audit.{AuditEventType, AuditState}
use revive_x.Settings.{RecoverySettings}
use revive_x.Session.{Session, Action, pure, lift, ◌>>=◌, ◌>>◌, update_case, record_audit}
use revive_x.Session.Change.{
  Within, ValidChange, ValidChange-laws, Within-continue, Within-if, Within-then, after_at,
  Within-record_audit, IsValid, Change, here, Extends-refl, Reaches,
}
use revive_x.StateMachine.{is_terminal}
use revive_x.Transitions.{transition_case}
use revive_x.Transitions.Laws.{transition_case-ValidChange}
use revive_x.Processor.{process_locked_case}
use revive_x.Processor.Steps.{process_locked_case-ValidChange}
use revive_x.Verification.{RecoveryMatchResult}
use revive_x.Verification.Evaluate.{evaluate, exposure}
use revive_x.Verification.Service.{
  is_stopped, is_recovered, is_verifying, is_action_completed, resolve_payment, counted_reason,
  no_credit, audit_no_credit, start_verifying, ensure_verifying, audit_amount, credited_case,
  credit_success, apply_success, note_reason, is_partial, credit_partial, close_failure,
  persist_failure, record_outcome, no_payment, already_recovered, settle, verify_uncounted,
  verify_payment, verify_case, or_else,
}

-- Assignments to the case that leave what a change may not touch, and keep it valid.
abbrev Harmless : (RecoveryCase → RecoveryCase) → RecoveryCase → Type 0
Harmless f c =
    ((f c).status ≡ c.status)
    × ((f c).version ≡ c.version)
    × ((f c).closed_at ≡ c.closed_at)
    × ((f c).id ≡ c.id)
    × ((f c).merchant_id ≡ c.merchant_id)
    × ((f c).customer_id ≡ c.customer_id)
    × ((f c).payment_id ≡ c.payment_id)
    × ((f c).amount_at_risk ≡ c.amount_at_risk)
    × ((f c).amount_recovered ≤ c.amount_at_risk)

update_keeps :
    (f : RecoveryCase → RecoveryCase) (s : Session)
    → (IsValid s.case → Harmless f s.case)
    → ValidChange s (update_case f s).1
update_keeps f s harmless v =
    let (st, ver, cl, i, m, c, p, at, le) = harmless v in
    (
      (
        subst (Reaches s.case.status) (sym st) here,
        omega (arith, ver),
        (i, m, c, p, at),
        Extends-refl s.audits,
        refl,
        refl,
      ),
      (omega (arith, at, le), ap is_none cl ∙ (v.1 ∙ ap (λ x. not (is_terminal x)) (sym st))),
    )

audit_amount_keeps : (previous credited : ℕ) → Within ValidChange (audit_amount previous credited)
audit_amount_keeps previous credited =
    let before = some (AuditState.amount previous) in
    let after = some (AuditState.amount credited) in
    let audit = record_audit AuditEventType.recovery_amount_updated before after in
    Within-if ValidChange-laws (previous == credited) (pure tt) audit ValidChange-laws.on_same
      (Within-record_audit ValidChange-laws AuditEventType.recovery_amount_updated before after)

credit_success_keeps :
    (payment : Payment) (match : RecoveryMatchResult) (event : Option ℕ) (s : Session)
    → match.amount_recovered ≤ s.case.amount_at_risk
    → ValidChange s (credit_success payment match event s).1
credit_success_keeps payment match event s le =
    let update = update_case (credited_case match.amount_recovered (some payment.id) event none) in
    let audit = audit_amount s.case.amount_recovered match.amount_recovered in
    after_at ValidChange-laws (update >> audit) (transition_case RecoveryCaseStatus.recovered) s
      (after_at ValidChange-laws update audit s
        (update_keeps (credited_case match.amount_recovered (some payment.id) event none) s
          (λ v. (refl, refl, refl, refl, refl, refl, refl, refl, le)))
        (audit_amount_keeps s.case.amount_recovered match.amount_recovered))
      (transition_case-ValidChange RecoveryCaseStatus.recovered)

apply_success_keeps :
    (payment : Payment) (match : RecoveryMatchResult) (event : Option ℕ)
    → Within ValidChange (apply_success payment match event)
unfolding apply_success
apply_success_keeps payment match event s = elim (Bool-cases (is_verifying s.case.status)) [
  | inr n ↦ rw n (ValidChange-laws.on_same s)
  | inl y ↦ elim (Bool-cases (ltb s.case.amount_at_risk match.amount_recovered)) [
    | inl over ↦ rw (y, over) (ValidChange-laws.on_same s)
    | inr fits ↦ rw (y, fits) (credit_success_keeps payment match event s (ground arith))
  ]
]

credit_partial_keeps :
    (result : RecoveryMatchResult) (event : Option ℕ)
    → Within ValidChange (credit_partial result event)
credit_partial_keeps result event s =
    let credited = min result.amount_recovered s.case.amount_at_risk in
    let f = λ (c : RecoveryCase).
      credited_case credited (or_else result.payment_id c.verified_payment_id) event
        c.last_mismatch_reason c in
    after_at ValidChange-laws (update_case f) (audit_amount s.case.amount_recovered credited) s
      (update_keeps f s (λ v. (refl, refl, refl, refl, refl, refl, refl, refl, ground arith)))
      (audit_amount_keeps s.case.amount_recovered credited)

-- An event that repeats the status of the case.
abbrev unmoved : Session → Action (Unit {0})
unmoved s =
    record_audit AuditEventType.recovery_verification_failed
      (some (AuditState.case_status s.case.status)) (some (AuditState.case_status s.case.status))

unmoved_keeps : (s : Session) → Within ValidChange (unmoved s)
unmoved_keeps s =
    Within-record_audit ValidChange-laws AuditEventType.recovery_verification_failed
      (some (AuditState.case_status s.case.status)) (some (AuditState.case_status s.case.status))

close_failure_keeps : (result : RecoveryMatchResult) → Within ValidChange (close_failure result)
close_failure_keeps result s =
    let quietly = if is_none result.mismatch_reason then pure tt else unmoved s in
    Within-if ValidChange-laws (is_verifying s.case.status)
      (transition_case RecoveryCaseStatus.not_recovered) quietly
      (transition_case-ValidChange RecoveryCaseStatus.not_recovered)
      (Within-if ValidChange-laws (is_none result.mismatch_reason) (pure tt) (unmoved s)
        ValidChange-laws.on_same (unmoved_keeps s))
      s

persist_failure_keeps :
    (result : RecoveryMatchResult) (event : Option ℕ)
    → Within ValidChange (persist_failure result event)
unfolding persist_failure
persist_failure_keeps result event =
    let credit = if is_partial result then credit_partial result event else pure tt in
    Within-then ValidChange-laws (update_case (note_reason result event) >> credit)
      (close_failure result)
      (Within-then ValidChange-laws (update_case (note_reason result event)) credit
        (λ s.
          update_keeps (note_reason result event) s
            (λ v. (refl, refl, refl, refl, refl, refl, refl, refl, v.0)))
        (Within-if ValidChange-laws (is_partial result) (credit_partial result event) (pure tt)
          (credit_partial_keeps result event) ValidChange-laws.on_same))
      (close_failure_keeps result)

start_verifying_keeps : Within ValidChange start_verifying
start_verifying_keeps s =
    Within-if ValidChange-laws (is_action_completed s.case.status)
      (transition_case RecoveryCaseStatus.verifying) (pure tt)
      (transition_case-ValidChange RecoveryCaseStatus.verifying) ValidChange-laws.on_same s

ensure_verifying_keeps :
    (settings : RecoverySettings) → Within ValidChange (ensure_verifying settings)
unfolding ensure_verifying
ensure_verifying_keeps settings s =
    let processed = process_locked_case settings >> start_verifying in
    let later = if is_action_completed s.case.status then start_verifying else processed in
    Within-if ValidChange-laws (is_verifying s.case.status) (pure tt)
      (if is_recovered s.case.status then pure tt else later) ValidChange-laws.on_same
      (Within-if ValidChange-laws (is_recovered s.case.status) (pure tt) later
        ValidChange-laws.on_same
        (Within-if ValidChange-laws (is_action_completed s.case.status) start_verifying processed
          start_verifying_keeps
          (Within-then ValidChange-laws (process_locked_case settings) start_verifying
            (process_locked_case-ValidChange settings) start_verifying_keeps)))
      s

record_outcome_keeps :
    (payment : Payment) (match : RecoveryMatchResult) (event : Option ℕ)
    → Within ValidChange (record_outcome payment match event)
record_outcome_keeps payment match event =
    Within-if ValidChange-laws match.matched (apply_success payment match event)
      (persist_failure match event) (apply_success_keeps payment match event)
      (persist_failure_keeps match event)

settle_keeps :
    (settings : RecoverySettings) (payment : Payment) (event : Option ℕ)
    (match : RecoveryMatchResult)
    → Within ValidChange (settle settings payment event match)
settle_keeps settings payment event match s =
    let verify = ensure_verifying settings >> record_outcome payment match event in
    Within-if ValidChange-laws (is_recovered s.case.status)
      (pure (already_recovered s.case payment)) (verify >> pure match) ValidChange-laws.on_same
      (Within-then ValidChange-laws verify (pure match)
        (Within-then ValidChange-laws (ensure_verifying settings)
          (record_outcome payment match event) (ensure_verifying_keeps settings)
          (record_outcome_keeps payment match event))
        ValidChange-laws.on_same)
      s

audit_no_credit_keeps : (reason : MismatchReason) → Within ValidChange (audit_no_credit reason)
audit_no_credit_keeps reason s =
    let f = λ (c : RecoveryCase). record c { last_mismatch_reason = some reason } in
    let status = some (AuditState.case_status s.case.status) in
    after_at ValidChange-laws (update_case f)
      (record_audit AuditEventType.recovery_verification_failed status status) s
      (update_keeps f s (λ v. (refl, refl, refl, refl, refl, refl, refl, refl, v.0)))
      (Within-record_audit ValidChange-laws AuditEventType.recovery_verification_failed status
        status)

-- A pure check that may raise, and then an action.
after_check :
    {A B : Type 0} (r : Result A) (f : A → Action B)
    → ((a : A) → Within ValidChange (f a))
    → Within ValidChange (lift r >>= f)
after_check r f k = Within-continue ValidChange-laws r f k

module _ (settings : RecoverySettings) (event : Option ℕ) where
  uncounted_keeps :
      (payment : Payment) (reason : Option MismatchReason)
      → Within ValidChange (verify_uncounted settings payment event reason)
  uncounted_keeps payment (some reason) s =
      let result = λ (remaining : ℕ). no_credit s.case (some payment.id) reason remaining in
      after_check (exposure s.case) (λ remaining. audit_no_credit reason >> pure (result remaining))
        (λ remaining.
          Within-then ValidChange-laws (audit_no_credit reason) (pure (result remaining))
            (audit_no_credit_keeps reason) ValidChange-laws.on_same)
        s
  uncounted_keeps payment none s =
      after_check (evaluate settings s payment) (λ match. settle settings payment event match)
        (λ match. settle_keeps settings payment event match) s

  payment_keeps :
      (payment : Option Payment) → Within ValidChange (verify_payment settings event payment)
  payment_keeps none s =
      let result = λ (remaining : ℕ). no_payment s.case remaining in
      after_check (exposure s.case)
        (λ remaining. persist_failure (result remaining) event >> pure (result remaining))
        (λ remaining.
          Within-then ValidChange-laws (persist_failure (result remaining) event)
            (pure (result remaining)) (persist_failure_keeps (result remaining) event)
            ValidChange-laws.on_same)
        s
  payment_keeps (some payment) s = uncounted_keeps payment (counted_reason s payment event) s

-- A verification, whether it returns or raises, keeps a well-formed case well formed: it never
-- credits more than the amount at risk and closes the case exactly when its status is final; the
-- status moves along the table, the version does not fall, the log only grows, and neither the
-- identity and amount at risk of the case nor another row of its table or a payment changes.
pub verify_case-ValidChange :
    (settings : RecoverySettings) (payment_id event : Option ℕ) (s : Session)
    → IsValid s.case
    → let s' = (verify_case settings payment_id event s).1 in Change s s' × IsValid s'.case
unfolding verify_case
verify_case-ValidChange settings payment_id event s =
    let result = λ (remaining : ℕ). no_credit s.case none MismatchReason.unknown remaining in
    Within-if ValidChange-laws (is_stopped s.case.status)
      (lift (exposure s.case) >>= λ remaining. pure (result remaining))
      (verify_payment settings event (resolve_payment s payment_id))
      (after_check (exposure s.case) (λ remaining. pure (result remaining))
        (λ remaining. ValidChange-laws.on_same))
      (payment_keeps settings event (resolve_payment s payment_id)) s
