-- ===== src/Verification/Service/Credit.antt =====
-- What a verification credits, and to which payment.
pub mod Spec
use revive_x.Prelude.{
  ℕ, ◌+◌, ◌-◌, ◌≤◌, ◌≡◌, refl, sym, ◌∙◌, ap, subst, ◌⊎◌, inl, inr, min, false≢true, Bool, true,
  false, not, ◌&&◌, Option, none, some, List, leb, ltb, ◌==◌, is_none, arith, Bool-cases,
  if◌then◌else◌,
}
use revive_x.Enums.{RecoveryCaseStatus, MismatchReason}
use revive_x.Errors.{Result, ok, err}
use revive_x.Models.{RecoveryCase, Payment}
use revive_x.Models.Audit.{AuditEventType, AuditState}
use revive_x.Settings.{RecoverySettings}
use revive_x.Session.{Session, Action, pure, raise, lift, ◌>>=◌, ◌>>◌, update_case, record_audit}
use revive_x.Session.Change.{
  Within, SameCredit, SameCredit-laws, Within-if, Within-continue, Within-then, Within-record_audit,
}
use revive_x.Transitions.{transition_case}
use revive_x.Transitions.Laws.{transition_case-SameCredit}
use revive_x.Processor.{process_locked_case}
use revive_x.Processor.Steps.{process_locked_case-SameCredit}
use revive_x.Verification.{RecoveryMatchResult}
use revive_x.Verification.Service.{
  is_stopped, is_recovered, is_verifying, is_action_completed, start_verifying, ensure_verifying,
  audit_amount, credited_case, credit_success, apply_success, note_reason, is_partial,
  credit_partial, close_failure, persist_failure, record_outcome, or_else,
}

audit_amount_same : (previous credited : ℕ) → Within SameCredit (audit_amount previous credited)
audit_amount_same previous credited =
    let before = some (AuditState.amount previous) in
    let after = some (AuditState.amount credited) in
    let audit = record_audit AuditEventType.recovery_amount_updated before after in
    Within-if SameCredit-laws (previous == credited) (pure tt) audit SameCredit-laws.on_same
      (Within-record_audit SameCredit-laws AuditEventType.recovery_amount_updated before after)

abbrev unmoved : Session → Action (Unit {0})
unmoved s =
    record_audit AuditEventType.recovery_verification_failed
      (some (AuditState.case_status s.case.status)) (some (AuditState.case_status s.case.status))

close_failure_same : (result : RecoveryMatchResult) → Within SameCredit (close_failure result)
close_failure_same result s =
    let quietly = if is_none result.mismatch_reason then pure tt else unmoved s in
    Within-if SameCredit-laws (is_verifying s.case.status)
      (transition_case RecoveryCaseStatus.not_recovered) quietly
      (transition_case-SameCredit RecoveryCaseStatus.not_recovered)
      (Within-if SameCredit-laws (is_none result.mismatch_reason) (pure tt) (unmoved s)
        SameCredit-laws.on_same
        (Within-record_audit SameCredit-laws AuditEventType.recovery_verification_failed
          (some (AuditState.case_status s.case.status))
          (some (AuditState.case_status s.case.status))))
      s

start_verifying_same : Within SameCredit start_verifying
start_verifying_same s =
    Within-if SameCredit-laws (is_action_completed s.case.status)
      (transition_case RecoveryCaseStatus.verifying) (pure tt)
      (transition_case-SameCredit RecoveryCaseStatus.verifying) SameCredit-laws.on_same s

-- Making the case ready for verification credits nothing.
pub ensure_verifying-SameCredit :
    (settings : RecoverySettings) → Within SameCredit (ensure_verifying settings)
unfolding ensure_verifying
ensure_verifying-SameCredit settings s =
    let processed = process_locked_case settings >> start_verifying in
    let later = if is_action_completed s.case.status then start_verifying else processed in
    Within-if SameCredit-laws (is_verifying s.case.status) (pure tt)
      (if is_recovered s.case.status then pure tt else later) SameCredit-laws.on_same
      (Within-if SameCredit-laws (is_recovered s.case.status) (pure tt) later
        SameCredit-laws.on_same
        (Within-if SameCredit-laws (is_action_completed s.case.status) start_verifying processed
          start_verifying_same
          (Within-then SameCredit-laws (process_locked_case settings) start_verifying
            (process_locked_case-SameCredit settings) start_verifying_same)))
      s

-- The amount and the payment that a case is credited with.
abbrev pub CreditIs : ℕ → Option ℕ → Session → Type 0
CreditIs amount payment_id s =
    (s.case.amount_recovered ≡ amount) × (s.case.verified_payment_id ≡ payment_id)

pub CreditIs-kept :
    (amount : ℕ) (payment_id : Option ℕ) (s t : Session)
    → CreditIs amount payment_id s
    → SameCredit s t
    → CreditIs amount payment_id t
CreditIs-kept amount payment_id s t (a, v) same = (same.0 ∙ a, same.1 ∙ v)

-- Either the credit is what it was, or it is the amount and the payment of the result.
abbrev pub CreditAfter : RecoveryMatchResult → Session → Session → Type 0
CreditAfter match s t =
    CreditIs s.case.amount_recovered s.case.verified_payment_id t
    ⊎ ((is_none match.mismatch_reason ≡ true)
        × CreditIs (min match.amount_recovered s.case.amount_at_risk) match.payment_id t)

credit_success_is :
    (payment : Payment) (match : RecoveryMatchResult) (event : Option ℕ) (s : Session)
    → CreditIs match.amount_recovered (some payment.id) (credit_success payment match event s).1
credit_success_is payment match event s =
    let update = update_case (credited_case match.amount_recovered (some payment.id) event none) in
    let audit = audit_amount s.case.amount_recovered match.amount_recovered in
    let t = (update s).1 in
    CreditIs-kept match.amount_recovered (some payment.id) t
      (credit_success payment match event s).1 (refl, refl)
      (Within-then SameCredit-laws audit (transition_case RecoveryCaseStatus.recovered)
        (audit_amount_same s.case.amount_recovered match.amount_recovered)
        (transition_case-SameCredit RecoveryCaseStatus.recovered) t)

apply_success_is :
    (payment : Payment) (match : RecoveryMatchResult) (event : Option ℕ) (s : Session)
    → match.payment_id ≡ some payment.id
    → is_none match.mismatch_reason ≡ true
    → CreditAfter match s (apply_success payment match event s).1
unfolding apply_success
apply_success_is payment match event s names unmismatched =
    elim (Bool-cases (is_verifying s.case.status)) [
      | inr n ↦ rw n (inl (refl, refl))
      | inl y ↦ elim (Bool-cases (ltb s.case.amount_at_risk match.amount_recovered)) [
        | inl over ↦ rw (y, over) (inl (refl, refl))
        | inr fits ↦
            let (a, v) = credit_success_is payment match event s in
            rw (y, fits) (inr (unmismatched, (a ∙ capped fits, v ∙ sym names)))
      ]
    ]
  where
    capped :
        ltb s.case.amount_at_risk match.amount_recovered ≡ false
        → match.amount_recovered ≡ min match.amount_recovered s.case.amount_at_risk
    capped h = ground arith

partial_is :
    (payment : Payment) (match : RecoveryMatchResult) (event : Option ℕ) (s : Session)
    → match.payment_id ≡ some payment.id
    → CreditIs
        (min match.amount_recovered s.case.amount_at_risk)
        match.payment_id
        (credit_partial match event s).1
partial_is payment match event s names =
    let credited = min match.amount_recovered s.case.amount_at_risk in
    let f = λ (c : RecoveryCase).
      credited_case credited (or_else match.payment_id c.verified_payment_id) event
        c.last_mismatch_reason c in
    let t = (update_case f s).1 in
    CreditIs-kept credited match.payment_id t (credit_partial match event s).1
      (refl, chosen match.payment_id names) (audit_amount_same s.case.amount_recovered credited t)
  where
    chosen : (id : Option ℕ) → id ≡ some payment.id → or_else id s.case.verified_payment_id ≡ id
    chosen id h = ground arith

CreditAfter-kept :
    (match : RecoveryMatchResult) (s t u : Session)
    → CreditAfter match s t
    → SameCredit t u
    → CreditAfter match s u
CreditAfter-kept match s t u (inl same) k =
    inl (CreditIs-kept s.case.amount_recovered s.case.verified_payment_id t u same k)
CreditAfter-kept match s t u (inr (h, credited)) k = inr (
  h,
  CreditIs-kept (min match.amount_recovered s.case.amount_at_risk) match.payment_id t u credited k,
)

partly_is :
    (payment : Payment) (match : RecoveryMatchResult) (event : Option ℕ) (s : Session)
    → match.payment_id ≡ some payment.id
    → CreditAfter match s ((if is_partial match then credit_partial match event else pure tt) s).1
partly_is payment match event s names = by_test (is_partial match) refl
  where
    by_test :
        (b : Bool)
        → is_partial match ≡ b
        → CreditAfter match s ((if b then credit_partial match event else pure tt) s).1
    by_test true h = inr (ground arith, partial_is payment match event s names)
    by_test false h = inl (refl, refl)

persist_failure_is :
    (payment : Payment) (match : RecoveryMatchResult) (event : Option ℕ) (s : Session)
    → match.payment_id ≡ some payment.id
    → CreditAfter match s (persist_failure match event s).1
unfolding persist_failure
persist_failure_is payment match event s names =
    let credit = if is_partial match then credit_partial match event else pure tt in
    let m = update_case (note_reason match event) >> credit in
    CreditAfter-kept match s (m s).1 (persist_failure match event s).1
      (partly_is payment match event (update_case (note_reason match event) s).1 names)
      (Within-continue SameCredit-laws (m s).0 (λ _. close_failure match)
        (λ _. close_failure_same match) (m s).1)

pub record_outcome_is :
    (payment : Payment) (match : RecoveryMatchResult) (event : Option ℕ) (s : Session)
    → match.payment_id ≡ some payment.id
    → (match.matched ≡ true → is_none match.mismatch_reason ≡ true)
    → CreditAfter match s (record_outcome payment match event s).1
record_outcome_is payment match event s names unmismatched = by_match match.matched refl
  where
    by_match :
        (b : Bool)
        → match.matched ≡ b
        → CreditAfter match s
            ((if b then apply_success payment match event else persist_failure match event) s).1
    by_match true h = apply_success_is payment match event s names (unmismatched h)
    by_match false h = persist_failure_is payment match event s names

-- A failure with a mismatch reason credits nothing.
pub persist_failure-uncredited :
    (match : RecoveryMatchResult) (event : Option ℕ) (s : Session)
    → is_none match.mismatch_reason ≡ false
    → CreditIs s.case.amount_recovered s.case.verified_payment_id (persist_failure match event s).1
unfolding persist_failure
persist_failure-uncredited match event s mismatched = by_test (is_partial match) (ground arith)
  where
    by_test :
        (b : Bool)
        → b ≡ false
        → CreditIs s.case.amount_recovered s.case.verified_payment_id
            ((update_case (note_reason match event)
                >> (if b then credit_partial match event else pure tt)
                >> close_failure match)
              s).1
    by_test true h = absurd (false≢true (sym h))
    by_test false h =
        CreditIs-kept s.case.amount_recovered s.case.verified_payment_id
          (update_case (note_reason match event) s).1
          ((update_case (note_reason match event) >> pure tt >> close_failure match) s).1
          (refl, refl) (close_failure_same match (update_case (note_reason match event) s).1)
