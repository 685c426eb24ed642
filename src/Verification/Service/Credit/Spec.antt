-- ===== src/Verification/Service/Credit/Spec.antt =====
-- When and what `verify_case` of verification.py credits.
use revive_x.Prelude.{
  ℕ, ◌≤◌, ◌≡◌, refl, sym, ◌∙◌, ap, ◌⊎◌, inl, inr, min, true, Option, none, some, is_none, arith,
  Bool-cases,
}
use revive_x.Enums.{MismatchReason}
use revive_x.Errors.{Result, ok, err}
use revive_x.Models.{Payment}
use revive_x.Settings.{RecoverySettings}
use revive_x.Session.{Session, Action, pure, continue, lift, ◌>>=◌, ◌>>◌}
use revive_x.Session.Change.{SameCredit, SameCredit-laws, Within-continue}
use revive_x.Verification.{RecoveryMatchResult}
use revive_x.Verification.Evaluate.{exposure}
use revive_x.Verification.Evaluate.Conditions.{is_matching, Evaluates, evaluate_lem}
use revive_x.Verification.Service.{
  is_stopped, is_recovered, resolve_payment, counted_reason, no_credit, audit_no_credit,
  ensure_verifying, persist_failure, record_outcome, no_payment, settle, verify_uncounted,
  verify_payment, verify_case,
}
use revive_x.Verification.Service.Credit.{
  CreditIs, CreditIs-kept, CreditAfter, CreditAfter-kept, record_outcome_is,
  ensure_verifying-SameCredit, persist_failure-uncredited,
}

-- The credit is what it was.
abbrev pub Uncredited : Session → Session → Type 0
Uncredited s t = CreditIs s.case.amount_recovered s.case.verified_payment_id t

outcome_after :
    (payment : Payment) (match : RecoveryMatchResult) (event : Option ℕ) (r : Result (Unit {0}))
    (s : Session)
    → match.payment_id ≡ some payment.id
    → (match.matched ≡ true → is_none match.mismatch_reason ≡ true)
    → CreditAfter match s (continue r (λ _. record_outcome payment match event) s).1
outcome_after payment match event (ok tt) s names unmismatched =
    record_outcome_is payment match event s names unmismatched
outcome_after payment match event (err e) s names unmismatched = inl (refl, refl)

settle_is :
    (settings : RecoverySettings) (payment : Payment) (event : Option ℕ)
    (match : RecoveryMatchResult) (s : Session)
    → match.payment_id ≡ some payment.id
    → (match.matched ≡ true → is_none match.mismatch_reason ≡ true)
    → CreditAfter match s (settle settings payment event match s).1
settle_is settings payment event match s names unmismatched =
    elim (Bool-cases (is_recovered s.case.status)) [
      | inl r ↦ rw r (inl (refl, refl))
      | inr r ↦ rw r (
          going (
            outcome_after payment match event (ensure_verifying settings s).0 u names unmismatched))
    ]
  where
    u : Session
    u = (ensure_verifying settings s).1

    m : Action (Unit {0})
    m = ensure_verifying settings >> record_outcome payment match event

    going : CreditAfter match u (m s).1 → CreditAfter match s ((m >> pure match) s).1
    going after = CreditAfter-kept match s (m s).1 ((m >> pure match) s).1 (from_start after) (
        Within-continue SameCredit-laws (m s).0 (λ _. pure match) (λ _. SameCredit-laws.on_same)
          (m s).1)
      where
        same : SameCredit s u
        same = ensure_verifying-SameCredit settings s

        from_start : CreditAfter match u (m s).1 → CreditAfter match s (m s).1
        from_start (inl (a, v)) = inl (a ∙ same.0, v ∙ same.1)
        from_start (inr (h, (a, v))) = inr (h, (a ∙ ap (min match.amount_recovered) same.4, v))

-- The payment meets every condition, was not counted before, and is what the case is credited with,
-- up to the amount at risk.
abbrev pub CreditedBy : RecoverySettings → Option ℕ → Payment → Session → Session → Type 0
CreditedBy settings event payment s t =
    (counted_reason s payment event ≡ none)
    × (is_matching settings s payment ≡ true)
    × CreditIs (min payment.amount s.case.amount_at_risk) (some payment.id) t

evaluated_is :
    (settings : RecoverySettings) (payment : Payment) (event : Option ℕ)
    (match : RecoveryMatchResult) (s : Session)
    → counted_reason s payment event ≡ none
    → Evaluates (is_matching settings s payment) s.case payment match
    → let t = (settle settings payment event match s).1 in
      Uncredited s t ⊎ CreditedBy settings event payment s t
evaluated_is settings payment event match s fresh (matched, reason, amount, names) =
    by_credit (settle_is settings payment event match s names unmismatched)
  where
    t : Session
    t = (settle settings payment event match s).1

    unmismatched : match.matched ≡ true → is_none match.mismatch_reason ≡ true
    unmismatched h = ground arith

    by_credit : CreditAfter match s t → Uncredited s t ⊎ CreditedBy settings event payment s t
    by_credit (inl same) = inl same
    by_credit (inr (h, (a, v))) =
        let matching = sym reason ∙ h in inr (fresh, matching, (a ∙ capped matching, v ∙ names))
      where
        capped :
            is_matching settings s payment ≡ true
            → min match.amount_recovered s.case.amount_at_risk
              ≡ min payment.amount s.case.amount_at_risk
        capped m = rw (amount, m) (ground arith)

module _ (settings : RecoverySettings) (event : Option ℕ) (s : Session)
    (le : s.case.amount_recovered ≤ s.case.amount_at_risk) where
  uncounted_is :
      (payment : Payment) (reason : Option MismatchReason)
      → counted_reason s payment event ≡ reason
      → let t = (verify_uncounted settings payment event reason s).1 in
        Uncredited s t ⊎ CreditedBy settings event payment s t
  uncounted_is payment (some reason) h = inl (by_exposure (exposure s.case))
    where
      by_exposure :
          (r : Result ℕ)
          → Uncredited s
              ((lift r >>= λ remaining.
                  audit_no_credit reason
                  >> pure (no_credit s.case (some payment.id) reason remaining))
                s).1
      by_exposure (ok remaining) = (refl, refl)
      by_exposure (err e) = (refl, refl)
  uncounted_is payment none fresh =
      let (match, evaluated, evaluates) = evaluate_lem settings s payment le in
      rw evaluated (evaluated_is settings payment event match s fresh evaluates)

  payment_is :
      (found : Option Payment)
      → let t = (verify_payment settings event found s).1 in
        Uncredited s t
        ⊎ ((payment : Payment) × (found ≡ some payment) × CreditedBy settings event payment s t)
  payment_is none = inl (by_exposure (exposure s.case))
    where
      by_exposure :
          (r : Result ℕ)
          → Uncredited s
              ((lift r >>= λ remaining.
                  persist_failure (no_payment s.case remaining) event
                  >> pure (no_payment s.case remaining))
                s).1
      by_exposure (ok remaining) =
          let result = no_payment s.case remaining in
          let failed = persist_failure result event s in
          CreditIs-kept s.case.amount_recovered s.case.verified_payment_id failed.1
            ((persist_failure result event >> pure result) s).1
            (persist_failure-uncredited result event s refl)
            (Within-continue SameCredit-laws failed.0 (λ _. pure result)
              (λ _. SameCredit-laws.on_same) failed.1)
      by_exposure (err e) = (refl, refl)
  payment_is (some payment) = elim (uncounted_is payment (counted_reason s payment event) refl) [
    | inl same ↦ inl same
    | inr credited ↦ inr (payment, refl, credited)
  ]

-- A verification either leaves the credited amount and payment of the case, or has found the
-- payment asked for (that of the case where none is asked for), which is not counted yet and meets
-- every condition of a match; the case is then credited with the smaller of the payment's amount
-- and the amount at risk, and names that payment.
pub verify_case-credit :
    (settings : RecoverySettings) (payment_id event : Option ℕ) (s : Session)
    → s.case.amount_recovered ≤ s.case.amount_at_risk
    → let t = (verify_case settings payment_id event s).1 in
      Uncredited s t
      ⊎ ((payment : Payment) × (resolve_payment s payment_id ≡ some payment)
          × CreditedBy settings event payment s t)
unfolding verify_case
verify_case-credit settings payment_id event s le = elim (Bool-cases (is_stopped s.case.status)) [
  | inl stopped ↦ rw stopped (inl (stopped_is (exposure s.case)))
  | inr going ↦ rw going (payment_is settings event s le (resolve_payment s payment_id))
]
  where
    stopped_is :
        (r : Result ℕ)
        → Uncredited s
            ((lift r >>= λ remaining. pure (no_credit s.case none MismatchReason.unknown remaining))
              s).1
    stopped_is (ok remaining) = (refl, refl)
    stopped_is (err e) = (refl, refl)
