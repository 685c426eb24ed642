-- ===== src/Verification/Service/Once.antt =====
-- A payment is credited once: what verification.py does with one that was counted before.
use revive_x.Prelude.{
  ℕ, ◌≤◌, ◌≡◌, sym, ◌∙◌, ap, inl, inr, false≢true, true, false, Option, none, some, ◌==◌, ==→eq,
  is_empty, arith,
}
use revive_x.Prelude.Lists.{find-passes}
use revive_x.Models.{Payment}
use revive_x.Settings.{RecoverySettings}
use revive_x.Session.{Session, others_that_counted}
use revive_x.Session.Change.{IsValid, Reaches-final}
use revive_x.StateMachine.{is_terminal}
use revive_x.Verification.Service.Keeps.{verify_case-ValidChange}
use revive_x.Verification.Service.{same_event, resolve_payment, counted_reason, verify_case}
use revive_x.Verification.Service.Credit.Spec.{verify_case-credit}

found_id :
    (s : Session) (id : ℕ) (payment : Payment)
    → resolve_payment s (some id) ≡ some payment
    → payment.id ≡ id
unfolding resolve_payment
found_id s id payment found =
    ==→eq payment.id id (find-passes (λ (p : Payment). p.id == id) s.payments payment found)

-- A payment with no reason against it is neither the one that the case names nor one that another
-- case has counted.
fresh_lem :
    (s : Session) (payment : Payment) (event : Option ℕ)
    → counted_reason s payment event ≡ none
    → (same_event (some payment.id) s.case.verified_payment_id ≡ false)
      × (is_empty (others_that_counted s s.case.merchant_id payment.id) ≡ true)
unfolding counted_reason
fresh_lem s payment event fresh = (ground arith, ground arith)

-- Where the case credits no more than it has at risk, a payment that it already names as the one it
-- was verified by is not credited again, whatever event announces it.
pub verify_case-once :
    (settings : RecoverySettings) (id : ℕ) (event : Option ℕ) (s : Session)
    → s.case.amount_recovered ≤ s.case.amount_at_risk
    → s.case.verified_payment_id ≡ some id
    → let t = (verify_case settings (some id) event s).1 in
      (t.case.amount_recovered ≡ s.case.amount_recovered) × (t.case.verified_payment_id ≡ some id)
verify_case-once settings id event s le verified =
    elim (verify_case-credit settings (some id) event s le) [
      | inl (amount, same) ↦ (amount, same ∙ verified)
      | inr (payment, found, (fresh, _, _)) ↦ absurd (
          false≢true (
            sym (fresh_lem s payment event fresh).0
            ∙ (ap (same_event (some payment.id)) verified ∙ named (found_id s id payment found))))
    ]
  where
    named : {p : ℕ} → p ≡ id → (p == id) ≡ true
    named e = ground arith

-- Where the case credits no more than it has at risk, a payment that another case of the same
-- merchant has credited is not credited to it.
pub verify_case-one_case :
    (settings : RecoverySettings) (id : ℕ) (event : Option ℕ) (s : Session)
    → s.case.amount_recovered ≤ s.case.amount_at_risk
    → is_empty (others_that_counted s s.case.merchant_id id) ≡ false
    → let t = (verify_case settings (some id) event s).1 in
      (t.case.amount_recovered ≡ s.case.amount_recovered)
      × (t.case.verified_payment_id ≡ s.case.verified_payment_id)
verify_case-one_case settings id event s le counted =
    elim (verify_case-credit settings (some id) event s le) [
      | inl same ↦ same
      | inr (payment, found, (fresh, _, _)) ↦ absurd (
          false≢true (
            sym counted
            ∙ (ap (λ n. is_empty (others_that_counted s s.case.merchant_id n))
                  (sym (found_id s id payment found))
                ∙ (fresh_lem s payment event fresh).1)))
    ]

-- A verification never reopens a well-formed case: a final status stays what it is.
pub verify_case-final :
    (settings : RecoverySettings) (payment_id event : Option ℕ) (s : Session)
    → IsValid s.case
    → is_terminal s.case.status ≡ true
    → (verify_case settings payment_id event s).1.case.status ≡ s.case.status
verify_case-final settings payment_id event s v final =
    Reaches-final s.case.status _ final (verify_case-ValidChange settings payment_id event s v).0.0
