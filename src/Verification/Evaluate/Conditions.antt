-- ===== src/Verification/Evaluate/Conditions.antt =====
-- `_evaluate` of verification.py against the list of what a matching payment has to be.
use revive_x.Prelude.{
  ℕ, ◌-◌, ◌≤◌, ◌≡◌, refl, inl, inr, min, Bool, true, false, not, ◌&&◌, ◌||◌, leb, ltb, ◌==◌,
  if◌then◌else◌, Option, none, some, str_eq, is_none, arith, le→leb, Bool-cases,
}
use revive_x.Errors.{ok}
use revive_x.Models.{RecoveryCase, Payment}
use revive_x.Settings.{RecoverySettings}
use revive_x.Session.{Session}
use revive_x.Verification.{RecoveryMatchResult}
use revive_x.Verification.Evaluate.{
  case_payment, shared_order, linked_via_action, is_captured, inside_window, is_other_payment,
  evaluate, check_capture, check_link, check_parties,
}

-- A captured payment in the currency of the case, of a positive amount and inside the window.
abbrev pub is_real_capture : RecoverySettings → RecoveryCase → Payment → Bool
is_real_capture settings case payment =
    str_eq payment.currency case.currency
    && is_captured payment.status
    && inside_window settings case payment.captured_at
    && ltb 0 payment.amount

-- The payment is linked to the case by the order, where both orders are known; and otherwise by
-- being the payment of the case or by an action of the case, or when the case has no payment.
abbrev pub is_linked_by : Option Bool → Session → Payment → Bool
is_linked_by (some same_order) s payment = same_order
is_linked_by none s payment =
    not (is_other_payment s.case.payment_id payment) || linked_via_action s payment

abbrev pub is_matching : RecoverySettings → Session → Payment → Bool
is_matching settings s payment =
    (payment.merchant_id == s.case.merchant_id)
    && (payment.customer_id == s.case.customer_id)
    && is_linked_by (shared_order (case_payment s s.case.payment_id) payment) s payment
    && is_real_capture settings s.case payment

-- The result that a test of the conditions gives.
abbrev pub Evaluates : Bool → RecoveryCase → Payment → RecoveryMatchResult → Type 0
Evaluates matching case payment r =
    (r.matched ≡ (matching && leb case.amount_at_risk payment.amount))
    × (is_none r.mismatch_reason ≡ matching)
    × (r.amount_recovered ≡ (if matching then min payment.amount case.amount_at_risk else 0))
    × (r.payment_id ≡ some payment.id)

capture_lem :
    (settings : RecoverySettings) (case : RecoveryCase) (payment : Payment) (remaining : ℕ)
    → Evaluates
        (is_real_capture settings case payment)
        case
        payment
        (check_capture settings case payment remaining)
capture_lem settings case payment remaining = ground arith

link_lem :
    (settings : RecoverySettings) (s : Session) (payment : Payment) (remaining : ℕ)
    (orders : Option Bool)
    → Evaluates
        (is_linked_by orders s payment && is_real_capture settings s.case payment)
        s.case
        payment
        (check_link settings s payment remaining orders)
link_lem settings s payment remaining (some false) = (refl, refl, refl, refl)
link_lem settings s payment remaining (some true) = capture_lem settings s.case payment remaining
link_lem settings s payment remaining none =
    elim (Bool-cases (is_other_payment s.case.payment_id payment)) [
      | inr h ↦ rw h (capture_lem settings s.case payment remaining)
      | inl h ↦ elim (Bool-cases (linked_via_action s payment)) [
        | inl l ↦ rw (h, l) (capture_lem settings s.case payment remaining)
        | inr l ↦ rw (h, l) (refl, refl, refl, refl)
      ]
    ]

parties_lem :
    (settings : RecoverySettings) (s : Session) (payment : Payment) (remaining : ℕ)
    → Evaluates
        (is_matching settings s payment)
        s.case
        payment
        (check_parties settings s payment remaining)
parties_lem settings s payment remaining =
    elim (Bool-cases (payment.merchant_id == s.case.merchant_id)) [
      | inr m ↦ rw m (refl, refl, refl, refl)
      | inl m ↦ elim (Bool-cases (payment.customer_id == s.case.customer_id)) [
        | inr c ↦ rw (m, c) (refl, refl, refl, refl)
        | inl c ↦
            rw (m, c)
              (link_lem settings s payment remaining
                (shared_order (case_payment s s.case.payment_id) payment))
      ]
    ]

pub evaluate_lem :
    (settings : RecoverySettings) (s : Session) (payment : Payment)
    → s.case.amount_recovered ≤ s.case.amount_at_risk
    → (r : RecoveryMatchResult) × (evaluate settings s payment ≡ ok r)
      × Evaluates (is_matching settings s payment) s.case payment r
unfolding evaluate
evaluate_lem settings s payment le =
    let remaining = s.case.amount_at_risk - s.case.amount_recovered in
    (
      check_parties settings s payment remaining,
      rw (le→leb s.case.amount_recovered s.case.amount_at_risk le) refl,
      parties_lem settings s payment remaining,
    )
