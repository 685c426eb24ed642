-- ===== src/Verification/Evaluate.antt =====
-- `_evaluate` of verification.py, with `_mismatch` and `_inside_window`.
pub mod Conditions
use revive_x.Prelude.{
  ℕ, ◌+◌, ◌-◌, ◌*◌, min, Bool, true, false, not, ◌&&◌, ◌||◌, leb, ltb, ◌==◌, if◌then◌else◌, Option,
  none, some, String, List, str_eq, exists_in, same_id, is_none,
}
use revive_x.Enums.{PaymentStatus, MismatchReason}
use revive_x.Errors.{Result, ok, err, value_error, ◌>>=◌}
use revive_x.Models.{RecoveryCase, Payment, RecoveryAction}
use revive_x.Settings.{RecoverySettings}
use revive_x.Session.{Session, get_payment}
use revive_x.Verification.{RecoveryMatchResult}

-- `as_money(case.amount_at_risk - case.amount_recovered)`, which raises below zero
abbrev pub exposure : RecoveryCase → Result ℕ
exposure case =
    if leb case.amount_recovered case.amount_at_risk
    then ok (case.amount_at_risk - case.amount_recovered)
    else err value_error

-- A text that is there and not empty.
abbrev pub is_truthy : Option String → Bool
is_truthy none = false
is_truthy (some text) = not (str_eq text "")

abbrev pub same_text : Option String → Option String → Bool
same_text none none = true
same_text (some a) (some b) = str_eq a b
same_text _ _ = false

-- `case_payment`
abbrev pub case_payment : Session → Option ℕ → Option Payment
case_payment s none = none
case_payment s (some id) = get_payment s s.case.merchant_id id

-- `shared_order` where the orders of both payments are known, and `none` where one is not
abbrev pub shared_order : Option Payment → Payment → Option Bool
shared_order none payment = none
shared_order (some original) payment =
    if is_truthy original.provider_order_id && is_truthy payment.provider_order_id
    then some (same_text original.provider_order_id payment.provider_order_id)
    else none

-- An action of the case that names the payment, by its provider's reference or by its identifier.
abbrev pub names_payment : RecoveryCase → Payment → RecoveryAction → Bool
names_payment case payment action =
    action.recovery_case_id == case.id
    && ((is_truthy action.provider_reference
          && same_text action.provider_reference payment.provider_payment_id)
        || same_id action.new_payment_id (some payment.id))

-- `linked_via_action`
abbrev pub linked_via_action : Session → Payment → Bool
linked_via_action s payment = exists_in (names_payment s.case payment) s.actions

abbrev pub is_captured : PaymentStatus → Bool
is_captured PaymentStatus.captured = true
is_captured _ = false

-- `_inside_window`, with the subtraction of the grace written on the other side
abbrev pub inside_window : RecoverySettings → RecoveryCase → Option ℕ → Bool
inside_window settings case none = false
inside_window settings case (some captured_at) =
    leb case.opened_at (captured_at + settings.recovery_ordering_grace_minutes * 60)
    && leb captured_at (case.opened_at + settings.recovery_window_hours * 3600)

-- `_mismatch`
abbrev pub mismatch : RecoveryCase → Payment → MismatchReason → ℕ → RecoveryMatchResult
mismatch case payment reason remaining = record {
  matched = false;
  case_id = case.id;
  payment_id = some payment.id;
  amount_recovered = 0;
  currency = case.currency;
  mismatch_reason = some reason;
  remaining_exposure = remaining;
  capped_overpayment = 0;
}

-- The last part of `_evaluate`: what a payment that passed the checks is credited with.
abbrev pub credit : RecoveryCase → Payment → RecoveryMatchResult
credit case payment =
    let full = leb case.amount_at_risk payment.amount in
    let amount = if full then min payment.amount case.amount_at_risk else payment.amount in
    record {
      matched = full;
      case_id = case.id;
      payment_id = some payment.id;
      amount_recovered = amount;
      currency = case.currency;
      mismatch_reason = none;
      remaining_exposure = case.amount_at_risk - amount;
      capped_overpayment =
          if ltb case.amount_at_risk payment.amount
          then payment.amount - min payment.amount case.amount_at_risk
          else 0;
    }

-- The checks after the link of the payment to the case.
abbrev pub check_capture : RecoverySettings → RecoveryCase → Payment → ℕ → RecoveryMatchResult
check_capture settings case payment remaining =
    if not (str_eq payment.currency case.currency)
    then mismatch case payment MismatchReason.currency_mismatch remaining
    else if not (is_captured payment.status)
    then mismatch case payment MismatchReason.not_captured remaining
    else if is_none payment.captured_at
    then mismatch case payment MismatchReason.not_captured remaining
    else if not (inside_window settings case payment.captured_at)
    then mismatch case payment MismatchReason.outside_recovery_window remaining
    else if payment.amount == 0
    then mismatch case payment MismatchReason.amount_mismatch remaining
    else credit case payment

abbrev pub is_other_payment : Option ℕ → Payment → Bool
is_other_payment none payment = false
is_other_payment (some id) payment = not (payment.id == id)

-- The checks of the order and of the link to the case.
abbrev pub check_link : RecoverySettings → Session → Payment → ℕ → Option Bool → RecoveryMatchResult
check_link settings s payment remaining (some false) =
    mismatch s.case payment MismatchReason.order_mismatch remaining
check_link settings s payment remaining (some true) =
    check_capture settings s.case payment remaining
check_link settings s payment remaining none =
    if is_other_payment s.case.payment_id payment && not (linked_via_action s payment)
    then mismatch s.case payment MismatchReason.payment_mismatch remaining
    else check_capture settings s.case payment remaining

abbrev pub check_parties : RecoverySettings → Session → Payment → ℕ → RecoveryMatchResult
check_parties settings s payment remaining =
    if not (payment.merchant_id == s.case.merchant_id)
    then mismatch s.case payment MismatchReason.merchant_mismatch remaining
    else if not (payment.customer_id == s.case.customer_id)
    then mismatch s.case payment MismatchReason.customer_mismatch remaining
    else check_link settings s payment remaining
        (shared_order (case_payment s s.case.payment_id) payment)

-- `_evaluate`
unfoldable pub evaluate : RecoverySettings → Session → Payment → Result RecoveryMatchResult
evaluate settings s payment =
    exposure s.case >>= λ remaining. ok (check_parties settings s payment remaining)
