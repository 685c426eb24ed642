-- ===== src/Policy/Context.antt =====
-- packages/domain/recoverai_domain/policy_context.py: the facts of a case that the policy rules
-- read, gathered from the session; and `evaluate_and_persist` of policy_engine.py.
pub mod Facts
use revive_x.Prelude.{
  ℕ, ◌+◌, ◌-◌, ◌*◌, ◌%◌, ◌/◌, Bool, true, false, not, ◌&&◌, ◌||◌, leb, ltb, ◌==◌, if◌then◌else◌,
  Option, none, some, String, List, [], ◌∷◌, ◌++◌, keep, find, length,
}
use revive_x.Enums.{RecoveryActionType, RecoveryActionStatus, NotificationStatus, MismatchReason}
use revive_x.Errors.{Result, ok, err, value_error}
use revive_x.Money.{Decimal, of_cents}
use revive_x.Models.{RecoveryCase, RecoveryAction, Merchant, Customer, Notification}
use revive_x.Models.Audit.{AuditEventType}
use revive_x.Settings.{RecoverySettings, MerchantPolicy, merge_merchant}
use revive_x.Session.{
  Session, PolicyEvaluation, Action, pure, lift, ◌>>=◌, ◌>>◌, modify, record_audit,
}
use revive_x.Policy.Words.{ProposedAction, PolicyEvaluationResult, is_retry, is_offer_discount}
use revive_x.Policy.Engine.{PolicyContext, evaluate_action}

-- The mismatches that make a case suspicious, and its source doubtful.
abbrev pub is_source_reason : Option MismatchReason → Bool
is_source_reason (some MismatchReason.merchant_mismatch) = true
is_source_reason (some MismatchReason.customer_mismatch) = true
is_source_reason (some MismatchReason.order_mismatch) = true
is_source_reason (some MismatchReason.payment_mismatch) = true
is_source_reason _ = false

-- `_truthy` of a key of the customer's metadata, which is empty when there is no customer.
abbrev pub flag : (Customer → Bool) → Option Customer → Bool
flag key none = false
flag key (some customer) = key customer

-- `_is_suspicious`
unfoldable pub is_suspicious : RecoveryCase → Option Customer → Bool
is_suspicious case customer =
    flag (λ (c : Customer). c.suspicious) customer || is_source_reason case.last_mismatch_reason

-- `_is_source_mismatch`
unfoldable pub is_source_mismatch : RecoveryCase → Option Customer → Bool
is_source_mismatch case customer =
    flag (λ (c : Customer). c.source_mismatch) customer
    || is_source_reason case.last_mismatch_reason

-- `counted` of `_retry_count`
abbrev pub counts_as_retry : RecoveryActionStatus → Bool
counts_as_retry RecoveryActionStatus.failed = false
counts_as_retry RecoveryActionStatus.blocked = false
counts_as_retry RecoveryActionStatus.cancelled = false
counts_as_retry _ = true

-- `_retry_count`
unfoldable pub retry_count : Session → RecoveryCase → ℕ
retry_count s case = length (
    keep
      (λ (a : RecoveryAction).
        a.recovery_case_id == case.id && is_retry a.action_type && counts_as_retry a.status)
      s.actions)

abbrev pub is_cancelled : NotificationStatus → Bool
is_cancelled NotificationStatus.cancelled = true
is_cancelled _ = false

-- `_communications_last_24h`; a time since which is written as a sum on the other side
unfoldable pub communications_last_24h : Session → ℕ → ℕ → ℕ → ℕ
communications_last_24h s merchant customer now = length (
    keep
      (λ (n : Notification).
        n.merchant_id == merchant
        && n.customer_id == customer
        && leb now (n.created_at + 86400)
        && not (is_cancelled n.status))
      s.notifications)

-- `counted` of `_discount_spent_today`
abbrev pub counts_as_spent : RecoveryActionStatus → Bool
counts_as_spent RecoveryActionStatus.succeeded = true
counts_as_spent RecoveryActionStatus.completed = true
counts_as_spent RecoveryActionStatus.executing = true
counts_as_spent RecoveryActionStatus.pending = true
counts_as_spent RecoveryActionStatus.approved = true
counts_as_spent RecoveryActionStatus.approval_required = true
counts_as_spent _ = false

-- `datetime(now.year, now.month, now.day)`
abbrev pub day_start : ℕ → ℕ
day_start now = now / 86400 * 86400

abbrev pub is_spent : ℕ → ℕ → RecoveryAction → Bool
is_spent merchant now a =
    a.merchant_id == merchant
    && is_offer_discount a.action_type
    && counts_as_spent a.status
    && leb (day_start now) a.created_at

abbrev pub total_amount : List RecoveryAction → ℕ
total_amount [] = 0
total_amount (a ∷ rest) = a.amount + total_amount rest

-- `_discount_spent_today`, in cents
unfoldable pub discount_spent_today : Session → ℕ → ℕ → ℕ
discount_spent_today s merchant now = total_amount (keep (is_spent merchant now) s.actions)

-- `_blocked_actions`
abbrev pub blocked_actions : Option MerchantPolicy → List String
blocked_actions none = []
blocked_actions (some policy) = policy.blocked_action_types

-- `CustomerRepository.get_customer`
abbrev pub get_customer : Session → ℕ → ℕ → Option Customer
get_customer s merchant id =
    find (λ (c : Customer). c.merchant_id == merchant && c.id == id) s.customers

-- `build_policy_context` once the merchant is found
abbrev pub context_for : RecoverySettings → Session → Merchant → PolicyContext
context_for settings s merchant =
    let customer = get_customer s s.case.merchant_id s.case.customer_id in
    record {
      amount_at_risk = s.case.amount_at_risk;
      settings = merge_merchant settings merchant.policy;
      now = s.now;
      retry_count = retry_count s s.case;
      communications_last_24h =
          communications_last_24h s s.case.merchant_id s.case.customer_id s.now;
      discount_spent_today = of_cents (discount_spent_today s s.case.merchant_id s.now);
      blocked_action_types = blocked_actions merchant.policy;
      customer_opted_out = flag (λ (c : Customer). c.communication_opt_out) customer;
      suspicious = is_suspicious s.case customer;
      source_mismatch = is_source_mismatch s.case customer;
      discount_eligible = not (flag (λ (c : Customer). c.discount_ineligible) customer);
    }

abbrev pub context_of : RecoverySettings → Session → Option Merchant → Result PolicyContext
context_of settings s none = err value_error
context_of settings s (some merchant) = ok (context_for settings s merchant)

-- `build_policy_context` for the locked case
unfoldable pub build_policy_context : RecoverySettings → Action PolicyContext
build_policy_context settings s =
    lift (context_of settings s (find (λ (m : Merchant). m.id == s.case.merchant_id) s.merchants)) s

abbrev evaluation_row : ProposedAction → PolicyEvaluationResult → RecoveryCase → PolicyEvaluation
evaluation_row proposed result case = record {
  merchant_id = case.merchant_id;
  recovery_case_id = case.id;
  action = proposed.action_type;
  result = result;
}

-- `persist_policy_evaluation`
abbrev pub persist_policy_evaluation : ProposedAction → PolicyEvaluationResult → Action (Unit {0})
persist_policy_evaluation proposed result =
    modify
      (λ s. record s { evaluations = s.evaluations ++ evaluation_row proposed result s.case ∷ [] })
    >> record_audit AuditEventType.policy_evaluated none none

-- `PolicyEngine.evaluate_and_persist`
unfoldable pub evaluate_and_persist : PolicyContext → ProposedAction → Action PolicyEvaluationResult
evaluate_and_persist ctx proposed =
    persist_policy_evaluation proposed (evaluate_action ctx proposed)
    >> pure (evaluate_action ctx proposed)
