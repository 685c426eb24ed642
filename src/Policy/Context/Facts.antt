-- ===== src/Policy/Context/Facts.antt =====
-- What policy_context.py makes of the session, seen in the verdicts that come of it.
use revive_x.Prelude.{◌≡◌, refl, sym, ◌∙◌, ap, true, false, Option, none, some, ◌==◌, find, arith}
use revive_x.Enums.{RecoveryActionType}
use revive_x.Errors.{ok, ok-injective}
use revive_x.Models.{Merchant}
use revive_x.Settings.{RecoverySettings}
use revive_x.Session.{Session}
use revive_x.Session.Change.{CaseKept, Within, IsServiceRelation}
use revive_x.Policy.Words.{ProposedAction, parse_action, is_automatic}
use revive_x.Policy.Engine.{PolicyContext, evaluate_action}
use revive_x.Policy.Engine.Verdict.{evaluate_action_lem}
use revive_x.Policy.Context.{
  is_source_reason, is_suspicious, context_of, build_policy_context, evaluate_and_persist,
}

-- Gathering the facts changes nothing.
pub build_policy_context-same :
    (settings : RecoverySettings) (s : Session) → (build_policy_context settings s).1 ≡ s
unfolding build_policy_context
build_policy_context-same settings s = refl

evaluate_and_persist-kept :
    (ctx : PolicyContext) (proposed : ProposedAction) (s : Session)
    → CaseKept s (evaluate_and_persist ctx proposed s).1
unfolding evaluate_and_persist
evaluate_and_persist-kept ctx proposed s = (refl, (_, refl), refl, refl, refl, refl)

module _ {R : Session → Session → Type 0} (laws : IsServiceRelation R) where
  pub Within-build_policy_context :
      (settings : RecoverySettings) → Within R (build_policy_context settings)
  unfolding build_policy_context
  Within-build_policy_context settings s = laws.on_same s

  pub Within-evaluate_and_persist :
      (ctx : PolicyContext) (proposed : ProposedAction)
      → Within R (evaluate_and_persist ctx proposed)
  Within-evaluate_and_persist ctx proposed s =
      laws.on_kept s (evaluate_and_persist ctx proposed s).1
        (evaluate_and_persist-kept ctx proposed s)

suspicious_denied :
    (ctx : PolicyContext) (proposed : ProposedAction) (action : RecoveryActionType)
    → parse_action proposed.action_type ≡ some action
    → is_automatic action ≡ true
    → ctx.suspicious ≡ true
    → (evaluate_action ctx proposed).allowed ≡ false
suspicious_denied ctx proposed action known automatic h =
    (evaluate_action_lem ctx proposed action known).0 ∙ rw (automatic, h) (ground arith)

-- When the last verification of the case failed for its merchant, customer, order or payment, the
-- policy, on the facts gathered for the case, allows none of the automatic actions, whatever the
-- settings, the merchant and the rest of the session.
pub source_mismatch-denies :
    (settings : RecoverySettings) (s : Session) (ctx : PolicyContext) (proposed : ProposedAction)
    (action : RecoveryActionType)
    → (build_policy_context settings s).0 ≡ ok ctx
    → is_source_reason s.case.last_mismatch_reason ≡ true
    → parse_action proposed.action_type ≡ some action
    → is_automatic action ≡ true
    → (evaluate_action ctx proposed).allowed ≡ false
unfolding build_policy_context is_suspicious
source_mismatch-denies settings s ctx proposed action built source known automatic =
    suspicious_denied ctx proposed action known automatic
      (of_merchant (find (λ (m : Merchant). m.id == s.case.merchant_id) s.merchants) built)
  where
    of_merchant : (m : Option Merchant) → context_of settings s m ≡ ok ctx → ctx.suspicious ≡ true
    of_merchant none h = ground arith
    of_merchant (some m) h =
        ap (λ (c : PolicyContext). c.suspicious) (sym (ok-injective h)) ∙ rw source (ground arith)
