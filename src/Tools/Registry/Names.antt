-- ===== src/Tools/Registry/Names.antt =====
-- packages/domain/recoverai_domain/tools/registry.py and permissions.py: the names of the tools, and
-- the actions that they perform.
use mathlib.Core.Option.{some-injective}
use revive_x.Prelude.{◌≡◌, refl, sym, ◌∙◌, ap, ◌↔◌, true, false≢true, none, some, arith}
use revive_x.Enums.{RecoveryActionType, action_value}
use revive_x.Errors.{ok}
use revive_x.Policy.Words.Parsing.{parse_action_iff}
use revive_x.ToolWords.{Tool, tool_name}
use revive_x.Tools.Permissions.{action_for_tool, tool_by_action, tool_for_action, parsed_tool}
use revive_x.Tools.Registry.{tool_specs, require_tool}

pub require_tool-name : (t : Tool) → require_tool (tool_name t) ≡ ok (tool_specs t)
unfolding require_tool
require_tool-name Tool.get_customer_history = refl
require_tool-name _ = refl

action_for_tool-by_action : (a : RecoveryActionType) → action_for_tool (tool_by_action a) ≡ some a
action_for_tool-by_action RecoveryActionType.retry_now = refl
action_for_tool-by_action _ = refl

none≢some : {A : Type 0} {a : A} → none ≡ some a → ⊥
none≢some h = ground arith

performs : (t : Tool) (a : RecoveryActionType) → action_for_tool t ≡ some a → tool_by_action a ≡ t
performs t a h = ground arith

tool_for_action-value :
    (a : RecoveryActionType) → tool_for_action (action_value a) ≡ some (tool_by_action a)
unfolding tool_for_action
tool_for_action-value a = ap parsed_tool ((parse_action_iff (action_value a) a).1 refl)

acts :
    (t : Tool)
    → ((tool_specs t).side_effect ≡ true)
      ↔ ((b : RecoveryActionType) × (action_for_tool t ≡ some b))
unfolding tool_specs
acts Tool.retry_payment = (λ h. (RecoveryActionType.retry_now, refl), λ h. refl)
acts Tool.schedule_retry = (λ h. (RecoveryActionType.retry_later, refl), λ h. refl)
acts Tool.create_payment_link = (λ h. (RecoveryActionType.send_payment_link, refl), λ h. refl)
acts Tool.send_notification = (λ h. (RecoveryActionType.send_reminder, refl), λ h. refl)
acts Tool.offer_discount = (λ h. (RecoveryActionType.offer_discount, refl), λ h. refl)
acts Tool.escalate_to_human = (λ h. (RecoveryActionType.escalate, refl), λ h. refl)
acts Tool.pause_recovery = (λ h. (RecoveryActionType.do_nothing, refl), λ h. refl)
acts _ = (λ h. absurd (false≢true h), λ (b, h). absurd (none≢some h))

performed :
    (t : Tool) (a : RecoveryActionType)
    → tool_for_action (action_value a) ≡ some t
    → action_for_tool t ≡ some a
performed t a h =
    let same : tool_by_action a ≡ t =
      some-injective (tool_by_action a) t (sym (tool_for_action-value a) ∙ h) in
    rw (sym same) (action_for_tool-by_action a)

-- Every action has one tool, and every tool is registered under its name: the tool of an action's
-- value performs that action, a tool that performs an action is the tool of the action's value, the
-- registry gives the entry of a tool for its name, and a tool has a side effect exactly when it
-- performs an action.
pub tool_names :
    (t : Tool) (a : RecoveryActionType)
    → ((action_for_tool t ≡ some a) ↔ (tool_for_action (action_value a) ≡ some t))
      × (require_tool (tool_name t) ≡ ok (tool_specs t))
      × (((tool_specs t).side_effect ≡ true)
          ↔ ((b : RecoveryActionType) × (action_for_tool t ≡ some b)))
tool_names t a = (
  (λ h. tool_for_action-value a ∙ ap some (performs t a h), performed t a),
  require_tool-name t,
  acts t,
)
