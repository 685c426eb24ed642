-- ===== src/Optimizer/Ranking.antt =====
-- packages/domain/recoverai_domain/optimizer/ranking.py and the candidate of optimizer/types.py,
-- with the fields that the choice reads. Amounts are in cents.
pub mod Order
pub mod Winner
pub mod Selected
pub mod Control
pub mod Total
use revive_x.Prelude.{
  ℕ, ◌+◌, Bool, true, false, not, ◌&&◌, ◌||◌, ltb, ◌==◌, if◌then◌else◌, Option, none, some, List,
  [], ◌∷◌, is_none, is_empty, keep,
}
use revive_x.Prelude.Int.{ℤ, pos, ltb_ℤ, leb_ℤ, ◌-ℤ◌}
use revive_x.Prelude.Sorted.{sorted}
use revive_x.Enums.{RecoveryActionType}
use revive_x.Errors.{Result, ok, err, index_error, ◌>>=◌}
use revive_x.Money.{Decimal, signed_money}
use revive_x.Optimizer.Config.{
  OptimizerSettings, is_recovery, is_control, friction_rank, simplicity_rank,
}

pub record CandidateAction : Type 0 where
  pub action : RecoveryActionType
  pub probability : Option Decimal
  pub intervention_cost : ℕ
  pub discount_cost : ℕ
  pub communication_cost : ℕ
  pub risk_penalty : ℕ
  pub expected_value : ℤ
  pub allowed : Bool
  pub requires_approval : Bool
  pub missing_probability : Bool

-- The names of the actions in alphabetical order.
abbrev name_rank : RecoveryActionType → ℕ
name_rank RecoveryActionType.do_nothing = 0
name_rank RecoveryActionType.escalate = 1
name_rank RecoveryActionType.offer_discount = 2
name_rank RecoveryActionType.retry_later = 3
name_rank RecoveryActionType.retry_now = 4
name_rank RecoveryActionType.send_payment_link = 5
name_rank RecoveryActionType.send_reminder = 6

-- `_tie_key`
unfoldable pub tie_key : CandidateAction → List ℕ
tie_key c =
    friction_rank c.action
    ∷ (c.intervention_cost + c.communication_cost + c.discount_cost)
    ∷ c.risk_penalty
    ∷ simplicity_rank c.action
    ∷ name_rank c.action
    ∷ []

-- Python's `<` on tuples of one length.
unfoldable pub key_before : List ℕ → List ℕ → Bool
key_before [] _ = false
key_before (_ ∷ _) [] = false
key_before (a ∷ as') (b ∷ bs) = ltb a b || (a == b && key_before as' bs)

-- `eligible_candidates`
abbrev pub is_eligible : CandidateAction → Bool
is_eligible c = c.allowed && not c.missing_probability && not (is_none c.probability)

abbrev pub eligible_candidates : List CandidateAction → List CandidateAction
eligible_candidates = keep is_eligible

-- `key=lambda item: item.expected_value, reverse=True`
abbrev pub worth_more : CandidateAction → CandidateAction → Bool
worth_more c d = ltb_ℤ d.expected_value c.expected_value

abbrev pub key_less : CandidateAction → CandidateAction → Bool
key_less c d = key_before (tie_key c) (tie_key d)

-- `best.expected_value - item.expected_value <= epsilon`
abbrev pub is_tied : ℤ → CandidateAction → CandidateAction → Bool
is_tied epsilon best c = leb_ℤ (best.expected_value -ℤ c.expected_value) epsilon

-- `xs[0]`
abbrev pub first : List CandidateAction → Result CandidateAction
first [] = err index_error
first (c ∷ _) = ok c

-- `_max_with_ties`
unfoldable pub max_with_ties : List CandidateAction → OptimizerSettings → Result CandidateAction
max_with_ties pool settings = do
  let ranked = sorted worth_more pool
  best ← first ranked
  epsilon ← signed_money settings.tie_epsilon
  first (sorted key_less (keep (is_tied epsilon best) ranked))

-- `{item.action: item for item in eligible}.get(action)`: of two, the later one stays.
unfoldable pub get_action :
    (RecoveryActionType → Bool) → List CandidateAction → Option CandidateAction
get_action wanted [] = none
get_action wanted (c ∷ rest) = elim (get_action wanted rest) [
  | some later ↦ some later
  | none ↦ if wanted c.action then some c else none
]

abbrev pub is_do_nothing : RecoveryActionType → Bool
is_do_nothing RecoveryActionType.do_nothing = true
is_do_nothing _ = false

abbrev pub is_escalate : RecoveryActionType → Bool
is_escalate RecoveryActionType.escalate = true
is_escalate _ = false

-- The texts of the reasons, by what they say.
pub data SelectionReason : Type 0 where
  no_candidate : SelectionReason
  maximum_value : (execution_needs_approval : Bool) → SelectionReason
  high_risk_escalate economic_discipline do_nothing_not_permitted fell_back none_remains :
      SelectionReason

abbrev pub Choice : Type 0
Choice = Option CandidateAction × SelectionReason

-- The last lines of `_select_control`, where neither control strategy was found by name.
abbrev pub fall_back : List CandidateAction → Choice
fall_back [] = (none, SelectionReason.none_remains)
fall_back (c ∷ _) = (some c, SelectionReason.fell_back)

abbrev pub without_nothing : List CandidateAction → Option CandidateAction → Choice
without_nothing eligible (some escalate) = (some escalate, SelectionReason.do_nothing_not_permitted)
without_nothing eligible none = fall_back (keep (λ c. is_control c.action) eligible)

abbrev pub by_discipline :
    List CandidateAction → Option CandidateAction → Option CandidateAction → Choice
by_discipline eligible (some nothing) escalate = (some nothing, SelectionReason.economic_discipline)
by_discipline eligible none escalate = without_nothing eligible escalate

abbrev pub by_risk :
    Bool → List CandidateAction → Option CandidateAction → Option CandidateAction → Choice
by_risk true eligible nothing (some escalate) = (some escalate, SelectionReason.high_risk_escalate)
by_risk _ eligible nothing escalate = by_discipline eligible nothing escalate

-- `_select_control`
unfoldable pub select_control : List CandidateAction → Bool → Choice
select_control eligible suspicious =
    by_risk suspicious eligible (get_action is_do_nothing eligible)
      (get_action is_escalate eligible)

-- `select_action`
unfoldable pub select_action :
    List CandidateAction → OptimizerSettings → Bool → Bool → Result Choice
select_action candidates settings suspicious source_mismatch =
    let eligible = eligible_candidates candidates in
    let recovery = keep (λ c. is_recovery c.action) eligible in
    let non_negative = keep (λ c. leb_ℤ (pos 0) c.expected_value) recovery in
    if is_empty eligible
    then ok (none, SelectionReason.no_candidate)
    else if is_empty non_negative
    then ok (select_control eligible (suspicious || source_mismatch))
    else max_with_ties non_negative settings >>= λ winner.
        ok (some winner, SelectionReason.maximum_value winner.requires_approval)
