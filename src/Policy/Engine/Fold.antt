-- ===== src/Policy/Engine/Fold.antt =====
-- What the loop of `evaluate_action` in policy_engine.py collects, as a function of the set of hits.
use revive_x.Prelude.{
  ◌≡◌, refl, ◌∙◌, Bool, true, false, not, ◌&&◌, ◌||◌, List, [], ◌∷◌, ◌++◌, arith, exists_in,
}
use revive_x.Policy.Words.{PolicyEvaluationResult}
use revive_x.Policy.Engine.{RuleHit, when, is_false, is_true, absorb, collect}

abbrev pub denies : RuleHit → Bool
denies hit = is_false hit.allowed

abbrev pub wants_approval : RuleHit → Bool
wants_approval hit = is_true hit.requires_approval

-- One hit that denies is enough, and nothing allows again what is denied.
pub collect-allowed :
    (acc : PolicyEvaluationResult) (hits : List RuleHit)
    → (collect acc hits).allowed ≡ (acc.allowed && not (exists_in denies hits))
unfolding collect
collect-allowed acc [] = ground arith
collect-allowed acc (hit ∷ hits) = collect-allowed (absorb acc hit) hits ∙ ground arith

pub collect-requires_approval :
    (acc : PolicyEvaluationResult) (hits : List RuleHit)
    → (collect acc hits).requires_approval
      ≡ (acc.requires_approval || exists_in wants_approval hits)
unfolding collect
collect-requires_approval acc [] = ground arith
collect-requires_approval acc (hit ∷ hits) =
    collect-requires_approval (absorb acc hit) hits ∙ ground arith

module _ (test : RuleHit → Bool) where
  pub exists_in-append :
      (xs ys : List RuleHit) → exists_in test (xs ++ ys) ≡ (exists_in test xs || exists_in test ys)
  exists_in-append [] ys = refl
  exists_in-append (x ∷ xs) ys = rw (exists_in-append xs ys) (ground arith)

  pub exists_in-when : (b : Bool) (hit : RuleHit) → exists_in test (when b hit) ≡ (b && test hit)
  exists_in-when true hit = ground arith
  exists_in-when false hit = refl

pub and_true : (b : Bool) → (b && true) ≡ b
and_true b = ground arith

pub and_false : (b : Bool) → (b && false) ≡ false
and_false b = ground arith
