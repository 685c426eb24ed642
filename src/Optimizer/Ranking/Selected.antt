-- ===== src/Optimizer/Ranking/Selected.antt =====
-- The recovery intervention that `select_action` of ranking.py selects for its value.
use revive_x.Prelude.{
  ◌≡◌, refl, sym, ap, ◌∙◌, Bool, true, false, ◌||◌, Option, none, some, List, [], ◌∷◌, Memᴰ, arith,
  All, All-map, All-self, All-lookup, All-keep, keep, is_empty, if◌then◌else◌,
}
use mathlib.Core.Bool.{false≢true}
use revive_x.Prelude.Int.{ℤ, pos, ◌≤ℤ◌, leb_ℤ}
use revive_x.Errors.{Result, ok, err, ◌>>=◌, ok-injective}
use revive_x.Optimizer.Config.{OptimizerSettings, is_recovery, is_control}
use revive_x.Optimizer.Ranking.{
  CandidateAction, is_eligible, max_with_ties, SelectionReason, Choice, select_control,
  eligible_candidates, select_action, fall_back, by_risk, get_action, is_do_nothing, is_escalate,
}
use revive_x.Optimizer.Ranking.Winner.{IsWinner, max_with_ties-IsWinner}

non_negative_test : (z : ℤ) → leb_ℤ (pos 0) z ≡ true → pos 0 ≤ℤ z
non_negative_test z h = ground arith

-- The candidates among which a recovery intervention is chosen.
abbrev pub contenders : List CandidateAction → List CandidateAction
contenders candidates =
    keep (λ c. leb_ℤ (pos 0) c.expected_value)
      (keep (λ c. is_recovery c.action) (eligible_candidates candidates))

abbrev pub IsContender : CandidateAction → Type 0
IsContender c = (is_eligible c ≡ true) × (is_recovery c.action ≡ true) × (pos 0 ≤ℤ c.expected_value)

contenders-All : (cs : List CandidateAction) → All (λ c. IsContender c × Memᴰ c cs) (contenders cs)
contenders-All cs =
    All-map
      (λ c (positive, (recovery, (eligible, m))).
        ((eligible, recovery, non_negative_test c.expected_value positive), m))
      (contenders cs)
      (All-keep (λ c. (is_recovery c.action ≡ true) × ((is_eligible c ≡ true) × Memᴰ c cs))
        (λ c. leb_ℤ (pos 0) c.expected_value)
        (keep (λ c. is_recovery c.action) (eligible_candidates cs))
        (All-keep (λ c. (is_eligible c ≡ true) × Memᴰ c cs) (λ c. is_recovery c.action)
          (eligible_candidates cs) (All-keep (λ c. Memᴰ c cs) is_eligible cs (All-self cs))))

abbrev is_maximum : SelectionReason → Bool
is_maximum (SelectionReason.maximum_value _) = true
is_maximum _ = false

fall_back-reason : (xs : List CandidateAction) → is_maximum (fall_back xs).1 ≡ false
fall_back-reason [] = refl
fall_back-reason (x ∷ xs) = refl

by_risk-reason :
    (suspicious : Bool) (eligible : List CandidateAction)
    (nothing escalate : Option CandidateAction)
    → is_maximum (by_risk suspicious eligible nothing escalate).1 ≡ false
by_risk-reason true eligible nothing (some e) = refl
by_risk-reason true eligible (some n) none = refl
by_risk-reason true eligible none none = fall_back-reason (keep (λ c. is_control c.action) eligible)
by_risk-reason false eligible (some n) e = refl
by_risk-reason false eligible none (some e) = refl
by_risk-reason false eligible none none =
    fall_back-reason (keep (λ c. is_control c.action) eligible)

-- A control strategy is never given as the maximum of the recovery interventions.
control-reason :
    (eligible : List CandidateAction) (suspicious : Bool)
    → is_maximum (select_control eligible suspicious).1 ≡ false
unfolding select_control
control-reason eligible suspicious =
    by_risk-reason suspicious eligible (get_action is_do_nothing eligible)
      (get_action is_escalate eligible)

module _ (cs : List CandidateAction) (settings : OptimizerSettings)
    (suspicious source_mismatch : Bool) (w : CandidateAction) (b : Bool) where
  selected_by_value :
      select_action cs settings suspicious source_mismatch
        ≡ ok (some w, SelectionReason.maximum_value b)
      → (max_with_ties (contenders cs) settings ≡ ok w) × (b ≡ w.requires_approval)
  unfolding select_action
  selected_by_value h =
      after (is_empty (eligible_candidates cs)) (is_empty (contenders cs))
        (max_with_ties (contenders cs) settings) refl h
    where
      after :
          (no_eligible no_contender : Bool) (x : Result CandidateAction)
          → max_with_ties (contenders cs) settings ≡ x
          → (if no_eligible
              then ok (none, SelectionReason.no_candidate)
              else if no_contender
              then ok (select_control (eligible_candidates cs) (suspicious || source_mismatch))
              else x >>= λ winner.
                  ok (some winner, SelectionReason.maximum_value winner.requires_approval))
            ≡ ok (some w, SelectionReason.maximum_value b)
          → (max_with_ties (contenders cs) settings ≡ ok w) × (b ≡ w.requires_approval)
      after true c x same k = cc
      after false true x same k = absurd (
          false≢true (
            sym (control-reason (eligible_candidates cs) (suspicious || source_mismatch))
            ∙ ap (λ (t : Choice). is_maximum t.1) (ok-injective k)))
      after false false (ok v) same k = ground (arith)
      after false false (err e) same k = cc

  -- A recovery intervention that is selected for its value is one of the candidates, permitted, with
  -- a probability and a value of zero or more. Among all such candidates no value is above its own
  -- by more than the tie margin, and none within the margin of a largest value comes before it by
  -- the tie key. The reason says whether it still needs approval.
  pub select_action-IsWinner :
      select_action cs settings suspicious source_mismatch
        ≡ ok (some w, SelectionReason.maximum_value b)
      → IsContender w × Memᴰ w cs × (b ≡ w.requires_approval) × IsWinner (contenders cs) settings w
  select_action-IsWinner h =
      let (chosen, approval) = selected_by_value h in
      let winner = max_with_ties-IsWinner (contenders cs) settings w chosen in
      let facts =
        All-lookup (λ c. IsContender c × Memᴰ c cs) (contenders cs) (contenders-All cs)
          winner.member in
      (facts.0, facts.1, approval, winner)
