-- ===== src/Optimizer/Ranking/Total.antt =====
-- `select_action` of ranking.py always makes a choice.
use revive_x.Prelude.{
  ◌≡◌, refl, subst, Bool, true, false, ◌||◌, none, some, List, [], ◌∷◌, arith, Bool-cases, inl, inr,
  keep, is_empty,
}
use revive_x.Prelude.Int.{ℤ, pos, ◌-ℤ◌, ◌≤ℤ◌, leb_ℤ, -ℤ_parts}
use revive_x.Prelude.Sorted.{insert, sorted}
use revive_x.Errors.{ok, ok-injective}
use revive_x.Money.{signed_money}
use revive_x.Optimizer.Config.{OptimizerSettings}
use revive_x.Optimizer.Ranking.{
  CandidateAction, worth_more, key_less, is_tied, first, max_with_ties, Choice, SelectionReason,
  select_control, eligible_candidates, select_action,
}
use revive_x.Optimizer.Ranking.Selected.{contenders}

-- A list that has an element still has a first one after sorting.
first-sorted_total :
    (before : CandidateAction → CandidateAction → Bool) (x : CandidateAction)
    → (xs : List CandidateAction) → (w : CandidateAction) × (first (sorted before (x ∷ xs)) ≡ ok w)
first-sorted_total before x xs = first-insert (sorted before xs)
  where
    first-insert :
        (ys : List CandidateAction) → (w : CandidateAction) × (first (insert before x ys) ≡ ok w)
    first-insert [] = (x, refl)
    first-insert (y ∷ ys) = elim (Bool-cases (before y x)) [ inl b ↦ (y, rw b) | inr b ↦ (x, rw b) ]

tied_with_itself : (z e : ℤ) → pos 0 ≤ℤ e → leb_ℤ (z -ℤ z) e ≡ true
tied_with_itself z e h = ground (arith, -ℤ_parts z z)

-- The best is tied with itself, so the ties have a first.
ties_total :
    (e : ℤ) (best : CandidateAction) (ranked : List CandidateAction)
    → pos 0 ≤ℤ e
    → first ranked ≡ ok best
    → (w : CandidateAction) × (first (sorted key_less (keep (is_tied e best) ranked)) ≡ ok w)
ties_total e best [] h k = cc
ties_total e best (c ∷ rest) h k =
    subst
      (λ v.
        (w : CandidateAction) × (first (sorted key_less (keep (is_tied e v) (c ∷ rest))) ≡ ok w))
      (ok-injective k)
      (rw (tied_with_itself c.expected_value e h)
        (first-sorted_total key_less c (keep (is_tied e c) rest)))

max_with_ties_total :
    (pool : List CandidateAction) (settings : OptimizerSettings)
    → (margin : ℤ) → signed_money settings.tie_epsilon ≡ ok margin
    → pos 0 ≤ℤ margin
    → is_empty pool ≡ false
    → (w : CandidateAction) × (max_with_ties pool settings ≡ ok w)
unfolding max_with_ties
max_with_ties_total [] settings margin e h k = cc
max_with_ties_total (c ∷ rest) settings margin e h k =
    let (best, is_best) = first-sorted_total worth_more c rest in
    rw (is_best, e) (ties_total margin best (sorted worth_more (c ∷ rest)) h is_best)

-- With a tie margin that is an amount of money, of at most 28 digits, and is zero or more, a choice is
-- made whatever the candidates: no exception is raised.
pub select_action_total :
    (cs : List CandidateAction) (settings : OptimizerSettings) (suspicious source_mismatch : Bool)
    → (margin : ℤ) → signed_money settings.tie_epsilon ≡ ok margin
    → pos 0 ≤ℤ margin
    → (choice : Choice) × (select_action cs settings suspicious source_mismatch ≡ ok choice)
unfolding select_action
select_action_total cs settings suspicious source_mismatch margin e h =
    elim (Bool-cases (is_empty (eligible_candidates cs))) [
      | inl none_left ↦ ((none, SelectionReason.no_candidate), rw none_left)
      | inr some_left ↦ elim (Bool-cases (is_empty (contenders cs))) [
        | inl control ↦ (
          select_control (eligible_candidates cs) (suspicious || source_mismatch),
          rw (some_left, control),
        )
        | inr contest ↦
            let (w, chosen) = max_with_ties_total (contenders cs) settings margin e h contest in
            (
              (some w, SelectionReason.maximum_value w.requires_approval),
              rw (some_left, contest, chosen),
            )
      ]
    ]
