-- ===== src/Optimizer/Ranking/Winner.antt =====
-- What the recovery intervention that ranking.py selects satisfies.
use revive_x.Prelude.{
  ◌≡◌, refl, subst, Bool, true, false, List, [], ◌∷◌, Memᴰ, All, All-map, All-self, All-keep,
  All-of_keep, All-into_keep, keep,
}
use revive_x.Prelude.Int.{ℤ, ◌+ℤ◌, ◌≤ℤ◌}
use revive_x.Prelude.Sorted.{
  sorted, HeadIsFirst, sorted-first, All-sorted, All-of_sorted, IsWeakOrder,
}
use revive_x.Errors.{Result, ok, err, ◌>>=◌, ok-injective}
use revive_x.Money.{signed_money}
use revive_x.Optimizer.Config.{OptimizerSettings}
use revive_x.Optimizer.Ranking.{
  CandidateAction, worth_more, key_less, is_tied, first, max_with_ties,
}
use revive_x.Optimizer.Ranking.Order.{worth_more-IsWeakOrder, key_less-IsWeakOrder, within_margin}

first-All {ℓ} :
    (P : CandidateAction → Type ℓ) (xs : List CandidateAction) (w : CandidateAction)
    → first xs ≡ ok w
    → All P xs
    → P w
first-All P [] w h p = cc
first-All P (x ∷ xs) w h (px, p) = subst P (ok-injective h) px

-- The first of a sorted list is preceded by no element.
first-sorted :
    (before : CandidateAction → CandidateAction → Bool) (order : IsWeakOrder before)
    → (xs : List CandidateAction) (w : CandidateAction) → first (sorted before xs) ≡ ok w
    → All (λ c. before c w ≡ false) xs
first-sorted before order xs w h =
    All-of_sorted before (λ c. before c w ≡ false) xs
      (all (sorted before xs) h (sorted-first before order xs))
  where
    all :
        (ys : List CandidateAction)
        → first ys ≡ ok w
        → HeadIsFirst before order ys
        → All (λ c. before c w ≡ false) ys
    all [] h p = tt
    all (y ∷ ys) h p =
        subst (λ v. All (λ c. before c v ≡ false) (y ∷ ys)) (ok-injective h)
          (order.irreflexive y, p)

module _ (pool : List CandidateAction) (settings : OptimizerSettings) (w : CandidateAction) where
  abbrev ranked : List CandidateAction
  ranked = sorted worth_more pool

  -- Of the pool, with one of the largest value for the best: the margin is the one of the settings, no
  -- value is above the winner's by more than the margin, and none of those within the margin of the best comes before the winner by the
  -- tie key.
  pub record IsWinner : Type 0 where
    pub epsilon : ℤ
    pub is_epsilon : signed_money settings.tie_epsilon ≡ ok epsilon
    pub member : Memᴰ w pool
    pub near_best : All (λ c. c.expected_value ≤ℤ w.expected_value +ℤ epsilon) pool
    pub best : CandidateAction
    pub best_member : Memᴰ best pool
    pub best_value : All (λ c. worth_more c best ≡ false) pool
    pub is_near : is_tied epsilon best w ≡ true
    pub first_of_ties : All (λ c. key_less c w ≡ false) (keep (is_tied epsilon best) pool)

  max_with_ties_steps :
      max_with_ties pool settings ≡ ok w
      → (best : CandidateAction) × (epsilon : ℤ) × (first ranked ≡ ok best)
        × (signed_money settings.tie_epsilon ≡ ok epsilon)
        × (first (sorted key_less (keep (is_tied epsilon best) ranked)) ≡ ok w)
  unfolding max_with_ties
  max_with_ties_steps h = after (first ranked) (signed_money settings.tie_epsilon) refl refl h
    where
      after :
          (x : Result CandidateAction) (m : Result ℤ)
          → first ranked ≡ x
          → signed_money settings.tie_epsilon ≡ m
          → (x >>= λ best.
              m >>= λ epsilon. first (sorted key_less (keep (is_tied epsilon best) ranked)))
            ≡ ok w
          → (best : CandidateAction) × (epsilon : ℤ) × (first ranked ≡ ok best)
            × (signed_money settings.tie_epsilon ≡ ok epsilon)
            × (first (sorted key_less (keep (is_tied epsilon best) ranked)) ≡ ok w)
      after (ok best) (ok epsilon) same margin k = (best, epsilon, same, margin, k)
      after (ok best) (err e) same margin k = cc
      after (err e) m same margin k = cc

  winner_facts :
      (best : CandidateAction) (epsilon : ℤ)
      → signed_money settings.tie_epsilon ≡ ok epsilon
      → Memᴰ best pool
      → All (λ c. worth_more c best ≡ false) pool
      → (is_tied epsilon best w ≡ true) × Memᴰ w pool
      → All (λ c. is_tied epsilon best c ≡ true → key_less c w ≡ false) pool
      → IsWinner
  winner_facts best epsilon margin best_in above (tied, member) ties = record {
    epsilon = epsilon;
    is_epsilon = margin;
    member = member;
    near_best =
        All-map
          (λ c h.
            within_margin best.expected_value c.expected_value w.expected_value epsilon h tied)
          pool above;
    best = best;
    best_member = best_in;
    best_value = above;
    is_near = tied;
    first_of_ties = All-into_keep (λ c. key_less c w ≡ false) (is_tied epsilon best) pool ties;
  }

  pub max_with_ties-IsWinner : max_with_ties pool settings ≡ ok w → IsWinner
  max_with_ties-IsWinner h =
      let (best, epsilon, is_best, margin, is_first) = max_with_ties_steps h in
      let in_ranked = All-sorted worth_more (λ c. Memᴰ c pool) pool (All-self pool) in
      winner_facts best epsilon margin (first-All (λ c. Memᴰ c pool) ranked best is_best in_ranked)
        (first-sorted worth_more worth_more-IsWeakOrder pool best is_best)
        (first-All (λ c. (is_tied epsilon best c ≡ true) × Memᴰ c pool)
          (sorted key_less (keep (is_tied epsilon best) ranked)) w is_first
          (All-sorted key_less (λ c. (is_tied epsilon best c ≡ true) × Memᴰ c pool)
            (keep (is_tied epsilon best) ranked)
            (All-keep (λ c. Memᴰ c pool) (is_tied epsilon best) ranked in_ranked)))
        (All-of_sorted worth_more (λ c. is_tied epsilon best c ≡ true → key_less c w ≡ false) pool
          (All-of_keep (λ c. key_less c w ≡ false) (is_tied epsilon best) ranked
            (first-sorted key_less key_less-IsWeakOrder (keep (is_tied epsilon best) ranked) w
              is_first)))
