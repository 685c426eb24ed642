-- ===== src/Policy/Engine/Amounts.antt =====
-- How the verdict of policy_engine.py depends on the amount at risk.
use native.Mathlib.Nat.{mul-le-mul_right}
use revive_x.Prelude.{
  ℕ, refl, inl, inr, Bool-cases, Option, none, ◌+◌, ◌*◌, ◌^◌, ◌≤◌, ◌≡◌, Bool, true, false, not,
  ◌&&◌, some, arith,
}
use revive_x.Prelude.Int.{ℤ, pos, negsuc, pos_part, neg_part, ◌*ℤ◌, ◌≤ℤ◌, int_laws}
use revive_x.Enums.{RecoveryActionType}
use revive_x.Money.{Decimal, of_cents, of_whole, less_than, add, multiply}
use revive_x.Policy.Words.{ProposedAction, PolicyEvaluationResult, is_offer_discount, parse_action}
use revive_x.Policy.Engine.{PolicyContext, concession, projected_discount, evaluate_action}
use revive_x.Policy.Engine.Verdict.{discount_denied, is_denied, needs_approval, evaluate_action_lem}

above_parts :
    (z : ℤ) (s a b : ℕ)
    → a * 10 ^ s ≤ b * 10 ^ s
    → less_than (record { num = z; scale = s }) (of_cents a) ≡ true
    → less_than (record { num = z; scale = s }) (of_cents b) ≡ true
unfolding less_than ◌*ℤ◌
above_parts (pos n) s a b le h = ground arith
above_parts (negsuc n) s a b le h = ground arith

-- An amount above a threshold stays above it when it grows.
above_mono :
    (t : Decimal) (a b : ℕ)
    → a ≤ b
    → less_than t (of_cents a) ≡ true
    → less_than t (of_cents b) ≡ true
above_mono t a b le = above_parts t.num t.scale a b (mul-le-mul_right (10 ^ t.scale) le)

-- An evaluation that lets an action run with no human in between.
abbrev pub is_automatic_verdict : PolicyEvaluationResult → Bool
is_automatic_verdict r = r.allowed && not r.requires_approval

abbrev pub with_amount : PolicyContext → ℕ → PolicyContext
with_amount ctx amount = record ctx { amount_at_risk = amount }

automatic_lem :
    (ctx : PolicyContext) (proposed : ProposedAction) (action : RecoveryActionType)
    → parse_action proposed.action_type ≡ some action
    → is_automatic_verdict (evaluate_action ctx proposed)
      ≡ (not (is_denied ctx action proposed) && not (needs_approval ctx action))
automatic_lem ctx proposed action known =
    let (allows, asks) = evaluate_action_lem ctx proposed action known in
    rw (allows, asks) (verdict (is_denied ctx action proposed) (needs_approval ctx action))
  where
    verdict : (d n : Bool) → (not d && not (n && not d)) ≡ (not d && not n)
    verdict d n = ground arith

*ℤ_parts :
    (a : ℤ) (k : ℕ)
    → pos_part (a *ℤ pos k) + neg_part a * k ≡ neg_part (a *ℤ pos k) + pos_part a * k
unfolding ◌*ℤ◌
*ℤ_parts (pos n) k = ground arith
*ℤ_parts (negsuc n) k = ground arith

*ℤ_mono : (a b : ℤ) (k : ℕ) → a ≤ℤ b → a *ℤ pos k ≤ℤ b *ℤ pos k
*ℤ_mono a b k h = omega (
  arith,
  *ℤ_parts a k,
  *ℤ_parts b k,
  mul-le-mul_right {m = pos_part a + neg_part b} {n = pos_part b + neg_part a} k h,
)

below_mono :
    (t : Decimal) (z w : ℤ) (s : ℕ)
    → z ≤ℤ w
    → less_than t (record { num = z; scale = s }) ≡ true
    → less_than t (record { num = w; scale = s }) ≡ true
unfolding less_than
below_mono t z w s le h = ground (arith, *ℤ_mono z w (10 ^ t.scale) le)

add_mono :
    (d : Decimal) (z w : ℤ) (s : ℕ)
    → z ≤ℤ w
    → (add d (record { num = z; scale = s })).num ≤ℤ (add d (record { num = w; scale = s })).num
unfolding add
add_mono d z w s le = omega (int_laws, *ℤ_mono z w (10 ^ d.scale) le)

abbrev pub is_negative : Option Decimal → Bool
is_negative none = false
is_negative (some d) = less_than d (of_whole 0)

not_negative :
    (z : ℤ) (s : ℕ)
    → less_than (record { num = z; scale = s }) (of_whole 0) ≡ false
    → (n : ℕ) × (z ≡ pos n)
unfolding less_than ◌*ℤ◌
not_negative (pos n) s h = (n, refl)
not_negative (negsuc n) s h = absurd (ground arith)

projected_mono :
    (ctx : PolicyContext) (proposed : ProposedAction) (percent : Decimal) (smaller : ℕ)
    → smaller ≤ ctx.amount_at_risk
    → less_than percent (of_whole 0) ≡ false
    → (t : Decimal)
    → less_than t (projected_discount (with_amount ctx smaller) proposed percent) ≡ true
    → less_than t (projected_discount ctx proposed percent) ≡ true
unfolding multiply add
projected_mono ctx proposed percent smaller le sign t h = by_amount proposed.discount_amount h
  where
    products : pos smaller *ℤ percent.num ≤ℤ pos ctx.amount_at_risk *ℤ percent.num
    products =
        let (n, e) = not_negative percent.num percent.scale sign in
        rw e (*ℤ_mono (pos smaller) (pos ctx.amount_at_risk) n (omega (arith, le)))

    by_amount :
        (amount : Option Decimal)
        → less_than t (add ctx.discount_spent_today (concession smaller percent amount)) ≡ true
        → less_than t (add ctx.discount_spent_today (concession ctx.amount_at_risk percent amount))
          ≡ true
    by_amount (some amount) k = k
    by_amount none k =
        let scale = 2 + percent.scale + 2 in
        below_mono t _ _ _
          (add_mono ctx.discount_spent_today (pos smaller *ℤ percent.num)
            (pos ctx.amount_at_risk *ℤ percent.num) scale products)
          k

discount_mono :
    (ctx : PolicyContext) (proposed : ProposedAction) (percent : Option Decimal) (smaller : ℕ)
    → smaller ≤ ctx.amount_at_risk
    → is_negative percent ≡ false
    → discount_denied (with_amount ctx smaller) proposed percent ≡ true
    → discount_denied ctx proposed percent ≡ true
discount_mono ctx proposed none smaller le sign h = refl
discount_mono ctx proposed (some percent) smaller le sign h =
    let grows =
      projected_mono ctx proposed percent smaller le sign ctx.settings.max_daily_discount_budget in
    ground (arith, grows)

denied_mono :
    (ctx : PolicyContext) (proposed : ProposedAction) (action : RecoveryActionType) (smaller : ℕ)
    → smaller ≤ ctx.amount_at_risk
    → (is_offer_discount action && is_negative proposed.discount_percent) ≡ false
    → is_denied (with_amount ctx smaller) action proposed ≡ true
    → is_denied ctx action proposed ≡ true
denied_mono ctx proposed action smaller le sign h = elim (Bool-cases (is_offer_discount action)) [
  | inr plain ↦ rw plain (rw plain at h)
  | inl offer ↦
      let grows =
        discount_mono ctx proposed proposed.discount_percent smaller le (rw offer at sign) in
      ground (arith, grows)
]

needs_approval_mono :
    (ctx : PolicyContext) (action : RecoveryActionType) (smaller : ℕ)
    → smaller ≤ ctx.amount_at_risk
    → needs_approval (with_amount ctx smaller) action ≡ true
    → needs_approval ctx action ≡ true
needs_approval_mono ctx action smaller le h = ground (
  arith,
  above_mono ctx.settings.high_value_approval_threshold smaller ctx.amount_at_risk le,
  above_mono ctx.settings.medium_value_approval_threshold smaller ctx.amount_at_risk le,
)

-- An action that may run with no human in between may also do so, all else being the same, where less
-- is at risk, unless it is a discount of a negative percentage.
pub automatic_antitone :
    (ctx : PolicyContext) (proposed : ProposedAction) (action : RecoveryActionType) (smaller : ℕ)
    → parse_action proposed.action_type ≡ some action
    → (is_offer_discount action && is_negative proposed.discount_percent) ≡ false
    → smaller ≤ ctx.amount_at_risk
    → is_automatic_verdict (evaluate_action ctx proposed) ≡ true
    → is_automatic_verdict (evaluate_action (with_amount ctx smaller) proposed) ≡ true
automatic_antitone ctx proposed action smaller known sign le h =
    let before = automatic_lem ctx proposed action known in
    let after = automatic_lem (with_amount ctx smaller) proposed action known in
    ground (
      arith,
      before,
      after,
      denied_mono ctx proposed action smaller le sign,
      needs_approval_mono ctx action smaller le,
    )
