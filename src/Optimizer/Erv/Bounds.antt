-- ===== src/Optimizer/Erv/Bounds.antt =====
-- Bounds of the amounts that optimizer/erv.py computes.
use native.Mathlib.Nat.{add_comm, mul-le-mul_left, mul-le-mul_right}
use revive_x.Prelude.{
  ℕ, ◌+◌, ◌*◌, ◌^◌, ◌≤◌, ◌<◌, ◌≡◌, ◌↔◌, refl, subst, false, arith, Bool-cases, inl, inr,
}
use revive_x.Prelude.Int.{ℤ, pos, negsuc, ◌*ℤ◌, ◌-ℤ◌, ◌+ℤ◌, int_laws}
use revive_x.Errors.{Result, ok, ◌>>=◌, ok_parts}
use revive_x.Money.{
  Decimal, of_cents, of_whole, less_than, multiply, percent_of, to_cents, coefficient_limit,
  as_money,
}
use revive_x.Money.Laws.{
  as_money_value, as_money_fits, as_money-of_cents, as_money-of_cents_ok,
  signed_money-of_signed_cents_ok, to_cents-le, pow_two_digits,
}
use revive_x.Optimizer.Erv.{
  probability_to_decimal, discount_cost, expected_recovered_revenue, expected_net_recovery,
}

-- What the two tests against a probability's ends say of its coefficient.
in_unit_interval :
    (z : ℤ) (s : ℕ)
    → less_than (record { num = z; scale = s }) (of_whole 0) ≡ false
    → less_than (of_whole 1) (record { num = z; scale = s }) ≡ false
    → (n : ℕ) × (z ≡ pos n) × (n ≤ 10 ^ s)
unfolding less_than ◌*ℤ◌
in_unit_interval (pos n) s low high = (n, refl, ground arith)
in_unit_interval (negsuc n) s low high = absurd (ground arith)

unit_interval_passes :
    (p : Decimal) (n : ℕ)
    → p.num ≡ pos n
    → n ≤ 10 ^ p.scale
    → (less_than p (of_whole 0) ≡ false) × (less_than (of_whole 1) p ≡ false)
unfolding less_than ◌*ℤ◌
unit_interval_passes p n e h = rw e (ground arith, ground arith)

probability_accepted :
    (p q : Decimal)
    → probability_to_decimal p ≡ ok q
    → (n : ℕ) × (q ≡ p) × (p.num ≡ pos n) × (n ≤ 10 ^ p.scale)
unfolding probability_to_decimal
probability_accepted p q h = elim (Bool-cases (less_than p (of_whole 0))) [
  | inl low ↦ ground arith
  | inr low ↦ elim (Bool-cases (less_than (of_whole 1) p)) [
    | inl high ↦ ground arith
    | inr high ↦
        let (n, num, bound) = in_unit_interval p.num p.scale low high in
        (n, ground arith, num, bound)
  ]
]

-- The money value of a product of a whole coefficient and an amount in cents.
product_in_cents :
    (z : ℤ) (s n a : ℕ) {r : ℕ}
    → z ≡ pos n
    → as_money (multiply (record { num = z; scale = s }) (of_cents a)) ≡ ok r
    → r ≡ to_cents (n * a) (s + 2)
unfolding multiply ◌*ℤ◌
product_in_cents z s n a {r} e h = as_money_value _ (n * a) (rw e (ground arith)) h

expected_value_lem :
    (p : Decimal) (a : ℕ) {r : ℕ}
    → expected_recovered_revenue p a ≡ ok r
    → (n : ℕ) × (p.num ≡ pos n) × (n ≤ 10 ^ p.scale) × (r ≡ to_cents (n * a) (p.scale + 2))
unfolding expected_recovered_revenue
expected_value_lem p a {r} h =
    let product : Decimal → ℕ → Result ℕ = λ q amount. as_money (multiply q (of_cents amount)) in
    let (q, accepted, rest) =
      ok_parts (probability_to_decimal p) (λ q. as_money (of_cents a) >>= λ b. product q b) h in
    let (amount, whole, value) = ok_parts (as_money (of_cents a)) (λ b. product q b) rest in
    let (n, same, num, bound) = probability_accepted p q accepted in
    let exact : product p a ≡ ok r =
      subst (λ b. product p b ≡ ok r) (as_money-of_cents_ok a whole)
        (subst (λ d. product d amount ≡ ok r) same value) in
    (n, num, bound, product_in_cents p.num p.scale n a num exact)

-- A factor of at most one leaves at most the amount.
fraction-le : (n a s : ℕ) → n ≤ 10 ^ s → to_cents (n * a) (s + 2) ≤ a
fraction-le n a s h =
    to_cents-le (n * a) (s + 2) a
      (rw (pow_two_digits s) (omega (arith, mul-le-mul_right {m = n} {n = 10 ^ s} a h)))

-- When an expected recovered revenue is computed, it is at most the amount at risk.
pub expected_recovered_revenue-le :
    (p : Decimal) (a : ℕ) {r : ℕ} → expected_recovered_revenue p a ≡ ok r → r ≤ a
expected_recovered_revenue-le p a h =
    let (n, num, bound, value) = expected_value_lem p a h in
    rw value (fraction-le n a p.scale bound)

-- A net recovery value is the expected revenue, which is at most the amount at risk, less each of
-- the four costs.
pub expected_net_recovery_lem :
    (p : Decimal) (a i d c k : ℕ) {v : ℤ}
    → expected_net_recovery p a i d c k ≡ ok v
    → (expected : ℕ) × (expected_recovered_revenue p a ≡ ok expected)
      × (expected ≤ a)
      × (v +ℤ pos (i + d + c + k) ≡ pos expected)
unfolding expected_net_recovery
expected_net_recovery_lem p a i d c k {v} h =
    let (e, expected, h0) = ok_parts (expected_recovered_revenue p a) _ h in
    let (i', is_i, h1) = ok_parts (as_money (of_cents i)) _ h0 in
    let (d', is_d, h2) = ok_parts (as_money (of_cents d)) _ h1 in
    let (c', is_c, h3) = ok_parts (as_money (of_cents c)) _ h2 in
    let (k', is_k, h4) = ok_parts (as_money (of_cents k)) _ h3 in
    let value =
      signed_money-of_signed_cents_ok (pos e -ℤ pos i' -ℤ pos d' -ℤ pos c' -ℤ pos k') h4 in
    (
      e,
      expected,
      expected_recovered_revenue-le p a expected,
      rw
          (
            value,
            as_money-of_cents_ok i is_i,
            as_money-of_cents_ok d is_d,
            as_money-of_cents_ok c is_c,
            as_money-of_cents_ok k is_k,
          )
          (omega int_laws),
    )

-- Every decimal in [0, 1] is accepted as a probability, and no other.
pub probability_to_decimal_lem :
    (p : Decimal)
    → (probability_to_decimal p ≡ ok p) ↔ ((n : ℕ) × (p.num ≡ pos n) × (n ≤ 10 ^ p.scale))
unfolding probability_to_decimal
probability_to_decimal_lem p = (
  λ h. let (n, _, num, bound) = probability_accepted p p h in (n, num, bound),
  λ (n, num, bound). let (low, high) = unit_interval_passes p n num bound in rw (low, high),
)

discount_in_cents :
    (z : ℤ) (s a n : ℕ)
    → z ≡ pos n
    → to_cents (a * n) (2 + s + 2) < coefficient_limit
    → as_money (percent_of (multiply (of_cents a) (record { num = z; scale = s })))
      ≡ ok (to_cents (a * n) (2 + s + 2))
unfolding multiply ◌*ℤ◌
discount_in_cents z s a n e h = as_money_fits _ (a * n) (rw e (ground arith)) h

not_negative :
    (percent : Decimal) (n : ℕ) → percent.num ≡ pos n → less_than percent (of_whole 0) ≡ false
unfolding less_than ◌*ℤ◌
not_negative percent n e = rw e (ground arith)

hundredth-le : (a n s : ℕ) → n ≤ 100 * 10 ^ s → to_cents (a * n) (2 + s + 2) ≤ a
hundredth-le a n s h = to_cents-le (a * n) (2 + s + 2) a (
    rw (pow_two_digits (2 + s), add_comm 2 s, pow_two_digits s)
      (omega (arith, mul-le-mul_left {m = n} {n = 100 * 10 ^ s} a h)))

-- A discount of zero to a hundred percent has a cost, and the cost is at most the amount at risk,
-- which is an amount of at most 28 digits.
pub discount_cost-le :
    (a : ℕ) (percent : Decimal) (n : ℕ)
    → a < coefficient_limit
    → percent.num ≡ pos n
    → n ≤ 100 * 10 ^ percent.scale
    → (cost : ℕ) × (discount_cost a percent ≡ ok cost) × (cost ≤ a)
unfolding discount_cost
discount_cost-le a percent n small num bound =
    let below = hundredth-le a n percent.scale bound in
    (
      to_cents (a * n) (2 + percent.scale + 2),
      rw (as_money-of_cents a small, not_negative percent n num)
          (discount_in_cents percent.num percent.scale a n num (omega (arith, below, small))),
      below,
    )
