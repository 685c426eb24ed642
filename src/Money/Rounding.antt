-- ===== src/Money/Rounding.antt =====
-- Rounding half to even (packages/domain/recoverai_domain/money.py): how far the rounded value
-- lies from the exact one, and that rounding keeps the order.
use native.Mathlib.Nat.{mul-le-mul_right}
use native.Mathlib.Decide.{dec_le}
use revive_x.Prelude.{ℕ, ◌+◌, ◌*◌, ◌/◌, ◌%◌, ◌≤◌, ◌<◌, ◌≡◌, ◌⊎◌, inl, inr, arith}
use revive_x.Money.{round_half_even}

abbrev QuotientCases : (q r d k : ℕ) → Type 0
QuotientCases q r d k =
    ((k ≡ q) × (2 * r ≤ d) × (2 * r ≡ d → q % 2 ≡ 0))
    ⊎ ((k ≡ q + 1) × (d ≤ 2 * r) × (2 * r ≡ d → (q + 1) % 2 ≡ 0))

-- The rounded value is the quotient or its successor, by the remainder.
round_half_even_cases : (n d : ℕ) → QuotientCases (n / d) (n % d) d (round_half_even n d)
unfolding round_half_even
round_half_even_cases n d = ground arith

nearest_of_cases :
    (q r d k n : ℕ)
    → q * d + r ≡ n
    → r < d
    → QuotientCases q r d k
    → (2 * (k * d) ≤ 2 * n + d)
      × (2 * n ≤ 2 * (k * d) + d)
      × (2 * n ≡ 2 * (k * d) + d → k % 2 ≡ 0)
      × (2 * (k * d) ≡ 2 * n + d → k % 2 ≡ 0)
nearest_of_cases q r d k n e lt (inl (same, below, tie)) =
    rw same (omega arith, omega arith, λ h. tie (omega arith), λ h. absurd (omega arith))
nearest_of_cases q r d k n e lt (inr (next, above, tie)) =
    rw next (omega arith, omega arith, λ h. absurd (omega arith), λ h. tie (omega arith))

-- A quotient rounded half to even lies within half a unit of the exact value, and where both
-- neighbours are as near it is the even one.
pub round_half_even_nearest :
    (n d : ℕ)
    → 0 < d
    → (2 * (round_half_even n d * d) ≤ 2 * n + d)
      × (2 * n ≤ 2 * (round_half_even n d * d) + d)
      × (2 * n ≡ 2 * (round_half_even n d * d) + d → round_half_even n d % 2 ≡ 0)
      × (2 * (round_half_even n d * d) ≡ 2 * n + d → round_half_even n d % 2 ≡ 0)
round_half_even_nearest n d h =
    nearest_of_cases (n / d) (n % d) d (round_half_even n d) n (omega arith) (omega arith)
      (round_half_even_cases n d)

-- A quotient of at most a whole number rounds to at most that number.
pub round_half_even-le : (n d k : ℕ) → 0 < d → n ≤ k * d → round_half_even n d ≤ k
round_half_even-le n d k h le = elim (dec_le (round_half_even n d) k) [
  | yes p ↦ p
  | no p ↦ absurd (
      omega (
        arith,
        round_half_even_nearest n d h,
        mul-le-mul_right d (let q : k + 1 ≤ round_half_even n d = omega arith in q),
      ))
]
