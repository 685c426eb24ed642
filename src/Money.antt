-- ===== src/Money.antt =====
-- packages/domain/recoverai_domain/money.py, over Python's `Decimal`: a signed coefficient and the
-- number of digits behind the point; infinities are left out. Products, sums and quotients by 100
-- are exact, as they are within the 28 digits of Python's default context; amounts of money are
-- whole cents once they have been quantized, and quantizing raises where that takes more digits.
pub mod Rounding
pub mod Laws
use revive_x.Prelude.{
  ℕ, zero, suc, ◌+◌, ◌-◌, ◌*◌, ◌/◌, ◌%◌, ◌^◌, Bool, ltb, leb, ◌==◌, if◌then◌else◌,
}
use revive_x.Prelude.Int.{ℤ, pos, negsuc, pos_part, neg_part, ◌*ℤ◌, ltb_ℤ, leb_ℤ, ◌-ℤ◌, ◌+ℤ◌}
use revive_x.Errors.{Result, ok, err, value_error, invalid_operation, ◌>>=◌}

-- `num` / 10 ^ `scale`
pub record Decimal : Type 0 where
  pub num : ℤ
  pub scale : ℕ

abbrev pub of_cents : ℕ → Decimal
of_cents cents = record { num = pos cents; scale = 2 }

abbrev pub of_signed_cents : ℤ → Decimal
of_signed_cents cents = record { num = cents; scale = 2 }

-- A whole number, as `Decimal("25000")`.
abbrev pub of_whole : ℕ → Decimal
of_whole n = record { num = pos n; scale = 0 }

unfoldable pub less_than : Decimal → Decimal → Bool
less_than a b = ltb_ℤ (a.num *ℤ pos (10 ^ b.scale)) (b.num *ℤ pos (10 ^ a.scale))

-- The sum over a common scale.
unfoldable pub add : Decimal → Decimal → Decimal
add a b = record {
  num = a.num *ℤ pos (10 ^ b.scale) +ℤ b.num *ℤ pos (10 ^ a.scale);
  scale = a.scale + b.scale;
}

unfoldable pub multiply : Decimal → Decimal → Decimal
multiply a b = record { num = a.num *ℤ b.num; scale = a.scale + b.scale }

-- `value / Decimal("100")`
abbrev pub percent_of : Decimal → Decimal
percent_of a = record { num = a.num; scale = a.scale + 2 }

-- `n / d` to the nearest whole number, a tie to the even neighbour: `ROUND_HALF_EVEN`.
unfoldable pub round_half_even : ℕ → ℕ → ℕ
round_half_even n d =
    let q = n / d in
    let twice = 2 * (n % d) in
    if ltb twice d then q else if ltb d twice then q + 1 else if q % 2 == 0 then q else q + 1

-- The coefficient of a magnitude at two digits behind the point.
unfoldable pub to_cents : ℕ → ℕ → ℕ
to_cents n zero = n * 100
to_cents n (suc zero) = n * 10
to_cents n (suc (suc k)) = round_half_even n (10 ^ k)

-- Minus a number of cents; there is no minus zero among the integers, and none is needed, since
-- Python's compares equal to zero.
abbrev pub negate : ℕ → ℤ
negate zero = pos zero
negate (suc n) = negsuc n

-- The coefficients of the default context, of 28 digits, are below this.
unfoldable pub coefficient_limit : ℕ
coefficient_limit = 10 ^ 28

-- `InvalidOperation`, for a coefficient that has more digits
abbrev pub fitting : ℕ → ℤ → Result ℤ
fitting cents value = if ltb cents coefficient_limit then ok value else err invalid_operation

-- Rounding half to even is symmetric about zero.
unfoldable pub quantize : ℤ → ℕ → Result ℤ
quantize (pos n) scale = fitting (to_cents n scale) (pos (to_cents n scale))
quantize (negsuc n) scale = fitting (to_cents (suc n) scale) (negate (to_cents (suc n) scale))

-- The value in whole cents.
unfoldable pub signed_money : Decimal → Result ℤ
signed_money a = quantize a.num a.scale

-- `as_money` refuses what quantizes to less than zero.
abbrev pub non_negative : ℤ → Result ℕ
non_negative (pos cents) = ok cents
non_negative (negsuc _) = err value_error

unfoldable pub as_money : Decimal → Result ℕ
as_money a = signed_money a >>= non_negative
