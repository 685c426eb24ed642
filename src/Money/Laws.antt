-- ===== src/Money/Laws.antt =====
-- `as_money` and `signed_money` (packages/domain/recoverai_domain/money.py) as functions on the
-- values of decimals.
use native.Mathlib.Nat.{pow-suc}
use native.Mathlib.Numerals.{towards_suc}
use revive_x.Prelude.{
  ℕ, zero, suc, ◌+◌, ◌*◌, ◌^◌, ◌≤◌, ◌<◌, ◌≡◌, refl, sym, ap, ◌∙◌, ◌↔◌, arith, Bool, true, false,
  inl, inr, Bool-cases, ltb, if◌then◌else◌,
}
use revive_x.Prelude.Int.{ℤ, pos, negsuc}
use revive_x.Errors.{ok, err, ◌>>=◌, value_error, invalid_operation, ok-injective}
use revive_x.Money.{
  Decimal, of_cents, of_signed_cents, round_half_even, to_cents, negate, coefficient_limit, fitting,
  quantize, signed_money, non_negative, as_money,
}
use revive_x.Money.Rounding.{round_half_even_nearest, round_half_even-le}

pub pow_pos : (k : ℕ) → 0 < 10 ^ k
pow_pos zero = omega arith
pow_pos (suc k) = rw pow-suc (omega (arith, pow_pos k))

two_digits : (k : ℕ) → 10 ^ suc (suc k) ≡ 100 * 10 ^ k
two_digits k = rw pow-suc (rw pow-suc (omega arith))

pub pow_two_digits : (k : ℕ) → 10 ^ (k + 2) ≡ 100 * 10 ^ k
pow_two_digits k = simp towards_suc (two_digits k)

-- The cents of a magnitude `n` / 10 ^ `s` lie within half a cent of it.
abbrev pub IsNearest : ℕ → ℕ → ℕ → Type 0
IsNearest n s cents =
    (2 * (cents * 10 ^ s) ≤ 2 * (n * 100) + 10 ^ s)
    × (2 * (n * 100) ≤ 2 * (cents * 10 ^ s) + 10 ^ s)

to_cents-IsNearest : (n s : ℕ) → IsNearest n s (to_cents n s)
unfolding to_cents
to_cents-IsNearest n zero = omega arith
to_cents-IsNearest n (suc zero) = omega arith
to_cents-IsNearest n (suc (suc k)) =
    rw (two_digits k) (omega (arith, round_half_even_nearest n (10 ^ k) (pow_pos k)))

pub to_cents-le : (n s c : ℕ) → n * 100 ≤ c * 10 ^ s → to_cents n s ≤ c
unfolding to_cents
to_cents-le n zero c h = omega arith
to_cents-le n (suc zero) c h = omega arith
to_cents-le n (suc (suc k)) c h =
    round_half_even-le n (10 ^ k) c (pow_pos k) (let g = rw (two_digits k) at h in omega arith)

-- What the amount of a decimal that is not negative is, if it is not refused.
pub as_money_value :
    (a : Decimal) (n : ℕ) {r : ℕ} → a.num ≡ pos n → as_money a ≡ ok r → r ≡ to_cents n a.scale
unfolding as_money signed_money quantize
as_money_value a n {r} e h =
    by_size (ltb (to_cents n a.scale) coefficient_limit) (sym (rw e refl) ∙ h)
  where
    by_size :
        (b : Bool)
        → ((if b then ok (pos (to_cents n a.scale)) else err invalid_operation) >>= non_negative)
          ≡ ok r
        → r ≡ to_cents n a.scale
    by_size true k = sym (ok-injective k)
    by_size false k = cc

pub as_money_fits :
    (a : Decimal) (n : ℕ)
    → a.num ≡ pos n
    → to_cents n a.scale < coefficient_limit
    → as_money a ≡ ok (to_cents n a.scale)
unfolding as_money signed_money quantize
as_money_fits a n e h =
    let small : ltb (to_cents n a.scale) coefficient_limit ≡ true = ground arith in
    rw (e, small) refl

cents_twice : (c : ℕ) → to_cents c 2 ≡ c
unfolding to_cents round_half_even
cents_twice c = ground arith

-- Whole cents are left as they are.
pub as_money-of_cents : (c : ℕ) → c < coefficient_limit → as_money (of_cents c) ≡ ok c
as_money-of_cents c h =
    as_money_fits (of_cents c) c refl (rw (cents_twice c) h) ∙ ap ok (cents_twice c)

pub as_money-of_cents_ok : (c : ℕ) {r : ℕ} → as_money (of_cents c) ≡ ok r → r ≡ c
as_money-of_cents_ok c h = as_money_value (of_cents c) c refl h ∙ cents_twice c

fitting_value : (cents : ℕ) (value : ℤ) {v : ℤ} → fitting cents value ≡ ok v → v ≡ value
fitting_value cents value {v} h = by_size (ltb cents coefficient_limit) h
  where
    by_size : (b : Bool) → (if b then ok value else err invalid_operation) ≡ ok v → v ≡ value
    by_size true k = sym (ok-injective k)
    by_size false k = cc

-- Whole cents with a sign, too.
pub signed_money-of_signed_cents_ok :
    (z : ℤ) {v : ℤ} → signed_money (of_signed_cents z) ≡ ok v → v ≡ z
unfolding signed_money quantize
signed_money-of_signed_cents_ok (pos n) h =
    fitting_value (to_cents n 2) (pos (to_cents n 2)) h ∙ ap pos (cents_twice n)
signed_money-of_signed_cents_ok (negsuc n) h =
    fitting_value (to_cents (suc n) 2) (negate (to_cents (suc n) 2)) h
    ∙ ap negate (cents_twice (suc n))

-- A decimal that is not negative becomes the whole cents within half a cent of it, if these have at
-- most 28 digits, and is refused as an invalid operation if they have more.
pub as_money-IsNearest :
    (a : Decimal) (n : ℕ)
    → a.num ≡ pos n
    → (cents : ℕ) × IsNearest n a.scale cents
      × (as_money a ≡ (if ltb cents coefficient_limit then ok cents else err invalid_operation))
unfolding as_money signed_money quantize
as_money-IsNearest a n e = (
  to_cents n a.scale,
  to_cents-IsNearest n a.scale,
  elim (Bool-cases (ltb (to_cents n a.scale) coefficient_limit)) [
    | inl small ↦ rw (e, small) refl
    | inr large ↦ rw (e, large) refl
  ],
)

abbrev pub magnitude : ℤ → ℕ
magnitude (pos n) = n
magnitude (negsuc n) = suc n

negate_refused : (c : ℕ) → (non_negative (negate c) ≡ err value_error) ↔ (0 < c)
negate_refused zero = (λ h. cc, λ h. absurd (omega arith))
negate_refused (suc c) = (λ h. omega arith, λ h. refl)

not_invalid : (z : ℤ) → non_negative z ≡ err invalid_operation → ⊥
not_invalid (pos n) h = cc
not_invalid (negsuc n) h = cc

-- An amount is refused for its sign or for its size, and for its size first.
Refusals : ℤ → ℕ → Type 0
Refusals z scale =
    (((quantize z scale >>= non_negative) ≡ err value_error) ↔ (
      (n : ℕ) × (z ≡ negsuc n)
      × (0 < to_cents (suc n) scale)
      × (to_cents (suc n) scale < coefficient_limit)))
    × (((quantize z scale >>= non_negative) ≡ err invalid_operation)
        ↔ (coefficient_limit ≤ to_cents (magnitude z) scale))

quantize-Refusals : (z : ℤ) (scale : ℕ) → Refusals z scale
unfolding quantize Refusals
quantize-Refusals (pos n) scale = elim (Bool-cases (ltb (to_cents n scale) coefficient_limit)) [
  | inl small ↦ rw small ((λ h. cc, λ (m, e, _, _). cc), (λ h. cc, λ h. absurd (ground arith)))
  | inr large ↦ rw large ((λ h. cc, λ (m, e, _, _). cc), (λ h. ground arith, λ h. refl))
]
quantize-Refusals (negsuc n) scale =
    elim (Bool-cases (ltb (to_cents (suc n) scale) coefficient_limit)) [
      | inl small ↦ rw small (
        (
          λ h. (n, refl, (negate_refused (to_cents (suc n) scale)).0 h, ground arith),
          λ (m, e, above, _). (negate_refused (to_cents (suc n) scale)).1 (ground arith),
        ),
        (λ h. absurd (not_invalid (negate (to_cents (suc n) scale)) h), λ h. absurd (ground arith)),
      )
      | inr large ↦
          rw large
            ((λ h. cc, λ (m, e, _, below). absurd (ground arith)), (λ h. ground arith, λ h. refl))
    ]

-- A decimal is refused as a value exactly when it is negative and its magnitude rounds to a cent or
-- more, in at most 28 digits, and as an invalid operation exactly when its magnitude rounds to cents
-- of more digits than that, whatever its sign.
pub as_money_refuses :
    (a : Decimal)
    → ((as_money a ≡ err value_error) ↔ (
        (n : ℕ) × (a.num ≡ negsuc n)
        × (0 < to_cents (suc n) a.scale)
        × (to_cents (suc n) a.scale < coefficient_limit)))
      × ((as_money a ≡ err invalid_operation)
          ↔ (coefficient_limit ≤ to_cents (magnitude a.num) a.scale))
unfolding as_money signed_money Refusals
as_money_refuses a = quantize-Refusals a.num a.scale
