-- ===== src/Errors.antt =====
-- packages/domain/recoverai_domain/errors.py: the exceptions that the services raise, and the
-- result and the action types of the code that may raise them. An action keeps what was written
-- before a raise: the database session is rolled back by its caller, not by the raise.
use revive_x.Prelude.{ℕ, ◌≡◌, refl, Bool, String}
use revive_x.Enums.{RecoveryCaseStatus}

-- `domain_error code retryable` is a plain `DomainError`; the last are Python's own, the one of its
-- decimals, and the one of a database that refuses a row whose key it has.
pub data Error : Type 0 where
  domain_error : String → Bool → Error
  invalid_transition : RecoveryCaseStatus → RecoveryCaseStatus → Error
  concurrent_case_update : ℕ → Error
  tool_validation : String → Error
  optimizer_error : String → Error
  idempotency_conflict : Error
  value_error index_error invalid_operation integrity_error : Error

pub data Result {ℓ} (A : Type ℓ) : Type ℓ where
  ok : A → Result A
  err : Error → Result A

pub ok-injective {ℓ} : {A : Type ℓ} {a b : A} → ok a ≡ ok b → a ≡ b
ok-injective h = cc

-- Sequencing of pure code that may raise.
infixl 5 ◌>>=◌
abbrev pub ◌>>=◌ {ℓ κ} : {A : Type ℓ} {B : Type κ} → Result A → (A → Result B) → Result B
ok a >>= f = f a
err e >>= f = err e

-- What a sequence that returned went through.
pub ok_parts {ℓ κ} :
    {A : Type ℓ} {B : Type κ} (x : Result A) (f : A → Result B) {b : B}
    → (x >>= f) ≡ ok b
    → (a : A) × (x ≡ ok a) × (f a ≡ ok b)
ok_parts (ok a) f h = (a, refl, h)
ok_parts (err e) f h = cc
