-- ===== src/Prelude/Lists.antt =====
-- Lists measured by native numbers, Boolean quantifiers over them, and a predicate that holds of
-- every element.
use Prim.Native.Nat.{ℕ, suc}
use mathlib.Core.Path.{◌≡◌, refl, sym, subst, ◌∙◌}
use mathlib.Core.Logic.{inl, inr}
use mathlib.Core.Bool.{Bool, true, false, ◌||◌, false≢true}
use mathlib.Core.Option.{Option, none, some, some-injective}
use mathlib.Core.List.{List, [], ◌∷◌, ◌++◌, Memᴰ}
use native.Mathlib.Omega.{arith}
use revive_x.Prelude.Tests.{if◌then◌else◌, Bool-cases}

module _ {ℓ} {A : Type ℓ} where
  abbrev pub length : List A → ℕ
  length [] = 0
  length (_ ∷ xs) = suc (length xs)

  -- `any(test(x) for x in xs)`
  abbrev pub exists_in : (A → Bool) → List A → Bool
  exists_in test [] = false
  exists_in test (x ∷ xs) = test x || exists_in test xs

  -- `[x for x in xs if test(x)]`
  abbrev pub keep : (A → Bool) → List A → List A
  keep test [] = []
  keep test (x ∷ xs) = let rest = keep test xs in if test x then x ∷ rest else rest

  -- `next((x for x in xs if test(x)), None)`
  abbrev pub find : (A → Bool) → List A → Option A
  find test [] = none
  find test (x ∷ xs) = if test x then some x else find test xs

  abbrev pub is_empty : List A → Bool
  is_empty [] = true
  is_empty (_ ∷ _) = false

  abbrev pub All {κ} : (A → Type κ) → List A → Type κ
  All P [] = Unit
  All P (x ∷ xs) = P x × All P xs

  pub All-map {κ λ'} :
      {P : A → Type κ} {Q : A → Type λ'} (f : (x : A) → P x → Q x) (xs : List A)
      → All P xs
      → All Q xs
  All-map f [] p = tt
  All-map f (x ∷ xs) (px, p) = (f x px, All-map f xs p)

  pub All-zip {κ λ' μ} :
      {P : A → Type κ} {Q : A → Type λ'} {R : A → Type μ} (f : (x : A) → P x → Q x → R x)
      → (xs : List A) → All P xs
      → All Q xs
      → All R xs
  All-zip f [] p q = tt
  All-zip f (x ∷ xs) (px, p) (qx, q) = (f x px qx, All-zip f xs p q)

  -- Every element is an element.
  pub All-self : (xs : List A) → All (λ x. Memᴰ x xs) xs
  All-self [] = tt
  All-self (x ∷ xs) = (Memᴰ.head refl, All-map (λ y m. Memᴰ.tail m) xs (All-self xs))

  pub All-lookup {κ} : (P : A → Type κ) {x : A} (xs : List A) → All P xs → Memᴰ x xs → P x
  All-lookup P [] p m = elim m [ ]
  All-lookup P (y ∷ ys) (py, p) (Memᴰ.head e) = subst P (sym e) py
  All-lookup P (y ∷ ys) (py, p) (Memᴰ.tail m) = All-lookup P ys p m

  -- What `keep` keeps passed the test, and kept its other properties.
  pub All-keep {κ} :
      (P : A → Type κ) (test : A → Bool) (xs : List A)
      → All P xs
      → All (λ x. (test x ≡ true) × P x) (keep test xs)
  All-keep P test [] p = tt
  All-keep P test (x ∷ xs) (px, p) = elim (Bool-cases (test x)) [
    | inl b ↦ rw b ((b, px), All-keep P test xs p)
    | inr b ↦ rw b (All-keep P test xs p)
  ]

  -- What holds of all that is kept holds of every element that passes the test.
  pub All-of_keep {κ} :
      (P : A → Type κ) (test : A → Bool) (xs : List A)
      → All P (keep test xs)
      → All (λ x. test x ≡ true → P x) xs
  All-of_keep P test [] p = tt
  All-of_keep P test (x ∷ xs) p = elim (Bool-cases (test x)) [
    | inl b ↦
        let q : P x × All P (keep test xs) = rw b at p in (λ _. q.0, All-of_keep P test xs q.1)
    | inr b ↦ (λ t. absurd (false≢true (sym b ∙ t)), All-of_keep P test xs (rw b at p))
  ]

  -- What `find` finds passes the test.
  pub find-passes : (test : A → Bool) (xs : List A) (y : A) → find test xs ≡ some y → test y ≡ true
  find-passes test [] y h = ground arith
  find-passes test (x ∷ xs) y h = elim (Bool-cases (test x)) [
    | inl b ↦ subst (λ z. test z ≡ true) (some-injective x y (sym (rw b refl) ∙ h)) b
    | inr b ↦ find-passes test xs y (sym (rw b refl) ∙ h)
  ]

  -- What `find` finds is in the list.
  pub find-member : (test : A → Bool) (xs : List A) (y : A) → find test xs ≡ some y → Memᴰ y xs
  find-member test [] y h = ground arith
  find-member test (x ∷ xs) y h = elim (Bool-cases (test x)) [
    | inl b ↦ Memᴰ.head (sym (some-injective x y (sym (rw b refl) ∙ h)))
    | inr b ↦ Memᴰ.tail (find-member test xs y (sym (rw b refl) ∙ h))
  ]

  pub Memᴰ-append : (xs ys : List A) (y : A) → Memᴰ y xs → Memᴰ y (xs ++ ys)
  Memᴰ-append [] ys y m = elim m [ ]
  Memᴰ-append (x ∷ xs) ys y (Memᴰ.head e) = Memᴰ.head e
  Memᴰ-append (x ∷ xs) ys y (Memᴰ.tail m) = Memᴰ.tail (Memᴰ-append xs ys y m)

  -- What holds of every element that passes the test holds of all that is kept.
  pub All-into_keep {κ} :
      (P : A → Type κ) (test : A → Bool) (xs : List A)
      → All (λ x. test x ≡ true → P x) xs
      → All P (keep test xs)
  All-into_keep P test [] p = tt
  All-into_keep P test (x ∷ xs) (px, p) = elim (Bool-cases (test x)) [
    | inl b ↦ rw b (px b, All-into_keep P test xs p)
    | inr b ↦ rw b (All-into_keep P test xs p)
  ]
