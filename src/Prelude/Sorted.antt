-- ===== src/Prelude/Sorted.antt =====
-- Python's `sorted`: a stable sort by a strict test, as an insertion sort.
use revive_x.Prelude.Tests.{if◌then◌else◌, Bool-cases}
use revive_x.Prelude.Lists.{All}
use mathlib.Core.Path.{◌≡◌}
use mathlib.Core.Logic.{inl, inr}
use mathlib.Core.Bool.{Bool, true, false}
use mathlib.Core.List.{List, [], ◌∷◌}

module _ {ℓ} {A : Type ℓ} (before : A → A → Bool) where
  -- `x` stood before the elements of the list, so it passes only those that must precede it.
  abbrev pub insert : A → List A → List A
  insert x [] = x ∷ []
  insert x (y ∷ ys) = let rest = insert x ys in if before y x then y ∷ rest else x ∷ y ∷ ys

  abbrev pub sorted : List A → List A
  sorted [] = []
  sorted (x ∷ xs) = insert x (sorted xs)

module _ {ℓ} {A : Type ℓ} (before : A → A → Bool) where
  pub All-insert {κ} :
      (P : A → Type κ) (x : A) (xs : List A) → P x → All P xs → All P (insert before x xs)
  All-insert P x [] px ps = (px, tt)
  All-insert P x (y ∷ ys) px (py, ps) = elim (Bool-cases (before y x)) [
    | inl b ↦ rw b (py, All-insert P x ys px ps)
    | inr b ↦ rw b (px, (py, ps))
  ]

  -- What holds of every element holds of every element of the sorted list.
  pub All-sorted {κ} : (P : A → Type κ) (xs : List A) → All P xs → All P (sorted before xs)
  All-sorted P [] p = tt
  All-sorted P (x ∷ xs) (px, ps) = All-insert P x (sorted before xs) px (All-sorted P xs ps)

-- A test under which "is not preceded by" is transitive, as it is for a strict weak order.
pub record IsWeakOrder {ℓ} {A : Type ℓ} (before : A → A → Bool) : Type ℓ where
  pub irreflexive : (x : A) → before x x ≡ false
  pub asymmetric : (x y : A) → before x y ≡ true → before y x ≡ false
  pub chain : (x y z : A) → before y x ≡ false → before z y ≡ false → before z x ≡ false

module _ {ℓ} {A : Type ℓ} (before : A → A → Bool) (order : IsWeakOrder before) where
  -- Nothing in the list precedes its head.
  abbrev pub HeadIsFirst : List A → Type 0
  HeadIsFirst [] = Unit
  HeadIsFirst (x ∷ xs) = All (λ y. before y x ≡ false) xs

  All-chain :
      (x y : A) (zs : List A)
      → before y x ≡ false
      → All (λ z. before z y ≡ false) zs
      → All (λ z. before z x ≡ false) zs
  All-chain x y [] h ps = tt
  All-chain x y (z ∷ zs) h (pz, ps) = (order.chain x y z h pz, All-chain x y zs h ps)

  insert-first : (x : A) (xs : List A) → HeadIsFirst xs → HeadIsFirst (insert before x xs)
  insert-first x [] h = tt
  insert-first x (y ∷ ys) h = elim (Bool-cases (before y x)) [
    | inl b ↦ rw b (All-insert before (λ z. before z y ≡ false) x ys (order.asymmetric y x b) h)
    | inr b ↦ rw b (b, All-chain x y ys b h)
  ]

  -- The head of a sorted list is preceded by nothing in it.
  pub sorted-first : (xs : List A) → HeadIsFirst (sorted before xs)
  sorted-first [] = tt
  sorted-first (x ∷ xs) = insert-first x (sorted before xs) (sorted-first xs)

module _ {ℓ} {A : Type ℓ} (before : A → A → Bool) where
  All-of_insert {κ} :
      (P : A → Type κ) (x : A) (xs : List A) → All P (insert before x xs) → P x × All P xs
  All-of_insert P x [] p = p
  All-of_insert P x (y ∷ ys) p = elim (Bool-cases (before y x)) [
    | inl b ↦
        let q : All P (y ∷ insert before x ys) = rw b at p in
        let r = All-of_insert P x ys q.1 in (r.0, (q.0, r.1))
    | inr b ↦ rw b at p
  ]

  -- Sorting loses no element.
  pub All-of_sorted {κ} : (P : A → Type κ) (xs : List A) → All P (sorted before xs) → All P xs
  All-of_sorted P [] p = tt
  All-of_sorted P (x ∷ xs) p =
      let q = All-of_insert P x (sorted before xs) p in (q.0, All-of_sorted P xs q.1)
