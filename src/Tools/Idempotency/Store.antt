-- ===== src/Tools/Idempotency/Store.antt =====
-- packages/domain/recoverai_domain/tools/idempotency.py: the rows of `idempotency_keys` as a map from
-- a merchant and a key to a row.
use mathlib.Core.Option.{some-injective}
use text.Mathlib.TextEquality.{eq_iff}
use revive_x.Prelude.{
  ℕ, ◌≡◌, refl, sym, ◌∙◌, ap, ◌⊎◌, inl, inr, Bool, true, false, false≢true, ◌&&◌, ◌==◌, ==→eq,
  if◌then◌else◌, Bool-cases, Option, none, some, String, List, [], ◌∷◌, ◌++◌, find, map, arith,
}
use revive_x.Enums.{RecoveryActionType, action_value}
use revive_x.Errors.{Result, ok, err, idempotency_conflict}
use revive_x.Models.{ActionKey, phase5, given}
use revive_x.Models.ToolRows.{IdempotencyKey, ToolExecutionResult}
use revive_x.ToolWords.{Tool}
use revive_x.Policy.Words.Parsing.{parse_action_iff}
use revive_x.Session.{Session}
use revive_x.Processor.{same_key, same_action}
use revive_x.Tools.Idempotency.{
  is_key, find_key, new_key, update_key, begin_with, begin_idempotent_operation, completed_key,
  complete_idempotent_operation, failed_key, fail_idempotent_operation, IdempotencyOutcome,
}

action_value-injective : (a b : RecoveryActionType) → action_value a ≡ action_value b → a ≡ b
action_value-injective a b h =
    some-injective a b (
      sym ((parse_action_iff (action_value a) a).1 refl)
      ∙ (parse_action_iff (action_value a) b).1 h)

same_action_sound : (a b : RecoveryActionType) → same_action a b ≡ true → a ≡ b
same_action_sound a b h =
    action_value-injective a b ((eq_iff (action_value a) (action_value b)).0 h)

same_action_refl : (a : RecoveryActionType) → same_action a a ≡ true
same_action_refl a = (eq_iff (action_value a) (action_value a)).1 refl

pub same_key_sound : (k l : ActionKey) → same_key k l ≡ true → k ≡ l
same_key_sound (phase5 c a) (phase5 d b) h =
    let e : c ≡ d = ==→eq c d (ground arith) in
    let f : a ≡ b = same_action_sound a b (ground arith) in rw (e, f) refl
same_key_sound (given k) (given l) h = ap given (==→eq k l h)
same_key_sound (phase5 c a) (given l) h = absurd (false≢true h)
same_key_sound (given k) (phase5 d b) h = absurd (false≢true h)

pub same_key_refl : (k : ActionKey) → same_key k k ≡ true
same_key_refl (phase5 c a) = rw (same_action_refl a) (ground arith)
same_key_refl (given k) = ground arith

-- The abstract store.
abbrev pub KeyMap : Type 0
KeyMap = ℕ → ActionKey → Option IdempotencyKey

abbrev is_same : ℕ → ActionKey → ℕ → ActionKey → Bool
is_same merchant key n l = merchant == n && same_key key l

abbrev pub put : KeyMap → ℕ → ActionKey → Option IdempotencyKey → KeyMap
put store merchant key value n l = if is_same merchant key n l then value else store n l

abbrev pub changed :
    (IdempotencyKey → IdempotencyKey) → Option IdempotencyKey → Option IdempotencyKey
changed f none = none
changed f (some row) = some (f row)

is_same_sound :
    (m : ℕ) (k : ActionKey) (n : ℕ) (l : ActionKey) → is_same m k n l ≡ true → (m ≡ n) × (k ≡ l)
is_same_sound m k n l h = (==→eq m n (ground arith), same_key_sound k l (ground arith))

pub is_same_refl : (m : ℕ) (k : ActionKey) → is_same m k m k ≡ true
is_same_refl m k = rw (same_key_refl k) (ground arith)

module _ {A : Type 0} where
  abbrev or_last : Option A → Option A → Option A
  or_last none last = last
  or_last (some a) last = some a

  find-append :
      (test : A → Bool) (xs : List A) (y : A)
      → find test (xs ++ y ∷ []) ≡ or_last (find test xs) (if test y then some y else none)
  find-append test [] y = refl
  find-append test (x ∷ xs) y = elim (Bool-cases (test x)) [
    | inl h ↦ rw h refl
    | inr h ↦ rw h (find-append test xs y)
  ]

-- A row that is changed without its key is found where it was.
find-changed :
    (test change : IdempotencyKey → Bool) (f : IdempotencyKey → IdempotencyKey)
    (same : (row : IdempotencyKey) → test (f row) ≡ test row) (rows : List IdempotencyKey)
    → ((row : IdempotencyKey) → test row ≡ true → change row ≡ true)
    → find test (map (λ row. if change row then f row else row) rows) ≡ changed f (find test rows)
find-changed test change f same [] implied = refl
find-changed test change f same (row ∷ rows) implied = elim (Bool-cases (test row)) [
  | inl h ↦ rw (h, implied row h, same row, h) refl
  | inr h ↦ elim (Bool-cases (change row)) [
    | inl c ↦ rw (h, c, same row, h) (find-changed test change f same rows implied)
    | inr c ↦ rw (h, c, h) (find-changed test change f same rows implied)
  ]
]

-- Rows that do not pass are left.
find-unchanged :
    (test change : IdempotencyKey → Bool) (f : IdempotencyKey → IdempotencyKey)
    (same : (row : IdempotencyKey) → test (f row) ≡ test row) (rows : List IdempotencyKey)
    → ((row : IdempotencyKey) → change row ≡ true → test row ≡ false)
    → find test (map (λ row. if change row then f row else row) rows) ≡ find test rows
find-unchanged test change f same [] apart = refl
find-unchanged test change f same (row ∷ rows) apart = elim (Bool-cases (change row)) [
  | inl c ↦ rw (c, same row, apart row c) (find-unchanged test change f same rows apart)
  | inr c ↦ elim (Bool-cases (test row)) [
    | inl h ↦ rw (c, h) refl
    | inr h ↦ rw (c, h) (find-unchanged test change f same rows apart)
  ]
]

-- A row of one key is not a row of another.
apart :
    (m : ℕ) (k : ActionKey) (n : ℕ) (l : ActionKey) (row : IdempotencyKey)
    → is_same m k n l ≡ false
    → is_key m k row ≡ true
    → is_key n l row ≡ false
apart m k n l row differ h = elim (Bool-cases (is_key n l row)) [
  | inr other ↦ other
  | inl other ↦
      let (e, f) = is_same_sound row.merchant_id row.key m k h in
      let (e', f') = is_same_sound row.merchant_id row.key n l other in
      let both : is_same m k n l ≡ true = rw (sym e ∙ e', sym f ∙ f') (is_same_refl n l) in
      absurd (false≢true (sym differ ∙ both))
]

module _ (merchant : ℕ) (key : ActionKey) where
  add-put :
      (s : Session) (row : IdempotencyKey) (n : ℕ) (l : ActionKey)
      → row.merchant_id ≡ merchant
      → row.key ≡ key
      → find_key s merchant key ≡ none
      → find (is_key n l) (s.idempotency_keys ++ row ∷ [])
        ≡ put (find_key s) merchant key (some row) n l
  add-put s row n l e f missing =
      find-append (is_key n l) s.idempotency_keys row
      ∙ (elim (Bool-cases (is_same merchant key n l)) [
        | inr h ↦
            let other : is_key n l row ≡ false = rw (e, f) h in
            rw (h, other) (last_none (find_key s n l))
        | inl h ↦
            let here : is_key n l row ≡ true = rw (e, f) h in
            let (e', f') = is_same_sound merchant key n l h in
            let empty : find_key s n l ≡ none = rw (sym e', sym f') missing in
            rw (h, here, empty) refl
      ])
    where
      last_none : (o : Option IdempotencyKey) → or_last o none ≡ o
      last_none none = refl
      last_none (some a) = refl

  -- A change of the row of a key, which leaves its key, is a change of the map at that key.
  pub update_key-put :
      (f : IdempotencyKey → IdempotencyKey)
      (kept : (row : IdempotencyKey)
        → ((f row).merchant_id ≡ row.merchant_id) × ((f row).key ≡ row.key))
      (s : Session) (n : ℕ) (l : ActionKey)
      → find_key (update_key merchant key f s).1 n l
        ≡ put (find_key s) merchant key (changed f (find_key s merchant key)) n l
  update_key-put f kept s n l = elim (Bool-cases (is_same merchant key n l)) [
    | inl h ↦
        let (e, g) = is_same_sound merchant key n l h in
        let found : find_key s merchant key ≡ find_key s n l = rw (e, g) refl in
        rw (h, found)
          (find-changed (is_key n l) (is_key merchant key) f same s.idempotency_keys
            (λ row t. rw (e, g) t))
    | inr h ↦ rw h (
        find-unchanged (is_key n l) (is_key merchant key) f same s.idempotency_keys
          (λ row t. apart merchant key n l row h t))
  ]
    where
      same : (row : IdempotencyKey) → is_key n l (f row) ≡ is_key n l row
      same row = rw (kept row).0 (rw (kept row).1 refl)

  -- What beginning an operation does to the store.
  abbrev pub Begins : Tool → ℕ → Session → Result IdempotencyOutcome → Session → Type 0
  Begins operation hash s r s' =
      ((find_key s merchant key ≡ none)
        × (r
            ≡ ok (record { record_of = new_key merchant key operation hash s.now; replay = false }))
        × ((n : ℕ) (l : ActionKey)
            → find_key s' n l
              ≡ put (find_key s) merchant key (some (new_key merchant key operation hash s.now)) n
                  l)
        × (s' ≡ record s { idempotency_keys = s'.idempotency_keys }))
      ⊎ ((existing : IdempotencyKey) × (find_key s merchant key ≡ some existing)
          × ((existing.request_hash == hash) ≡ true)
          × (r ≡ ok (record { record_of = existing; replay = true }))
          × (s' ≡ s))
      ⊎ ((existing : IdempotencyKey) × (find_key s merchant key ≡ some existing)
          × ((existing.request_hash == hash) ≡ false)
          × (r ≡ err idempotency_conflict)
          × (s' ≡ s))

  -- The table of keys implements a map from merchants and keys: beginning an operation with a key
  -- that the map does not have adds it, in progress and with the request's hash, and changes neither
  -- the map elsewhere nor another table; with a key that it has, the row is returned for a replay when its hash is the
  -- request's, and the operation is refused when it is not, and in both cases nothing changes.
  pub begin_idempotent_operation-refines :
      (operation : Tool) (hash : ℕ) (s : Session)
      → let (r, s') = begin_idempotent_operation merchant key operation hash s in
        Begins operation hash s r s'
  unfolding begin_idempotent_operation
  begin_idempotent_operation-refines operation hash s = by_row (find_key s merchant key) refl
    where
      by_row :
          (found : Option IdempotencyKey)
          → find_key s merchant key ≡ found
          → let (r, s') = begin_with found (new_key merchant key operation hash s.now) s in
            Begins operation hash s r s'
      by_row none missing = inl (
        missing,
        refl,
        λ n l. add-put s (new_key merchant key operation hash s.now) n l refl refl missing,
        refl,
      )
      by_row (some existing) found = elim (Bool-cases (existing.request_hash == hash)) [
        | inl h ↦ rw h (inr (inl (existing, found, h, refl, refl)))
        | inr h ↦ rw h (inr (inr (existing, found, h, refl, refl)))
      ]

  -- The other operations on the store.
  pub complete_idempotent_operation-put :
      (response : ToolExecutionResult) (reference : Option ℕ) (s : Session) (n : ℕ) (l : ActionKey)
      → find_key (complete_idempotent_operation merchant key response reference s).1 n l
        ≡ put
            (find_key s)
            merchant
            key
            (changed (completed_key response reference s.now) (find_key s merchant key))
            n
            l
  unfolding complete_idempotent_operation
  complete_idempotent_operation-put response reference s n l =
      update_key-put (completed_key response reference s.now) (λ row. (refl, refl)) s n l

  pub fail_idempotent_operation-put :
      (code : Option String) (s : Session) (n : ℕ) (l : ActionKey)
      → find_key (fail_idempotent_operation merchant key code s).1 n l
        ≡ put
            (find_key s)
            merchant
            key
            (changed (failed_key code s.now) (find_key s merchant key))
            n
            l
  unfolding fail_idempotent_operation
  fail_idempotent_operation-put code s n l =
      update_key-put (failed_key code s.now) (λ row. (refl, refl)) s n l
