-- ===== src/Optimizer/Ranking/Control.antt =====
-- The choice of ranking.py where no recovery intervention is worth while.
use mathlib.Core.Option.{some-injective, some-ne-none}
use revive_x.Prelude.{
  ◌≡◌, refl, sym, subst, Bool, true, false, ◌||◌, Option, none, some, List, [], ◌∷◌, Memᴰ, arith,
  ◌⊎◌, Bool-cases, inl, inr, All, All-zip, keep, is_empty, if◌then◌else◌,
}
use revive_x.Enums.{RecoveryActionType}
use revive_x.Errors.{ok, ◌>>=◌}
use revive_x.Optimizer.Config.{OptimizerSettings, is_control}
use revive_x.Optimizer.Ranking.{
  CandidateAction, max_with_ties, Choice, SelectionReason, select_control, eligible_candidates,
  select_action, fall_back, by_risk, get_action, is_do_nothing, is_escalate,
}
use revive_x.Optimizer.Ranking.Selected.{contenders}

-- A candidate that is found by its action is one of the list and has the action.
get_action-found :
    (wanted : RecoveryActionType → Bool) (xs : List CandidateAction) (c : CandidateAction)
    → get_action wanted xs ≡ some c
    → Memᴰ c xs × (wanted c.action ≡ true)
unfolding get_action
get_action-found wanted [] c h = cc
get_action-found wanted (x ∷ xs) c h = after (get_action wanted xs) (get_action-found wanted xs) h
  where
    after :
        (r : Option CandidateAction)
        → ((d : CandidateAction) → r ≡ some d → Memᴰ d xs × (wanted d.action ≡ true))
        → (elim r [ some later ↦ some later | none ↦ if wanted x.action then some x else none ])
          ≡ some c
        → Memᴰ c (x ∷ xs) × (wanted c.action ≡ true)
    after (some d) found k = let (m, t) = found c k in (Memᴰ.tail m, t)
    after none found k = elim (Bool-cases (wanted x.action)) [
      | inl t ↦
          let same : x ≡ c = some-injective x c (rw t at k) in
          (Memᴰ.head (sym same), subst (λ v. wanted v.action ≡ true) same t)
      | inr t ↦ ground arith
    ]

-- If none is found, none has the action.
get_action-none :
    (wanted : RecoveryActionType → Bool) (xs : List CandidateAction)
    → get_action wanted xs ≡ none
    → All (λ c. wanted c.action ≡ false) xs
unfolding get_action
get_action-none wanted [] h = tt
get_action-none wanted (x ∷ xs) h = after (get_action wanted xs) (get_action-none wanted xs) h
  where
    after :
        (r : Option CandidateAction)
        → (r ≡ none → All (λ c. wanted c.action ≡ false) xs)
        → (elim r [ some later ↦ some later | none ↦ if wanted x.action then some x else none ])
          ≡ none
        → All (λ c. wanted c.action ≡ false) (x ∷ xs)
    after (some d) rest k = cc
    after none rest k = elim (Bool-cases (wanted x.action)) [
      | inl t ↦ absurd (some-ne-none x (rw t at k))
      | inr t ↦ (t, rest refl)
    ]

-- What a choice of a control strategy owes to the candidates that are left: none is chosen only if
-- none is there; else the chosen one is among them, for a suspicious case it escalates if that is
-- possible, and for another it does nothing if that is possible.
abbrev Owes : List CandidateAction → Bool → Choice → Type 0
Owes eligible suspicious (none, _) = All (λ c. is_control c.action ≡ false) eligible
Owes eligible suspicious (some c, _) =
    Memᴰ c eligible
    × (is_control c.action ≡ true)
    × (suspicious ≡ true
        → (is_escalate c.action ≡ true) ⊎ All (λ d. is_escalate d.action ≡ false) eligible)
    × (suspicious ≡ false
        → (is_do_nothing c.action ≡ true) ⊎ All (λ d. is_do_nothing d.action ≡ false) eligible)

no_control :
    (a : RecoveryActionType)
    → is_do_nothing a ≡ false
    → is_escalate a ≡ false
    → is_control a ≡ false
no_control a h k = ground arith

nothing_is_control : (a : RecoveryActionType) → is_do_nothing a ≡ true → is_control a ≡ true
nothing_is_control a h = ground arith

escalate_is_control : (a : RecoveryActionType) → is_escalate a ≡ true → is_control a ≡ true
escalate_is_control a h = ground arith

keep-none :
    (test : CandidateAction → Bool) (xs : List CandidateAction)
    → All (λ c. test c ≡ false) xs
    → keep test xs ≡ []
keep-none test [] h = refl
keep-none test (x ∷ xs) (hx, h) = rw hx (keep-none test xs h)

-- The last lines of `_select_control` are reached only where there is nothing to choose.
fall_back-Owes :
    (xs : List CandidateAction) (suspicious : Bool)
    → get_action is_do_nothing xs ≡ none
    → get_action is_escalate xs ≡ none
    → Owes xs suspicious (fall_back (keep (λ c. is_control c.action) xs))
fall_back-Owes xs suspicious nothing escalate =
    let free =
      All-zip (λ (c : CandidateAction) h k. no_control c.action h k) xs
        (get_action-none is_do_nothing xs nothing) (get_action-none is_escalate xs escalate) in
    rw (keep-none (λ c. is_control c.action) xs free) free

by_risk-Owes :
    (xs : List CandidateAction) (suspicious : Bool) (nothing escalate : Option CandidateAction)
    → get_action is_do_nothing xs ≡ nothing
    → get_action is_escalate xs ≡ escalate
    → Owes xs suspicious (by_risk suspicious xs nothing escalate)
by_risk-Owes xs true nothing (some e) hn he =
    let (m, t) = get_action-found is_escalate xs e he in
    (m, escalate_is_control e.action t, λ _. inl t, λ h. cc)
by_risk-Owes xs true (some n) none hn he =
    let (m, t) = get_action-found is_do_nothing xs n hn in
    (m, nothing_is_control n.action t, λ _. inr (get_action-none is_escalate xs he), λ h. cc)
by_risk-Owes xs true none none hn he = fall_back-Owes xs true hn he
by_risk-Owes xs false (some n) escalate hn he =
    let (m, t) = get_action-found is_do_nothing xs n hn in
    (m, nothing_is_control n.action t, λ h. cc, λ _. inl t)
by_risk-Owes xs false none (some e) hn he =
    let (m, t) = get_action-found is_escalate xs e he in
    (m, escalate_is_control e.action t, λ h. cc, λ _. inr (get_action-none is_do_nothing xs hn))
by_risk-Owes xs false none none hn he = fall_back-Owes xs false hn he

-- The choice among the control strategies meets its specification.
select_control-Owes :
    (xs : List CandidateAction) (suspicious : Bool)
    → Owes xs suspicious (select_control xs suspicious)
unfolding select_control
select_control-Owes xs suspicious =
    by_risk-Owes xs suspicious (get_action is_do_nothing xs) (get_action is_escalate xs) refl refl

-- The same, by whether the case is suspicious.
abbrev pub ControlSpec : List CandidateAction → Bool → Choice → Type 0
ControlSpec eligible suspicious (none, _) = All (λ c. is_control c.action ≡ false) eligible
ControlSpec eligible true (some c, _) =
    Memᴰ c eligible
    × (is_control c.action ≡ true)
    × ((is_escalate c.action ≡ true) ⊎ All (λ d. is_escalate d.action ≡ false) eligible)
ControlSpec eligible false (some c, _) =
    Memᴰ c eligible
    × (is_control c.action ≡ true)
    × ((is_do_nothing c.action ≡ true) ⊎ All (λ d. is_do_nothing d.action ≡ false) eligible)

of_owed :
    (eligible : List CandidateAction) (suspicious : Bool) (choice : Choice)
    → Owes eligible suspicious choice
    → ControlSpec eligible suspicious choice
of_owed eligible true (none, reason) h = h
of_owed eligible false (none, reason) h = h
of_owed eligible true (some c, reason) (m, k, escalates, _) = (m, k, escalates refl)
of_owed eligible false (some c, reason) (m, k, _, idles) = (m, k, idles refl)

-- Where no permitted recovery intervention has a value of zero or more, the choice is made among
-- the control strategies that are left: none is chosen only if none is left, a suspicious or
-- mismatched case escalates if that is left, and another does nothing if that is left.
pub select_action-control :
    (cs : List CandidateAction) (settings : OptimizerSettings) (suspicious source_mismatch : Bool)
    → is_empty (contenders cs) ≡ true
    → (choice : Choice) × (select_action cs settings suspicious source_mismatch ≡ ok choice)
      × ControlSpec (eligible_candidates cs) (suspicious || source_mismatch) choice
unfolding select_action
select_action-control cs settings suspicious source_mismatch h = after (eligible_candidates cs) refl
  where
    after :
        (eligible : List CandidateAction)
        → eligible_candidates cs ≡ eligible
        → (choice : Choice) × ((if is_empty (eligible_candidates cs)
              then ok (none, SelectionReason.no_candidate)
              else if is_empty (contenders cs)
              then ok (select_control (eligible_candidates cs) (suspicious || source_mismatch))
              else max_with_ties (contenders cs) settings >>= λ winner.
                  ok (some winner, SelectionReason.maximum_value winner.requires_approval))
            ≡ ok choice)
          × ControlSpec (eligible_candidates cs) (suspicious || source_mismatch) choice
    after [] same = ((none, SelectionReason.no_candidate), rw same, rw same tt)
    after (c ∷ rest) same = (
      select_control (eligible_candidates cs) (suspicious || source_mismatch),
      rw h (rw same refl),
      of_owed (eligible_candidates cs) (suspicious || source_mismatch)
          (select_control (eligible_candidates cs) (suspicious || source_mismatch))
          (select_control-Owes (eligible_candidates cs) (suspicious || source_mismatch)),
    )
