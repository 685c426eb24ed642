-- ===== src/Tools/Once.antt =====
-- packages/domain/recoverai_domain/tools/execution.py: a request is executed once. When it has
-- returned, the same request has the same result, and does nothing.
pub mod Memory
use revive_x.Prelude.{
  ℕ, ◌≡◌, refl, sym, ◌∙◌, ap, subst, ◌⊎◌, inl, inr, Bool, true, false, not, ◌&&◌, ◌==◌, Bool-cases,
  Option, none, some, String, List, find, arith,
}
use revive_x.Errors.{Error, idempotency_conflict, tool_validation, Result, ok, err, ok-injective}
use revive_x.Models.ToolRows.{IdempotencyKey, IdempotencyKeyStatus, ToolExecutionResult}
use revive_x.Settings.{RecoverySettings}
use revive_x.ToolWords.{ToolInput}
use revive_x.Session.{Session, lift, ◌>>=◌, ◌>>◌}
use revive_x.StateMachine.{is_terminal}
use revive_x.Tools.Registry.{ToolSpec}
use revive_x.Tools.Schemas.{validate_input}
use revive_x.Tools.Provider.{Environment}
use revive_x.Tools.Idempotency.{find_key, is_key, new_key, begin_with, begin_idempotent_operation}
use revive_x.Tools.Idempotency.Store.{is_same_refl, begin_idempotent_operation-refines}
use revive_x.Tools.Execution.{
  result_from_stored, replay_of, replay_result, finish, subject_of, run_once, follow_replay,
  begin_request, execute_checked, check_request, execute,
}
use revive_x.Tools.Execution.Guards.{
  ToolRequest, resolve_tool, is_other_merchant, is_missing, find_merchant, lacks, assert_merchant,
  hashed_action,
}
use revive_x.Tools.Execution.Rows.{add_call}
use revive_x.Tools.Execution.Run.{Subject, run_after_idempotency}
use revive_x.Tools.Keeps.Runs.{Within-run_after}
use revive_x.Tools.Keeps.Calls.{execute-Within}
use revive_x.Tools.Once.Memory.{
  SameStore, SameStore-laws, SameMerchant, SameMerchant-laws, Repeats, is_held, Remembers,
  finish_lem,
}

raised : {A : Type 0} {e : Error} {a : A} → err e ≡ ok a → ⊥
raised h = ground arith

module _ (env : Environment) (settings : RecoverySettings) (request : ToolRequest) where
  abbrev hash_of : ToolSpec → ToolInput → ℕ
  hash_of spec input = env.request_hash spec.name (hashed_action request.action spec.name) input

  run_once_lem :
      (spec : ToolSpec) (input : ToolInput) (subject : Subject) (hash : ℕ) (s : Session)
      (row : IdempotencyKey) (r : ToolExecutionResult)
      → find_key s s.case.merchant_id request.idempotency_key ≡ some row
      → (row.request_hash == hash) ≡ true
      → (run_once env settings request spec input subject s).0 ≡ ok r
      → not (request.approved_execution && is_held r.status) ≡ true
      → Remembers request hash r (run_once env settings request spec input subject s).1
  run_once_lem spec input subject hash s row r found hashed returns repeatable =
      finish_lem s.case.merchant_id request s.next_id hash row hashed (run called).0 (run called).1
        r same.0 (ap (find_in s.case.merchant_id) same.2 ∙ found) returns repeatable
    where
      run : Session → Result ToolExecutionResult × Session
      run = run_after_idempotency env settings spec input request subject

      called : Session
      called = (add_call spec input request.idempotency_key s).1

      same : SameStore called (run called).1
      same = Within-run_after SameStore-laws env settings spec input request subject called

      find_in : ℕ → List IdempotencyKey → Option IdempotencyKey
      find_in merchant keys = find (is_key merchant request.idempotency_key) keys

  module _ (spec : ToolSpec) (input : ToolInput) (s : Session) where
    abbrev result : Result ToolExecutionResult × Session
    result = execute_checked env settings request spec input s

    abbrev begun : Session
    begun = (begin_request env settings request spec input s).1

    -- What the call goes on to, once it has begun.
    answered_lem :
        (r : ToolExecutionResult) (row : IdempotencyKey)
        (replay : Result (Option ToolExecutionResult))
        → replay_of request.approved_execution row.status row.result ≡ replay
        → find_key s s.case.merchant_id request.idempotency_key ≡ some row
        → (row.request_hash == hash_of spec input) ≡ true
        → result ≡ (lift replay >>= follow_replay env settings request spec input (subject_of s)) s
        → result.0 ≡ ok r
        → not (request.approved_execution && is_held r.status) ≡ true
        → Remembers request (hash_of spec input) r result.1
    answered_lem r row (err e) known found hashed goes returns repeatable =
        absurd (raised (sym (ap (λ x. x.0) goes) ∙ returns))
    answered_lem r row (ok none) known found hashed goes returns repeatable =
        subst (λ x. Remembers request (hash_of spec input) r x.1) (sym goes)
          (run_once_lem spec input (subject_of s) (hash_of spec input) s row r found hashed
            (sym (ap (λ x. x.0) goes) ∙ returns) repeatable)
    answered_lem r row (ok (some stored)) known found hashed goes returns repeatable =
        let same : result_from_stored stored ≡ r =
          ok-injective (sym (ap (λ x. x.0) goes) ∙ returns) in
        subst (λ x. Remembers request (hash_of spec input) r x.1) (sym goes)
          (
            row,
            stored,
            found,
            hashed,
            known,
            subst (λ g. Repeats g (result_from_stored stored)) same
                (refl, refl, refl, refl, refl, refl, refl, refl, refl, refl, refl, refl, refl),
          )

    checked_lem :
        (r : ToolExecutionResult)
        → result.0 ≡ ok r
        → not (request.approved_execution && is_held r.status) ≡ true
        → Remembers request (hash_of spec input) r result.1
    checked_lem r returns repeatable =
        elim (begin_idempotent_operation-refines s.case.merchant_id request.idempotency_key
          spec.name (hash_of spec input) s) [
            | inl (missing, began, view, others) ↦
                let goes : result ≡ run_once env settings request spec input (subject_of s) begun =
                  rw began refl in
                let own : begun.case.merchant_id ≡ s.case.merchant_id =
                  ap (λ (t : Session). t.case.merchant_id) others in
                let row : IdempotencyKey =
                  new_key s.case.merchant_id request.idempotency_key spec.name (hash_of spec input)
                    s.now in
                let found : find_key begun s.case.merchant_id request.idempotency_key ≡ some row =
                  view s.case.merchant_id request.idempotency_key
                  ∙ rw (is_same_refl s.case.merchant_id request.idempotency_key) refl in
                subst (λ x. Remembers request (hash_of spec input) r x.1) (sym goes)
                  (run_once_lem spec input (subject_of s) (hash_of spec input) begun row r
                    (subst (λ m. find_key begun m request.idempotency_key ≡ some row) (sym own)
                      found)
                    (ground arith) (sym (ap (λ x. x.0) goes) ∙ returns) repeatable)
            | inr (inl (existing, found, hashed, began, same)) ↦
                answered_lem r existing
                  (replay_of request.approved_execution existing.status existing.result) refl found
                  hashed (rw (began, same) refl) returns repeatable
            | inr (inr (existing, found, differs, began, same)) ↦
                let raises : result.0 ≡ err idempotency_conflict = rw began refl in
                absurd (raised (sym raises ∙ returns))
          ]

-- The four checks of a request.
abbrev Passes : ToolRequest → ToolSpec → Session → Type 0
Passes request spec s =
    (is_other_merchant request.merchant_id s.case.merchant_id ≡ false)
    × (is_missing (find_merchant s) ≡ false)
    × (lacks request.granted_permissions spec ≡ false)
    × (is_terminal s.case.status ≡ false)

module _ (env : Environment) (settings : RecoverySettings) (request : ToolRequest) (spec : ToolSpec)
    (s : Session) where
  passed : Passes request spec s → check_request env settings request spec s ≡ (ok tt, s)
  unfolding assert_merchant
  passed (a, b, c, d) = rw (a, b, c, d) refl

  check_cases :
      Passes request spec s
      ⊎ ((e : Error) × ((check_request env settings request spec s).0 ≡ err e))
  unfolding assert_merchant
  check_cases = elim (Bool-cases (is_other_merchant request.merchant_id s.case.merchant_id)) [
    | inl a ↦ inr (tool_validation "MERCHANT_MISMATCH", rw a refl)
    | inr a ↦ elim (Bool-cases (is_missing (find_merchant s))) [
      | inl b ↦ inr (tool_validation "MISSING_MERCHANT", rw (a, b) refl)
      | inr b ↦ elim (Bool-cases (lacks request.granted_permissions spec)) [
        | inl c ↦ inr (tool_validation "PERMISSION_DENIED", rw (a, b, c) refl)
        | inr c ↦ elim (Bool-cases (is_terminal s.case.status)) [
          | inl d ↦ inr (tool_validation "CASE_TERMINAL", rw (a, b, c, d) refl)
          | inr d ↦ inl (a, b, c, d)
        ]
      ]
    ]
  ]

  -- A key that remembers a result answers with it.
  again_lem :
      (input : ToolInput) (hash : ℕ) (r : ToolExecutionResult)
      → hash_of env settings request spec input ≡ hash
      → Remembers request hash r s
      → (out : ToolExecutionResult) × (execute_checked env settings request spec input s
          ≡ (ok out, s))
        × Repeats r out
  unfolding begin_idempotent_operation
  again_lem input hash r same (row, stored, found, hashed, known, repeats) =
      let again : (row.request_hash == hash_of env settings request spec input) ≡ true =
        rw same hashed in
      (result_from_stored stored, rw (found, again, known) refl, repeats)

carried :
    (request : ToolRequest) (hash : ℕ) (r : ToolExecutionResult) (s t : Session)
    → SameStore s t
    → Remembers request hash r s
    → Remembers request hash r t
carried request hash r s t (a, _, c) (row, stored, found, hashed, known, repeats) =
    (row, stored, rw (a, c) found, hashed, known, repeats)

later_checks :
    (request : ToolRequest) (spec : ToolSpec) (s t : Session)
    → t.case.merchant_id ≡ s.case.merchant_id
    → t.merchants ≡ s.merchants
    → is_terminal t.case.status ≡ false
    → Passes request spec s
    → Passes request spec t
later_checks request spec s t a b unfinished (p, q, l, _) = (rw a p, rw (a, b) q, l, unfinished)

abbrev Answers :
    Environment → RecoverySettings → ToolRequest → Session → ToolExecutionResult → Type 0
Answers env settings request t r =
    (out : ToolExecutionResult) × (execute env settings request t ≡ (ok out, t)) × Repeats r out

-- A request that has returned a result, other than an approved one that asks for an approval, is not
-- executed again: on any later session with the same merchant, merchants and keys, on which the case
-- is not in a final status, the same request returns the same result, marked as replayed and without
-- the identifier of the call, and changes nothing, whatever the provider would answer.
pub execute-once :
    (env env' : Environment) (settings settings' : RecoverySettings) (request : ToolRequest)
    (s t : Session) (r : ToolExecutionResult)
    → (execute env settings request s).0 ≡ ok r
    → not (request.approved_execution && is_held r.status) ≡ true
    → SameStore (execute env settings request s).1 t
    → is_terminal t.case.status ≡ false
    → env'.request_hash ≡ env.request_hash
    → (out : ToolExecutionResult) × (execute env' settings' request t ≡ (ok out, t)) × Repeats r out
unfolding execute
execute-once env env' settings settings' request s t r returns repeatable same unfinished hashes =
    by_spec (resolve_tool request.tool_name request.action) refl
  where
    at_spec :
        (spec : ToolSpec) (input : ToolInput)
        → resolve_tool request.tool_name request.action ≡ ok spec
        → validate_input spec.name request.payload ≡ ok input
        → Passes request spec s
        → Answers env' settings' request t r
    at_spec spec input resolved validated passes =
        let first : execute env settings request s
            ≡ execute_checked env settings request spec input s =
          rw (resolved, validated, passed env settings request spec s passes) refl in
        let (merchant, merchants) =
          execute-Within SameMerchant-laws (λ u keys. (refl, refl)) env settings request s in
        let second : execute env' settings' request t
            ≡ execute_checked env' settings' request spec input t =
          rw
            (
              resolved,
              validated,
              passed env' settings' request spec t (
                  later_checks request spec s t (same.0 ∙ merchant) (same.1 ∙ merchants) unfinished
                    passes),
            )
            refl in
        let remembered =
          checked_lem env settings request spec input s r (sym (ap (λ x. x.0) first) ∙ returns)
            repeatable in
        let (out, answer, repeats) =
          again_lem env' settings' request spec t input (hash_of env settings request spec input) r
            (rw hashes refl)
            (carried request (hash_of env settings request spec input) r
              (execute_checked env settings request spec input s).1 t
              (subst (λ x. SameStore x.1 t) first same) remembered) in
        (out, second ∙ answer, repeats)

    by_input :
        (spec : ToolSpec) (input : Result ToolInput)
        → resolve_tool request.tool_name request.action ≡ ok spec
        → validate_input spec.name request.payload ≡ input
        → Answers env' settings' request t r
    by_input spec (err e) resolved validated =
        absurd (raised {e = e} (sym (rw (resolved, validated) refl) ∙ returns))
    by_input spec (ok input) resolved validated = elim (check_cases env settings request spec s) [
      | inl passes ↦ at_spec spec input resolved validated passes
      | inr (e, refused) ↦
          absurd (raised {e = e} (sym (rw (resolved, validated, refused) refl) ∙ returns))
    ]

    by_spec :
        (spec : Result ToolSpec)
        → resolve_tool request.tool_name request.action ≡ spec
        → Answers env' settings' request t r
    by_spec (err e) resolved = absurd (raised {e = e} (sym (rw resolved refl) ∙ returns))
    by_spec (ok spec) resolved =
        by_input spec (validate_input spec.name request.payload) resolved refl
