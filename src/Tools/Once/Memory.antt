-- ===== src/Tools/Once/Memory.antt =====
-- packages/domain/recoverai_domain/tools/execution.py: what the key of a request remembers when the
-- request has returned.
use revive_x.Prelude.{
  ℕ, ◌≡◌, refl, sym, ◌∙◌, ap, subst, inl, inr, Bool, true, false, false≢true, not, ◌&&◌, ◌==◌,
  Bool-cases, some, arith,
}
use revive_x.Enums.{RecoveryCaseStatus}
use revive_x.Errors.{
  Error, domain_error, invalid_transition, concurrent_case_update, tool_validation, optimizer_error,
  idempotency_conflict, value_error, index_error, invalid_operation, integrity_error, Result, ok,
  err, ok-injective,
}
use revive_x.Models.ToolRows.{
  IdempotencyKey, IdempotencyKeyStatus, ResultStatus, ToolExecutionResult,
}
use revive_x.Session.{Session}
use revive_x.Session.Change.{Within}
use revive_x.StateMachine.{can_transition}
use revive_x.Transitions.{transition_case, transition_case_at}
use revive_x.Tools.Idempotency.{
  find_key, complete_idempotent_operation, completed_key, fail_idempotent_operation,
}
use revive_x.Tools.Idempotency.Store.{
  is_same_refl, complete_idempotent_operation-put, update_key-put,
}
use revive_x.Tools.Execution.{
  result_from_stored, replay_of, on_error, reference_of, store_result, finish,
}
use revive_x.Tools.Execution.Guards.{ToolRequest}
use revive_x.Tools.Keeps.Tables.{IsToolRelation}

-- The merchant of the case, the merchants and the keys are the same.
abbrev pub SameStore : Session → Session → Type 0
SameStore s t =
    (t.case.merchant_id ≡ s.case.merchant_id)
    × (t.merchants ≡ s.merchants)
    × (t.idempotency_keys ≡ s.idempotency_keys)

target-SameStore : (target : RecoveryCaseStatus) → Within SameStore (transition_case target)
unfolding transition_case transition_case_at
target-SameStore target s = elim (Bool-cases (can_transition s.case.status target)) [
  | inl l ↦ rw l (refl, refl, refl)
  | inr l ↦ rw l (refl, refl, refl)
]

pub SameStore-laws : IsToolRelation SameStore
SameStore-laws = record {
  on_same = λ s. (refl, refl, refl);
  on_both = λ s t u (a, b, c) (a', b', c'). (a' ∙ a, b' ∙ b, c' ∙ c);
  on_tables = λ s s' (c, _, _, _, m, k). (ap (λ c. c.merchant_id) c, m, k);
  on_target = λ target h. target-SameStore target;
}

abbrev pub SameMerchant : Session → Session → Type 0
SameMerchant s t = (t.case.merchant_id ≡ s.case.merchant_id) × (t.merchants ≡ s.merchants)

pub SameMerchant-laws : IsToolRelation SameMerchant
SameMerchant-laws = record {
  on_same = λ s. (refl, refl);
  on_both = λ s t u (a, b) (a', b'). (a' ∙ a, b' ∙ b);
  on_tables = λ s s' (c, _, _, _, m, _). (ap (λ c. c.merchant_id) c, m);
  on_target = λ target h s. let (a, b, _) = target-SameStore target s in (a, b);
}

-- What a repeated call gives again; the identifier of the tool call and the key are not stored.
abbrev pub Repeats : ToolExecutionResult → ToolExecutionResult → Type 0
Repeats r out =
    (out.status ≡ r.status)
    × (out.tool_name ≡ r.tool_name)
    × (out.allowed ≡ r.allowed)
    × (out.requires_approval ≡ r.requires_approval)
    × (out.reason ≡ r.reason)
    × (out.action_id ≡ r.action_id)
    × (out.approval_id ≡ r.approval_id)
    × (out.provider ≡ r.provider)
    × (out.provider_reference ≡ r.provider_reference)
    × (out.simulated ≡ r.simulated)
    × (out.output ≡ r.output)
    × (out.risk_level ≡ r.risk_level)
    × (out.replayed ≡ true)

abbrev pub is_held : ResultStatus → Bool
is_held ResultStatus.approval_required = true
is_held _ = false

-- The key has a result that the request is answered with.
abbrev pub Remembers : ToolRequest → ℕ → ToolExecutionResult → Session → Type 0
Remembers request hash r s =
    (row : IdempotencyKey) × (stored : ToolExecutionResult) × (find_key s s.case.merchant_id
        request.idempotency_key
      ≡ some row)
    × ((row.request_hash == hash) ≡ true)
    × (replay_of request.approved_execution row.status row.result ≡ ok (some stored))
    × Repeats r (result_from_stored stored)

on_error_raises :
    (merchant : ℕ) (request : ToolRequest) (call : ℕ) (e : Error) (s : Session)
    → (on_error merchant request call e s).0 ≡ err e
unfolding fail_idempotent_operation
on_error_raises merchant request call (domain_error code retryable) s = refl
on_error_raises merchant request call (invalid_transition a b) s = refl
on_error_raises merchant request call (concurrent_case_update id) s = refl
on_error_raises merchant request call (tool_validation code) s = refl
on_error_raises merchant request call (optimizer_error code) s = refl
on_error_raises merchant request call idempotency_conflict s = refl
on_error_raises merchant request call value_error s = refl
on_error_raises merchant request call index_error s = refl
on_error_raises merchant request call invalid_operation s = refl
on_error_raises merchant request call integrity_error s = refl

replay_of_held :
    (status : IdempotencyKeyStatus) (stored : ToolExecutionResult)
    → replay_of false status (some stored) ≡ ok (some stored)
replay_of_held IdempotencyKeyStatus.in_progress stored = refl
replay_of_held IdempotencyKeyStatus.completed stored = refl
replay_of_held IdempotencyKeyStatus.failed stored = refl

err≢ok : {A : Type 0} {e : Error} {a : A} → err e ≡ ok a → ⊥
err≢ok h = ground arith

module _ (merchant : ℕ) (request : ToolRequest) (call hash : ℕ) (row : IdempotencyKey)
    (hashed : (row.request_hash == hash) ≡ true) where
  store_returns :
      (result : ToolExecutionResult) (status : ResultStatus) (s : Session)
      → (store_result merchant request call result status s).0 ≡ ok tt
  unfolding complete_idempotent_operation
  store_returns result ResultStatus.approval_required s = refl
  store_returns result _ s = refl

  -- The row after the result is stored.
  stored_lem :
      (result : ToolExecutionResult) (status : ResultStatus) (s : Session)
      → not (request.approved_execution && is_held status) ≡ true
      → find_key s merchant request.idempotency_key ≡ some row
      → let s' = (store_result merchant request call result status s).1 in
        (s'.case ≡ s.case)
        × ((new : IdempotencyKey) × (find_key s' merchant request.idempotency_key ≡ some new)
            × ((new.request_hash == hash) ≡ true)
            × (replay_of request.approved_execution new.status new.result ≡ ok (some result)))
  unfolding complete_idempotent_operation
  stored_lem result ResultStatus.approval_required s repeatable found = (
    refl,
    (
      record row { result = some result },
      update_key-put merchant request.idempotency_key (λ r. record r { result = some result })
            (λ r. (refl, refl)) s merchant request.idempotency_key
          ∙ rw (is_same_refl merchant request.idempotency_key, found) refl,
      hashed,
      elim (Bool-cases request.approved_execution) [
        | inl h ↦ absurd (false≢true (sym (rw h refl) ∙ repeatable))
        | inr h ↦ rw h (replay_of_held row.status result)
      ],
    ),
  )
  stored_lem result _ s repeatable found = (
    refl,
    (
      completed_key result (reference_of merchant request call result.action_id) s.now row,
      complete_idempotent_operation-put merchant request.idempotency_key result
            (reference_of merchant request call result.action_id) s merchant request.idempotency_key
          ∙ rw (is_same_refl merchant request.idempotency_key, found) refl,
      hashed,
      refl,
    ),
  )

  pub finish_lem :
      (outcome : Result ToolExecutionResult) (s : Session) (r : ToolExecutionResult)
      → s.case.merchant_id ≡ merchant
      → find_key s merchant request.idempotency_key ≡ some row
      → (finish merchant request call outcome s).0 ≡ ok r
      → not (request.approved_execution && is_held r.status) ≡ true
      → Remembers request hash r (finish merchant request call outcome s).1
  finish_lem (err e) s r own found returns repeatable =
      absurd (err≢ok (sym (on_error_raises merchant request call e s) ∙ returns))
  finish_lem (ok result) s r own found returns repeatable =
      let stored = store_returns result result.status s in
      let given : ToolExecutionResult = record result {
        tool_call_id = some call;
        idempotency_key = some request.idempotency_key;
      } in
      let finished : (finish merchant request call (ok result) s).0 ≡ ok given = rw stored refl in
      let same : given ≡ r = ok-injective (sym finished ∙ returns) in
      let status : result.status ≡ r.status = ap (λ g. g.status) same in
      let (kept, (new, found', hashed', again)) =
        stored_lem result result.status s (rw status repeatable) found in
      let t : Session = (store_result merchant request call result result.status s).1 in
      let here : t.case.merchant_id ≡ merchant = ap (λ c. c.merchant_id) kept ∙ own in
      let at : find_key t t.case.merchant_id request.idempotency_key ≡ some new =
        subst (λ m. find_key t m request.idempotency_key ≡ some new) (sym here) found' in
      rw stored (
        new,
        result,
        at,
        hashed',
        again,
        subst (λ g. Repeats g (result_from_stored result)) same
            (refl, refl, refl, refl, refl, refl, refl, refl, refl, refl, refl, refl, refl),
      )
