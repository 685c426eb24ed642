-- ===== src/Tools/Approvals/Reentry.antt =====
-- packages/domain/recoverai_domain/tools/approvals.py and execution.py: what is asked for again when a
-- held action is approved.
use revive_x.Prelude.{
  ℕ, ◌≡◌, refl, sym, ap, subst, Bool, true, false, inl, inr, ◌&&◌, ◌==◌, Bool-cases, Option, none,
  some, String, str_eq, List, [], ◌∷◌, ◌++◌, map, Memᴰ, arith, if◌then◌else◌,
}
use revive_x.Prelude.Lists.{find-passes, find-member}
use revive_x.Enums.{
  RecoveryActionType, RecoveryActionStatus, RecoveryCaseStatus, RiskLevel, action_value,
}
use revive_x.Errors.{ok}
use revive_x.Models.{RecoveryAction, ActionKey, Approval, CaseFingerprint}
use revive_x.Settings.{RecoverySettings}
use revive_x.ToolWords.{Tool, tool_name, Field, ToolInput}
use revive_x.Session.{Session, ◌>>◌, record_audit}
use revive_x.Session.Change.{after_bind}
use revive_x.StateMachine.{can_transition}
use revive_x.Transitions.{transition_case, transition_case_at}
use revive_x.Policy.Words.{PolicyEvaluationResult}
use revive_x.Models.Audit.{AuditEventType}
use revive_x.Processor.{same_key, await, request_approval, fingerprint_of}
use revive_x.Tools.Permissions.{action_for_tool}
use revive_x.Tools.Registry.{ToolSpec, tool_specs}
use revive_x.Tools.Registry.Names.{require_tool-name}
use revive_x.Tools.Schemas.{validate_input}
use revive_x.Tools.Schemas.RoundTrip.{validate_input-model_dump}
use revive_x.Tools.Idempotency.Store.{same_key_sound}
use revive_x.Tools.Provider.{Environment}
use revive_x.Tools.Handlers.Outcome.{is_policy_check}
use revive_x.Tools.Execution.Guards.{ToolRequest, resolve_tool, hashed_action}
use revive_x.Tools.Execution.Rows.{
  ActionMetadata, upsert_action, upsert_with, action_of_key, marked,
}
use revive_x.Tools.Execution.Run.{
  held_metadata, on_approval_required, hold, log_held, await_if_checked,
}
use revive_x.Tools.Approvals.{approved_request}

-- A row of the key, which remembers the tool and the payload.
abbrev Remembers : ActionKey → ActionMetadata → RecoveryAction → Type 0
Remembers key meta row =
    (row.idempotency_key ≡ key)
    × (row.tool_name ≡ some (tool_name meta.tool_name))
    × (row.payload ≡ some meta.payload)

abbrev Remembered : ActionKey → ActionMetadata → List RecoveryAction → Type 0
Remembered key meta rows = (row : RecoveryAction) × Memᴰ row rows × Remembers key meta row

last_member : (rows : List RecoveryAction) (row : RecoveryAction) → Memᴰ row (rows ++ row ∷ [])
last_member [] row = Memᴰ.head refl
last_member (x ∷ xs) row = Memᴰ.tail (last_member xs row)

mapped_member :
    (f : RecoveryAction → RecoveryAction) (rows : List RecoveryAction) (row : RecoveryAction)
    → Memᴰ row rows
    → Memᴰ (f row) (map f rows)
mapped_member f [] row m = elim m [ ]
mapped_member f (x ∷ xs) row (Memᴰ.head e) = Memᴰ.head (ap f e)
mapped_member f (x ∷ xs) row (Memᴰ.tail m) = Memᴰ.tail (mapped_member f xs row m)

await-Remembers :
    (key : ActionKey) (meta : ActionMetadata) (id approval : ℕ) (print : CaseFingerprint)
    (row : RecoveryAction)
    → Remembers key meta row
    → Remembers key meta (await id approval print row)
await-Remembers key meta id approval print row same = elim (Bool-cases (row.id == id)) [
  | inl h ↦ rw h same
  | inr h ↦ rw h same
]

transition-actions :
    (target : RecoveryCaseStatus) (s : Session) → (transition_case target s).1.actions ≡ s.actions
unfolding transition_case transition_case_at
transition-actions target s = elim (Bool-cases (can_transition s.case.status target)) [
  | inl h ↦ rw h refl
  | inr h ↦ rw h refl
]

module _ (settings : RecoverySettings) (spec : ToolSpec) (evaluation : PolicyEvaluationResult) where
  await_if_checked-actions : (s : Session) → (await_if_checked s).1.actions ≡ s.actions
  await_if_checked-actions s = elim (Bool-cases (is_policy_check s.case.status)) [
    | inl h ↦ rw h (transition-actions RecoveryCaseStatus.awaiting_approval s)
    | inr h ↦ rw h refl
  ]

  log_held-actions :
      (row : RecoveryAction) (approval : ℕ) (s : Session)
      → (log_held spec evaluation row approval s).1.actions ≡ s.actions
  log_held-actions row approval s =
      after_bind (λ t. t.actions ≡ s.actions)
        (await_if_checked >> record_audit AuditEventType.approval_requested none none) _ s audited
        (λ _. audited)
    where
      audited :
          ((await_if_checked >> record_audit AuditEventType.approval_requested none none)
            s).1.actions
          ≡ s.actions
      audited =
          after_bind (λ t. t.actions ≡ s.actions) await_if_checked
            (λ _. record_audit AuditEventType.approval_requested none none) s
            (await_if_checked-actions s) (λ _. await_if_checked-actions s)

  hold-Remembered :
      (key : ActionKey) (meta : ActionMetadata) (row held : RecoveryAction) (s : Session)
      → Memᴰ row s.actions
      → Remembers key meta row
      → Remembered key meta (hold settings spec evaluation held s).1.actions
  hold-Remembered key meta row held s there same =
      let s' = (request_approval settings held s).1 in
      let print = fingerprint_of s.case in
      subst (Remembered key meta) (sym (log_held-actions held s.next_id s')) (
        await held.id s.next_id print row,
        mapped_member (await held.id s.next_id print) s.actions row there,
        await-Remembers key meta held.id s.next_id print row same,
      )

-- The action that is marked or made for a key remembers what it is given.
upsert_action-Remembers :
    (action : RecoveryActionType) (key : ActionKey) (status : RecoveryActionStatus)
    (risk : RiskLevel) (meta : ActionMetadata) (s : Session)
    → let (result, s') = upsert_action action key status risk none (some meta) s in
      (row : RecoveryAction) × (result ≡ ok row) × Memᴰ row s'.actions × Remembers key meta row
unfolding upsert_action
upsert_action-Remembers action key status risk meta s = by_row (action_of_key s key) refl
  where
    by_row :
        (found : Option RecoveryAction)
        → action_of_key s key ≡ found
        → let (result, s') = upsert_with action key status risk (some meta) found s in
          (row : RecoveryAction) × (result ≡ ok row) × Memᴰ row s'.actions × Remembers key meta row
    by_row none e = (_, refl, last_member s.actions _, (refl, refl, refl))
    by_row (some existing) e =
        let test : RecoveryAction → Bool =
          λ a. (a.merchant_id == s.case.merchant_id) && same_key a.idempotency_key key in
        let passes = find-passes test s.actions existing e in
        let there = find-member test s.actions existing e in
        let change : RecoveryAction → RecoveryAction =
          λ a. if a.id == existing.id then marked status risk (some meta) a else a in
        let self : (existing.id == existing.id) ≡ true = ground arith in
        (
          marked status risk (some meta) existing,
          refl,
          subst (λ r. Memᴰ r (map change s.actions)) (rw self refl)
              (mapped_member change s.actions existing there),
          (same_key_sound existing.idempotency_key key (ground arith), refl, refl),
        )

spec-name : (tool : Tool) → (tool_specs tool).name ≡ tool
unfolding tool_specs
spec-name Tool.get_customer_history = refl
spec-name _ = refl

given_name :
    (tool : Tool) (action : Option String)
    → resolve_tool (some (tool_name tool)) action ≡ ok (tool_specs tool)
unfolding resolve_tool
given_name tool action = rw (named tool) (require_tool-name tool)
  where
    named : (t : Tool) → str_eq (tool_name t) "" ≡ false
    named Tool.get_customer_history = refl
    named _ = refl

-- A request is of the tool, reads as the input, and has the key and the digest of another one.
abbrev pub Repeats : Environment → Tool → ToolInput → ToolRequest → ToolRequest → Type 0
Repeats env tool input request again =
    (again.idempotency_key ≡ request.idempotency_key)
    × (resolve_tool again.tool_name again.action ≡ ok (tool_specs tool))
    × (validate_input tool again.payload ≡ ok input)
    × (env.request_hash tool (hashed_action again.action tool) input
        ≡ env.request_hash tool (hashed_action request.action tool) input)

module _ (env : Environment) (tool : Tool) (input : ToolInput) (request : ToolRequest)
    (action : RecoveryActionType) where
  Repeats-remembered :
      (fields : List Field) (row : RecoveryAction) (approval : Approval) (merchant : ℕ)
      → validate_input tool fields ≡ ok input
      → action_for_tool tool ≡ some action
      → Remembers request.idempotency_key (held_metadata (tool_specs tool) input) row
      → Repeats env tool input request (approved_request row approval merchant)
  unfolding tool_specs
  Repeats-remembered fields row approval merchant valid acts (key, named, kept) = (
    key,
    rw (named, spec-name tool) (given_name tool (some (action_value row.action_type))),
    rw (kept, spec-name tool) (validate_input-model_dump tool fields input valid),
    rw acts refl,
  )

  -- A request of a tool that is held for an approval, and that names no action of its own, leaves an
  -- action which asks for the same again: when that action is approved, the request that it is
  -- executed with has the idempotency key of the one that was held, names the same tool, validates to
  -- the same input and has the same digest.
  pub on_approval_required-Repeats :
      (settings : RecoverySettings) (fields : List Field) (evaluation : PolicyEvaluationResult)
      (s : Session)
      → validate_input tool fields ≡ ok input
      → action_for_tool tool ≡ some action
      → request.existing_action_id ≡ none
      → let s' =
          (on_approval_required settings (tool_specs tool) input request action evaluation s).1 in
        (row : RecoveryAction) × Memᴰ row s'.actions
        × ((approval : Approval) (merchant : ℕ)
            → Repeats env tool input request (approved_request row approval merchant))
  on_approval_required-Repeats settings fields evaluation s valid acts plain =
      let meta = held_metadata (tool_specs tool) input in
      let (held, made, there, same) =
        upsert_action-Remembers action request.idempotency_key
          RecoveryActionStatus.approval_required evaluation.risk_level meta s in
      rw (plain, made)
        (let (row, kept, remembers) =
            hold-Remembered settings (tool_specs tool) evaluation request.idempotency_key meta held
              held
              (upsert_action action request.idempotency_key RecoveryActionStatus.approval_required
                evaluation.risk_level none (some meta) s).1
              there same in
          (
            row,
            kept,
            λ approval merchant.
                Repeats-remembered fields row approval merchant valid acts remembers,
          ))
