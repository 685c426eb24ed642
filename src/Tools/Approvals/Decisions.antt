-- ===== src/Tools/Approvals/Decisions.antt =====
-- packages/domain/recoverai_domain/tools/approvals.py: what an approval needs, and what a rejection
-- does.
use revive_x.Prelude.{
  ℕ, ◌≡◌, refl, sym, ◌∙◌, ap, inl, inr, Bool, true, false, false≢true, ◌&&◌, ◌==◌, Bool-cases,
  Option, none, some, List, [], ◌∷◌, map, All, if◌then◌else◌, arith,
}
use revive_x.Enums.{RecoveryCaseStatus, RecoveryActionStatus, ApprovalStatus}
use revive_x.Errors.{Error, tool_validation, ok, err}
use revive_x.Models.{RecoveryAction, Approval}
use revive_x.Models.ToolRows.{ToolExecutionResult}
use revive_x.Settings.{RecoverySettings}
use revive_x.Session.{Session, ◌>>◌}
use revive_x.StateMachine.{can_transition}
use revive_x.Transitions.{transition_case, transition_case_at}
use revive_x.Transitions.Settles.{Settles}
use revive_x.Tools.Provider.{Environment}
use revive_x.Tools.Idempotency.{fail_idempotent_operation}
use revive_x.Tools.Handlers.Outcome.Settles.{only_if-Settles}
use revive_x.Tools.Execution.Guards.{is_other_merchant}
use revive_x.Tools.Execution.Rows.{find_action, update_approval, has_expired}
use revive_x.Tools.Approvals.{
  load_action, latest_approval, expire_if_needed, find_last, is_approval_for, is_pending,
  is_expired, is_approvable, set_status, approve_action, reject_action, mark_rejected,
  escalate_if_awaiting, is_awaiting,
}

raises : {A : Type 0} {e : Error} {a : A} → err e ≡ ok a → ⊥
raises h = ground arith

-- The action and its newest approval.
abbrev pub Concerns : ℕ → Option ℕ → Session → RecoveryAction → Approval → Type 0
Concerns id merchant s action approval =
    (is_other_merchant merchant s.case.merchant_id ≡ false)
    × (find_action s (some id) ≡ some action)
    × ((action.merchant_id == s.case.merchant_id) ≡ true)
    × (find_last (is_approval_for s.case.id action.id) s.approvals ≡ some approval)

module _ (env : Environment) (settings : RecoverySettings) (id : ℕ) (merchant : Option ℕ)
    (s : Session) (r : ToolExecutionResult)
    (returns : (approve_action env settings id merchant s).0 ≡ ok r) where
  abbrev Needed : Type 0
  Needed =
      (action : RecoveryAction) × (approval : Approval) × Concerns id merchant s action approval
      × (is_pending approval.status ≡ true)
      × (has_expired approval.expires_at s.now ≡ false)
      × (is_approvable action.status ≡ true)

  decided :
      (action : RecoveryAction) (approval : Approval)
      → Concerns id merchant s action approval
      → Needed
  unfolding approve_action load_action latest_approval expire_if_needed
  decided action approval (own, found, owned, latest) =
      elim (Bool-cases (is_pending approval.status && has_expired approval.expires_at s.now)) [
        | inl x ↦ absurd (
            raises {e = tool_validation "APPROVAL_EXPIRED"}
              (sym (rw (own, found, owned, latest, x) refl) ∙ returns))
        | inr x ↦ elim (Bool-cases (is_expired approval.status)) [
          | inl y ↦ absurd (
              raises {e = tool_validation "APPROVAL_EXPIRED"}
                (sym (rw (own, found, owned, latest, x, y) refl) ∙ returns))
          | inr y ↦ elim (Bool-cases (is_pending approval.status)) [
            | inr p ↦ absurd (
                raises {e = tool_validation "APPROVAL_NOT_PENDING"}
                  (sym (rw (own, found, owned, latest, x, y, p) refl) ∙ returns))
            | inl p ↦ elim (Bool-cases (is_approvable action.status)) [
              | inr a ↦ absurd (
                  raises {e = tool_validation "ACTION_NOT_APPROVABLE"}
                    (sym (rw (own, found, owned, latest, x, y, p, a) refl) ∙ returns))
              | inl a ↦ (action, approval, (own, found, owned, latest), p, ground arith, a)
            ]
          ]
        ]
      ]

  approved_action :
      (action : RecoveryAction)
      → is_other_merchant merchant s.case.merchant_id ≡ false
      → find_action s (some id) ≡ some action
      → (action.merchant_id == s.case.merchant_id) ≡ true
      → Needed
  unfolding approve_action load_action latest_approval
  approved_action action own found owned =
      by_approval (find_last (is_approval_for s.case.id action.id) s.approvals) refl
    where
      by_approval :
          (o : Option Approval)
          → find_last (is_approval_for s.case.id action.id) s.approvals ≡ o
          → Needed
      by_approval none missing = absurd (
          raises {e = tool_validation "APPROVAL_NOT_FOUND"}
            (sym (rw (own, found, owned, missing) refl) ∙ returns))
      by_approval (some approval) latest = decided action approval (own, found, owned, latest)

  needed : Needed
  unfolding approve_action load_action
  needed = elim (Bool-cases (is_other_merchant merchant s.case.merchant_id)) [
    | inl o ↦ absurd (raises {e = tool_validation "MERCHANT_MISMATCH"} (sym (rw o refl) ∙ returns))
    | inr own ↦ by_action own (find_action s (some id)) refl
  ]
    where
      by_action :
          is_other_merchant merchant s.case.merchant_id ≡ false
          → (o : Option RecoveryAction) → find_action s (some id) ≡ o
          → Needed
      by_action own none missing =
          absurd (
            raises {e = tool_validation "ACTION_NOT_FOUND"}
              (sym (rw (own, missing) refl) ∙ returns))
      by_action own (some action) found =
          elim (Bool-cases (action.merchant_id == s.case.merchant_id)) [
            | inr n ↦ absurd (
                raises {e = tool_validation "ACTION_NOT_FOUND"}
                  (sym (rw (own, found, n) refl) ∙ returns))
            | inl owned ↦ approved_action action own found owned
          ]

-- An approval that returns was of an action of the case's merchant in a status that may be approved,
-- whose newest approval for the case was pending and had not expired.
pub approve_action_needs :
    (env : Environment) (settings : RecoverySettings) (id : ℕ) (merchant : Option ℕ) (s : Session)
    (r : ToolExecutionResult)
    → (approve_action env settings id merchant s).0 ≡ ok r
    → (action : RecoveryAction) × (approval : Approval) × Concerns id merchant s action approval
      × (is_pending approval.status ≡ true)
      × (has_expired approval.expires_at s.now ≡ false)
      × (is_approvable action.status ≡ true)
approve_action_needs env settings id merchant s r returns =
    needed env settings id merchant s r returns

module _ {A : Type 0} where
  -- The rows that pass are the ones that were changed.
  marked_lem :
      (test : A → Bool) (f : A → A) (P : A → Type 0)
      → ((x : A) → test (f x) ≡ test x)
      → ((x : A) → P (f x))
      → (xs : List A) → All (λ x. test x ≡ true → P x) (map (λ x. if test x then f x else x) xs)
  marked_lem test f P same holds [] = tt
  marked_lem test f P same holds (x ∷ xs) = elim (Bool-cases (test x)) [
    | inl h ↦ rw h (λ _. holds x, marked_lem test f P same holds xs)
    | inr h ↦ rw h (λ t. absurd (false≢true (sym h ∙ t)), marked_lem test f P same holds xs)
  ]

-- The action is cancelled and the approval rejected.
abbrev pub Cancelled : ℕ → ℕ → Session → Type 0
Cancelled action approval s =
    All
      (λ (a : RecoveryAction). (a.id == action) ≡ true → a.status ≡ RecoveryActionStatus.cancelled)
      s.actions
    × All (λ (a : Approval). (a.id == approval) ≡ true → a.status ≡ ApprovalStatus.rejected)
        s.approvals

marked-Cancelled :
    (action : RecoveryAction) (approval : Approval) (s : Session)
    → ((mark_rejected action approval s).0 ≡ ok tt)
      × Cancelled action.id approval.id (mark_rejected action approval s).1
      × ((mark_rejected action approval s).1.case ≡ s.case)
unfolding fail_idempotent_operation
marked-Cancelled action approval s = (
  refl,
  (
    marked_lem (λ (a : RecoveryAction). a.id == action.id)
        (λ a. record a { status = RecoveryActionStatus.cancelled })
        (λ a. a.status ≡ RecoveryActionStatus.cancelled) (λ a. refl) (λ a. refl) s.actions,
    marked_lem (λ (a : Approval). a.id == approval.id) (set_status ApprovalStatus.rejected)
        (λ a. a.status ≡ ApprovalStatus.rejected) (λ a. refl) (λ a. refl) s.approvals,
  ),
  refl,
)

transition-rows :
    (target : RecoveryCaseStatus) (s : Session)
    → ((transition_case target s).1.actions ≡ s.actions)
      × ((transition_case target s).1.approvals ≡ s.approvals)
unfolding transition_case transition_case_at
transition-rows target s = elim (Bool-cases (can_transition s.case.status target)) [
  | inl l ↦ rw l (refl, refl)
  | inr l ↦ rw l (refl, refl)
]

awaiting_legal :
    (c : RecoveryCaseStatus)
    → is_awaiting c ≡ true
    → can_transition c RecoveryCaseStatus.escalated ≡ true
unfolding can_transition
awaiting_legal c h = ground arith

abbrev rejected_status : RecoveryCaseStatus → RecoveryCaseStatus
rejected_status current = if is_awaiting current then RecoveryCaseStatus.escalated else current

escalated_lem :
    (action approval : ℕ) (s : Session)
    → Cancelled action approval s
    → Settles escalate_if_awaiting (rejected_status s.case.status) s
      × Cancelled action approval (escalate_if_awaiting s).1
escalated_lem action approval s cancelled = (
  only_if-Settles (is_awaiting s.case.status) RecoveryCaseStatus.escalated s
      (awaiting_legal s.case.status),
  elim (Bool-cases (is_awaiting s.case.status)) [
    | inl a ↦
        rw
          (
            a,
            (transition-rows RecoveryCaseStatus.escalated s).0,
            (transition-rows RecoveryCaseStatus.escalated s).1,
          )
          cancelled
    | inr a ↦ rw a cancelled
  ],
)

-- The rejection from where its approval is known.
from_marked :
    (action : RecoveryAction) (approval : Approval) (s : Session)
    → let m = mark_rejected action approval >> escalate_if_awaiting in
      Settles m (rejected_status s.case.status) s × Cancelled action.id approval.id (m s).1
from_marked action approval s =
    let (returns, cancelled, kept) = marked-Cancelled action approval s in
    let t : Session = (mark_rejected action approval s).1 in
    let ((done, status), rows) = escalated_lem action.id approval.id t cancelled in
    let same : rejected_status t.case.status ≡ rejected_status s.case.status =
      ap (λ c. rejected_status c.status) kept in
    rw returns ((done, status ∙ same), rows)

-- The rejection of an action of the case's merchant, whatever the status of the action and of its
-- newest approval, raises nothing: every row of the action is cancelled and every row of that
-- approval rejected, and a case that waits for an approval is escalated, while any other stays in
-- its status.
pub reject_action-Settles :
    (id : ℕ) (merchant : Option ℕ) (action : RecoveryAction) (approval : Approval) (s : Session)
    → Concerns id merchant s action approval
    → Settles
        (reject_action id merchant)
        (if is_awaiting s.case.status then RecoveryCaseStatus.escalated else s.case.status)
        s
      × Cancelled action.id approval.id (reject_action id merchant s).1
unfolding reject_action load_action latest_approval expire_if_needed
reject_action-Settles id merchant action approval s (own, found, owned, latest) =
    elim (Bool-cases (is_pending approval.status && has_expired approval.expires_at s.now)) [
      | inl x ↦
          rw (own, found, owned, latest, x)
            (from_marked action (set_status ApprovalStatus.expired approval)
              (update_approval approval.id (set_status ApprovalStatus.expired) s).1)
      | inr x ↦ rw (own, found, owned, latest, x) (from_marked action approval s)
    ]
