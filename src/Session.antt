-- ===== src/Session.antt =====
-- The database session that the recovery services share: the row of the case that is locked
-- (`SELECT ... FOR UPDATE`), the other rows, and what has been added to the session. A service is
-- an action on it that may raise; what was written before a raise stays, since rolling back is the
-- caller's. Also packages/domain/recoverai_domain/audit_write.py, and the queries of
-- packages/db/recoverai_db/repositories that the services make.
pub mod Change
use revive_x.Prelude.{
  ℕ, ◌+◌, Bool, true, false, not, ◌&&◌, ltb, ◌==◌, if◌then◌else◌, Option, none, some, String, List,
  [], ◌∷◌, ◌++◌, same_id, find, keep,
}
use revive_x.Enums.{RecoveryCaseStatus, RecoveryActionType}
use revive_x.Errors.{Error, Result, ok, err}
use revive_x.Models.{
  RecoveryCase, Payment, RecoveryAction, Approval, RecoveryDecision, Customer, Merchant,
  Notification,
}
use revive_x.Models.Audit.{AuditEventType, AuditState, AuditEvent}
use revive_x.Models.ToolRows.{Cart, Subscription, PaymentAttempt, IdempotencyKey, ToolCall}
use revive_x.Models.EventRows.{WebhookEvent, Job}
use revive_x.Policy.Words.{PolicyEvaluationResult}

-- A row of `policy_evaluations`
pub record PolicyEvaluation : Type 0 where
  pub merchant_id : ℕ
  pub recovery_case_id : ℕ
  pub action : String
  pub result : PolicyEvaluationResult

-- `case` is the locked row and `others` are the other rows of its table; `jobs` is what the queue was
-- given, `now` is the time of the call, and `next_id` is the next identifier that the database gives.
pub record Session : Type 0 where
  pub case : RecoveryCase
  pub others : List RecoveryCase
  pub payments : List Payment
  pub actions : List RecoveryAction
  pub approvals : List Approval
  pub decisions : List RecoveryDecision
  pub evaluations : List PolicyEvaluation
  pub audits : List AuditEvent
  pub merchants : List Merchant
  pub customers : List Customer
  pub notifications : List Notification
  pub carts : List Cart
  pub subscriptions : List Subscription
  pub payment_attempts : List PaymentAttempt
  pub idempotency_keys : List IdempotencyKey
  pub tool_calls : List ToolCall
  pub webhook_events : List WebhookEvent
  pub jobs : List Job
  pub now : ℕ
  pub next_id : ℕ

abbrev pub Action : Type 0 → Type 0
Action A = Session → Result A × Session

module _ {A : Type 0} where
  abbrev pub pure : A → Action A
  pure a s = (ok a, s)

  abbrev pub raise : Error → Action A
  raise e s = (err e, s)

  abbrev pub gets : (Session → A) → Action A
  gets f s = (ok (f s), s)

  abbrev pub lift : Result A → Action A
  lift r s = (r, s)

module _ {A B : Type 0} where
  abbrev pub continue : Result A → (A → Action B) → Action B
  continue (ok a) f s = f a s
  continue (err e) f s = (err e, s)

  infixl 5 ◌>>=◌ ◌>>◌
  abbrev pub ◌>>=◌ : Action A → (A → Action B) → Action B
  ◌>>=◌ m f s = let (r, s') = m s in continue r f s'

  abbrev pub ◌>>◌ : Action A → Action B → Action B
  m >> k = m >>= λ _. k

abbrev pub modify : (Session → Session) → Action (Unit {0})
modify f s = (ok tt, f s)

abbrev pub update_case : (RecoveryCase → RecoveryCase) → Action (Unit {0})
update_case f = modify (λ s. record s { case = f s.case })

-- `record_audit`, of an event about the locked case
abbrev pub case_event :
    AuditEventType → Option AuditState → Option AuditState → RecoveryCase → AuditEvent
case_event type previous new case = record {
  merchant_id = case.merchant_id;
  case_id = some case.id;
  event_type = type;
  previous_state = previous;
  new_state = new;
}

abbrev pub record_audit : AuditEventType → Option AuditState → Option AuditState → Action (Unit {0})
record_audit type previous new =
    modify (λ s. record s { audits = s.audits ++ case_event type previous new s.case ∷ [] })

-- `record_audit`, of an event that need not be about a case
abbrev pub record_event :
    ℕ → Option ℕ → AuditEventType → Option AuditState → Option AuditState → Action (Unit {0})
record_event merchant case type previous new = modify (λ s. record s {
  audits =
      s.audits
      ++ record {
        merchant_id = merchant;
        case_id = case;
        event_type = type;
        previous_state = previous;
        new_state = new;
      }
        ∷ [];
})

-- `try` and `except`: the outcome of the action is passed on, whichever it is.
abbrev pub handling : {A B : Type 0} → Action A → (Result A → Action B) → Action B
handling m f s = let (r, s') = m s in f r s'

-- `session.get(Payment, payment_id)`
abbrev pub find_payment : Session → ℕ → Option Payment
find_payment s id = find (λ (p : Payment). p.id == id) s.payments

-- `PaymentRepository.get_payment`
abbrev pub get_payment : Session → ℕ → ℕ → Option Payment
get_payment s merchant id =
    find (λ (p : Payment). p.merchant_id == merchant && p.id == id) s.payments

-- `RecoveryCaseRepository.list_that_counted_payment`, of the cases other than the locked one
abbrev pub others_that_counted : Session → ℕ → ℕ → List RecoveryCase
others_that_counted s merchant payment =
    keep
      (λ (c : RecoveryCase).
        c.merchant_id == merchant
        && same_id c.verified_payment_id (some payment)
        && ltb 0 c.amount_recovered)
      s.others
