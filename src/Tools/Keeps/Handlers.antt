-- ===== src/Tools/Keeps/Handlers.antt =====
-- packages/domain/recoverai_domain/tools/handlers.py: what the handlers and the outcome of a tool
-- may do to the session.
use revive_x.Prelude.{
  ◌+◌, ℕ, refl, Bool, inl, inr, ◌==◌, if◌then◌else◌, Option, none, some, String, str_eq, [], ◌∷◌,
  ◌++◌, exists_in, Bool-cases,
}
use revive_x.Prelude.Int.{ℤ}
use revive_x.Enums.{RecoveryCaseStatus}
use revive_x.Errors.{Result}
use revive_x.Models.{Payment, Customer}
use revive_x.Models.ToolRows.{PaymentAttempt, PaymentSnapshot, PaymentLinkSnapshot}
use revive_x.ToolWords.{Tool}
use revive_x.Session.{Session, pure, lift, raise, modify, gets, ◌>>◌}
use revive_x.Session.Change.{Extends-refl, Within, Within-if, Within-then, Within-bind}
use revive_x.Transitions.{transition_case}
use revive_x.Tools.Provider.{Environment, Reply, answered, not_found, provider_error}
use revive_x.Tools.Handlers.{handlers}
use revive_x.Ingestion.{ingest}
use revive_x.Ingestion.Keeps.{ingest-Within}
use revive_x.Tools.Handlers.Results.{HandlerContext}
use revive_x.Tools.Handlers.Retry.{
  insert_payment, insert_attempt, ingest_with, ingest_snapshot, build_provider_event, record_retry,
  retry_with, retry_payment, next_attempt_number, attempt_or, payment_request, new_payment,
  attempt_row, retry_result,
}
use revive_x.Money.{of_cents, as_money}
use revive_x.Models.ToolRows.{Cart}
use revive_x.Tools.Handlers.Reads.{find_cart}
use revive_x.Tools.Handlers.Effects.{
  link_payment, link_with, link_request, send_to, set_discount, raise_discount, discount_cart,
  discount_amount, read_decimal, read_time, handle_offer_discount, handle_schedule_retry,
}
use revive_x.Tools.Handlers.Outcome.{
  only_if, is_before_execution, is_executing, is_policy_check, may_leave, complete_if_executing,
  complete_action, apply_case_outcome,
}
use revive_x.Tools.Keeps.Tables.{
  IsToolRelation, service_laws, Within-only_if, on_rows, PaymentsKept-append, PaymentsKept-map,
  SameFacts,
}

linked :
    (link : String) (id : ℕ) (p : Payment)
    → SameFacts p (if p.id == id then record p { provider_payment_link_id = some link } else p)
linked link id p = elim (Bool-cases (p.id == id)) [
  | inl h ↦ rw h (refl, refl, refl, refl)
  | inr h ↦ rw h (refl, refl, refl, refl)
]

module _ {R : Session → Session → Type 0} (laws : IsToolRelation R) where
  Within-insert_payment : (payment : Payment) → Within R (insert_payment payment)
  Within-insert_payment payment s =
      elim (Bool-cases (exists_in (λ (p : Payment). p.id == payment.id) s.payments)) [
        | inl h ↦ rw h (laws.on_same s)
        | inr h ↦ rw h (
            laws.on_tables s (record s { payments = s.payments ++ payment ∷ [] })
              (
                refl,
                Extends-refl s.audits,
                refl,
                PaymentsKept-append s.payments payment,
                refl,
                refl,
              ))
      ]

  Within-insert_attempt : (row : PaymentAttempt) → Within R (insert_attempt row)
  Within-insert_attempt row s =
      Within-if (service_laws laws) _ (raise _)
        (modify (λ t. record t { payment_attempts = t.payment_attempts ++ row ∷ [] }))
        (λ t. laws.on_same t) (λ t. on_rows laws t _ refl refl refl refl refl refl) s

  Within-ingest :
      (env : Environment) (snapshot : PaymentSnapshot) (queue : Option Bool)
      → Within R (ingest_with env snapshot queue)
  Within-ingest env snapshot none s = laws.on_same s
  Within-ingest env snapshot (some accepts) s =
      Within-if (service_laws laws) (str_eq snapshot.provider "SIMULATOR")
        (ingest_snapshot env snapshot accepts) (pure tt)
        (λ t.
          Within-then (service_laws laws)
            (ingest accepts (build_provider_event env snapshot t.now) t.case.merchant_id) (pure tt)
            (ingest-Within (service_laws laws) accepts (build_provider_event env snapshot t.now)
              t.case.merchant_id)
            (λ u. laws.on_same u) t)
        (λ t. laws.on_same t) s

  Within-link : (payment : Option Payment) (link : String) → Within R (link_payment payment link)
  Within-link none link s = laws.on_same s
  Within-link (some payment) link s = laws.on_tables s (link_payment (some payment) link s).1 (
    refl,
    Extends-refl s.audits,
    refl,
    PaymentsKept-map
        (λ (p : Payment).
          if p.id == payment.id then record p { provider_payment_link_id = some link } else p)
        (linked link payment.id) s.payments,
    refl,
    refl,
  )

  Within-link_with :
      (env : Environment) (ctx : HandlerContext) (reply : Reply PaymentLinkSnapshot)
      → Within R (link_with env ctx reply)
  Within-link_with env ctx (answered snapshot) s =
      Within-then (service_laws laws) (link_payment ctx.payment snapshot.provider_payment_link_id) _
        (Within-link ctx.payment snapshot.provider_payment_link_id) (λ t. laws.on_same t) s
  Within-link_with env ctx (not_found code message) s = laws.on_same s
  Within-link_with env ctx (provider_error code message) s = laws.on_same s

  Within-send :
      (env : Environment) (ctx : HandlerContext) (customer : Option Customer)
      → Within R (send_to env ctx customer)
  Within-send env ctx none s = laws.on_same s
  Within-send env ctx (some customer) s = on_rows laws s _ refl refl refl refl refl refl

  Within-lift : {A : Type 0} (r : Result A) → Within R (lift r)
  Within-lift r s = laws.on_same s

  Within-raise_discount : (amount : ℕ) (cart : Option Cart) → Within R (raise_discount amount cart)
  Within-raise_discount amount none s = laws.on_same s
  Within-raise_discount amount (some cart) s =
      Within-bind (service_laws laws) (lift (as_money (of_cents (cart.discount + amount))))
        (set_discount cart.id) (Within-lift (as_money (of_cents (cart.discount + amount))))
        (λ total t. on_rows laws t _ refl refl refl refl refl refl) s

  Within-discount : (cart : Option ℕ) (amount : ℕ) → Within R (discount_cart cart amount)
  Within-discount cart amount s = Within-raise_discount amount (find_cart s cart) s

  Within-offer : (ctx : HandlerContext) → Within R (handle_offer_discount ctx)
  Within-offer ctx s =
      Within-bind (service_laws laws) (lift (read_decimal ctx.payload.discount_percent)) _
        (Within-lift (read_decimal ctx.payload.discount_percent))
        (λ percent.
          Within-bind (service_laws laws) (lift (discount_amount s.case.amount_at_risk percent)) _
            (Within-lift (discount_amount s.case.amount_at_risk percent))
            (λ amount.
              Within-then (service_laws laws) (discount_cart s.case.cart_id amount) (pure _)
                (Within-discount s.case.cart_id amount) (λ t. laws.on_same t)))
        s

  Within-schedule : (ctx : HandlerContext) → Within R (handle_schedule_retry ctx)
  Within-schedule ctx =
      Within-bind (service_laws laws) (lift (read_time ctx.payload.scheduled_for)) _
        (Within-lift (read_time ctx.payload.scheduled_for)) (λ time s. laws.on_same s)

  module _ (env : Environment) where
    Within-record_retry :
        (original : Payment) (attempt : ℤ) (snapshot : PaymentSnapshot) (payment : Payment)
        → Within R (record_retry env original attempt snapshot payment)
    Within-record_retry original attempt snapshot payment =
        let insert = insert_payment payment in
        let ingest = ingest_with env snapshot env.queue in
        let attempt_made = insert_attempt (attempt_row original.id attempt snapshot) in
        Within-then (service_laws laws) (insert >> ingest >> attempt_made)
          (gets (retry_result original payment attempt snapshot))
          (Within-then (service_laws laws) (insert >> ingest) attempt_made
            (Within-then (service_laws laws) insert ingest (Within-insert_payment payment)
              (Within-ingest env snapshot env.queue))
            (Within-insert_attempt (attempt_row original.id attempt snapshot)))
          (λ s. laws.on_same s)

    Within-retry_with :
        (original : Payment) (attempt : ℤ) (reply : Reply PaymentSnapshot)
        → Within R (retry_with env original attempt reply)
    Within-retry_with original attempt (answered snapshot) s =
        Within-record_retry original attempt snapshot
          (new_payment env original snapshot s.case.merchant_id) s
    Within-retry_with original attempt (not_found code message) s = laws.on_same s
    Within-retry_with original attempt (provider_error code message) s = laws.on_same s

    Within-retry :
        (ctx : HandlerContext) (payment : Option Payment) → Within R (retry_payment env ctx payment)
    Within-retry ctx none s = laws.on_same s
    Within-retry ctx (some original) s =
        let attempt = attempt_or ctx.payload.attempt_number (next_attempt_number s original.id) in
        Within-retry_with original attempt
          (env.create_payment (payment_request ctx.customer attempt original s)) s

    pub Within-handlers : (tool : Tool) (ctx : HandlerContext) → Within R (handlers env tool ctx)
    unfolding handlers
    Within-handlers Tool.retry_payment ctx = Within-retry ctx ctx.payment
    Within-handlers Tool.schedule_retry ctx = Within-schedule ctx
    Within-handlers Tool.create_payment_link ctx =
        λ s. Within-link_with env ctx (env.create_payment_link (link_request ctx s)) s
    Within-handlers Tool.send_notification ctx = Within-send env ctx ctx.customer
    Within-handlers Tool.offer_discount ctx = Within-offer ctx
    Within-handlers _ ctx = λ s. laws.on_same s

  Within-complete : Within R complete_action
  Within-complete s =
      Within-then (service_laws laws)
        (only_if (is_before_execution s.case.status) (transition_case RecoveryCaseStatus.executing))
        complete_if_executing
        (Within-only_if laws (is_before_execution s.case.status) _
          (laws.on_target RecoveryCaseStatus.executing refl))
        (λ t.
          Within-only_if laws (is_executing t.case.status) _
            (laws.on_target RecoveryCaseStatus.action_completed refl) t)
        s

  pub Within-outcome : (target : Option RecoveryCaseStatus) → Within R (apply_case_outcome target)
  unfolding apply_case_outcome
  Within-outcome none s = laws.on_same s
  Within-outcome (some RecoveryCaseStatus.action_completed) s = Within-complete s
  Within-outcome (some RecoveryCaseStatus.retry_scheduled) s =
      Within-only_if laws (is_policy_check s.case.status) _
        (laws.on_target RecoveryCaseStatus.retry_scheduled refl) s
  Within-outcome (some RecoveryCaseStatus.escalated) s =
      Within-only_if laws (may_leave s.case.status) _
        (laws.on_target RecoveryCaseStatus.escalated refl) s
  Within-outcome (some RecoveryCaseStatus.stopped) s =
      Within-only_if laws (may_leave s.case.status) _
        (laws.on_target RecoveryCaseStatus.stopped refl) s
  Within-outcome (some _) s = laws.on_same s
