-- ===== src/Ingestion/Keeps.antt =====
-- packages/domain/recoverai_domain/ingestion.py: storing an event leaves the case and the tables of
-- the services, and adds to the log.
use revive_x.Prelude.{refl, Bool, true, false, Option, none, some, ℕ, exists_in}
use revive_x.Models.EventRows.{ProviderEvent, WebhookEvent, Job}
use revive_x.Session.{Session, lift, ◌>>◌, pure, record_event}
use revive_x.Session.Change.{
  Extends-refl, Within, IsServiceRelation, Within-then, Within-bind, Within-if,
}
use revive_x.Ingestion.{
  ingest, ingest_valid, ingest_unless, insert_event, store_new, add_event, event_row, enqueue,
  handle_duplicate, requeue, should_requeue, on_conflict, is_event, find_event, text_of, validate,
  require_merchant,
}

module _ {R : Session → Session → Type 0} (laws : IsServiceRelation R) where
  Within-enqueue : (accepts : Bool) (job : Job) → Within R (enqueue accepts job)
  Within-enqueue true job s =
      laws.on_kept s (enqueue true job s).1 (refl, Extends-refl s.audits, refl, refl, refl, refl)
  Within-enqueue false job s = laws.on_same s

  Within-duplicate : (accepts : Bool) (row : WebhookEvent) → Within R (handle_duplicate accepts row)
  unfolding handle_duplicate
  Within-duplicate accepts row =
      Within-bind laws (record_event _ _ _ _ _ >> requeue accepts row) _
        (Within-then laws (record_event _ _ _ _ _) (requeue accepts row)
          (λ s. laws.on_kept s _ (refl, (_, refl), refl, refl, refl, refl))
          (Within-if laws (should_requeue row.status)
            (enqueue accepts (Job.process_provider_event row.id)) (pure false)
            (Within-enqueue accepts (Job.process_provider_event row.id)) (λ s. laws.on_same s)))
        (λ queued s. laws.on_same s)

  Within-store : (accepts : Bool) (row : WebhookEvent) → Within R (store_new accepts row)
  Within-store accepts row =
      Within-bind laws (add_event row >> enqueue accepts (Job.process_provider_event row.id)) _
        (Within-then laws (add_event row) (enqueue accepts (Job.process_provider_event row.id))
          (λ s. laws.on_kept s (add_event row s).1 (refl, (_, refl), refl, refl, refl, refl))
          (Within-enqueue accepts (Job.process_provider_event row.id)))
        (λ queued s. laws.on_same s)

  Within-conflict :
      (accepts : Bool) (found : Option WebhookEvent) → Within R (on_conflict accepts found)
  Within-conflict accepts none s = laws.on_same s
  Within-conflict accepts (some row) s = Within-duplicate accepts row s

  Within-insert :
      (accepts : Bool) (event : ProviderEvent) (row : WebhookEvent)
      → Within R (insert_event accepts event row)
  Within-insert accepts event row s =
      Within-if laws (exists_in (is_event row.provider row.event_id) s.webhook_events)
        (on_conflict accepts (find_event s (text_of event.provider) (text_of event.event_id)))
        (store_new accepts row) (Within-conflict accepts _) (Within-store accepts row) s

  Within-unless :
      (accepts : Bool) (event : ProviderEvent) (merchant : ℕ) (found : Option WebhookEvent)
      → Within R (ingest_unless accepts event merchant found)
  Within-unless accepts event merchant (some row) s = Within-duplicate accepts row s
  Within-unless accepts event merchant none s =
      Within-insert accepts event (event_row event merchant s) s

  pub ingest-Within :
      (accepts : Bool) (event : ProviderEvent) (merchant : ℕ)
      → Within R (ingest accepts event merchant)
  unfolding ingest
  ingest-Within accepts event merchant =
      Within-then laws (lift (validate event) >> require_merchant merchant)
        (ingest_valid accepts event merchant)
        (Within-then laws (lift (validate event)) (require_merchant merchant) (λ s. laws.on_same s)
          (λ s. laws.on_same s))
        (λ s.
          Within-unless accepts event merchant
            (find_event s (text_of event.provider) (text_of event.event_id)) s)
