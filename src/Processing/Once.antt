-- ===== src/Processing/Once.antt =====
-- packages/domain/recoverai_domain/processing.py: an event that was processed is not processed again.
use mathlib.Core.Option.{some-injective}
use revive_x.Prelude.{
  ℕ, ◌≡◌, refl, sym, ap, subst, ◌∙◌, Bool, true, false, inl, inr, ◌==◌, if◌then◌else◌, Bool-cases,
  Option, none, some, List, [], ◌∷◌, find, map, String, arith,
}
use revive_x.Prelude.Tests.{==→eq}
use revive_x.Prelude.Lists.{find-passes}
use revive_x.Enums.{WebhookEventStatus}
use revive_x.Errors.{Result, ok, err}
use revive_x.Models.EventRows.{WebhookEvent, Job}
use revive_x.Session.{Session, Action, continue, lift, ◌>>=◌, ◌>>◌, handling}
use revive_x.Session.Change.{after_bind}
use revive_x.Ingestion.{require_merchant}
use revive_x.Normalize.{NormalizedEvent, normalize_provider_event}
use revive_x.Processing.{
  ProcessStatus, ProcessResult, already_processed, dead_letter, result_of, find_webhook,
  update_webhook, set_status, dispatch, finish_event, process_body, on_failure, failure_of, settle,
  processed_event, process_row, process_found, process_webhook_event, is_closed_event,
}
use revive_x.Processing.Payments.{Digest}
use revive_x.Processing.Laws.{IsEventRelation}
use revive_x.Processing.Keeps.{dispatch-Within}

SameEvents : Session → Session → Type 0
SameEvents s s' = s'.webhook_events ≡ s.webhook_events

SameEvents-IsEventRelation : IsEventRelation SameEvents
unfolding SameEvents
SameEvents-IsEventRelation = record {
  on_same = λ s. refl;
  on_both = λ s t u p q. q ∙ p;
  on_log = λ s s' (_, _, _, same, _). same;
  on_payments = λ s ps moved. refl;
  on_case = λ s payment closed. refl;
}

dispatch-webhook_events :
    (uuid : Digest) (row : WebhookEvent) (event : NormalizedEvent) (s : Session)
    → (dispatch uuid row event s).1.webhook_events ≡ s.webhook_events
unfolding SameEvents
dispatch-webhook_events uuid row event = dispatch-Within SameEvents-IsEventRelation uuid row event

-- The event is stored with its processing at an end.
abbrev pub Closed : Session → ℕ → Type 0
Closed s id =
    (row : WebhookEvent) × (find_webhook s id ≡ some row) × (is_closed_event row.status ≡ true)

find-head :
    {A : Type 0} (test : A → Bool) (x : A) (xs : List A)
    → test x ≡ true
    → find test (x ∷ xs) ≡ some x
find-head test x xs h = rw h refl

abbrev Stored : Session → ℕ → Type 0
Stored s id = (row : WebhookEvent) × (find_webhook s id ≡ some row)

-- An update of the row with the id is found under the id.
Stored-update :
    (f : WebhookEvent → WebhookEvent) (same : (e : WebhookEvent) → (f e).id ≡ e.id) (id : ℕ)
    (rows : List WebhookEvent) (row : WebhookEvent)
    → find (λ (e : WebhookEvent). e.id == id) rows ≡ some row
    → find
        (λ (e : WebhookEvent). e.id == id)
        (map (λ (e : WebhookEvent). if e.id == id then f e else e) rows)
      ≡ some (f row)
Stored-update f same id [] row found = ground arith
Stored-update f same id (x ∷ xs) row found = elim (Bool-cases (x.id == id)) [
  | inl h ↦ rw h (
      find-head (λ (e : WebhookEvent). e.id == id) (f x) _ (ap (λ i. i == id) (same x) ∙ h)
      ∙ ap (λ y. some (f y)) (some-injective x row (rw h at found)))
  | inr h ↦ rw (h, h) (Stored-update f same id xs row (rw h at found))
]

ok_part :
    {A B : Type 0} (m : Action A) (f : A → Action B) (s : Session) (b : B)
    → ((m >>= f) s).0 ≡ ok b
    → (a : A) × ((m >>= f) s ≡ f a (m s).1)
ok_part {A} {B} m f s b returns = by_result (m s).0 returns
  where
    by_result :
        (r : Result A)
        → (continue r f (m s).1).0 ≡ ok b
        → (a : A) × (continue r f (m s).1 ≡ f a (m s).1)
    by_result (ok a) h = (a, refl)
    by_result (err e) h = ground arith

same_session :
    {A B : Type 0} (r : Result A) (q : Result B) (s : Session) → (continue r (λ _. lift q) s).1 ≡ s
same_session (ok a) q s = refl
same_session (err e) q s = refl

module _ (uuid : Digest) where
  finish_event-Closed :
      (row : WebhookEvent) (followups : List Job) (s : Session) (x : WebhookEvent)
      → find_webhook s row.id ≡ some x
      → Closed (finish_event row followups s).1 row.id
  finish_event-Closed row followups s x found = (
    processed_event s.now x,
    Stored-update (processed_event s.now) (λ e. refl) row.id s.webhook_events x found,
    refl,
  )

  dispatch-Closed :
      (row : WebhookEvent) (event : NormalizedEvent) (s : Session) (x : WebhookEvent)
      (result : ProcessResult)
      → find_webhook s row.id ≡ some x
      → ((dispatch uuid row event >>= finish_event row) s).0 ≡ ok result
      → Closed ((dispatch uuid row event >>= finish_event row) s).1 row.id
  dispatch-Closed row event s x result found returns =
      let (followups, sent) =
        ok_part (dispatch uuid row event) (finish_event row) s result returns in
      subst (λ (p : Result ProcessResult × Session). Closed p.1 row.id) (sym sent)
        (finish_event-Closed row followups (dispatch uuid row event s).1 x (
          ap (find (λ (e : WebhookEvent). e.id == row.id))
            (dispatch-webhook_events uuid row event s)
          ∙ found))

  process_body-Closed :
      (row : WebhookEvent) (s : Session) (x : WebhookEvent) (result : ProcessResult)
      → find_webhook s row.id ≡ some x
      → (process_body uuid row s).0 ≡ ok result
      → Closed (process_body uuid row s).1 row.id
  process_body-Closed row s x result found returns =
      let read = require_merchant row.merchant_id >> lift (normalize_provider_event row) in
      let (event, went) =
        ok_part read (λ event. dispatch uuid row event >>= finish_event row) s result returns in
      subst (λ (p : Result ProcessResult × Session). Closed p.1 row.id) (sym went)
        (dispatch-Closed row event (read s).1 x result
          (subst (λ t. find_webhook t row.id ≡ some x)
            (sym (
              same_session (require_merchant row.merchant_id s).0 (normalize_provider_event row) s))
            found)
          (ap (λ (p : Result ProcessResult × Session). p.0) (sym went) ∙ returns))

  process_body-Stored :
      (row : WebhookEvent) (s : Session) (x : WebhookEvent)
      → find_webhook s row.id ≡ some x
      → Stored (process_body uuid row s).1 row.id
  process_body-Stored row s x found =
      let read = require_merchant row.merchant_id >> lift (normalize_provider_event row) in
      let same =
        same_session (require_merchant row.merchant_id s).0 (normalize_provider_event row) s in
      let found' : find_webhook (read s).1 row.id ≡ some x =
        subst (λ t. find_webhook t row.id ≡ some x) (sym same) found in
      after_bind (λ t. Stored t row.id) read (λ event. dispatch uuid row event >>= finish_event row)
        s (x, found')
        (λ event.
          let kept =
            ap (find (λ (e : WebhookEvent). e.id == row.id))
              (dispatch-webhook_events uuid row event (read s).1) in
          after_bind (λ t. Stored t row.id) (dispatch uuid row event) (finish_event row) (read s).1
            (x, kept ∙ found')
            (λ followups.
              let (y, stored, _) =
                finish_event-Closed row followups (dispatch uuid row event (read s).1).1 x
                  (kept ∙ found') in
              (y, stored)))

  -- A successful try ends it, and an exception that is not to be retried does.
  settle-Closed :
      (row : WebhookEvent) (r : Result ProcessResult) (s : Session) (x : WebhookEvent)
      (result : ProcessResult)
      → find_webhook s row.id ≡ some x
      → ((value : ProcessResult) → r ≡ ok value → Closed s row.id)
      → (settle row r s).0 ≡ ok result
      → Closed (settle row r s).1 row.id
  settle-Closed row (ok value) s x result found closed returns = closed value refl
  settle-Closed row (err e) s x result found closed returns = raised (failure_of e) returns
    where
      raised :
          (failure : Option String × Bool)
          → (on_failure row e failure s).0 ≡ ok result
          → Closed (on_failure row e failure s).1 row.id
      raised (code, true) h = (
        record x { status = WebhookEventStatus.dead_letter; error_code = code },
        Stored-update
            (λ (e : WebhookEvent). record e {
              status = WebhookEventStatus.dead_letter;
              error_code = code;
            })
            (λ e. refl) row.id s.webhook_events x found,
        refl,
      )
      raised (code, false) h = ground arith

  attempt-Closed :
      (row : WebhookEvent) (s : Session) (result : ProcessResult)
      → find_webhook s row.id ≡ some row
      → ((update_webhook row.id (set_status WebhookEventStatus.processing)
            >> handling (process_body uuid row) (settle row))
          s).0
        ≡ ok result
      → Closed
          ((update_webhook row.id (set_status WebhookEventStatus.processing)
              >> handling (process_body uuid row) (settle row))
            s).1
          row.id
  attempt-Closed row s result found returns =
      let s' = (update_webhook row.id (set_status WebhookEventStatus.processing) s).1 in
      let begun : WebhookEvent = set_status WebhookEventStatus.processing row in
      let found' : find_webhook s' row.id ≡ some begun =
        Stored-update (set_status WebhookEventStatus.processing) (λ e. refl) row.id s.webhook_events
          row found in
      let (y, kept) = process_body-Stored row s' begun found' in
      settle-Closed row (process_body uuid row s').0 (process_body uuid row s').1 y result kept
        (λ value h. process_body-Closed row s' begun value found' h) returns

  process_row-Closed :
      (row : WebhookEvent) (status : WebhookEventStatus) (s : Session) (result : ProcessResult)
      → row.status ≡ status
      → find_webhook s row.id ≡ some row
      → (process_row uuid row status s).0 ≡ ok result
      → Closed (process_row uuid row status s).1 row.id
  process_row-Closed row WebhookEventStatus.processed s result is found returns =
      (row, found, rw is refl)
  process_row-Closed row WebhookEventStatus.dead_letter s result is found returns =
      (row, found, rw is refl)
  process_row-Closed row WebhookEventStatus.received s result is found returns =
      attempt-Closed row s result found returns
  process_row-Closed row WebhookEventStatus.processing s result is found returns =
      attempt-Closed row s result found returns
  process_row-Closed row WebhookEventStatus.failed s result is found returns =
      attempt-Closed row s result found returns

  find_webhook-id :
      (s : Session) (id : ℕ) (row : WebhookEvent) → find_webhook s id ≡ some row → row.id ≡ id
  find_webhook-id s id row found =
      ==→eq row.id id (find-passes (λ (e : WebhookEvent). e.id == id) s.webhook_events row found)

  settled_again :
      (id : ℕ) (s : Session)
      → Closed s id
      → (t : ProcessStatus) × (process_webhook_event uuid id s ≡ (ok (result_of t []), s))
  unfolding process_webhook_event
  settled_again id s (row, found, is) = by_status row.status refl is
    where
      by_status :
          (status : WebhookEventStatus)
          → row.status ≡ status
          → is_closed_event status ≡ true
          → (t : ProcessStatus) × (process_found uuid (find_webhook s id) s
              ≡ (ok (result_of t []), s))
      by_status WebhookEventStatus.processed e h = (already_processed, rw (found, e) refl)
      by_status WebhookEventStatus.dead_letter e h = (dead_letter, rw (found, e) refl)
      by_status WebhookEventStatus.received e h = ground arith
      by_status WebhookEventStatus.processing e h = ground arith
      by_status WebhookEventStatus.failed e h = ground arith

  first-Closed :
      (id : ℕ) (s : Session) (result : ProcessResult)
      → (process_webhook_event uuid id s).0 ≡ ok result
      → Closed (process_webhook_event uuid id s).1 id
  unfolding process_webhook_event
  first-Closed id s result returns = by_found (find_webhook s id) refl returns
    where
      by_found :
          (found : Option WebhookEvent)
          → find_webhook s id ≡ found
          → (process_found uuid found s).0 ≡ ok result
          → Closed (process_found uuid found s).1 id
      by_found none e h = ground arith
      by_found (some row) e h =
          let same = find_webhook-id s id row e in
          subst (Closed (process_row uuid row row.status s).1) same (
            process_row-Closed row row.status s result refl
              (subst (λ i. find_webhook s i ≡ some row) (sym same) e) h)

-- A provider event is processed once: after a processing that returns, without raising, processing
-- the event again returns that it was processed already or is a dead letter, asks for no job, and
-- leaves the whole session as it is.
pub process_webhook_event-once :
    (uuid : Digest) (id : ℕ) (s : Session) (result : ProcessResult)
    → (process_webhook_event uuid id s).0 ≡ ok result
    → (t : ProcessStatus) × (process_webhook_event uuid id (process_webhook_event uuid id s).1
        ≡ (ok (result_of t []), (process_webhook_event uuid id s).1))
process_webhook_event-once uuid id s result returns =
    settled_again uuid id (process_webhook_event uuid id s).1
      (first-Closed uuid id s result returns)
