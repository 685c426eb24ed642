-- ===== src/Ingestion/Once.antt =====
-- packages/domain/recoverai_domain/ingestion.py: an event of a provider is stored at most once.
use text.Mathlib.TextEquality.{eq_iff}
use revive_x.Prelude.{
  ℕ, ◌≡◌, refl, sym, ◌∙◌, ap, inl, inr, Bool, true, false, false≢true, ◌==◌, Bool-cases, Option,
  none, some, String, List, [], ◌∷◌, ◌++◌, exists_in, find, arith,
}
use revive_x.Errors.{Error, integrity_error, Result, ok, err, ok-injective}
use revive_x.Models.{Merchant}
use revive_x.Models.EventRows.{ProviderEvent, WebhookEvent}
use revive_x.Session.{Session, lift, ◌>>◌}
use revive_x.Ingestion.{
  IngestResult, ingest, ingest_valid, ingest_unless, insert_event, store_new, event_row,
  handle_duplicate, duplicate_result, should_requeue, is_event, find_event, text_of, validate,
  merchant_or_error, new_result,
}

-- What is done with an event that is there.
duplicate_lem :
    (accepts : Bool) (row : WebhookEvent) (s : Session)
    → (queued : Bool) × ((handle_duplicate accepts row s).0 ≡ ok (duplicate_result row queued))
      × ((handle_duplicate accepts row s).1.webhook_events ≡ s.webhook_events)
      × ((handle_duplicate accepts row s).1.merchants ≡ s.merchants)
unfolding handle_duplicate
duplicate_lem accepts row s = elim (Bool-cases (should_requeue row.status)) [
  | inr n ↦ rw n (false, refl, refl, refl)
  | inl y ↦ elim (Bool-cases accepts) [
    | inl a ↦ rw (y, a) (true, refl, refl, refl)
    | inr a ↦ rw (y, a) (false, refl, refl, refl)
  ]
]

stored_lem :
    (accepts : Bool) (row : WebhookEvent) (s : Session)
    → (queued : Bool) × ((store_new accepts row s).0 ≡ ok (new_result row queued))
      × ((store_new accepts row s).1.webhook_events ≡ s.webhook_events ++ row ∷ [])
      × ((store_new accepts row s).1.merchants ≡ s.merchants)
stored_lem true row s = (true, refl, refl, refl)
stored_lem false row s = (false, refl, refl, refl)

find-append :
    (test : WebhookEvent → Bool) (xs : List WebhookEvent) (y : WebhookEvent)
    → exists_in test xs ≡ false
    → test y ≡ true
    → find test (xs ++ y ∷ []) ≡ some y
find-append test [] y h t = rw t refl
find-append test (x ∷ xs) y h t = elim (Bool-cases (test x)) [
  | inl p ↦ absurd (false≢true (sym h ∙ rw p refl))
  | inr p ↦ rw p (find-append test xs y (sym (rw p refl) ∙ h) t)
]

absent :
    (test : WebhookEvent → Bool) (xs : List WebhookEvent)
    → exists_in test xs ≡ false
    → find test xs ≡ none
absent test [] h = refl
absent test (x ∷ xs) h = elim (Bool-cases (test x)) [
  | inl p ↦ absurd (false≢true (sym h ∙ rw p refl))
  | inr p ↦ rw p (absent test xs (sym (rw p refl) ∙ h))
]

same_row : (row : WebhookEvent) → is_event row.provider row.event_id row ≡ true
same_row row =
    rw ((eq_iff row.provider row.provider).1 refl) ((eq_iff row.event_id row.event_id).1 refl)

-- The event of the result is stored.
abbrev Stored : ProviderEvent → IngestResult → Session → Type 0
Stored event r s =
    (row : WebhookEvent) × (find_event s (text_of event.provider) (text_of event.event_id)
      ≡ some row)
    × (row.id ≡ r.webhook_event_id)
    × (row.merchant_id ≡ r.merchant_id)

raises : {A : Type 0} {e : Error} {a : A} → err e ≡ ok a → ⊥
raises h = ground arith

module _ (accepts : Bool) (event : ProviderEvent) (provider : String)
    (named : event.provider ≡ some provider) where
  duplicate-Stored :
      (found : WebhookEvent) (r : IngestResult) (s : Session)
      → find_event s (text_of event.provider) (text_of event.event_id) ≡ some found
      → (handle_duplicate accepts found s).0 ≡ ok r
      → Stored event r (handle_duplicate accepts found s).1
  duplicate-Stored found r s there returns =
      let (queued, result, same, _) = duplicate_lem accepts found s in
      let e : duplicate_result found queued ≡ r = ok-injective (sym result ∙ returns) in
      (found, rw same there, ap (λ q. q.webhook_event_id) e, ap (λ q. q.merchant_id) e)

  new-Stored :
      (merchant : ℕ) (r : IngestResult) (s : Session)
      → find_event s (text_of event.provider) (text_of event.event_id) ≡ none
      → (insert_event accepts event (event_row event merchant s) s).0 ≡ ok r
      → Stored event r (insert_event accepts event (event_row event merchant s) s).1
  new-Stored merchant r s missing returns =
      elim (Bool-cases (exists_in (is_event row.provider row.event_id) s.webhook_events)) [
        | inl h ↦ absurd (raises {e = integrity_error} (sym (rw (h, missing) refl) ∙ returns))
        | inr h ↦
            let (queued, result, events, _) = stored_lem accepts row s in
            let e : new_result row queued ≡ r =
              ok-injective (sym (rw (h, result) refl) ∙ returns) in
            rw (h, events) (row, there h, ap (λ q. q.webhook_event_id) e, ap (λ q. q.merchant_id) e)
      ]
    where
      row : WebhookEvent
      row = event_row event merchant s

      there :
          exists_in (is_event row.provider row.event_id) s.webhook_events ≡ false
          → find
              (is_event (text_of event.provider) (text_of event.event_id))
              (s.webhook_events ++ row ∷ [])
            ≡ some row
      there h =
          rw same_provider
            (find-append (is_event row.provider row.event_id) s.webhook_events row h (same_row row))
        where
          same_provider : text_of event.provider ≡ row.provider
          same_provider = rw named refl

  unless-Stored :
      (merchant : ℕ) (r : IngestResult) (s : Session)
      → (ingest_valid accepts event merchant s).0 ≡ ok r
      → Stored event r (ingest_valid accepts event merchant s).1
  unless-Stored merchant r s =
      by_event (find_event s (text_of event.provider) (text_of event.event_id)) refl
    where
      by_event :
          (found : Option WebhookEvent)
          → find_event s (text_of event.provider) (text_of event.event_id) ≡ found
          → (ingest_unless accepts event merchant found s).0 ≡ ok r
          → Stored event r (ingest_unless accepts event merchant found s).1
      by_event none missing = new-Stored merchant r s missing
      by_event (some row) there = duplicate-Stored row r s there

  ingested-Stored :
      (merchant : ℕ) (r : IngestResult) (s : Session)
      → (ingest accepts event merchant s).0 ≡ ok r
      → (validate event ≡ ok tt) × Stored event r (ingest accepts event merchant s).1
  unfolding ingest
  ingested-Stored merchant r s returns = by_validity (validate event) refl
    where
      by_merchant :
          (found : Option Merchant)
          → ((lift (merchant_or_error found) >> ingest_valid accepts event merchant) s).0 ≡ ok r
          → Stored event r
              ((lift (merchant_or_error found) >> ingest_valid accepts event merchant) s).1
      by_merchant none h = absurd (raises h)
      by_merchant (some m) h = unless-Stored merchant r s h

      by_validity :
          (valid : Result (Unit {0}))
          → validate event ≡ valid
          → (validate event ≡ ok tt) × Stored event r (ingest accepts event merchant s).1
      by_validity (err e) v = absurd (raises {e = e} (sym (rw v refl) ∙ returns))
      by_validity (ok tt) v = (
        v,
        rw v (
            by_merchant (find (λ (m : Merchant). m.id == merchant) s.merchants)
              (sym (rw v refl) ∙ returns)),
      )

taken_again :
    (again : Bool) (event : ProviderEvent) (other : ℕ) (m : Merchant) (row : WebhookEvent)
    (s : Session)
    → validate event ≡ ok tt
    → find (λ (m : Merchant). m.id == other) s.merchants ≡ some m
    → find_event s (text_of event.provider) (text_of event.event_id) ≡ some row
    → ingest again event other s ≡ handle_duplicate again row s
unfolding ingest
taken_again again event other m row s valid known there = rw (valid, known, there) refl

-- An event of a named provider that has been taken in is not taken in again: on the session after
-- it, the same event, for the same or another merchant that there is, and with a queue that accepts
-- or fails, is a duplicate of the row that was stored, and no row is added.
pub ingest-once :
    (accepts again : Bool) (event : ProviderEvent) (provider : String) (merchant other : ℕ)
    (m : Merchant) (s : Session) (r : IngestResult)
    → event.provider ≡ some provider
    → (ingest accepts event merchant s).0 ≡ ok r
    → let s' = (ingest accepts event merchant s).1 in
      find (λ (m : Merchant). m.id == other) s'.merchants ≡ some m
      → (second : IngestResult) × ((ingest again event other s').0 ≡ ok second)
        × (second.duplicate ≡ true)
        × (second.webhook_event_id ≡ r.webhook_event_id)
        × (second.merchant_id ≡ r.merchant_id)
        × ((ingest again event other s').1.webhook_events ≡ s'.webhook_events)
ingest-once accepts again event provider merchant other m s r named returns known =
    let s' = (ingest accepts event merchant s).1 in
    let (valid, (row, there, id, own)) =
      ingested-Stored accepts event provider named merchant r s returns in
    let (queued, result, events, _) = duplicate_lem again row s' in
    let second : ingest again event other s' ≡ handle_duplicate again row s' =
      taken_again again event other m row s' valid known there in
    (
      duplicate_result row queued,
      ap (λ x. x.0) second ∙ result,
      refl,
      id,
      own,
      ap (λ x. x.1.webhook_events) second ∙ events,
    )
