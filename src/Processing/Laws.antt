-- ===== src/Processing/Laws.antt =====
-- packages/domain/recoverai_domain/processing.py: relations between sessions that the processing of an
-- event stays within.
use revive_x.Prelude.{
  ◌≡◌, refl, ◌∙◌, Bool, true, false, inl, inr, ◌||◌, if◌then◌else◌, Bool-cases, List, [], ◌∷◌, ◌++◌,
  map, Memᴰ, arith,
}
use revive_x.Prelude.Lists.{Memᴰ-append}
use revive_x.Enums.{PaymentStatus}
use revive_x.Errors.{Result, ok, err}
use revive_x.Models.{Payment}
use revive_x.Session.{Session, Action, continue, ◌>>=◌, ◌>>◌}
use revive_x.Session.Change.{Extends, Within}
use revive_x.Normalize.{DomainPaymentEvent}
use revive_x.Processing.Payments.{
  is_captured, is_refunded, is_failed, is_earlier, is_status_downgrade, updated_payment,
}
use revive_x.Processing.Cases.{list_open_for_payment, new_case, add_case}

-- Money that came in: the payment is captured, or was and has been refunded.
abbrev pub was_paid : PaymentStatus → Bool
was_paid status = is_captured status || is_refunded status

-- The statuses that the handlers give to a payment.
abbrev pub is_reported : PaymentStatus → Bool
is_reported status = is_earlier status || is_captured status || is_refunded status

abbrev pub Moves : Payment → Payment → Type 0
Moves p q =
    (q.id ≡ p.id)
    × (q.merchant_id ≡ p.merchant_id)
    × (q.customer_id ≡ p.customer_id)
    × (was_paid p.status ≡ true → was_paid q.status ≡ true)

-- Every payment is still there, and none that was paid falls back.
abbrev pub PaymentsMoved : List Payment → List Payment → Type 0
PaymentsMoved ps qs = (p : Payment) → Memᴰ p ps → (q : Payment) × Memᴰ q qs × Moves p q

pub PaymentsMoved-refl : (ps : List Payment) → PaymentsMoved ps ps
PaymentsMoved-refl ps p m = (p, m, (refl, refl, refl, λ h. h))

pub PaymentsMoved-trans :
    (ps qs rs : List Payment) → PaymentsMoved ps qs → PaymentsMoved qs rs → PaymentsMoved ps rs
PaymentsMoved-trans ps qs rs f g p m =
    let (q, mq, (a, b, c, d)) = f p m in
    let (r, mr, (a', b', c', d')) = g q mq in (r, mr, (a' ∙ a, b' ∙ b, c' ∙ c, λ h. d' (d h)))

pub PaymentsMoved-append : (ps : List Payment) (q : Payment) → PaymentsMoved ps (ps ++ q ∷ [])
PaymentsMoved-append ps q p m = (p, Memᴰ-append ps (q ∷ []) p m, (refl, refl, refl, λ h. h))

pub PaymentsMoved-map :
    (f : Payment → Payment) (moves : (p : Payment) → Moves p (f p)) (ps : List Payment)
    → PaymentsMoved ps (map f ps)
PaymentsMoved-map f moves [] p m = elim m [ ]
PaymentsMoved-map f moves (x ∷ xs) p (Memᴰ.head e) = (f x, Memᴰ.head refl, rw e (moves x))
PaymentsMoved-map f moves (x ∷ xs) p (Memᴰ.tail m) =
    let (q, mq, facts) = PaymentsMoved-map f moves xs p m in (q, Memᴰ.tail mq, facts)

paid_stays :
    (current incoming : PaymentStatus)
    → is_reported incoming ≡ true
    → is_captured incoming ≡ false
    → was_paid current ≡ true
    → was_paid (if is_status_downgrade current incoming then current else incoming) ≡ true
unfolding is_status_downgrade
paid_stays current incoming reported other paid = ground arith

not_failed : (incoming : PaymentStatus) → is_failed incoming ≡ true → is_captured incoming ≡ false
not_failed incoming h = ground arith

-- An event moves the payment that it is about, and does not take back what was paid.
pub updated_payment-Moves :
    (event : DomainPaymentEvent) (status : PaymentStatus) (p : Payment)
    → is_reported status ≡ true
    → Moves p (updated_payment event status p)
unfolding updated_payment
updated_payment-Moves event status p reported = elim (Bool-cases (is_failed status)) [
  | inl f ↦ rw f (refl, refl, refl, paid_stays p.status status reported (not_failed status f))
  | inr f ↦ elim (Bool-cases (is_captured status)) [
    | inl c ↦ rw (f, c) (refl, refl, refl, λ _. refl)
    | inr c ↦ rw (f, c) (refl, refl, refl, paid_stays p.status status reported c)
  ]
]

-- Only the log, the attempts and the queue are written to.
abbrev pub Logged : Session → Session → Type 0
Logged s s' =
    (s'.case ≡ s.case)
    × (s'.others ≡ s.others)
    × (s'.payments ≡ s.payments)
    × (s'.webhook_events ≡ s.webhook_events)
    × Extends s.audits s'.audits

pub record IsEventRelation (R : Session → Session → Type 0) : Type 0 where
  pub on_same : (s : Session) → R s s
  pub on_both : (s t u : Session) → R s t → R t u → R s u
  pub on_log : (s s' : Session) → Logged s s' → R s s'
  pub on_payments :
      (s : Session) (ps : List Payment)
      → PaymentsMoved s.payments ps
      → R s (record s { payments = ps })
  pub on_case :
      (s : Session) (payment : Payment)
      → list_open_for_payment s payment.merchant_id payment.id ≡ []
      → R s (add_case (new_case payment s) s).1

module _ {R : Session → Session → Type 0} (laws : IsEventRelation R) {A B : Type 0} where
  pub along_result :
      (r : Result A) (f : A → Action B) → ((a : A) → Within R (f a)) → Within R (continue r f)
  along_result (ok a) f k s = k a s
  along_result (err e) f k s = laws.on_same s

  pub along :
      (m : Action A) (f : A → Action B)
      → Within R m
      → ((a : A) → Within R (f a))
      → Within R (m >>= f)
  along m f p k s = laws.on_both s (m s).1 ((m >>= f) s).1 (p s) (along_result (m s).0 f k (m s).1)

  pub along_then : (m : Action A) (k : Action B) → Within R m → Within R k → Within R (m >> k)
  along_then m k p q = along m (λ _. k) p (λ _. q)
