-- ===== src/Processing/Effects.antt =====
-- packages/domain/recoverai_domain/processing.py: what the processing of an event does to the cases.
use mathlib.Core.List.{append_assoc, append-nil}
use revive_x.Prelude.{
  ℕ, ◌≤◌, ◌≡◌, refl, sym, ap, ◌∙◌, subst, Bool, true, inl, inr, Bool-cases, none, List, [], ◌∷◌,
  ◌++◌, keep, length, Memᴰ, arith,
}
use revive_x.Prelude.Tests.{==→eq}
use revive_x.Enums.{RecoveryCaseStatus}
use revive_x.Models.{RecoveryCase, Payment}
use revive_x.Session.{Session}
use revive_x.Session.Change.{Extends, Extends-refl, Extends-trans}
use revive_x.Processing.{process_webhook_event}
use revive_x.Processing.Payments.{Digest}
use revive_x.Processing.Cases.{all_cases, is_open_for, list_open_for_payment, new_case, add_case}
use revive_x.Processing.Laws.{
  PaymentsMoved, PaymentsMoved-refl, PaymentsMoved-trans, IsEventRelation,
}
use revive_x.Processing.Keeps.{process_webhook_event-Within}

-- A case as it is opened.
abbrev Fresh : RecoveryCase → Type 0
Fresh c = (c.status ≡ RecoveryCaseStatus.detected) × (c.amount_recovered ≡ 0) × (c.closed_at ≡ none)

abbrev AllFresh : List RecoveryCase → Type 0
AllFresh cases = (c : RecoveryCase) → Memᴰ c cases → Fresh c

AllFresh-append : (xs ys : List RecoveryCase) → AllFresh xs → AllFresh ys → AllFresh (xs ++ ys)
AllFresh-append [] ys f g c m = g c m
AllFresh-append (x ∷ xs) ys f g c (Memᴰ.head e) = f c (Memᴰ.head e)
AllFresh-append (x ∷ xs) ys f g c (Memᴰ.tail m) =
    AllFresh-append xs ys (λ d n. f d (Memᴰ.tail n)) g c m

-- The table of cases with fresh ones at its end.
abbrev Opened : List RecoveryCase → List RecoveryCase → Type 0
Opened before after = (added : List RecoveryCase) × (after ≡ before ++ added) × AllFresh added

Opened-refl : (a : List RecoveryCase) → Opened a a
Opened-refl a = ([], sym (append-nil a), λ c m. elim m [ ])

Opened-trans : (a b c : List RecoveryCase) → Opened a b → Opened b c → Opened a c
Opened-trans a b c (xs, p, f) (ys, q, g) =
    (xs ++ ys, q ∙ (ap (λ l. l ++ ys) p ∙ append_assoc a xs ys), AllFresh-append xs ys f g)

-- What an event may do: it opens cases, moves payments forward and extends the log.
abbrev pub Processed : Session → Session → Type 0
Processed s s' =
    (s'.case ≡ s.case)
    × Opened s.others s'.others
    × PaymentsMoved s.payments s'.payments
    × Extends s.audits s'.audits

Processed-trans : (s t u : Session) → Processed s t → Processed t u → Processed s u
Processed-trans s t u (a, b, c, d) (a', b', c', d') = (
  a' ∙ a,
  Opened-trans s.others t.others u.others b b',
  PaymentsMoved-trans s.payments t.payments u.payments c c',
  Extends-trans s.audits t.audits u.audits d d',
)

Processed-IsEventRelation : IsEventRelation Processed
Processed-IsEventRelation = record {
  on_same = λ s. (refl, Opened-refl s.others, PaymentsMoved-refl s.payments, Extends-refl s.audits);
  on_both = Processed-trans;
  on_log = λ s s' (same, others, payments, _, log). (
    same,
    subst (Opened s.others) (sym others) (Opened-refl s.others),
    subst (PaymentsMoved s.payments) (sym payments) (PaymentsMoved-refl s.payments),
    log,
  );
  on_payments = λ s ps moved. (refl, Opened-refl s.others, moved, Extends-refl s.audits);
  on_case = λ s payment closed. (
    refl,
    (
      new_case payment s ∷ [],
      refl,
      λ c m. elim m [ Memᴰ.head e ↦ rw e (refl, refl, refl) | Memᴰ.tail n ↦ elim n [ ] ],
    ),
    PaymentsMoved-refl s.payments,
    Extends-refl s.audits,
  );
}

-- Processing a provider event, whatever comes of it, leaves the locked case and every other case as
-- they are and at most adds cases after them, each DETECTED, open and with nothing recovered; every
-- payment keeps its id, merchant and customer, none that was CAPTURED or REFUNDED leaves these two
-- statuses, none is removed; and the audit log is only extended.
pub process_webhook_event-Processed :
    (uuid : Digest) (id : ℕ) (s : Session) → Processed s (process_webhook_event uuid id s).1
process_webhook_event-Processed uuid id s =
    process_webhook_event-Within Processed-IsEventRelation uuid
      (λ s rows. (refl, Opened-refl s.others, PaymentsMoved-refl s.payments, Extends-refl s.audits))
      id s

-- At most one open case for a payment of a merchant.
abbrev pub OneOpen : Session → Type 0
OneOpen s = (merchant payment : ℕ) → length (list_open_for_payment s merchant payment) ≤ 1

keep-append :
    (p : RecoveryCase → Bool) (xs ys : List RecoveryCase)
    → keep p (xs ++ ys) ≡ keep p xs ++ keep p ys
keep-append p [] ys = refl
keep-append p (x ∷ xs) ys = elim (Bool-cases (p x)) [
  | inl h ↦ rw (h, keep-append p xs ys) refl
  | inr h ↦ rw (h, keep-append p xs ys) refl
]

length-one_more :
    (xs : List RecoveryCase) (c : RecoveryCase) (test : RecoveryCase → Bool)
    → (test c ≡ true → xs ≡ [])
    → length xs ≤ 1
    → length (xs ++ keep test (c ∷ [])) ≤ 1
length-one_more xs c test empty few = elim (Bool-cases (test c)) [
  | inl h ↦ rw (h, empty h) (omega arith)
  | inr h ↦ rw (h, append-nil xs) few
]

same_payment :
    (payment : Payment) (s : Session) (m p : ℕ)
    → is_open_for m p (new_case payment s) ≡ true
    → (payment.merchant_id ≡ m) × (payment.id ≡ p)
same_payment payment s m p h =
    (==→eq payment.merchant_id m (ground arith), ==→eq payment.id p (ground arith))

OneOpen-add :
    (s : Session) (payment : Payment)
    → list_open_for_payment s payment.merchant_id payment.id ≡ []
    → OneOpen s
    → OneOpen (add_case (new_case payment s) s).1
OneOpen-add s payment closed one m p =
    subst (λ l. length l ≤ 1)
      (sym (keep-append (is_open_for m p) (all_cases s) (new_case payment s ∷ [])))
      (length-one_more (list_open_for_payment s m p) (new_case payment s) (is_open_for m p)
        (λ h.
          let (a, b) = same_payment payment s m p h in
          subst (λ x. list_open_for_payment s x p ≡ []) a
            (subst (λ y. list_open_for_payment s payment.merchant_id y ≡ []) b closed))
        (one m p))

KeepsOneOpen : Session → Session → Type 0
KeepsOneOpen s s' = OneOpen s → OneOpen s'

KeepsOneOpen-IsEventRelation : IsEventRelation KeepsOneOpen
unfolding KeepsOneOpen
KeepsOneOpen-IsEventRelation = record {
  on_same = λ s one. one;
  on_both = λ s t u f g one. g (f one);
  on_log = λ s s' (same, others, _, _, _) one m p. rw (same, others) (one m p);
  on_payments = λ s ps moved one. one;
  on_case = OneOpen-add;
}

-- Processing a provider event keeps that a payment of a merchant has at most one recovery case that
-- is not closed, whatever comes of it.
pub process_webhook_event-OneOpen :
    (uuid : Digest) (id : ℕ) (s : Session) → OneOpen s → OneOpen (process_webhook_event uuid id s).1
unfolding KeepsOneOpen
process_webhook_event-OneOpen uuid id s =
    process_webhook_event-Within KeepsOneOpen-IsEventRelation uuid (λ s rows one. one) id s
