-- ===== src/Session/Change.antt =====
-- What every service of packages/domain/recoverai_domain may do to the session that it is given:
-- relations between the sessions before and after, and how they go along the actions.
use mathlib.Core.List.{append_assoc, append-nil}
use revive_x.Prelude.{
  ◌≤◌, ◌≡◌, refl, sym, ap, ◌∙◌, subst, Bool, true, false, not, Option, List, [], ◌∷◌, ◌++◌, is_none,
  arith, if◌then◌else◌,
}
use revive_x.Enums.{RecoveryCaseStatus}
use revive_x.Errors.{Result, ok, err}
use revive_x.Models.{RecoveryCase}
use revive_x.Models.Audit.{AuditEvent, AuditEventType, AuditState}
use revive_x.Session.{Session, Action, continue, ◌>>=◌, ◌>>◌, record_audit, case_event}
use revive_x.StateMachine.{is_terminal, can_transition}

-- A way along the table of legal changes.
pub data Reaches (a : RecoveryCaseStatus) : RecoveryCaseStatus → Type 0 where
  here : Reaches a a
  step : (b c : RecoveryCaseStatus) → Reaches a b → can_transition b c ≡ true → Reaches a c

pub Reaches-join : (a b c : RecoveryCaseStatus) → Reaches a b → Reaches b c → Reaches a c
Reaches-join a b c p here = p
Reaches-join a b c p (step d _ q h) = step d c (Reaches-join a b d p q) h

-- The case credits no more than it has at risk, and is closed when its status is final.
abbrev pub IsValid : RecoveryCase → Type 0
IsValid c =
    (c.amount_recovered ≤ c.amount_at_risk) × (is_none c.closed_at ≡ not (is_terminal c.status))

-- The events that were there are still there, in front.
abbrev pub Extends : List AuditEvent → List AuditEvent → Type 0
Extends before after = (added : List AuditEvent) × (after ≡ before ++ added)

pub Extends-refl : (a : List AuditEvent) → Extends a a
Extends-refl a = ([], sym (append-nil a))

pub Extends-trans : (a b c : List AuditEvent) → Extends a b → Extends b c → Extends a c
Extends-trans a b c (xs, p) (ys, q) = (xs ++ ys, q ∙ (ap (λ l. l ++ ys) p ∙ append_assoc a xs ys))

-- What identifies the case and what it had at risk.
abbrev pub SameIdentity : RecoveryCase → RecoveryCase → Type 0
SameIdentity c d =
    (d.id ≡ c.id)
    × (d.merchant_id ≡ c.merchant_id)
    × (d.customer_id ≡ c.customer_id)
    × (d.payment_id ≡ c.payment_id)
    × (d.amount_at_risk ≡ c.amount_at_risk)

-- The change of a service: the status moves along the table, the version does not fall, the audit
-- log only grows, and neither the identity of the case nor another row of it changes.
abbrev pub Change : Session → Session → Type 0
Change s s' =
    Reaches s.case.status s'.case.status
    × (s.case.version ≤ s'.case.version)
    × SameIdentity s.case s'.case
    × Extends s.audits s'.audits
    × (s'.others ≡ s.others)
    × (s'.payments ≡ s.payments)

abbrev pub ValidChange : Session → Session → Type 0
ValidChange s s' = IsValid s.case → Change s s' × IsValid s'.case

-- What the case has been credited with, and what it may be credited with.
abbrev pub SameCredit : Session → Session → Type 0
SameCredit s s' =
    (s'.case.amount_recovered ≡ s.case.amount_recovered)
    × (s'.case.verified_payment_id ≡ s.case.verified_payment_id)
    × (s'.case.verified_webhook_event_id ≡ s.case.verified_webhook_event_id)
    × (s'.case.last_mismatch_reason ≡ s.case.last_mismatch_reason)
    × (s'.case.amount_at_risk ≡ s.case.amount_at_risk)

-- The tables of actions, approvals, decisions and evaluations, and the log, are written to, while
-- the case and the tables of other cases, payments, merchants and keys are left.
abbrev pub CaseKept : Session → Session → Type 0
CaseKept s s' =
    (s'.case ≡ s.case)
    × Extends s.audits s'.audits
    × (s'.others ≡ s.others)
    × (s'.payments ≡ s.payments)
    × (s'.merchants ≡ s.merchants)
    × (s'.idempotency_keys ≡ s.idempotency_keys)

abbrev pub Within : {A : Type 0} → (Session → Session → Type 0) → Action A → Type 0
Within R m = (s : Session) → R s (m s).1

pub record IsServiceRelation (R : Session → Session → Type 0) : Type 0 where
  pub on_same : (s : Session) → R s s
  pub on_both : (s t u : Session) → R s t → R t u → R s u
  pub on_kept : (s s' : Session) → CaseKept s s' → R s s'

module _ {R : Session → Session → Type 0} (laws : IsServiceRelation R) where
  pub Within-if :
      {A : Type 0} (b : Bool) (m k : Action A)
      → Within R m
      → Within R k
      → Within R (if b then m else k)
  Within-if true m k p q = p
  Within-if false m k p q = q

  module _ {A B : Type 0} where
    pub Within-continue :
        (r : Result A) (f : A → Action B) → ((a : A) → Within R (f a)) → Within R (continue r f)
    Within-continue (ok a) f k s = k a s
    Within-continue (err e) f k s = laws.on_same s

    pub Within-bind :
        (m : Action A) (f : A → Action B)
        → Within R m
        → ((a : A) → Within R (f a))
        → Within R (m >>= f)
    Within-bind m f p k s =
        laws.on_both s (m s).1 ((m >>= f) s).1 (p s) (Within-continue (m s).0 f k (m s).1)

    -- The same at one session.
    pub after_at :
        (m : Action A) (k : Action B) (s : Session) → R s (m s).1 → Within R k → R s ((m >> k) s).1
    after_at m k s p q =
        laws.on_both s (m s).1 ((m >> k) s).1 p (Within-continue (m s).0 (λ _. k) (λ _. q) (m s).1)

    pub Within-then : (m : Action A) (k : Action B) → Within R m → Within R k → Within R (m >> k)
    Within-then m k p q = Within-bind m (λ _. k) p (λ _. q)

  pub Within-record_audit :
      (type : AuditEventType) (previous new : Option AuditState)
      → Within R (record_audit type previous new)
  Within-record_audit type previous new s =
      laws.on_kept s (record_audit type previous new s).1
        (refl, (case_event type previous new s.case ∷ [], refl), refl, refl, refl, refl)

pub Change-refl : (s : Session) → Change s s
Change-refl s =
    (here, ground arith, (refl, refl, refl, refl, refl), Extends-refl s.audits, refl, refl)

pub Change-trans : (s t u : Session) → Change s t → Change t u → Change s u
Change-trans s t u (r, v, (i1, i2, i3, i4, i5), e, o, p)
      (r', v', (j1, j2, j3, j4, j5), e', o', p') =
    (
      Reaches-join s.case.status t.case.status u.case.status r r',
      omega (arith, v, v'),
      (j1 ∙ i1, j2 ∙ i2, j3 ∙ i3, j4 ∙ i4, j5 ∙ i5),
      Extends-trans s.audits t.audits u.audits e e',
      o' ∙ o,
      p' ∙ p,
    )

pub Change-of_kept : (s s' : Session) → CaseKept s s' → Change s s'
Change-of_kept s s' (c, e, o, p, _, _) = (
  subst (λ (d : RecoveryCase). Reaches s.case.status d.status) (sym c) here,
  subst (λ (d : RecoveryCase). s.case.version ≤ d.version) (sym c) (ground arith),
  subst (λ d. SameIdentity s.case d) (sym c) (refl, refl, refl, refl, refl),
  e,
  o,
  p,
)

pub ValidChange-laws : IsServiceRelation ValidChange
ValidChange-laws = record {
  on_same = λ s v. (Change-refl s, v);
  on_both =
      λ s t u p q v. (let (a, v') = p v in let (b, v'') = q v' in (Change-trans s t u a b, v''));
  on_kept = λ s s' k v. (Change-of_kept s s' k, subst IsValid (sym k.0) v);
}

pub SameCredit-laws : IsServiceRelation SameCredit
SameCredit-laws = record {
  on_same = λ s. (refl, refl, refl, refl, refl);
  on_both = λ s t u (a, b, c, d, e) (a', b', c', d', e'). (a' ∙ a, b' ∙ b, c' ∙ c, d' ∙ d, e' ∙ e);
  on_kept = λ s s' k. (
    ap (λ (c : RecoveryCase). c.amount_recovered) k.0,
    ap (λ (c : RecoveryCase). c.verified_payment_id) k.0,
    ap (λ (c : RecoveryCase). c.verified_webhook_event_id) k.0,
    ap (λ (c : RecoveryCase). c.last_mismatch_reason) k.0,
    ap (λ (c : RecoveryCase). c.amount_at_risk) k.0,
  );
}

stuck : (a b : RecoveryCaseStatus) → is_terminal a ≡ true → can_transition a b ≡ true → b ≡ a
unfolding can_transition
stuck a b final h = ground arith

-- No way leads out of a final status.
pub Reaches-final : (a b : RecoveryCaseStatus) → is_terminal a ≡ true → Reaches a b → b ≡ a
Reaches-final a _ final here = refl
Reaches-final a _ final (step b c p h) =
    let same = Reaches-final a b final p in
    stuck a c final (subst (λ x. can_transition x c ≡ true) same h)

-- What holds where the first action stops, and after what follows it, holds after both.
pub after_bind :
    {A B : Type 0} (P : Session → Type 0) (m : Action A) (f : A → Action B) (s : Session)
    → P (m s).1
    → ((a : A) → P (f a (m s).1).1)
    → P ((m >>= f) s).1
after_bind {A} {B} P m f s stopped went = by_result (m s).0
  where
    by_result : (r : Result A) → P (continue r f (m s).1).1
    by_result (ok a) = went a
    by_result (err e) = stopped
