-- ===== src/Tools/Keeps/Tables.antt =====
-- packages/domain/recoverai_domain/tools: what the rows that the tools write leave alone.
use revive_x.Prelude.{◌≡◌, refl, ◌∙◌, Bool, true, false, List, [], ◌∷◌, ◌++◌, map, Memᴰ}
use revive_x.Prelude.Lists.{Memᴰ-append}
use revive_x.Enums.{RecoveryCaseStatus}
use revive_x.Models.{Payment}
use revive_x.Session.{Session, Action, pure}
use revive_x.Session.Change.{CaseKept, Extends, Extends-refl, Within, IsServiceRelation, Within-if}
use revive_x.Transitions.{transition_case}
use revive_x.Tools.Handlers.Outcome.{only_if}

-- What a credit can rest on.
abbrev pub SameFacts : Payment → Payment → Type 0
SameFacts p q =
    (q.merchant_id ≡ p.merchant_id)
    × (q.customer_id ≡ p.customer_id)
    × (q.status ≡ p.status)
    × (q.amount ≡ p.amount)

-- Every payment is still there, with the same facts.
abbrev pub PaymentsKept : List Payment → List Payment → Type 0
PaymentsKept ps qs = (p : Payment) → Memᴰ p ps → (q : Payment) × Memᴰ q qs × SameFacts p q

pub PaymentsKept-refl : (ps : List Payment) → PaymentsKept ps ps
PaymentsKept-refl ps p m = (p, m, (refl, refl, refl, refl))

pub PaymentsKept-of_eq : (ps qs : List Payment) → qs ≡ ps → PaymentsKept ps qs
PaymentsKept-of_eq ps qs e = rw e (PaymentsKept-refl ps)

pub PaymentsKept-trans :
    (ps qs rs : List Payment) → PaymentsKept ps qs → PaymentsKept qs rs → PaymentsKept ps rs
PaymentsKept-trans ps qs rs f g p m =
    let (q, mq, (a, b, c, d)) = f p m in
    let (r, mr, (a', b', c', d')) = g q mq in (r, mr, (a' ∙ a, b' ∙ b, c' ∙ c, d' ∙ d))

pub PaymentsKept-append : (ps : List Payment) (q : Payment) → PaymentsKept ps (ps ++ q ∷ [])
PaymentsKept-append ps q p m = (p, Memᴰ-append ps (q ∷ []) p m, (refl, refl, refl, refl))

pub PaymentsKept-map :
    (f : Payment → Payment) (same : (p : Payment) → SameFacts p (f p)) (ps : List Payment)
    → PaymentsKept ps (map f ps)
PaymentsKept-map f same [] p m = elim m [ ]
PaymentsKept-map f same (x ∷ xs) p (Memᴰ.head e) = (f x, Memᴰ.head refl, rw e (same x))
PaymentsKept-map f same (x ∷ xs) p (Memᴰ.tail m) =
    let (q, mq, facts) = PaymentsKept-map f same xs p m in (q, Memᴰ.tail mq, facts)

-- The tables of payments, attempts, notifications, carts and tool calls may be written to as well.
abbrev pub TablesKept : Session → Session → Type 0
TablesKept s s' =
    (s'.case ≡ s.case)
    × Extends s.audits s'.audits
    × (s'.others ≡ s.others)
    × PaymentsKept s.payments s'.payments
    × (s'.merchants ≡ s.merchants)
    × (s'.idempotency_keys ≡ s.idempotency_keys)

-- The statuses that the service takes a case to.
abbrev pub is_tool_target : RecoveryCaseStatus → Bool
is_tool_target RecoveryCaseStatus.awaiting_approval = true
is_tool_target RecoveryCaseStatus.executing = true
is_tool_target RecoveryCaseStatus.action_completed = true
is_tool_target RecoveryCaseStatus.failed = true
is_tool_target RecoveryCaseStatus.retry_scheduled = true
is_tool_target RecoveryCaseStatus.escalated = true
is_tool_target RecoveryCaseStatus.stopped = true
is_tool_target _ = false

pub record IsToolRelation (R : Session → Session → Type 0) : Type 0 where
  pub on_same : (s : Session) → R s s
  pub on_both : (s t u : Session) → R s t → R t u → R s u
  pub on_tables : (s s' : Session) → TablesKept s s' → R s s'
  pub on_target :
      (target : RecoveryCaseStatus)
      → is_tool_target target ≡ true
      → Within R (transition_case target)

pub TablesKept-of_kept : (s s' : Session) → CaseKept s s' → TablesKept s s'
TablesKept-of_kept s s' (c, e, o, p, m, k) =
    (c, e, o, PaymentsKept-of_eq s.payments s'.payments p, m, k)

module _ {R : Session → Session → Type 0} (laws : IsToolRelation R) where
  pub service_laws : IsServiceRelation R
  service_laws = record {
    on_same = laws.on_same;
    on_both = laws.on_both;
    on_kept = λ s s' kept. laws.on_tables s s' (TablesKept-of_kept s s' kept);
  }

  pub Within-only_if : (b : Bool) (m : Action (Unit {0})) → Within R m → Within R (only_if b m)
  Within-only_if b m p = Within-if service_laws b m (pure tt) p (λ s. laws.on_same s)

  -- Rows of actions, approvals, notifications, carts, attempts or tool calls.
  pub on_rows :
      (s s' : Session)
      → s'.case ≡ s.case
      → s'.audits ≡ s.audits
      → s'.others ≡ s.others
      → s'.payments ≡ s.payments
      → s'.merchants ≡ s.merchants
      → s'.idempotency_keys ≡ s.idempotency_keys
      → R s s'
  on_rows s s' c a o p m k =
      laws.on_tables s s'
        (c, rw a (Extends-refl s.audits), o, PaymentsKept-of_eq s.payments s'.payments p, m, k)
