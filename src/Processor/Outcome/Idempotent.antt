-- ===== src/Processor/Outcome/Idempotent.antt =====
-- A second run of processor.py.
use revive_x.Prelude.{
  ℕ, ◌≡◌, refl, sym, ◌∙◌, ap, ◌⊎◌, inl, inr, false≢true, Bool, true, false, not, Option, List,
  arith, Bool-cases, if◌then◌else◌, exists_in,
}
use revive_x.Enums.{RecoveryCaseStatus}
use revive_x.Errors.{Error, Result, ok, err}
use revive_x.Models.Audit.{AuditEvent}
use revive_x.Settings.{RecoverySettings}
use revive_x.Session.{Session}
use revive_x.Policy.Words.{PolicyEvaluationResult, mentions_mismatch}
use revive_x.Policy.Context.{
  build_policy_context, retry_count, is_suspicious, is_source_mismatch, communications_last_24h,
  discount_spent_today,
}
use revive_x.Policy.Context.Facts.{build_policy_context-same}
use revive_x.Processor.{already_past, walk_from, decide, process_locked_case}
use revive_x.Processor.Outcome.{
  is_early, at_check, walk_to_policy_check-Walked, early_goes_on, early_is_handled, verdict_status,
  verdict_on, process_locked_case-settles,
}

-- From every other status the processor returns and changes nothing.
pub process_locked_case-idle :
    (settings : RecoverySettings) (s : Session)
    → is_early s.case.status ≡ false
    → process_locked_case settings s ≡ (ok tt, s)
unfolding process_locked_case walk_from already_past
process_locked_case-idle settings s late = from s.case.status refl
  where
    from :
        (st : RecoveryCaseStatus) → s.case.status ≡ st → process_locked_case settings s ≡ (ok tt, s)
    from RecoveryCaseStatus.awaiting_approval e = rw e refl
    from RecoveryCaseStatus.executing e = rw e refl
    from RecoveryCaseStatus.action_completed e = rw e refl
    from RecoveryCaseStatus.verifying e = rw e refl
    from RecoveryCaseStatus.recovered e = rw e refl
    from RecoveryCaseStatus.not_recovered e = rw e refl
    from RecoveryCaseStatus.retry_scheduled e = rw e refl
    from RecoveryCaseStatus.escalated e = rw e refl
    from RecoveryCaseStatus.stopped e = rw e refl
    from RecoveryCaseStatus.failed e = rw e refl
    from _ e = absurd (false≢true (sym late ∙ ap is_early e))

decide_raises :
    (settings : RecoverySettings) (s : Session) (e : Error)
    → (build_policy_context settings s).0 ≡ err e
    → decide settings s ≡ (err e, s)
unfolding decide
decide_raises settings s e fails = rw (fails, build_policy_context-same settings s) refl

process_raises :
    (settings : RecoverySettings) (s : Session) (e : Error)
    → (early : is_early s.case.status ≡ true) → (build_policy_context settings s).0 ≡ err e
    → let (version, closed, audits, _) = walk_to_policy_check-Walked s early in
      process_locked_case settings s ≡ (err e, at_check s version closed audits)
unfolding process_locked_case build_policy_context retry_count is_suspicious is_source_mismatch
    communications_last_24h discount_spent_today
process_raises settings s e early fails =
    let (version, closed, audits, walk) = walk_to_policy_check-Walked s early in
    rw (early_goes_on s.case.status early, early_is_handled s.case.status early, walk)
      (decide_raises settings (at_check s version closed audits) e fails)

raises_at_check :
    (settings : RecoverySettings) (s : Session) (version : ℕ) (closed : Option ℕ)
    (audits : List AuditEvent) (e : Error)
    → let t = at_check s version closed audits in
      (build_policy_context settings t).0 ≡ err e → process_locked_case settings t ≡ (err e, t)
unfolding process_locked_case walk_from already_past
raises_at_check settings s version closed audits e fails =
    decide_raises settings (at_check s version closed audits) e fails

Result-cases : {A : Type 0} (r : Result A) → ((a : A) × (r ≡ ok a)) ⊎ ((e : Error) × (r ≡ err e))
Result-cases (ok a) = inl (a, refl)
Result-cases (err e) = inr (e, refl)

settled_is_late : (e : PolicyEvaluationResult) → is_early (verdict_status e) ≡ false
settled_is_late e = late e.allowed e.requires_approval (exists_in mentions_mismatch e.reason)
  where
    late :
        (a r m : Bool)
        → is_early (
            if not a
            then (if m then RecoveryCaseStatus.escalated else RecoveryCaseStatus.stopped)
            else if r
            then RecoveryCaseStatus.awaiting_approval
            else RecoveryCaseStatus.action_completed)
          ≡ false
    late a r m = ground arith

-- A second run of the processor right after the first, at the same time and with the same settings,
-- changes nothing, whatever the first did.
pub process_locked_case-idempotent :
    (settings : RecoverySettings) (s : Session)
    → let s' = (process_locked_case settings s).1 in (process_locked_case settings s').1 ≡ s'
unfolding build_policy_context retry_count is_suspicious is_source_mismatch communications_last_24h
    discount_spent_today
process_locked_case-idempotent settings s = elim (Bool-cases (is_early s.case.status)) [
  | inr late ↦
      ap (λ r. (process_locked_case settings (r.1)).1) (process_locked_case-idle settings s late)
  | inl early ↦ elim (Result-cases (build_policy_context settings s).0) [
    | inl (ctx, built) ↦
        let s' = (process_locked_case settings s).1 in
        let (_, reached) = process_locked_case-settles settings s ctx early built in
        ap (λ r. r.1)
          (process_locked_case-idle settings s'
            (ap is_early reached ∙ settled_is_late (verdict_on s ctx)))
    | inr (e, fails) ↦
        let (version, closed, audits, _) = walk_to_policy_check-Walked s early in
        rw (process_raises settings s e early fails)
          (ap (λ r. r.1) (raises_at_check settings s version closed audits e fails))
  ]
]
