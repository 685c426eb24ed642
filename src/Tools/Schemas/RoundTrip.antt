-- ===== src/Tools/Schemas/RoundTrip.antt =====
-- packages/domain/recoverai_domain/tools/schemas.py: what is stored of a payload is read again as it
-- was.
use mathlib.Core.Option.{some-injective}
use revive_x.Prelude.{
  arith, subst, ◌≡◌, refl, sym, ◌∙◌, ap, inl, inr, not, exists_in, Bool-cases, Option, none, some,
  List,
}
use revive_x.Errors.{Error, tool_validation, ok, err, ok-injective}
use revive_x.ToolWords.{Tool, Field, ToolInput, TimeText, DecimalText, empty_input}
use revive_x.Tools.Schemas.{
  has_field, read_input, input_or_error, validate_input, model_dump, scheduled_input,
  discount_input, scheduled_for_in, discount_percent_in,
}

no_input : {A : Type 0} {a : A} → none ≡ some a → ⊥
no_input h = ground arith

again :
    (tool : Tool) (read input : ToolInput)
    → some read ≡ some input
    → validate_input tool (model_dump tool read) ≡ ok read
    → validate_input tool (model_dump tool input) ≡ ok input
again tool read input h p =
    subst (λ i. validate_input tool (model_dump tool i) ≡ ok i) (some-injective read input h) p

scheduled_again :
    (time : Option TimeText) (input : ToolInput)
    → scheduled_input time ≡ some input
    → validate_input Tool.schedule_retry (model_dump Tool.schedule_retry input) ≡ ok input
unfolding validate_input model_dump
scheduled_again none input h = absurd (no_input h)
scheduled_again (some t) input h =
    again Tool.schedule_retry (record empty_input { scheduled_for = some t }) input h refl

discount_again :
    (percent : Option DecimalText) (input : ToolInput)
    → discount_input percent ≡ some input
    → validate_input Tool.offer_discount (model_dump Tool.offer_discount input) ≡ ok input
unfolding validate_input model_dump
discount_again none input h = absurd (no_input h)
discount_again (some p) input h =
    again Tool.offer_discount (record empty_input { discount_percent = some p }) input h refl

dumped_again :
    (tool : Tool) (fields : List Field) (input : ToolInput)
    → read_input tool fields ≡ some input
    → validate_input tool (model_dump tool input) ≡ ok input
unfolding validate_input model_dump
dumped_again Tool.schedule_retry fields input h = scheduled_again (scheduled_for_in fields) input h
dumped_again Tool.offer_discount fields input h =
    discount_again (discount_percent_in fields) input h
dumped_again Tool.calculate_recovery_probability fields input h =
    again Tool.calculate_recovery_probability _ input h refl
dumped_again Tool.retry_payment fields input h = again Tool.retry_payment _ input h refl
dumped_again Tool.create_payment_link fields input h = again Tool.create_payment_link _ input h refl
dumped_again Tool.send_notification fields input h = again Tool.send_notification _ input h refl
dumped_again Tool.check_payment_status fields input h =
    again Tool.check_payment_status _ input h refl
dumped_again Tool.escalate_to_human fields input h = again Tool.escalate_to_human _ input h refl
dumped_again Tool.pause_recovery fields input h = again Tool.pause_recovery _ input h refl
dumped_again tool fields input h = again tool empty_input input h refl

read_of_ok :
    (read : Option ToolInput) (input : ToolInput)
    → input_or_error read ≡ ok input
    → read ≡ some input
read_of_ok none input h = ground arith
read_of_ok (some i) input h = ap some (ok-injective h)

-- What the schema of a tool makes of a payload is read again, from its dump, as it was.
pub validate_input-model_dump :
    (tool : Tool) (fields : List Field) (input : ToolInput)
    → validate_input tool fields ≡ ok input
    → validate_input tool (model_dump tool input) ≡ ok input
unfolding validate_input
validate_input-model_dump tool fields input h = dumped_again tool fields input (parsed h)
  where
    refused : {e : Error} → err e ≡ ok input → ⊥
    refused q = ground arith

    parsed : validate_input tool fields ≡ ok input → read_input tool fields ≡ some input
    parsed p = elim (Bool-cases (exists_in (λ field. not (has_field tool field)) fields)) [
      | inl b ↦ absurd (refused {e = tool_validation "INVALID_TOOL_INPUT"} (sym (rw b refl) ∙ p))
      | inr b ↦ read_of_ok (read_input tool fields) input (sym (rw b refl) ∙ p)
    ]
