-- ===== src/Tools/Schemas.antt =====
-- packages/domain/recoverai_domain/tools/schemas.py: the closed input of every tool, which refuses a
-- key that it does not have, and its `model_dump`.
pub mod RoundTrip
use revive_x.Prelude.{
  Bool, true, false, not, Option, none, some, List, [], ◌∷◌, exists_in, if◌then◌else◌, String,
}
use revive_x.Prelude.Int.{ℤ}
use revive_x.Errors.{Result, ok, err, tool_validation}
use revive_x.ToolWords.{
  Tool, NotificationChannel, DecimalText, TimeText, Field, ToolInput, empty_input,
}

-- The fields of the input models.
abbrev pub has_field : Tool → Field → Bool
has_field Tool.calculate_recovery_probability (Field.action _) = true
has_field Tool.retry_payment (Field.attempt_number _) = true
has_field Tool.schedule_retry (Field.scheduled_for _) = true
has_field Tool.create_payment_link (Field.description _) = true
has_field Tool.send_notification (Field.channel _) = true
has_field Tool.send_notification (Field.subject _) = true
has_field Tool.send_notification (Field.body_preview _) = true
has_field Tool.offer_discount (Field.discount_percent _) = true
has_field Tool.check_payment_status (Field.provider_payment_id _) = true
has_field Tool.escalate_to_human (Field.reason _) = true
has_field Tool.pause_recovery (Field.reason _) = true
has_field _ _ = false

-- The value of an optional text, found with `pick`.
abbrev text_in : (Field → Option (Option String)) → List Field → Option String
text_in pick [] = none
text_in pick (field ∷ rest) = elim (pick field) [ some v ↦ v | none ↦ text_in pick rest ]

abbrev as_action : Field → Option (Option String)
as_action (Field.action v) = some v
as_action _ = none

abbrev as_description : Field → Option (Option String)
as_description (Field.description v) = some v
as_description _ = none

abbrev as_subject : Field → Option (Option String)
as_subject (Field.subject v) = some v
as_subject _ = none

abbrev as_body_preview : Field → Option (Option String)
as_body_preview (Field.body_preview v) = some v
as_body_preview _ = none

abbrev as_provider_payment_id : Field → Option (Option String)
as_provider_payment_id (Field.provider_payment_id v) = some v
as_provider_payment_id _ = none

abbrev as_reason : Field → Option (Option String)
as_reason (Field.reason v) = some v
as_reason _ = none

abbrev attempt_number_in : List Field → Option ℤ
attempt_number_in [] = none
attempt_number_in (Field.attempt_number v ∷ rest) = v
attempt_number_in (_ ∷ rest) = attempt_number_in rest

abbrev scheduled_for_in : List Field → Option TimeText
scheduled_for_in [] = none
scheduled_for_in (Field.scheduled_for v ∷ rest) = some v
scheduled_for_in (_ ∷ rest) = scheduled_for_in rest

abbrev discount_percent_in : List Field → Option DecimalText
discount_percent_in [] = none
discount_percent_in (Field.discount_percent v ∷ rest) = some v
discount_percent_in (_ ∷ rest) = discount_percent_in rest

-- `channel: NotificationChannel = NotificationChannel.EMAIL`
abbrev channel_in : List Field → NotificationChannel
channel_in [] = NotificationChannel.email
channel_in (Field.channel v ∷ rest) = v
channel_in (_ ∷ rest) = channel_in rest

abbrev scheduled_input : Option TimeText → Option ToolInput
scheduled_input none = none
scheduled_input (some t) = some (record empty_input { scheduled_for = some t })

abbrev discount_input : Option DecimalText → Option ToolInput
discount_input none = none
discount_input (some p) = some (record empty_input { discount_percent = some p })

-- The model of a tool, of a payload with no other field; `none` where a required field is missing.
abbrev pub read_input : Tool → List Field → Option ToolInput
read_input Tool.calculate_recovery_probability fields =
    some (record empty_input { action = text_in as_action fields })
read_input Tool.retry_payment fields =
    some (record empty_input { attempt_number = attempt_number_in fields })
read_input Tool.schedule_retry fields = scheduled_input (scheduled_for_in fields)
read_input Tool.create_payment_link fields =
    some (record empty_input { description = text_in as_description fields })
read_input Tool.send_notification fields = some (record empty_input {
  channel = some (channel_in fields);
  subject = text_in as_subject fields;
  body_preview = text_in as_body_preview fields;
})
read_input Tool.offer_discount fields = discount_input (discount_percent_in fields)
read_input Tool.check_payment_status fields =
    some (record empty_input { provider_payment_id = text_in as_provider_payment_id fields })
read_input Tool.escalate_to_human fields =
    some (record empty_input { reason = text_in as_reason fields })
read_input Tool.pause_recovery fields =
    some (record empty_input { reason = text_in as_reason fields })
read_input _ fields = some empty_input

abbrev input_or_error : Option ToolInput → Result ToolInput
input_or_error none = err (tool_validation "INVALID_TOOL_INPUT")
input_or_error (some input) = ok input

-- `_validate_input` of execution.py
unfoldable pub validate_input : Tool → List Field → Result ToolInput
validate_input tool fields =
    if exists_in (λ field. not (has_field tool field)) fields
    then err (tool_validation "INVALID_TOOL_INPUT")
    else input_or_error (read_input tool fields)

abbrev scheduled_field : Option TimeText → List Field
scheduled_field none = []
scheduled_field (some t) = Field.scheduled_for t ∷ []

abbrev discount_field : Option DecimalText → List Field
discount_field none = []
discount_field (some p) = Field.discount_percent p ∷ []

-- `model.model_dump(mode="json")`
unfoldable pub model_dump : Tool → ToolInput → List Field
model_dump Tool.calculate_recovery_probability input = Field.action input.action ∷ []
model_dump Tool.retry_payment input = Field.attempt_number input.attempt_number ∷ []
model_dump Tool.schedule_retry input = scheduled_field input.scheduled_for
model_dump Tool.create_payment_link input = Field.description input.description ∷ []
model_dump Tool.send_notification input = elim input.channel [
  | some c ↦
      Field.channel c ∷ Field.subject input.subject ∷ Field.body_preview input.body_preview ∷ []
  | none ↦ Field.subject input.subject ∷ Field.body_preview input.body_preview ∷ []
]
model_dump Tool.offer_discount input = discount_field input.discount_percent
model_dump Tool.check_payment_status input =
    Field.provider_payment_id input.provider_payment_id ∷ []
model_dump Tool.escalate_to_human input = Field.reason input.reason ∷ []
model_dump Tool.pause_recovery input = Field.reason input.reason ∷ []
model_dump _ input = []
