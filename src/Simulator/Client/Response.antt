-- ===== src/Simulator/Client/Response.antt =====
-- telemetry/router.py and telemetry/schemas.py: the response of a batch as FastAPI serialises it, members
-- that are not set left out, and what the client reports of it.
use industrial_equipment_mon.Prelude.{ℕ, String, Option, none, some, List, [], ◌∷◌}
use industrial_equipment_mon.Prelude.Texts.{concat}
use industrial_equipment_mon.Decimal.{pos}
use industrial_equipment_mon.Telemetry.Json.{
  Value, null, integer, text, array, object, Items, nil, cons, Members, end, member,
}
use industrial_equipment_mon.Telemetry.Schemas.{
  ItemReason, unknown_device, wrong_gateway, invalid_metric, invalid_unit, value_out_of_range,
  malformed_value, identity_conflict, Outcome, accepted, duplicate, rejected, TelemetryResponseItem,
  TelemetryBatchResponse,
}

abbrev pub outcome_text : Outcome → String
outcome_text accepted = "accepted"
outcome_text duplicate = "duplicate"
outcome_text rejected = "rejected"

abbrev pub reason_text : ItemReason → String
reason_text unknown_device = "unknown_device"
reason_text wrong_gateway = "wrong_gateway"
reason_text invalid_metric = "invalid_metric"
reason_text invalid_unit = "invalid_unit"
reason_text value_out_of_range = "value_out_of_range"
reason_text malformed_value = "malformed_value"
reason_text identity_conflict = "identity_conflict"

abbrev pub text_or_null : Option String → Value
text_or_null none = null
text_or_null (some s) = text s

abbrev pub counter_or_null : Option ℕ → Value
counter_or_null none = null
counter_or_null (some n) = integer (pos n)

-- A reason that is not set is left out.
abbrev pub reason_member : Option ItemReason → Members
reason_member none = end
reason_member (some reason) = member "reason" (text (reason_text reason)) end

abbrev pub encode_item : TelemetryResponseItem → Value
encode_item r = object (
    member "device_id" (text_or_null r.device_id) (
      member "boot_id" (text_or_null r.boot_id) (
        member "sequence_number" (counter_or_null r.sequence_number)
          (member "outcome" (text (outcome_text r.outcome)) (reason_member r.reason)))))

unfoldable pub encode_items : List TelemetryResponseItem → Items
encode_items [] = nil
encode_items (r ∷ rs) = cons (encode_item r) (encode_items rs)

unfoldable pub encode_response : TelemetryBatchResponse → Value
encode_response answer = object (
    member "batch_id" (text answer.batch_id)
      (member "results" (array (encode_items answer.results)) end))

-- What the client reports of a result.
abbrev pub reported : Outcome → Option ItemReason → String
reported rejected (some reason) = concat "rejected" (concat ":" (reason_text reason))
reported rejected none = "rejected"
reported accepted reason = "accepted"
reported duplicate reason = "duplicate"

abbrev pub report : TelemetryResponseItem → String
report r = reported r.outcome r.reason
