-- ===== src/Telemetry/Validation/Batch.antt =====
-- telemetry/validation.py, `parse_telemetry_batch`: the envelope, and its items in order. The decoding
-- of the body into a JSON value is a parameter. Of a refusal the reason is modelled, not the texts.
pub mod Parsed
use industrial_equipment_mon.Prelude.{
  ℕ, String, Bool, true, false, ◌&&◌, ◌||◌, not, Option, none, some, List, [], ◌∷◌, ◌++◌, map,
  length, leb, nat_eq, str_eq, if◌then◌else◌,
}
use industrial_equipment_mon.Decimal.{ℤ, pos, negsuc}
use industrial_equipment_mon.Telemetry.Json.{
  Value, null, boolean, integer, decimal, text, array, object, Items, Members, get, values,
  has_other_keys, is_unique,
}
use industrial_equipment_mon.Telemetry.Schemas.{max_batch_size, BatchItem, ValidatedTelemetryBatch}
use industrial_equipment_mon.Telemetry.Validation.{Instants}
use industrial_equipment_mon.Telemetry.Validation.Item.{validate_telemetry_item}

pub data BatchReason : Type 0 where
  unsupported_schema_version batch_too_large malformed_batch : BatchReason

pub data ParsedBatch : Type 0 where
  parsed : ValidatedTelemetryBatch → ParsedBatch
  refused : BatchReason → ParsedBatch

-- One error of the envelope: a literal error of "schema_version", a list of events that is too long,
-- or any other.
pub data EnvelopeProblem : Type 0 where
  other_version too_long structural : EnvelopeProblem

abbrev pub is_one : ℤ → Bool
is_one (pos n) = nat_eq n 1
is_one (negsuc n) = false

-- `require_integer_version`, and the literal 1.
abbrev pub check_version : Option Value → List EnvelopeProblem
check_version (some (integer n)) = if is_one n then [] else other_version ∷ []
check_version (some _) = structural ∷ []
check_version none = structural ∷ []

abbrev pub check_length : ℕ → List EnvelopeProblem
check_length n =
    if nat_eq n 0 then structural ∷ [] else if leb n max_batch_size then [] else too_long ∷ []

abbrev pub check_events : Option Value → List EnvelopeProblem
check_events (some (array items)) = check_length (length (values items))
check_events (some _) = structural ∷ []
check_events none = structural ∷ []

abbrev pub check_extra : Bool → List EnvelopeProblem
check_extra true = structural ∷ []
check_extra false = []

abbrev pub is_envelope_key : String → Bool
is_envelope_key k = str_eq k "schema_version" || str_eq k "events"

-- `_BatchEnvelope.model_validate`
unfoldable pub check_envelope : Members → List EnvelopeProblem
check_envelope m =
    check_version (get "schema_version" m)
    ++ check_events (get "events" m)
    ++ check_extra (has_other_keys is_envelope_key m)

abbrev pub events_of : Option Value → List Value
events_of (some (array items)) = values items
events_of _ = []

abbrev pub any_structural : List EnvelopeProblem → Bool
any_structural [] = false
any_structural (structural ∷ ps) = true
any_structural (other_version ∷ ps) = any_structural ps
any_structural (too_long ∷ ps) = any_structural ps

abbrev pub any_version : List EnvelopeProblem → Bool
any_version [] = false
any_version (other_version ∷ ps) = true
any_version (structural ∷ ps) = any_version ps
any_version (too_long ∷ ps) = any_version ps

-- Malformed envelope, then unsupported version, then oversized batch.
abbrev pub refusal_reason : List EnvelopeProblem → BatchReason
refusal_reason ps =
    if any_structural ps
    then malformed_batch
    else if any_version ps
    then unsupported_schema_version
    else batch_too_large

module _ (i : Instants) where
  abbrev pub validated_items : List Value → List BatchItem
  validated_items events = map (validate_telemetry_item i) events

  abbrev pub conclude_batch : List Value → List EnvelopeProblem → ParsedBatch
  conclude_batch events [] = parsed (record { schema_version = 1; items = validated_items events })
  conclude_batch events (p ∷ ps) = refused (refusal_reason (p ∷ ps))

  unfoldable pub parse_payload : Value → ParsedBatch
  unfolding check_envelope
  parse_payload (object m) = conclude_batch (events_of (get "events" m)) (check_envelope m)
  parse_payload _ = refused malformed_batch

  abbrev parse_decoded : Option Value → ParsedBatch
  parse_decoded none = refused malformed_batch
  parse_decoded (some payload) =
      if is_unique payload then parse_payload payload else refused malformed_batch

  -- `decode` is the JSON library's reading of the body, which keeps repeated members.
  unfoldable pub parse_telemetry_batch : {B : Type 0} → (B → Option Value) → B → ParsedBatch
  unfolding parse_payload
  parse_telemetry_batch decode body = parse_decoded (decode body)
