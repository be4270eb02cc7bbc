-- ===== src/Tests/Validation.antt =====
-- The theorems on validation at a body with one event.
use industrial_equipment_mon.Prelude.{
  ◌≤◌, ◌≡◌, refl, arith, String, true, ◌&&◌, Option, none, some, List, [], ◌∷◌, eq_string, length,
  leb, map, All, if◌then◌else◌,
}
use industrial_equipment_mon.Prelude.Table.{lookup}
use industrial_equipment_mon.Decimal.{pos}
use industrial_equipment_mon.Telemetry.Json.{
  Value, null, integer, text, array, object, nil, cons, Members, end, member, get, values,
  has_other_keys, has_key, is_unique,
}
use industrial_equipment_mon.Telemetry.Schemas.{
  TelemetryResponseItem, ValidatedTelemetryBatch, event, response, rejected, malformed_value,
  invalid_metric, invalid_unit, seconds,
}
use industrial_equipment_mon.Db.Models.{commit_confirmed, Database}
use industrial_equipment_mon.Telemetry.Repository.{lock_gateway_eligibility}
use industrial_equipment_mon.Telemetry.Ingest.{ingest_batch, committed}
use industrial_equipment_mon.Telemetry.Ingest.Sound.{IsSound}
use industrial_equipment_mon.Telemetry.Validation.{
  Instants, identifier_of, counter_of, timestamp_of, matches_timestamp, optional_timestamp_of,
  metric_of, unit_of, temperature_of, quality_of,
}
use industrial_equipment_mon.Telemetry.Validation.Item.{
  fields_of, complete, model_validate, all_labels, validate_telemetry_item,
}
use industrial_equipment_mon.Telemetry.Validation.Item.Bounds.{IsWire, validated-IsWire}
use industrial_equipment_mon.Telemetry.Validation.Item.Label.{put, rejected_as, mislabelled_item}
use industrial_equipment_mon.Telemetry.Validation.Batch.{
  parsed, refused, batch_too_large, unsupported_schema_version, check_envelope, parse_payload,
  parse_telemetry_batch, is_one,
}
use industrial_equipment_mon.Telemetry.Validation.Batch.Parsed.{
  Parses, parsed_batch, envelope_verdict,
}
use industrial_equipment_mon.Telemetry.Delivery.{IsResult, delivered_batch}
use industrial_equipment_mon.Tests.Samples.{reading, plant, server}
use industrial_equipment_mon.Tests.Ingest.{plant-IsSound}

abbrev pub instants : Instants
instants = record { is_digit = λ c. leb 48 c && leb c 57; to_utc = λ s. some (seconds 1001) }

abbrev at : Value
at = text "2026-01-01T00:16:41.5Z"

abbrev pub payload : Members
payload = member "device_id" (text "press") (
    member "boot_id" (text "boot") (
      member "sequence_number" (integer (pos 1)) (
        member "measured_at" at (
          member "device_uptime_ms" (integer (pos 1)) (
            member "gateway_received_at" at (
              member "metric" (text "temperature") (
                member "value" (integer (pos 20)) (
                  member "unit" (text "celsius") (
                    member "quality"
                      (object (
                        member "reading" (text "valid") (member "clock" (text "synchronised") end)))
                      end)))))))))

validates : validate_telemetry_item instants (object payload) ≡ event (reading 1 20)
unfolding validate_telemetry_item model_validate fields_of complete identifier_of counter_of
    timestamp_of matches_timestamp optional_timestamp_of metric_of unit_of temperature_of quality_of
    get has_other_keys
validates = refl

validated-IsWire_example : IsWire (reading 1 20)
validated-IsWire_example = validated-IsWire instants (object payload) (reading 1 20) validates

abbrev no_identity : TelemetryResponseItem
no_identity = record {
  device_id = none;
  boot_id = none;
  sequence_number = none;
  outcome = rejected;
  reason = some malformed_value;
}

mislabelled_item_example :
    (validate_telemetry_item instants (object (put "metric" (text "pressure") payload))
      ≡ rejected_as invalid_metric (reading 1 20))
    × (validate_telemetry_item instants (object (put "unit" (text "kelvin") payload))
        ≡ rejected_as invalid_unit (reading 1 20))
mislabelled_item_example =
    mislabelled_item instants payload (reading 1 20) "pressure" "kelvin" validates refl refl

abbrev pub envelope : Members
envelope =
    member "schema_version" (integer (pos 1))
      (member "events" (array (cons (object payload) (cons null nil))) end)

abbrev pub decode : String → Option Value
decode body = some (object envelope)

abbrev pub batch : ValidatedTelemetryBatch
batch = record { schema_version = 1; items = event (reading 1 20) ∷ response no_identity ∷ [] }

pub parses : parse_telemetry_batch instants decode "body" ≡ parsed batch
unfolding parse_telemetry_batch parse_payload check_envelope values is_unique has_key
    validate_telemetry_item model_validate fields_of complete identifier_of counter_of timestamp_of
    matches_timestamp optional_timestamp_of metric_of unit_of temperature_of quality_of get
    has_other_keys all_labels
parses = refl

parsed_batch_example :
    (v : Value) × (decode "body" ≡ some v) × (is_unique v ≡ true) × Parses instants v batch
parsed_batch_example = parsed_batch instants decode "body" batch parses

envelope_verdict_example : parse_telemetry_batch instants decode "body" ≡ (
    if is_one (pos 1)
    then if leb (length (values (cons (object payload) (cons null nil)))) 500
      then parsed (record {
        schema_version = 1;
        items =
            map (validate_telemetry_item instants) (values (cons (object payload) (cons null nil)));
      })
      else refused batch_too_large
    else refused unsupported_schema_version)
unfolding is_unique has_key get has_other_keys values
envelope_verdict_example =
    envelope_verdict instants decode "body" envelope (pos 1) (cons (object payload) (cons null nil))
      refl refl refl (record { events = refl; known = refl; nonempty = omega arith })

delivered_batch_example :
    (db' : Database) × (rs : List TelemetryResponseItem) × (ingest_batch server commit_confirmed
        plant "hall" batch "id"
      ≡ (committed (record { batch_id = "id"; results = rs }), db'))
    × (length rs ≡ length batch.items)
    × (1 ≤ length rs)
    × (length rs ≤ 500)
    × All IsResult rs
    × IsSound db'
unfolding lock_gateway_eligibility lookup
delivered_batch_example =
    delivered_batch instants decode "body" batch server plant "hall" "id" parses plant-IsSound refl
