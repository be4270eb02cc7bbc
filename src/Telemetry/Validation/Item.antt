-- ===== src/Telemetry/Validation/Item.antt =====
-- telemetry/validation.py, `validate_telemetry_item`: the event, or a rejection whose reason comes from
-- the errors of the fields.
pub mod Rejection
pub mod Bounds
pub mod Label
use industrial_equipment_mon.Prelude.{
  ℕ, String, Bool, true, false, ◌&&◌, ◌||◌, not, Option, none, some, List, [], ◌∷◌, ◌++◌, str_eq,
  if◌then◌else◌,
}
use industrial_equipment_mon.Decimal.{Decimal}
use industrial_equipment_mon.Telemetry.Json.{
  Value, null, boolean, integer, decimal, text, array, object, Members, end, get, has_other_keys,
}
use industrial_equipment_mon.Telemetry.Schemas.{
  Metric, TemperatureUnit, TelemetryQuality, TelemetryEvent, TelemetryResponseItem, ItemReason,
  malformed_value, invalid_metric, invalid_unit, rejected, BatchItem, event, response,
}
use industrial_equipment_mon.Telemetry.Validation.{
  Instants, Field, good, literal_error, other_error, good_or_none, field, identifier_of, counter_of,
  timestamp_of, optional_timestamp_of, metric_of, unit_of, temperature_of, quality_of,
}

-- `item["loc"][0]`, as far as it is looked at.
pub data Place : Type 0 where
  metric_place unit_place elsewhere : Place

-- One error of the model: where it is, and whether its type is "literal_error".
pub record Problem : Type 0 where
  pub place : Place
  pub is_literal : Bool

-- The fields of `TelemetryEvent`, as they are read.
pub record Fields : Type 0 where
  pub device_id : Field String
  pub boot_id : Field String
  pub sequence_number : Field ℕ
  pub measured_at : Field (Option ℕ)
  pub device_uptime_ms : Field ℕ
  pub gateway_received_at : Field ℕ
  pub metric : Field Metric
  pub value : Field Decimal
  pub unit : Field TemperatureUnit
  pub quality : Field TelemetryQuality

unfoldable pub fields_of : Instants → Members → Fields
fields_of i m = record {
  device_id = field identifier_of (get "device_id" m);
  boot_id = field identifier_of (get "boot_id" m);
  sequence_number = field counter_of (get "sequence_number" m);
  measured_at = field (optional_timestamp_of i) (get "measured_at" m);
  device_uptime_ms = field counter_of (get "device_uptime_ms" m);
  gateway_received_at = field (timestamp_of i) (get "gateway_received_at" m);
  metric = field metric_of (get "metric" m);
  value = field temperature_of (get "value" m);
  unit = field unit_of (get "unit" m);
  quality = field quality_of (get "quality" m);
}

abbrev pub is_event_key : String → Bool
is_event_key k =
    str_eq k "device_id"
    || str_eq k "boot_id"
    || str_eq k "sequence_number"
    || str_eq k "measured_at"
    || str_eq k "device_uptime_ms"
    || str_eq k "gateway_received_at"
    || str_eq k "metric"
    || str_eq k "value"
    || str_eq k "unit"
    || str_eq k "quality"

abbrev pub report : {A : Type 0} → Place → Field A → List Problem → List Problem
report place (good a) more = more
report place literal_error more = record { place = place; is_literal = true } ∷ more
report place other_error more = record { place = place; is_literal = false } ∷ more

-- Members that the model does not declare.
abbrev pub report_extra : Bool → List Problem
report_extra true = record { place = elsewhere; is_literal = false } ∷ []
report_extra false = []

-- `error.errors()`, in the order of the fields.
abbrev pub problems : Fields → Bool → List Problem
problems f extra = report elsewhere f.device_id (
    report elsewhere f.boot_id (
      report elsewhere f.sequence_number (
        report elsewhere f.measured_at (
          report elsewhere f.device_uptime_ms (
            report elsewhere f.gateway_received_at (
              report metric_place f.metric (
                report elsewhere f.value (
                  report unit_place f.unit (report elsewhere f.quality (report_extra extra))))))))))

infixl 2 ◌>>=◌
abbrev pub ◌>>=◌ : {A B : Type 0} → Option A → (A → Option B) → Option B
none >>= f = none
some a >>= f = f a

unfoldable pub complete : Fields → Option TelemetryEvent
complete f = do
  device_id ← good_or_none f.device_id
  boot_id ← good_or_none f.boot_id
  sequence_number ← good_or_none f.sequence_number
  measured_at ← good_or_none f.measured_at
  device_uptime_ms ← good_or_none f.device_uptime_ms
  gateway_received_at ← good_or_none f.gateway_received_at
  metric ← good_or_none f.metric
  value ← good_or_none f.value
  unit ← good_or_none f.unit
  quality ← good_or_none f.quality
  some (record {
    device_id = device_id;
    boot_id = boot_id;
    sequence_number = sequence_number;
    measured_at = measured_at;
    device_uptime_ms = device_uptime_ms;
    gateway_received_at = gateway_received_at;
    metric = metric;
    value = value;
    unit = unit;
    quality = quality;
  })

pub data Validated : Type 0 where
  passed : TelemetryEvent → Validated
  failed : List Problem → Validated

abbrev pub conclude : Option TelemetryEvent → Bool → List Problem → Validated
conclude (some e) false ps = passed e
conclude (some e) true ps = failed ps
conclude none extra ps = failed ps

-- `TelemetryEvent.model_validate`
unfoldable pub model_validate : Instants → Value → Validated
unfolding fields_of complete
model_validate i (object m) =
    let f = fields_of i m in
    let extra = has_other_keys is_event_key m in conclude (complete f) extra (problems f extra)
model_validate i _ = failed (record { place = elsewhere; is_literal = false } ∷ [])

-- A literal error of "metric" or "unit".
abbrev is_label_at : Place → Bool → Bool
is_label_at elsewhere is_literal = false
is_label_at metric_place is_literal = is_literal
is_label_at unit_place is_literal = is_literal

abbrev pub is_label : Problem → Bool
is_label p = is_label_at p.place p.is_literal

abbrev pub is_at_metric : Place → Bool
is_at_metric metric_place = true
is_at_metric unit_place = false
is_at_metric elsewhere = false

unfoldable pub all_labels : List Problem → Bool
all_labels [] = true
all_labels (p ∷ ps) = is_label p && all_labels ps

unfoldable pub any_at_metric : List Problem → Bool
any_at_metric [] = false
any_at_metric (p ∷ ps) = is_at_metric p.place || any_at_metric ps

abbrev pub reason_of : List Problem → ItemReason
reason_of ps =
    if all_labels ps
    then (if any_at_metric ps then invalid_metric else invalid_unit)
    else malformed_value

abbrev pub raw_members : Value → Members
raw_members (object m) = m
raw_members _ = end

-- `_identity`
abbrev pub identity : {A : Type 0} → (Value → Field A) → Option Value → Option A
identity read v = good_or_none (field read v)

abbrev pub item_of : Members → Validated → BatchItem
item_of m (passed e) = event e
item_of m (failed ps) = response (record {
  device_id = identity identifier_of (get "device_id" m);
  boot_id = identity identifier_of (get "boot_id" m);
  sequence_number = identity counter_of (get "sequence_number" m);
  outcome = rejected;
  reason = some (reason_of ps);
})

unfoldable pub validate_telemetry_item : Instants → Value → BatchItem
unfolding model_validate
validate_telemetry_item i payload = item_of (raw_members payload) (model_validate i payload)
