-- ===== src/Telemetry/Schemas.antt =====
-- telemetry/schemas.py: the validated wire models of the telemetry-batch.v1 contract.
-- A time is the number of microseconds since the first instant that Python's `datetime` can hold;
-- `normalize_utc` has put every time into UTC, so that one number stands for one instant.
use industrial_equipment_mon.Prelude.{
  ℕ, ◌-◌, ◌*◌, ◌^◌, String, Bool, true, false, ◌&&◌, ◌||◌, not, Option, none, some, List, is_none,
  if◌then◌else◌,
}
use industrial_equipment_mon.Decimal.{Decimal}

abbrev pub max_batch_size : ℕ
max_batch_size = 500

abbrev pub max_identifier_length : ℕ
max_identifier_length = 128

abbrev pub max_counter : ℕ
max_counter = 2 ^ 63 - 1

-- `timedelta(seconds=n)` in microseconds
abbrev pub seconds : ℕ → ℕ
seconds n = n * 1000000

abbrev pub minutes : ℕ → ℕ
minutes n = seconds (n * 60)

pub data ClockQuality : Type 0 where
  synchronised unsynchronised estimated unknown : ClockQuality

pub data ItemReason : Type 0 where
  unknown_device wrong_gateway invalid_metric invalid_unit value_out_of_range : ItemReason
  malformed_value identity_conflict : ItemReason

pub data Outcome : Type 0 where
  accepted duplicate rejected : Outcome

pub data Reading : Type 0 where
  valid : Reading

pub data Metric : Type 0 where
  temperature : Metric

pub data TemperatureUnit : Type 0 where
  celsius : TemperatureUnit

pub record TelemetryQuality : Type 0 where
  pub reading : Reading
  pub clock : ClockQuality

-- A reading that validation has passed.
pub record TelemetryEvent : Type 0 where
  pub device_id : String
  pub boot_id : String
  pub sequence_number : ℕ
  pub measured_at : Option ℕ
  pub device_uptime_ms : ℕ
  pub gateway_received_at : ℕ
  pub metric : Metric
  pub value : Decimal
  pub unit : TemperatureUnit
  pub quality : TelemetryQuality

pub record TelemetryResponseItem : Type 0 where
  pub device_id : Option String
  pub boot_id : Option String
  pub sequence_number : Option ℕ
  pub outcome : Outcome
  pub reason : Option ItemReason

pub data ItemError : Type 0 where
  reason_required incomplete_identity reason_forbidden identity_required : ItemError

pub data Checked (A : Type 0) : Type 0 where
  ok : A → Checked A
  invalid : ItemError → Checked A

-- `None in (self.device_id, self.boot_id, self.sequence_number)`
abbrev pub lacks_identity : TelemetryResponseItem → Bool
lacks_identity r = is_none r.device_id || is_none r.boot_id || is_none r.sequence_number

abbrev is_malformed : ItemReason → Bool
is_malformed malformed_value = true
is_malformed _ = false

abbrev check_rejected : TelemetryResponseItem → Option ItemReason → Checked TelemetryResponseItem
check_rejected r none = invalid reason_required
check_rejected r (some reason) =
    if lacks_identity r && not (is_malformed reason) then invalid incomplete_identity else ok r

abbrev check_confirmed : TelemetryResponseItem → Option ItemReason → Checked TelemetryResponseItem
check_confirmed r (some reason) = invalid reason_forbidden
check_confirmed r none = if lacks_identity r then invalid identity_required else ok r

-- The model validator of `TelemetryResponseItem`, by its outcome.
abbrev check_outcome : TelemetryResponseItem → Outcome → Checked TelemetryResponseItem
check_outcome r rejected = check_rejected r r.reason
check_outcome r _ = check_confirmed r r.reason

unfoldable pub validate_outcome : TelemetryResponseItem → Checked TelemetryResponseItem
validate_outcome r = check_outcome r r.outcome

-- One result of validation: a reading, or the permanent rejection of a malformed one.
pub data BatchItem : Type 0 where
  event : TelemetryEvent → BatchItem
  response : TelemetryResponseItem → BatchItem

pub record ValidatedTelemetryBatch : Type 0 where
  pub schema_version : ℕ
  pub items : List BatchItem

pub record TelemetryBatchResponse : Type 0 where
  pub batch_id : String
  pub results : List TelemetryResponseItem
