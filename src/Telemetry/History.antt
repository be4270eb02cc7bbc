-- ===== src/Telemetry/History.antt =====
-- A device's bounded history: `read_history_rows` of telemetry/repository.py, the event time rule of
-- telemetry/time.py, and `read_device_history` of telemetry/service.py.
pub mod Order
pub mod Newest
pub mod Points
use industrial_equipment_mon.Prelude.{
  ℕ, suc, ◌+◌, ◌-◌, ◌*◌, String, Bool, true, false, ◌&&◌, ◌||◌, not, Option, none, some, List, [],
  ◌∷◌, reverse, leb, ltb, nat_eq, str_eq, eq_string, length, take, is_none, if◌then◌else◌,
}
use industrial_equipment_mon.Prelude.Table.{lookup}
use industrial_equipment_mon.Decimal.{Decimal}
use industrial_equipment_mon.Telemetry.Schemas.{
  ClockQuality, TemperatureUnit, celsius, seconds, minutes,
}
use industrial_equipment_mon.Db.Models.{Telemetry, Device, Database}
use industrial_equipment_mon.Alerts.Service.{trusted_time, is_synchronised}

abbrev pub max_points : ℕ
max_points = 2000

abbrev pub max_range : ℕ
max_range = seconds (7 * 86400)

abbrev pub max_connected_gap : ℕ
max_connected_gap = minutes 2

pub record HistoryRow : Type 0 where
  pub id : ℕ
  pub boot_id : String
  pub sequence_number : ℕ
  pub measured_at : Option ℕ
  pub gateway_received_at : ℕ
  pub clock_quality : ClockQuality
  pub event_at : ℕ
  pub value : Decimal
  pub unit : TemperatureUnit

-- telemetry/time.py: the SQL expression for the time of an event
abbrev pub event_time : Telemetry → ℕ
event_time row = trusted_time row.measured_at row.quality.clock row.gateway_received_at

abbrev pub history_row : Telemetry → HistoryRow
history_row row = record {
  id = row.id;
  boot_id = row.boot_id;
  sequence_number = row.sequence_number;
  measured_at = row.measured_at;
  gateway_received_at = row.gateway_received_at;
  clock_quality = row.quality.clock;
  event_at = event_time row;
  value = row.value;
  unit = row.unit;
}

-- WHERE device_id = … AND event_at >= start AND event_at < end
abbrev pub is_in_range : String → ℕ → ℕ → Telemetry → Bool
is_in_range device_id start end row =
    str_eq row.device_id device_id && leb start (event_time row) && ltb (event_time row) end

unfoldable pub matching : String → ℕ → ℕ → List Telemetry → List HistoryRow
matching device_id start end [] = []
matching device_id start end (row ∷ rest) =
    let more = matching device_id start end rest in
    if is_in_range device_id start end row then history_row row ∷ more else more

-- ORDER BY event_at DESC, id DESC
abbrev pub precedes : HistoryRow → HistoryRow → Bool
precedes a b = ltb b.event_at a.event_at || nat_eq a.event_at b.event_at && ltb b.id a.id

unfoldable pub insert_ordered : HistoryRow → List HistoryRow → List HistoryRow
insert_ordered x [] = x ∷ []
insert_ordered x (y ∷ ys) = if precedes y x then y ∷ insert_ordered x ys else x ∷ y ∷ ys

unfoldable pub newest_first : List HistoryRow → List HistoryRow
newest_first [] = []
newest_first (x ∷ xs) = insert_ordered x (newest_first xs)

unfoldable pub read_history_rows : Database → String → ℕ → ℕ → ℕ → List HistoryRow
read_history_rows db device_id start end limit =
    take limit (newest_first (matching device_id start end db.telemetry))

-- A bound of the query, with or without a timezone.
pub data QueryTime : Type 0 where
  naive : ℕ → QueryTime
  aware : ℕ → QueryTime

pub data TimestampSource : Type 0 where
  measured_at gateway_received_at : TimestampSource

pub record HistoryPoint : Type 0 where
  pub event_at : ℕ
  pub timestamp_source : TimestampSource
  pub measured_at : Option ℕ
  pub gateway_received_at : ℕ
  pub clock_quality : ClockQuality
  pub value : Decimal
  pub unit : TemperatureUnit
  pub gap_before : Bool

pub record DeviceHistory : Type 0 where
  pub device_id : String
  pub unit : TemperatureUnit
  pub range_start : ℕ
  pub range_end : ℕ
  pub truncated : Bool
  pub points : List HistoryPoint

pub data HistoryResult : Type 0 where
  history : DeviceHistory → HistoryResult
  invalid_range device_not_found : HistoryResult

abbrev pub is_measured : HistoryRow → Bool
is_measured row = not (is_none row.measured_at) && is_synchronised row.clock_quality

abbrev pub timestamp_source : HistoryRow → TimestampSource
timestamp_source row =
    if is_measured row then TimestampSource.measured_at else TimestampSource.gateway_received_at

abbrev differ : Bool → Bool → Bool
differ a b = if a then not b else b

-- The subtraction of the source may be negative, which is no gap; here it stops at 0.
abbrev pub gap_before : Option HistoryRow → HistoryRow → Bool
gap_before none row = true
gap_before (some previous) row =
    not (str_eq row.boot_id previous.boot_id)
    || not (nat_eq row.sequence_number (previous.sequence_number + 1))
    || ltb max_connected_gap (row.event_at - previous.event_at)
    || differ (is_measured row) (is_measured previous)

abbrev pub history_point : Option HistoryRow → HistoryRow → HistoryPoint
history_point previous row = record {
  event_at = row.event_at;
  timestamp_source = timestamp_source row;
  measured_at = row.measured_at;
  gateway_received_at = row.gateway_received_at;
  clock_quality = row.clock_quality;
  value = row.value;
  unit = row.unit;
  gap_before = gap_before previous row;
}

-- The loop over the ordered rows, with the previous one.
unfoldable pub history_points : Option HistoryRow → List HistoryRow → List HistoryPoint
history_points previous [] = []
history_points previous (row ∷ rest) = history_point previous row ∷ history_points (some row) rest

abbrev pub is_valid_range : ℕ → ℕ → Bool
is_valid_range start end = ltb start end && leb (end - start) max_range

unfoldable pub read_aware : Database → String → ℕ → ℕ → HistoryResult
read_aware db device_id start end =
    if not (is_valid_range start end)
    then invalid_range
    else if is_none (lookup device_id db.devices)
    then device_not_found
    else let rows = read_history_rows db device_id start end (max_points + 1) in
      history (record {
        device_id = device_id;
        unit = celsius;
        range_start = start;
        range_end = end;
        truncated = ltb max_points (length rows);
        points = history_points none (reverse (take max_points rows));
      })

unfoldable pub read_device_history : Database → String → QueryTime → QueryTime → HistoryResult
read_device_history db device_id (aware start) (aware end) = read_aware db device_id start end
read_device_history db device_id _ _ = invalid_range
