-- ===== src/Devices/Status.antt =====
-- devices/repository.py, `list_status_rows`, and devices/service.py, `list_device_status`: each device
-- with its presence and its newest reading. The order of the list is by the database's collation, and
-- is not modelled.
pub mod Presence
use industrial_equipment_mon.Prelude.{
  ℕ, ◌+◌, ◌-◌, String, Bool, true, false, ◌&&◌, not, Option, none, some, List, [], ◌∷◌, leb, str_eq,
  is_none, eq_string, if◌then◌else◌,
}
use industrial_equipment_mon.Prelude.Table.{Table, lookup}
use industrial_equipment_mon.Decimal.{Decimal}
use industrial_equipment_mon.Telemetry.Schemas.{ClockQuality, TemperatureUnit, seconds}
use industrial_equipment_mon.Db.Models.{Site, Gateway, Device, Telemetry, Database}
use industrial_equipment_mon.Telemetry.History.{
  HistoryRow, TimestampSource, history_row, newest_first, timestamp_source,
}

abbrev pub online_window : ℕ
online_window = seconds 90

pub record LatestReading : Type 0 where
  pub value : Decimal
  pub unit : TemperatureUnit
  pub measured_at : Option ℕ
  pub gateway_received_at : ℕ
  pub event_at : ℕ
  pub timestamp_source : TimestampSource
  pub clock_quality : ClockQuality

pub record DeviceStatus : Type 0 where
  pub device_id : String
  pub name : String
  pub gateway_id : String
  pub enabled : Bool
  pub online : Bool
  pub last_seen_at : Option ℕ
  pub latest_reading : Option LatestReading

unfoldable pub device_rows : String → List Telemetry → List HistoryRow
device_rows device_id [] = []
device_rows device_id (row ∷ rest) =
    let more = device_rows device_id rest in
    if str_eq row.device_id device_id then history_row row ∷ more else more

abbrev pub first_row : List HistoryRow → Option HistoryRow
first_row [] = none
first_row (x ∷ xs) = some x

-- The lateral subquery: the newest reading by event time, then by number.
unfoldable pub latest_row : Database → String → Option HistoryRow
unfolding device_rows
latest_row db device_id = first_row (newest_first (device_rows device_id db.telemetry))

abbrev pub latest_reading : Option HistoryRow → Option LatestReading
latest_reading none = none
latest_reading (some row) = some (record {
  value = row.value;
  unit = row.unit;
  measured_at = row.measured_at;
  gateway_received_at = row.gateway_received_at;
  event_at = row.event_at;
  timestamp_source = timestamp_source row;
  clock_quality = row.clock_quality;
})

-- now - ONLINE_WINDOW <= last_seen_at <= now
abbrev pub seen_within : ℕ → Option ℕ → Bool
seen_within now none = false
seen_within now (some at) = leb (now - online_window) at && leb at now

abbrev pub is_online : ℕ → Device → Gateway → Site → Bool
is_online now d g s = d.enabled && g.enabled && s.enabled && seen_within now d.last_seen_at

abbrev pub device_status : Database → ℕ → String → Device → Gateway → Site → DeviceStatus
device_status db now id d g s = record {
  device_id = id;
  name = d.name;
  gateway_id = d.gateway_id;
  enabled = d.enabled;
  online = is_online now d g s;
  last_seen_at = d.last_seen_at;
  latest_reading = latest_reading (latest_row db id);
}

abbrev pub status_at_site :
    Database → ℕ → String → Device → Gateway → Option Site → Option DeviceStatus
status_at_site db now id d g none = none
status_at_site db now id d g (some s) = some (device_status db now id d g s)

-- The inner joins with the gateway and its site.
abbrev pub status_at_gateway : Database → ℕ → String → Device → Option Gateway → Option DeviceStatus
status_at_gateway db now id d none = none
status_at_gateway db now id d (some g) = status_at_site db now id d g (lookup g.site_id db.sites)

unfoldable pub status_of : Database → ℕ → String → Device → Option DeviceStatus
status_of db now id d = status_at_gateway db now id d (lookup d.gateway_id db.gateways)

abbrev add_status : Option DeviceStatus → List DeviceStatus → List DeviceStatus
add_status none more = more
add_status (some s) more = s ∷ more

unfoldable pub status_list : Database → ℕ → Table String Device → List DeviceStatus
status_list db now [] = []
status_list db now ((id, d) ∷ rest) = add_status (status_of db now id d) (status_list db now rest)

unfoldable pub list_device_status : Database → ℕ → List DeviceStatus
unfolding status_list
list_device_status db now = status_list db now db.devices
