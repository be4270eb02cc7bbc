-- ===== src/Telemetry/Repository.antt =====
-- telemetry/repository.py and devices/repository.py, as ingestion uses them: queries over the
-- database inside a transaction. Row locks order concurrent transactions and change no row, so one
-- transaction is modelled with the tables to itself.
use industrial_equipment_mon.Prelude.{
  ℕ, ◌+◌, String, Bool, true, false, ◌&&◌, Option, none, some, List, [], ◌∷◌, ◌++◌, str_eq, nat_eq,
  eq_string, if◌then◌else◌,
}
use industrial_equipment_mon.Prelude.Table.{Table, lookup, insert}
use industrial_equipment_mon.Telemetry.Schemas.{TelemetryEvent}
use industrial_equipment_mon.Db.Models.{Site, Gateway, Device, Telemetry, Database}

-- What PostgreSQL answers and the repository does not define: whether it can represent an event's
-- values, and its clock at the insertion of a row and at the presence update that follows it.
pub record Server : Type 0 where
  pub representable : TelemetryEvent → Bool
  pub received_at : ℕ → ℕ
  pub seen_at : ℕ → ℕ

abbrev pub site_eligibility : Gateway → Option Site → Option (Bool × Bool)
site_eligibility g none = none
site_eligibility g (some s) = some (g.enabled, s.enabled)

abbrev pub gateway_eligibility : Database → Option Gateway → Option (Bool × Bool)
gateway_eligibility db none = none
gateway_eligibility db (some g) = site_eligibility g (lookup g.site_id db.sites)

-- The gateway joined with its site.
unfoldable pub lock_gateway_eligibility : Database → String → Option (Bool × Bool)
lock_gateway_eligibility db gateway_id = gateway_eligibility db (lookup gateway_id db.gateways)

pub record Assignment : Type 0 where
  pub gateway_id : String
  pub enabled : Bool

abbrev pub contains : String → List String → Bool
contains a [] = false
contains a (x ∷ xs) = if str_eq x a then true else contains a xs

-- The rows of the named devices, as a dict by device.
unfoldable pub lock_assignments : Table String Device → List String → Table String Assignment
lock_assignments [] ids = []
lock_assignments ((id, d) ∷ rest) ids =
    let more = lock_assignments rest ids in
    if contains id ids
    then (id, record { gateway_id = d.gateway_id; enabled = d.enabled }) ∷ more
    else more

abbrev pub is_event : String → String → ℕ → Telemetry → Bool
is_event device_id boot_id sequence_number row =
    str_eq row.device_id device_id
    && str_eq row.boot_id boot_id
    && nat_eq row.sequence_number sequence_number

-- The row of an event identity.
unfoldable pub find_event : String → String → ℕ → List Telemetry → Option Telemetry
find_event device_id boot_id sequence_number [] = none
find_event device_id boot_id sequence_number (row ∷ rest) =
    if is_event device_id boot_id sequence_number row
    then some row
    else find_event device_id boot_id sequence_number rest

abbrev pub find_of : TelemetryEvent → List Telemetry → Option Telemetry
find_of item = find_event item.device_id item.boot_id item.sequence_number

unfoldable pub read_existing_event : Database → TelemetryEvent → Option Telemetry
read_existing_event db item = find_of item db.telemetry

pub data Insertion : Type 0 where
  data_error : Insertion
  conflict : Database → Insertion
  inserted : Telemetry → Database → Insertion

-- The row that an event becomes; its id and its receipt time are the server's.
abbrev pub new_row : Server → ℕ → ℕ → TelemetryEvent → Telemetry
new_row server id schema_version item = record {
  id = id;
  schema_version = schema_version;
  device_id = item.device_id;
  boot_id = item.boot_id;
  sequence_number = item.sequence_number;
  measured_at = item.measured_at;
  device_uptime_ms = item.device_uptime_ms;
  gateway_received_at = item.gateway_received_at;
  backend_received_at = server.received_at id;
  metric = item.metric;
  value = item.value;
  unit = item.unit;
  quality = item.quality;
}

abbrev pub insert_new : Server → Database → ℕ → TelemetryEvent → Option Telemetry → Insertion
insert_new server db schema_version item (some row) =
    conflict (record db { next_telemetry_id = db.next_telemetry_id + 1 })
insert_new server db schema_version item none =
    let row = new_row server db.next_telemetry_id schema_version item in
    inserted row (record db {
      telemetry = db.telemetry ++ row ∷ [];
      next_telemetry_id = db.next_telemetry_id + 1;
    })

-- INSERT … ON CONFLICT DO NOTHING; an insertion that does nothing has still taken a number.
unfoldable pub insert_event : Server → Database → ℕ → TelemetryEvent → Insertion
insert_event server db schema_version item =
    if server.representable item
    then insert_new server db schema_version item (find_of item db.telemetry)
    else data_error

abbrev pub seen_device : ℕ → Option Device → String → Table String Device → Table String Device
seen_device at none device_id devices = devices
seen_device at (some d) device_id devices =
    insert device_id (record d { last_seen_at = some at }) devices

-- UPDATE devices SET last_seen_at: a device that is not there is no error.
unfoldable pub record_presence : Database → String → ℕ → Database
record_presence db device_id at = record db {
  devices = seen_device at (lookup device_id db.devices) device_id db.devices;
}
