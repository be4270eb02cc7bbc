-- ===== src/Telemetry/Ingest.antt =====
-- telemetry/service.py, `ingest_batch`: one transaction that classifies each item of a batch.
-- `none` is an exception that ends the transaction: a response that its own validator refuses, or an
-- alert episode that is not there. An insertion conflicts with a row that is there, so that the
-- existing event is always found.
pub mod Rows
pub mod Sound
pub mod Assignments
pub mod Answers
pub mod Effect
pub mod Retry
pub mod Registry
pub mod Store
pub mod Refinement
pub mod Traffic
pub mod Resend
use industrial_equipment_mon.Prelude.{
  ℕ, ◌+◌, String, Bool, true, false, ◌&&◌, ◌||◌, not, Option, none, some, List, [], ◌∷◌, leb,
  str_eq, nat_eq, eq_string, option_eq, if◌then◌else◌,
}
use industrial_equipment_mon.Prelude.Table.{Table, lookup}
use industrial_equipment_mon.Decimal.{eq_decimal}
use industrial_equipment_mon.Telemetry.Schemas.{
  ClockQuality, synchronised, unsynchronised, estimated, unknown, ItemReason, unknown_device,
  wrong_gateway, malformed_value, identity_conflict, Outcome, accepted, duplicate, rejected,
  TelemetryEvent, TelemetryResponseItem, Checked, ok, invalid, validate_outcome, BatchItem, event,
  response, ValidatedTelemetryBatch, TelemetryBatchResponse, seconds,
}
use industrial_equipment_mon.Db.Models.{
  Commit, is_confirmed, settled, Telemetry, AlertTables, Database,
}
use industrial_equipment_mon.Alerts.Service.{evaluate_accepted_reading}
use industrial_equipment_mon.Telemetry.Repository.{
  Server, Assignment, Insertion, data_error, conflict, inserted, lock_gateway_eligibility,
  lock_assignments, insert_event, read_existing_event, record_presence,
}

abbrev pub clock_eq : ClockQuality → ClockQuality → Bool
clock_eq synchronised synchronised = true
clock_eq unsynchronised unsynchronised = true
clock_eq estimated estimated = true
clock_eq unknown unknown = true
clock_eq _ _ = false

-- The comparison over `IMMUTABLE_CONTENT_FIELDS`; metric, unit and the quality's reading have one
-- value each.
unfoldable pub same_content : Telemetry → ℕ → TelemetryEvent → Bool
same_content existing schema_version item =
    nat_eq existing.schema_version schema_version
    && option_eq nat_eq existing.measured_at item.measured_at
    && nat_eq existing.device_uptime_ms item.device_uptime_ms
    && eq_decimal existing.value item.value
    && clock_eq existing.quality.clock item.quality.clock

abbrev checked : Checked TelemetryResponseItem → Option TelemetryResponseItem
checked (ok r) = some r
checked (invalid e) = none

-- `TelemetryResponseItem(**identity, …)`, which runs its validator.
unfoldable pub respond : TelemetryEvent → Outcome → Option ItemReason → Option TelemetryResponseItem
respond item outcome reason = checked (
    validate_outcome (record {
      device_id = some item.device_id;
      boot_id = some item.boot_id;
      sequence_number = some item.sequence_number;
      outcome = outcome;
      reason = reason;
    }))

abbrev pub Step : Type 0
Step = Option (Database × TelemetryResponseItem)

-- The response of a classified item, with the tables that the item has left.
abbrev pub answer : Database → Option TelemetryResponseItem → Step
answer db none = none
answer db (some r) = some (db, r)

abbrev pub refusal : String → Option Assignment → Option ItemReason
refusal gateway_id none = some unknown_device
refusal gateway_id (some a) =
    if not (str_eq a.gateway_id gateway_id) || not a.enabled then some wrong_gateway else none

-- Only recent contact of the gateway counts as presence of the device.
abbrev pub is_recent : ℕ → ℕ → Bool
is_recent backend_received_at gateway_received_at =
    leb gateway_received_at backend_received_at
    && leb backend_received_at (gateway_received_at + seconds 90)

abbrev pub mark_presence : Server → Telemetry → TelemetryEvent → Database → Database
mark_presence server row item db =
    if is_recent row.backend_received_at item.gateway_received_at
    then record_presence db item.device_id (server.seen_at row.id)
    else db

abbrev pub accept : Server → Telemetry → TelemetryEvent → Database → Option AlertTables → Step
accept server row item db none = none
accept server row item db (some alerts) =
    answer (mark_presence server row item (record db { alerts = alerts }))
      (respond item accepted none)

abbrev pub compare_existing : ℕ → TelemetryEvent → Database → Option Telemetry → Step
compare_existing schema_version item db none = none
compare_existing schema_version item db (some existing) =
    if same_content existing schema_version item
    then answer db (respond item duplicate none)
    else answer db (respond item rejected (some identity_conflict))

abbrev pub after_insertion : Server → ℕ → TelemetryEvent → Database → Insertion → Step
after_insertion server schema_version item db data_error =
    answer db (respond item rejected (some malformed_value))
after_insertion server schema_version item db (conflict db') =
    compare_existing schema_version item db' (read_existing_event db' item)
after_insertion server schema_version item db (inserted row db') =
    accept server row item db'
      (evaluate_accepted_reading db'.alerts item row.id row.backend_received_at)

abbrev pub ingest_assigned : Server → ℕ → TelemetryEvent → Database → Option ItemReason → Step
ingest_assigned server schema_version item db (some reason) =
    answer db (respond item rejected (some reason))
ingest_assigned server schema_version item db none =
    after_insertion server schema_version item db (insert_event server db schema_version item)

unfoldable pub ingest_event :
    Server → String → Table String Assignment → ℕ → Database → TelemetryEvent → Step
ingest_event server gateway_id assignments schema_version db item =
    ingest_assigned server schema_version item db
      (refusal gateway_id (lookup item.device_id assignments))

-- An item that validation has rejected is passed on as it is.
abbrev pub ingest_item : Server → String → Table String Assignment → ℕ → Database → BatchItem → Step
ingest_item server gateway_id assignments schema_version db (response r) = some (db, r)
ingest_item server gateway_id assignments schema_version db (event item) =
    ingest_event server gateway_id assignments schema_version db item

abbrev pub Ingested : Type 0
Ingested = Option (Database × List TelemetryResponseItem)

abbrev pub with_result : TelemetryResponseItem → Ingested → Ingested
with_result r none = none
with_result r (some (db, rs)) = some (db, r ∷ rs)

-- The loop over the items, which carries the tables and collects the results in order.
unfoldable pub ingest_items :
    Server → String → Table String Assignment → ℕ → Database → List BatchItem → Ingested
ingest_items server gateway_id assignments schema_version db [] = some (db, [])
ingest_items server gateway_id assignments schema_version db (item ∷ rest) =
    elim (ingest_item server gateway_id assignments schema_version db item) [
      | none ↦ none
      | some (db', r) ↦
          with_result r (ingest_items server gateway_id assignments schema_version db' rest)
    ]

-- The devices that the valid items name.
abbrev pub device_ids : List BatchItem → List String
device_ids [] = []
device_ids (event item ∷ rest) = item.device_id ∷ device_ids rest
device_ids (response r ∷ rest) = device_ids rest

pub data IngestResult : Type 0 where
  committed : TelemetryBatchResponse → IngestResult
  gateway_forbidden : IngestResult
  -- an error of the database, and any other exception of the loop
  failed crashed : IngestResult

-- Leaving the transaction: nothing is written after an exception, and the commit decides otherwise.
abbrev pub finish : Database → Commit → String → Ingested → IngestResult × Database
finish db commit batch_id none = (crashed, db)
finish db commit batch_id (some (db', results)) =
    if is_confirmed commit
    then (committed (record { batch_id = batch_id; results = results }), db')
    else (failed, settled commit db db')

abbrev pub is_eligible : Option (Bool × Bool) → Bool
is_eligible none = false
is_eligible (some (gateway, site)) = gateway && site

-- `commit` is how the commit goes.
unfoldable pub ingest_batch :
    Server → Commit → Database → String → ValidatedTelemetryBatch → String → IngestResult × Database
ingest_batch server commit db gateway_id batch batch_id =
    if not (is_eligible (lock_gateway_eligibility db gateway_id))
    then (gateway_forbidden, db)
    else finish db commit batch_id (
        ingest_items server gateway_id (lock_assignments db.devices (device_ids batch.items))
          batch.schema_version db batch.items)
