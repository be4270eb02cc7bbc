-- ===== src/Telemetry/Router.antt =====
-- telemetry/router.py: the route that ingests a batch, and the route of a device's history. A reason
-- is modelled, the message and the batch's identifier beside it are not.
pub mod Answers
use industrial_equipment_mon.Prelude.{String, Bool, Option, none, some, List, if◌then◌else◌}
use industrial_equipment_mon.Core.{Reply, success, failure, unhandled}
use industrial_equipment_mon.Core.GatewayAuth.{Credential, resolve_gateway}
use industrial_equipment_mon.Telemetry.Json.{Value}
use industrial_equipment_mon.Telemetry.Schemas.{ValidatedTelemetryBatch, TelemetryBatchResponse}
use industrial_equipment_mon.Db.Models.{
  Commit, is_confirmed, settled, commit_confirmed, commit_refused, commit_unheard, Database,
}
use industrial_equipment_mon.Telemetry.Repository.{Server}
use industrial_equipment_mon.Telemetry.Ingest.{
  IngestResult, committed, gateway_forbidden, failed, crashed, ingest_batch,
}
use industrial_equipment_mon.Telemetry.Validation.{Instants}
use industrial_equipment_mon.Telemetry.Validation.Batch.{
  BatchReason, unsupported_schema_version, batch_too_large, malformed_batch, ParsedBatch, parsed,
  refused, parse_telemetry_batch,
}
use industrial_equipment_mon.Telemetry.History.{
  QueryTime, DeviceHistory, HistoryResult, history, invalid_range, device_not_found,
  read_device_history,
}

abbrev pub batch_reason : BatchReason → String
batch_reason unsupported_schema_version = "unsupported_schema_version"
batch_reason batch_too_large = "batch_too_large"
batch_reason malformed_batch = "malformed_batch"

abbrev pub ingestion_reply : IngestResult → Reply TelemetryBatchResponse
ingestion_reply (committed r) = success 200 r
ingestion_reply gateway_forbidden = failure 403 "gateway_not_authorized"
ingestion_reply failed = failure 503 "ingestion_unavailable"
ingestion_reply crashed = unhandled

abbrev pub Ingestion : Type 0
Ingestion = Reply TelemetryBatchResponse × Database

abbrev pub replied : IngestResult × Database → Ingestion
replied (result, db) = (ingestion_reply result, db)

-- `read_telemetry_batch` turns a refusal into the answer 400.
abbrev pub ingest_parsed : Server → Commit → Database → String → String → ParsedBatch → Ingestion
ingest_parsed server commit db gateway_id batch_id (refused reason) =
    (failure 400 (batch_reason reason), db)
ingest_parsed server commit db gateway_id batch_id (parsed batch) =
    replied (ingest_batch server commit db gateway_id batch batch_id)

-- The dependency on `resolve_gateway` answers 401 before the body is read.
abbrev pub ingest_as :
    Instants
    → (String → Option Value)
    → Server
    → Commit
    → Database
    → String
    → String
    → Option String
    → Ingestion
ingest_as i decode server commit db body batch_id none =
    (failure 401 "invalid_gateway_credential", db)
ingest_as i decode server commit db body batch_id (some gateway_id) =
    ingest_parsed server commit db gateway_id batch_id (parse_telemetry_batch i decode body)

-- `batch_id` is the new UUID of the request, `commit` how its commit goes.
unfoldable pub ingest_telemetry :
    Instants
    → (String → Option Value)
    → List Credential
    → Server
    → Commit
    → Database
    → List String
    → String
    → String
    → Ingestion
ingest_telemetry i decode credentials server commit db headers body batch_id =
    ingest_as i decode server commit db body batch_id (resolve_gateway credentials headers)

-- The range is checked before the database is asked, which may fail.
abbrev pub history_reply : Bool → HistoryResult → Reply DeviceHistory
history_reply available invalid_range = failure 422 "invalid_history_range"
history_reply available device_not_found =
    if available then failure 404 "unknown_device" else failure 503 "history_unavailable"
history_reply available (history h) =
    if available then success 200 h else failure 503 "history_unavailable"

unfoldable pub get_device_history :
    Bool → Database → String → QueryTime → QueryTime → Reply DeviceHistory
get_device_history available db device_id range_start range_end =
    history_reply available (read_device_history db device_id range_start range_end)
