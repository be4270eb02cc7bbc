-- ===== src/Telemetry/Ingest/Resend.antt =====
-- A batch that the gateway sends twice, with other batches between.
use industrial_equipment_mon.Prelude.{◌≡◌, ap, ◌∙◌, String, true, some, List, arith, eq_string}
use industrial_equipment_mon.Prelude.Table.{Table}
use industrial_equipment_mon.Telemetry.Schemas.{TelemetryResponseItem, ValidatedTelemetryBatch}
use industrial_equipment_mon.Db.Models.{commit_confirmed, Database}
use industrial_equipment_mon.Telemetry.Repository.{
  Server, Assignment, lock_assignments, lock_gateway_eligibility,
}
use industrial_equipment_mon.Telemetry.Ingest.{
  ingest_items, ingest_batch, device_ids, is_eligible, committed,
}
use industrial_equipment_mon.Telemetry.Ingest.Retry.{confirm_all, SameTables, items_settle}
use industrial_equipment_mon.Telemetry.Ingest.Registry.{items-SameRegistry, eligibility_same}
use industrial_equipment_mon.Telemetry.Ingest.Traffic.{Ingestion, after_traffic, traffic-Grown}

-- What a committed batch shows: its gateway was eligible, and the loop over its items ended well.
committed_lem :
    (server : Server) (db db1 : Database) (gateway_id : String) (batch : ValidatedTelemetryBatch)
    (batch_id : String) (rs : List TelemetryResponseItem)
    → ingest_batch server commit_confirmed db gateway_id batch batch_id
      ≡ (committed (record { batch_id = batch_id; results = rs }), db1)
    → (is_eligible (lock_gateway_eligibility db gateway_id) ≡ true)
      × (ingest_items server gateway_id
            (lock_assignments db.devices (device_ids batch.items))
            batch.schema_version
            db
            batch.items
          ≡ some (db1, rs))
unfolding ingest_batch
committed_lem server db db1 gateway_id batch batch_id rs h = ground arith

commits_lem :
    (server : Server) (db db1 : Database) (gateway_id : String) (batch : ValidatedTelemetryBatch)
    (batch_id : String) (rs : List TelemetryResponseItem) (assignments : Table String Assignment)
    → is_eligible (lock_gateway_eligibility db gateway_id) ≡ true
    → lock_assignments db.devices (device_ids batch.items) ≡ assignments
    → ingest_items server gateway_id assignments batch.schema_version db batch.items
      ≡ some (db1, rs)
    → ingest_batch server commit_confirmed db gateway_id batch batch_id
      ≡ (committed (record { batch_id = batch_id; results = rs }), db1)
unfolding ingest_batch
commits_lem server db db1 gateway_id batch batch_id rs assignments eligible same loop =
    rw (eligible, same, loop)

-- A batch that was committed and that the same gateway sends again, after any other batches from any
-- gateways, accepted or not: it is committed again, each item that was accepted is now a duplicate and
-- each other result is as before, and no telemetry, alert or device row changes.
pub resend_stores_nothing :
    (server : Server) (db db1 : Database) (gateway_id : String) (batch : ValidatedTelemetryBatch)
    (first_id second_id : String) (rs : List TelemetryResponseItem) (others : List Ingestion)
    → ingest_batch server commit_confirmed db gateway_id batch first_id
      ≡ (committed (record { batch_id = first_id; results = rs }), db1)
    → (db2 : Database) × (ingest_batch server commit_confirmed
          (after_traffic others db1)
          gateway_id
          batch
          second_id
        ≡ (committed (record { batch_id = second_id; results = confirm_all batch.items rs }), db2))
      × SameTables db2 (after_traffic others db1)
resend_stores_nothing server db db1 gateway_id batch first_id second_id rs others h =
    let ids = device_ids batch.items in
    let assignments = lock_assignments db.devices ids in
    let later = after_traffic others db1 in
    let (eligible, loop) = committed_lem server db db1 gateway_id batch first_id rs h in
    let first =
      items-SameRegistry server gateway_id assignments batch.schema_version ids db db1 batch.items
        rs loop in
    let ((ys, grown), then) = traffic-Grown others db1 ids in
    let (db2, again, kept) =
      items_settle server gateway_id assignments batch.schema_version db db1 later ys batch.items rs
        loop grown in
    let eligible_again =
      ap is_eligible (eligibility_same later db gateway_id (then.0 ∙ first.0) (then.1 ∙ first.1))
      ∙ eligible in
    (
      db2,
      commits_lem server later db2 gateway_id batch second_id (confirm_all batch.items rs)
          assignments eligible_again (then.2 ∙ first.2) again,
      kept,
    )
