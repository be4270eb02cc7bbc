-- ===== src/Telemetry/Ingest/Answers.antt =====
-- Every item of a batch gets one result, in order, and the tables stay sound.
use industrial_equipment_mon.Prelude.{
  ℕ, ◌+◌, ◌≡◌, refl, ap, inl, inr, String, true, Option, none, some, List, [], ◌∷◌, ◌++◌, eq_string,
  Bool-cases, Option-cases,
}
use industrial_equipment_mon.Prelude.Table.{Table, lookup}
use industrial_equipment_mon.Telemetry.Schemas.{
  TelemetryEvent, TelemetryResponseItem, Outcome, accepted, duplicate, rejected, ItemReason,
  malformed_value, identity_conflict, unknown_device, BatchItem, event, response,
  ValidatedTelemetryBatch, validate_outcome, ok,
}
use industrial_equipment_mon.Db.Models.{commit_confirmed, Telemetry, AlertTables, Database}
use industrial_equipment_mon.Alerts.Invariant.{IsValid}
use industrial_equipment_mon.Alerts.Evaluation.{evaluate-Keeps}
use industrial_equipment_mon.Telemetry.Repository.{
  Server, Assignment, insert_event, new_row, find_of, lock_assignments, lock_gateway_eligibility,
  record_presence, read_existing_event,
}
use industrial_equipment_mon.Telemetry.Ingest.{
  Step, respond, answer, accept, same_content, after_insertion, ingest_event, ingest_item,
  ingest_items, ingest_batch, refusal, is_recent, device_ids, is_eligible, committed,
}
use industrial_equipment_mon.Telemetry.Ingest.Sound.{
  IsRegistered, IsSound, numbered, realerted, stored, seen_keeps, seen,
}
use industrial_equipment_mon.Telemetry.Ingest.Assignments.{Assigned, lock_assignments-registered}

-- The result of an item: the one that validation made, or one with the event's identity that the
-- response model's own validator accepts.
abbrev pub Answers : BatchItem → TelemetryResponseItem → Type 0
Answers (response r) r' = r' ≡ r
Answers (event item) r' =
    (r'.device_id ≡ some item.device_id)
    × (r'.boot_id ≡ some item.boot_id)
    × (r'.sequence_number ≡ some item.sequence_number)
    × (validate_outcome r' ≡ ok r')

-- One result for each item, in order.
abbrev pub AnswersAll : List BatchItem → List TelemetryResponseItem → Type 0
AnswersAll [] [] = Unit
AnswersAll [] (r ∷ rs) = ⊥
AnswersAll (item ∷ items) [] = ⊥
AnswersAll (item ∷ items) (r ∷ rs) = Answers item r × AnswersAll items rs

module _ (item : TelemetryEvent) where
  abbrev pub result : Outcome → Option ItemReason → TelemetryResponseItem
  result o reason = record {
    device_id = some item.device_id;
    boot_id = some item.boot_id;
    sequence_number = some item.sequence_number;
    outcome = o;
    reason = reason;
  }

  abbrev Responds : Outcome → Option ItemReason → Type 0
  Responds o reason =
      (r : TelemetryResponseItem) × (respond item o reason ≡ some r) × Answers (event item) r

  rejects : (reason : ItemReason) → Responds rejected (some reason)
  unfolding respond validate_outcome
  rejects reason = (result rejected (some reason), refl, (refl, refl, refl, refl))

  accepts : Responds accepted none
  unfolding respond validate_outcome
  accepts = (result accepted none, refl, (refl, refl, refl, refl))

  repeats : Responds duplicate none
  unfolding respond validate_outcome
  repeats = (result duplicate none, refl, (refl, refl, refl, refl))

-- What one item leaves: sound tables in which every registered device is still registered.
abbrev pub Done : Database → BatchItem → Step → Type 0
Done db item step =
    (db' : Database) × (r : TelemetryResponseItem) × (step ≡ some (db', r))
    × Answers item r
    × IsSound db'
    × ((j : String) → IsRegistered db j → IsRegistered db' j)

answered :
    (db db' : Database) (item : TelemetryEvent) (o : Outcome) (reason : Option ItemReason)
    → Responds item o reason
    → IsSound db'
    → ((j : String) → IsRegistered db j → IsRegistered db' j)
    → Done db (event item) (answer db' (respond item o reason))
answered db db' item o reason (r, e, a) v keep = (db', r, ap (answer db') e, a, v, keep)

module _ (server : Server) (version : ℕ) (item : TelemetryEvent) (db : Database)
    (v : IsSound db) where
  accept-Done :
      (db1 : Database) (a : AlertTables) (row : Telemetry)
      → IsSound db1
      → IsValid a
      → ((j : String) → IsRegistered db j → IsRegistered db1 j)
      → Done db (event item) (accept server row item db1 (some a))
  accept-Done db1 a row v1 va keep =
      let db2 : Database = record db1 { alerts = a } in
      let v2 = realerted db1 v1 a va in
      elim (Bool-cases (is_recent row.backend_received_at item.gateway_received_at)) [
        | inl recent ↦ rw recent (
            answered db (record_presence db2 item.device_id (server.seen_at row.id)) item accepted
              none (accepts item) (seen db2 v2 item.device_id (server.seen_at row.id))
              (λ j h. seen_keeps db2 v2 item.device_id (server.seen_at row.id) j (keep j h)))
        | inr old ↦ rw old (answered db db2 item accepted none (accepts item) v2 keep)
      ]

  insertion-Done :
      IsRegistered db item.device_id
      → Done db
          (event item)
          (after_insertion server version item db (insert_event server db version item))
  unfolding insert_event read_existing_event
  insertion-Done known = elim (Bool-cases (server.representable item)) [
    | inr not_representable ↦ rw not_representable (
        answered db db item rejected (some malformed_value) (rejects item malformed_value) v
          (λ j h. h))
    | inl fits ↦ rw fits (elim (Option-cases (find_of item db.telemetry)) [
      | inr (row, found) ↦ rw found (
          rw found (elim (Bool-cases (same_content row version item)) [
            | inl same ↦
                rw same
                  (answered db _ item duplicate none (repeats item) (numbered db v) (λ j h. h))
            | inr differs ↦ rw differs (
                answered db _ item rejected (some identity_conflict)
                  (rejects item identity_conflict) (numbered db v) (λ j h. h))
          ]))
      | inl missing ↦
          let id = db.next_telemetry_id in
          let (a, e, va) = evaluate-Keeps db.alerts item id (server.received_at id) v.alerts in
          let row = new_row server id version item in
          rw missing (
            rw e (
              accept-Done
                (record db { telemetry = db.telemetry ++ row ∷ []; next_telemetry_id = id + 1 }) a
                row (stored db v server version item missing known) va (λ j h. h)))
    ])
  ]

module _ (server : Server) (gateway_id : String) (assignments : Table String Assignment)
    (version : ℕ) where
  ingest_event-Done :
      (db : Database) (item : TelemetryEvent)
      → IsSound db
      → Assigned db assignments
      → Done db (event item) (ingest_event server gateway_id assignments version db item)
  unfolding ingest_event
  ingest_event-Done db item v known = elim (Option-cases (lookup item.device_id assignments)) [
    | inl missing ↦ rw missing (
        answered db db item rejected (some unknown_device) (rejects item unknown_device) v
          (λ j h. h))
    | inr (a, found) ↦ rw found (elim (Option-cases (refusal gateway_id (some a))) [
      | inr (reason, refused) ↦
          rw refused (answered db db item rejected (some reason) (rejects item reason) v (λ j h. h))
      | inl allowed ↦
          rw allowed (insertion-Done server version item db v (known item.device_id a found))
    ])
  ]

  pub ingest_item-Done :
      (db : Database) (item : BatchItem)
      → IsSound db
      → Assigned db assignments
      → Done db item (ingest_item server gateway_id assignments version db item)
  ingest_item-Done db (response r) v known = (db, r, refl, refl, v, (λ j h. h))
  ingest_item-Done db (event item) v known = ingest_event-Done db item v known

  pub ingest_items-answers :
      (items : List BatchItem) (db : Database)
      → IsSound db
      → Assigned db assignments
      → (db' : Database) × (rs : List TelemetryResponseItem) × (ingest_items server gateway_id
            assignments version db items
          ≡ some (db', rs))
        × AnswersAll items rs
        × IsSound db'
  unfolding ingest_items
  ingest_items-answers [] db v known = (db, [], refl, tt, v)
  ingest_items-answers (item ∷ rest) db v known =
      let (db1, r, e, a, v1, keep) = ingest_item-Done db item v known in
      let (db', rs, e', each, v') =
        ingest_items-answers rest db1 v1 (λ j x h. keep j (known j x h)) in
      (db', r ∷ rs, rw (e, ingest_items) (rw e'), (a, each), v')

-- For an eligible gateway on sound tables, and a database that confirms its commit: ingestion ends
-- without an exception in sound tables, and its response holds one result for each item in order,
-- each with the identity of its event and accepted by the response model's validator, or the
-- rejection that validation made.
pub ingest_batch-answers :
    (server : Server) (db : Database) (gateway_id : String) (batch : ValidatedTelemetryBatch)
    (batch_id : String)
    → IsSound db
    → is_eligible (lock_gateway_eligibility db gateway_id) ≡ true
    → (db' : Database) × (rs : List TelemetryResponseItem) × (ingest_batch server commit_confirmed
          db gateway_id batch batch_id
        ≡ (committed (record { batch_id = batch_id; results = rs }), db'))
      × AnswersAll batch.items rs
      × IsSound db'
unfolding ingest_batch
ingest_batch-answers server db gateway_id batch batch_id v eligible =
    let ids = device_ids batch.items in
    let (db', rs, e, each, v') =
      ingest_items-answers server gateway_id (lock_assignments db.devices ids) batch.schema_version
        batch.items db v (lock_assignments-registered db ids) in
    (db', rs, rw eligible (rw e), each, v')
