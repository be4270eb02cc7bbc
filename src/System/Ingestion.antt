-- ===== src/System/Ingestion.antt =====
-- Ingestion, as a step on consistent tables.
use industrial_equipment_mon.Prelude.{
  ℕ, ◌+◌, ◌≡◌, refl, inl, inr, String, false, none, some, List, [], ◌∷◌, ◌++◌, arith, eq_string,
  Bool-cases, Option-cases, is_none,
}
use mathlib.Core.Path.{subst}
use industrial_equipment_mon.Prelude.Table.{Table, lookup}
use industrial_equipment_mon.Telemetry.Schemas.{
  TelemetryEvent, TelemetryResponseItem, BatchItem, event, response, ValidatedTelemetryBatch,
}
use industrial_equipment_mon.Db.Models.{
  Commit, commit_confirmed, commit_refused, commit_unheard, Telemetry, AlertTables, Database,
}
use industrial_equipment_mon.Telemetry.Repository.{
  Server, Assignment, lock_assignments, lock_gateway_eligibility, new_row, find_of,
}
use industrial_equipment_mon.Alerts.Service.{evaluate_accepted_reading}
use industrial_equipment_mon.Alerts.Invariant.{IsValid}
use industrial_equipment_mon.Alerts.Evaluation.{evaluate-Keeps}
use industrial_equipment_mon.Alerts.References.{evaluate-Links}
use industrial_equipment_mon.Alerts.Listing.{value_of}
use industrial_equipment_mon.Telemetry.Ingest.{
  Ingested, ingest_item, ingest_items, ingest_batch, finish, device_ids, is_recent, mark_presence,
  is_eligible, refusal,
}
use industrial_equipment_mon.Telemetry.Ingest.Sound.{IsRegistered, IsSound, stored, realerted}
use industrial_equipment_mon.Telemetry.Ingest.Sound
use industrial_equipment_mon.Telemetry.Ingest.Assignments.{Assigned, lock_assignments-registered}
use industrial_equipment_mon.Telemetry.Ingest.Effect.{Effect, event_effect, numbered, with_row}
use industrial_equipment_mon.Telemetry.Ingest.Answers.{ingest_item-Done}
use industrial_equipment_mon.Telemetry.Ingest.Retry.{items_first}
use industrial_equipment_mon.System.Consistent.{IsConsistent, IsOpened, Links-imp}
use industrial_equipment_mon.System.Requests.{presence-IsConsistent}

value_of-append :
    (id : ℕ) (xs ys : List Telemetry)
    → is_none (value_of id xs) ≡ false
    → is_none (value_of id (xs ++ ys)) ≡ false
unfolding value_of
value_of-append id [] ys h = cc
value_of-append id (x ∷ xs) ys h = ground (arith, value_of-append id xs ys)

value_of-last :
    (id : ℕ) (xs : List Telemetry) (row : Telemetry)
    → row.id ≡ id
    → is_none (value_of id (xs ++ row ∷ [])) ≡ false
unfolding value_of
value_of-last id [] row h = ground arith
value_of-last id (x ∷ xs) row h = ground (arith, value_of-last id xs row h)

numbered-IsConsistent : (db : Database) → IsConsistent db → IsConsistent (numbered db)
numbered-IsConsistent db c = record {
  sound = Sound.numbered db c.sound;
  links = c.links;
  placed = c.placed;
}

module _ (server : Server) (version : ℕ) (db : Database) (c : IsConsistent db)
    (item : TelemetryEvent) (known : IsRegistered db item.device_id) where
  with_row-IsConsistent :
      (alerts : AlertTables)
      → find_of item db.telemetry ≡ none
      → evaluate_accepted_reading db.alerts item db.next_telemetry_id
          (server.received_at db.next_telemetry_id)
        ≡ some alerts
      → IsConsistent (with_row server version item alerts db)
  with_row-IsConsistent alerts missing evaluated =
      let id = db.next_telemetry_id in
      let row = new_row server id version item in
      let db1 : Database = record db {
        telemetry = db.telemetry ++ row ∷ [];
        next_telemetry_id = id + 1;
      } in
      let (a, e, va) = evaluate-Keeps db.alerts item id (server.received_at id) c.sound.alerts in
      let same : a ≡ alerts = cc (e, evaluated) in
      let grown =
        Links-imp (IsRegistered db) (IsRegistered db1) (IsOpened db) (IsOpened db1) db.alerts
          (λ j h. h) (λ j n h. (h.0, value_of-append n db.telemetry (row ∷ []) h.1)) c.links in
      record {
        sound =
            realerted db1 (stored db c.sound server version item missing known) alerts
              (subst IsValid same va);
        links =
            evaluate-Links (IsRegistered db1) (IsOpened db1) item id known
              (known, value_of-last id db.telemetry row refl) db.alerts grown
              (server.received_at id) alerts evaluated;
        placed = c.placed;
      }

  marked-IsConsistent :
      (row : Telemetry) (db2 : Database)
      → IsConsistent db2
      → IsConsistent (mark_presence server row item db2)
  marked-IsConsistent row db2 v =
      elim (Bool-cases (is_recent row.backend_received_at item.gateway_received_at)) [
        | inl recent ↦
            rw recent (presence-IsConsistent db2 item.device_id (server.seen_at row.id) v)
        | inr old ↦ rw old v
      ]

module _ (server : Server) (gateway_id : String) (assignments : Table String Assignment)
    (version : ℕ) where
  allowed_known :
      (db : Database) (item : TelemetryEvent)
      → Assigned db assignments
      → refusal gateway_id (lookup item.device_id assignments) ≡ none
      → IsRegistered db item.device_id
  allowed_known db item known allowed = elim (Option-cases (lookup item.device_id assignments)) [
    | inl missing ↦ absurd (cc (rw missing at allowed))
    | inr (a, found) ↦ known item.device_id a found
  ]

  effect-IsConsistent :
      {db : Database} {item : TelemetryEvent} {db1 : Database} {r : TelemetryResponseItem}
      → IsConsistent db
      → Assigned db assignments
      → Effect server gateway_id assignments version db item db1 r
      → IsConsistent db1
  effect-IsConsistent c known (Effect.unassigned reason why) = c
  effect-IsConsistent c known (Effect.unrepresentable allowed why) = c
  effect-IsConsistent {db} c known (Effect.repeated row allowed fits found same) =
      numbered-IsConsistent db c
  effect-IsConsistent {db} c known (Effect.conflicting row allowed fits found differs) =
      numbered-IsConsistent db c
  effect-IsConsistent {db} {item = item} c known (Effect.stored alerts allowed fits missing e) =
      let there = allowed_known db item known allowed in
      marked-IsConsistent server version db c item there
        (new_row server db.next_telemetry_id version item) (with_row server version item alerts db)
        (with_row-IsConsistent server version db c item there alerts missing e)

  item-IsConsistent :
      (db db1 : Database) (item : BatchItem) (r : TelemetryResponseItem)
      → IsConsistent db
      → Assigned db assignments
      → ingest_item server gateway_id assignments version db item ≡ some (db1, r)
      → IsConsistent db1 × Assigned db1 assignments
  item-IsConsistent db db1 (response r') r c known h =
      let same : db ≡ db1 = cc in
      (subst IsConsistent same c, subst (λ x. Assigned x assignments) same known)
  item-IsConsistent db db1 (event item) r c known h =
      let (db', r', e, _, _, keep) =
        ingest_item-Done server gateway_id assignments version db (event item) c.sound known in
      let same : db' ≡ db1 = cc (e, h) in
      (
        effect-IsConsistent c known
            (event_effect server gateway_id assignments version db db1 item r h),
        subst (λ x. Assigned x assignments) same (λ j a q. keep j (known j a q)),
      )

  items-IsConsistent :
      (db db1 : Database) (items : List BatchItem) (rs : List TelemetryResponseItem)
      → IsConsistent db
      → Assigned db assignments
      → ingest_items server gateway_id assignments version db items ≡ some (db1, rs)
      → IsConsistent db1
  unfolding ingest_items
  items-IsConsistent db db1 [] rs c known h = let same : db ≡ db1 = cc in subst IsConsistent same c
  items-IsConsistent db db1 (item ∷ rest) rs c known h =
      let (db', r, rs', first, others, _) =
        items_first server gateway_id assignments version db db1 item rest rs h in
      let (c', known') = item-IsConsistent db db' item r c known first in
      items-IsConsistent db' db1 rest rs' c' known' others

finish-IsConsistent :
    (db : Database) (commit : Commit) (batch_id : String) (x : Ingested)
    → IsConsistent db
    → ((db1 : Database) (rs : List TelemetryResponseItem) → x ≡ some (db1, rs) → IsConsistent db1)
    → IsConsistent (finish db commit batch_id x).1
finish-IsConsistent db commit batch_id none c h = c
finish-IsConsistent db commit_confirmed batch_id (some (db1, rs)) c h = h db1 rs refl
finish-IsConsistent db commit_refused batch_id (some (db1, rs)) c h = c
finish-IsConsistent db commit_unheard batch_id (some (db1, rs)) c h = h db1 rs refl

pub ingest-IsConsistent :
    (server : Server) (commit : Commit) (db : Database) (gateway_id : String)
    (batch : ValidatedTelemetryBatch) (batch_id : String)
    → IsConsistent db
    → IsConsistent (ingest_batch server commit db gateway_id batch batch_id).1
unfolding ingest_batch
ingest-IsConsistent server commit db gateway_id batch batch_id c =
    elim (Bool-cases (is_eligible (lock_gateway_eligibility db gateway_id))) [
      | inr refused ↦ rw refused c
      | inl eligible ↦ rw eligible (
          finish-IsConsistent db commit batch_id _ c (λ db1 rs h.
            items-IsConsistent server gateway_id
              (lock_assignments db.devices (device_ids batch.items)) batch.schema_version db db1
              batch.items rs c (lock_assignments-registered db (device_ids batch.items)) h))
    ]
