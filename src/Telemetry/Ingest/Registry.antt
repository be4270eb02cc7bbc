-- ===== src/Telemetry/Ingest/Registry.antt =====
-- What `ingest_batch` reads of the registry, before and after a batch.
use industrial_equipment_mon.Prelude.{
  ℕ, ◌≡◌, refl, ◌∙◌, inl, inr, String, some, List, [], ◌∷◌, arith, str_eq_iff, eq_string,
  Option-cases,
}
use industrial_equipment_mon.Prelude.Table.{Table, lookup, insert}
use industrial_equipment_mon.Telemetry.Schemas.{TelemetryResponseItem, BatchItem, event, response}
use industrial_equipment_mon.Db.Models.{Device, Database}
use industrial_equipment_mon.Telemetry.Repository.{
  Server, Assignment, lock_assignments, lock_gateway_eligibility, seen_device, record_presence,
  insert_event,
}
use industrial_equipment_mon.Telemetry.Ingest.{ingest_event, ingest_item, ingest_items}
use industrial_equipment_mon.Telemetry.Ingest.Retry.{items_first}

-- Seeing a device changes no assignment.
lock_assignments-insert :
    (k : String) (d d' : Device) (devices : Table String Device) (ids : List String)
    → lookup k devices ≡ some d
    → d'.gateway_id ≡ d.gateway_id
    → d'.enabled ≡ d.enabled
    → lock_assignments (insert k d' devices) ids ≡ lock_assignments devices ids
unfolding lock_assignments lookup insert
lock_assignments-insert k d d' [] ids h p q = cc
lock_assignments-insert k d d' ((j, x) ∷ rest) ids h p q =
    ground (arith, str_eq_iff j k, lock_assignments-insert k d d' rest ids)

seen_device-assignments :
    (at : ℕ) (device_id : String) (devices : Table String Device) (ids : List String)
    → lock_assignments (seen_device at (lookup device_id devices) device_id devices) ids
      ≡ lock_assignments devices ids
seen_device-assignments at device_id devices ids = elim (Option-cases (lookup device_id devices)) [
  | inl missing ↦ rw missing
  | inr (d, there) ↦ rw there (
      lock_assignments-insert device_id d (record d { last_seen_at = some at }) devices ids there
        refl refl)
]

-- What ingestion leaves of the registry: the gateways, the sites and the assignments.
abbrev pub SameRegistry : Database → Database → List String → Type 0
SameRegistry a b ids =
    (a.gateways ≡ b.gateways)
    × (a.sites ≡ b.sites)
    × (lock_assignments a.devices ids ≡ lock_assignments b.devices ids)

module _ (server : Server) (gateway_id : String) (assignments : Table String Assignment)
    (version : ℕ) (ids : List String) where
  step-SameRegistry :
      (db db1 : Database) (item : BatchItem) (r : TelemetryResponseItem)
      → ingest_item server gateway_id assignments version db item ≡ some (db1, r)
      → SameRegistry db1 db ids
  unfolding ingest_event insert_event record_presence
  step-SameRegistry db db1 (response r') r h = ground arith
  step-SameRegistry db db1 (event item) r h = ground (
    arith,
    seen_device-assignments (server.seen_at db.next_telemetry_id) item.device_id db.devices ids,
  )

  pub items-SameRegistry :
      (db db1 : Database) (items : List BatchItem) (rs : List TelemetryResponseItem)
      → ingest_items server gateway_id assignments version db items ≡ some (db1, rs)
      → SameRegistry db1 db ids
  unfolding ingest_items
  items-SameRegistry db db1 [] rs h = ground arith
  items-SameRegistry db db1 (item ∷ rest) rs h =
      let (db', r, rs', first, others, _) =
        items_first server gateway_id assignments version db db1 item rest rs h in
      let a = items-SameRegistry db' db1 rest rs' others in
      let b = step-SameRegistry db db' item r first in (a.0 ∙ b.0, a.1 ∙ b.1, a.2 ∙ b.2)

pub eligibility_same :
    (a b : Database) (gateway_id : String)
    → a.gateways ≡ b.gateways
    → a.sites ≡ b.sites
    → lock_gateway_eligibility a gateway_id ≡ lock_gateway_eligibility b gateway_id
unfolding lock_gateway_eligibility
eligibility_same a b gateway_id p q = ground arith
