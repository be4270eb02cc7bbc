-- ===== src/Telemetry/Ingest/Sound.antt =====
-- Sound tables: what the constraints of the telemetry table and of the alert tables ask for.
use industrial_equipment_mon.Prelude.{
  ℕ, ◌+◌, ◌<◌, ◌≡◌, inl, inr, String, none, some, [], ◌∷◌, ◌++◌, arith, eq_string, All, All-append,
  All-imp, Option-cases,
}
use industrial_equipment_mon.Prelude.Table.{lookup, lookup-insert_keeps}
use industrial_equipment_mon.Telemetry.Schemas.{TelemetryEvent}
use industrial_equipment_mon.Db.Models.{Device, Telemetry, AlertTables, Database}
use industrial_equipment_mon.Alerts.Invariant.{IsValid}
use industrial_equipment_mon.Telemetry.Repository.{Server, new_row, find_of, record_presence}
use industrial_equipment_mon.Telemetry.Ingest.Rows.{Distinct, Distinct-append}

abbrev pub IsRegistered : Database → String → Type 0
IsRegistered db device_id = (d : Device) × (lookup device_id db.devices ≡ some d)

-- The constraints of the telemetry table, and the consistency of the alert tables.
pub record IsSound (db : Database) : Type 0 where
  pub alerts : IsValid db.alerts
  pub distinct : Distinct db.telemetry
  pub ids : All (λ (row : Telemetry). row.id < db.next_telemetry_id) db.telemetry
  pub registered : All (λ (row : Telemetry). IsRegistered db row.device_id) db.telemetry

-- The tables after one more number, new alert tables, a new row, and a presence update.
module _ (db : Database) (v : IsSound db) where
  pub numbered : IsSound (record db { next_telemetry_id = db.next_telemetry_id + 1 })
  numbered = record {
    alerts = v.alerts;
    distinct = v.distinct;
    ids =
        All-imp (λ (row : Telemetry). row.id < db.next_telemetry_id)
          (λ (row : Telemetry). row.id < db.next_telemetry_id + 1) db.telemetry (λ x h. omega arith)
          v.ids;
    registered = v.registered;
  }

  pub realerted : (a : AlertTables) → IsValid a → IsSound (record db { alerts = a })
  realerted a va = record {
    alerts = va;
    distinct = v.distinct;
    ids = v.ids;
    registered = v.registered;
  }

  pub stored :
      (server : Server) (version : ℕ) (item : TelemetryEvent)
      → find_of item db.telemetry ≡ none
      → IsRegistered db item.device_id
      → IsSound (record db {
        telemetry = db.telemetry ++ new_row server db.next_telemetry_id version item ∷ [];
        next_telemetry_id = db.next_telemetry_id + 1;
      })
  stored server version item missing known =
      let w = numbered in
      record {
        alerts = v.alerts;
        distinct =
            Distinct-append server db.next_telemetry_id version item db.telemetry v.distinct
              missing;
        ids =
            All-append (λ (row : Telemetry). row.id < db.next_telemetry_id + 1) db.telemetry _ w.ids
              (omega arith, tt);
        registered =
            All-append (λ (row : Telemetry). IsRegistered db row.device_id) db.telemetry _
              v.registered (known, tt);
      }

  -- A presence update loses no device.
  pub seen_keeps :
      (device_id : String) (at : ℕ) (j : String)
      → IsRegistered db j
      → IsRegistered (record_presence db device_id at) j
  unfolding record_presence
  seen_keeps device_id at j (d, h) = elim (Option-cases (lookup device_id db.devices)) [
    | inl missing ↦ rw missing (d, h)
    | inr (d0, there) ↦
        rw there
          (lookup-insert_keeps device_id j (record d0 { last_seen_at = some at }) db.devices h)
  ]

  pub seen : (device_id : String) (at : ℕ) → IsSound (record_presence db device_id at)
  unfolding record_presence
  seen device_id at = record {
    alerts = v.alerts;
    distinct = v.distinct;
    ids = v.ids;
    registered =
        All-imp (λ (row : Telemetry). IsRegistered db row.device_id)
          (λ (row : Telemetry). IsRegistered (record_presence db device_id at) row.device_id)
          db.telemetry (λ x h. seen_keeps device_id at x.device_id h) v.registered;
  }
