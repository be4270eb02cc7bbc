-- ===== src/Devices/Status/Presence.antt =====
-- A heartbeat shows as presence, and the reading that is shown is the newest one.
use industrial_equipment_mon.Prelude.{
  ℕ, ◌+◌, ◌≤◌, ◌≡◌, String, ◌&&◌, some, List, [], ◌∷◌, arith, leb, eq_string, inl, inr,
  Option-cases, All,
}
use mathlib.Core.Path.{subst}
use industrial_equipment_mon.Prelude.Table.{lookup, lookup-insert_self}
use industrial_equipment_mon.Db.Models.{Device, Database}
use industrial_equipment_mon.Telemetry.Repository.{lock_gateway_eligibility, record_presence}
use industrial_equipment_mon.Telemetry.History.{HistoryRow, newest_first}
use industrial_equipment_mon.Telemetry.History.Order.{
  Descending, newest_first-Descending, All-of_newest_first,
}
use industrial_equipment_mon.Devices.Registry.{Credentials, record_heartbeat}
use industrial_equipment_mon.Devices.Status.{
  DeviceStatus, device_status, status_of, online_window, latest_row, first_row, device_rows,
}

-- A heartbeat that is accepted at `now` makes the device online until ninety seconds later, and not
-- before or after: its status then says so at every time.
pub heartbeat-online :
    (c : Credentials) (db db' : Database) (device_id password : String) (d : Device) (now later : ℕ)
    → lookup device_id db.devices ≡ some d
    → record_heartbeat c db device_id password now ≡ some db'
    → (d' : Device) × (st : DeviceStatus) × (lookup device_id db'.devices ≡ some d')
      × (status_of db' later device_id d' ≡ some st)
      × (st.online ≡ (leb now later && leb later (now + online_window)))
unfolding record_heartbeat record_presence status_of lock_gateway_eligibility
heartbeat-online c db db' device_id password d now later there h =
    elim (Option-cases (lookup d.gateway_id db.gateways)) [
      | inl missing ↦ absurd (ground arith)
      | inr (g, joined) ↦ elim (Option-cases (lookup g.site_id db.sites)) [
        | inl missing ↦ absurd (ground arith)
        | inr (s, sited) ↦
            let d' : Device = record d { last_seen_at = some now } in
            (
              d',
              device_status db' later device_id d' g s,
              ground (arith, lookup-insert_self device_id d' db.devices),
              ground arith,
              ground arith,
            )
      ]
    ]

below_first :
    (row : HistoryRow) (xs : List HistoryRow)
    → first_row xs ≡ some row
    → Descending xs
    → All (λ (x : HistoryRow). x.event_at ≤ row.event_at) xs
below_first row [] h d = tt
below_first row (y ∷ ys) h d =
    let same : y ≡ row = ground arith in
    subst (λ (z : HistoryRow). All (λ (x : HistoryRow). x.event_at ≤ z.event_at) (y ∷ ys)) same
      (omega arith, d.0)

-- The newest reading: no row of the device has a later time than the one that is shown.
latest_row-newest :
    (db : Database) (device_id : String) (row : HistoryRow)
    → latest_row db device_id ≡ some row
    → All (λ (x : HistoryRow). x.event_at ≤ row.event_at) (device_rows device_id db.telemetry)
unfolding latest_row
latest_row-newest db device_id row h =
    let rows = device_rows device_id db.telemetry in
    All-of_newest_first (λ (x : HistoryRow). x.event_at ≤ row.event_at) rows
      (below_first row (newest_first rows) h (newest_first-Descending rows))
