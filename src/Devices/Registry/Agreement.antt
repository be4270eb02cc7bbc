-- ===== src/Devices/Registry/Agreement.antt =====
-- The ownership decision against the one that ingestion makes.
use industrial_equipment_mon.Prelude.{
  String, true, none, List, ◌≡◌, ◌↔◌, ap, str_eq, str_eq_iff, eq_string, arith, inl, inr,
  Bool-cases, Option-cases,
}
use industrial_equipment_mon.Prelude.Table.{lookup}
use industrial_equipment_mon.Db.Models.{Database}
use industrial_equipment_mon.Telemetry.Repository.{
  lock_gateway_eligibility, lock_assignments, contains,
}
use industrial_equipment_mon.Telemetry.Ingest.{is_eligible, refusal}
use industrial_equipment_mon.Telemetry.Ingest.Assignments.{lookup-lock_assignments}
use industrial_equipment_mon.Devices.Registry.{allowed, check_device_ownership}

-- The registry allows a device to a gateway exactly when ingestion from that gateway is eligible and
-- does not refuse the device's readings.
pub ownership-ingestion :
    (db : Database) (device_id gateway_id : String) (ids : List String)
    → contains device_id ids ≡ true
    → (check_device_ownership db device_id gateway_id ≡ allowed) ↔ (
        (is_eligible (lock_gateway_eligibility db gateway_id) ≡ true)
        × (refusal gateway_id (lookup device_id (lock_assignments db.devices ids)) ≡ none))
unfolding check_device_ownership lock_gateway_eligibility
ownership-ingestion db device_id gateway_id ids asked =
    let assigned = lookup-lock_assignments db.devices ids device_id in
    elim (Option-cases (lookup device_id db.devices)) [
      | inl missing ↦ ground (arith, assigned)
      | inr (d, there) ↦ elim (Bool-cases (str_eq d.gateway_id gateway_id)) [
        | inl same ↦
            let e = (str_eq_iff d.gateway_id gateway_id).0 same in
            ground (arith, assigned, ap (λ g. lookup g db.gateways) e)
        | inr other ↦ ground (arith, assigned)
      ]
    ]
