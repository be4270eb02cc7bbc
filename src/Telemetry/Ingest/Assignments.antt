-- ===== src/Telemetry/Ingest/Assignments.antt =====
-- The assignments that a transaction reads are those of registered devices.
use industrial_equipment_mon.Prelude.{
  ◌≡◌, sym, inl, inr, String, Option, none, some, List, [], ◌∷◌, arith, str_eq, eq_string,
  Bool-cases, Option-cases, str_eq_iff, if◌then◌else◌,
}
use mathlib.Core.Path.{subst}
use industrial_equipment_mon.Prelude.Table.{Table, lookup}
use industrial_equipment_mon.Db.Models.{Device, Database}
use industrial_equipment_mon.Telemetry.Repository.{Assignment, lock_assignments, contains}
use industrial_equipment_mon.Telemetry.Ingest.Sound.{IsRegistered}

-- The assignments name registered devices only.
abbrev pub Assigned : Database → Table String Assignment → Type 0
Assigned db assignments =
    (j : String) (a : Assignment) → lookup j assignments ≡ some a → IsRegistered db j

abbrev assigned : Option Device → Option Assignment
assigned none = none
assigned (some d) = some (record { gateway_id = d.gateway_id; enabled = d.enabled })

-- The assignments are the devices' own, of the devices that were asked for.
pub lookup-lock_assignments :
    (devices : Table String Device) (ids : List String) (j : String)
    → lookup j (lock_assignments devices ids)
      ≡ (if contains j ids then assigned (lookup j devices) else none)
unfolding lock_assignments lookup
lookup-lock_assignments [] ids j = ground arith
lookup-lock_assignments ((id, d) ∷ rest) ids j = elim (Bool-cases (str_eq id j)) [
  | inl same ↦
      let e = (str_eq_iff id j).0 same in
      subst
        (λ x.
          lookup j (lock_assignments ((x, d) ∷ rest) ids)
          ≡ (if contains j ids then assigned (lookup j ((x, d) ∷ rest)) else none))
        (sym e) (ground (arith, str_eq_iff j j, lookup-lock_assignments rest ids j))
  | inr other ↦ ground (arith, lookup-lock_assignments rest ids j)
]

pub lock_assignments-registered :
    (db : Database) (ids : List String) → Assigned db (lock_assignments db.devices ids)
lock_assignments-registered db ids j a h = elim (Option-cases (lookup j db.devices)) [
  | inl missing ↦ absurd (ground (arith, lookup-lock_assignments db.devices ids j))
  | inr there ↦ there
]
