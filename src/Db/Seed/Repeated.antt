-- ===== src/Db/Seed/Repeated.antt =====
-- Proofs on the seed of db/seed.py, once and again.
use industrial_equipment_mon.Prelude.{
  ◌≡◌, refl, sym, ap, ◌∙◌, inl, inr, String, true, Option, none, some, str_eq, str_eq_iff,
  eq_string, Bool-cases, Option-cases, if◌then◌else◌,
}
use mathlib.Core.Path.{subst}
use industrial_equipment_mon.Prelude.Table.{Table, lookup, lookup-insert, lookup-insert_self}
use industrial_equipment_mon.Db.Models.{Gateway, Device, Database}
use industrial_equipment_mon.Db.Seed.{
  site_id, gateway_id, device_id, insert_missing, demo_site, demo_gateway, demo_device, other_site,
  other_gateway, seeded, conflict, seed_registry,
}

-- The first value that is there.
abbrev pub or_else : {V : Type 0} → Option V → Option V → Option V
or_else none o = o
or_else (some v) o = some v

or_else-none : {V : Type 0} (o : Option V) → o ≡ or_else o none
or_else-none none = refl
or_else-none (some v) = refl

module _ {V : Type 0} (key : String) (row : V) (t : Table String V) where
  -- The row that is there afterwards: the old one, or the new.
  abbrev settled : Option V → V
  settled none = row
  settled (some old) = old

  lookup-insert_missing : lookup key (insert_missing key row t) ≡ some (settled (lookup key t))
  lookup-insert_missing = elim (Option-cases (lookup key t)) [
    | inl free ↦ rw free (lookup-insert_self key row t)
    | inr (old, there) ↦ rw (there, there) refl
  ]

  insert_missing_twice :
      insert_missing key row (insert_missing key row t) ≡ insert_missing key row t
  insert_missing_twice = rw lookup-insert_missing refl

  -- Rows that were there are as they were, and no other key has a new row.
  lookup-insert_missing_all :
      (j : String)
      → lookup j (insert_missing key row t)
        ≡ or_else (lookup j t) (if str_eq key j then some row else none)
  lookup-insert_missing_all j = elim (Option-cases (lookup key t)) [
    | inr (old, there) ↦ rw there (elim (Bool-cases (str_eq key j)) [
      | inl same ↦
          let found : lookup j t ≡ some old =
            ap (λ k. lookup k t) (sym ((str_eq_iff key j).0 same)) ∙ there in
          rw found (refl)
      | inr other ↦ rw other (or_else-none (lookup j t))
    ])
    | inl free ↦ rw free (elim (Bool-cases (str_eq key j)) [
      | inl same ↦
          let missing : lookup j t ≡ none =
            ap (λ k. lookup k t) (sym ((str_eq_iff key j).0 same)) ∙ free in
          rw (missing, same) (lookup-insert key j row t ∙ rw same refl)
      | inr other ↦ rw other (lookup-insert key j row t ∙ rw other (or_else-none (lookup j t)))
    ])
  ]

-- What a table shows of a seed: the rows that were there, and the demo row where its key was free.
abbrev pub Adds : {V : Type 0} → String → V → Table String V → Table String V → Type 0
Adds key row t t' =
    (j : String) → lookup j t' ≡ or_else (lookup j t) (if str_eq key j then some row else none)

pub record IsSeeded (db db1 : Database) : Type 0 where
  pub sites : Adds site_id demo_site db.sites db1.sites
  pub gateways : Adds gateway_id demo_gateway db.gateways db1.gateways
  pub devices : Adds device_id demo_device db.devices db1.devices
  pub telemetry : db1.telemetry ≡ db.telemetry
  pub alerts : db1.alerts ≡ db.alerts
  pub gateway : Gateway
  pub device : Device
  pub gateway_there : lookup gateway_id db1.gateways ≡ some gateway
  pub device_there : lookup device_id db1.devices ≡ some device
  pub gateway_of_site : gateway.site_id ≡ site_id
  pub device_of_gateway : device.gateway_id ≡ gateway_id

abbrev parents : Database → Database
parents db = record db {
  sites = insert_missing site_id demo_site db.sites;
  gateways = insert_missing gateway_id demo_gateway db.gateways;
}

abbrev all_three : Database → Database
all_three db = record (parents db) { devices = insert_missing device_id demo_device db.devices }

again : (db : Database) → all_three (all_three db) ≡ all_three db
again db =
    rw
      (
        insert_missing_twice site_id demo_site db.sites,
        insert_missing_twice gateway_id demo_gateway db.gateways,
        insert_missing_twice device_id demo_device db.devices,
      )
      refl

-- The rows that decide, and the verdict on them.
decided :
    (db : Database) (g : Gateway) (d : Device)
    → lookup gateway_id (insert_missing gateway_id demo_gateway db.gateways) ≡ some g
    → lookup device_id (insert_missing device_id demo_device db.devices) ≡ some d
    → seed_registry db ≡ (
        if str_eq g.site_id site_id
        then if str_eq d.gateway_id gateway_id
          then seeded (all_three db)
          else conflict other_gateway
        else conflict other_site)
unfolding seed_registry
decided db g d at_gateway at_device = rw (at_gateway, at_device) refl

seeded_lem :
    (db : Database) (g : Gateway) (d : Device)
    → lookup gateway_id (insert_missing gateway_id demo_gateway db.gateways) ≡ some g
    → lookup device_id (insert_missing device_id demo_device db.devices) ≡ some d
    → str_eq g.site_id site_id ≡ true
    → str_eq d.gateway_id gateway_id ≡ true
    → IsSeeded db (all_three db) × (seed_registry (all_three db) ≡ seeded (all_three db))
seeded_lem db g d at_gateway at_device site gateway =
    let twice_gateway = insert_missing_twice gateway_id demo_gateway db.gateways in
    let twice_device = insert_missing_twice device_id demo_device db.devices in
    (
      record {
        sites = lookup-insert_missing_all site_id demo_site db.sites;
        gateways = lookup-insert_missing_all gateway_id demo_gateway db.gateways;
        devices = lookup-insert_missing_all device_id demo_device db.devices;
        telemetry = refl;
        alerts = refl;
        gateway = g;
        device = d;
        gateway_there = at_gateway;
        device_there = at_device;
        gateway_of_site = (str_eq_iff g.site_id site_id).0 site;
        device_of_gateway = (str_eq_iff d.gateway_id gateway_id).0 gateway;
      },
      decided (all_three db) g d (ap (lookup gateway_id) twice_gateway ∙ at_gateway)
            (ap (lookup device_id) twice_device ∙ at_device)
          ∙ rw (site, gateway) (ap seeded (again db)),
    )

-- A seed that succeeds keeps every row that was there, adds the demo rows whose keys were free and
-- nothing else, leaves the demo device with the demo gateway and that with the demo site; and seeding
-- the result again succeeds and changes nothing.
pub seed_registry_lem :
    (db db1 : Database)
    → seed_registry db ≡ seeded db1
    → IsSeeded db db1 × (seed_registry db1 ≡ seeded db1)
seed_registry_lem db db1 h =
    let g = settled gateway_id demo_gateway db.gateways (lookup gateway_id db.gateways) in
    let d = settled device_id demo_device db.devices (lookup device_id db.devices) in
    let at_gateway = lookup-insert_missing gateway_id demo_gateway db.gateways in
    let at_device = lookup-insert_missing device_id demo_device db.devices in
    let verdict = decided db g d at_gateway at_device in
    elim (Bool-cases (str_eq g.site_id site_id)) [
      | inr other ↦ absurd (cc (rw other at verdict, h))
      | inl site ↦ elim (Bool-cases (str_eq d.gateway_id gateway_id)) [
        | inr other ↦ absurd (cc (rw other at (rw site at verdict), h))
        | inl gateway ↦
            let same : all_three db ≡ db1 = cc (rw gateway at (rw site at verdict), h) in
            subst (λ x. IsSeeded db x × (seed_registry x ≡ seeded x)) same
              (seeded_lem db g d at_gateway at_device site gateway)
      ]
    ]
