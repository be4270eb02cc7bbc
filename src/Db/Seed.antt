-- ===== src/Db/Seed.antt =====
-- db/seed.py: the demo registry. The statements run in one transaction; an existing row is left as it is.
pub mod Repeated
use industrial_equipment_mon.Prelude.{
  String, Bool, true, false, Option, none, some, str_eq, eq_string, if◌then◌else◌,
}
use industrial_equipment_mon.Prelude.Table.{Table, lookup, insert}
use industrial_equipment_mon.Db.Models.{
  Commit, is_confirmed, settled, Site, Gateway, Device, Database,
}

abbrev pub site_id : String
site_id = "site-demo-001"

abbrev pub gateway_id : String
gateway_id = "gateway-demo-001"

abbrev pub device_id : String
device_id = "device-demo-001"

-- INSERT … ON CONFLICT DO NOTHING
abbrev pub keep_or : {V : Type 0} → String → V → Option V → Table String V → Table String V
keep_or key row none t = insert key row t
keep_or key row (some old) t = t

abbrev pub insert_missing : {V : Type 0} → String → V → Table String V → Table String V
insert_missing key row t = keep_or key row (lookup key t) t

abbrev pub demo_site : Site
demo_site = record { name = "Demo site"; enabled = true }

abbrev pub demo_gateway : Gateway
demo_gateway = record { site_id = site_id; name = "Demo gateway"; enabled = true }

abbrev pub demo_device : Device
demo_device = record {
  gateway_id = gateway_id;
  name = "Demo device";
  enabled = true;
  password_hash = none;
  mqtt_managed = false;
  last_seen_at = none;
}

pub data SeedError : Type 0 where
  other_site other_gateway no_result : SeedError

pub data Seeded : Type 0 where
  seeded : Database → Seeded
  conflict : SeedError → Seeded

-- `scalar_one` finds the row that was just inserted or was there; `no_result` would be its exception.
abbrev pub check_device : Database → Option Device → Seeded
check_device db none = conflict no_result
check_device db (some d) =
    if str_eq d.gateway_id gateway_id then seeded db else conflict other_gateway

abbrev pub seed_device : Database → Seeded
seed_device db =
    let db' : Database = record db { devices = insert_missing device_id demo_device db.devices } in
    check_device db' (lookup device_id db'.devices)

abbrev pub check_gateway : Database → Option Gateway → Seeded
check_gateway db none = conflict no_result
check_gateway db (some g) = if str_eq g.site_id site_id then seed_device db else conflict other_site

unfoldable pub seed_registry : Database → Seeded
seed_registry db =
    let db' : Database = record db {
      sites = insert_missing site_id demo_site db.sites;
      gateways = insert_missing gateway_id demo_gateway db.gateways;
    } in
    check_gateway db' (lookup gateway_id db'.gateways)

-- How the command ends.
pub data Exit : Type 0 where
  committed : Exit
  conflicting : SeedError → Exit
  database_failed : Exit

abbrev pub finish : Database → Commit → Seeded → Exit × Database
finish db commit (conflict e) = (conflicting e, db)
finish db commit (seeded db') =
    if is_confirmed commit then (committed, db') else (database_failed, settled commit db db')

-- `main`: the transaction is rolled back after an exception, and the commit decides otherwise.
abbrev pub seed : Commit → Database → Exit × Database
seed commit db = finish db commit (seed_registry db)
