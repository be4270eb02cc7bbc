-- ===== src/Tests/Settings.antt =====
-- The theorems on the settings, on stored passwords and on the seed, at concrete inputs.
use industrial_equipment_mon.Prelude.{
  ◌≡◌, ◌↔◌, refl, String, true, Option, none, some, [], ◌∷◌, str_eq, eq_string, if◌then◌else◌,
}
use industrial_equipment_mon.Prelude.Table.{lookup, insert}
use industrial_equipment_mon.Core.Settings.{
  Environment, Settings, configured, database_conninfo, variable_settings, unset,
}
use industrial_equipment_mon.Core.Settings.Checked.{IsComplete, configured_complete}
use industrial_equipment_mon.Devices.Credentials.{
  Bytes, n0, na, Hashing, hash_password, verify_password,
}
use industrial_equipment_mon.Devices.Credentials.Stored.{verifies_stored}
use industrial_equipment_mon.Db.Models.{Database}
use industrial_equipment_mon.Db.Seed.{
  site_id, gateway_id, device_id, demo_site, demo_gateway, demo_device, seed_registry, seeded,
}
use industrial_equipment_mon.Db.Seed.Repeated.{IsSeeded, seed_registry_lem}
use industrial_equipment_mon.Tests.Samples.{plant}

abbrev env : Environment
env name = lookup name (
    ("PGHOST", "db")
    ∷ ("PGPORT", "5432")
    ∷ ("PGDATABASE", "plant")
    ∷ ("PGUSER", "app")
    ∷ ("PGPASSWORD", "secret")
    ∷ [])

-- No URL is read.
abbrev conninfo_to_dict : String → Option Settings
conninfo_to_dict url = none

accepts : database_conninfo conninfo_to_dict env ≡ configured (variable_settings env)
unfolding database_conninfo unset lookup
accepts = refl

configured_complete_example : IsComplete (variable_settings env)
configured_complete_example =
    configured_complete conninfo_to_dict env (variable_settings env) accepts

-- A derivation that tells the empty password from the others.
abbrev hashing : Hashing
hashing = record {
  pbkdf2 = λ password salt. if str_eq password "" then [] else (n0, na) ∷ salt;
  int = λ s. if str_eq s "310000" then some 310000 else none;
  reads_iterations = refl;
}

abbrev salt : Bytes
salt = (na, n0) ∷ []

verifies_stored_example :
    (verify_password hashing "open" (hash_password hashing salt "open") ≡ true)
    ↔ (hashing.pbkdf2 "open" salt ≡ hashing.pbkdf2 "open" salt)
verifies_stored_example = verifies_stored hashing salt "open" "open"

abbrev seeded_plant : Database
seeded_plant = record plant {
  sites = insert site_id demo_site plant.sites;
  gateways = insert gateway_id demo_gateway plant.gateways;
  devices = insert device_id demo_device plant.devices;
}

seeds : seed_registry plant ≡ seeded seeded_plant
unfolding seed_registry lookup insert
seeds = refl

seed_registry_lem_example :
    IsSeeded plant seeded_plant × (seed_registry seeded_plant ≡ seeded seeded_plant)
seed_registry_lem_example = seed_registry_lem plant seeded_plant seeds
