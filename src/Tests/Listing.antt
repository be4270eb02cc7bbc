-- ===== src/Tests/Listing.antt =====
-- The theorem on the list of episodes at one active episode.
use industrial_equipment_mon.Prelude.{◌≡◌, refl, [], ◌∷◌, eq_string}
use industrial_equipment_mon.Telemetry.Repository.{new_row}
use industrial_equipment_mon.Db.Models.{Database}
use industrial_equipment_mon.Alerts.Listing.{list_alert_episodes, count_active}
use industrial_equipment_mon.Tests.Samples.{reading, plant, server, alarmed}

abbrev alarmed_plant : Database
alarmed_plant = record plant {
  telemetry = new_row server 9 1 (reading 1 35) ∷ [];
  alerts = alarmed;
}

one_active : (list_alert_episodes alarmed_plant 20).active_count ≡ 1
unfolding list_alert_episodes count_active
one_active = refl
