-- ===== src/System/Removal.antt =====
-- The removal of a device, as a step on consistent tables.
use industrial_equipment_mon.Prelude.{
  ℕ, ◌≡◌, inl, inr, String, false, none, some, List, [], ◌∷◌, arith, eq_string, str_eq, str_eq_iff,
  All, Bool-cases,
}
use mathlib.Core.Path.{subst}
use industrial_equipment_mon.Prelude.Table.{Table, lookup, erase, lookup-erase, All-erase}
use industrial_equipment_mon.Db.Models.{Telemetry, AlertState, AlertEpisode, Database}
use industrial_equipment_mon.Telemetry.Ingest.Sound.{IsRegistered}
use industrial_equipment_mon.Alerts.References.{OfState, OfEpisode}
use industrial_equipment_mon.Devices.Registry.{
  has_telemetry, has_episode, is_referenced, delete_device,
}
use industrial_equipment_mon.System.Consistent.{IsConsistent, IsOpened, IsPlaced}

module _ (db : Database) (id : String) where
  abbrev without : Database
  without = record db { devices = erase id db.devices }

  others_keep : (j : String) → str_eq j id ≡ false → IsRegistered db j → IsRegistered without j
  others_keep j other (d, there) =
      (d, ground (arith, lookup-erase id j db.devices, str_eq_iff id j, str_eq_iff j id))

  rows_keep :
      (rows : List Telemetry)
      → has_telemetry id rows ≡ false
      → All (λ (row : Telemetry). IsRegistered db row.device_id) rows
      → All (λ (row : Telemetry). IsRegistered without row.device_id) rows
  rows_keep [] free h = tt
  rows_keep (row ∷ rest) free h = elim (Bool-cases (str_eq row.device_id id)) [
    | inl same ↦ absurd (cc (rw same at free))
    | inr other ↦ (others_keep row.device_id other h.0, rows_keep rest (rw other at free) h.1)
  ]

  states_keep :
      (t : Table String AlertState)
      → lookup id t ≡ none
      → All (OfState (IsRegistered db) (IsOpened db)) t
      → All (OfState (IsRegistered without) (IsOpened without)) t
  unfolding lookup
  states_keep [] free h = tt
  states_keep ((j, s) ∷ rest) free h = elim (Bool-cases (str_eq j id)) [
    | inl same ↦ absurd (cc (rw same at free))
    | inr other ↦ (others_keep j other h.0, states_keep rest (rw other at free) h.1)
  ]

  episodes_keep :
      (t : Table ℕ AlertEpisode)
      → has_episode id t ≡ false
      → All (OfEpisode (IsRegistered db) (IsOpened db)) t
      → All (OfEpisode (IsRegistered without) (IsOpened without)) t
  episodes_keep [] free h = tt
  episodes_keep ((n, e) ∷ rest) free h = elim (Bool-cases (str_eq e.device_id id)) [
    | inl same ↦ absurd (cc (rw same at free))
    | inr other ↦
        ((others_keep e.device_id other h.0.0, h.0.1), episodes_keep rest (rw other at free) h.1)
  ]

  pub delete-IsConsistent :
      (db1 : Database) → IsConsistent db → delete_device db id ≡ some db1 → IsConsistent db1
  unfolding delete_device
  delete-IsConsistent db1 c h = elim (Bool-cases (is_referenced db id)) [
    | inl kept ↦ absurd (cc (rw kept at h))
    | inr free ↦
        let v = c.sound in
        let l = c.links in
        let gone : without ≡ db1 = cc (rw free at h) in
        subst IsConsistent gone (record {
          sound = record {
            alerts = v.alerts;
            distinct = v.distinct;
            ids = v.ids;
            registered = rows_keep db.telemetry (ground (arith, free)) v.registered;
          };
          links = record {
            states = states_keep db.alerts.alert_states (ground (arith, free)) l.states;
            episodes = episodes_keep db.alerts.alert_episodes (ground (arith, free)) l.episodes;
          };
          placed = All-erase (IsPlaced db) id db.devices c.placed;
        })
  ]
