-- ===== src/System/Consistent.antt =====
-- Consistent tables: sound ones in which every reference that db/models.py declares as a foreign key
-- to a device, to a gateway or to an opening reading holds.
use industrial_equipment_mon.Prelude.{
  ℕ, ◌≡◌, ◌∙◌, ap, String, false, some, eq_nat, eq_string, All, All-imp, is_none,
}
use industrial_equipment_mon.Prelude.Table.{
  lookup, insert, lookup-insert_keeps, All-insert, All-lookup,
}
use industrial_equipment_mon.Db.Models.{Device, Telemetry, AlertTables, Database}
use industrial_equipment_mon.Telemetry.Ingest.Sound.{IsRegistered, IsSound}
use industrial_equipment_mon.Alerts.References.{Links, OfState, OfEpisode}
use industrial_equipment_mon.Alerts.Listing.{value_of}

abbrev pub HasGateway : Database → Device → Type 0
HasGateway db d = is_none (lookup d.gateway_id db.gateways) ≡ false

abbrev pub HasReading : Database → ℕ → Type 0
HasReading db id = is_none (value_of id db.telemetry) ≡ false

abbrev pub IsOpened : Database → String → ℕ → Type 0
IsOpened db device_id telemetry_id = IsRegistered db device_id × HasReading db telemetry_id

abbrev pub IsPlaced : Database → String × Device → Type 0
IsPlaced db (id, d) = HasGateway db d

pub record IsConsistent (db : Database) : Type 0 where
  pub sound : IsSound db
  pub links : Links (IsRegistered db) (IsOpened db) db.alerts
  pub placed : All (IsPlaced db) db.devices

-- References hold in tables that have lost nothing.
pub Links-imp :
    (P P' : String → Type 0) (Q Q' : String → ℕ → Type 0) (t : AlertTables)
    → ((d : String) → P d → P' d)
    → ((d : String) (n : ℕ) → Q d n → Q' d n)
    → Links P Q t
    → Links P' Q' t
Links-imp P P' Q Q' t f g l = record {
  states = All-imp (OfState P Q) (OfState P' Q') t.alert_states (λ x h. f x.0 h) l.states;
  episodes =
      All-imp (OfEpisode P Q) (OfEpisode P' Q') t.alert_episodes
        (λ x h. let e = x.1 in g e.device_id e.opening_telemetry_id h) l.episodes;
}

module _ (db : Database) (c : IsConsistent db) where
  -- A device is written: it is new, or has kept its gateway.
  pub put_device :
      (id : String) (d : Device)
      → HasGateway db d
      → IsConsistent (record db { devices = insert id d db.devices })
  put_device id d at =
      let db' : Database = record db { devices = insert id d db.devices } in
      let keep : (j : String) → IsRegistered db j → IsRegistered db' j =
        λ j h. lookup-insert_keeps id j d db.devices h.1 in
      let v = c.sound in
      record {
        sound = record {
          alerts = v.alerts;
          distinct = v.distinct;
          ids = v.ids;
          registered =
              All-imp (λ (row : Telemetry). IsRegistered db row.device_id)
                (λ (row : Telemetry). IsRegistered db' row.device_id) db.telemetry
                (λ x h. keep x.device_id h) v.registered;
        };
        links =
            Links-imp (IsRegistered db) (IsRegistered db') (IsOpened db) (IsOpened db') db.alerts
              keep (λ j n h. (keep j h.0, h.1)) c.links;
        placed = All-insert (IsPlaced db) id d db.devices at c.placed;
      }

  -- A device that is there keeps its gateway.
  pub update_device :
      (id : String) (d d' : Device)
      → lookup id db.devices ≡ some d
      → d'.gateway_id ≡ d.gateway_id
      → IsConsistent (record db { devices = insert id d' db.devices })
  update_device id d d' there same = put_device id d' (
      ap (λ g. is_none (lookup g db.gateways)) same
      ∙ All-lookup (IsPlaced db) id d db.devices c.placed there)
