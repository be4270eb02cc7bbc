-- ===== src/Devices/Registry.antt =====
-- devices/repository.py, the credential interface, and the operations of devices/service.py that
-- need no broker: heartbeats, the list of gateways and the ownership decision.
pub mod Agreement
use industrial_equipment_mon.Prelude.{
  ℕ, String, Bool, true, false, ◌&&◌, ◌||◌, not, Option, none, some, List, [], ◌∷◌, ◌≡◌, str_eq,
  is_none, eq_string, if◌then◌else◌,
}
use industrial_equipment_mon.Prelude.Table.{Table, lookup, insert, erase}
use industrial_equipment_mon.Db.Models.{
  Site, Gateway, Device, Telemetry, AlertEpisode, AlertState, Database,
}
use industrial_equipment_mon.Telemetry.Repository.{record_presence, lock_gateway_eligibility}
use industrial_equipment_mon.Telemetry.Ingest.{is_eligible}

-- devices/credentials.py behind its law: a hash is verified by the password that it was made from.
pub record Credentials : Type 0 where
  pub hash_password : String → String
  pub verify : String → String → Bool
  pub verify_hash : (password : String) → verify password (hash_password password) ≡ true

-- A device with no stored hash is never authenticated.
abbrev pub verify_password : Credentials → String → Option String → Bool
verify_password c password none = false
verify_password c password (some stored) = c.verify password stored

-- `none` where the update names no device.
unfoldable pub lock_device : Database → String → Option Device
lock_device db device_id = lookup device_id db.devices

-- INSERT: `none` is the IntegrityError of an identifier that is taken.
unfoldable pub create_device : Database → String → String → String → String → Option Database
create_device db device_id gateway_id name password_hash =
    if is_none (lookup device_id db.devices)
    then some (record db {
      devices =
          insert device_id
            (record {
              gateway_id = gateway_id;
              name = name;
              enabled = true;
              password_hash = some password_hash;
              mqtt_managed = false;
              last_seen_at = none;
            })
            db.devices;
    })
    else none

abbrev pub has_telemetry : String → List Telemetry → Bool
has_telemetry device_id [] = false
has_telemetry device_id (row ∷ rest) =
    if str_eq row.device_id device_id then true else has_telemetry device_id rest

abbrev pub has_episode : String → Table ℕ AlertEpisode → Bool
has_episode device_id [] = false
has_episode device_id ((_, e) ∷ rest) =
    if str_eq e.device_id device_id then true else has_episode device_id rest

-- The foreign keys with ON DELETE RESTRICT that refer to a device.
abbrev pub is_referenced : Database → String → Bool
is_referenced db device_id =
    has_telemetry device_id db.telemetry
    || has_episode device_id db.alerts.alert_episodes
    || not (is_none (lookup device_id db.alerts.alert_states))

-- DELETE: `none` is the IntegrityError of a device that recorded history refers to.
unfoldable pub delete_device : Database → String → Option Database
delete_device db device_id =
    if is_referenced db device_id
    then none
    else some (record db { devices = erase device_id db.devices })

pub record Ownership : Type 0 where
  pub gateway_id : String
  pub device_enabled : Bool
  pub gateway_enabled : Bool
  pub site_enabled : Bool

abbrev join_site : Device → Gateway → Option Site → Option Ownership
join_site d g none = none
join_site d g (some s) = some (record {
  gateway_id = d.gateway_id;
  device_enabled = d.enabled;
  gateway_enabled = g.enabled;
  site_enabled = s.enabled;
})

abbrev join_gateway : Database → Device → Option Gateway → Option Ownership
join_gateway db d none = none
join_gateway db d (some g) = join_site d g (lookup g.site_id db.sites)

abbrev join_device : Database → Option Device → Option Ownership
join_device db none = none
join_device db (some d) = join_gateway db d (lookup d.gateway_id db.gateways)

-- The device joined with its gateway and site.
unfoldable pub read_ownership : Database → String → Option Ownership
read_ownership db device_id = join_device db (lookup device_id db.devices)

pub data OwnershipStatus : Type 0 where
  allowed unknown_device wrong_gateway disabled : OwnershipStatus

abbrev pub ownership_status : String → Option Ownership → OwnershipStatus
ownership_status gateway_id none = unknown_device
ownership_status gateway_id (some o) =
    if not (str_eq o.gateway_id gateway_id)
    then wrong_gateway
    else if o.device_enabled && o.gateway_enabled && o.site_enabled
    then allowed
    else disabled

unfoldable pub check_device_ownership : Database → String → String → OwnershipStatus
unfolding read_ownership
check_device_ownership db device_id gateway_id =
    ownership_status gateway_id (read_ownership db device_id)

pub record GatewayOption : Type 0 where
  pub gateway_id : String
  pub name : String

-- The enabled gateways of enabled sites; the query's order by name is the database's collation.
unfoldable pub list_enabled_gateways : Database → Table String Gateway → List GatewayOption
unfolding lock_gateway_eligibility
list_enabled_gateways db [] = []
list_enabled_gateways db ((id, g) ∷ rest) =
    let more = list_enabled_gateways db rest in
    if is_eligible (lock_gateway_eligibility db id)
    then record { gateway_id = id; name = g.name } ∷ more
    else more

abbrev pub is_authorized : Credentials → Database → String → Option Device → Bool
is_authorized c db password none = false
is_authorized c db password (some d) =
    d.enabled
    && is_eligible (lock_gateway_eligibility db d.gateway_id)
    && verify_password c password d.password_hash

-- `record_heartbeat` at the time `now`: `none` is InvalidDeviceCredentialsError.
unfoldable pub record_heartbeat : Credentials → Database → String → String → ℕ → Option Database
unfolding lock_device
record_heartbeat c db device_id password now =
    if is_authorized c db password (lock_device db device_id)
    then some (record_presence db device_id now)
    else none
