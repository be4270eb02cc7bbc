-- ===== src/Devices/Registration.antt =====
-- devices/service.py with the broker: registering, removing and configuring a device. Each is one
-- transaction over the database; what the broker was told stays told when the transaction fails, and
-- the source then compensates. The database's verdict on the values and on the commit is a parameter.
pub mod Atomic
pub mod Added
use Prim.Native.Char.{Char, code}
use industrial_equipment_mon.Prelude.{
  ℕ, String, Bool, true, false, ◌&&◌, ◌||◌, not, Option, none, some, List, [], ◌∷◌, leb, nat_eq,
  is_none, eq_string, if◌then◌else◌,
}
use industrial_equipment_mon.Prelude.Table.{lookup, insert}
use industrial_equipment_mon.Db.Models.{Commit, is_confirmed, settled, Device, Database}
use industrial_equipment_mon.Telemetry.Repository.{lock_gateway_eligibility}
use industrial_equipment_mon.Telemetry.Ingest.{is_eligible}
use industrial_equipment_mon.Broker.{unavailable, conflict, crashed, Broker, Error, Result, ok, err}
use industrial_equipment_mon.Broker
use industrial_equipment_mon.Devices.Registry.{
  Credentials, verify_password, lock_device, create_device, delete_device,
}

pub record DeviceRegistration : Type 0 where
  pub device_id : String
  pub gateway_id : String
  pub name : String
  pub password : String

-- The white space that `str.strip` removes.
abbrev pub is_space : ℕ → Bool
is_space c =
    leb 9 c && leb c 13
    || leb 28 c && leb c 32
    || nat_eq c 133
    || nat_eq c 160
    || nat_eq c 5760
    || leb 8192 c && leb c 8202
    || nat_eq c 8232
    || nat_eq c 8233
    || nat_eq c 8239
    || nat_eq c 8287
    || nat_eq c 12288

unfoldable pub lstrip : String → String
lstrip String.[] = String.[]
lstrip (String.◌∷◌ c s) = if is_space (code c) then lstrip s else String.◌∷◌ c s

abbrev strip_char : Char → String → String
strip_char c String.[] = if is_space (code c) then String.[] else String.◌∷◌ c String.[]
strip_char c (String.◌∷◌ d s) = String.◌∷◌ c (String.◌∷◌ d s)

unfoldable pub rstrip : String → String
rstrip String.[] = String.[]
rstrip (String.◌∷◌ c s) = strip_char c (rstrip s)

unfoldable pub strip : String → String
unfolding lstrip rstrip
strip s = rstrip (lstrip s)

abbrev pub is_empty : String → Bool
is_empty String.[] = true
is_empty (String.◌∷◌ c s) = false

pub data ServiceError : Type 0 where
  gateway_not_found name_required device_id_exists device_not_found device_has_history :
      ServiceError
  invalid_device_credentials database_failed : ServiceError
  broker_failed : Error → ServiceError

pub data Outcome (A : Type 0) : Type 0 where
  done : A → Outcome A
  raised : ServiceError → Outcome A

-- What the database says of a request's values, and how the commit goes.
pub record Verdict : Type 0 where
  pub storable : Bool
  pub commit : Commit

pub record Registered : Type 0 where
  pub device_id : String
  pub gateway_id : String
  pub name : String

abbrev pub set_managed : String → Bool → Option Device → Database → Database
set_managed device_id managed none db = db
set_managed device_id managed (some d) db = record db {
  devices = insert device_id (record d { mqtt_managed = managed }) db.devices;
}

module _ (b : Broker) (c : Credentials) (verdict : Verdict) where
  open b use {State}

  abbrev pub World : Type 0
  World = Database × State

  -- The calls of the broker in a handler of exceptions.
  abbrev pub undo_account : String → Bool → State → Result (Unit {0}) × State
  undo_account device_id created s =
      if created then Broker.delete_device b device_id s else (ok tt, s)

  abbrev pub restore_account : String → Bool → State → Result (Unit {0}) × State
  restore_account device_id disabled s =
      if disabled then Broker.enable_device b device_id s else (ok tt, s)

  -- The error that leaves the handler: `BrokerUnavailable` is logged and passed over, any other exception
  -- takes the place of the first.
  abbrev pub after_handler :
      {A : Type 0} → ServiceError → Database → Result (Unit {0}) × State → Outcome A × World
  after_handler e db (ok x, s) = (raised e, (db, s))
  after_handler e db (err unavailable, s) = (raised e, (db, s))
  after_handler e db (err conflict, s) = (raised (broker_failed conflict), (db, s))
  after_handler e db (err crashed, s) = (raised (broker_failed crashed), (db, s))

  -- The end of a registration: the account is made, and the commit decides.
  abbrev pub finish_registration :
      Database → Database → DeviceRegistration → Result Bool × State → Outcome Registered × World
  finish_registration db db1 r (err e, s) = (raised (broker_failed e), (db, s))
  finish_registration db db1 r (ok created, s) =
      let db2 = set_managed r.device_id created (lookup r.device_id db1.devices) db1 in
      if is_confirmed verdict.commit
      then (
        done (record { device_id = r.device_id; gateway_id = r.gateway_id; name = strip r.name }),
        (db2, s),
      )
      else after_handler database_failed (settled verdict.commit db db2)
          (undo_account r.device_id created s)

  abbrev pub register_row :
      Database → DeviceRegistration → State → Option Database → Outcome Registered × World
  register_row db r s none = (raised device_id_exists, (db, s))
  register_row db r s (some db1) =
      finish_registration db db1 r (Broker.create_device b r.device_id r.password s)

  unfoldable pub register_device :
      Database → DeviceRegistration → State → Outcome Registered × World
  unfolding strip
  register_device db r s =
      if not (is_eligible (lock_gateway_eligibility db r.gateway_id))
      then (raised gateway_not_found, (db, s))
      else if is_empty (strip r.name)
      then (raised name_required, (db, s))
      else if not verdict.storable
      then (raised database_failed, (db, s))
      else register_row db r s
          (create_device db r.device_id r.gateway_id (strip r.name) (c.hash_password r.password))

  -- After the commit a disabled account is deleted: where the broker is unavailable, an orphan is left
  -- that cannot connect.
  abbrev pub after_removal : Database → Result (Unit {0}) × State → Outcome (Unit {0}) × World
  after_removal db (ok x, s) = (done tt, (db, s))
  after_removal db (err unavailable, s) = (done tt, (db, s))
  after_removal db (err conflict, s) = (raised (broker_failed conflict), (db, s))
  after_removal db (err crashed, s) = (raised (broker_failed crashed), (db, s))

  abbrev pub finish_removal :
      Database → Database → String → Result Bool × State → Outcome (Unit {0}) × World
  finish_removal db db1 device_id (err e, s) = (raised (broker_failed e), (db, s))
  finish_removal db db1 device_id (ok disabled, s) =
      if is_confirmed verdict.commit
      then after_removal db1 (undo_account device_id disabled s)
      else after_handler database_failed (settled verdict.commit db db1)
          (restore_account device_id disabled s)

  abbrev pub remove_row :
      Database → String → Device → State → Option Database → Outcome (Unit {0}) × World
  remove_row db device_id d s none = (raised device_has_history, (db, s))
  remove_row db device_id d s (some db1) =
      finish_removal db db1 device_id
        (if d.mqtt_managed then Broker.disable_device b device_id s else (ok false, s))

  abbrev pub remove_found : Database → String → State → Option Device → Outcome (Unit {0}) × World
  remove_found db device_id s none = (raised device_not_found, (db, s))
  remove_found db device_id s (some d) = remove_row db device_id d s (delete_device db device_id)

  unfoldable pub remove_device : Database → String → State → Outcome (Unit {0}) × World
  unfolding lock_device
  remove_device db device_id s = remove_found db device_id s (lock_device db device_id)

  abbrev pub finish_configuration :
      Database → String → Result Bool × State → Outcome (Unit {0}) × World
  finish_configuration db device_id (err e, s) = (raised (broker_failed e), (db, s))
  finish_configuration db device_id (ok managed, s) =
      let db1 = set_managed device_id managed (lookup device_id db.devices) db in
      if is_confirmed verdict.commit
      then (done tt, (db1, s))
      else (raised database_failed, (settled verdict.commit db db1, s))

  abbrev pub is_known : String → Option Device → Bool
  is_known password none = false
  is_known password (some d) = verify_password c password d.password_hash

  unfoldable pub configure_existing_mqtt :
      Database → String → String → State → Outcome (Unit {0}) × World
  unfolding lock_device
  configure_existing_mqtt db device_id password s =
      if is_known password (lock_device db device_id)
      then finish_configuration db device_id (Broker.ensure_device b device_id password s)
      else (raised invalid_device_credentials, (db, s))
