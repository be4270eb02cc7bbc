-- ===== src/Devices/Registration/Added.antt =====
-- What a registration adds, and that its password authenticates the device's heartbeats.
use industrial_equipment_mon.Prelude.{
  ℕ, String, Bool, true, false, not, Option, none, some, ◌≡◌, refl, str_eq, eq_string, arith, inl,
  inr, Option-cases, if◌then◌else◌,
}
use mathlib.Core.Path.{subst}
use industrial_equipment_mon.Prelude.Table.{lookup, insert, lookup-insert_self, lookup-insert}
use industrial_equipment_mon.Db.Models.{is_confirmed, Database, Device}
use industrial_equipment_mon.Telemetry.Repository.{lock_gateway_eligibility, record_presence}
use industrial_equipment_mon.Telemetry.Ingest.{is_eligible}
use industrial_equipment_mon.Broker
use industrial_equipment_mon.Broker.{unavailable, conflict, crashed, Broker, Result, ok, err}
use industrial_equipment_mon.Devices.Registry.{Credentials, create_device, record_heartbeat}
use industrial_equipment_mon.Devices.Registration.{
  ServiceError, after_handler, undo_account, DeviceRegistration, Registered, Outcome, done, raised,
  Verdict, World, strip, finish_registration, register_row, is_empty, set_managed, register_device,
}

-- The row that a registration makes.
pub record IsRegisteredAs (c : Credentials) (r : DeviceRegistration) (d : Device) : Type 0 where
  pub gateway : d.gateway_id ≡ r.gateway_id
  pub name : d.name ≡ strip r.name
  pub enabled : d.enabled ≡ true
  pub hash : d.password_hash ≡ some (c.hash_password r.password)

-- What a database shows of a registration that is done: a new row under its identifier, every other
-- device as it was, and the gateways and sites as they were.
abbrev pub Adds : Credentials → Database → DeviceRegistration → Database → Type 0
Adds c db r db' =
    (d : Device) × (lookup r.device_id db.devices ≡ none)
    × (lookup r.device_id db'.devices ≡ some d)
    × IsRegisteredAs c r d
    × ((j : String)
        → lookup j db'.devices ≡ (if str_eq r.device_id j then some d else lookup j db.devices))
    × (db'.gateways ≡ db.gateways)
    × (db'.sites ≡ db.sites)

pub new_row-Adds :
    (c : Credentials) (db db1 : Database) (r : DeviceRegistration) (managed : Bool)
    → create_device db r.device_id r.gateway_id (strip r.name) (c.hash_password r.password)
      ≡ some db1
    → Adds c db r (set_managed r.device_id managed (lookup r.device_id db1.devices) db1)
unfolding create_device
new_row-Adds c db db1 r managed h = elim (Option-cases (lookup r.device_id db.devices)) [
  | inr (x, there) ↦ absurd (ground arith)
  | inl missing ↦
      let row : Device = record {
        gateway_id = r.gateway_id;
        name = strip r.name;
        enabled = true;
        password_hash = some (c.hash_password r.password);
        mqtt_managed = false;
        last_seen_at = none;
      } in
      let d : Device = record row { mqtt_managed = managed } in
      let devices = insert r.device_id row db.devices in
      let made : record db { devices = devices } ≡ db1 = ground arith in
      subst
        (λ (x : Database).
          Adds c db r (set_managed r.device_id managed (lookup r.device_id x.devices) x))
        made
        (rw (lookup-insert_self r.device_id row db.devices) (
          d,
          missing,
          lookup-insert_self r.device_id d devices,
          record { gateway = refl; name = refl; enabled = refl; hash = refl },
          (λ j. ground (
            arith,
            lookup-insert r.device_id j d devices,
            lookup-insert r.device_id j row db.devices,
          )),
          refl,
          refl,
        ))
]

-- What a registration did, where it is done: its gateway was eligible, its name was not empty, and it
-- added the device's row.
abbrev pub Registers :
    (b : Broker) (c : Credentials) (verdict : Verdict)
    → Database
    → DeviceRegistration
    → Outcome Registered × World b c verdict
    → Type 0
Registers b c verdict db r (raised e, w) = Unit
Registers b c verdict db r (done x, (db', s)) =
    (is_eligible (lock_gateway_eligibility db r.gateway_id) ≡ true)
    × (is_empty (strip r.name) ≡ false)
    × Adds c db r db'

module _ (b : Broker) (c : Credentials) (verdict : Verdict) (db : Database) (r : DeviceRegistration)
    (s : Broker.State b) where
  Registers-if :
      (t : Bool) (m n : Outcome Registered × World b c verdict)
      → (t ≡ true → Registers b c verdict db r m)
      → (t ≡ false → Registers b c verdict db r n)
      → Registers b c verdict db r (if t then m else n)
  Registers-if true m n h k = h refl
  Registers-if false m n h k = k refl

  handler-Registers :
      (e : ServiceError) (db1 : Database) (x : Result (Unit {0}) × Broker.State b)
      → Registers b c verdict db r (after_handler b c verdict e db1 x)
  handler-Registers e db1 (ok x, s') = tt
  handler-Registers e db1 (err unavailable, s') = tt
  handler-Registers e db1 (err conflict, s') = tt
  handler-Registers e db1 (err crashed, s') = tt

  module _ (eligible : is_eligible (lock_gateway_eligibility db r.gateway_id) ≡ true)
      (named : is_empty (strip r.name) ≡ false) where
    finish_registration-Registers :
        (db1 : Database) (x : Result Bool × Broker.State b)
        → create_device db r.device_id r.gateway_id (strip r.name) (c.hash_password r.password)
          ≡ some db1
        → Registers b c verdict db r (finish_registration b c verdict db db1 r x)
    finish_registration-Registers db1 (err e, s') h = tt
    finish_registration-Registers db1 (ok created, s') h =
        Registers-if (is_confirmed verdict.commit) _ _
          (λ q. (eligible, named, new_row-Adds c db db1 r created h))
          (λ q. handler-Registers _ _ (undo_account b c verdict r.device_id created s'))

    register_row-Registers :
        (o : Option Database)
        → create_device db r.device_id r.gateway_id (strip r.name) (c.hash_password r.password) ≡ o
        → Registers b c verdict db r (register_row b c verdict db r s o)
    register_row-Registers none h = tt
    register_row-Registers (some db1) h =
        finish_registration-Registers db1 (Broker.create_device b r.device_id r.password s) h

  register_device-Registers : Registers b c verdict db r (register_device b c verdict db r s)
  unfolding register_device
  register_device-Registers =
      Registers-if (not (is_eligible (lock_gateway_eligibility db r.gateway_id))) _ _ (λ q. tt)
        (λ known.
          Registers-if (is_empty (strip r.name)) _ _ (λ q. tt)
            (λ named.
              Registers-if (not verdict.storable) _ _ (λ q. tt)
                (λ q.
                  register_row-Registers (ground arith) named
                    (create_device db r.device_id r.gateway_id (strip r.name)
                      (c.hash_password r.password))
                    refl)))

-- A registration that is done was for an eligible gateway and a name that is not blank, its identifier
-- was free, and it adds one enabled row with the trimmed name and the password's hash, and changes no
-- other device, gateway or site.
pub register-Adds :
    (b : Broker) (c : Credentials) (verdict : Verdict) (db db' : Database) (r : DeviceRegistration)
    (s s' : Broker.State b) (x : Registered)
    → register_device b c verdict db r s ≡ (done x, (db', s'))
    → (is_eligible (lock_gateway_eligibility db r.gateway_id) ≡ true)
      × (is_empty (strip r.name) ≡ false)
      × Adds c db r db'
register-Adds b c verdict db db' r s s' x h =
    subst (Registers b c verdict db r) h (register_device-Registers b c verdict db r s)

heartbeat_after :
    (c : Credentials) (db db' : Database) (r : DeviceRegistration) (now : ℕ)
    → is_eligible (lock_gateway_eligibility db r.gateway_id) ≡ true
    → Adds c db r db'
    → (db'' : Database) × (d : Device) × (record_heartbeat c db' r.device_id r.password now
        ≡ some db'')
      × (lookup r.device_id db''.devices ≡ some d)
      × (d.last_seen_at ≡ some now)
unfolding record_heartbeat record_presence lock_gateway_eligibility
heartbeat_after c db db' r now eligible (d, missing, there, row, others, gateways, sites) =
    let checked = c.verify_hash r.password in
    let seen : Device = record d { last_seen_at = some now } in
    (
      record db' { devices = insert r.device_id seen db'.devices },
      seen,
      ground (arith, row.gateway, row.enabled, row.hash, checked),
      lookup-insert_self r.device_id seen db'.devices,
      refl,
    )

-- After a registration that is done, a heartbeat with its password is accepted and sets the time at
-- which the device was last seen.
pub register-heartbeat :
    (b : Broker) (c : Credentials) (verdict : Verdict) (db db' : Database) (r : DeviceRegistration)
    (s s' : Broker.State b) (x : Registered) (now : ℕ)
    → register_device b c verdict db r s ≡ (done x, (db', s'))
    → (db'' : Database) × (d : Device) × (record_heartbeat c db' r.device_id r.password now
        ≡ some db'')
      × (lookup r.device_id db''.devices ≡ some d)
      × (d.last_seen_at ≡ some now)
register-heartbeat b c verdict db db' r s s' x now h =
    let (eligible, _, adds) = register-Adds b c verdict db db' r s s' x h in
    heartbeat_after c db db' r now eligible adds
