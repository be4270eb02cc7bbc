-- ===== src/System/Requests.antt =====
-- Registering, removing and configuring devices, and their heartbeats, as steps on consistent tables.
use industrial_equipment_mon.Prelude.{
  ℕ, ◌≡◌, refl, inl, inr, String, Bool, true, false, not, Option, none, some, arith, eq_string,
  Bool-cases, Option-cases, is_none, if◌then◌else◌,
}
use mathlib.Core.Path.{subst}
use industrial_equipment_mon.Prelude.Table.{lookup, insert}
use industrial_equipment_mon.Db.Models.{
  Commit, commit_confirmed, commit_refused, commit_unheard, is_confirmed, settled, Device, Database,
}
use industrial_equipment_mon.Telemetry.Repository.{lock_gateway_eligibility, record_presence}
use industrial_equipment_mon.Telemetry.Ingest.{is_eligible}
use industrial_equipment_mon.Broker
use industrial_equipment_mon.Broker.{unavailable, conflict, crashed, Broker, Result, ok, err}
use industrial_equipment_mon.Devices.Registry.{
  Credentials, lock_device, create_device, delete_device, record_heartbeat,
}
use industrial_equipment_mon.Devices.Registration.{
  ServiceError, after_handler, after_removal, undo_account, restore_account, DeviceRegistration,
  Outcome, done, raised, Verdict, World, strip, finish_registration, register_row, finish_removal,
  remove_row, remove_found, finish_configuration, is_known, is_empty, register_device,
  remove_device, configure_existing_mqtt, set_managed,
}
use industrial_equipment_mon.Devices.Registration.Atomic.{
  Request, register, remove, configure, perform, forget,
}
use industrial_equipment_mon.System.Consistent.{IsConsistent, put_device, update_device}
use industrial_equipment_mon.System.Removal.{delete-IsConsistent}

pub presence-IsConsistent :
    (db : Database) (device_id : String) (at : ℕ)
    → IsConsistent db
    → IsConsistent (record_presence db device_id at)
unfolding record_presence
presence-IsConsistent db device_id at c = elim (Option-cases (lookup device_id db.devices)) [
  | inl missing ↦ rw missing c
  | inr (d, there) ↦
      rw there (update_device db c device_id d (record d { last_seen_at = some at }) there refl)
]

managed-IsConsistent :
    (db : Database) (device_id : String) (managed : Bool) (o : Option Device)
    → lookup device_id db.devices ≡ o
    → IsConsistent db
    → IsConsistent (set_managed device_id managed o db)
managed-IsConsistent db device_id managed none there c = c
managed-IsConsistent db device_id managed (some d) there c =
    update_device db c device_id d (record d { mqtt_managed = managed }) there refl

-- An eligible gateway is there.
eligible_there :
    (db : Database) (gateway_id : String)
    → is_eligible (lock_gateway_eligibility db gateway_id) ≡ true
    → is_none (lookup gateway_id db.gateways) ≡ false
unfolding lock_gateway_eligibility
eligible_there db gateway_id h = ground arith

create-IsConsistent :
    (db db1 : Database) (device_id gateway_id name hash : String)
    → IsConsistent db
    → is_none (lookup gateway_id db.gateways) ≡ false
    → create_device db device_id gateway_id name hash ≡ some db1
    → IsConsistent db1
unfolding create_device
create-IsConsistent db db1 device_id gateway_id name hash c there h =
    elim (Option-cases (lookup device_id db.devices)) [
      | inr (d, taken) ↦ absurd (cc (rw taken at h))
      | inl free ↦
          let row : Device = record {
            gateway_id = gateway_id;
            name = name;
            enabled = true;
            password_hash = some hash;
            mqtt_managed = false;
            last_seen_at = none;
          } in
          let made : record db { devices = insert device_id row db.devices } ≡ db1 =
            cc (rw free at h) in
          subst IsConsistent made (put_device db c device_id row there)
    ]

pub settled-IsConsistent :
    (db db1 : Database) (commit : Commit)
    → IsConsistent db
    → IsConsistent db1
    → IsConsistent (settled commit db db1)
settled-IsConsistent db db1 commit_confirmed v v1 = v1
settled-IsConsistent db db1 commit_refused v v1 = v
settled-IsConsistent db db1 commit_unheard v v1 = v1

module _ (b : Broker) (c : Credentials) (verdict : Verdict) where
  abbrev Leaves : {A : Type 0} → Outcome A × World b c verdict → Type 0
  Leaves (outcome, (db, s)) = IsConsistent db

  Leaves-if :
      {A : Type 0} (t : Bool) (m n : Outcome A × World b c verdict)
      → ((t ≡ true) → Leaves m)
      → ((t ≡ false) → Leaves n)
      → Leaves (if t then m else n)
  Leaves-if true m n h k = h refl
  Leaves-if false m n h k = k refl

  handler-Leaves :
      (A : Type 0) (e : ServiceError) (db1 : Database) (x : Result (Unit {0}) × Broker.State b)
      → IsConsistent db1
      → Leaves (after_handler b c verdict {A = A} e db1 x)
  handler-Leaves A e db1 (ok x, s) v = v
  handler-Leaves A e db1 (err unavailable, s) v = v
  handler-Leaves A e db1 (err conflict, s) v = v
  handler-Leaves A e db1 (err crashed, s) v = v

  after_removal-Leaves :
      (db1 : Database) (x : Result (Unit {0}) × Broker.State b)
      → IsConsistent db1
      → Leaves (after_removal b c verdict db1 x)
  after_removal-Leaves db1 (ok x, s) v = v
  after_removal-Leaves db1 (err unavailable, s) v = v
  after_removal-Leaves db1 (err conflict, s) v = v
  after_removal-Leaves db1 (err crashed, s) v = v

  module _ (db : Database) (v : IsConsistent db) where
    registration-Leaves :
        (db1 : Database) (r : DeviceRegistration) (x : Result Bool × Broker.State b)
        → IsConsistent db1
        → Leaves (finish_registration b c verdict db db1 r x)
    registration-Leaves db1 r (err e, s) v1 = v
    registration-Leaves db1 r (ok created, s) v1 =
        let v2 = managed-IsConsistent db1 r.device_id created _ refl v1 in
        Leaves-if (is_confirmed verdict.commit) _ _ (λ h. v2)
          (λ h.
            handler-Leaves _ _ _ (undo_account b c verdict r.device_id created s)
              (settled-IsConsistent db _ verdict.commit v v2))

    row-Leaves :
        (r : DeviceRegistration) (s : Broker.State b) (o : Option Database)
        → is_none (lookup r.gateway_id db.gateways) ≡ false
        → create_device db r.device_id r.gateway_id (strip r.name) (c.hash_password r.password) ≡ o
        → Leaves (register_row b c verdict db r s o)
    row-Leaves r s none there made = v
    row-Leaves r s (some db1) there made =
        registration-Leaves db1 r (Broker.create_device b r.device_id r.password s) (
          create-IsConsistent db db1 r.device_id r.gateway_id (strip r.name)
            (c.hash_password r.password) v there made)

    register-Leaves :
        (r : DeviceRegistration) (s : Broker.State b) → Leaves (register_device b c verdict db r s)
    unfolding register_device
    register-Leaves r s =
        elim (Bool-cases (is_eligible (lock_gateway_eligibility db r.gateway_id))) [
          | inr refused ↦ rw refused v
          | inl eligible ↦ rw eligible (
              Leaves-if (is_empty (strip r.name)) _ _ (λ h. v)
                (λ h.
                  Leaves-if (not verdict.storable) _ _ (λ h'. v)
                    (λ h'. row-Leaves r s _ (eligible_there db r.gateway_id eligible) refl)))
        ]

    removal-Leaves :
        (db1 : Database) (device_id : String) (x : Result Bool × Broker.State b)
        → IsConsistent db1
        → Leaves (finish_removal b c verdict db db1 device_id x)
    removal-Leaves db1 device_id (err e, s) v1 = v
    removal-Leaves db1 device_id (ok disabled, s) v1 =
        Leaves-if (is_confirmed verdict.commit) _ _
          (λ h. after_removal-Leaves db1 (undo_account b c verdict device_id disabled s) v1)
          (λ h.
            handler-Leaves _ _ _ (restore_account b c verdict device_id disabled s)
              (settled-IsConsistent db db1 verdict.commit v v1))

    remove_row-Leaves :
        (device_id : String) (d : Device) (s : Broker.State b) (o : Option Database)
        → delete_device db device_id ≡ o
        → Leaves (remove_row b c verdict db device_id d s o)
    remove_row-Leaves device_id d s none gone = v
    remove_row-Leaves device_id d s (some db1) gone =
        removal-Leaves db1 device_id _ (delete-IsConsistent db device_id db1 v gone)

    found-Leaves :
        (device_id : String) (s : Broker.State b) (o : Option Device)
        → Leaves (remove_found b c verdict db device_id s o)
    found-Leaves device_id s none = v
    found-Leaves device_id s (some d) = remove_row-Leaves device_id d s _ refl

    configuration-Leaves :
        (device_id : String) (x : Result Bool × Broker.State b)
        → Leaves (finish_configuration b c verdict db device_id x)
    configuration-Leaves device_id (err e, s) = v
    configuration-Leaves device_id (ok managed, s) =
        let v1 = managed-IsConsistent db device_id managed _ refl v in
        Leaves-if (is_confirmed verdict.commit) _ _ (λ h. v1)
          (λ h. settled-IsConsistent db _ verdict.commit v v1)

    forget-Leaves :
        {A : Type 0} (m : Outcome A × World b c verdict) → Leaves m → Leaves (forget b c verdict m)
    forget-Leaves (done x, (db', s)) h = h
    forget-Leaves (raised e, (db', s)) h = h

    pub perform-IsConsistent :
        (request : Request) (s : Broker.State b)
        → IsConsistent (perform b c verdict request db s).1.0
    unfolding remove_device configure_existing_mqtt
    perform-IsConsistent (register r) s =
        forget-Leaves (register_device b c verdict db r s) (register-Leaves r s)
    perform-IsConsistent (remove device_id) s = found-Leaves device_id s (lock_device db device_id)
    perform-IsConsistent (configure device_id password) s =
        Leaves-if (is_known b c verdict password (lock_device db device_id)) _ _
          (λ h. configuration-Leaves device_id _) (λ h. v)

pub heartbeat-IsConsistent :
    (c : Credentials) (db db' : Database) (device_id password : String) (now : ℕ)
    → IsConsistent db
    → record_heartbeat c db device_id password now ≡ some db'
    → IsConsistent db'
unfolding record_heartbeat
heartbeat-IsConsistent c db db' device_id password now v h =
    let seen : record_presence db device_id now ≡ db' = ground (arith, h) in
    subst IsConsistent seen (presence-IsConsistent db device_id now v)
