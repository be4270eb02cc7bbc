-- ===== src/Devices/Registration/Atomic.antt =====
-- Registration, removal and configuration in devices/service.py, where they raise.
use industrial_equipment_mon.Prelude.{
  ap, ◌⊎◌, inl, inr, str_eq, Bool-cases, String, Bool, true, false, not, Option, none, some, ◌≡◌,
  refl, eq_string, if◌then◌else◌,
}
use mathlib.Core.Path.{subst}
use industrial_equipment_mon.Prelude.Table.{lookup}
use industrial_equipment_mon.Devices.Registration.Added.{Adds, new_row-Adds}
use industrial_equipment_mon.Db.Models.{
  Commit, commit_confirmed, commit_refused, commit_unheard, is_confirmed, settled, Database, Device,
}
use industrial_equipment_mon.Telemetry.Repository.{lock_gateway_eligibility}
use industrial_equipment_mon.Telemetry.Ingest.{is_eligible}
use industrial_equipment_mon.Broker
use industrial_equipment_mon.Broker.{
  Error, unavailable, conflict, crashed, Answer, not_confirmed, not_read, answered, delete_client,
  one, tolerates, Broker, Result, ok, err,
}
use industrial_equipment_mon.Devices.Registry.{
  Credentials, lock_device, create_device, delete_device,
}
use industrial_equipment_mon.Devices.Registration.{
  set_managed, after_handler, after_removal, undo_account, restore_account, DeviceRegistration,
  Outcome, ServiceError, gateway_not_found, name_required, device_id_exists, device_not_found,
  device_has_history, invalid_device_credentials, database_failed, broker_failed, done, raised,
  Verdict, World, strip, finish_registration, register_row, finish_removal, remove_row,
  remove_found, finish_configuration, is_known, is_empty, register_device, remove_device,
  configure_existing_mqtt,
}

-- The errors that each operation can raise.
abbrev pub of_registration : ServiceError → Bool
of_registration gateway_not_found = true
of_registration name_required = true
of_registration device_id_exists = true
of_registration database_failed = true
of_registration (broker_failed e) = true
of_registration _ = false

abbrev pub of_removal : ServiceError → Bool
of_removal device_not_found = true
of_removal device_has_history = true
of_removal database_failed = true
of_removal (broker_failed e) = true
of_removal _ = false

abbrev pub of_configuration : ServiceError → Bool
of_configuration invalid_device_credentials = true
of_configuration database_failed = true
of_configuration (broker_failed e) = true
of_configuration _ = false

pub data Request : Type 0 where
  register : DeviceRegistration → Request
  remove : String → Request
  configure : String → String → Request

abbrev pub expected_of : Request → ServiceError → Bool
expected_of (register r) = of_registration
expected_of (remove device_id) = of_removal
expected_of (configure device_id password) = of_configuration

-- The tables with the whole change of a request.
abbrev pub IsWhole : Credentials → Request → Database → Database → Type 0
IsWhole c (register r) db db' = Adds c db r db'
IsWhole c (remove device_id) db db' = delete_device db device_id ≡ some db'
IsWhole c (configure device_id password) db db' =
    (managed : Bool) × (db' ≡ set_managed device_id managed (lookup device_id db.devices) db)

-- The errors behind a commit that was written: its confirmation was lost, or a removal failed in a way
-- that its clean-up does not catch.
abbrev pub IsLate : Verdict → Request → ServiceError → Type 0
IsLate verdict (remove device_id) e =
    (verdict.commit ≡ commit_unheard) ⊎ (e ≡ broker_failed crashed)
IsLate verdict _ e = verdict.commit ≡ commit_unheard

unheard-IsLate :
    (verdict : Verdict) (request : Request) (e : ServiceError)
    → verdict.commit ≡ commit_unheard
    → IsLate verdict request e
unheard-IsLate verdict (register r) e h = h
unheard-IsLate verdict (remove device_id) e h = inl h
unheard-IsLate verdict (configure device_id password) e h = h

raisable_by :
    (request : Request) (e : ServiceError)
    → (e ≡ database_failed) ⊎ ((x : Error) × (e ≡ broker_failed x))
    → expected_of request e ≡ true
raisable_by (register r) e (inl h) = ap of_registration h
raisable_by (register r) e (inr (x, h)) = ap of_registration h
raisable_by (remove device_id) e (inl h) = ap of_removal h
raisable_by (remove device_id) e (inr (x, h)) = ap of_removal h
raisable_by (configure device_id password) e (inl h) = ap of_configuration h
raisable_by (configure device_id password) e (inr (x, h)) = ap of_configuration h

abbrev IsNoConflict : {A : Type 0} → Result A → Type 0
IsNoConflict (err conflict) = ⊥
IsNoConflict _ = Unit

-- Deleting an account raises no conflict.
deleted-IsNoConflict :
    (b : Broker) (device_id : String) (s : Broker.State b) (x : Answer)
    → (Broker.exchange b (delete_client device_id) s).0 ≡ x
    → IsNoConflict (Broker.delete_device b device_id s).0
unfolding Broker.delete_device one
deleted-IsNoConflict b device_id s not_confirmed got = rw got tt
deleted-IsNoConflict b device_id s not_read got = rw got tt
deleted-IsNoConflict b device_id s (answered r) got =
    elim (Bool-cases (str_eq r.command "deleteClient")) [
      | inr strange ↦ rw (got, strange) tt
      | inl same ↦ elim (Bool-cases (tolerates "Client not found" r.error)) [
        | inl gone ↦ rw (got, same, gone) tt
        | inr refused ↦ rw (got, same, refused) tt
      ]
    ]

module _ (b : Broker) (c : Credentials) (verdict : Verdict) (request : Request)
    (db : Database) where
  -- The tables that an operation leaves where it raises, and the errors that it may raise.
  abbrev pub Settles : {A : Type 0} → Outcome A × World b c verdict → Type 0
  Settles (done x, w) = Unit
  Settles (raised e, (db', s)) =
      ((db' ≡ db) ⊎ (IsLate verdict request e × IsWhole c request db db'))
      × (expected_of request e ≡ true)

  Settles-if :
      {A : Type 0} (t : Bool) (m n : Outcome A × World b c verdict)
      → (t ≡ true → Settles m)
      → (t ≡ false → Settles n)
      → Settles (if t then m else n)
  Settles-if true m n h k = h refl
  Settles-if false m n h k = k refl

  settled_cases :
      (commit : Commit) (db1 : Database)
      → is_confirmed commit ≡ false
      → IsWhole c request db db1
      → (settled commit db db1 ≡ db)
        ⊎ ((commit ≡ commit_unheard) × IsWhole c request db (settled commit db db1))
  settled_cases commit_confirmed db1 h whole = absurd (cc)
  settled_cases commit_refused db1 h whole = inl refl
  settled_cases commit_unheard db1 h whole = inr (refl, whole)

  settled_raise :
      (e : ServiceError) (db1 : Database)
      → is_confirmed verdict.commit ≡ false
      → IsWhole c request db db1
      → (settled verdict.commit db db1 ≡ db)
        ⊎ (IsLate verdict request e × IsWhole c request db (settled verdict.commit db db1))
  settled_raise e db1 h whole = elim (settled_cases verdict.commit db1 h whole) [
    | inl same ↦ inl same
    | inr (unheard, there) ↦ inr (unheard-IsLate verdict request e unheard, there)
  ]

  handler-Settles :
      (A : Type 0) (db1 : Database) (x : Result (Unit {0}) × Broker.State b)
      → is_confirmed verdict.commit ≡ false
      → IsWhole c request db db1
      → Settles
          (after_handler b c verdict {A = A} database_failed (settled verdict.commit db db1) x)
  handler-Settles A db1 (ok x, s) h whole =
      (settled_raise database_failed db1 h whole, raisable_by request database_failed (inl refl))
  handler-Settles A db1 (err unavailable, s) h whole =
      (settled_raise database_failed db1 h whole, raisable_by request database_failed (inl refl))
  handler-Settles A db1 (err conflict, s) h whole = (
    settled_raise (broker_failed conflict) db1 h whole,
    raisable_by request (broker_failed conflict) (inr (conflict, refl)),
  )
  handler-Settles A db1 (err crashed, s) h whole = (
    settled_raise (broker_failed crashed) db1 h whole,
    raisable_by request (broker_failed crashed) (inr (crashed, refl)),
  )

module _ (b : Broker) (c : Credentials) (verdict : Verdict) (db : Database) where
  finish_registration-Settles :
      (db1 : Database) (r : DeviceRegistration) (x : Result Bool × Broker.State b)
      → create_device db r.device_id r.gateway_id (strip r.name) (c.hash_password r.password)
        ≡ some db1
      → Settles b c verdict (register r) db (finish_registration b c verdict db db1 r x)
  finish_registration-Settles db1 r (err e, s) made = (inl refl, refl)
  finish_registration-Settles db1 r (ok created, s) made =
      Settles-if b c verdict (register r) db (is_confirmed verdict.commit) _ _ (λ h. tt)
        (λ h.
          handler-Settles b c verdict (register r) db _ _
            (undo_account b c verdict r.device_id created s) h
            (new_row-Adds c db db1 r created made))

  register_row-Settles :
      (r : DeviceRegistration) (s : Broker.State b) (o : Option Database)
      → create_device db r.device_id r.gateway_id (strip r.name) (c.hash_password r.password) ≡ o
      → Settles b c verdict (register r) db (register_row b c verdict db r s o)
  register_row-Settles r s none made = (inl refl, refl)
  register_row-Settles r s (some db1) made =
      finish_registration-Settles db1 r (Broker.create_device b r.device_id r.password s) made

  after_removal-Settles :
      (db1 : Database) (device_id : String) (x : Result (Unit {0}) × Broker.State b)
      → IsNoConflict x.0
      → delete_device db device_id ≡ some db1
      → Settles b c verdict (remove device_id) db (after_removal b c verdict db1 x)
  after_removal-Settles db1 device_id (ok x, s) n gone = tt
  after_removal-Settles db1 device_id (err unavailable, s) n gone = tt
  after_removal-Settles db1 device_id (err conflict, s) n gone = absurd n
  after_removal-Settles db1 device_id (err crashed, s) n gone = (inr (inr refl, gone), refl)

  undone-IsNoConflict :
      (device_id : String) (disabled : Bool) (s : Broker.State b)
      → IsNoConflict (undo_account b c verdict device_id disabled s).0
  undone-IsNoConflict device_id true s = deleted-IsNoConflict b device_id s _ refl
  undone-IsNoConflict device_id false s = tt

  finish_removal-Settles :
      (db1 : Database) (device_id : String) (x : Result Bool × Broker.State b)
      → delete_device db device_id ≡ some db1
      → Settles b c verdict (remove device_id) db (finish_removal b c verdict db db1 device_id x)
  finish_removal-Settles db1 device_id (err e, s) gone = (inl refl, refl)
  finish_removal-Settles db1 device_id (ok disabled, s) gone =
      Settles-if b c verdict (remove device_id) db (is_confirmed verdict.commit) _ _
        (λ h.
          after_removal-Settles db1 device_id (undo_account b c verdict device_id disabled s)
            (undone-IsNoConflict device_id disabled s) gone)
        (λ h.
          handler-Settles b c verdict (remove device_id) db _ db1
            (restore_account b c verdict device_id disabled s) h gone)

  remove_row-Settles :
      (device_id : String) (d : Device) (s : Broker.State b) (o : Option Database)
      → delete_device db device_id ≡ o
      → Settles b c verdict (remove device_id) db (remove_row b c verdict db device_id d s o)
  remove_row-Settles device_id d s none gone = (inl refl, refl)
  remove_row-Settles device_id d s (some db1) gone =
      finish_removal-Settles db1 device_id
        (if d.mqtt_managed then Broker.disable_device b device_id s else (ok false, s)) gone

  remove_found-Settles :
      (device_id : String) (s : Broker.State b) (o : Option Device)
      → Settles b c verdict (remove device_id) db (remove_found b c verdict db device_id s o)
  remove_found-Settles device_id s none = (inl refl, refl)
  remove_found-Settles device_id s (some d) =
      remove_row-Settles device_id d s (delete_device db device_id) refl

  finish_configuration-Settles :
      (device_id password : String) (x : Result Bool × Broker.State b)
      → Settles b c verdict
          (configure device_id password)
          db
          (finish_configuration b c verdict db device_id x)
  finish_configuration-Settles device_id password (err e, s) = (inl refl, refl)
  finish_configuration-Settles device_id password (ok managed, s) =
      Settles-if b c verdict (configure device_id password) db (is_confirmed verdict.commit) _ _
        (λ h. tt)
        (λ h. (
          settled_raise b c verdict (configure device_id password) db database_failed _ h
              (managed, refl),
          refl,
        ))

module _ (b : Broker) (c : Credentials) (verdict : Verdict) where
  -- The outcome of an operation, without the value that it returns.
  abbrev pub forget :
      {A : Type 0} → Outcome A × World b c verdict → Outcome (Unit {0}) × World b c verdict
  forget (done x, w) = (done tt, w)
  forget (raised e, w) = (raised e, w)

  abbrev pub perform : Request → Database → Broker.State b → Outcome (Unit {0}) × World b c verdict
  perform (register r) db s = forget (register_device b c verdict db r s)
  perform (remove device_id) db s = remove_device b c verdict db device_id s
  perform (configure device_id password) db s =
      configure_existing_mqtt b c verdict db device_id password s

  forget-Settles :
      (request : Request) {A : Type 0} (db : Database) (m : Outcome A × World b c verdict)
      → Settles b c verdict request db m
      → Settles b c verdict request db (forget m)
  forget-Settles request db (done x, w) h = tt
  forget-Settles request db (raised e, w) h = h

  pub perform-Settles :
      (request : Request) (db : Database) (s : Broker.State b)
      → Settles b c verdict request db (perform request db s)
  unfolding register_device remove_device configure_existing_mqtt
  perform-Settles (register r) db s =
      forget-Settles (register r) db (register_device b c verdict db r s) (
        Settles-if b c verdict (register r) db
          (not (is_eligible (lock_gateway_eligibility db r.gateway_id))) _ _ (λ h. (inl refl, refl))
          (λ h.
            Settles-if b c verdict (register r) db (is_empty (strip r.name)) _ _
              (λ h'. (inl refl, refl))
              (λ h'.
                Settles-if b c verdict (register r) db (not verdict.storable) _ _
                  (λ q. (inl refl, refl)) (λ q. register_row-Settles b c verdict db r s _ refl))))
  perform-Settles (remove device_id) db s =
      remove_found-Settles b c verdict db device_id s (lock_device db device_id)
  perform-Settles (configure device_id password) db s =
      Settles-if b c verdict (configure device_id password) db
        (is_known b c verdict password (lock_device db device_id)) _ _
        (λ h.
          finish_configuration-Settles b c verdict db device_id password
            (Broker.ensure_device b device_id password s))
        (λ h. (inl refl, refl))

-- A registration, removal or configuration that raises has changed all or nothing: the tables are as
-- they were, or they hold the whole change, which is the new device, the removed one, or the setting of
-- the device. The latter only where the confirmation of the commit was lost, or where a removal ended in
-- an exception of another type than those of the broker.
pub raised_all_or_nothing :
    (b : Broker) (c : Credentials) (verdict : Verdict) (request : Request) (db db' : Database)
    (s s' : Broker.State b) (e : ServiceError)
    → perform b c verdict request db s ≡ (raised e, (db', s'))
    → (db' ≡ db) ⊎ (IsLate verdict request e × IsWhole c request db db')
raised_all_or_nothing b c verdict request db db' s s' e h =
    (subst (Settles b c verdict request db) h (perform-Settles b c verdict request db s)).0
