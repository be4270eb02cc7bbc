-- ===== src/Tests/Devices.antt =====
-- The theorems on devices at a registration.
use industrial_equipment_mon.Prelude.{
  ◌+◌, ◌≡◌, ◌≢◌, ◌⊎◌, ◌↔◌, refl, true, false, ◌&&◌, none, some, [], ◌∷◌, eq_string, str_eq,
  str_eq_iff, leb,
}
use industrial_equipment_mon.Prelude.Table.{lookup, insert, erase}
use industrial_equipment_mon.Telemetry.Schemas.{seconds}
use industrial_equipment_mon.Db.Models.{Device, Database, commit_confirmed, commit_unheard}
use industrial_equipment_mon.Telemetry.Repository.{
  lock_gateway_eligibility, lock_assignments, record_presence, new_row,
}
use industrial_equipment_mon.Telemetry.Ingest.{is_eligible, refusal}
use industrial_equipment_mon.Telemetry.History.{HistoryRow, history_row}
use industrial_equipment_mon.Broker
use industrial_equipment_mon.Broker.{
  Broker, crashed, one, get_client_of, clear_orphan, create_account, ensure_role, is_managed,
}
use industrial_equipment_mon.Devices.Registry.{
  Credentials, allowed, check_device_ownership, lock_device, create_device, record_heartbeat,
}
use industrial_equipment_mon.Devices.Registry.Agreement.{ownership-ingestion}
use industrial_equipment_mon.Devices.Registration.{
  DeviceRegistration, Registered, Verdict, ServiceError, done, raised, database_failed,
  broker_failed, strip, lstrip, rstrip, is_empty, register_device,
}
use industrial_equipment_mon.Devices.Registration.Added.{Adds, register-Adds, register-heartbeat}
use industrial_equipment_mon.Devices.Registration.Atomic.{
  register, perform, IsLate, IsWhole, raised_all_or_nothing,
}
use industrial_equipment_mon.Core.{Reply, failure, status}
use industrial_equipment_mon.Devices.Router.{post_device}
use industrial_equipment_mon.Devices.Router.Answers.{code_of, device_routes}
use industrial_equipment_mon.Devices.Status.{DeviceStatus, status_of, online_window}
use industrial_equipment_mon.Devices.Status.Presence.{heartbeat-online}
use industrial_equipment_mon.Tests.Samples.{reading, plant, press, server}
use industrial_equipment_mon.Tests.Broker.{Accounts, table_broker, operator, accounts}

-- Credentials that keep the password as it is.
abbrev pub plain : Credentials
plain = record {
  hash_password = λ password. password;
  verify = str_eq;
  verify_hash = λ password. (str_eq_iff password password).1 refl;
}

abbrev pub fine : Verdict
fine = record { storable = true; commit = commit_confirmed }

abbrev pub saw : DeviceRegistration
saw = record { device_id = "saw"; gateway_id = "hall"; name = " Saw "; password = "teeth" }

abbrev saw_row : Device
saw_row = record press { name = "Saw"; password_hash = some "teeth"; mqtt_managed = true }

abbrev with_saw : Database
with_saw = record plant { devices = ("press", press) ∷ ("saw", saw_row) ∷ [] }

abbrev accounts_after : Accounts
accounts_after =
    ("operator", operator)
    ∷ ("saw", record { disabled = false; roles = some (Broker.device_role ∷ []) })
    ∷ []

abbrev registered : Registered
registered = record { device_id = "saw"; gateway_id = "hall"; name = "Saw" }

registers :
    register_device table_broker plain fine plant saw accounts
    ≡ (done registered, (with_saw, accounts_after))
unfolding register_device create_device Broker.create_device get_client_of clear_orphan
    create_account ensure_role one lock_gateway_eligibility strip lstrip rstrip lookup insert
registers = refl

register-Adds_example :
    (is_eligible (lock_gateway_eligibility plant "hall") ≡ true)
    × (is_empty (strip " Saw ") ≡ false)
    × Adds plain plant saw with_saw
register-Adds_example =
    register-Adds table_broker plain fine plant with_saw saw accounts accounts_after registered
      registers

register-heartbeat_example :
    (db'' : Database) × (d : Device) × (record_heartbeat plain with_saw "saw" "teeth" 7 ≡ some db'')
    × (lookup "saw" db''.devices ≡ some d)
    × (d.last_seen_at ≡ some 7)
register-heartbeat_example =
    register-heartbeat table_broker plain fine plant with_saw saw accounts accounts_after registered
      7 registers

-- The confirmation of the commit is lost: the row stays, and the account is deleted.
abbrev unheard : Verdict
unheard = record { storable = true; commit = commit_unheard }

lost :
    perform table_broker plain unheard (register saw) plant accounts
    ≡ (raised database_failed, (with_saw, accounts))
unfolding register_device create_device Broker.create_device Broker.delete_device get_client_of
    clear_orphan create_account ensure_role one lock_gateway_eligibility strip lstrip rstrip lookup
    insert erase
lost = refl

raised_all_or_nothing_example :
    (with_saw ≡ plant)
    ⊎ (IsLate unheard (register saw) database_failed × IsWhole plain (register saw) plant with_saw)
raised_all_or_nothing_example =
    raised_all_or_nothing table_broker plain unheard (register saw) plant with_saw accounts accounts
      database_failed lost

abbrev seen : Database
seen = record with_saw {
  devices = ("press", press) ∷ ("saw", record saw_row { last_seen_at = some (seconds 7) }) ∷ [];
}

beats : record_heartbeat plain with_saw "saw" "teeth" (seconds 7) ≡ some seen
unfolding record_heartbeat lock_device lock_gateway_eligibility record_presence lookup insert
beats = refl

heartbeat-online_example :
    (d' : Device) × (st : DeviceStatus) × (lookup "saw" seen.devices ≡ some d')
    × (status_of seen (seconds 60) "saw" d' ≡ some st)
    × (st.online ≡ (leb (seconds 7) (seconds 60) && leb (seconds 60) (seconds 7 + online_window)))
unfolding lookup
heartbeat-online_example =
    heartbeat-online plain with_saw seen "saw" "teeth" saw_row (seconds 7) (seconds 60) refl beats

abbrev newer : HistoryRow
newer = history_row (new_row server 2 1 (reading 2 21))

abbrev recorded : Database
recorded = record plant {
  telemetry = new_row server 1 1 (reading 1 20) ∷ new_row server 2 1 (reading 2 21) ∷ [];
}

ownership-ingestion_example : (check_device_ownership plant "press" "hall" ≡ allowed) ↔ (
    (is_eligible (lock_gateway_eligibility plant "hall") ≡ true)
    × (refusal "hall" (lookup "press" (lock_assignments plant.devices ("press" ∷ []))) ≡ none))
ownership-ingestion_example = ownership-ingestion plant "press" "hall" ("press" ∷ []) refl

abbrev taken_reply : Reply (Unit {0})
taken_reply = failure 409 "device_id_exists"

device_routes_example :
    (status taken_reply ≡ code_of (register saw))
    ⊎ ((e : ServiceError) × ((perform table_broker plain fine
            (register (record saw { device_id = "press" }))
            plant
            accounts).0
          ≡ raised e)
        × ((plant ≡ plant)
            ⊎ (IsLate fine (register (record saw { device_id = "press" })) e
                × IsWhole plain (register (record saw { device_id = "press" })) plant plant))
        × ((status taken_reply ≢ 500) ⊎ (e ≡ broker_failed crashed)))
unfolding post_device register_device create_device lock_gateway_eligibility strip lstrip rstrip
    lookup
device_routes_example =
    device_routes table_broker plain fine (register (record saw { device_id = "press" })) plant
      plant accounts accounts taken_reply refl
