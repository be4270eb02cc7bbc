-- ===== src/System.antt =====
-- The backend as a whole: its routes as steps over one database and one broker, and what holds in
-- every state that they reach.
pub mod Consistent
pub mod Removal
pub mod Requests
pub mod Ingestion
pub mod Reached
use industrial_equipment_mon.Prelude.{ℕ, ◌≡◌, String, Bool, Option, List}
use industrial_equipment_mon.Core.{Reply}
use industrial_equipment_mon.Core.GatewayAuth.{Credential}
use industrial_equipment_mon.Telemetry.Json.{Value}
use industrial_equipment_mon.Telemetry.Validation.{Instants}
use industrial_equipment_mon.Telemetry.Repository.{Server}
use industrial_equipment_mon.Telemetry.Router.{ingest_telemetry}
use industrial_equipment_mon.Db.Models.{
  Commit, is_confirmed, settled, commit_confirmed, commit_refused, commit_unheard, Database,
}
use industrial_equipment_mon.Broker
use industrial_equipment_mon.Broker.{Broker}
use industrial_equipment_mon.Devices.Registry.{Credentials}
use industrial_equipment_mon.Devices.Registration.{Verdict}
use industrial_equipment_mon.Devices.Registration.Atomic.{Request}
use industrial_equipment_mon.Devices.Router.{post_heartbeat}
use industrial_equipment_mon.Devices.Router.Answers.{serve}

-- The libraries that every request uses, and the gateways' tokens.
module _ (i : Instants) (decode : String → Option Value) (tokens : List Credential) (b : Broker)
    (c : Credentials) where
  abbrev pub State : Type 0
  State = Database × Broker.State b

  -- One request, served to its end; the read routes change nothing. Between requests the broker may
  -- change by itself.
  pub data Step : State → State → Type 0 where
    ingestion :
        (db : Database) (s : Broker.State b) (server : Server) (commit : Commit)
        (headers : List String) (body batch_id : String)
        → Step
            (db, s)
            ((ingest_telemetry i decode tokens server commit db headers body batch_id).1, s)
    device_request :
        (db : Database) (s : Broker.State b) (verdict : Verdict) (request : Request)
        → Step (db, s) (serve b c verdict request db s).1
    heartbeat :
        (db : Database) (s : Broker.State b) (verdict : Verdict) (device_id password : String)
        (now : ℕ)
        → Step (db, s) ((post_heartbeat c verdict db device_id password now).1, s)
    broker_change : (db : Database) (s s' : Broker.State b) → Step (db, s) (db, s')

  pub data Reach (x : State) : State → Type 0 where
    here : Reach x x
    next : {y z : State} → Reach x y → Step y z → Reach x z
