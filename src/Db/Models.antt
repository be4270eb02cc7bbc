-- ===== src/Db/Models.antt =====
-- db/models.py: the rows of each table, and the database as one value.
-- The primary key of a row is its key in the table. The telemetry table is the list of its rows in
-- the order of insertion, since its rows are also found by their identity.
use industrial_equipment_mon.Prelude.{false, true, ℕ, String, Bool, Option, List}
use industrial_equipment_mon.Prelude.Table.{Table}
use industrial_equipment_mon.Decimal.{Decimal}
use industrial_equipment_mon.Telemetry.Schemas.{Metric, TemperatureUnit, TelemetryQuality}

pub record Site : Type 0 where
  pub name : String
  pub enabled : Bool

pub record Gateway : Type 0 where
  pub site_id : String
  pub name : String
  pub enabled : Bool

pub record Device : Type 0 where
  pub gateway_id : String
  pub name : String
  pub enabled : Bool
  pub password_hash : Option String
  pub mqtt_managed : Bool
  pub last_seen_at : Option ℕ

pub record Telemetry : Type 0 where
  pub id : ℕ
  pub schema_version : ℕ
  pub device_id : String
  pub boot_id : String
  pub sequence_number : ℕ
  pub measured_at : Option ℕ
  pub device_uptime_ms : ℕ
  pub gateway_received_at : ℕ
  pub backend_received_at : ℕ
  pub metric : Metric
  pub value : Decimal
  pub unit : TemperatureUnit
  pub quality : TelemetryQuality

pub record AlertEpisode : Type 0 where
  pub device_id : String
  pub opened_at : ℕ
  pub resolved_at : Option ℕ
  pub opening_telemetry_id : ℕ
  pub resolving_telemetry_id : Option ℕ

pub record AlertState : Type 0 where
  pub last_event_at : ℕ
  pub high_streak : ℕ
  pub recovery_streak : ℕ
  pub active_episode_id : Option ℕ

-- The two tables that alert evaluation writes; `next_episode_id` is the identity column's sequence.
pub record AlertTables : Type 0 where
  pub alert_states : Table String AlertState
  pub alert_episodes : Table ℕ AlertEpisode
  pub next_episode_id : ℕ

pub record Database : Type 0 where
  pub sites : Table String Site
  pub gateways : Table String Gateway
  pub devices : Table String Device
  pub telemetry : List Telemetry
  pub next_telemetry_id : ℕ
  pub alerts : AlertTables

-- How a commit goes: the database confirms it; it is rolled back; or it is written and its confirmation
-- is lost. The driver raises in the last two cases, and the program cannot tell them apart.
pub data Commit : Type 0 where
  commit_confirmed commit_refused commit_unheard : Commit

abbrev pub is_confirmed : Commit → Bool
is_confirmed commit_confirmed = true
is_confirmed _ = false

-- The tables after the transaction, of those before it and those that it wrote.
abbrev pub settled : Commit → Database → Database → Database
settled commit_refused db db' = db
settled _ db db' = db'
