-- ===== src/Core/Startup.antt =====
-- main.py, the lifespan of the application, with `BrokerAdmin.from_environment` of integrations/mqtt.py:
-- what is read before the first request. An exception stops the application.
pub mod Ready
use industrial_equipment_mon.Prelude.{ℕ, String, Option, none, some, List}
use industrial_equipment_mon.Telemetry.Json.{Value}
use industrial_equipment_mon.Core.GatewayAuth.{Credential, load_gateway_credentials}
use industrial_equipment_mon.Core.Settings.{
  Environment, Settings, Configured, configured, refused, database_conninfo, engine_settings,
}

pub record BrokerAdmin : Type 0 where
  pub host : String
  pub port : ℕ
  pub admin_password_file : String
  pub legacy_password_file : String

abbrev pub or_default : String → Option String → String
or_default default none = default
or_default default (some s) = s

abbrev pub broker_at : Environment → Option ℕ → Option BrokerAdmin
broker_at env none = none
broker_at env (some port) = some (record {
  host = or_default "mosquitto" (env "MQTT_HOST");
  port = port;
  admin_password_file =
      or_default "/mosquitto-auth/admin.password" (env "MQTT_ADMIN_PASSWORD_FILE");
  legacy_password_file = or_default "/mosquitto-auth/passwd" (env "MQTT_LEGACY_PASSWORD_FILE");
})

-- `int` is Python's, which raises where the text is no integer.
abbrev pub from_environment : (String → Option ℕ) → Environment → Option BrokerAdmin
from_environment int env = broker_at env (int (or_default "1883" (env "MQTT_PORT")))

-- The state that every request reads.
pub record ApplicationState : Type 0 where
  pub gateway_credentials : List Credential
  pub database_engine : Settings
  pub broker_admin : BrokerAdmin

abbrev pub with_broker : List Credential → Settings → Option BrokerAdmin → Option ApplicationState
with_broker credentials settings none = none
with_broker credentials settings (some broker) = some (record {
  gateway_credentials = credentials;
  database_engine = engine_settings settings;
  broker_admin = broker;
})

module _ (conninfo_to_dict : String → Option Settings) (decode : String → Option Value)
    (int : String → Option ℕ) (env : Environment) where
  abbrev pub with_credentials : Settings → Option (List Credential) → Option ApplicationState
  with_credentials settings none = none
  with_credentials settings (some credentials) =
      with_broker credentials settings (from_environment int env)

  abbrev pub with_settings : Configured → Option ApplicationState
  with_settings (refused e) = none
  with_settings (configured settings) =
      with_credentials settings (load_gateway_credentials decode (env "GATEWAY_CREDENTIALS_JSON"))

  unfoldable pub lifespan : Option ApplicationState
  lifespan = with_settings (database_conninfo conninfo_to_dict env)
