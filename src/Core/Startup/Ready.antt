-- ===== src/Core/Startup/Ready.antt =====
-- Proofs on the start of the application in main.py.
use industrial_equipment_mon.Prelude.{ℕ, ◌≡◌, refl, String, Option, none, some, List}
use industrial_equipment_mon.Telemetry.Json.{Value}
use industrial_equipment_mon.Core.GatewayAuth.{Credential, load_gateway_credentials}
use industrial_equipment_mon.Core.Settings.{
  Environment, Settings, Configured, configured, refused, database_conninfo, engine_settings,
}
use industrial_equipment_mon.Core.Settings.Checked.{IsComplete, configured_complete}
use industrial_equipment_mon.Core.Startup.{
  BrokerAdmin, ApplicationState, from_environment, with_broker, with_credentials, with_settings,
  lifespan,
}

module _ (conninfo_to_dict : String → Option Settings) (decode : String → Option Value)
    (int : String → Option ℕ) (env : Environment) where
  pub record IsReady (app : ApplicationState) : Type 0 where
    pub settings : Settings
    pub complete : IsComplete settings
    pub engine : app.database_engine ≡ engine_settings settings
    pub credentials :
        load_gateway_credentials decode (env "GATEWAY_CREDENTIALS_JSON")
        ≡ some app.gateway_credentials
    pub broker : from_environment int env ≡ some app.broker_admin

  broker-IsReady :
      (settings : Settings) (cs : List Credential) (app : ApplicationState) (o : Option BrokerAdmin)
      → IsComplete settings
      → load_gateway_credentials decode (env "GATEWAY_CREDENTIALS_JSON") ≡ some cs
      → from_environment int env ≡ o
      → with_broker cs settings o ≡ some app
      → IsReady app
  broker-IsReady settings cs app none c l b h = absurd (cc)
  broker-IsReady settings cs app (some broker) c l b h = record {
    settings = settings;
    complete = c;
    engine = cc;
    credentials = cc (l, h);
    broker = cc (b, h);
  }

  credentials-IsReady :
      (settings : Settings) (app : ApplicationState) (o : Option (List Credential))
      → IsComplete settings
      → load_gateway_credentials decode (env "GATEWAY_CREDENTIALS_JSON") ≡ o
      → with_credentials conninfo_to_dict decode int env settings o ≡ some app
      → IsReady app
  credentials-IsReady settings app none c l h = absurd (cc)
  credentials-IsReady settings app (some cs) c l h = broker-IsReady settings cs app _ c l refl h

  settings-IsReady :
      (app : ApplicationState) (x : Configured)
      → database_conninfo conninfo_to_dict env ≡ x
      → with_settings conninfo_to_dict decode int env x ≡ some app
      → IsReady app
  settings-IsReady app (refused e) d h = absurd (cc)
  settings-IsReady app (configured settings) d h =
      credentials-IsReady settings app _ (configured_complete conninfo_to_dict env settings d) refl
        h

  -- The application starts with what its environment gives, and with all of it.
  pub lifespan-IsReady :
      (app : ApplicationState) → lifespan conninfo_to_dict decode int env ≡ some app → IsReady app
  unfolding lifespan
  lifespan-IsReady app h = settings-IsReady app (database_conninfo conninfo_to_dict env) refl h
