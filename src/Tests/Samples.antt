-- ===== src/Tests/Samples.antt =====
-- Test data: a registry of one gateway and one device, and readings of that device.
use industrial_equipment_mon.Prelude.{ℕ, true, false, none, some, [], ◌∷◌, ◌+◌}
use industrial_equipment_mon.Decimal.{Decimal, pos}
use industrial_equipment_mon.Telemetry.Schemas.{
  TelemetryEvent, valid, synchronised, temperature, celsius, seconds,
}
use industrial_equipment_mon.Db.Models.{AlertTables, AlertState, AlertEpisode, Database, Device}
use industrial_equipment_mon.Telemetry.Repository.{Server}

abbrev pub degrees : ℕ → Decimal
degrees n = record { mantissa = pos n; scale = 0 }

-- A reading at second `n` of some day, of `v` degrees.
abbrev pub reading : ℕ → ℕ → TelemetryEvent
reading n v = record {
  device_id = "press";
  boot_id = "boot";
  sequence_number = n;
  measured_at = some (seconds (1000 + n));
  device_uptime_ms = n;
  gateway_received_at = seconds (1000 + n);
  metric = temperature;
  value = degrees v;
  unit = celsius;
  quality = record { reading = valid; clock = synchronised };
}

abbrev pub no_alerts : AlertTables
no_alerts = record { alert_states = []; alert_episodes = []; next_episode_id = 1 }

abbrev pub watched_state : AlertState
watched_state = record {
  last_event_at = seconds 1000;
  high_streak = 0;
  recovery_streak = 0;
  active_episode_id = none;
}

-- The device has been seen once, with no alert.
abbrev pub watched : AlertTables
watched = record {
  alert_states = ("press", watched_state) ∷ [];
  alert_episodes = [];
  next_episode_id = 1;
}

abbrev pub alarm_episode : AlertEpisode
alarm_episode = record {
  device_id = "press";
  opened_at = seconds 1000;
  resolved_at = none;
  opening_telemetry_id = 9;
  resolving_telemetry_id = none;
}

abbrev pub alarm_state : AlertState
alarm_state = record watched_state { active_episode_id = some 1 }

-- The device has an active episode.
abbrev pub alarmed : AlertTables
alarmed = record {
  alert_states = ("press", alarm_state) ∷ [];
  alert_episodes = (1, alarm_episode) ∷ [];
  next_episode_id = 2;
}

abbrev pub press : Device
press = record {
  gateway_id = "hall";
  name = "Press";
  enabled = true;
  password_hash = none;
  mqtt_managed = false;
  last_seen_at = none;
}

abbrev pub plant : Database
plant = record {
  sites = ("site", record { name = "Site"; enabled = true }) ∷ [];
  gateways = ("hall", record { site_id = "site"; name = "Hall"; enabled = true }) ∷ [];
  devices = ("press", press) ∷ [];
  telemetry = [];
  next_telemetry_id = 1;
  alerts = no_alerts;
}

-- Every insertion happens one second after the sample day's reading of its number.
abbrev pub server : Server
server = record {
  representable = λ item. true;
  received_at = λ id. seconds (1001 + id);
  seen_at = λ id. seconds (1002 + id);
}
