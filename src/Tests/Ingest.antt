-- ===== src/Tests/Ingest.antt =====
-- The theorems on ingestion at a concrete batch.
use industrial_equipment_mon.Prelude.{
  ℕ, ◌≡◌, refl, String, Option, none, some, List, [], ◌∷◌, eq_string,
}
use industrial_equipment_mon.Prelude.Table.{lookup, insert}
use industrial_equipment_mon.Decimal.{lt_decimal, eq_decimal}
use industrial_equipment_mon.Telemetry.Schemas.{
  TelemetryResponseItem, event, response, ValidatedTelemetryBatch, Outcome, accepted, duplicate,
  rejected, ItemReason, unknown_device, malformed_value, validate_outcome, seconds,
}
use industrial_equipment_mon.Db.Models.{commit_confirmed, Database}
use industrial_equipment_mon.Alerts.Service.{
  evaluate_accepted_reading, advance_idle, advance_active,
}
use industrial_equipment_mon.Telemetry.Repository.{
  lock_gateway_eligibility, lock_assignments, insert_event, find_event, read_existing_event,
  record_presence, new_row,
}
use industrial_equipment_mon.Telemetry.Ingest.{
  committed, ingest_batch, ingest_items, ingest_event, respond, same_content,
}
use industrial_equipment_mon.Telemetry.Ingest.Sound.{IsSound}
use industrial_equipment_mon.Telemetry.Ingest.Retry.{confirm_all, SameTables}
use industrial_equipment_mon.Telemetry.Ingest.Traffic.{Ingestion, after_traffic}
use industrial_equipment_mon.Telemetry.Ingest.Resend.{resend_stores_nothing}
use industrial_equipment_mon.Tests.Alerts.{no_alerts-IsValid}
use industrial_equipment_mon.Tests.Samples.{reading, plant, press, server, watched_state, no_alerts}

pub plant-IsSound : IsSound plant
plant-IsSound = record { alerts = no_alerts-IsValid; distinct = tt; ids = tt; registered = tt }

abbrev no_identity : TelemetryResponseItem
no_identity = record {
  device_id = none;
  boot_id = none;
  sequence_number = none;
  outcome = rejected;
  reason = some malformed_value;
}

abbrev batch : ValidatedTelemetryBatch
batch = record {
  schema_version = 1;
  items =
      event (reading 1 35)
      ∷ response no_identity
      ∷ event (record (reading 2 35) { device_id = "saw" })
      ∷ event (reading 1 35)
      ∷ [];
}

abbrev answer_of : String → ℕ → Outcome → Option ItemReason → TelemetryResponseItem
answer_of device n o reason = record {
  device_id = some device;
  boot_id = some "boot";
  sequence_number = some n;
  outcome = o;
  reason = reason;
}

abbrev results : List TelemetryResponseItem
results =
    answer_of "press" 1 accepted none
    ∷ no_identity
    ∷ answer_of "saw" 2 rejected (some unknown_device)
    ∷ answer_of "press" 1 duplicate none
    ∷ []

abbrev stored : Database
stored = record plant {
  devices = ("press", record press { last_seen_at = some (seconds 1003) }) ∷ [];
  telemetry = new_row server 1 1 (reading 1 35) ∷ [];
  next_telemetry_id = 3;
  alerts = record no_alerts {
    alert_states =
        ("press", record watched_state { last_event_at = seconds 1001; high_streak = 1 }) ∷ [];
  };
}

-- A batch with a new reading, a malformed item, an unknown device and the reading once more.
mixed_batch :
    ingest_batch server commit_confirmed plant "hall" batch "b1"
    ≡ (committed (record { batch_id = "b1"; results = results }), stored)
unfolding ingest_batch ingest_items ingest_event respond validate_outcome lock_gateway_eligibility
    lock_assignments insert_event find_event read_existing_event record_presence same_content lookup
    insert evaluate_accepted_reading advance_idle advance_active lt_decimal eq_decimal
mixed_batch = refl

-- Another batch of the same gateway, with a new reading.
abbrev other_batch : Ingestion
other_batch = record {
  server = server;
  commit = commit_confirmed;
  gateway_id = "hall";
  batch = record { schema_version = 1; items = event (reading 3 20) ∷ [] };
  batch_id = "b9";
}

abbrev later : Database
later = after_traffic (other_batch ∷ []) stored

resend_stores_nothing_example :
    (db : Database) × (ingest_batch server commit_confirmed later "hall" batch "b2"
      ≡ (committed (record { batch_id = "b2"; results = confirm_all batch.items results }), db))
    × SameTables db later
resend_stores_nothing_example =
    resend_stores_nothing server plant stored "hall" batch "b1" "b2" results (other_batch ∷ [])
      mixed_batch
