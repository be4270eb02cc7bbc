-- ===== src/Telemetry/Ingest/Effect.antt =====
-- One event of a batch, by what became of it: the tables it left and the result it got.
use industrial_equipment_mon.Prelude.{
  ℕ, ◌+◌, ◌≡◌, refl, inl, inr, String, true, false, Option, none, some, [], ◌∷◌, ◌++◌, eq_string,
  Bool-cases, Option-cases,
}
use mathlib.Core.Path.{subst}
use industrial_equipment_mon.Prelude.Table.{Table, lookup}
use industrial_equipment_mon.Telemetry.Schemas.{
  TelemetryEvent, TelemetryResponseItem, accepted, duplicate, rejected, ItemReason, malformed_value,
  identity_conflict, validate_outcome,
}
use industrial_equipment_mon.Db.Models.{Telemetry, AlertTables, Database}
use industrial_equipment_mon.Alerts.Service.{evaluate_accepted_reading}
use industrial_equipment_mon.Telemetry.Repository.{
  Server, Assignment, insert_event, new_row, find_of, read_existing_event,
}
use industrial_equipment_mon.Telemetry.Ingest.{
  Step, same_content, mark_presence, refusal, respond, ingest_event,
}
use industrial_equipment_mon.Telemetry.Ingest.Answers.{result}

-- The tables with one more number taken, and with a new row and the alert tables that it made.
abbrev pub numbered : Database → Database
numbered db = record db { next_telemetry_id = db.next_telemetry_id + 1 }

abbrev pub with_row : Server → ℕ → TelemetryEvent → AlertTables → Database → Database
with_row server version item alerts db = record db {
  telemetry = db.telemetry ++ new_row server db.next_telemetry_id version item ∷ [];
  next_telemetry_id = db.next_telemetry_id + 1;
  alerts = alerts;
}

module _ (server : Server) (gateway_id : String) (assignments : Table String Assignment)
    (version : ℕ) where
  module _ (db : Database) (item : TelemetryEvent) where
    abbrev pub is_refused : Option ItemReason
    is_refused = refusal gateway_id (lookup item.device_id assignments)

    pub data Effect : Database → TelemetryResponseItem → Type 0 where
      unassigned :
          (reason : ItemReason)
          → is_refused ≡ some reason
          → Effect db (result item rejected (some reason))
      unrepresentable :
          is_refused ≡ none
          → server.representable item ≡ false
          → Effect db (result item rejected (some malformed_value))
      repeated :
          (row : Telemetry)
          → is_refused ≡ none
          → server.representable item ≡ true
          → find_of item db.telemetry ≡ some row
          → same_content row version item ≡ true
          → Effect (numbered db) (result item duplicate none)
      conflicting :
          (row : Telemetry)
          → is_refused ≡ none
          → server.representable item ≡ true
          → find_of item db.telemetry ≡ some row
          → same_content row version item ≡ false
          → Effect (numbered db) (result item rejected (some identity_conflict))
      stored :
          (alerts : AlertTables)
          → is_refused ≡ none
          → server.representable item ≡ true
          → find_of item db.telemetry ≡ none
          → evaluate_accepted_reading db.alerts item db.next_telemetry_id
              (server.received_at db.next_telemetry_id)
            ≡ some alerts
          → Effect
              (mark_presence server
                (new_row server db.next_telemetry_id version item)
                item
                (with_row server version item alerts db))
              (result item accepted none)

  ended :
      (db db1 db2 : Database) (item : TelemetryEvent) (r1 r2 : TelemetryResponseItem) (step : Step)
      → step ≡ some (db1, r1)
      → step ≡ some (db2, r2)
      → Effect db item db1 r1
      → Effect db item db2 r2
  ended db db1 db2 item r1 r2 step h k e =
      let same : (db1, r1) ≡ (db2, r2) = cc in
      subst (λ (p : Database × TelemetryResponseItem). Effect db item p.0 p.1) same e

  pub event_effect :
      (db db1 : Database) (item : TelemetryEvent) (r : TelemetryResponseItem)
      → ingest_event server gateway_id assignments version db item ≡ some (db1, r)
      → Effect db item db1 r
  unfolding ingest_event insert_event read_existing_event respond validate_outcome
  event_effect db db1 item r h = elim (Option-cases (is_refused db item)) [
    | inr (reason, why) ↦ ended db _ db1 item _ r _ (rw why refl) h (unassigned reason why)
    | inl allowed ↦ elim (Bool-cases (server.representable item)) [
      | inr not_representable ↦
          ended db _ db1 item _ r _ (rw (allowed, not_representable) refl) h
            (unrepresentable allowed not_representable)
      | inl fits ↦ elim (Option-cases (find_of item db.telemetry)) [
        | inr (row, found) ↦ elim (Bool-cases (same_content row version item)) [
          | inl same ↦
              ended db _ db1 item _ r _ (rw (allowed, fits, found, found, same) refl) h
                (repeated row allowed fits found same)
          | inr differs ↦
              ended db _ db1 item _ r _ (rw (allowed, fits, found, found, differs) refl) h
                (conflicting row allowed fits found differs)
        ]
        | inl missing ↦
            elim (Option-cases (
              evaluate_accepted_reading db.alerts item db.next_telemetry_id
                (server.received_at db.next_telemetry_id))) [
                  | inl fault ↦ absurd (cc (rw (allowed, fits, missing, fault) at h))
                  | inr (alerts, evaluated) ↦
                      ended db _ db1 item _ r _ (rw (allowed, fits, missing, evaluated) refl) h
                        (stored alerts allowed fits missing evaluated)
                ]
      ]
    ]
  ]
