-- ===== src/Tests/System.antt =====
-- The theorems on the whole backend at a small plant.
use industrial_equipment_mon.Prelude.{
  ◌≡◌, refl, String, true, false, some, List, [], ◌∷◌, eq_string,
}
use Prim.Native.Nat.{min}
use industrial_equipment_mon.Prelude.Table.{lookup}
use industrial_equipment_mon.Core.GatewayAuth.{Credential}
use industrial_equipment_mon.Db.Models.{commit_confirmed, commit_refused, Database}
use industrial_equipment_mon.Telemetry.Ingest.{ingest_batch, committed}
use industrial_equipment_mon.Telemetry.Repository.{lock_gateway_eligibility}
use industrial_equipment_mon.Telemetry.Schemas.{TelemetryResponseItem}
use industrial_equipment_mon.Telemetry.Ingest.Sound.{IsSound}
use industrial_equipment_mon.Telemetry.Ingest.Answers.{AnswersAll}
use industrial_equipment_mon.Telemetry.Ingest.Store.{put_items, registry_refusal, view}
use industrial_equipment_mon.Telemetry.Ingest.Refinement.{ingest_batch_refines}
use industrial_equipment_mon.Telemetry.Delivery.Retries.{Attempt, deliver, delivered_at_last}
use industrial_equipment_mon.Telemetry.Router.{Ingestion, ingest_telemetry}
use industrial_equipment_mon.Telemetry.Router.Answers.{Served, ingestion_route}
use industrial_equipment_mon.Alerts.Listing.{list_alert_episodes}
use industrial_equipment_mon.Alerts.Listing.Active.{actives, IsActiveFirst}
use industrial_equipment_mon.Devices.Router.{post_heartbeat}
use industrial_equipment_mon.System.{Reach, here, next, Step}
use industrial_equipment_mon.System.Consistent.{IsConsistent}
use industrial_equipment_mon.System.Reached.{reached-IsConsistent, reached_list}
use industrial_equipment_mon.Tests.Samples.{plant, server}
use industrial_equipment_mon.Tests.Ingest.{plant-IsSound}
use industrial_equipment_mon.Tests.Broker.{table_broker, accounts}
use industrial_equipment_mon.Tests.Devices.{plain, fine}
use industrial_equipment_mon.Tests.Validation.{instants, decode, batch}

abbrev tokens : List Credential
tokens = ("hall", "first") ∷ []

abbrev posted : Ingestion
posted =
    ingest_telemetry instants decode tokens server commit_confirmed plant ("Bearer first" ∷ [])
      "body" "b1"

ingestion_route_example :
    Served instants decode tokens server commit_confirmed plant
      ("Bearer first" ∷ [])
      "body"
      "b1"
      posted
ingestion_route_example =
    ingestion_route instants decode tokens server commit_confirmed plant ("Bearer first" ∷ [])
      "body" "b1" plant-IsSound

plant-IsConsistent : IsConsistent plant
unfolding lookup
plant-IsConsistent = record {
  sound = plant-IsSound;
  links = record { states = tt; episodes = tt };
  placed = (refl, tt);
}

-- A batch, and then a heartbeat that is refused.
abbrev later : Database
later = (post_heartbeat plain fine posted.1 "press" "wrong" 7).1

run : Reach instants decode tokens table_broker plain (plant, accounts) (later, accounts)
run =
    next
      (next here
        (Step.ingestion plant accounts server commit_confirmed ("Bearer first" ∷ []) "body" "b1"))
      (Step.heartbeat posted.1 accounts fine "press" "wrong" 7)

reached-IsConsistent_example : IsConsistent later
reached-IsConsistent_example =
    reached-IsConsistent instants decode tokens table_broker plain plant later accounts accounts
      plant-IsConsistent run

reached_list_example :
    (actives (list_alert_episodes later 20).episodes
      ≡ min 20 (list_alert_episodes later 20).active_count)
    × IsActiveFirst (list_alert_episodes later 20).episodes
reached_list_example =
    reached_list instants decode tokens table_broker plain plant later accounts accounts 20
      plant-IsConsistent run

ingest_batch_refines_example :
    (db : Database) × (rs : List TelemetryResponseItem) × (ingest_batch server commit_confirmed
        plant "hall" batch "b1"
      ≡ (committed (record { batch_id = "b1"; results = rs }), db))
    × (put_items
          (registry_refusal plant "hall")
          server.representable
          1
          (view plant.telemetry)
          batch.items
        ≡ (view db.telemetry, rs))
unfolding lock_gateway_eligibility lookup
ingest_batch_refines_example =
    ingest_batch_refines server plant "hall" batch "b1" plant-IsSound refl

-- The first attempt is not committed, the answer to the second is lost.
abbrev attempts : List Attempt
attempts =
    record { before = []; commit = commit_refused; answered = true; batch_id = "b1" }
    ∷ record { before = []; commit = commit_confirmed; answered = false; batch_id = "b2" }
    ∷ record { before = []; commit = commit_confirmed; answered = true; batch_id = "b3" }
    ∷ []

delivered_at_last_example :
    (batch_id : String) × (rs : List TelemetryResponseItem) × ((deliver server "hall" batch plant
        attempts).0
      ≡ some (committed (record { batch_id = batch_id; results = rs })))
    × AnswersAll batch.items rs
    × IsSound (deliver server "hall" batch plant attempts).1
unfolding lock_gateway_eligibility lookup
delivered_at_last_example =
    delivered_at_last server "hall" batch plant attempts plant-IsSound refl refl
